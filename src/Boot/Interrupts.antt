-- ===== src/Boot/Interrupts.antt =====
-- An interrupt of the timer in driver/interrupt/interrupt.c, driver/interrupt/gicv3/gicv3.c and
-- driver/timer/arm64_timer.c.
use armv8_os.Prelude.{
  ℕ, suc, ◌+◌, ◌*◌, ◌-◌, ◌%◌, ◌^◌, ◌<◌, ◌≡◌, ◌≢◌, ◌==◌, false, if◌then◌else◌, ◌∷◌, arith, ap, ◌∙◌,
  refl, ◌≤◌, ◌⊎◌, inl, inr, leb, ltb, true,
}
use armv8_os.Interrupt.{
  nr_irqs, einval, Kernel, handle_domain_irq, generic_handle_irq, irq_to_desc, irq_enter, irq_exit,
}
use armv8_os.Io
use armv8_os.Io.{Event, Trace, Bus, mrs, msr, isb}
use armv8_os.Gicv3.{on_trace, gic_read_iar, gicv3_handle_irq, gicv3_eoi_irq}
use armv8_os.Timer.{arm64_arch_timer_tandler}
use armv8_os.Boot.{Symbols, call_handler, call_irq}

-- What the linker's addresses have in common with all others: they tell the functions apart.
pub record Distinct (s : Symbols) : Type 0 where
  pub handle : s.gicv3_handle_irq ≢ 0
  pub tandler : s.arm64_arch_timer_tandler ≢ 0
  pub unmask : s.gicv3_unmask_irq ≢ 0
  pub mask_unmask : s.gicv3_mask_irq ≢ s.gicv3_unmask_irq
  pub mask_tandler : s.gicv3_mask_irq ≢ s.arm64_arch_timer_tandler
  pub unmask_tandler : s.gicv3_unmask_irq ≢ s.arm64_arch_timer_tandler

-- The accesses of a tick.
abbrev pub tick : (cpu_khz : ℕ) → Trace → Trace
tick cpu_khz t =
    msr Io.icc_eoir1_el1 30
    ∷ isb
    ∷ msr Io.cntp_tval_el0 (cpu_khz * 10 % 2 ^ 64)
    ∷ mrs Io.icc_iar1_el1 30
    ∷ t

module _ (bus : Bus) (s : Symbols) (bad_irq : Kernel → Kernel) (spurious : ℕ → Kernel → Kernel)
    (g : Trace → Trace) where
  called :
      (f : ℕ) (k : Kernel)
      → s.gicv3_handle_irq ≢ 0
      → f ≡ s.gicv3_handle_irq
      → gicv3_handle_irq bus (call_handler s bad_irq) spurious k ≡ on_trace g k
      → (if f == 0 then k else call_irq bus s bad_irq spurious f 0 k) ≡ on_trace g k
  unfolding call_irq
  called f k there_is registered e =
      let null : (s.gicv3_handle_irq == 0) ≡ false = ground (arith, there_is) in
      let same : (s.gicv3_handle_irq == s.gicv3_handle_irq) ≡ true = ground arith in
      rw (registered, null, same) e

  -- A call of handle_domain_irq is one of gicv3_handle_irq, where this leaves all but the trace.
  pub handle_domain_irq-through :
      (k : Kernel)
      → s.gicv3_handle_irq ≢ 0
      → k.handle_arch_irq ≡ s.gicv3_handle_irq
      → k.interrupt_nest < 2 ^ 64
      → gicv3_handle_irq bus (call_handler s bad_irq) spurious (irq_enter k)
        ≡ on_trace g (irq_enter k)
      → handle_domain_irq (call_irq bus s bad_irq spurious) k ≡ on_trace g k
  unfolding handle_domain_irq irq_enter irq_exit
  handle_domain_irq-through k there_is registered few e =
      let nest : (suc k.interrupt_nest % 2 ^ 64 + 2 ^ 64 - 1) % 2 ^ 64 ≡ k.interrupt_nest =
        omega arith in
      ap irq_exit (called k.handle_arch_irq (irq_enter k) there_is registered e)
      ∙ ap (λ (n : ℕ). record (on_trace g k) { interrupt_nest = n }) nest

module _ (bus : Bus) (s : Symbols) (d : Distinct s) (bad_irq : Kernel → Kernel)
    (spurious : ℕ → Kernel → Kernel) (k : Kernel) where
  call_tandler :
      (k : Kernel)
      → call_handler s bad_irq s.arm64_arch_timer_tandler 30 k ≡ arm64_arch_timer_tandler 30 k
  unfolding call_handler
  call_tandler k = let a = d.mask_tandler in let b = d.unmask_tandler in ground (arith, a, b)

  gicv3_handle_irq-tick :
      (k.irq_desc 30).handle_irq ≡ s.arm64_arch_timer_tandler
      → (gic_read_iar bus k.machine.trace).0 ≡ 30
      → gicv3_handle_irq bus (call_handler s bad_irq) spurious k
        ≡ on_trace (tick k.machine.cpu_khz) k
  unfolding gicv3_handle_irq gicv3_eoi_irq generic_handle_irq irq_to_desc gic_read_iar
      arm64_arch_timer_tandler
  gicv3_handle_irq-tick handler iar = rw (iar, handler, call_tandler) refl

-- If functions have different addresses, gicv3_handle_irq is registered, line 30 has the handler
-- of the timer, and the nesting counter is a number of 64 bits, a call of `handle_domain_irq`
-- where line 30 is pending acknowledges it, sets the next compare value, and ends the interrupt,
-- in this order, and leaves everything else, the nesting counter included, as it was.
pub handle_domain_irq-tick :
    (bus : Bus) (s : Symbols) (bad_irq : Kernel → Kernel) (spurious : ℕ → Kernel → Kernel)
    (k : Kernel)
    → Distinct s
    → k.handle_arch_irq ≡ s.gicv3_handle_irq
    → (k.irq_desc 30).handle_irq ≡ s.arm64_arch_timer_tandler
    → (gic_read_iar bus k.machine.trace).0 ≡ 30
    → k.interrupt_nest < 2 ^ 64
    → handle_domain_irq (call_irq bus s bad_irq spurious) k ≡ on_trace (tick k.machine.cpu_khz) k
unfolding irq_enter
handle_domain_irq-tick bus s bad_irq spurious k d registered handler iar few =
    handle_domain_irq-through bus s bad_irq spurious (tick k.machine.cpu_khz) k d.handle registered
      few (gicv3_handle_irq-tick bus s d bad_irq spurious (irq_enter k) handler iar)

-- The accesses where no handler is called: a spurious number is only reported, by `says`, and a number
-- that has no descriptor is ended.
abbrev pub refused : (says : ℕ → Trace → Trace) → (irqnr : ℕ) → Trace → Trace
refused says irqnr t =
    if leb irqnr 1023
    then says irqnr (mrs Io.icc_iar1_el1 irqnr ∷ t)
    else msr Io.icc_eoir1_el1 irqnr ∷ mrs Io.icc_iar1_el1 irqnr ∷ t

module _ (bus : Bus) (s : Symbols) (bad_irq : Kernel → Kernel) (says : ℕ → Trace → Trace) where
  abbrev reports : ℕ → Kernel → Kernel
  reports irqnr k = on_trace (says irqnr) k

  no_descriptor :
      (invoke : ℕ → ℕ → Kernel → Kernel) (irq : ℕ) (k : Kernel)
      → nr_irqs ≤ irq
      → generic_handle_irq invoke irq k ≡ (k, einval)
  unfolding generic_handle_irq irq_to_desc
  no_descriptor invoke irq k h =
      let c : ltb irq nr_irqs ≡ false = ground (arith, h) in rw (generic_handle_irq, c) refl

  gicv3_handle_irq-refused :
      (irqnr : ℕ) (k : Kernel)
      → (gic_read_iar bus k.machine.trace).0 ≡ irqnr
      → ((1020 ≤ irqnr) × (irqnr ≤ 1023)) ⊎ (nr_irqs ≤ irqnr)
      → gicv3_handle_irq bus (call_handler s bad_irq) reports k ≡ on_trace (refused says irqnr) k
  unfolding gicv3_handle_irq gicv3_eoi_irq gic_read_iar
  gicv3_handle_irq-refused irqnr k iar (inl h) =
      let a : leb 1020 irqnr ≡ true = ground (arith, h) in
      let b : leb irqnr 1023 ≡ true = ground (arith, h) in rw (iar, a, b) refl
  gicv3_handle_irq-refused irqnr k iar (inr h) =
      let b : leb irqnr 1023 ≡ false = ground (arith, h) in
      let a : leb 1020 irqnr ≡ true = ground (arith, h) in
      rw (iar, a, b, no_descriptor (call_handler s bad_irq) irqnr _ h) refl

  -- If gicv3_handle_irq is at an address that is not NULL and registered, its message for a
  -- spurious number only adds to the trace, and the nesting counter is a number of 64 bits, a call
  -- of `handle_domain_irq` where the controller hands out a number from 1020 to 1023 only reports
  -- it and ends no interrupt, and where it hands out one that has no descriptor, ends it; no
  -- handler is called and all else, the nesting counter included, is as it was.
  pub handle_domain_irq-refused :
      (irqnr : ℕ) (k : Kernel)
      → s.gicv3_handle_irq ≢ 0
      → k.handle_arch_irq ≡ s.gicv3_handle_irq
      → (gic_read_iar bus k.machine.trace).0 ≡ irqnr
      → ((1020 ≤ irqnr) × (irqnr ≤ 1023)) ⊎ (nr_irqs ≤ irqnr)
      → k.interrupt_nest < 2 ^ 64
      → handle_domain_irq (call_irq bus s bad_irq (λ irqnr k. on_trace (says irqnr) k)) k
        ≡ on_trace (refused says irqnr) k
  unfolding irq_enter
  handle_domain_irq-refused irqnr k there_is registered iar h few =
      handle_domain_irq-through bus s bad_irq reports (refused says irqnr) k there_is registered few
        (gicv3_handle_irq-refused irqnr (irq_enter k) iar h)
