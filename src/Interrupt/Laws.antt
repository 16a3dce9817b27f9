-- ===== src/Interrupt/Laws.antt =====
-- Registration, dispatch and nesting in driver/interrupt/interrupt.c.
use armv8_os.Prelude.{
  if_holds, ap, ◌∙◌, not, ◌&&◌, ℕ, suc, ◌-◌, ◌<◌, ◌≤◌, ◌≡◌, ◌≢◌, ◌^◌, ltb, ◌==◌, if◌then◌else◌,
  Option, none, some, refl, arith,
}
use armv8_os.Prelude.Int.{ℤ, pos}
use armv8_os.Interrupt.{
  IrqChip, Kernel, nr_irqs, einval, ebusy, boot, irq_enter, irq_exit, irq_to_desc, set_irq_chip,
  set_handle_irq, fill_desc, generic_handle_irq, handle_domain_irq, mask_irq, unmask_irq, setup_irq,
  request_irq, is_interrupt_nest,
}

module _ (invoke : ℕ → ℕ → Kernel → Kernel) where
  unmask_irq-quiet :
      (irq : ℕ) (k : Kernel)
      → ((k' : Kernel) → (invoke k.irq_chip.irq_unmask irq k').irq_desc ≡ k'.irq_desc)
      → (unmask_irq invoke irq k).irq_desc ≡ k.irq_desc
  unfolding unmask_irq
  unmask_irq-quiet irq k quiet =
      if_holds (λ (k' : Kernel). k'.irq_desc ≡ k.irq_desc) (k.irq_chip.irq_unmask == 0) (λ _. refl)
        (λ _. quiet k)

  pub in_table : (irq : ℕ) → irq < nr_irqs → irq_to_desc irq ≡ some irq
  unfolding irq_to_desc
  in_table irq h = ground arith

  requested :
      (irq handler flags name handler_data : ℕ) (k : Kernel)
      → ((k' : Kernel) → (invoke k.irq_chip.irq_unmask irq k').irq_desc ≡ k'.irq_desc)
      → irq < nr_irqs
      → (request_irq invoke irq handler flags name handler_data k).0.irq_desc ≡ (λ i.
          if i == irq
          then fill_desc handler flags name handler_data (k.irq_desc i)
          else k.irq_desc i)
  unfolding request_irq setup_irq
  requested irq handler flags name handler_data k quiet h =
      rw (request_irq, in_table irq h) (unmask_irq-quiet irq _ quiet)

  dispatched :
      (irq : ℕ) (k : Kernel)
      → irq < nr_irqs
      → generic_handle_irq invoke irq k ≡ (invoke ((k.irq_desc irq).handle_irq) irq k, pos 0)
  unfolding generic_handle_irq
  dispatched irq k h = rw (generic_handle_irq, in_table irq h)

  -- Where the unmask function of the chip leaves the descriptors as they are and the line is in
  -- the table, after `request_irq` with a handler `generic_handle_irq` of that line calls this
  -- handler, and of any other line the one it had; a NULL handler keeps the old one.
  pub request_irq-generic_handle_irq :
      (irq handler flags name handler_data other : ℕ) (k : Kernel)
      → ((k' : Kernel) → (invoke k.irq_chip.irq_unmask irq k').irq_desc ≡ k'.irq_desc)
      → irq < nr_irqs
      → other < nr_irqs
      → generic_handle_irq invoke other
          ((request_irq invoke irq handler flags name handler_data k).0)
        ≡ (
          invoke
              (if (other == irq) && not (handler == 0)
                then handler
                else (k.irq_desc other).handle_irq)
              other
              ((request_irq invoke irq handler flags name handler_data k).0),
          pos 0,
        )
  unfolding fill_desc
  request_irq-generic_handle_irq irq handler flags name handler_data other k quiet h h' =
      let k' : Kernel = (request_irq invoke irq handler flags name handler_data k).0 in
      let called : (k'.irq_desc other).handle_irq ≡ (
          if (other == irq) && not (handler == 0) then handler else (k.irq_desc other).handle_irq) =
        rw (requested irq handler flags name handler_data k quiet h) (ground arith) in
      dispatched other k' h' ∙ ap (λ f. (invoke f other k', pos 0)) called

  -- For a line from NR_IRQS on, `request_irq` and `generic_handle_irq` return -EINVAL and change
  -- nothing.
  pub irq_rejected :
      (irq handler flags name handler_data : ℕ) (k : Kernel)
      → nr_irqs ≤ irq
      → (request_irq invoke irq handler flags name handler_data k ≡ (k, einval))
        × (generic_handle_irq invoke irq k ≡ (k, einval))
  unfolding generic_handle_irq request_irq irq_to_desc
  irq_rejected irq handler flags name handler_data k h = ground arith

  -- If the handler of the controller leaves the nesting counter as it finds it and the counter is
  -- below its maximum, `handle_domain_irq` is a call of this handler, if there is one, in the
  -- state where the counter is one higher and `is_interrupt_nest` holds, after which the counter
  -- is again what it was.
  pub handle_domain_irq-nest :
      (k : Kernel)
      → k.interrupt_nest < 2 ^ 64 - 1
      → ((k' : Kernel) → (invoke k.handle_arch_irq 0 k').interrupt_nest ≡ k'.interrupt_nest)
      → let inside : Kernel = record k { interrupt_nest = suc k.interrupt_nest } in
        (handle_domain_irq invoke k
          ≡ record (if k.handle_arch_irq == 0 then inside else invoke k.handle_arch_irq 0 inside) {
            interrupt_nest = k.interrupt_nest;
          })
        × (is_interrupt_nest inside ≡ pos 1)
  unfolding handle_domain_irq irq_enter irq_exit is_interrupt_nest
  handle_domain_irq-nest k h balanced =
      let inside : Kernel = record k { interrupt_nest = suc k.interrupt_nest } in
      let called =
        λ (k' : Kernel). if k.handle_arch_irq == 0 then k' else invoke k.handle_arch_irq 0 k' in
      let entered : irq_enter k ≡ inside =
        ap (λ n. record k { interrupt_nest = n }) (omega arith) in
      let back : (called inside).interrupt_nest ≡ suc k.interrupt_nest =
        if_holds (λ (k' : Kernel). k'.interrupt_nest ≡ suc k.interrupt_nest)
          (k.handle_arch_irq == 0) (λ _. refl) (λ _. balanced inside) in
      (
        ap (λ k'. irq_exit (called k')) entered
            ∙ ap (λ n. record (called inside) { interrupt_nest = n }) (omega (arith, back)),
        ground arith,
      )

-- `set_handle_irq` of a function on a free slot takes it, and every later call returns -EBUSY and
-- changes nothing.
set_handle_irq-once :
    (f g : ℕ) (k : Kernel)
    → f ≢ 0
    → k.handle_arch_irq ≡ 0
    → (((set_handle_irq f k).0).handle_arch_irq ≡ f)
      × (set_handle_irq g ((set_handle_irq f k).0) ≡ ((set_handle_irq f k).0, ebusy))
unfolding set_handle_irq
set_handle_irq-once f g k h free = ground arith

-- No descriptor has a NULL handler.
abbrev pub Installed : Kernel → Type 0
Installed k = (irq : ℕ) → (k.irq_desc irq).handle_irq ≢ 0

module _ (invoke : ℕ → ℕ → Kernel → Kernel) (handle_bad_irq : ℕ) where
  -- What the functions of the file lead to from the start.
  pub data Reachable : Kernel → Type 0 where
    booted : Reachable (boot handle_bad_irq)
    request :
        (irq handler flags name handler_data : ℕ) (k : Kernel)
        → Reachable k
        → Reachable (request_irq invoke irq handler flags name handler_data k).0
    chip : (c : Option IrqChip) (k : Kernel) → Reachable k → Reachable (set_irq_chip c k).0
    arch : (f : ℕ) (k : Kernel) → Reachable k → Reachable (set_handle_irq f k).0
    mask : (irq : ℕ) (k : Kernel) → Reachable k → Reachable (mask_irq invoke irq k)
    unmask : (irq : ℕ) (k : Kernel) → Reachable k → Reachable (unmask_irq invoke irq k)
    dispatch : (irq : ℕ) (k : Kernel) → Reachable k → Reachable (generic_handle_irq invoke irq k).0
    interrupt : (k : Kernel) → Reachable k → Reachable (handle_domain_irq invoke k)

module _ (invoke : ℕ → ℕ → Kernel → Kernel) (handle_bad_irq : ℕ) (bad : handle_bad_irq ≢ 0)
    (callbacks : (f x : ℕ) (k : Kernel) → Installed k → Installed (invoke f x k)) where
  called_Installed :
      (f x : ℕ) (k : Kernel) → Installed k → Installed (if f == 0 then k else invoke f x k)
  called_Installed f x k safe = if_holds Installed (f == 0) (λ _. safe) (λ _. callbacks f x k safe)

  request_Installed :
      (irq handler flags name handler_data : ℕ) (k : Kernel)
      → Installed k
      → Installed (request_irq invoke irq handler flags name handler_data k).0
  unfolding request_irq irq_to_desc setup_irq unmask_irq fill_desc
  request_Installed irq handler flags name handler_data k safe =
      let filled : Kernel = record k {
        irq_desc = λ i.
            if i == irq
            then fill_desc handler flags name handler_data (k.irq_desc i)
            else k.irq_desc i;
      } in
      let safe' : Installed filled = λ i. ground (arith, safe i) in
      let called = called_Installed k.irq_chip.irq_unmask irq filled safe' in
      if_holds
        (λ (d : Option ℕ). Installed (
          (elim d as (λ _. Kernel × ℤ) [
            | none ↦ (k, einval)
            | some desc ↦ (
              (setup_irq invoke irq (record k {
                irq_desc = λ i.
                    if i == desc
                    then fill_desc handler flags name handler_data (k.irq_desc i)
                    else k.irq_desc i;
              })).0,
              pos 0,
            )
          ]).0))
        (ltb irq nr_irqs) {x = some irq} {y = none} (λ _. called) (λ _. safe)

  dispatch_Installed :
      (irq : ℕ) (k : Kernel) → Installed k → Installed (generic_handle_irq invoke irq k).0
  unfolding generic_handle_irq irq_to_desc
  dispatch_Installed irq k safe =
      if_holds
        (λ (d : Option ℕ). Installed (
          (elim d as (λ _. Kernel × ℤ) [
            | none ↦ (k, einval)
            | some desc ↦ (invoke ((k.irq_desc desc).handle_irq) desc k, pos 0)
          ]).0))
        (ltb irq nr_irqs) {x = some irq} {y = none} (λ _. callbacks _ irq k safe) (λ _. safe)

  -- If handle_bad_irq is not NULL and no function that is called through a pointer puts NULL into
  -- the table, then in every state that the functions of the file lead to from the start, no
  -- descriptor has a NULL handler: the dispatch never calls NULL.
  pub Reachable-Installed : (k : Kernel) → Reachable invoke handle_bad_irq k → Installed k
  unfolding boot set_irq_chip set_handle_irq mask_irq unmask_irq handle_domain_irq irq_enter
      irq_exit
  Reachable-Installed k booted = λ irq. bad
  Reachable-Installed k (request irq handler flags name handler_data k1 r) =
      request_Installed irq handler flags name handler_data k1 (Reachable-Installed k1 r)
  Reachable-Installed k (chip none k1 r) = Reachable-Installed k1 r
  Reachable-Installed k (chip (some c) k1 r) = Reachable-Installed k1 r
  Reachable-Installed k (arch f k1 r) =
      let safe = Reachable-Installed k1 r in
      if_holds (λ (a : Kernel × ℤ). Installed a.0) (k1.handle_arch_irq == 0)
        {x = (record k1 { handle_arch_irq = f }, pos 0)} {y = (k1, ebusy)} (λ _. safe) (λ _. safe)
  Reachable-Installed k (mask irq k1 r) =
      called_Installed k1.irq_chip.irq_mask irq k1 (Reachable-Installed k1 r)
  Reachable-Installed k (unmask irq k1 r) =
      called_Installed k1.irq_chip.irq_unmask irq k1 (Reachable-Installed k1 r)
  Reachable-Installed k (dispatch irq k1 r) = dispatch_Installed irq k1 (Reachable-Installed k1 r)
  Reachable-Installed k (interrupt k1 r) =
      called_Installed k1.handle_arch_irq 0 (irq_enter k1) (Reachable-Installed k1 r)
