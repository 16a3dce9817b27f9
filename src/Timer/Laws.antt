-- ===== src/Timer/Laws.antt =====
-- The timer of driver/timer/arm64_timer.c by what its control register holds.
use armv8_os.Prelude.{
  if_holds, some, none, Option, Bool, ℕ, ◌+◌, ◌*◌, ◌-◌, ◌/◌, ◌%◌, ◌^◌, ◌<◌, ◌≡◌, ◌==◌, ◌&&◌, true,
  if◌then◌else◌, [], ◌∷◌, bit_and, bit_or, arith, min, max, refl, ◌∙◌,
}
use armv8_os.Prelude.Bitwise.{bit_and_mask, bit_and-bit, bit, bit-bit_or, bit-bit_and}
use armv8_os.Io
use armv8_os.Io.{Event, Trace, Bus}
use armv8_os.Interrupt.{fill_desc, unmask_irq, setup_irq, Kernel, request_irq, nr_irqs}
use armv8_os.Interrupt.Laws.{in_table}
use armv8_os.Timer.{
  pos, write_cntp_tval_el0, read_cntpct_el0, read_cntfrq_el0, arm64_arch_timer_init, Kernel,
  arch_timer_start, arch_timer_stop, arch_timer_interrupt_enable, arch_timer_interrupt_disable,
}

-- ENABLE and IMASK, the writable bits of the control register: the last value written, before
-- the trace `start`.
abbrev pub control : (start : ℕ) → Trace → ℕ
control start [] = start % 4
control start (Event.msr Io.cntp_ctl_el0 val ∷ t) = val % 4
control start (_ ∷ t) = control start t

-- The compare value that was last written.
abbrev pub compare : Trace → Option ℕ
compare [] = none
compare (Event.msr Io.cntp_tval_el0 val ∷ t) = some val
compare (_ ∷ t) = compare t

-- Every compare value was written while the timer was stopped and its interrupt masked.
abbrev pub set_while_stopped : (start : ℕ) → Trace → Bool
set_while_stopped start [] = true
set_while_stopped start (Event.msr Io.cntp_tval_el0 val ∷ t) =
    (control start t == 2) && set_while_stopped start t
set_while_stopped start (_ ∷ t) = set_while_stopped start t

-- The two bits of an operation on words.
two_bits : (a : ℕ) → a % 4 ≡ bit a 0 + 2 * bit a 1
two_bits a = omega arith

or_low : (a b : ℕ) → bit_or a b % 4 ≡ max (bit a 0) (bit b 0) + 2 * max (bit a 1) (bit b 1)
or_low a b = two_bits (bit_or a b) ∙ rw (bit-bit_or a b 0, bit-bit_or a b 1) refl

and_low : (a b : ℕ) → bit_and a b % 4 ≡ min (bit a 0) (bit b 0) + 2 * min (bit a 1) (bit b 1)
and_low a b = two_bits (bit_and a b) ∙ rw (bit-bit_and a b 0, bit-bit_and a b 1) refl

-- What is read of the control register's two bits is what they hold.
abbrev pub Readable : (bus : Bus) → (start : ℕ) → Type 0
Readable bus start = (t : Trace) → bus.sysreg t Io.cntp_ctl_el0 % 4 ≡ control start t

module _ (bus : Bus) (start : ℕ) (reads : Readable bus start) (t : Trace) where
  abbrev c : ℕ
  c = bus.sysreg t Io.cntp_ctl_el0 % 2 ^ 64

  control-arch_timer_start : control start (arch_timer_start bus t) ≡ control start t / 2 * 2 + 1
  unfolding arch_timer_start
  control-arch_timer_start =
      let r = reads t in let m = bit_and_mask 1 c in let o = or_low c 1 in ground (arith, r, m, o)

  control-arch_timer_stop : control start (arch_timer_stop bus t) ≡ control start t / 2 * 2
  unfolding arch_timer_stop
  control-arch_timer_stop =
      let r = reads t in
      let m = bit_and_mask 1 c in let o = and_low c (2 ^ 64 - 2) in ground (arith, r, m, o)

  control-arch_timer_interrupt_disable :
      control start (arch_timer_interrupt_disable bus t) ≡ 2 + control start t % 2
  unfolding arch_timer_interrupt_disable
  control-arch_timer_interrupt_disable =
      let r = reads t in let m = bit_and-bit 1 c in let o = or_low c 2 in ground (arith, r, m, o)

  control-arch_timer_interrupt_enable :
      control start (arch_timer_interrupt_enable bus t) ≡ control start t % 2
  unfolding arch_timer_interrupt_enable
  control-arch_timer_interrupt_enable =
      let r = reads t in
      let m = bit_and-bit 1 c in let o = and_low c (2 ^ 64 - 3) in ground (arith, r, m, o)

-- The accesses that are not writes to the compare register.
abbrev Keeps : (start : ℕ) → Trace → Trace → Type 0
Keeps start t t' =
    (compare t' ≡ compare t) × (set_while_stopped start t' ≡ set_while_stopped start t)

module _ (bus : Bus) (start : ℕ) (t : Trace) where
  arch_timer_start-Keeps : Keeps start t (arch_timer_start bus t)
  unfolding arch_timer_start
  arch_timer_start-Keeps = ground arith

  arch_timer_stop-Keeps : Keeps start t (arch_timer_stop bus t)
  unfolding arch_timer_stop
  arch_timer_stop-Keeps = ground arith

  arch_timer_interrupt_disable-Keeps : Keeps start t (arch_timer_interrupt_disable bus t)
  unfolding arch_timer_interrupt_disable
  arch_timer_interrupt_disable-Keeps = ground arith

  arch_timer_interrupt_enable-Keeps : Keeps start t (arch_timer_interrupt_enable bus t)
  unfolding arch_timer_interrupt_enable
  arch_timer_interrupt_enable-Keeps = ground arith

-- What a call through the interrupt chip has to leave alone.
pub record Leaves (invoke : ℕ → ℕ → Kernel → Kernel) (f irq start : ℕ) : Type 0 where
  pub same_khz : (k : Kernel) → (invoke f irq k).machine.cpu_khz ≡ k.machine.cpu_khz
  pub same_control :
      (k : Kernel) → control start (invoke f irq k).machine.trace ≡ control start k.machine.trace
  pub same_stopped :
      (k : Kernel)
      → set_while_stopped start (invoke f irq k).machine.trace
        ≡ set_while_stopped start k.machine.trace

abbrev Kept : (start : ℕ) → Kernel → Kernel → Type 0
Kept start k k' =
    (k'.machine.cpu_khz ≡ k.machine.cpu_khz)
    × (control start k'.machine.trace ≡ control start k.machine.trace)
    × (set_while_stopped start k'.machine.trace ≡ set_while_stopped start k.machine.trace)

module _ (invoke : ℕ → ℕ → Kernel → Kernel) (start irq handler flags name handler_data : ℕ)
    (k : Kernel) (h : irq < nr_irqs) (l : Leaves invoke k.irq_chip.irq_unmask irq start) where
  abbrev filled : Kernel
  filled = record k {
    irq_desc = λ i.
        if i == irq then fill_desc handler flags name handler_data (k.irq_desc i) else k.irq_desc i;
  }

  request_irq-unmask_irq :
      request_irq invoke irq handler flags name handler_data k
      ≡ (unmask_irq invoke irq filled, pos 0)
  unfolding request_irq setup_irq
  request_irq-unmask_irq = rw (request_irq, in_table invoke irq h) refl

  unmask_irq-Kept : Kept start k (unmask_irq invoke irq filled)
  unfolding unmask_irq
  unmask_irq-Kept =
      if_holds (Kept start k) (k.irq_chip.irq_unmask == 0) (λ _. (refl, refl, refl))
        (λ _. (l.same_khz filled, l.same_control filled, l.same_stopped filled))

  request_irq-Kept :
      Kept start k (request_irq invoke irq handler flags name handler_data k).0
      × ((request_irq invoke irq handler flags name handler_data k).1 ≡ pos 0)
  request_irq-Kept = rw (request_irq-unmask_irq) (unmask_irq-Kept, refl)

-- The period: ten milliseconds of the counter's frequency.
abbrev pub period : Bus → Kernel → ℕ
period bus k = (read_cntfrq_el0 bus (read_cntpct_el0 bus k.machine.trace).1).0 / 1000 * 10 % 2 ^ 64

-- If the control register of the timer reads back as it was written and the unmask function of the
-- chip leaves the timer alone, after `arm64_arch_timer_init` the timer runs with its interrupt
-- unmasked and a compare value of ten milliseconds, which was written while it was stopped and
-- masked.
pub arm64_arch_timer_init-armed :
    (bus : Bus) (invoke : ℕ → ℕ → Kernel → Kernel) (start tandler name : ℕ) (k : Kernel)
    → Readable bus start
    → Leaves invoke k.irq_chip.irq_unmask 30 start
    → let t = (arm64_arch_timer_init bus invoke tandler name k).machine.trace in
      (control start t ≡ 1)
      × (compare t ≡ some (period bus k))
      × (set_while_stopped start t ≡ set_while_stopped start k.machine.trace)
unfolding arm64_arch_timer_init
arm64_arch_timer_init-armed bus invoke start tandler name k reads l =
    let (boot_tick, t1) = read_cntpct_el0 bus k.machine.trace in
    let (freq, t2) = read_cntfrq_el0 bus t1 in
    let t3 = arch_timer_interrupt_disable bus t2 in
    let t4 = arch_timer_stop bus t3 in
    let k1 : Kernel = record k {
      machine = record (k.machine) { cpu_khz = freq / 1000; trace = t4 };
    } in
    let k2 : Kernel = (request_irq invoke 30 tandler 0 name 0 k1).0 in
    let (q, zero) = request_irq-Kept invoke start 30 tandler 0 name 0 k1 (omega arith) l in
    let t5 = write_cntp_tval_el0 (k2.machine.cpu_khz * 10 % 2 ^ 64) k2.machine.trace in
    let t6 = arch_timer_start bus t5 in
    let c3 = control-arch_timer_interrupt_disable bus start reads t2 in
    let c4 = control-arch_timer_stop bus start reads t3 in
    let c6 = control-arch_timer_start bus start reads t5 in
    let c7 = control-arch_timer_interrupt_enable bus start reads t6 in
    let s3 = arch_timer_interrupt_disable-Keeps bus start t2 in
    let s4 = arch_timer_stop-Keeps bus start t3 in
    let s6 = arch_timer_start-Keeps bus start t5 in
    let s7 = arch_timer_interrupt_enable-Keeps bus start t6 in
    let stopped : control start k2.machine.trace ≡ 2 = omega (arith, q, c3, c4) in
    let armed : control start (arch_timer_interrupt_enable bus t6) ≡ 1 =
      omega (arith, stopped, c6, c7) in
    rw (zero) (armed, ground (arith, q, s6, s7), ground (arith, q, stopped, s3, s4, s6, s7))
