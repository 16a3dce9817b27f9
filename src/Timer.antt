-- ===== src/Timer.antt =====
-- driver/timer/arm64_timer.c: the physical timer. `cpu_khz` is a field of the kernel's machine.
pub mod Laws
use armv8_os.Prelude.{
  Bool, true, false, ℕ, ◌+◌, ◌*◌, ◌-◌, ◌/◌, ◌%◌, ◌^◌, ◌==◌, if◌then◌else◌, ◌∷◌, bit_and, bit_or,
}
use armv8_os.Prelude.Int.{ℤ, pos, negsuc}
use armv8_os.Io
use armv8_os.Io.{Trace, Bus, read_sysreg, write_sysreg, isb}
use armv8_os.Interrupt.{Kernel, request_irq}
use armv8_os.Gicv3.{on_trace}

abbrev pub write_cntp_ctl_el0 : ℕ → Trace → Trace
write_cntp_ctl_el0 val t = isb ∷ write_sysreg Io.cntp_ctl_el0 val t

abbrev pub write_cntp_tval_el0 : ℕ → Trace → Trace
write_cntp_tval_el0 val t = isb ∷ write_sysreg Io.cntp_tval_el0 val t

unfoldable pub arm64_arch_timer_tandler : ℕ → Kernel → Kernel
arm64_arch_timer_tandler desc k = on_trace (write_cntp_tval_el0 (k.machine.cpu_khz * 10 % 2 ^ 64)) k

-- r < 0
abbrev pub is_negative : ℤ → Bool
is_negative (pos n) = false
is_negative (negsuc n) = true

module _ (bus : Bus) where
  abbrev pub read_cntpct_el0 : Trace → ℕ × Trace
  read_cntpct_el0 t = read_sysreg bus 64 Io.cntpct_el0 t

  abbrev pub read_cntfrq_el0 : Trace → ℕ × Trace
  read_cntfrq_el0 t = read_sysreg bus 64 Io.cntfrq_el0 t

  abbrev pub read_cntp_ctl_el0 : Trace → ℕ × Trace
  read_cntp_ctl_el0 t = read_sysreg bus 64 Io.cntp_ctl_el0 t

  unfoldable pub arch_timer_start : Trace → Trace
  arch_timer_start t =
      let (ctrl, t1) = read_cntp_ctl_el0 t in
      if bit_and ctrl 0x1 == 0 then write_cntp_ctl_el0 (bit_or ctrl 0x1) t1 else t1

  -- ~0x1 is an int; the & extends it to 64 bits.
  unfoldable pub arch_timer_stop : Trace → Trace
  arch_timer_stop t =
      let (ctrl, t1) = read_cntp_ctl_el0 t in
      if bit_and ctrl 0x1 == 0 then t1 else write_cntp_ctl_el0 (bit_and ctrl (2 ^ 64 - 1 - 0x1)) t1

  unfoldable pub arch_timer_interrupt_enable : Trace → Trace
  arch_timer_interrupt_enable t =
      let (ctrl, t1) = read_cntp_ctl_el0 t in
      if bit_and ctrl (2 ^ 1) == 0
      then t1
      else write_cntp_ctl_el0 (bit_and ctrl (2 ^ 64 - 1 - 2 ^ 1)) t1

  unfoldable pub arch_timer_interrupt_disable : Trace → Trace
  arch_timer_interrupt_disable t =
      let (ctrl, t1) = read_cntp_ctl_el0 t in
      if bit_and ctrl (2 ^ 1) == 0 then write_cntp_ctl_el0 (bit_or ctrl (2 ^ 1)) t1 else t1

  -- `tandler` and `name` are the addresses of the handler and of "arch_timer".
  unfoldable pub arm64_arch_timer_init :
      (invoke : ℕ → ℕ → Kernel → Kernel) → (tandler name : ℕ) → Kernel → Kernel
  arm64_arch_timer_init invoke tandler name k =
      let (boot_tick, t1) = read_cntpct_el0 k.machine.trace in
      let (freq, t2) = read_cntfrq_el0 t1 in
      let k1 : Kernel = record k {
        machine = record (k.machine) {
          cpu_khz = freq / 1000;
          trace = arch_timer_stop (arch_timer_interrupt_disable t2);
        };
      } in
      let (k2, r) = request_irq invoke 30 tandler 0 name 0 k1 in
      if is_negative r
      then k2
      else on_trace
          (λ t.
            arch_timer_interrupt_enable
              (arch_timer_start (write_cntp_tval_el0 (k2.machine.cpu_khz * 10 % 2 ^ 64) t)))
          k2
