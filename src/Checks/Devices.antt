-- ===== src/Checks/Devices.antt =====
-- Examples of the drivers and of the boot: the board answers 0 to every read of a device, its counter
-- runs at 62.5 MHz, and line 30 is pending.
use armv8_os.Prelude.{
  Bool, ◌-◌, ◌++◌, ℕ, ◌+◌, ◌^◌, ◌<◌, ◌≡◌, ◌==◌, if◌then◌else◌, true, false, [], ◌∷◌, refl, inl,
  arith, some,
}
use armv8_os.Run.{Ends}
use armv8_os.Io
use armv8_os.Io.{writeb, Trace, Event, SysReg, Bus}
use armv8_os.Interrupt.{Kernel}
use armv8_os.Gicv3.{gicv3_unmask_irq, gicv3_mask_irq, gicv3_hw_init}
use armv8_os.Gicv3.Enabled.{enabled}
use armv8_os.Gicv3.Laws.{
  Answers, gicv3_unmask_irq-enabled, gicv3_hw_init-enabled, initial, nr_lines,
}
use armv8_os.Mmu.{device_start}
use armv8_os.Timer.{arm64_arch_timer_init}
use armv8_os.Irqflags.{local_irq_save, local_irq_restore}
use armv8_os.Irqflags.Laws.{local_irq_save-restore, masked, Reports}
use armv8_os.Plic.{plic_init}
use armv8_os.Console.{qemu_uart_dr}
use armv8_os.Plic.Laws.{register, line, plic_init-line}
use armv8_os.Timer.Laws.{arm64_arch_timer_init-armed, compare, set_while_stopped, control, Readable}

abbrev pub registers : Trace → SysReg → ℕ
registers t Io.cntp_ctl_el0 = control 0 t
registers t Io.cntfrq_el0 = 62500000
registers t Io.icc_iar1_el1 = 30
registers t Io.daif = if masked false t then 2 ^ 7 else 0
registers t _ = 0

abbrev pub board : Bus
board = record { answer = λ t width addr. 0; sysreg = registers }

pub board-Readable : Readable board 0
board-Readable [] = refl
board-Readable (Event.msr Io.cntp_ctl_el0 val ∷ t) = omega arith
board-Readable (_ ∷ t) = board-Readable t

board-Reports : Reports board false
board-Reports t = ground arith

pub board-Answers : (fuel gicd gicr : ℕ) → 0 < fuel → Answers board fuel gicd gicr
board-Answers fuel gicd gicr some_fuel = record {
  busy_gicd = λ t. 0;
  busy_gicr = λ t. 0;
  settles_gicd = record { closer = λ t. inl refl };
  settles_gicr = record { closer = λ t. inl refl };
  soon_gicd = λ t. omega arith;
  soon_gicr = λ t. omega arith;
}

-- A kernel whose controller stands at 0 and 0x100000.
abbrev pub kernel : Kernel
kernel = record {
  irq_desc = λ i. record {
    handle_irq = if i == 30 then 0x4000 else 0x1000;
    irq = 0;
    flags = 0;
    depth = 1;
    irq_count = 0;
    name = 0;
    handler_data = 0;
  };
  irq_chip = record { irq_mask = 0x2000; irq_unmask = 0x2100 };
  handle_arch_irq = 0x3000;
  interrupt_nest = 0;
  machine = record {
    gicd_base = 0;
    gicr_base = 0xF0000;
    gicr_sgi_base = 0x100000;
    cpu_khz = 62500;
    trace = [];
  };
}

-- No line is enabled at first: unmasking line 33 enables it, and masking line 34 leaves it so.
gicv3_unmask_irq-enabled_example :
    (enabled 0 0x100000 (λ _. false) (gicv3_unmask_irq 33 kernel).machine.trace 33 ≡ true)
    × (enabled 0 0x100000 (λ _. false) (gicv3_mask_irq 33 kernel).machine.trace 33 ≡ false)
gicv3_unmask_irq-enabled_example =
    gicv3_unmask_irq-enabled (λ _. false) 33 33 kernel (omega arith) (omega arith)
      (record { apart = inl (omega arith) })

gicv3_hw_init-enabled_example :
    let gicd = 0x08000000 + device_start in
    let sgi = 0x080A0000 + device_start + 2 ^ 16 in
    Ends
      (λ k'.
        (k' ≡ record kernel {
          machine = record (kernel.machine) {
            gicd_base = gicd;
            gicr_base = 0x080A0000 + device_start;
            gicr_sgi_base = sgi;
            trace = k'.machine.trace;
          };
        })
        × ((irq : ℕ)
            → irq < 1024
            → enabled gicd sgi (λ _. true) k'.machine.trace irq
              ≡ initial (nr_lines board gicd []) irq (enabled gicd sgi (λ _. true) [] irq))
        × ((start : Bool) → masked start k'.machine.trace ≡ masked start []))
      (gicv3_hw_init board 1 0x08000000 0x080A0000 kernel)
gicv3_hw_init-enabled_example =
    gicv3_hw_init-enabled board 1 0x08000000 0x080A0000 (λ _. true) kernel (omega arith)
      (board-Answers 1 (0x08000000 + device_start) (0x080A0000 + device_start) (omega arith))

arm64_arch_timer_init-armed_example :
    let t = (arm64_arch_timer_init board (λ f x k. k) 0x4000 0x5000 kernel).machine.trace in
    (control 0 t ≡ 1) × (compare t ≡ some 625000) × (set_while_stopped 0 t ≡ true)
arm64_arch_timer_init-armed_example =
    arm64_arch_timer_init-armed board (λ f x k. k) 0 0x4000 0x5000 kernel board-Readable
      (record { same_khz = λ k. refl; same_control = λ k. refl; same_stopped = λ k. refl })

-- In a section that enables the interrupts and ends with the flags from before.
local_irq_save-restore_example :
    let (flags, t') = local_irq_save board [] in
    (masked false t' ≡ true)
    × (masked false (local_irq_restore flags ((Event.msr Io.daifclr 2 ∷ []) ++ t'))
        ≡ masked false [])
local_irq_save-restore_example =
    local_irq_save-restore board false [] (Event.msr Io.daifclr 2 ∷ []) board-Reports

-- A controller at 0x60000000 whose registers hold what is written to them, all lines enabled at first.
abbrev all_on : ℕ → ℕ
all_on addr = 2 ^ 32 - 1

abbrev plic : Bus
plic = record { answer = λ t width addr. register all_on t addr; sysreg = λ t r. 0 }

-- What the calls at the end of plic_init write: sie of RISC-V is no register of this machine, and
-- printk sends to the UART.
abbrev say : Trace → Trace
say t = writeb b'\n' qemu_uart_dr (writeb b'\r' qemu_uart_dr t)

plic_init-line_example :
    let (plic_regs, t') = plic_init plic (λ t. t) say 0x60000000 128 1 [] in
    (plic_regs ≡ 0x60000000)
    × (line 0x60000000 all_on t' 127 ≡ false)
    × (register all_on t' 0x60200000 ≡ 2 ^ 32 - 1)
plic_init-line_example =
    plic_init-line plic 0x60000000 all_on (λ t i h. refl) (λ t. t) say 128 1 127 []
      (λ t addr low high. ground (arith, low, high)) (omega arith) (omega arith) (omega arith)
      (omega arith) (omega arith)
