-- ===== src/Interrupt.antt =====
-- driver/interrupt/interrupt.c: the descriptor table, the dispatch and the nesting counter. A
-- function pointer is an address, 0 for NULL; `invoke f x k` is the state that a call of `f` with
-- the argument `x` (0 if it has none) leaves.
pub mod Laws
use armv8_os.Prelude.{
  List, [], ℕ, suc, ◌+◌, ◌-◌, ◌%◌, ◌^◌, ltb, ◌==◌, if◌then◌else◌, Option, none, some,
}
use armv8_os.Io.{Trace}
use armv8_os.Prelude.Int.{ℤ, pos, negsuc}

-- `irq` is what irq_desc_get_irq gives; no code sets it.
pub record IrqDesc : Type 0 where
  pub handle_irq : ℕ
  pub irq : ℕ
  pub flags : ℕ
  pub depth : ℕ
  pub irq_count : ℕ
  pub name : ℕ
  pub handler_data : ℕ

pub record IrqChip : Type 0 where
  pub irq_mask : ℕ
  pub irq_unmask : ℕ

-- The variables of the drivers of the controller and the timer, and what was done to the devices.
pub record Machine : Type 0 where
  pub gicd_base : ℕ
  pub gicr_base : ℕ
  pub gicr_sgi_base : ℕ
  pub cpu_khz : ℕ
  pub trace : Trace

-- The variables of the file, and the rest of the state that a function called through a pointer may
-- change.
pub record Kernel : Type 0 where
  pub irq_desc : ℕ → IrqDesc
  pub irq_chip : IrqChip
  pub handle_arch_irq : ℕ
  pub interrupt_nest : ℕ
  pub machine : Machine

abbrev pub nr_irqs : ℕ
nr_irqs = 8192

-- -EINVAL and -EBUSY
abbrev pub einval : ℤ
einval = negsuc 21

abbrev pub ebusy : ℤ
ebusy = negsuc 15

-- The state at the start, for the address of handle_bad_irq.
unfoldable pub boot : ℕ → Kernel
boot handle_bad_irq = record {
  irq_desc = λ i. record {
    handle_irq = handle_bad_irq;
    irq = 0;
    flags = 0;
    depth = 1;
    irq_count = 0;
    name = 0;
    handler_data = 0;
  };
  irq_chip = record { irq_mask = 0; irq_unmask = 0 };
  handle_arch_irq = 0;
  interrupt_nest = 0;
  machine = record { gicd_base = 0; gicr_base = 0; gicr_sgi_base = 0; cpu_khz = 0; trace = [] };
}

unfoldable pub is_interrupt_nest : Kernel → ℤ
is_interrupt_nest k = if ltb 0 k.interrupt_nest then pos 1 else pos 0

unfoldable pub irq_enter : Kernel → Kernel
irq_enter k = record k { interrupt_nest = suc k.interrupt_nest % 2 ^ 64 }

unfoldable pub irq_exit : Kernel → Kernel
irq_exit k = record k { interrupt_nest = (k.interrupt_nest + 2 ^ 64 - 1) % 2 ^ 64 }

-- The index in the table in place of the address.
unfoldable pub irq_to_desc : ℕ → Option ℕ
irq_to_desc irq = if ltb irq nr_irqs then some irq else none

unfoldable pub set_irq_chip : Option IrqChip → Kernel → Kernel × ℤ
set_irq_chip none k = (k, ebusy)
set_irq_chip (some chip) k = (record k { irq_chip = chip }, pos 0)

unfoldable pub set_handle_irq : ℕ → Kernel → Kernel × ℤ
set_handle_irq handle_irq k =
    if k.handle_arch_irq == 0
    then (record k { handle_arch_irq = handle_irq }, pos 0)
    else (k, ebusy)

-- The descriptor behind the assignments of request_irq.
unfoldable pub fill_desc : (handler flags name handler_data : ℕ) → IrqDesc → IrqDesc
fill_desc handler flags name handler_data desc = record desc {
  handle_irq = if handler == 0 then desc.handle_irq else handler;
  flags = flags % 2 ^ 32;
  name = name;
  handler_data = handler_data;
  irq_count = 0;
}

module _ (invoke : ℕ → ℕ → Kernel → Kernel) where
  unfoldable pub generic_handle_irq : ℕ → Kernel → Kernel × ℤ
  generic_handle_irq irq k = elim (irq_to_desc irq) [
    | none ↦ (k, einval)
    | some desc ↦ (invoke ((k.irq_desc desc).handle_irq) desc k, pos 0)
  ]

  unfoldable pub handle_domain_irq : Kernel → Kernel
  handle_domain_irq k =
      let k1 = irq_enter k in
      irq_exit (if k1.handle_arch_irq == 0 then k1 else invoke k1.handle_arch_irq 0 k1)

  unfoldable pub mask_irq : ℕ → Kernel → Kernel
  mask_irq irq k = if k.irq_chip.irq_mask == 0 then k else invoke k.irq_chip.irq_mask irq k

  unfoldable pub unmask_irq : ℕ → Kernel → Kernel
  unmask_irq irq k = if k.irq_chip.irq_unmask == 0 then k else invoke k.irq_chip.irq_unmask irq k

  unfoldable pub setup_irq : ℕ → Kernel → Kernel × ℤ
  setup_irq irq k = (unmask_irq irq k, pos 0)

  unfoldable pub request_irq : (irq handler flags name handler_data : ℕ) → Kernel → Kernel × ℤ
  request_irq irq handler flags name handler_data k = elim (irq_to_desc irq) [
    | none ↦ (k, einval)
    | some desc ↦
        let filled : Kernel = record k {
          irq_desc = λ i.
              if i == desc
              then fill_desc handler flags name handler_data (k.irq_desc i)
              else k.irq_desc i;
        } in
        ((setup_irq irq filled).0, pos 0)
  ]
