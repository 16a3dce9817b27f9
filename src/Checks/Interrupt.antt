-- ===== src/Checks/Interrupt.antt =====
-- Runs and examples of driver/interrupt/interrupt.c. The function at 5 is a chip's unmask, which
-- touches no variable; every other function counts the interrupt in its descriptor.
use armv8_os.Prelude.{ℕ, suc, ◌≡◌, refl, ◌==◌, if◌then◌else◌, some, arith}
use armv8_os.Prelude.Int.{pos}
use armv8_os.Interrupt.{
  Kernel, boot, request_irq, generic_handle_irq, handle_domain_irq, set_handle_irq, set_irq_chip,
  is_interrupt_nest, irq_to_desc, setup_irq, unmask_irq, fill_desc,
}
use armv8_os.Interrupt.Laws.{
  request_irq-generic_handle_irq, handle_domain_irq-nest, Installed, Reachable, Reachable-Installed,
}

abbrev invoke : ℕ → ℕ → Kernel → Kernel
invoke f x k = if f == 5 then k else record k {
  irq_desc = λ i.
      if i == x
      then record (k.irq_desc i) { irq_count = suc (k.irq_desc i).irq_count }
      else k.irq_desc i;
}

-- handle_bad_irq is at 3.
started : Kernel
unfolding boot set_irq_chip set_handle_irq
started =
    (set_handle_irq 6
      ((set_irq_chip (some (record { irq_mask = 5; irq_unmask = 5 })) (boot 3)).0)).0

-- A timer's handler at 8 on the line 27; it runs once.
timer : Kernel
timer = (generic_handle_irq invoke 27 ((request_irq invoke 27 8 0 100 200 started).0)).0

timer_ran : ((timer.irq_desc 27).irq_count ≡ 1) × ((timer.irq_desc 27).handle_irq ≡ 8)
unfolding timer started boot set_irq_chip set_handle_irq generic_handle_irq request_irq irq_to_desc
    setup_irq unmask_irq fill_desc
timer_ran = (refl, refl)

request_irq-generic_handle_irq_example :
    generic_handle_irq invoke 27 ((request_irq invoke 27 8 0 100 200 started).0)
    ≡ (invoke 8 27 ((request_irq invoke 27 8 0 100 200 started).0), pos 0)
unfolding started boot set_irq_chip set_handle_irq
request_irq-generic_handle_irq_example =
    request_irq-generic_handle_irq invoke 27 8 0 100 200 27 started (λ k'. refl) (omega arith)
      (omega arith)

handle_domain_irq-nest_example :
    let inside : Kernel = record started { interrupt_nest = 1 } in
    (handle_domain_irq invoke started ≡ record (invoke 6 0 inside) { interrupt_nest = 0 })
    × (is_interrupt_nest inside ≡ pos 1)
unfolding started boot set_irq_chip set_handle_irq
handle_domain_irq-nest_example = handle_domain_irq-nest invoke started (omega arith) (λ k'. refl)

invoke-Installed : (f x : ℕ) (k : Kernel) → Installed k → Installed (invoke f x k)
invoke-Installed f x k safe irq = ground (arith, safe irq)

Reachable-Installed_example : Installed ((request_irq invoke 27 8 0 100 200 (boot 3)).0)
Reachable-Installed_example =
    Reachable-Installed invoke 3 (omega arith) invoke-Installed
      ((request_irq invoke 27 8 0 100 200 (boot 3)).0)
      (Reachable.request 27 8 0 100 200 (boot 3) Reachable.booted)
