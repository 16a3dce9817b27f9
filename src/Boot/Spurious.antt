-- ===== src/Boot/Spurious.antt =====
-- The message that gicv3_handle_irq of driver/interrupt/gicv3/gicv3.c prints for a spurious number, by
-- printk of kernel/printk.c on the UART.
use mathlib.Core.Path.{subst}
use armv8_os.Run.{Run, done, out, Ends}
use armv8_os.Prelude.{
  ℕ, ◌+◌, ◌-◌, ◌^◌, ◌<◌, ◌≤◌, ◌≡◌, ◌≢◌, ◌⊎◌, inl, inr, ◌==◌, if◌then◌else◌, refl, sym, ap, ◌∙◌,
  arith, List, [], ◌∷◌, ◌++◌, reverse_aux, length, none, some, leb, true,
}
use armv8_os.Prelude.Int.{ℤ}
use armv8_os.Memory.{Mem}
use armv8_os.Io
use armv8_os.Io.{Trace, Bus, mrs}
use armv8_os.Interrupt.{Kernel, handle_domain_irq}
use armv8_os.Gicv3.{on_trace, gic_read_iar}
use armv8_os.Console.{Uart, printk}
use armv8_os.Console.Laws.{sent, crlf}
use armv8_os.Console.Render.{vprintk-render}
use armv8_os.Printk.Spec.{has}
use armv8_os.Printk.Digits.{rev_digits}
use armv8_os.Printk.Number.Layout.{number_text}
use armv8_os.Printk.Format.{Item, text, directive, absent, plain, decimal, format_chars, IsFormat}
use armv8_os.Printk.Format.Laws.{Supplied}
use armv8_os.Printk.Format.Stored.{Stored}
use armv8_os.Printk.Render.{render}
use armv8_os.Boot.{Symbols, call_write, call_irq, console_qemu}
use armv8_os.Boot.Interrupts.{handle_domain_irq-refused}

-- "irqnr invalid: ["
abbrev prefix : List ℕ
prefix =
    b'r' ∷ b'q' ∷ b'n' ∷ b'r' ∷ b' ' ∷ b'i' ∷ b'n' ∷ b'v' ∷ b'a' ∷ b'l' ∷ b'i' ∷ b'd' ∷ b':' ∷ b' '
    ∷ b'[' ∷ []

-- "irqnr invalid: [%d]\n"
abbrev pub items : List Item
items =
    text b'i' prefix
    ∷ directive (record {
      flags = [];
      width = absent;
      precision = none;
      qualifier = plain;
      conversion = decimal;
    })
    ∷ text b']' (b'\n' ∷ [])
    ∷ []

items-IsFormat : IsFormat items
items-IsFormat = ground arith

-- The text for a number from 1020 to 1023.
abbrev pub message : ℕ → List ℕ
message irqnr = b'i' ∷ (prefix ++ b'1' ∷ b'0' ∷ b'2' ∷ (b'0' + (irqnr - 1020)) ∷ b']' ∷ b'\n' ∷ [])

-- The arguments of the call: the number, and what the other registers hold.
abbrev pub arguments : (regs : ℕ → ℕ) → (irqnr : ℕ) → ℕ → ℕ
arguments regs irqnr k = if k == 0 then irqnr else regs k

which : (n : ℕ) → 1020 ≤ n → n ≤ 1023 → (n ≡ 1020) ⊎ (n ≡ 1021) ⊎ (n ≡ 1022) ⊎ (n ≡ 1023)
which n h k = ground arith

render-message :
    (regs : ℕ → ℕ) (n : ℕ) → 1020 ≤ n → n ≤ 1023 → render (arguments regs n) 0 items ≡ message n
unfolding number_text has rev_digits
render-message regs n h k =
    let P = λ (n : ℕ). render (arguments regs n) 0 items ≡ message n in
    elim (which n h k) [
      | inl e ↦ subst P (sym e) refl
      | inr (inl e) ↦ subst P (sym e) refl
      | inr (inr (inl e)) ↦ subst P (sym e) refl
      | inr (inr (inr e)) ↦ subst P (sym e) refl
    ]

abbrev pub traced : Trace → Run (Mem × Uart × ℤ) → Trace
traced t (done (m, u, len)) = u.trace
traced t out = t

traced-sent :
    (t : Trace) (r : Run (Mem × Uart × ℤ)) (n : ℤ) (xs : List ℕ)
    → Ends (λ (m', u', len). (len ≡ n) × (sent u'.trace ≡ xs)) r
    → sent (traced t r) ≡ xs
traced-sent t (done (m, u, len)) n xs e = e.1
traced-sent t out n xs e = absurd e

-- A text that printk sends from the boot's console.
pub printk-sent :
    (s : Symbols) (fuel : ℕ) (stack m : Mem) (fmt : ℕ) (args : ℕ → ℕ) (items : List Item)
    (xs : List ℕ) (t : Trace)
    → s.p_buf ≢ 0
    → s.p_buf + 1024 < 2 ^ 64
    → IsFormat items
    → Stored (s.p_buf + 1024) fuel (record { mem = m; cur = s.p_buf }) fmt (format_chars items)
    → Supplied (s.p_buf + 1024) fuel args (record { mem = m; cur = s.p_buf }) 0 items
    → render args 0 items ≡ xs
    → length xs < 1024
    → sent (
        traced t (
          printk
            (call_write s)
            fuel
            stack
            m
            s.p_buf
            fmt
            args
            (record { uart_console = some (console_qemu s); trace = t })))
      ≡ reverse_aux (crlf xs) (sent t)
unfolding call_write printk
printk-sent s fuel stack m fmt args items xs t buf fit h there given same few =
    let short : length (render args 0 items) < 1024 =
      subst (λ xs. length xs < 1024) (sym same) few in
    let u : Uart = record { uart_console = some (console_qemu s); trace = t } in
    let ended =
      vprintk-render (call_write s) (console_qemu s) fuel stack m s.p_buf fmt args items u
        (λ m s n t. ground arith) refl buf fit h there given short in
    traced-sent t _ _ _ ended ∙ ap (λ xs. reverse_aux (crlf xs) (sent t)) same

module _ (s : Symbols) (fuel : ℕ) (stack m : Mem) (fmt : ℕ) (regs : ℕ → ℕ) where
  -- What the call of printk does to the devices, if the console is chosen.
  abbrev pub report : (irqnr : ℕ) → Trace → Trace
  report irqnr t = traced t (
      printk (call_write s) fuel stack m s.p_buf fmt (arguments regs irqnr)
        (record { uart_console = some (console_qemu s); trace = t }))

  pub report-sent :
      (irqnr : ℕ) (t : Trace)
      → 1020 ≤ irqnr
      → irqnr ≤ 1023
      → s.p_buf ≢ 0
      → s.p_buf + 1024 < 2 ^ 64
      → Stored (s.p_buf + 1024) fuel (record { mem = m; cur = s.p_buf }) fmt (format_chars items)
      → sent (report irqnr t) ≡ reverse_aux (crlf (message irqnr)) (sent t)
  report-sent irqnr t h k buf fit there =
      printk-sent s fuel stack m fmt (arguments regs irqnr) items (message irqnr) t buf fit
        items-IsFormat there (tt, tt) (render-message regs irqnr h k) (omega arith)

  -- If gicv3_handle_irq is at an address that is not NULL and registered, the nesting counter is a
  -- number of 64 bits, the format of the message stands in memory apart from the buffer of
  -- vprintk, which is not at NULL and does not run past the end of the address space, and there is
  -- more fuel than the format has characters, a call of `handle_domain_irq` where the controller
  -- hands out a number from 1020 to 1023 sends "irqnr invalid: [1020]" with that number, CR and LF
  -- to the UART of the boot, and nothing else.
  pub handle_domain_irq-sent :
      (bus : Bus) (bad_irq : Kernel → Kernel) (irqnr : ℕ) (k : Kernel)
      → s.gicv3_handle_irq ≢ 0
      → k.handle_arch_irq ≡ s.gicv3_handle_irq
      → (gic_read_iar bus k.machine.trace).0 ≡ irqnr
      → 1020 ≤ irqnr
      → irqnr ≤ 1023
      → k.interrupt_nest < 2 ^ 64
      → s.p_buf ≢ 0
      → s.p_buf + 1024 < 2 ^ 64
      → Stored (s.p_buf + 1024) fuel (record { mem = m; cur = s.p_buf }) fmt (format_chars items)
      → sent
          (handle_domain_irq
            (call_irq bus s bad_irq (λ irqnr k. on_trace (report irqnr) k))
            k).machine.trace
        ≡ reverse_aux (crlf (message irqnr)) (sent k.machine.trace)
  handle_domain_irq-sent bus bad_irq irqnr k there_is registered iar low high few buf fit there =
      let refuse =
        handle_domain_irq-refused bus s bad_irq report irqnr k there_is registered iar
          (inl (low, high)) few in
      let spurious : leb irqnr 1023 ≡ true = ground (arith, high) in
      ap (λ (k : Kernel). sent k.machine.trace) refuse
      ∙ rw spurious
          (report-sent irqnr (mrs Io.icc_iar1_el1 irqnr ∷ k.machine.trace) low high buf fit there)
