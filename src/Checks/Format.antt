-- ===== src/Checks/Format.antt =====
-- Runs and examples of whole formats, for kernel/printk.c.
use armv8_os.Boot.Unhandled
use armv8_os.Boot.Unhandled.{IsApart, bad_irq, others, handle_domain_irq-unhandled}
use armv8_os.Interrupt.{Kernel, handle_domain_irq}
use armv8_os.Io
use armv8_os.Io.{Bus, mrs, msr}
use mathlib.Core.Path.{subst}
use armv8_os.Run.{Ends}
use armv8_os.Prelude.{
  ◌≤◌, ℕ, ◌+◌, ◌<◌, ◌≡◌, refl, sym, inl, none, some, List, [], ◌∷◌, ◌++◌, arith, length, take, ◌-◌,
  ◌^◌, if◌then◌else◌, ◌==◌, reverse_aux,
}
use armv8_os.Prelude.Int.{pos}
use armv8_os.Memory.{Mem, IsString}
use armv8_os.Printk.Number.Layout.{number_text}
use armv8_os.Printk.Spec.{has}
use armv8_os.Printk.Digits.{rev_digits}
use armv8_os.Printk.Output.{Out}
use armv8_os.Printk.Vsnprintf.{vsnprintf}
use armv8_os.Printk.Format.{
  Item, text, directive, minus, star, absent, digits, plain, long, hex, char, string, format_chars,
  IsFormat,
}
use armv8_os.Printk.Render.{field, render, shown}
use armv8_os.Printk.Format.Stored.{Stored}
use armv8_os.Printk.Format.Laws.{Supplied, vsnprintf-render}
use armv8_os.Boot.Spurious
use armv8_os.Boot.Spurious.{report, message, handle_domain_irq-sent}
use armv8_os.Gicv3.{on_trace, gic_read_iar}
use armv8_os.Checks.Devices.{kernel}
use armv8_os.Boot.{call_irq, call_write}
use armv8_os.Checks.Boot.{idle, symbols, con, up, call_qemu}
use armv8_os.Console.{vprintk}
use armv8_os.Console.Laws.{sent, crlf, bytes}
use armv8_os.Console.Render.{vprintk-render, vprintk-cut}
use armv8_os.Checks.Data.{text_at, blank, abc}

-- "n=%-*lx%.2s"
abbrev items : List Item
items =
    text b'n' (b'=' ∷ [])
    ∷ directive (record {
      flags = minus ∷ [];
      width = star;
      precision = none;
      qualifier = long;
      conversion = hex;
    })
    ∷ directive (record {
      flags = [];
      width = absent;
      precision = some (digits (2 ∷ []));
      qualifier = plain;
      conversion = string abc;
    })
    ∷ []

-- The format behind the buffer, and "abc" behind the format.
abbrev session : Mem
session = text_at 0x9000 (format_chars items ++ 0 ∷ abc)

-- The width, the number and the string.
abbrev args : ℕ → ℕ
args k = if k == 0 then 6 else (if k == 1 then 0x1F else 0x900C)

session-IsString : IsString session 0x9000 (format_chars items)
session-IsString = ground arith

abc-IsString : IsString session 0x900C abc
abc-IsString = ground arith

items-IsFormat : IsFormat items
items-IsFormat = ground arith

-- What the format stands for.
items_text :
    render args 0 items ≡ b'n' ∷ b'=' ∷ b'1' ∷ b'f' ∷ b' ' ∷ b' ' ∷ b' ' ∷ b' ' ∷ b'a' ∷ b'b' ∷ []
unfolding number_text has rev_digits
items_text = refl

abbrev at : Out
at = record { mem = session; cur = 0x8000 }

items-Stored : (size : ℕ) → size ≤ 1024 → Stored (0x8000 + size) 20 at 0x9000 (format_chars items)
items-Stored size small = record {
  holds = session-IsString;
  apart = inl (omega (arith, small));
  few = omega arith;
}

items-Supplied : (size : ℕ) → size ≤ 1024 → Supplied (0x8000 + size) 20 args at 0 items
items-Supplied size small = (
  tt,
  (record { holds = abc-IsString; apart = inl (omega (arith, small)); few = omega arith }, tt),
)

vsnprintf-render_example :
    Ends
      (λ (m', len).
        (len ≡ field 32 (length (render args 0 items)))
        × ((a : ℕ) → m' a ≡ shown session 0x8000 8 (render args 0 items) a))
      (vsnprintf 20 blank session 0x8000 8 0x9000 args)
vsnprintf-render_example =
    vsnprintf-render 20 blank session 0x8000 8 0x9000 args items (omega arith) items-IsFormat
      (items-Stored 8 (omega arith)) (items-Supplied 8 (omega arith))

vprintk-render_example :
    Ends
      (λ (m', u', len).
        (len ≡ pos (length (render args 0 items)))
        × (sent u'.trace ≡ reverse_aux (crlf (render args 0 items)) (sent up.trace)))
      (vprintk (call_write symbols) 20 blank session 0x8000 0x9000 args up)
vprintk-render_example =
    vprintk-render (call_write symbols) con 20 blank session 0x8000 0x9000 args items up call_qemu
      refl (λ e. absurd (omega (arith, e))) (omega arith) items-IsFormat
      (items-Stored 1024 (omega arith)) (items-Supplied 1024 (omega arith))
      (subst (λ xs. length xs < 1024) (sym items_text) (omega arith))

-- "%1030c"
abbrev wide : List Item
wide =
    directive (record {
      flags = [];
      width = digits (1 ∷ 0 ∷ 3 ∷ 0 ∷ []);
      precision = none;
      qualifier = plain;
      conversion = char;
    })
    ∷ []

abbrev wide_memory : Mem
wide_memory = text_at 0x9000 (format_chars wide)

wide-IsString : IsString wide_memory 0x9000 (format_chars wide)
wide-IsString = ground arith

wide-IsFormat : IsFormat wide
wide-IsFormat = ground arith

length-wide : length (render (λ _. b'x') 0 wide) ≡ 1030
unfolding has
length-wide = refl

vprintk-cut_example :
    Ends
      (λ (m', u', len).
        (len ≡ pos (length (render (λ _. b'x') 0 wide)))
        × (sent u'.trace
            ≡ reverse_aux
                (crlf (
                  take 1023 (render (λ _. b'x') 0 wide)
                  ++ 0
                    ∷ bytes wide_memory
                        (0x8000 + 1024)
                        (length (render (λ _. b'x') 0 wide) - 1024)))
                (sent up.trace)))
      (vprintk (call_write symbols) 20 blank wide_memory 0x8000 0x9000 (λ _. b'x') up)
vprintk-cut_example =
    vprintk-cut (call_write symbols) con 20 blank wide_memory 0x8000 0x9000 (λ _. b'x') wide up
      call_qemu refl (λ e. absurd (omega (arith, e))) (omega arith) wide-IsFormat
      (record { holds = wide-IsString; apart = inl (omega arith); few = omega arith }) (tt, tt)
      (subst (λ n. 1024 ≤ n) (sym length-wide) (omega arith))
      (subst (λ n. n < 2 ^ 31) (sym length-wide) (omega arith))

-- The message for a spurious number, behind the buffer.
abbrev notice : Mem
notice = text_at 0x9000 (format_chars Spurious.items)

notice-IsString : IsString notice 0x9000 (format_chars Spurious.items)
notice-IsString = ground arith

handle_domain_irq-sent_example :
    let k =
      handle_domain_irq
        (call_irq idle symbols
          (λ k. k)
          (λ irqnr k. on_trace (report symbols 40 blank notice 0x9000 (λ _. 0) irqnr) k))
        kernel in
    sent k.machine.trace ≡ reverse_aux (crlf (message 1023)) (sent kernel.machine.trace)
unfolding gic_read_iar
handle_domain_irq-sent_example =
    handle_domain_irq-sent symbols 40 blank notice 0x9000 (λ _. 0) idle (λ k. k) 1023 kernel
      (λ e. absurd (omega (arith, e))) refl refl (omega arith) (omega arith) (omega arith)
      (λ e. absurd (omega (arith, e))) (omega arith)
      (record { holds = notice-IsString; apart = inl (omega arith); few = omega arith })

-- Line 37 has the handler of the start, and is pending.
abbrev stray : Bus
stray = record idle { sysreg = λ t r. 37 }

abbrev unhandled : Kernel
unhandled = record kernel {
  irq_desc = λ i. record (kernel.irq_desc i) { handle_irq = symbols.handle_bad_irq };
}

abbrev complaint : Mem
complaint = text_at 0x9000 (format_chars Unhandled.notice)

complaint-IsString : IsString complaint 0x9000 (format_chars Unhandled.notice)
complaint-IsString = ground arith

symbols-IsApart : IsApart symbols
symbols-IsApart = record {
  mask = λ e. absurd (omega (arith, e));
  unmask = λ e. absurd (omega (arith, e));
  tandler = λ e. absurd (omega (arith, e));
  handle = λ e. absurd (omega (arith, e));
}

handle_domain_irq-unhandled_example :
    let bad = bad_irq symbols 40 blank complaint 0x9000 (λ _. 0) in
    let k =
      handle_domain_irq (call_irq stray symbols (λ k. on_trace bad k) (λ irq k. k)) unhandled in
    (k ≡ on_trace (λ t. msr Io.icc_eoir1_el1 37 ∷ bad (mrs Io.icc_iar1_el1 37 ∷ t)) unhandled)
    × (sent k.machine.trace ≡ reverse_aux (crlf (b'h' ∷ others)) (sent unhandled.machine.trace))
unfolding gic_read_iar
handle_domain_irq-unhandled_example =
    handle_domain_irq-unhandled stray symbols 40 blank complaint 0x9000 (λ _. 0) (λ irq k. k)
      symbols-IsApart 37 unhandled refl refl refl (omega arith) (omega arith)
      (λ e. absurd (omega (arith, e))) (omega arith)
      (record { holds = complaint-IsString; apart = inl (omega arith); few = omega arith })
