-- ===== src/Plic/Laws.antt =====
-- The enable bits of driver/interrupt/plic.c: the registers hold what was last written to them.
use armv8_os.Prelude.{
  ℕ, zero, suc, ◌+◌, ◌-◌, ◌*◌, ◌/◌, ◌%◌, ◌^◌, ◌<◌, ◌≤◌, ◌≡◌, ◌==◌, ◌&&◌, ◌||◌, if◌then◌else◌, Bool,
  true, false, ltb, leb, [], ◌∷◌, arith, bit_and, bit_or, refl, ap, ◌∙◌, sym, inl, inr, Bool-cases,
}
use armv8_os.Prelude.Bits.{check_below, checked}
use armv8_os.Prelude.Bitwise.{bit, bit-bit_or, bit-bit_and, bit_and_mask}
use armv8_os.Io.{writel, Trace, Event, Bus}
use armv8_os.Gicv3.Enabled.{all_ones}
use armv8_os.Plic.{plic_toggle, plic_set_prio, plic_init, quiet_lines, contexts}

abbrev pub register : (start : ℕ → ℕ) → Trace → ℕ → ℕ
register start [] addr = start addr
register start (Event.write width a val ∷ t) addr = if a == addr then val else register start t addr
register start (_ ∷ t) addr = register start t addr

-- Line `irq` of the first context.
abbrev pub line : (base : ℕ) → (start : ℕ → ℕ) → Trace → ℕ → Bool
line base start t irq = bit (register start t (base + 0x2000 + irq / 32 * 4)) (irq % 32) == 1

-- The enable registers read as they are.
abbrev pub Readable : (bus : Bus) → (base : ℕ) → (start : ℕ → ℕ) → Type 0
Readable bus base start =
    (t : Trace) (i : ℕ)
    → i < 32
    → bus.answer t 32 (base + 0x2000 + i * 4) ≡ register start t (base + 0x2000 + i * 4)

masks_table :
    check_below 32 (λ a. check_below 32 (λ b.
      (bit (2 ^ a) b == (if a == b then 1 else 0))
      && (bit (2 ^ 32 - 1 - 2 ^ a) b == (if a == b then 0 else 1))))
    ≡ true
unfolding check_below
masks_table = refl

masks :
    (a b : ℕ)
    → a < 32
    → b < 32
    → (bit (2 ^ a) b ≡ (if a == b then 1 else 0))
      × (bit (2 ^ 32 - 1 - 2 ^ a) b ≡ (if a == b then 0 else 1))
masks a b ha hb =
    let row =
      checked
        (λ a. check_below 32 (λ b.
          (bit (2 ^ a) b == (if a == b then 1 else 0))
          && (bit (2 ^ 32 - 1 - 2 ^ a) b == (if a == b then 0 else 1))))
        32 ha masks_table in
    let cell =
      checked
        (λ b.
          (bit (2 ^ a) b == (if a == b then 1 else 0))
          && (bit (2 ^ 32 - 1 - 2 ^ a) b == (if a == b then 0 else 1)))
        32 hb row in
    ground (arith, cell)

-- A bit below the width survives the width.
bit_width : (n j : ℕ) → j < 32 → bit (n % 2 ^ 32) j ≡ bit n j
bit_width n j h =
    let digit = bit-bit_and n (2 ^ 32 - 1) j in
    let ones : bit (2 ^ 32 - 1) j ≡ 1 = all_ones j h in
    ap (λ v. bit v j) (sym (bit_and_mask 32 n)) ∙ omega (arith, digit, ones)

module _ (bus : Bus) (base : ℕ) (start : ℕ → ℕ) (reads : Readable bus base start) where
  -- If the enable registers read back as they were written, `plic_toggle` of a line below 1024
  -- sets this line as asked and changes no other.
  plic_toggle-line :
      (t : Trace) (hwirq irq : ℕ) (enable : Bool)
      → hwirq < 1024
      → irq < 1024
      → line base start (plic_toggle bus base hwirq enable t) irq
        ≡ (if irq == hwirq then enable else line base start t irq)
  unfolding plic_toggle
  plic_toggle-line t hwirq irq enable h k =
      let j = irq % 32 in
      let a = bus.answer t 32 (base + 0x2000 + hwirq / 32 * 4) in
      let v = a % 2 ^ 32 in
      let r = reads t (hwirq / 32) (omega arith) in
      let m = masks (hwirq % 32) j (omega arith) (omega arith) in
      let one = bit-bit_or v (2 ^ (hwirq % 32)) j in
      let off = bit-bit_and v (2 ^ 32 - 1 - 2 ^ (hwirq % 32)) j in
      let w = bit_width a j (omega arith) in
      let w_one = bit_width (bit_or v (2 ^ (hwirq % 32))) j (omega arith) in
      let w_off = bit_width (bit_and v (2 ^ 32 - 1 - 2 ^ (hwirq % 32))) j (omega arith) in
      elim (Bool-cases (irq / 32 == hwirq / 32)) [
        | inl same ↦
            let e : irq / 32 ≡ hwirq / 32 = ground (arith, same) in
            let line : (irq == hwirq) ≡ (hwirq % 32 == j) = ground (arith, e) in
            rw (e, line)
              (elim enable [
                | true ↦ ground (arith, r, m, one, w, w_one)
                | false ↦ ground (arith, r, m, off, w, w_off)
              ])
        | inr other ↦ ground (arith, other)
      ]

  plic_set_prio-line :
      (t : Trace) (hwirq prio irq : ℕ)
      → hwirq < 1024
      → irq < 1024
      → line base start (plic_set_prio base hwirq prio t) irq ≡ line base start t irq
  unfolding plic_set_prio
  plic_set_prio-line t hwirq prio irq h k = ground arith

  quiet_lines-line :
      (rounds hwirq irq : ℕ) (t : Trace)
      → hwirq + rounds ≤ 1024
      → irq < 1024
      → line base start (quiet_lines bus rounds base hwirq t) irq
        ≡ (if leb hwirq irq && ltb irq (hwirq + rounds) then false else line base start t irq)
  unfolding quiet_lines
  quiet_lines-line zero hwirq irq t h k = ground arith
  quiet_lines-line (suc rounds) hwirq irq t h k =
      let t1 = plic_set_prio base hwirq 0xFF t in
      let rest =
        quiet_lines-line rounds (suc hwirq) irq (plic_toggle bus base hwirq false t1) (omega arith)
          k in
      let off = plic_toggle-line t1 hwirq irq false (omega arith) k in
      let same = plic_set_prio-line t hwirq 0xFF irq (omega arith) k in
      rest ∙ rw (off, same) (ground arith)

  quiet_lines-threshold :
      (rounds hwirq : ℕ) (t : Trace)
      → hwirq + rounds ≤ 1024
      → register start (quiet_lines bus rounds base hwirq t) (base + 0x200000)
        ≡ register start t (base + 0x200000)
  unfolding quiet_lines plic_toggle plic_set_prio
  quiet_lines-threshold zero hwirq t h = refl
  quiet_lines-threshold (suc rounds) hwirq t h =
      quiet_lines-threshold rounds (suc hwirq)
        (plic_toggle bus base hwirq false (plic_set_prio base hwirq 0xFF t)) (omega arith)
      ∙ ground arith

  contexts-line :
      (rounds nr_irqs i irq : ℕ) (t : Trace)
      → nr_irqs ≤ 1024
      → 0 < nr_irqs
      → i + rounds < 510
      → irq < 1024
      → line base start (contexts bus rounds base nr_irqs i t) irq ≡ (
          if ltb 0 rounds && ((ltb 0 irq && ltb irq nr_irqs) || ((i == 0) && ltb irq 32))
          then false
          else line base start t irq)
  unfolding contexts
  contexts-line zero nr_irqs i irq t h p few k = ground arith
  contexts-line (suc rounds) nr_irqs i irq t h p few k =
      let t1 = writel 0 (base + 0x2000 + i * 0x1000 + 0x00) t in
      let rest =
        contexts-line rounds nr_irqs (suc i) irq (quiet_lines bus (nr_irqs - 1) base 1 t1) h p
          (omega arith) k in
      let quiet = quiet_lines-line (nr_irqs - 1) 1 irq t1 (omega arith) k in
      let cleared : line base start t1 irq
          ≡ (if (i == 0) && ltb irq 32 then false else line base start t irq) =
        ground arith in
      rest ∙ rw (quiet, cleared) (ground arith)

  contexts-threshold :
      (rounds nr_irqs i : ℕ) (t : Trace)
      → nr_irqs ≤ 1024
      → 0 < nr_irqs
      → i + rounds < 510
      → register start (contexts bus rounds base nr_irqs i t) (base + 0x200000)
        ≡ register start t (base + 0x200000)
  unfolding contexts
  contexts-threshold zero nr_irqs i t h p few = refl
  contexts-threshold (suc rounds) nr_irqs i t h p few =
      let t1 = writel 0 (base + 0x2000 + i * 0x1000 + 0x00) t in
      contexts-threshold rounds nr_irqs (suc i) (quiet_lines bus (nr_irqs - 1) base 1 t1) h p
        (omega arith)
      ∙ quiet_lines-threshold (nr_irqs - 1) 1 t1 (omega arith)
      ∙ ground arith

  -- If the enable registers read back as they were written, and the calls of csr_set and printk at
  -- the end write none of the controller's registers, which are the 4 MiB from its base on,
  -- `plic_init` of at most 1024 lines and from 1 to 509 contexts stores the base, disables the
  -- lines below nr_irqs and also all lines below 32 for the first context, leaves its other lines
  -- as they were, and does not write its threshold register.
  pub plic_init-line :
      (enable_external say : Trace → Trace) (nr_irqs nr_contexts irq : ℕ) (t : Trace)
      → ((t : Trace) (addr : ℕ)
          → base ≤ addr
          → addr < base + 0x400000
          → register start (say (enable_external t)) addr ≡ register start t addr)
      → 0 < nr_irqs
      → nr_irqs ≤ 1024
      → 0 < nr_contexts
      → nr_contexts < 510
      → irq < 1024
      → let (plic_regs, t') = plic_init bus enable_external say base nr_irqs nr_contexts t in
        (plic_regs ≡ base)
        × (line base start t' irq
            ≡ (if ltb irq 32 || ltb irq nr_irqs then false else line base start t irq))
        × (register start t' (base + 0x200000) ≡ register start t (base + 0x200000))
  unfolding plic_init
  plic_init-line enable_external say nr_irqs nr_contexts irq t elsewhere p h q few k =
      let t1 = contexts bus nr_contexts base nr_irqs 0 t in
      let there =
        ap (λ v. bit v (irq % 32) == 1)
          (elsewhere t1 (base + 0x2000 + irq / 32 * 4) (omega arith) (omega arith)) in
      let lines = contexts-line nr_contexts nr_irqs 0 irq t h p (omega arith) k in
      (
        refl,
        there ∙ lines ∙ ground arith,
        elsewhere t1 (base + 0x200000) (omega arith) (omega arith)
            ∙ contexts-threshold nr_contexts nr_irqs 0 t h p (omega arith),
      )
