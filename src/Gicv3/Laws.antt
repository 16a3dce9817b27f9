-- ===== src/Gicv3/Laws.antt =====
-- The driver of driver/interrupt/gicv3/gicv3.c by what the controller forwards.
use armv8_os.Prelude.{
  ℕ, zero, suc, ◌+◌, ◌*◌, ◌%◌, ◌^◌, ◌<◌, ◌≤◌, ◌≡◌, ◌⊎◌, inl, inr, refl, ◌∙◌, Bool, false, not, ltb,
  leb, ◌==◌, ◌&&◌, ◌||◌, if◌then◌else◌, if_holds, arith, bit_and,
}
use armv8_os.Run.{Ends, Ends-bind}
use armv8_os.Mmu.{device_start}
use armv8_os.Io.{Trace, Bus, writel, readl}
use armv8_os.Interrupt.{Kernel}
use armv8_os.Irqflags.Laws.{masked}
use armv8_os.Gicv3.Masks.{
  distributor_init-masked, distributor_enable-masked, redistributor_init-masked,
}
use armv8_os.Gicv3.{
  gicv3_mask_irq, gicv3_unmask_irq, wait_clear, gicv3_gicd_wait_for_rwp, distributor_init,
  distributor_enable, redistributor_init, gicv3_hw_init, rounds, fill, fill_priority, gicd_ctlr,
  gicd_typer, gicr_waker,
}
use armv8_os.Gicv3.Enabled.{
  enabled, one_bit, halves, Frames, Quiet, write-Quiet, fill-Quiet, fill_priority-Quiet,
  fill-disables,
}

-- If the frames of the controller are apart, `gicv3_unmask_irq` of a line below 1024 enables this
-- line and `gicv3_mask_irq` disables it, and neither changes another line.
pub gicv3_unmask_irq-enabled :
    (start : ℕ → Bool) (irq other : ℕ) (k : Kernel)
    → irq < 1024
    → other < 1024
    → Frames k.machine.gicd_base k.machine.gicr_sgi_base
    → let view = enabled k.machine.gicd_base k.machine.gicr_sgi_base start in
      (view (gicv3_unmask_irq irq k).machine.trace other
        ≡ (other == irq) || view k.machine.trace other)
      × (view (gicv3_mask_irq irq k).machine.trace other
          ≡ not (other == irq) && view k.machine.trace other)
unfolding gicv3_unmask_irq gicv3_mask_irq
gicv3_unmask_irq-enabled start irq other k h h' f =
    let word = one_bit (irq % 32) (other % 32) (omega arith) (omega arith) in
    ground (arith, word, f.apart)

-- A register that is polled: every answer with a bit of the mask brings the next one closer.
pub record Settles (bus : Bus) (addr mask : ℕ) (busy : Trace → ℕ) : Type 0 where
  pub closer :
      (t : Trace) → (bit_and (readl bus addr t).0 mask ≡ 0) ⊎ (busy (readl bus addr t).1 < busy t)

-- The same lines are forwarded, and interrupts are masked as before.
abbrev Alike : Trace → Trace → Type 0
Alike t t' =
    ((gicd sgi : ℕ) (start : ℕ → Bool) (irq : ℕ)
      → enabled gicd sgi start t' irq ≡ enabled gicd sgi start t irq)
    × ((start : Bool) → masked start t' ≡ masked start t)

wait_clear-Ends :
    (bus : Bus) (fuel addr mask : ℕ) (busy : Trace → ℕ) (t : Trace)
    → Settles bus addr mask busy
    → busy t < fuel
    → Ends (Alike t) (wait_clear bus fuel addr mask t)
unfolding wait_clear
wait_clear-Ends bus zero addr mask busy t s h = absurd (omega arith)
wait_clear-Ends bus (suc fuel) addr mask busy t s h =
    if_holds (Ends (Alike t)) (bit_and (readl bus addr t).0 mask == 0)
      (λ clear. ((λ gicd sgi start irq. refl), (λ start. refl)))
      (λ set.
        wait_clear-Ends bus fuel addr mask busy (readl bus addr t).1 s (ground (arith, s.closer t)))

-- The lines that the code takes the distributor to have.
abbrev pub nr_lines : Bus → (gicd_base : ℕ) → Trace → ℕ
nr_lines bus gicd_base t =
    32 * ((readl bus (gicd_base + gicd_typer) (writel 0 (gicd_base + gicd_ctlr) t)).0 % 32)

module _ (bus : Bus) (gicd sgi : ℕ) (f : gicd + 2 ^ 17 ≤ sgi) (start : ℕ → Bool) (irq : ℕ)
    (valid : irq < 1024) where
  quiet : (lo hi : ℕ) → gicd + 0x200 ≤ lo → hi ≤ sgi → Quiet gicd sgi lo hi
  quiet lo hi p q = record { off_gicd = inr p; off_sgi = inl (omega arith) }

  distributor_init-enabled :
      (t : Trace)
      → enabled gicd sgi start (distributor_init bus gicd t) irq ≡ (
          if leb 32 irq && ltb irq (nr_lines bus gicd t)
          then false
          else enabled gicd sgi start t irq)
  unfolding distributor_init
  distributor_init-enabled t =
      let n = nr_lines bus gicd t in
      let words = rounds 32 n 32 in
      let few : n < 1024 = omega arith in
      let head : Quiet gicd sgi gicd (gicd + 0x100) = record {
        off_gicd = inl (omega arith);
        off_sgi = inl (omega arith);
      } in
      let t1 = (readl bus (gicd + gicd_typer) (writel 0 (gicd + gicd_ctlr) t)).1 in
      let t2 = fill (rounds 32 n 16) 32 16 0 (gicd + 0xc00) t1 in
      let t3 = fill_priority bus (rounds 32 n 4) 32 (gicd + 0x400) t2 in
      let t4 = fill words 32 32 0xffffffff (gicd + 0x180) t3 in
      let e1 =
        write-Quiet start irq valid gicd (gicd + 0x100) 0 (gicd + gicd_ctlr) t head (omega arith)
          (omega arith) in
      let e2 =
        fill-Quiet start irq valid (gicd + 0xc00) sgi (rounds 32 n 16) 2 16 0 (gicd + 0xc00) t1
          (quiet (gicd + 0xc00) sgi (omega arith) (omega arith)) (omega arith) (omega arith)
          (omega arith) in
      let e3 =
        fill_priority-Quiet start irq valid bus (gicd + 0x400) sgi (rounds 32 n 4) 8 (gicd + 0x400)
          t2 (quiet (gicd + 0x400) sgi (omega arith) (omega arith)) (omega arith) (omega arith) in
      let e4 =
        fill-disables start irq valid words 1 t3 (record { apart = inl (omega arith) })
          (omega arith) (omega arith) in
      let e5 =
        fill-Quiet start irq valid gicd (gicd + 0x100) words 1 32 0xffffffff (gicd + 0x80) t4 head
          (omega arith) (omega arith) (omega arith) in
      let before = e3 ∙ e2 ∙ e1 in e5 ∙ e4 ∙ ground (arith, before)

  distributor_enable-enabled :
      (gicr : ℕ)
      → sgi ≡ gicr + 2 ^ 16
      → (t : Trace)
      → enabled gicd sgi start (distributor_enable bus gicd gicr t) irq
        ≡ enabled gicd sgi start t irq
  unfolding distributor_enable
  distributor_enable-enabled gicr e t = ground (arith, f, e)

module _ (gicd sgi : ℕ) (f : gicd + 2 ^ 17 ≤ sgi) (start : ℕ → Bool) (irq : ℕ)
    (valid : irq < 1024) where
  redistributor_init-enabled :
      (t : Trace)
      → enabled gicd sgi start (redistributor_init sgi t) irq
        ≡ (if ltb irq 32 then ltb irq 16 else enabled gicd sgi start t irq)
  unfolding redistributor_init
  redistributor_init-enabled t =
      let bits = halves (irq % 32) (omega arith) in
      let later : Quiet gicd sgi (sgi + 0x400) (sgi + 0x1000) = record {
        off_gicd = inr (omega arith);
        off_sgi = inr (omega arith);
      } in
      let t1 = fill 4 0 4 0x90909090 (sgi + 0x400) t in
      let e1 =
        fill-Quiet start irq valid (sgi + 0x400) (sgi + 0x1000) 4 0 4 0x90909090 (sgi + 0x400) t
          later (omega arith) (omega arith) (omega arith) in
      let e2 =
        fill-Quiet start irq valid (sgi + 0x400) (sgi + 0x1000) 4 4 4 0xa0a0a0a0 (sgi + 0x400) t1
          later (omega arith) (omega arith) (omega arith) in
      let before = e2 ∙ e1 in ground (arith, bits, before)

-- What the code asks of the controller: both polled registers settle within the fuel.
pub record Answers (bus : Bus) (fuel gicd_base gicr_base : ℕ) : Type 0 where
  pub busy_gicd : Trace → ℕ
  pub busy_gicr : Trace → ℕ
  pub settles_gicd : Settles bus (gicd_base + gicd_ctlr) (2 ^ 31) busy_gicd
  pub settles_gicr : Settles bus (gicr_base + gicr_waker) (2 ^ 2) busy_gicr
  pub soon_gicd : (t : Trace) → busy_gicd t < fuel
  pub soon_gicr : (t : Trace) → busy_gicr t < fuel

-- The lines behind gicv3_hw_init, from those before it.
abbrev pub initial : (nr_lines irq : ℕ) → Bool → Bool
initial nr_lines irq before =
    if ltb irq 32 then ltb irq 16 else (if ltb irq nr_lines then false else before)

initial_step :
    (irq nr_lines : ℕ) (now held before : Bool)
    → now ≡ (if ltb irq 32 then ltb irq 16 else held)
    → held ≡ (if leb 32 irq && ltb irq nr_lines then false else before)
    → now ≡ initial nr_lines irq before
initial_step irq nr_lines now held before p q = ground (arith, p, q)

-- If the frames of the controller are apart and its polled registers settle within the fuel,
-- `gicv3_hw_init` ends, stores the bases and changes no other variable; then the 16 software lines
-- are enabled, the other local lines are not, the shared lines below the number that the code
-- computes are not, and the lines from it on are as they were; interrupts are masked as before.
pub gicv3_hw_init-enabled :
    (bus : Bus) (fuel dist_base rdist_base : ℕ) (start : ℕ → Bool) (k : Kernel)
    → dist_base + 2 ^ 16 ≤ rdist_base
    → Answers bus fuel (dist_base + device_start) (rdist_base + device_start)
    → let gicd = dist_base + device_start in
      let sgi = rdist_base + device_start + 2 ^ 16 in
      Ends
        (λ k'.
          (k' ≡ record k {
            machine = record (k.machine) {
              gicd_base = gicd;
              gicr_base = rdist_base + device_start;
              gicr_sgi_base = sgi;
              trace = k'.machine.trace;
            };
          })
          × ((irq : ℕ)
              → irq < 1024
              → enabled gicd sgi start k'.machine.trace irq
                ≡ initial
                    (nr_lines bus gicd k.machine.trace)
                    irq
                    (enabled gicd sgi start k.machine.trace irq))
          × ((start : Bool) → masked start k'.machine.trace ≡ masked start k.machine.trace))
        (gicv3_hw_init bus fuel dist_base rdist_base k)
unfolding gicv3_hw_init gicv3_gicd_wait_for_rwp
gicv3_hw_init-enabled bus fuel dist_base rdist_base start k apart a =
    let gicd = dist_base + device_start in
    let gicr = rdist_base + device_start in
    let sgi = gicr + 2 ^ 16 in
    let frames : gicd + 2 ^ 17 ≤ sgi = omega arith in
    let t0 = distributor_init bus gicd k.machine.trace in
    Ends-bind (Alike t0) _ (wait_clear bus fuel (gicd + gicd_ctlr) (2 ^ 31) t0) _
      (wait_clear-Ends bus fuel (gicd + gicd_ctlr) (2 ^ 31) a.busy_gicd t0 a.settles_gicd
        (a.soon_gicd t0))
      (λ t1 same1.
        let t2 = distributor_enable bus gicd gicr t1 in
        Ends-bind (Alike t2) _ (wait_clear bus fuel (gicr + gicr_waker) (2 ^ 2) t2) _
          (wait_clear-Ends bus fuel (gicr + gicr_waker) (2 ^ 2) a.busy_gicr t2 a.settles_gicr
            (a.soon_gicr t2))
          (λ t3 same3. (
            refl,
            λ irq valid.
                let r = redistributor_init-enabled gicd sgi frames start irq valid t3 in
                let e =
                  distributor_enable-enabled bus gicd sgi frames start irq valid gicr refl t1 in
                let d =
                  distributor_init-enabled bus gicd sgi frames start irq valid k.machine.trace in
                let held = same3.0 gicd sgi start irq ∙ e ∙ same1.0 gicd sgi start irq ∙ d in
                initial_step irq _ _ _ _ r held,
            λ start.
                redistributor_init-masked start sgi t3
                ∙ same3.1 start
                ∙ distributor_enable-masked start bus gicd gicr t1
                ∙ same1.1 start
                ∙ distributor_init-masked start bus gicd k.machine.trace,
          )))
