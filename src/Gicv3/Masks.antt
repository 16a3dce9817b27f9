-- ===== src/Gicv3/Masks.antt =====
-- The driver of driver/interrupt/gicv3/gicv3.c leaves the mask of the interrupts alone.
use armv8_os.Prelude.{ℕ, zero, suc, ◌+◌, ◌*◌, ◌/◌, ◌≡◌, ◌∙◌, refl, Bool}
use armv8_os.Io.{Trace, Bus, writel, readl}
use armv8_os.Irqflags.Laws.{masked}
use armv8_os.Gicv3.{
  fill, fill_priority, rounds, distributor_init, distributor_enable, redistributor_init,
}

module _ (start : Bool) where
  fill-masked :
      (rounds i per val reg : ℕ) (t : Trace)
      → masked start (fill rounds i per val reg t) ≡ masked start t
  unfolding fill
  fill-masked zero i per val reg t = refl
  fill-masked (suc rounds) i per val reg t =
      fill-masked rounds (i + per) per val reg (writel val (reg + i / per * 4) t)

  fill_priority-masked :
      (bus : Bus) (rounds i reg : ℕ) (t : Trace)
      → masked start (fill_priority bus rounds i reg t) ≡ masked start t
  unfolding fill_priority
  fill_priority-masked bus zero i reg t = refl
  fill_priority-masked bus (suc rounds) i reg t =
      fill_priority-masked bus rounds (i + 4) reg
        (readl bus (reg + i / 4 * 4) (writel 0xa0a0a0a0 (reg + i / 4 * 4) t)).1

  pub distributor_init-masked :
      (bus : Bus) (gicd : ℕ) (t : Trace)
      → masked start (distributor_init bus gicd t) ≡ masked start t
  unfolding distributor_init
  distributor_init-masked bus gicd t =
      fill-masked _ 32 32 0xffffffff _ _
      ∙ fill-masked _ 32 32 0xffffffff _ _
      ∙ fill_priority-masked bus _ 32 _ _
      ∙ fill-masked _ 32 16 0 _ _

  pub distributor_enable-masked :
      (bus : Bus) (gicd gicr : ℕ) (t : Trace)
      → masked start (distributor_enable bus gicd gicr t) ≡ masked start t
  unfolding distributor_enable
  distributor_enable-masked bus gicd gicr t = refl

  pub redistributor_init-masked :
      (sgi : ℕ) (t : Trace) → masked start (redistributor_init sgi t) ≡ masked start t
  unfolding redistributor_init
  redistributor_init-masked sgi t =
      fill-masked 4 16 4 0xa0a0a0a0 _ _ ∙ fill-masked 4 0 4 0x90909090 _ _
