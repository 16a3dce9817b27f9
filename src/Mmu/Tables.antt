-- ===== src/Mmu/Tables.antt =====
-- What the tables of arch/arm64/mmu_v3.c hold, and what a walk through them gives.
use armv8_os.Prelude.{
  ℕ, ◌+◌, ◌*◌, ◌-◌, ◌/◌, ◌%◌, ◌^◌, ◌<◌, ◌≤◌, ◌≡◌, ◌⊎◌, refl, ap, ◌∙◌, ◌==◌, ltb, if◌then◌else◌,
  Bool-cases, inl, inr, false, none, arith,
}
use armv8_os.Mmu.{
  Words, Image, Mmu, virt_offset, page_offset, is_lm_address, kimg_to_phys, phys_to_kimg,
  virt_to_phys,
}
use armv8_os.Mmu.Walk.{walk, level1, level2, table_of, read}

-- What the linker script and startup.S make true of the image: three aligned tables apart from one
-- another in the first 4 GiB of kernel addresses, at an offset from their physical addresses that is
-- a multiple of a block and leaves these below 2^48, and an image that starts at a page there.
pub record Layout (im : Image) : Type 0 where
  pub offset_aligned : im.kimage_voffset % 2 ^ 21 ≡ 0
  pub offset_low : im.kimage_voffset ≤ virt_offset
  pub offset_high : page_offset ≤ im.kimage_voffset + 2 ^ 48
  pub pgd_aligned : im.pgd_table % 2 ^ 12 ≡ 0
  pub pud_aligned : im.pud_table % 2 ^ 12 ≡ 0
  pub pmd_aligned : im.pmd_table % 2 ^ 12 ≡ 0
  pub start_aligned : im.kimage_start % 2 ^ 12 ≡ 0
  pub start_low : virt_offset ≤ im.kimage_start
  pub end_low : im.kimage_start ≤ im.kimage_end
  pub end_high : im.kimage_end ≤ page_offset
  pub pgd_low : virt_offset ≤ im.pgd_table
  pub pud_low : virt_offset ≤ im.pud_table
  pub pmd_low : virt_offset ≤ im.pmd_table
  pub pgd_high : im.pgd_table + 2 ^ 12 ≤ page_offset
  pub pud_high : im.pud_table + 2 ^ 12 ≤ page_offset
  pub pmd_high : im.pmd_table + 2 ^ 16 ≤ page_offset
  pub pgd_pud : (im.pgd_table + 2 ^ 12 ≤ im.pud_table) ⊎ (im.pud_table + 2 ^ 12 ≤ im.pgd_table)
  pub pgd_pmd : (im.pgd_table + 2 ^ 12 ≤ im.pmd_table) ⊎ (im.pmd_table + 2 ^ 16 ≤ im.pgd_table)
  pub pud_pmd : (im.pud_table + 2 ^ 12 ≤ im.pmd_table) ⊎ (im.pmd_table + 2 ^ 16 ≤ im.pud_table)

-- The static tables before the first call.
pub record Blank (im : Image) (w : Words) : Type 0 where
  pub pgd : (i : ℕ) → i < 512 → w (im.pgd_table + 8 * i) ≡ 0
  pub pud : (i : ℕ) → i < 512 → w (im.pud_table + 8 * i) ≡ 0
  pub pmd : (b : ℕ) → b < 8192 → w (im.pmd_table + 8 * b) ≡ 0

-- The first two levels lead to the sixteen tables of the third, whose entries are `e`.
pub record Tables (im : Image) (w : Words) (e : ℕ → ℕ) : Type 0 where
  pub pgd :
      (i : ℕ)
      → i < 512
      → w (im.pgd_table + 8 * i) ≡ (if i == 0 then im.pud_table - im.kimage_voffset + 3 else 0)
  pub pud :
      (i : ℕ)
      → i < 512
      → w (im.pud_table + 8 * i)
        ≡ (if ltb i 16 then im.pmd_table - im.kimage_voffset + 4096 * i + 3 else 0)
  pub pmd : (b : ℕ) → b < 8192 → w (im.pmd_table + 8 * b) ≡ e b

module _ {im : Image} (l : Layout im) where
  -- A table lies in the image, so its physical address is by the image's offset.
  pub table_phys :
      (t : ℕ) → virt_offset ≤ t → t < page_offset → virt_to_phys im t ≡ t - im.kimage_voffset
  unfolding virt_to_phys is_lm_address kimg_to_phys
  table_phys t low high = ground (arith, l.offset_low, l.offset_high)

  pub back : (p : ℕ) → p + im.kimage_voffset < 2 ^ 64 → phys_to_kimg im p ≡ p + im.kimage_voffset
  unfolding phys_to_kimg
  back p h = omega arith

  -- What the processor reads at a physical address of the image.
  pub read_lem :
      (m : Mmu) (t i : ℕ)
      → virt_offset ≤ t
      → t + i < page_offset
      → read im m (t - im.kimage_voffset + i) ≡ m.words (t + i)
  unfolding phys_to_kimg
  read_lem m t i low high =
      let e : (t - im.kimage_voffset + i + im.kimage_voffset) % 2 ^ 64 ≡ t + i =
        omega (arith, l.offset_low) in
      ap m.words e

  pub table_of_lem :
      (t n : ℕ)
      → t % 2 ^ 12 ≡ 0
      → virt_offset ≤ t
      → t + 4096 * n < page_offset
      → table_of (t - im.kimage_voffset + 4096 * n + 3) ≡ t - im.kimage_voffset + 4096 * n
  table_of_lem t n aligned low high = omega (arith, l.offset_low, l.offset_high, l.offset_aligned)

  -- The third level, for the addresses that the tables reach.
  level1_lem :
      (m : Mmu) (e : ℕ → ℕ) (o : ℕ)
      → Tables im m.words e
      → o < 2 ^ 39
      → level1 im m (m.words (im.pud_table + 8 * (o / 2 ^ 30))) (virt_offset + o)
        ≡ (if ltb o (2 ^ 34) then level2 im m (e (o / 2 ^ 21)) (virt_offset + o) else none)
  unfolding phys_to_kimg
  level1_lem m e o t h =
      let n = o / 2 ^ 30 in
      let entry = t.pud n (omega arith) in
      elim (Bool-cases (ltb o (2 ^ 34))) [
        | inl reached ↦
            let near : o < 2 ^ 34 = ground arith in
            let desc : m.words (im.pud_table + 8 * n)
                ≡ im.pmd_table - im.kimage_voffset + 4096 * n + 3 =
              ground (arith, entry) in
            let next =
              table_of_lem im.pmd_table n l.pmd_aligned l.pmd_low (omega (arith, l.pmd_high)) in
            let is_table : (im.pmd_table - im.kimage_voffset + 4096 * n + 3) % 4 ≡ 3 =
              omega (arith, l.offset_aligned, l.pmd_aligned, l.offset_low, l.pmd_low) in
            let j : (virt_offset + o) / 2 ^ 21 % 512 ≡ o / 2 ^ 21 % 512 = omega arith in
            let place : im.pmd_table - im.kimage_voffset + 4096 * n + 8 * (o / 2 ^ 21 % 512)
                ≡ im.pmd_table - im.kimage_voffset + 8 * (o / 2 ^ 21) =
              omega arith in
            let word =
              read_lem m im.pmd_table (8 * (o / 2 ^ 21)) l.pmd_low (omega (arith, l.pmd_high))
              ∙ t.pmd (o / 2 ^ 21) (omega arith) in
            rw (desc, is_table, next, j, place, word, reached) refl
        | inr beyond ↦
            let desc : m.words (im.pud_table + 8 * n) ≡ 0 = ground (arith, entry) in
            rw (desc, beyond) refl
      ]

  pub walk_lem :
      (m : Mmu) (e : ℕ → ℕ) (o : ℕ)
      → Tables im m.words e
      → m.ttbr1_el1 ≡ im.pgd_table - im.kimage_voffset
      → o < 2 ^ 48
      → walk im m (virt_offset + o)
        ≡ (if ltb o (2 ^ 34) then level2 im m (e (o / 2 ^ 21)) (virt_offset + o) else none)
  unfolding phys_to_kimg
  walk_lem m e o t root h =
      let n = o / 2 ^ 39 in
      let i0 : (virt_offset + o) / 2 ^ 39 % 512 ≡ n = omega arith in
      let entry =
        read_lem m im.pgd_table (8 * n) l.pgd_low (omega (arith, l.pgd_high))
        ∙ t.pgd n (omega arith) in
      elim (Bool-cases (n == 0)) [
        | inl first ↦
            let within : o < 2 ^ 39 = ground arith in
            let next : table_of (im.pud_table - im.kimage_voffset + 3)
                ≡ im.pud_table - im.kimage_voffset =
              omega (
                arith,
                table_of_lem im.pud_table 0 l.pud_aligned l.pud_low (omega (arith, l.pud_high)),
              ) in
            let is_table : (im.pud_table - im.kimage_voffset + 3) % 4 ≡ 3 =
              omega (arith, l.offset_aligned, l.pud_aligned, l.offset_low, l.pud_low) in
            let i1 : (virt_offset + o) / 2 ^ 30 % 512 ≡ o / 2 ^ 30 = omega arith in
            let word =
              read_lem m im.pud_table (8 * (o / 2 ^ 30)) l.pud_low (omega (arith, l.pud_high)) in
            rw (root, i0, entry, first, is_table, next, i1, word) (level1_lem m e o t within)
        | inr other ↦
            let beyond : ltb o (2 ^ 34) ≡ false = ground arith in
            rw (root, i0, entry, other, beyond) refl
      ]
