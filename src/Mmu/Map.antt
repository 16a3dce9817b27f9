-- ===== src/Mmu/Map.antt =====
-- init_pagetables and create_simple_map of arch/arm64/mmu_v3.c, by what they leave in the tables.
use armv8_os.Prelude.{
  ℕ, zero, suc, ◌+◌, ◌*◌, ◌-◌, ◌/◌, ◌%◌, ◌^◌, ◌<◌, ◌≤◌, ◌≡◌, ◌⊎◌, refl, ap, ◌∙◌, ◌==◌, ltb, leb,
  ◌&&◌, bit_or, if◌then◌else◌, if_holds, true, arith,
}
use armv8_os.Run.{Ends, Ends-mono}
use armv8_os.Mmu.{
  Words, Image, Mmu, writeq, virt_offset, pgd_index, pud_index, pmd_index, pud_loop,
  init_pagetables, map_block, map_loop, create_simple_map, block_desc,
}
use armv8_os.Mmu.Desc.{table_desc, table_addr, block_desc-add, attrs}
use armv8_os.Mmu.Tables.{Layout, Blank, Tables, table_phys, back}

module _ {im : Image} (l : Layout im) where
  -- The entry of the second level for the sixteen tables that lie one behind the other.
  pud_entry :
      (i : ℕ)
      → i < 16
      → bit_or (im.pmd_table - im.kimage_voffset + 4096 * i) 3
        ≡ im.pmd_table - im.kimage_voffset + 4096 * i + 3
  pud_entry i h =
      let q = (im.pmd_table - im.kimage_voffset) / 2 ^ 12 + i in
      let e : im.pmd_table - im.kimage_voffset + 4096 * i ≡ q * 2 ^ 12 =
        omega (arith, l.pmd_aligned, l.offset_aligned, l.offset_low, l.pmd_low) in
      rw e (table_desc q)

  pud_loop-at :
      (rounds i : ℕ) (w : Words) (j : ℕ)
      → i + rounds ≡ 16
      → j < 512
      → pud_loop im rounds
          (virt_offset + i * 2 ^ 30)
          (im.pmd_table - im.kimage_voffset + 4096 * i)
          w
          (im.pud_table + 8 * j)
        ≡ (if leb i j && ltb j 16
            then im.pmd_table - im.kimage_voffset + 4096 * j + 3
            else w (im.pud_table + 8 * j))
  unfolding pud_loop pud_index
  pud_loop-at zero i w j e h = ground arith
  pud_loop-at (suc rounds) i w j e h =
      let va : (virt_offset + i * 2 ^ 30 + 2 ^ 30) % 2 ^ 64 ≡ virt_offset + suc i * 2 ^ 30 =
        omega arith in
      let pa : (im.pmd_table - im.kimage_voffset + 4096 * i + 4096) % 2 ^ 64
          ≡ im.pmd_table - im.kimage_voffset + 4096 * suc i =
        omega (arith, l.pmd_high, l.offset_low, l.pmd_low) in
      let index : (virt_offset + i * 2 ^ 30) / 2 ^ 30 % 512 ≡ i = omega arith in
      rw
        (
          va,
          pa,
          index,
          pud_entry i (omega arith),
          pud_loop-at rounds (suc i)
              (writeq w (im.pmd_table - im.kimage_voffset + 4096 * i + 3) (im.pud_table + 8 * i)) j
              (omega arith) h,
        )
        (ground arith)

  pud_loop-off :
      (rounds : ℕ) (w : Words) (a : ℕ)
      → (a < im.pud_table) ⊎ (im.pud_table + 2 ^ 12 ≤ a)
      → (va pa : ℕ) → pud_loop im rounds va pa w a ≡ w a
  unfolding pud_loop pud_index
  pud_loop-off zero w a h va pa = refl
  pud_loop-off (suc rounds) w a h va pa =
      pud_loop-off rounds (writeq w (bit_or pa 3) (im.pud_table + 8 * (va / 2 ^ 30 % 512))) a h _ _
      ∙ ground arith

  init_words :
      (m : Mmu)
      → m.init_pagetables_done ≡ 0
      → (init_pagetables im m).words
        ≡ pud_loop im 16 virt_offset
            (im.pmd_table - im.kimage_voffset)
            (writeq m.words (im.pud_table - im.kimage_voffset + 3) im.pgd_table)
  unfolding init_pagetables pgd_index
  init_words m fresh =
      let first : im.pgd_table + 8 * (virt_offset / 2 ^ 39 % 512) ≡ im.pgd_table = omega arith in
      let q = (im.pud_table - im.kimage_voffset) / 2 ^ 12 in
      let e : im.pud_table - im.kimage_voffset ≡ q * 2 ^ 12 =
        omega (arith, l.pud_aligned, l.offset_aligned, l.offset_low, l.pud_low) in
      let desc : bit_or (im.pud_table - im.kimage_voffset) 3
          ≡ im.pud_table - im.kimage_voffset + 3 =
        rw e (table_desc q) in
      rw
        (
          fresh,
          table_phys l im.pmd_table l.pmd_low (omega (arith, l.pmd_high)),
          table_phys l im.pud_table l.pud_low (omega (arith, l.pud_high)),
          first,
          desc,
        )
        refl

  pub init_pagetables-Tables :
      (m : Mmu)
      → Blank im m.words
      → m.init_pagetables_done ≡ 0
      → Tables im ((init_pagetables im m).words) (λ b. 0)
  init_pagetables-Tables m blank fresh =
      let w = writeq m.words (im.pud_table - im.kimage_voffset + 3) im.pgd_table in
      let p = im.pmd_table - im.kimage_voffset in
      let start : p ≡ p + 4096 * 0 = omega arith in
      rw (init_words m fresh) (record {
        pgd = λ i h.
            pud_loop-off 16 w (im.pgd_table + 8 * i) (ground (arith, l.pgd_pud)) virt_offset p
            ∙ ground (arith, blank.pgd i h);
        pud = λ i h.
            ap (λ (x : ℕ). pud_loop im 16 virt_offset x w (im.pud_table + 8 * i)) start
            ∙ pud_loop-at 16 0 w i refl h
            ∙ ground (arith, blank.pud i h, l.pgd_pud);
        pmd = λ b h.
            pud_loop-off 16 w (im.pmd_table + 8 * b) (ground (arith, l.pud_pmd)) virt_offset p
            ∙ ground (arith, blank.pmd b h, l.pgd_pmd);
      })

  -- One round writes the entry of its block.
  map_block-pmd :
      (o pa type : ℕ) (w : Words) (e : ℕ → ℕ)
      → Tables im w e
      → o < 2 ^ 34
      → map_block im (virt_offset + o) pa type w
        ≡ writeq w (block_desc pa type) (im.pmd_table + 8 * (o / 2 ^ 21))
  unfolding map_block pud_index pmd_index
  map_block-pmd o pa type w e t h =
      let n = o / 2 ^ 30 in
      let i : (virt_offset + o) / 2 ^ 30 % 512 ≡ n = omega arith in
      let j : (virt_offset + o) / 2 ^ 21 % 512 ≡ o / 2 ^ 21 % 512 = omega arith in
      let reached : ltb n 16 ≡ true = ground arith in
      let q = (im.pmd_table - im.kimage_voffset) / 2 ^ 12 + n in
      let aligned : im.pmd_table - im.kimage_voffset + 4096 * n ≡ q * 2 ^ 12 =
        omega (arith, l.pmd_aligned, l.offset_aligned, l.offset_low, l.pmd_low) in
      let addr = table_addr q (omega (arith, l.pmd_high)) in
      let home =
        back l (q * 2 ^ 12) (omega (arith, aligned, l.pmd_high, l.offset_low, l.pmd_low)) in
      let place : q * 2 ^ 12 + im.kimage_voffset + 8 * (o / 2 ^ 21 % 512)
          ≡ im.pmd_table + 8 * (o / 2 ^ 21) =
        omega (arith, aligned, l.offset_low, l.pmd_low) in
      rw (i, t.pud n (omega arith), reached, aligned, addr, home, j, place) refl

  Tables-same :
      (w : Words) (e e' : ℕ → ℕ)
      → ((b : ℕ) → b < 8192 → e b ≡ e' b)
      → Tables im w e
      → Tables im w e'
  Tables-same w e e' same t = record { pgd = t.pgd; pud = t.pud; pmd = λ b h. t.pmd b h ∙ same b h }

  writeq-Tables :
      (w : Words) (e : ℕ → ℕ) (v b : ℕ)
      → b < 8192
      → Tables im w e
      → Tables im (writeq w v (im.pmd_table + 8 * b)) (λ c. if c == b then v else e c)
  writeq-Tables w e v b h t = record {
    pgd = λ i hi. ground (arith, t.pgd i hi, l.pgd_pmd);
    pud = λ i hi. ground (arith, t.pud i hi, l.pud_pmd);
    pmd = λ c hc. ground (arith, t.pmd c hc);
  }

-- The entries after blocks from `o` to `end` are mapped to `pa` on; a block is an entry with the
-- address of `o` in it that lies in front of the end.
abbrev pub blocks : (o end pa type : ℕ) → (ℕ → ℕ) → ℕ → ℕ
blocks o end pa type e b =
    if leb (o / 2 ^ 21) b && ltb (b * 2 ^ 21 + o % 2 ^ 21) end
    then pa + (b * 2 ^ 21 - o / 2 ^ 21 * 2 ^ 21) + attrs type
    else e b

-- The first of these blocks, and the others.
blocks-next :
    (o end pa type : ℕ) (e : ℕ → ℕ) (b : ℕ)
    → type < 8
    → pa % 2 ^ 12 ≡ 0
    → o < end
    → blocks
        (o + 2 ^ 21)
        end
        (pa + 2 ^ 21)
        type
        (λ c. if c == o / 2 ^ 21 then block_desc pa type else e c)
        b
      ≡ blocks o end pa type e b
blocks-next o end pa type e b ht ha h =
    let q : pa ≡ pa / 2 ^ 12 * 2 ^ 12 = omega arith in
    let desc : block_desc pa type ≡ pa + attrs type =
      ap (λ (x : ℕ). block_desc x type) q ∙ block_desc-add (pa / 2 ^ 12) type ht ∙ omega arith in
    ground (arith, desc)

module _ {im : Image} (l : Layout im) where
  map_loop-Tables :
      (fuel o end pa type : ℕ) (w : Words) (e : ℕ → ℕ)
      → Tables im w e
      → type < 8
      → pa % 2 ^ 12 ≡ 0
      → end ≤ 2 ^ 34
      → o < end + 2 ^ 21
      → end + 2 ^ 21 ≤ o + fuel * 2 ^ 21
      → pa + end ≤ o + 2 ^ 48
      → Ends
          (λ w'. Tables im w' (blocks o end pa type e))
          (map_loop im fuel (virt_offset + o) (virt_offset + end) pa type w)
  unfolding map_loop
  map_loop-Tables zero o end pa type w e t ht ha he ho hf hp = absurd (omega arith)
  map_loop-Tables (suc fuel) o end pa type w e t ht ha he ho hf hp =
      if_holds (Ends (λ w'. Tables im w' (blocks o end pa type e)))
        (ltb (virt_offset + o) (virt_offset + end))
        (λ more.
          let near : o < end = ground arith in
          let va : (virt_offset + o + 2 ^ 21) % 2 ^ 64 ≡ virt_offset + (o + 2 ^ 21) = omega arith in
          let pa' : (pa + 2 ^ 21) % 2 ^ 64 ≡ pa + 2 ^ 21 = omega arith in
          let desc = block_desc pa type in
          let e1 : ℕ → ℕ = λ c. if c == o / 2 ^ 21 then desc else e c in
          let t1 = writeq-Tables l w e desc (o / 2 ^ 21) (omega arith) t in
          rw (va, pa', map_block-pmd l o pa type w e t (omega arith))
            (Ends-mono _ _
              (map_loop im fuel (virt_offset + (o + 2 ^ 21)) (virt_offset + end) (pa + 2 ^ 21) type
                _)
              (λ w' t'. Tables-same l w' _ _ (λ b h. blocks-next o end pa type e b ht ha near) t')
              (map_loop-Tables fuel (o + 2 ^ 21) end (pa + 2 ^ 21) type _ e1 t1 ht (omega arith) he
                (omega arith) (omega arith) (omega arith))))
        (λ stop. Tables-same l w e (blocks o end pa type e) (λ b h. ground arith) t)

  pub create_simple_map-Tables :
      (fuel o pa size type : ℕ) (w : Words) (e : ℕ → ℕ)
      → Tables im w e
      → type < 8
      → pa % 2 ^ 12 ≡ 0
      → o + size ≤ 2 ^ 34
      → size + 2 ^ 21 ≤ fuel * 2 ^ 21
      → pa + size ≤ 2 ^ 48
      → Ends
          (λ w'. Tables im w' (blocks o (o + size) pa type e))
          (create_simple_map im fuel (virt_offset + o) pa size type w)
  unfolding create_simple_map
  create_simple_map-Tables fuel o pa size type w e t ht ha he hf hp =
      let va_end : (virt_offset + o + size) % 2 ^ 64 ≡ virt_offset + (o + size) = omega arith in
      rw va_end (
        map_loop-Tables fuel o (o + size) pa type w e t ht ha he (omega arith) (omega arith)
          (omega arith))
