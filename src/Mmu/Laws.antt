-- ===== src/Mmu/Laws.antt =====
-- The kernel's address space: what a walk gives after create_kernel_map of arch/arm64/mmu_v3.c, and
-- the conversions of arch/arm64/include/asm/memory.h on it.
use armv8_os.Prelude.{
  bit_or, ℕ, ◌+◌, ◌*◌, ◌-◌, ◌/◌, ◌%◌, ◌^◌, ◌<◌, ◌≤◌, ◌≡◌, refl, sym, ap, ◌∙◌, ltb, leb, ◌&&◌,
  if◌then◌else◌, Option, none, some, arith, Bool-cases, inl, inr,
}
use mathlib.Core.Path.{subst}
use armv8_os.Prelude.Bitwise.{bit_or_fields, bit_or-zero}
use armv8_os.Run.{Run, ◌>>=◌, Ends, Ends-bind}
use armv8_os.Mmu.{
  Words, Image, Mmu, virt_offset, page_offset, phys_offset, phys_size, device_start,
  device_phys_offset, device_phys_size, mt_normal, mt_device, sub64, init_pagetables,
  create_simple_map, switch_mm, create_kernel_map, phys_to_virt, virt_to_phys, is_lm_address,
  lm_to_phys,
}
use armv8_os.Mmu.Desc.{attrs, leaf-attrs}
use armv8_os.Mmu.Walk.{Target, walk, level2}
use armv8_os.Mmu.Tables.{Layout, Blank, Tables, table_phys, walk_lem}
use armv8_os.Mmu.Map.{blocks, init_pagetables-Tables, create_simple_map-Tables}

-- Where an address of the kernel leads. The image is mapped by whole blocks, of which the first has
-- its start; a block whose address at the same distance is past the end is not mapped.
abbrev pub kernel_map : Image → ℕ → Option Target
kernel_map im va =
    if leb device_start va && ltb va (device_start + device_phys_size)
    then some (va - device_start + device_phys_offset, mt_device)
    else (if leb page_offset va && ltb va (page_offset + phys_size)
        then some (va - page_offset + phys_offset, mt_normal)
        else (if leb (im.kimage_start / 2 ^ 21) (va / 2 ^ 21)
              && ltb (va / 2 ^ 21 * 2 ^ 21 + im.kimage_start % 2 ^ 21) im.kimage_end
            then some (va - im.kimage_voffset, mt_normal)
            else none))

-- The entries after the three calls of create_simple_map.
abbrev entries : Image → ℕ → ℕ
entries im =
    blocks (device_start - virt_offset) (device_start - virt_offset + device_phys_size)
      device_phys_offset mt_device
      (blocks (page_offset - virt_offset) (page_offset - virt_offset + phys_size) phys_offset
        mt_normal
        (blocks (im.kimage_start - virt_offset)
          (im.kimage_start - virt_offset + (im.kimage_end - im.kimage_start))
          (im.kimage_start - im.kimage_voffset) mt_normal (λ b. 0)))

level2-block :
    (im : Image) (m : Mmu) (pa type va : ℕ)
    → type < 8
    → pa % 2 ^ 12 ≡ 0
    → pa < 2 ^ 48
    → level2 im m (pa + attrs type) va ≡ some (pa / 2 ^ 21 * 2 ^ 21 + va % 2 ^ 21, type)
level2-block im m pa type va h aligned low =
    let block : (pa + attrs type) % 4 ≡ 1 = omega arith in
    rw block (leaf-attrs pa type va h aligned low)

level2-target :
    (im : Image) (m : Mmu) (desc pa type va t : ℕ)
    → desc ≡ pa + attrs type
    → type < 8
    → pa % 2 ^ 12 ≡ 0
    → pa < 2 ^ 48
    → pa / 2 ^ 21 * 2 ^ 21 + va % 2 ^ 21 ≡ t
    → level2 im m desc va ≡ some (t, type)
level2-target im m desc pa type va t e h aligned low place =
    rw (e, level2-block im m pa type va h aligned low, place) refl

module _ {im : Image} (l : Layout im) where
  entries-map :
      (m : Mmu) (o : ℕ)
      → o < 2 ^ 34
      → level2 im m (entries im (o / 2 ^ 21)) (virt_offset + o) ≡ kernel_map im (virt_offset + o)
  entries-map m o h =
      let va = virt_offset + o in
      elim (Bool-cases (leb device_start va && ltb va (device_start + device_phys_size))) [
        | inl d ↦
            let pa = o / 2 ^ 21 * 2 ^ 21 - (device_start - virt_offset) in
            let e : entries im (o / 2 ^ 21) ≡ pa + attrs mt_device = ground arith in
            rw d (
              level2-target im m _ pa mt_device va (va - device_start + device_phys_offset) e
                (omega arith) (ground arith) (omega arith) (ground arith))
        | inr nd ↦ elim (Bool-cases (leb page_offset va && ltb va (page_offset + phys_size))) [
          | inl p ↦
              let pa = phys_offset + (o / 2 ^ 21 * 2 ^ 21 - (page_offset - virt_offset)) in
              let e : entries im (o / 2 ^ 21) ≡ pa + attrs mt_normal = ground arith in
              rw (nd, p)
                (level2-target im m _ pa mt_normal va (va - page_offset + phys_offset) e
                  (omega arith) (ground arith) (omega arith) (ground arith))
          | inr np ↦
              elim (Bool-cases (
                leb (im.kimage_start / 2 ^ 21) (va / 2 ^ 21)
                && ltb (va / 2 ^ 21 * 2 ^ 21 + im.kimage_start % 2 ^ 21) im.kimage_end)) [
                  | inl i ↦
                      let s = im.kimage_start - virt_offset in
                      let pa =
                        im.kimage_start
                        - im.kimage_voffset
                        + (o / 2 ^ 21 * 2 ^ 21 - s / 2 ^ 21 * 2 ^ 21) in
                      let e : entries im (o / 2 ^ 21) ≡ pa + attrs mt_normal =
                        ground (arith, l.start_low, l.end_low, l.end_high) in
                      rw (nd, np, i)
                        (level2-target im m _ pa mt_normal va (va - im.kimage_voffset) e
                          (omega arith)
                          (omega
                            (arith, l.start_aligned, l.offset_aligned, l.offset_low, l.start_low))
                          (ground (arith, l.offset_high, l.end_high, l.start_low))
                          (ground (arith, l.offset_aligned, l.offset_low, l.start_low)))
                  | inr ni ↦
                      let e : entries im (o / 2 ^ 21) ≡ 0 =
                        ground (arith, l.start_low, l.end_low, l.end_high) in
                      rw (nd, np, ni, e) refl
                ]
        ]
      ]

  beyond : (o : ℕ) → 2 ^ 34 ≤ o → o < 2 ^ 48 → none ≡ kernel_map im (virt_offset + o)
  beyond o h h' = ground (arith, l.end_high)

  mapped :
      (fuel : ℕ) (w : Words) (Q : Mmu → Type 0) (k : Words → Run Mmu)
      → 2049 ≤ fuel
      → Tables im w (λ b. 0)
      → ((w' : Words) → Tables im w' (entries im) → Ends Q (k w'))
      → Ends Q (
          create_simple_map im fuel im.kimage_start
            (sub64 im.kimage_start im.kimage_voffset)
            (sub64 im.kimage_end im.kimage_start)
            mt_normal
            w
          >>= λ w1.
              create_simple_map im fuel page_offset phys_offset phys_size mt_normal w1 >>= λ w2.
              create_simple_map im fuel device_start device_phys_offset device_phys_size mt_device
                w2
              >>= k)
  mapped fuel w Q k enough t go =
      let s = im.kimage_start - virt_offset in
      let size = im.kimage_end - im.kimage_start in
      let e0 : im.kimage_start ≡ virt_offset + s = omega (arith, l.start_low) in
      let e1 : sub64 im.kimage_start im.kimage_voffset ≡ im.kimage_start - im.kimage_voffset =
        omega (arith, l.start_low, l.offset_low, l.end_low, l.end_high) in
      let e2 : sub64 im.kimage_end im.kimage_start ≡ size = omega (arith, l.end_low, l.end_high) in
      let first =
        create_simple_map-Tables l fuel s (im.kimage_start - im.kimage_voffset) size mt_normal w
          (λ b. 0) t (omega arith)
          (omega (arith, l.start_aligned, l.offset_aligned, l.offset_low, l.start_low))
          (omega (arith, l.end_low, l.end_high)) (omega (arith, l.end_low, l.end_high, l.start_low))
          (omega (arith, l.offset_high, l.end_low, l.end_high, l.start_low)) in
      rw (e1, e2)
        (Ends-bind _ Q
          (create_simple_map im fuel im.kimage_start (im.kimage_start - im.kimage_voffset) size
            mt_normal w)
          _
          (subst
            (λ x.
              Ends
                (λ w'.
                  Tables im w'
                    (blocks s (s + size) (im.kimage_start - im.kimage_voffset) mt_normal (λ b. 0)))
                (create_simple_map im fuel x (im.kimage_start - im.kimage_voffset) size mt_normal
                  w))
            (sym e0) first)
          (λ w1 t1.
            Ends-bind _ Q (create_simple_map im fuel page_offset phys_offset phys_size mt_normal w1)
              _
              (create_simple_map-Tables l fuel (page_offset - virt_offset) phys_offset phys_size
                mt_normal w1 _ t1 (omega arith) (omega arith) (omega arith) (omega arith)
                (omega arith))
              (λ w2 t2.
                Ends-bind _ Q
                  (create_simple_map im fuel device_start device_phys_offset device_phys_size
                    mt_device w2)
                  _
                  (create_simple_map-Tables l fuel (device_start - virt_offset) device_phys_offset
                    device_phys_size mt_device w2 _ t2 (omega arith) (omega arith) (omega arith)
                    (omega arith) (omega arith))
                  go)))

  entries-seen :
      (m : Mmu) (o : ℕ)
      → o < 2 ^ 48
      → (if ltb o (2 ^ 34) then level2 im m (entries im (o / 2 ^ 21)) (virt_offset + o) else none)
        ≡ kernel_map im (virt_offset + o)
  entries-seen m o h = elim (Bool-cases (ltb o (2 ^ 34))) [
    | inl reached ↦ rw reached (entries-map m o (ground arith))
    | inr over ↦ rw over (beyond o (ground arith) h)
  ]

  -- For an image that is laid out as the linker lays it out, zeroed tables and 2049 rounds of fuel
  -- or more, `create_kernel_map` ends, and for every kernel address the walk of the hardware
  -- through the tables gives the physical address and memory type of the kernel address space:
  -- devices and RAM by their linear maps, the image by its offset in whole blocks from the one
  -- with its start, and no mapping elsewhere.
  pub create_kernel_map-walk :
      (fuel : ℕ) (m : Mmu)
      → 2049 ≤ fuel
      → Blank im m.words
      → m.init_pagetables_done ≡ 0
      → Ends
          (λ m'. (va : ℕ) → virt_offset ≤ va → va < 2 ^ 64 → walk im m' va ≡ kernel_map im va)
          (create_kernel_map im fuel m)
  unfolding create_kernel_map switch_mm
  create_kernel_map-walk fuel m enough blank fresh =
      mapped fuel ((init_pagetables im m).words) _ _ enough (init_pagetables-Tables l m blank fresh)
        (λ w' t va low high.
          let o = va - virt_offset in
          let e : va ≡ virt_offset + o = omega arith in
          let m' = switch_mm im im.pgd_table (record (init_pagetables im m) { words = w' }) in
          subst (λ x. walk im m' x ≡ kernel_map im x) (sym e)
            (walk_lem l m' (entries im) o t
                (table_phys l im.pgd_table l.pgd_low (omega (arith, l.pgd_high))) (omega arith)
              ∙ entries-seen m' o (omega arith)))

phys_to_virt-add :
    (pa : ℕ)
    → phys_offset ≤ pa
    → pa < phys_offset + phys_size
    → phys_to_virt pa ≡ page_offset + (pa - phys_offset)
unfolding phys_to_virt
phys_to_virt-add pa h h' =
    let o = pa - phys_offset in
    let e : sub64 pa phys_offset ≡ 0 * 2 ^ 32 + o = omega arith in
    let low : page_offset + bit_or o 0 ≡ page_offset + o = omega (arith, bit_or-zero o) in
    ap (λ (x : ℕ). bit_or x page_offset) e
    ∙ bit_or_fields 32 0 0xFFFF0001 o 0 (omega arith) (omega arith)
    ∙ low

-- For every physical address of the RAM, `virt_to_phys` undoes `phys_to_virt`, and the address
-- between the two is mapped to it as normal memory by the kernel address space.
pub phys_to_virt-inverse :
    (im : Image) (pa : ℕ)
    → phys_offset ≤ pa
    → pa < phys_offset + phys_size
    → (virt_to_phys im (phys_to_virt pa) ≡ pa)
      × (kernel_map im (phys_to_virt pa) ≡ some (pa, mt_normal))
unfolding virt_to_phys is_lm_address lm_to_phys
phys_to_virt-inverse im pa h h' = rw (phys_to_virt-add pa h h') (ground arith)
