-- ===== src/Mmu.antt =====
-- arch/arm64/mmu_v3.c with the address map of arch/arm64/include/asm/memory.h: the kernel's page
-- tables. Memory is seen as 64-bit words at their kernel addresses; writeq is a store of one. The
-- addresses that the linker and startup.S fix are the fields of `Image`.
pub mod Walk
pub mod Desc
pub mod Tables
pub mod Map
pub mod Laws
use armv8_os.Run.{◌>>=◌, Run, done, out}
use armv8_os.Prelude.{
  ℕ, zero, suc, ◌+◌, ◌*◌, ◌-◌, ◌/◌, ◌%◌, ◌^◌, Bool, ltb, ◌==◌, if◌then◌else◌, bit_and, bit_or,
}

abbrev pub Words : Type 0
Words = ℕ → ℕ

-- writeq(v, a)
abbrev pub writeq : Words → (v a : ℕ) → Words
writeq w v a x = if x == a then v else w x

abbrev pub phys_offset : ℕ
phys_offset = 0x40000000

abbrev pub phys_size : ℕ
phys_size = 0x40000000

abbrev pub virt_offset : ℕ
virt_offset = 0xFFFF000000000000

abbrev pub page_offset : ℕ
page_offset = 0xFFFF000100000000

abbrev pub page_end : ℕ
page_end = 0xFFFF0001FFFFFFFF

abbrev pub device_phys_offset : ℕ
device_phys_offset = 0

abbrev pub device_phys_size : ℕ
device_phys_size = 0x20000000

abbrev pub device_start : ℕ
device_start = 0xFFFF000300000000

abbrev pub mt_normal : ℕ
mt_normal = 0

-- MT_DEVICE_nGnRnE
abbrev pub mt_device : ℕ
mt_device = 3

-- a - b on uint64_t
abbrev pub sub64 : ℕ → ℕ → ℕ
sub64 a b = (a + 2 ^ 64 - b) % 2 ^ 64

unfoldable pub is_lm_address : ℕ → Bool
is_lm_address addr = ltb (sub64 addr page_offset) (page_end - page_offset)

unfoldable pub lm_to_phys : ℕ → ℕ
lm_to_phys addr = (sub64 addr page_offset + phys_offset) % 2 ^ 64

unfoldable pub phys_to_virt : ℕ → ℕ
phys_to_virt x = bit_or (sub64 x phys_offset) page_offset

-- Three tables of 64-bit words, the ends of the image, and kimage_voffset.
pub record Image : Type 0 where
  pub pgd_table : ℕ
  pub pud_table : ℕ
  pub pmd_table : ℕ
  pub kimage_start : ℕ
  pub kimage_end : ℕ
  pub kimage_voffset : ℕ

-- The memory, the static flag init_pagetables_done and the register ttbr1_el1.
pub record Mmu : Type 0 where
  pub words : Words
  pub init_pagetables_done : ℕ
  pub ttbr1_el1 : ℕ

unfoldable pub pgd_index : ℕ → ℕ
pgd_index va = va / 2 ^ 39 % 512

unfoldable pub pud_index : ℕ → ℕ
pud_index va = va / 2 ^ 30 % 512

unfoldable pub pmd_index : ℕ → ℕ
pmd_index va = va / 2 ^ 21 % 512

-- The block descriptor that create_simple_map writes: PMD_SECT_AF, PMD_ATTRINDX(type), PMD_SECT_S
-- and PMD_TYPE_SECT.
unfoldable pub block_desc : (pa type : ℕ) → ℕ
block_desc pa type =
    bit_or (bit_or (bit_or (bit_or pa (2 ^ 10)) (type * 2 ^ 2 % 2 ^ 64)) (3 * 2 ^ 8)) 1

module _ (im : Image) where
  open im use {pgd_table, pud_table, pmd_table, kimage_voffset}

  unfoldable pub kimg_to_phys : ℕ → ℕ
  kimg_to_phys addr = sub64 addr kimage_voffset

  unfoldable pub phys_to_kimg : ℕ → ℕ
  phys_to_kimg x = (x + kimage_voffset) % 2 ^ 64

  unfoldable pub virt_to_phys : ℕ → ℕ
  virt_to_phys x = if is_lm_address x then lm_to_phys x else kimg_to_phys x

  -- for (i = 0; i < 16; i++), with `rounds` left
  unfoldable pub pud_loop : (rounds va pmd_phys : ℕ) → Words → Words
  pud_loop zero va pmd_phys w = w
  pud_loop (suc rounds) va pmd_phys w =
      pud_loop rounds ((va + 2 ^ 30) % 2 ^ 64) ((pmd_phys + 4096) % 2 ^ 64)
        (writeq w (bit_or pmd_phys 3) (pud_table + 8 * pud_index va))

  unfoldable pub init_pagetables : Mmu → Mmu
  init_pagetables m =
      if m.init_pagetables_done == 0
      then record m {
        words = pud_loop 16 virt_offset (virt_to_phys pmd_table) (
            writeq m.words (bit_or (virt_to_phys pud_table) 3)
              (pgd_table + 8 * pgd_index virt_offset));
        init_pagetables_done = 1;
      }
      else m

  -- One round of create_simple_map.
  unfoldable pub map_block : (va pa type : ℕ) → Words → Words
  map_block va pa type w =
      let pud = w (pud_table + 8 * pud_index va) in
      let pmd_page_table = phys_to_kimg (bit_and pud 0xFFFFFFFFFFFFF000) in
      writeq w (block_desc pa type) (pmd_page_table + 8 * pmd_index va)

  -- while (va < va_end)
  unfoldable pub map_loop : (fuel va va_end pa type : ℕ) → Words → Run Words
  map_loop zero va va_end pa type w = out
  map_loop (suc fuel) va va_end pa type w =
      let rest =
        map_loop fuel ((va + 2 ^ 21) % 2 ^ 64) va_end ((pa + 2 ^ 21) % 2 ^ 64) type
          (map_block va pa type w) in
      if ltb va va_end then rest else done w

  unfoldable pub create_simple_map : (fuel va pa size type : ℕ) → Words → Run Words
  create_simple_map fuel va pa size type w = map_loop fuel va ((va + size) % 2 ^ 64) pa type w

  -- The register only: the model has no TLB, so the invalidation and the barriers do nothing.
  unfoldable pub switch_mm : (pgd : ℕ) → Mmu → Mmu
  switch_mm pgd m = record m { ttbr1_el1 = virt_to_phys pgd }

  unfoldable pub create_kernel_map : (fuel : ℕ) → Mmu → Run Mmu
  create_kernel_map fuel m =
      let m1 = init_pagetables m in
      let start = im.kimage_start in
      create_simple_map fuel start (sub64 start kimage_voffset) (sub64 im.kimage_end start)
        mt_normal m1.words
      >>= λ w1. create_simple_map fuel page_offset phys_offset phys_size mt_normal w1 >>= λ w2.
          create_simple_map fuel device_start device_phys_offset device_phys_size mt_device w2
          >>= λ w3. done (switch_mm pgd_table (record m1 { words = w3 }))
