-- ===== src/Mmu/Desc.antt =====
-- The block descriptors of arch/arm64/mmu_v3.c as arithmetic.
use armv8_os.Prelude.{
  ◌&&◌, ℕ, ◌+◌, ◌*◌, ◌/◌, ◌%◌, ◌^◌, ◌<◌, ◌≡◌, refl, ◌∙◌, ap, ◌==◌, true, bit_or, bit_and, arith,
  some,
}
use armv8_os.Prelude.Bits.{check_below, checked}
use armv8_os.Prelude.Bitwise.{bit_or_base, bit_or_high, bit_and_high}
use armv8_os.Mmu.{ltb, block_desc}
use armv8_os.Mmu.Walk.{leaf}

-- The attributes of a block.
abbrev pub attrs : ℕ → ℕ
attrs type = 0x701 + 4 * type

attr_table :
    check_below 8 (λ t. bit_or (bit_or (bit_or 1024 (t * 4 % 2 ^ 64)) 768) 1 == attrs t) ≡ true
unfolding check_below
attr_table = refl

small_table :
    check_below 8 (λ t.
      ltb (bit_or 1024 (t * 4 % 2 ^ 64)) 4096
      && ltb (bit_or (bit_or 1024 (t * 4 % 2 ^ 64)) 768) 4096)
    ≡ true
unfolding check_below
small_table = refl

pub block_desc-add :
    (q type : ℕ) → type < 8 → block_desc (q * 2 ^ 12) type ≡ q * 2 ^ 12 + attrs type
unfolding block_desc
block_desc-add q type h =
    let small = checked _ 8 h small_table in
    let sum = checked _ 8 h attr_table in
    let t4 = type * 4 % 2 ^ 64 in
    let low : t4 < 2 ^ 12 = omega arith in
    let low1 : bit_or 1024 t4 < 2 ^ 12 = ground (arith, small) in
    let low2 : bit_or (bit_or 1024 t4) 768 < 2 ^ 12 = ground (arith, small) in
    let total : bit_or (bit_or (bit_or 1024 t4) 768) 1 ≡ attrs type = ground (arith, sum) in
    ap (λ (x : ℕ). bit_or (bit_or (bit_or x t4) 768) 1) (bit_or_base 12 q 1024 (omega arith))
    ∙ ap (λ (x : ℕ). bit_or (bit_or x 768) 1) (bit_or_high 12 q 1024 t4 (omega arith) low)
    ∙ ap (λ (x : ℕ). bit_or x 1) (bit_or_high 12 q (bit_or 1024 t4) 768 low1 (omega arith))
    ∙ bit_or_high 12 q (bit_or (bit_or 1024 t4) 768) 1 low2 (omega arith)
    ∙ ap (λ (x : ℕ). q * 2 ^ 12 + x) total

-- A table descriptor, and the address that create_simple_map takes from it.
pub table_desc : (q : ℕ) → bit_or (q * 2 ^ 12) 3 ≡ q * 2 ^ 12 + 3
table_desc q = bit_or_base 12 q 3 (omega arith)

pub table_addr : (q : ℕ) → q < 2 ^ 52 → bit_and (q * 2 ^ 12 + 3) 0xFFFFFFFFFFFFF000 ≡ q * 2 ^ 12
table_addr q h = bit_and_high 12 52 q 3 h (omega arith)

-- The processor takes the block's base and type from the descriptor.
pub leaf-attrs :
    (pa type va : ℕ)
    → type < 8
    → pa % 2 ^ 12 ≡ 0
    → pa < 2 ^ 48
    → leaf 21 (pa + attrs type) va ≡ some (pa / 2 ^ 21 * 2 ^ 21 + va % 2 ^ 21, type)
leaf-attrs pa type va h aligned low = ground arith
