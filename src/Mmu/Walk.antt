-- ===== src/Mmu/Walk.antt =====
-- How the processor translates an address through the tables of arch/arm64/mmu_v3.c: a stage 1 walk
-- with 48-bit addresses and 4 KiB granules, from the table in ttbr1_el1. The tables are read at
-- physical addresses.
use armv8_os.Prelude.{ℕ, ◌+◌, ◌*◌, ◌/◌, ◌%◌, ◌^◌, ◌==◌, if◌then◌else◌, Option, none, some}
use armv8_os.Mmu.{Image, Mmu, phys_to_kimg}

-- A physical address and the index of the memory type.
abbrev pub Target : Type 0
Target = ℕ × ℕ

-- A block or a page of `2 ^ size` bytes, unless it would fault for its access flag.
abbrev pub leaf : (size desc va : ℕ) → Option Target
leaf size desc va =
    if desc / 2 ^ 10 % 2 == 1
    then some (desc % 2 ^ 48 / 2 ^ size * 2 ^ size + va % 2 ^ size, desc / 2 ^ 2 % 8)
    else none

-- The next table that a descriptor points to.
abbrev pub table_of : ℕ → ℕ
table_of desc = desc % 2 ^ 48 / 2 ^ 12 * 2 ^ 12

abbrev pub level3 : (desc va : ℕ) → Option Target
level3 desc va = if desc % 4 == 3 then leaf 12 desc va else none

module _ (im : Image) (m : Mmu) where
  -- The word at a physical address.
  abbrev pub read : ℕ → ℕ
  read pa = m.words (phys_to_kimg im pa)

  abbrev pub level2 : (desc va : ℕ) → Option Target
  level2 desc va =
      if desc % 4 == 3
      then level3 (read (table_of desc + 8 * (va / 2 ^ 12 % 512))) va
      else (if desc % 4 == 1 then leaf 21 desc va else none)

  abbrev pub level1 : (desc va : ℕ) → Option Target
  level1 desc va =
      if desc % 4 == 3
      then level2 (read (table_of desc + 8 * (va / 2 ^ 21 % 512))) va
      else (if desc % 4 == 1 then leaf 30 desc va else none)

  abbrev pub walk : ℕ → Option Target
  walk va =
      let desc = read (m.ttbr1_el1 + 8 * (va / 2 ^ 39 % 512)) in
      if desc % 4 == 3 then level1 (read (table_of desc + 8 * (va / 2 ^ 30 % 512))) va else none
