-- ===== src/Checks/Mmu.antt =====
-- Examples of arch/arm64/mmu_v3.c: an image at KIMAGE_VADDR that is loaded at 0x40080000.
use armv8_os.Prelude.{ℕ, ◌^◌, ◌≤◌, ◌<◌, ◌≡◌, refl, inl, arith, some, none}
use armv8_os.Run.{Ends}
use armv8_os.Mmu.{Image, Mmu, virt_offset, create_kernel_map, virt_to_phys, phys_to_virt, mt_normal}
use armv8_os.Mmu.Walk.{walk}
use armv8_os.Mmu.Tables.{Layout}
use armv8_os.Mmu.Laws.{kernel_map, create_kernel_map-walk, phys_to_virt-inverse}

abbrev pub image : Image
image = record {
  pgd_table = 0xFFFF000000090000;
  pud_table = 0xFFFF000000091000;
  pmd_table = 0xFFFF000000092000;
  kimage_start = 0xFFFF000000080000;
  kimage_end = 0xFFFF0000000A2000;
  kimage_voffset = 0xFFFEFFFFC0000000;
}

pub image_layout : Layout image
image_layout = record {
  offset_aligned = refl;
  offset_low = omega arith;
  offset_high = omega arith;
  pgd_aligned = refl;
  pud_aligned = refl;
  pmd_aligned = refl;
  start_aligned = refl;
  start_low = omega arith;
  end_low = omega arith;
  end_high = omega arith;
  pgd_low = omega arith;
  pud_low = omega arith;
  pmd_low = omega arith;
  pgd_high = omega arith;
  pud_high = omega arith;
  pmd_high = omega arith;
  pgd_pud = inl (omega arith);
  pgd_pmd = inl (omega arith);
  pud_pmd = inl (omega arith);
}

abbrev pub reset : Mmu
reset = record { words = λ a. 0; init_pagetables_done = 0; ttbr1_el1 = 0 }

create_kernel_map-walk_example :
    Ends
      (λ m'. (va : ℕ) → virt_offset ≤ va → va < 2 ^ 64 → walk image m' va ≡ kernel_map image va)
      (create_kernel_map image 2049 reset)
create_kernel_map-walk_example =
    create_kernel_map-walk image_layout 2049 reset (omega arith)
      (record { pgd = λ i h. refl; pud = λ i h. refl; pmd = λ b h. refl }) refl

-- The kernel's first instruction, the first byte of RAM in the linear map, and the UART.
image_start : kernel_map image 0xFFFF000000080000 ≡ some (0x40080000, 0)
image_start = refl

ram_start : kernel_map image 0xFFFF000100000000 ≡ some (0x40000000, 0)
ram_start = refl

uart : kernel_map image 0xFFFF000309000000 ≡ some (0x09000000, 3)
uart = refl

-- An image that ends behind its last whole block loses its tail.
abbrev tailed : Image
tailed = record image { kimage_end = 0xFFFF000000210000 }

tail_unmapped : kernel_map tailed 0xFFFF000000208000 ≡ none
tail_unmapped = refl

phys_to_virt-inverse_example :
    (virt_to_phys image (phys_to_virt 0x40001234) ≡ 0x40001234)
    × (kernel_map image (phys_to_virt 0x40001234) ≡ some (0x40001234, mt_normal))
phys_to_virt-inverse_example = phys_to_virt-inverse image 0x40001234 (omega arith) (omega arith)
