-- ===== src/SelfTest/Tests.antt =====
-- Tables that map five pages of physical memory and the kernel stack.
use kp.Base.{
  ℕ, ◌+◌, ◌*◌, ◌≡◌, refl, ltb, leb, ◌==◌, ◌&&◌, ◌||◌, if◌then◌else◌, none, some, [], ◌∷◌, arith,
}
use kp.Run.{ok}
use kp.Words.{
  has_bit, entry_frame, round_up, round_down, pml4_index, pdpt_index, page_dir_index,
  page_table_index,
}
use kp.Pages.{Memory, kaddr, page2pa}
use kp.Pages.FreeList.{IsFreeList}
use kp.PageTable.{check_va2pa, va2pa_level, table_of}
use kp.Boot.Init.{Sizes, BootArrays}
use kp.SelfTest.FreeList.{low_first}
use kp.SelfTest.Reordered.{low_first-IsFreeList}
use kp.SelfTest.Tables.{is_expected, assert_maps, assert_region, check_entries, check_kern_pml4}
use kp.SelfTest.KernelMapped.{KernelMapped, check_kern_pml4-KernelMapped}

abbrev kernel_base : ℕ
kernel_base = 0xFFFF_8000_0000_0000

abbrev tables : Memory
tables = record {
  npages = 5;
  null_pa = 0;
  pages =
      λ p. record { pp_link = none; previous = none; is_huge = 0; pp_ref = 0; is_available = 0 };
  page_free_list = none;
  frames = λ f i.
      if f == 1
      then (if is_expected i || i == 256 then 0x2003 else 0)
      else if f == 2
      then 0x3003
      else if f == 3
      then 0x4003
      else if f == 4 && (ltb i 5 || leb 504 i)
      then i * 4096 + 3
      else 0;
  flushed = [];
}

abbrev no_sizes : Sizes
no_sizes = record { page_info = 0; env = 0; vma = 0 }

abbrev no_arrays : BootArrays
no_arrays = record { kern_pml4 = 0; pages_at = 0; envs_at = 0; vma_lists = []; next_free = 0 }

tables_pass : check_kern_pml4 kernel_base no_sizes no_arrays (504 * 4096) 1 tables ≡ ok tt tables
unfolding check_kern_pml4 check_entries assert_region assert_maps check_va2pa va2pa_level table_of
    kaddr has_bit entry_frame round_up round_down pml4_index pdpt_index page_dir_index
    page_table_index
tables_pass = refl

check_kern_pml4-KernelMapped_example :
    (tables ≡ tables) × KernelMapped kernel_base no_sizes no_arrays (504 * 4096) 1 tables
check_kern_pml4-KernelMapped_example =
    check_kern_pml4-KernelMapped kernel_base no_sizes no_arrays (504 * 4096) 1 tables tables
      (omega arith) tables_pass

-- Page 1500 before page 7.
abbrev high_before_low : Memory
high_before_low = record {
  npages = 2000;
  null_pa = 0;
  pages = λ p.
      if p == 1500
      then record { pp_link = some 7; previous = none; is_huge = 0; pp_ref = 0; is_available = 1 }
      else if p == 7
      then record {
        pp_link = none;
        previous = some 1500;
        is_huge = 0;
        pp_ref = 0;
        is_available = 1;
      }
      else record { pp_link = none; previous = none; is_huge = 0; pp_ref = 0; is_available = 0 };
  page_free_list = some 1500;
  frames = λ f i. 9;
  flushed = [];
}

high_before_low-IsFreeList : IsFreeList high_before_low (1500 ∷ 7 ∷ [])
high_before_low-IsFreeList = record {
  chain = (refl, refl, (refl, refl, refl));
  distinct = (refl, (refl, tt));
  in_range = λ p h. ground arith;
  available = λ p h. ground arith;
  detached = λ p h o. (ground arith, ground arith);
  bounded = omega arith;
}

low_first-IsFreeList_example :
    (m' : Memory) × (low_first 0x40_0000 high_before_low ≡ ok tt m')
    × IsFreeList m' (7 ∷ 1500 ∷ [])
    × ((j : ℕ) → (m'.pages j).is_huge ≡ (high_before_low.pages j).is_huge)
unfolding page2pa
low_first-IsFreeList_example = low_first-IsFreeList 0x40_0000 high_before_low-IsFreeList
