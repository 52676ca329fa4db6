-- ===== src/Boot/Tests.antt =====
-- Tables in the frames 1 to 4 that map two pages, one read-only, and a huge page.
use kp.Base.{
  ◌+◌, ◌^◌, ◌≡◌, refl, true, false, none, [], if◌then◌else◌, ◌==◌, ◌&&◌, arith, ℕ, ◌≤◌, ◌*◌, List,
  ◌∷◌, some,
}
use kp.Words.{has_bit, entry_frame}
use kp.Pages.{Memory}
use kp.Boot.{is_wx, check_wx, check_pdpt, check_dir, check_table, all_entries, Kept}
use kp.Run.{ok, ◌>>◌}
use kp.Boot.Merge.{MmapEntry}
use kp.Boot.Init.{Sizes, BootArrays, init_arrays, highest_addr}
use kp.Boot.Layout.{Spaced, page_count, init_arrays_lem}
use kp.Pages.Allocator.{page_alloc}
use kp.Boot.FreePages.{Regions, usable}
use kp.Boot.PageInit.{
  StartsClear, Initialised, page_setup, page_init-Initialised, page_init-page_alloc,
}
use kp.Boot.WriteExecute.{check_wx-huge, check_wx-small}

abbrev mapped : Memory
mapped = record {
  npages = 2048;
  null_pa = 0;
  pages =
      λ p. record { pp_link = none; previous = none; is_huge = 0; pp_ref = 0; is_available = 0 };
  page_free_list = none;
  frames = λ f i.
      if f == 1 && i == 0
      then 0x2007
      else if f == 2 && i == 0
      then 0x3007
      else if f == 3 && i == 0
      then 0x4007
      else if f == 3 && i == 1
      then 0x200083 + 2 ^ 63
      else if f == 4 && i == 1
      then 0x14005
      else 0;
  flushed = [];
}

passed : check_wx mapped 1 ≡ true
unfolding check_wx check_pdpt check_dir check_table all_entries has_bit entry_frame
passed = refl

check_wx-huge_example : is_wx (mapped.frames 3 1) ≡ false
unfolding has_bit entry_frame
check_wx-huge_example =
    check_wx-huge mapped 1 0 2 0 3 1 passed refl
      (record { index = omega arith; present = refl; leads = refl })
      (record { index = omega arith; present = refl; leads = refl }) (omega arith) refl refl

check_wx-small_example : is_wx (mapped.frames 4 1) ≡ false
unfolding has_bit entry_frame
check_wx-small_example =
    check_wx-small mapped 1 0 2 0 3 0 passed refl
      (record { index = omega arith; present = refl; leads = refl })
      (record { index = omega arith; present = refl; leads = refl }) 4 1 refl
      (record { index = omega arith; present = refl; leads = refl }) (omega arith) refl

-- 128 MB in one entry, and the sizes that the structures have.
abbrev some_sizes : Sizes
some_sizes = record { page_info = 24; env = 256; vma = 88 }

abbrev one_entry : List MmapEntry
one_entry = record { addr = 0; len = 2 ^ 27; is_free = true } ∷ []

abbrev counted : page_count one_entry ≡ 32768
unfolding highest_addr
counted = refl

init_arrays_lem_example :
    (r : BootArrays) × (m' : Memory) × (init_arrays
        (2 ^ 40)
        (2 ^ 40 + 2 ^ 21)
        some_sizes
        one_entry
        mapped
      ≡ ok r m')
    × (2 ^ 40 + 2 ^ 21 ≤ r.kern_pml4)
    × (r.kern_pml4 + 4096 ≤ r.pages_at)
    × (r.pages_at + 24 * page_count one_entry ≤ r.envs_at)
    × Spaced (88 * 128) (r.envs_at + 256 * 1024) r.vma_lists r.next_free
    × (m'.npages ≡ page_count one_entry)
init_arrays_lem_example =
    init_arrays_lem (2 ^ 40) (2 ^ 40 + 2 ^ 21) (omega arith) some_sizes one_entry mapped
      (omega arith) (omega arith) (omega (arith, counted))

-- 8 MB of memory, with the first 640 KB and the memory above 1 MB free; the kernel lies at 1 MB.
abbrev some_kept : Kept
some_kept = record { kernel_lma = 0x100000; kernel_end = 0x180000; elf_hdr = 0x10000 }

abbrev some_map : List MmapEntry
some_map =
    record { addr = 0; len = 0x9F000; is_free = true }
    ∷ record { addr = 0xF0000; len = 0x10000; is_free = false }
    ∷ record { addr = 0x100000; len = 0x700000; is_free = true }
    ∷ []

some_map-Regions : Regions 2048 some_map
some_map-Regions = (
  (λ f. record { aligned = refl; ends = omega arith; apart = λ p c. ground arith }),
  ((λ f. cc), ((λ f. record { aligned = refl; ends = omega arith; apart = λ p c. refl }), tt)),
)

some_map-StartsClear : StartsClear some_map
some_map-StartsClear = ((λ f e. omega (arith, e)), ((λ f. cc), ((λ f e. omega (arith, e)), tt)))

page_init-Initialised_example :
    (m' : Memory) × (ys : List ℕ) × (page_setup
        (2 ^ 40)
        (2 ^ 40 + 2 ^ 21)
        2048
        some_kept
        some_map
        mapped
      ≡ ok tt m')
    × Initialised some_kept some_map m' ys
page_init-Initialised_example =
    page_init-Initialised (2 ^ 40) (2 ^ 40 + 2 ^ 21) 2048 some_kept some_map mapped (omega arith)
      some_map-Regions some_map-StartsClear

page_init-page_alloc_example :
    (p : ℕ) × (m' : Memory) × (((do
      page_setup (2 ^ 40) (2 ^ 40 + 2 ^ 21) 2048 some_kept some_map
      page_alloc 1)
        mapped)
      ≡ ok (some p) m')
    × (usable some_kept some_map p ≡ true)
unfolding has_bit
page_init-page_alloc_example =
    page_init-page_alloc (2 ^ 40) (2 ^ 40 + 2 ^ 21) 2048 some_kept some_map mapped (omega arith)
      some_map-Regions some_map-StartsClear 1 1024 refl refl
