-- ===== src/Boot.antt =====
-- Memory set up at boot: page_init, boot_alloc, boot_map_region, boot_map_kernel and the checks of the
-- free list and of the page tables in kern/pmap.c, and initial_merge of kern/lab1.c.
pub mod Merge
pub mod Alloc
pub mod Init
pub mod FreePages
pub mod Blocks
pub mod InitialMerge
pub mod Scan
pub mod PageInit
pub mod MemInit
pub mod Layout
pub mod WriteExecute
mod Tests
use kp.Base.{
  ℕ, zero, suc, ◌+◌, ◌-◌, ◌*◌, ◌/◌, ◌%◌, ◌^◌, ◌==◌, ltb, leb, Bool, true, false, not, ◌&&◌, ◌||◌,
  if◌then◌else◌, Option, none, some, List, [], ◌∷◌, bit_or, bit_and,
}
use kp.Run.{Run, ok, panic, fault, out_of_fuel, Cmd, pure, ◌>>=◌, ◌>>◌}
use kp.Words.{
  add64, word, round_up, has_bit, entry_frame, page_write, page_no_exec, page_present,
  page_table_entries, small_pages_in_huge,
}
use kp.Words.Entries.{make_entry}
use kp.Pages.{
  Memory, PageInfo, is_none, page_at, modify_page, modify_if_some, set_link, set_previous,
  set_free_list, page2pa, pa2page,
}
use kp.Pages.Merge.{huge_size}
use kp.PageTable.{Slot, slot, entry_at, write_entry, page_walk}
use kp.Env.Load.{ProgramHeader}
use kp.Boot.Merge.{MmapEntry, initial_merge}

-- boot_alloc: `next_free` is 0 until the first call; `end` is the linker's symbol. The result and the
-- new `next_free`.
unfoldable pub boot_alloc : ℕ → ℕ → ℕ → ℕ → Option (ℕ × ℕ)
boot_alloc kernel_vma end next_free n =
    let result = if next_free == 0 then round_up end else next_free in
    let next = round_up (add64 result n) in
    if leb (add64 kernel_vma (2 ^ 32)) next then none else some (result, next)

-- The pages that page_init keeps: page 0, the entry code of the other processors, the kernel from its
-- load address to the end of its data, and the page of the ELF header.
pub record Kept : Type 0 where
  pub kernel_lma : ℕ
  pub kernel_end : ℕ
  pub elf_hdr : ℕ

abbrev pub is_kept : Kept → ℕ → Bool
is_kept r pa =
    pa == 0 || (pa == 0x7000 || ((leb r.kernel_lma pa && ltb pa r.kernel_end) || pa == r.elf_hdr))

unfoldable pub add_free : ℕ → Cmd Memory (Unit {0})
add_free page m =
    (do
      modify_page page (λ c. record c { is_available = 1 })
      modify_page page (set_link m.page_free_list)
      modify_if_some m.page_free_list (set_previous (some page))
      set_free_list (some page))
      m

unfoldable pub init_page : Kept → ℕ → Cmd Memory (Unit {0})
init_page r pa = do page ← pa2page pa; (if is_kept r pa then pure tt else add_free page)

-- `left` is the number of pages that the loop may visit.
unfoldable pub init_region : Kept → ℕ → ℕ → ℕ → Cmd Memory (Unit {0})
init_region r zero pa limit m = if ltb pa limit then out_of_fuel else ok tt m
init_region r (suc left) pa limit m =
    let step = (do init_page r pa; init_region r left (add64 pa 4096) limit) m in
    if ltb pa limit then step else ok tt m

unfoldable pub init_entries : Kept → List MmapEntry → Cmd Memory (Unit {0})
init_entries r [] m = ok tt m
init_entries r (e ∷ rest) m =
    (do
      (if e.is_free
          then init_region r (suc (e.len / 4096)) e.addr (add64 e.addr e.len)
          else pure tt)
      init_entries r rest)
      m

unfoldable pub page_init : Kept → List MmapEntry → Cmd Memory (Unit {0})
page_init r entries = do set_free_list none; init_entries r entries; initial_merge entries

-- The entry that page_walk gives is written without a test: a null pointer faults.
unfoldable pub write_walked : Option Slot → ℕ → Cmd Memory (Unit {0})
write_walked none e m = fault
write_walked (some s) e m = write_entry s e m

unfoldable pub map_loop : ℕ → ℕ → ℕ → ℕ → ℕ → ℕ → Cmd Memory (Unit {0})
map_loop zero pml4 vi limit pi perm m = if ltb vi limit then out_of_fuel else ok tt m
map_loop (suc left) pml4 vi limit pi perm m =
    let step =
      (do
        s ← page_walk pml4 vi 1
        write_walked s (make_entry pi perm)
        map_loop left pml4 (add64 vi 4096) limit (add64 pi 4096) perm)
        m in
    if ltb vi limit then step else ok tt m

unfoldable pub boot_map_region : ℕ → ℕ → ℕ → ℕ → ℕ → Cmd Memory (Unit {0})
boot_map_region pml4 va size pa perm = map_loop (suc (size / 4096)) pml4 va (add64 va size) pa perm

-- The flags of a segment; a writable one is not executable.
abbrev pub segment_flags : ℕ → ℕ
segment_flags flags = if has_bit flags 1 then bit_or flags page_no_exec else flags

unfoldable pub map_segments : ℕ → ℕ → List ProgramHeader → Cmd Memory (Unit {0})
map_segments kernel_vma pml4 [] m = ok tt m
map_segments kernel_vma pml4 (next ∷ rest) m =
    (do
      (if not (next.p_type == 1) || leb next.p_va kernel_vma
          then pure tt
          else boot_map_region pml4 next.p_va (round_up next.p_memsz) next.p_pa
              (segment_flags next.p_flags))
      map_segments kernel_vma pml4 rest)
      m

unfoldable pub boot_map_kernel : ℕ → ℕ → List ProgramHeader → Cmd Memory (Unit {0})
boot_map_kernel kernel_vma pml4 headers m =
    (do
      boot_map_region pml4 kernel_vma (m.npages * 4096 % word) 0 (bit_or page_write page_no_exec)
      map_segments kernel_vma pml4 headers)
      m

-- check_wx: `false` is the panic at a page that is writable and executable.
abbrev pub is_wx : ℕ → Bool
is_wx e = has_bit e 1 && not (has_bit e 63)

unfoldable pub all_entries : (ℕ → Bool) → ℕ → ℕ → Bool
all_entries test zero i = true
all_entries test (suc left) i = let rest = all_entries test left (i + 1) in test i && rest

abbrev pub allowed : (ℕ → ℕ → Bool) → Memory → ℕ → ℕ → Bool
allowed below m f i = not (has_bit (m.frames f i) 0) || below f i

abbrev pub table_entry : Memory → ℕ → ℕ → Bool
table_entry m f i = not (is_wx (m.frames f i))

unfoldable pub check_table : Memory → ℕ → Bool
check_table m pt = all_entries (allowed (table_entry m) m pt) page_table_entries 0

abbrev pub dir_entry : Memory → ℕ → ℕ → Bool
dir_entry m f i =
    if has_bit (m.frames f i) 7
    then not (is_wx (m.frames f i))
    else check_table m (entry_frame (m.frames f i))

unfoldable pub check_dir : Memory → ℕ → Bool
check_dir m dir = all_entries (allowed (dir_entry m) m dir) page_table_entries 0

abbrev pub pdpt_entry : Memory → ℕ → ℕ → Bool
pdpt_entry m f i = check_dir m (entry_frame (m.frames f i))

unfoldable pub check_pdpt : Memory → ℕ → Bool
check_pdpt m pdpt = all_entries (allowed (pdpt_entry m) m pdpt) page_table_entries 0

abbrev pub pml4_entry : Memory → ℕ → ℕ → Bool
pml4_entry m f i = check_pdpt m (entry_frame (m.frames f i))

unfoldable pub check_wx : Memory → ℕ → Bool
check_wx m pml4 =
    all_entries (λ s. s == 511 || allowed (pml4_entry m) m pml4 s) page_table_entries 0
