-- ===== src/SelfTest/Installed.antt =====
-- check_page_installed_pml4 and check_page_hugepages of kern/pmap.c: the tests that use the memory
-- through the installed page table.
--
-- How the processor reads and writes 32 bits at a virtual address is a parameter.
use kp.Base.{ℕ, ◌+◌, ◌-◌, ◌*◌, ◌%◌, ◌^◌, ◌==◌, not}
use kp.Run.{Cmd, get, ◌>>=◌, ◌>>◌}
use kp.Words.{has_bit, entry_frame}
use kp.Pages.{Memory, is_none, modify_page, page2pa, kaddr}
use kp.Pages.Allocator.{page_free}
use kp.PageTable.{slot, read_entry, write_entry, page_walk, page_insert, page_remove}
use kp.SelfTest.{assert, require, alloc_asserted, fill_page}
use kp.SelfTest.Pages.{assert_insert, assert_refs, no_refs, same_slot}

module _ (load32 : ℕ → Cmd Memory ℕ) (store32 : ℕ → ℕ → Cmd Memory (Unit {0})) (pml4 : ℕ) where
  unfoldable pub assert_reads : ℕ → ℕ → Cmd Memory (Unit {0})
  assert_reads va w = do x ← load32 va; assert (x == w)

  -- *(uint32_t *)page2kva(pp)
  unfoldable pub assert_frame_reads : ℕ → ℕ → Cmd Memory (Unit {0})
  assert_frame_reads pp w = do f ← kaddr (page2pa pp); m ← get; assert (m.frames f 0 % 2 ^ 32 == w)

  unfoldable pub check_page_installed_pml4 : Cmd Memory (Unit {0})
  unfolding assert_reads assert_frame_reads
  check_page_installed_pml4 = do
    pp0 ← alloc_asserted 0
    pp1 ← alloc_asserted 0
    pp2 ← alloc_asserted 0
    page_free pp0
    fill_page pp1 1 4096
    fill_page pp2 2 4096
    _ ← page_insert pml4 pp1 4096 2
    assert_refs pp1 1
    assert_reads 4096 0x0101_0101
    _ ← page_insert pml4 pp2 4096 2
    assert_reads 4096 0x0202_0202
    assert_refs pp2 1
    assert_refs pp1 0
    store32 4096 0x0303_0303
    assert_frame_reads pp2 0x0303_0303
    page_remove pml4 4096
    assert_refs pp2 0
    e ← read_entry (slot pml4 0)
    assert (entry_frame e * 4096 == page2pa pp0)
    write_entry (slot pml4 0) 0
    assert_refs pp0 1
    modify_page pp0 no_refs
    page_free pp0

  abbrev pub huge_page : ℕ
  huge_page = 512 * 4096

  -- A huge page is mapped, used at its ends and in the middle, walked to and removed.
  unfoldable pub check_huge_mapping : ℕ → Cmd Memory (Unit {0})
  check_huge_mapping php0 = do
    assert_insert pml4 php0 huge_page (2 + 2 ^ 7)
    assert_refs php0 1
    fill_page php0 1 4096
    assert_reads huge_page 0x0101_0101
    fill_page (php0 + 1) 2 4096
    assert_reads (513 * 4096) 0x0202_0202
    store32 (2 * huge_page - 42) 0x4242_4242
    assert_reads (2 * huge_page - 42) 0x4242_4242
    fill_page (php0 + 509) 0x37 4096
    fill_page (php0 + 510) 0x38 4096
    assert_reads ((512 + 509) * 4096) 0x3737_3737
    assert_reads ((512 + 510) * 4096) 0x3838_3838

  unfoldable pub check_huge_walk : Cmd Memory (Unit {0})
  check_huge_walk = do
    p ← page_walk pml4 huge_page 0
    s ← require p
    e ← read_entry s
    assert (has_bit e 7)
    p ← page_walk pml4 (513 * 4096) 0
    assert (same_slot p s)

  unfoldable pub check_page_hugepages : Cmd Memory (Unit {0})
  check_page_hugepages = do
    php0 ← alloc_asserted 2
    check_huge_mapping php0
    check_huge_walk
    page_remove pml4 huge_page
    assert_refs php0 0
    assert_refs (php0 + 510) 0
    p ← page_walk pml4 huge_page 2
    assert (not (is_none p))
    php0 ← alloc_asserted 2
    assert_insert pml4 php0 (2 * huge_page) (2 + 2 ^ 7)
    page_remove pml4 (2 * huge_page)
    assert_refs php0 0
