-- ===== src/SelfTest/Pages.antt =====
-- check_page of kern/pmap.c: page_insert, page_remove and page_walk on a table that is not installed.
use kp.Base.{ℕ, zero, suc, ◌+◌, ◌-◌, ◌*◌, ◌==◌, Bool, false, not, ◌&&◌, Option, none, some}
use kp.Run.{ok, fault, Cmd, pure, get, ◌>>=◌, ◌>>◌}
use kp.Words.{has_bit, pml4_index, pdpt_index, page_dir_index, page_table_index, entry_frame}
use kp.Pages.{PageInfo, Memory, is_none, page_at, modify_page, set_free_list, page2pa}
use kp.Pages.Links.{load}
use kp.Pages.Allocator.{page_alloc, page_free}
use kp.PageTable.{
  Slot, slot, read_entry, write_entry, table_of, page_walk, page_lookup, page_insert, page_remove,
  check_va2pa,
}
use kp.SelfTest.{assert, require, assert_no_page, fill_page}
use kp.SelfTest.Tables.{assert_maps}

-- assert(page_insert(kern_pml4, pp, va, perm) == 0), and < 0.
unfoldable pub assert_insert : ℕ → ℕ → ℕ → ℕ → Cmd Memory (Unit {0})
assert_insert pml4 pp va perm = do r ← page_insert pml4 pp va perm; assert r

unfoldable pub assert_no_insert : ℕ → ℕ → ℕ → ℕ → Cmd Memory (Unit {0})
assert_no_insert pml4 pp va perm = do r ← page_insert pml4 pp va perm; assert (not r)

unfoldable pub assert_unmapped : ℕ → ℕ → Cmd Memory (Unit {0})
assert_unmapped pml4 va = do a ← check_va2pa pml4 va; assert (is_none a)

unfoldable pub assert_refs : ℕ → ℕ → Cmd Memory (Unit {0})
assert_refs pp n = do c ← page_at pp; assert (c.pp_ref == n)

-- assert((pp = page_alloc(0)) && pp == page)
unfoldable pub assert_alloc : ℕ → Cmd Memory (Unit {0})
assert_alloc page = do p ← page_alloc 0; pp ← require p; assert (pp == page)

-- A pointer that is read through without a test.
unfoldable pub deref : Option Slot → Cmd Memory Slot
deref none m = fault
deref (some s) m = ok s m

-- *page_walk(kern_pml4, va, 0)
unfoldable pub walked_entry : ℕ → ℕ → Cmd Memory ℕ
walked_entry pml4 va = do p ← page_walk pml4 va 0; s ← deref p; read_entry s

-- assert(*entry & PAGE_PRESENT); and the table that the entry leads to.
unfoldable pub present_table : Slot → Cmd Memory ℕ
present_table s = do e ← read_entry s; assert (has_bit e 0); table_of s

-- The page table of `va`, through present entries.
unfoldable pub table_for : ℕ → ℕ → Cmd Memory ℕ
table_for pml4 va = do
  pdpt ← present_table (slot pml4 (pml4_index va))
  dir ← present_table (slot pdpt (pdpt_index va))
  present_table (slot dir (page_dir_index va))

abbrev pub same_slot : Option Slot → Slot → Bool
same_slot none s = false
same_slot (some t) s = t.frame == s.frame && t.index == s.index

-- The five pages of the test.
pub record Five : Type 0 where
  pub p0 : ℕ
  pub p1 : ℕ
  pub p2 : ℕ
  pub p3 : ℕ
  pub p4 : ℕ

unfoldable pub alloc_five : Cmd Memory Five
alloc_five = do
  a0 ← page_alloc 0
  a1 ← page_alloc 0
  a2 ← page_alloc 0
  a3 ← page_alloc 0
  a4 ← page_alloc 0
  p0 ← require a0
  p1 ← require a1
  assert (not (p1 == p0))
  p2 ← require a2
  assert (not (p2 == p0) && not (p2 == p1))
  p3 ← require a3
  assert (not (p3 == p0) && (not (p3 == p1) && not (p3 == p2)))
  p4 ← require a4
  assert (not (p4 == p0) && (not (p4 == p1) && (not (p4 == p2) && not (p4 == p3))))
  pure (record { p0 = p0; p1 = p1; p2 = p2; p3 = p3; p4 = p4 })

-- Without free pages nothing is mapped; with three a page is, and a second one beside it.
unfoldable pub check_first_inserts : ℕ → Five → Cmd Memory (Unit {0})
check_first_inserts pml4 f = do
  assert_no_page
  found ← page_lookup pml4 0
  assert (is_none found)
  assert_no_insert pml4 f.p3 0 2
  page_free f.p0
  page_free f.p1
  page_free f.p2
  m ← get
  c ← load m.page_free_list
  c ← load c.pp_link
  _ ← load c.pp_link
  assert_insert pml4 f.p3 0 2
  assert_maps pml4 0 (page2pa f.p3)
  assert_refs f.p0 1
  assert_refs f.p1 1
  assert_refs f.p2 1
  assert_refs f.p3 1
  assert_insert pml4 f.p4 4096 2
  assert_maps pml4 4096 (page2pa f.p4)
  assert_refs f.p4 1
  assert_no_page
  assert_insert pml4 f.p4 4096 2
  assert_maps pml4 4096 (page2pa f.p4)
  assert_refs f.p4 1
  assert_no_page

-- The permissions of the mapping at PAGE_SIZE are changed.
unfoldable pub check_permissions : ℕ → Five → Cmd Memory (Unit {0})
check_permissions pml4 f = do
  table ← table_for pml4 0
  let entry = slot table (page_table_index 4096)
  e ← read_entry entry
  assert (has_bit e 0)
  walked ← page_walk pml4 4096 0
  assert (same_slot walked entry)
  assert_insert pml4 f.p4 4096 6
  assert_maps pml4 4096 (page2pa f.p4)
  assert_refs f.p4 1
  e ← walked_entry pml4 4096
  assert (has_bit e 2)
  e ← read_entry entry
  assert (has_bit e 2)
  assert_insert pml4 f.p4 4096 2
  e ← walked_entry pml4 4096
  assert (has_bit e 1)
  e ← walked_entry pml4 4096
  assert (not (has_bit e 2))
  assert_no_insert pml4 f.p0 0x20_0000 2

-- A page replaces another, is unmapped at one of two addresses, and is freed at the other.
unfoldable pub check_replacement : ℕ → Five → Cmd Memory (Unit {0})
check_replacement pml4 f = do
  assert_insert pml4 f.p3 4096 2
  e ← walked_entry pml4 4096
  assert (not (has_bit e 2))
  assert_maps pml4 0 (page2pa f.p3)
  assert_maps pml4 4096 (page2pa f.p3)
  assert_refs f.p3 2
  assert_refs f.p4 0
  assert_alloc f.p4
  page_remove pml4 0
  assert_unmapped pml4 0
  assert_maps pml4 4096 (page2pa f.p3)
  assert_refs f.p3 1
  assert_refs f.p4 0
  assert_insert pml4 f.p3 4096 0
  c ← page_at f.p3
  assert (not (c.pp_ref == 0))
  assert (is_none c.pp_link)
  page_remove pml4 4096
  assert_unmapped pml4 0
  assert_unmapped pml4 4096
  assert_refs f.p3 0
  assert_refs f.p4 0
  assert_alloc f.p3
  assert_no_page

abbrev pub no_refs : PageInfo → PageInfo
no_refs c = record c { pp_ref = 0 }

unfoldable pub take_back : ℕ → Cmd Memory (Unit {0})
take_back pp = do assert_refs pp 1; modify_page pp no_refs; page_free pp

unfoldable pub release : ℕ → Cmd Memory (Unit {0})
release pp = do modify_page pp no_refs; page_free pp

-- The entry that page_walk returns is the one that the tables lead to; the tables go back.
unfoldable pub check_walk : ℕ → Five → Cmd Memory (Unit {0})
check_walk pml4 f = do
  e ← read_entry (slot pml4 0)
  assert (entry_frame e * 4096 == page2pa f.p2)
  write_entry (slot pml4 0) 0
  take_back f.p0
  take_back f.p1
  take_back f.p2
  let va = 0x20_0000 + 4096
  walked ← page_walk pml4 va 1
  table ← table_for pml4 va
  assert (same_slot walked (slot table (page_table_index va)))
  write_entry (slot pml4 (pml4_index va)) 0
  release f.p0
  release f.p1
  release f.p2

unfoldable pub assert_absent : ℕ → ℕ → Cmd Memory (Unit {0})
assert_absent zero table m = ok tt m
assert_absent (suc i) table m =
    (do e ← read_entry (slot table (511 - i)); assert (not (has_bit e 0)); assert_absent i table) m

unfoldable pub check_cleared : ℕ → Five → Cmd Memory (Unit {0})
check_cleared pml4 f = do
  fill_page f.p0 0xFF 4096
  _ ← page_walk pml4 0 1
  table ← table_for pml4 0
  assert_absent 512 table
  write_entry (slot pml4 0) 0
  modify_page f.p0 no_refs
  modify_page f.p1 no_refs
  modify_page f.p2 no_refs

-- `pml4` is the frame of kern_pml4.
unfoldable pub check_page : ℕ → Cmd Memory (Unit {0})
check_page pml4 = do
  f ← alloc_five
  m ← get
  set_free_list none
  check_first_inserts pml4 f
  check_permissions pml4 f
  check_replacement pml4 f
  check_walk pml4 f
  check_cleared pml4 f
  set_free_list m.page_free_list
  page_free f.p0
  page_free f.p1
  page_free f.p2
  page_free f.p3
  page_free f.p4
