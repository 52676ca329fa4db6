-- ===== src/PageTable/Tests.antt =====
-- Page tables in the frames 1 to 4 of a memory of 64 pages; page 20 is in use, page 30 is free.
use kp.Base.{
  ℕ, ◌+◌, ◌*◌, ◌%◌, ◌^◌, ◌≡◌, refl, true, none, some, [], ◌∷◌, if◌then◌else◌, arith, ◌==◌, ◌&&◌,
}
use kp.Run.{ok}
use kp.Words.{has_bit, entry_frame, page_table_index, page_dir_index, pdpt_index, pml4_index}
use kp.Words.Entries.{make_entry}
use kp.Pages.{PageInfo, Memory}
use kp.Pages.FreeList.{IsFreeList}
use kp.PageTable.{slot, entry_at, page_walk, page_lookup, page_insert, with_entry, page_remove}
use kp.PageTable.Walk.{small, Walked, page_walk-Walked, page_walk_complete}
use kp.PageTable.Remove.{page_remove-shared}
use kp.PageTable.Insert.{HasTables, page_walk-normal, page_insert-page_lookup}

abbrev used_page : PageInfo
used_page = record { pp_link = none; previous = none; is_huge = 0; pp_ref = 1; is_available = 0 }

abbrev tables : Memory
tables = record {
  npages = 64;
  null_pa = 0;
  pages = λ p.
      if p == 30
      then record { pp_link = none; previous = none; is_huge = 0; pp_ref = 0; is_available = 1 }
      else used_page;
  page_free_list = some 30;
  frames = λ f i.
      if f == 1 && i == 0
      then 0x2007
      else if f == 2 && i == 0
      then 0x3007
      else if f == 3 && i == 0
      then 0x4007
      else if f == 4 && i == 1
      then 0x14007
      else 0;
  flushed = [];
}

tables-IsFreeList : IsFreeList tables (30 ∷ [])
tables-IsFreeList = record {
  chain = (refl, refl, refl);
  distinct = (refl, tt);
  in_range = λ p h. ground arith;
  available = λ p h. ground arith;
  detached = λ p h o. (ground arith, ground arith);
  bounded = omega arith;
}

tables-HasTables :
    (va : ℕ)
    → pml4_index va ≡ 0
    → pdpt_index va ≡ 0
    → page_dir_index va ≡ 0
    → HasTables tables 1 va 2 3 4
unfolding has_bit entry_frame
tables-HasTables va a b c = record {
  at_pml4 = rw a (record { present = refl; frame = refl; in_range = omega arith });
  at_pdpt = rw b (record { present = refl; frame = refl; in_range = omega arith });
  at_dir = rw c (record { present = refl; frame = refl; in_range = omega arith });
}

first_tables : HasTables tables 1 0x2000 2 3 4
unfolding pml4_index pdpt_index page_dir_index
first_tables = tables-HasTables 0x2000 refl refl refl

page_walk-Walked_example : Walked tables 1 0x1000 (page_walk 1 0x1000 0 tables)
page_walk-Walked_example = page_walk-Walked tables 1 0x1000

page_walk_complete_example : page_walk 1 0x1000 0 tables ≡ ok (some (slot 4 1)) tables
unfolding has_bit entry_frame pml4_index pdpt_index page_dir_index page_table_index
page_walk_complete_example = page_walk_complete tables 1 0x1000 (slot 4 1) (
    small 2 3 4 (record { present = refl; frame = refl; in_range = omega arith })
      (record { present = refl; frame = refl; in_range = omega arith })
      (record { present = refl; frame = refl; in_range = omega arith }) refl refl refl)

-- Page 20 is mapped twice.
abbrev shared_tables : Memory
shared_tables = record tables { pages = λ p. record used_page { pp_ref = 2 } }

page_remove-shared_example :
    (m' : Memory) × (page_remove 1 0x1000 shared_tables ≡ ok tt m')
    × (entry_at m' (slot 4 1) ≡ 0)
    × ((m'.pages 20).pp_ref + 1 ≡ 2)
    × (m'.flushed ≡ 0x1000 ∷ [])
    × (m'.page_free_list ≡ some 30)
unfolding has_bit entry_frame pml4_index pdpt_index page_dir_index page_table_index
page_remove-shared_example =
    page_remove-shared shared_tables 1 0x1000 20 (slot 4 1)
      (small 2 3 4 (record { present = refl; frame = refl; in_range = omega arith })
        (record { present = refl; frame = refl; in_range = omega arith })
        (record { present = refl; frame = refl; in_range = omega arith }) refl refl refl)
      refl (omega arith) (omega arith) (omega arith)

page_walk-normal_example : page_walk 1 0x2000 1 tables ≡ (
    if has_bit (entry_at tables (slot 4 (page_table_index 0x2000))) 0
    then ok (some (slot 4 (page_table_index 0x2000))) tables
    else ok
        (some (slot 4 (page_table_index 0x2000)))
        (with_entry (slot 4 (page_table_index 0x2000)) 0 tables))
page_walk-normal_example = page_walk-normal tables 1 0x2000 first_tables

-- Page 30 is taken from the free list and mapped.
page_insert-page_lookup_example :
    (m' : Memory) × (page_insert 1 30 0x2000 6 tables ≡ ok true m')
    × (page_lookup 1 0x2000 m' ≡ ok (some (30, slot 4 (page_table_index 0x2000))) m')
    × (entry_at m' (slot 4 (page_table_index 0x2000)) ≡ make_entry (30 * 4096) 6)
    × ((m'.pages 30).pp_ref ≡ 1 % 2 ^ 16)
unfolding has_bit pml4_index pdpt_index page_dir_index page_table_index
page_insert-page_lookup_example =
    page_insert-page_lookup tables-IsFreeList 1 30 0x2000 6 (omega arith) first_tables refl refl
      (omega arith) refl refl refl refl
