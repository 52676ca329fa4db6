-- ===== src/PageTable.antt =====
-- The four-level page tables of kern/pmap.c: page_walk, page_insert, page_lookup, page_remove.
--
-- A page table is the number of the frame that holds it; a pointer to an entry is the frame and the
-- index in it.
pub mod Walk
pub mod Remove
pub mod Insert
mod Tests
use kp.Base.{
  ℕ, ◌+◌, ◌*◌, ◌%◌, ◌^◌, ◌==◌, Bool, true, false, not, ◌&&◌, if◌then◌else◌, Option, none, some,
  bit_or, ◌∷◌,
}
use kp.Run.{Run, ok, Cmd, pure, ◌>>=◌, ◌>>◌}
use kp.Words.{
  has_bit, entry_frame, page_table_index, page_dir_index, pdpt_index, pml4_index, page_present,
  page_user, page_write,
}
use kp.Words.Entries.{make_entry}
use kp.Pages.{PageInfo, Memory, update, page_at, modify_page, detach, page2pa, pa2page, kaddr}
use kp.Pages.Links.{unlink}
use kp.Pages.Merge.{from_int}
use kp.Pages.Allocator.{page_alloc, page_decref}

pub record Slot : Type 0 where
  pub frame : ℕ
  pub index : ℕ

abbrev pub slot : ℕ → ℕ → Slot
slot f i = record { frame = f; index = i }

abbrev pub entry_at : Memory → Slot → ℕ
entry_at m s = m.frames s.frame s.index

abbrev pub read_entry : Slot → Cmd Memory ℕ
read_entry s m = ok (entry_at m s) m

abbrev pub with_entry : Slot → ℕ → Memory → Memory
with_entry s e m = record m {
  frames = λ f i. if f == s.frame && i == s.index then e else m.frames f i;
}

abbrev pub write_entry : Slot → ℕ → Cmd Memory (Unit {0})
write_entry s e m = ok tt (with_entry s e m)

-- (struct page_table *)KADDR(PAGE_ADDR(*entry))
unfoldable pub table_of : Slot → Cmd Memory ℕ
unfolding kaddr
table_of s = do e ← read_entry s; kaddr (entry_frame e * 4096)

abbrev pub add_ref : PageInfo → PageInfo
add_ref c = record c { pp_ref = (c.pp_ref + 1) % 2 ^ 16 }

abbrev pub table_entry : ℕ → ℕ
table_entry pa = bit_or (bit_or (bit_or pa page_present) page_user) page_write

-- A page table is installed in an empty entry.
unfoldable pub install_table : Slot → Option ℕ → Cmd Memory Bool
install_table s none = pure false
install_table s (some p) = do
  modify_page p add_ref
  f ← kaddr (page2pa p)
  write_entry s (table_entry (f * 4096))
  pure true

unfoldable pub entry_in_table : Slot → ℕ → Cmd Memory Bool
entry_in_table s create = do
  e ← read_entry s
  if has_bit e 0
      then pure true
      else if create == 0
      then pure false
      else (page_alloc 1 >>= install_table s)

-- CREATE_NORMAL is 1 and CREATE_HUGE is 2.
unfoldable pub finish_walk : ℕ → Slot → Cmd Memory (Option Slot)
finish_walk create s = do
  e ← read_entry s
  if has_bit e 0
      then pure (some s)
      else if create == 0
      then pure none
      else (do write_entry s 0; pure (some s))

unfoldable pub walk_table : ℕ → ℕ → Slot → Cmd Memory (Option Slot)
walk_table va create s = do
  there ← entry_in_table s create
  if there
      then (do pt ← table_of s; finish_walk create (slot pt (page_table_index va)))
      else pure none

unfoldable pub walk_dir : ℕ → ℕ → Slot → Cmd Memory (Option Slot)
walk_dir va create s = do
  e ← read_entry s
  if not (create == 2) && not (create == 0 && has_bit e 7)
      then walk_table va create s
      else finish_walk create s

unfoldable pub walk_pdpt : ℕ → ℕ → Slot → Cmd Memory (Option Slot)
walk_pdpt va create s = do
  there ← entry_in_table s create
  if there
      then (do pd ← table_of s; walk_dir va create (slot pd (page_dir_index va)))
      else pure none

unfoldable pub page_walk : ℕ → ℕ → ℕ → Cmd Memory (Option Slot)
page_walk pml4 va create = do
  let s = slot pml4 (pml4_index va)
  there ← entry_in_table s create
  if there then (do pdp ← table_of s; walk_pdpt va create (slot pdp (pdpt_index va))) else pure none

-- The page and the place of the entry that maps it.
unfoldable pub lookup_slot : Option Slot → Cmd Memory (Option (ℕ × Slot))
lookup_slot none = pure none
lookup_slot (some s) = do
  e ← read_entry s
  if e == 0 then pure none else (do p ← pa2page (entry_frame e * 4096); pure (some (p, s)))

unfoldable pub page_lookup : ℕ → ℕ → Cmd Memory (Option (ℕ × Slot))
page_lookup pml4 va = do s ← page_walk pml4 va 0; lookup_slot s

unfoldable pub tlb_invalidate : ℕ → Cmd Memory (Unit {0})
tlb_invalidate va m = ok tt (record m { flushed = va ∷ m.flushed })

unfoldable pub remove_found : ℕ → Option (ℕ × Slot) → Cmd Memory (Unit {0})
remove_found va none = pure tt
remove_found va (some (p, s)) = do page_decref p; write_entry s 0; tlb_invalidate va

unfoldable pub page_remove : ℕ → ℕ → Cmd Memory (Unit {0})
page_remove pml4 va = do found ← page_lookup pml4 va; remove_found va found

-- A free page that is mapped leaves the free list first.
unfoldable pub take_if_free : ℕ → Cmd Memory (Unit {0})
take_if_free pp = do
  c ← page_at pp
  if c.pp_ref == 0 && c.is_available == 1 then (do unlink pp; modify_page pp detach) else pure tt

unfoldable pub insert_at : ℕ → ℕ → ℕ → ℕ → Slot → Cmd Memory (Unit {0})
insert_at pml4 pp va perm s = do
  e ← read_entry s
  (if e == 0 then pure tt else page_remove pml4 va)
  take_if_free pp
  modify_page pp add_ref
  write_entry s (make_entry (page2pa pp) (from_int perm))

-- `true` is the result 0, `false` is -E_NO_MEM.
unfoldable pub insert_found : ℕ → ℕ → ℕ → ℕ → Option Slot → Cmd Memory Bool
insert_found pml4 pp va perm none = pure false
insert_found pml4 pp va perm (some s) = do insert_at pml4 pp va perm s; pure true

unfoldable pub page_insert : ℕ → ℕ → ℕ → ℕ → Cmd Memory Bool
page_insert pml4 pp va perm = do
  c ← page_at pp
  s ← page_walk pml4 va (if c.is_huge == 0 then 1 else 2)
  insert_found pml4 pp va perm s

-- check_va2pa: the walk that the kernel's own tests make. `none` is ~0.
unfoldable pub va2pa_level : Slot → (ℕ → Cmd Memory (Option ℕ)) → Cmd Memory (Option ℕ)
va2pa_level s next = do e ← read_entry s; if has_bit e 0 then (table_of s >>= next) else pure none

unfoldable pub check_va2pa : ℕ → ℕ → Cmd Memory (Option ℕ)
unfolding va2pa_level
check_va2pa pml4 va = va2pa_level (slot pml4 (pml4_index va)) λ pdpt.
    va2pa_level (slot pdpt (pdpt_index va)) λ dir.
      va2pa_level (slot dir (page_dir_index va)) λ table. do
        e ← read_entry (slot table (page_table_index va))
        if has_bit e 0 then pure (some (entry_frame e * 4096)) else pure none
