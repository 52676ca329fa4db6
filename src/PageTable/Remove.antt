-- ===== src/PageTable/Remove.antt =====
-- page_lookup where a mapping is, and page_remove of a page that is mapped elsewhere too.
use kp.Base.{
  ℕ, ◌+◌, ◌*◌, ◌/◌, ◌%◌, ◌^◌, ◌<◌, ◌≡◌, refl, true, false, some, arith, lt→ltb, ◌==◌, leb, ==_refl,
  ◌∷◌, ◌≤◌, ◌-◌,
}
use kp.Run.{ok}
use kp.Words.{has_bit, entry_frame}
use kp.Pages.{Memory, update, page_at, modify_page, pa2page}
use kp.PageTable.{
  Slot, entry_at, with_entry, lookup_slot, page_lookup, remove_found, page_remove, tlb_invalidate,
}
use kp.PageTable.Walk.{Translates, small, page_walk_complete, huge}
use kp.Pages.Allocator.{drop_ref, page_decref}

nonzero : (x : ℕ) → has_bit x 0 ≡ true → (x == 0) ≡ false
unfolding has_bit
nonzero x p = ground arith

out_of_range : (n p : ℕ) → p < n → leb n p ≡ false
out_of_range n p h = ground arith

-- What a mapping's entry leads to is what page_lookup returns.
pub page_lookup-Translates :
    (m : Memory) (pml4 va pp : ℕ) (s : Slot)
    → Translates m pml4 va s
    → has_bit (entry_at m s) 0 ≡ true
    → entry_frame (entry_at m s) ≡ pp
    → pp < m.npages
    → page_lookup pml4 va m ≡ ok (some (pp, s)) m
unfolding page_lookup lookup_slot pa2page
page_lookup-Translates m pml4 va pp s t p e h =
    rw (page_walk_complete m pml4 va s t)
      (rw (nonzero (entry_at m s) p, e, cancel, out_of_range m.npages pp h) refl)
  where
    cancel : pp * 4096 / 4096 ≡ pp
    cancel = omega arith

pub Translates-present :
    (m : Memory) (pml4 va : ℕ) (s : Slot) → Translates m pml4 va s → has_bit (entry_at m s) 0 ≡ true
Translates-present m pml4 va s (small pdp pd pt a b c n e h) = h
Translates-present m pml4 va s (huge pdp pd a b e n h) = h

-- The memory with one reference to `p` less.
abbrev dropped : ℕ → Memory → Memory
dropped p m = record m { pages = update m.pages p (drop_ref (m.pages p)) }

page_decref-shared :
    (p : ℕ) (m : Memory)
    → p < m.npages
    → 2 ≤ (m.pages p).pp_ref
    → (m.pages p).pp_ref < 2 ^ 16
    → page_decref p m ≡ ok tt (dropped p m)
unfolding page_decref modify_page page_at
page_decref-shared p m h low high =
    let shared : ((m.pages p).pp_ref + 2 ^ 16 - 1) % 2 ^ 16 == 0 ≡ false = ground arith in
    rw (lt→ltb p m.npages h, ==_refl p) (rw (lt→ltb p m.npages h) (rw shared refl))

-- If the address is mapped to page pp of the array, whose 16-bit reference count is at least 2,
-- page_remove clears the entry that maps it, decrements the count, invalidates the address in
-- the TLB, and leaves the head of the free list as it was.
pub page_remove-shared :
    (m : Memory) (pml4 va pp : ℕ) (s : Slot)
    → Translates m pml4 va s
    → entry_frame (entry_at m s) ≡ pp
    → pp < m.npages
    → 2 ≤ (m.pages pp).pp_ref
    → (m.pages pp).pp_ref < 2 ^ 16
    → (m' : Memory) × (page_remove pml4 va m ≡ ok tt m')
      × (entry_at m' s ≡ 0)
      × ((m'.pages pp).pp_ref + 1 ≡ (m.pages pp).pp_ref)
      × (m'.flushed ≡ va ∷ m.flushed)
      × (m'.page_free_list ≡ m.page_free_list)
page_remove-shared m pml4 va pp s t e h low high = (
  record (with_entry s 0 (dropped pp m)) { flushed = va ∷ m.flushed },
  (unfold page_remove in
      unfold remove_found in
      unfold tlb_invalidate in
      rw
        (
          page_lookup-Translates m pml4 va pp s t (Translates-present m pml4 va s t) e h,
          page_decref-shared pp m h low high,
        )
        refl),
  rw (==_refl s.frame, ==_refl s.index) refl,
  rw (==_refl pp) (omega arith),
  refl,
  refl,
)
