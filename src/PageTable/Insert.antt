-- ===== src/PageTable/Insert.antt =====
-- page_insert where the tables for the address exist: the mapping that page_lookup then finds.
use kp.Base.{
  ℕ, ◌+◌, ◌*◌, ◌%◌, ◌^◌, ◌<◌, ◌≡◌, refl, ◌∙◌, true, false, some, List, if◌then◌else◌, arith, inl,
  inr, Bool, Bool-cases, lt→ltb, ◌&&◌, ◌==◌, ap, ==_refl,
}
use kp.Run.{ok}
use kp.Words.{has_bit, entry_frame, page_table_index, page_dir_index, pdpt_index, pml4_index}
use kp.Words.Entries.{make_entry, make_entry-present, entry_frame-make_entry}
use kp.Pages.{Memory, update, page_at, modify_page, page2pa}
use kp.Pages.FreeList.{IsFreeList}
use kp.Pages.FreeList.Lists.{has, erase}
use kp.Pages.Links.Unlink.{unlink_lem}
use kp.Pages.Links.Delete.{removed, removed-IsFreeList}
use kp.Pages.Merge.{from_int}
use kp.PageTable.{
  Slot, slot, entry_at, with_entry, entry_in_table, finish_walk, walk_table, walk_dir, walk_pdpt,
  page_walk, take_if_free, insert_at, insert_found, page_insert, page_lookup, add_ref,
}
use kp.PageTable.Remove.{page_lookup-Translates}
use kp.PageTable.Walk.{Leads, Translates, small, table_of-Leads}

-- The tables that the walk for `va` passes are there; the last one is in frame `pt`.
pub record HasTables (m : Memory) (pml4 va pdp pd pt : ℕ) : Type 0 where
  pub at_pml4 : Leads m (slot pml4 (pml4_index va)) pdp
  pub at_pdpt : Leads m (slot pdp (pdpt_index va)) pd
  pub at_dir : Leads m (slot pd (page_dir_index va)) pt

module _ (m : Memory) (pml4 va : ℕ) {pdp pd pt : ℕ} (t : HasTables m pml4 va pdp pd pt) where
  present_entry : (s : Slot) (f : ℕ) → Leads m s f → entry_in_table s 1 m ≡ ok true m
  unfolding entry_in_table
  present_entry s f l = rw l.present

  -- Where the three upper tables for the address are present, page_walk with CREATE_NORMAL
  -- returns the page table's entry, and clears it first if it is not present; a huge page
  -- directory entry is followed like any other.
  pub page_walk-normal : page_walk pml4 va 1 m ≡ (
      if has_bit (entry_at m (slot pt (page_table_index va))) 0
      then ok (some (slot pt (page_table_index va))) m
      else ok
          (some (slot pt (page_table_index va)))
          (with_entry (slot pt (page_table_index va)) 0 m))
  unfolding page_walk walk_pdpt walk_dir walk_table finish_walk
  page_walk-normal =
      rw
        (
          present_entry _ pdp t.at_pml4,
          table_of-Leads m _ pdp t.at_pml4,
          present_entry _ pd t.at_pdpt,
          table_of-Leads m _ pd t.at_pdpt,
          present_entry _ pt t.at_dir,
          table_of-Leads m _ pt t.at_dir,
        )
        (ground arith)

abbrev pub same_slot : Slot → Slot → Bool
same_slot s a = s.frame == a.frame && s.index == a.index

-- page_insert takes a page from the free list if it has no references.
abbrev pub is_taking : Memory → ℕ → Bool
is_taking m pp = (m.pages pp).pp_ref == 0 && (m.pages pp).is_available == 1

abbrev pub after_take : ℕ → Memory → Memory
after_take pp m = if is_taking m pp then removed pp m else m

module _ {m : Memory} {xs : List ℕ} (v : IsFreeList m xs) (pp : ℕ) (hp : pp < m.npages) where
  take_if_free_lem : take_if_free pp m ≡ ok tt (after_take pp m)
  unfolding take_if_free page_at modify_page
  take_if_free_lem = elim (Bool-cases (is_taking m pp)) [
    | inl e ↦
        let i : has pp xs ≡ true = ground (arith, v.available pp hp) in
        rw (lt→ltb pp m.npages hp, e, unlink_lem v pp i) (rw (lt→ltb pp m.npages hp))
    | inr e ↦ rw (lt→ltb pp m.npages hp, e)
  ]

  after_take-IsFreeList : IsFreeList (after_take pp m) (if is_taking m pp then erase pp xs else xs)
  after_take-IsFreeList = elim (Bool-cases (is_taking m pp)) [
    | inl e ↦ rw e (removed-IsFreeList v pp (ground (arith, v.available pp hp)))
    | inr e ↦ rw e v
  ]

pub with_entry-IsFreeList :
    {m : Memory} {xs : List ℕ} (s : Slot) (e : ℕ)
    → IsFreeList m xs
    → IsFreeList (with_entry s e m) xs
with_entry-IsFreeList s e v = record {
  chain = v.chain;
  distinct = v.distinct;
  in_range = v.in_range;
  available = v.available;
  detached = v.detached;
  bounded = v.bounded;
}

after_take-npages : (pp : ℕ) (m : Memory) → (after_take pp m).npages ≡ m.npages
after_take-npages pp m = ground arith

after_take-frames : (pp : ℕ) (m : Memory) → (after_take pp m).frames ≡ m.frames
after_take-frames pp m = elim (Bool-cases (is_taking m pp)) [ inl e ↦ rw e | inr e ↦ rw e ]

abbrev linked : ℕ → Slot → Memory → Memory
linked pp s m = record (after_take pp (with_entry s 0 m)) {
  pages =
      update (after_take pp (with_entry s 0 m)).pages pp
        (add_ref ((after_take pp (with_entry s 0 m)).pages pp));
}

after_take-ref :
    (pp : ℕ) (m : Memory)
    → pp < m.npages
    → ((after_take pp m).pages pp).pp_ref ≡ (m.pages pp).pp_ref
after_take-ref pp m h = elim (Bool-cases (is_taking m pp)) [
  | inl e ↦ rw e (ground arith)
  | inr e ↦ rw e refl
]

-- The memory once `pp` is mapped by the entry `e` at `s`.
abbrev pub mapped : ℕ → Slot → ℕ → Memory → Memory
mapped pp s e m = with_entry s e (linked pp s m)

entry_at-with_entry : (m : Memory) (s : Slot) (e : ℕ) → entry_at (with_entry s e m) s ≡ e
entry_at-with_entry m s e = rw (==_refl s.frame, ==_refl s.index) refl

add_ref_lem :
    (p : ℕ) (m : Memory)
    → p < m.npages
    → modify_page p add_ref m ≡ ok tt (record m { pages = update m.pages p (add_ref (m.pages p)) })
unfolding modify_page
add_ref_lem p m h = rw (lt→ltb p m.npages h)

insert_walked :
    (m : Memory) (pml4 pp va perm : ℕ) (s : Slot) {m₁ m₂ : Memory}
    → pp < m.npages
    → (m.pages pp).is_huge ≡ 0
    → page_walk pml4 va 1 m ≡ ok (some s) m₁
    → insert_at pml4 pp va perm s m₁ ≡ ok tt m₂
    → page_insert pml4 pp va perm m ≡ ok true m₂
unfolding page_insert insert_found page_at
insert_walked m pml4 pp va perm s hp h walk ins = rw (lt→ltb pp m.npages hp, h, walk) (rw ins refl)

insert_at_empty :
    (m₁ m₂ m₃ : Memory) (pml4 pp va perm : ℕ) (s : Slot)
    → entry_at m₁ s ≡ 0
    → take_if_free pp m₁ ≡ ok tt m₂
    → modify_page pp add_ref m₂ ≡ ok tt m₃
    → insert_at pml4 pp va perm s m₁
      ≡ ok tt (with_entry s (make_entry (page2pa pp) (from_int perm)) m₃)
unfolding insert_at
insert_at_empty m₁ m₂ m₃ pml4 pp va perm s e take add = rw (e, take, add) refl

module _ {m : Memory} {xs : List ℕ} (v : IsFreeList m xs) (pml4 pp va perm : ℕ) (hp : pp < m.npages)
    {pdp pd pt : ℕ} (t : HasTables m pml4 va pdp pd pt)
    (empty : entry_at m (slot pt (page_table_index va)) ≡ 0)
    (is_small : (m.pages pp).is_huge ≡ 0) where
  abbrev target : Slot
  target = slot pt (page_table_index va)

  -- page_insert succeeds and writes `pa | perm | PAGE_PRESENT`.
  pub page_insert-mapped :
      page_insert pml4 pp va perm m
      ≡ ok true (mapped pp target (make_entry (page2pa pp) (from_int perm)) m)
  page_insert-mapped =
      let v' : IsFreeList (with_entry target 0 m) xs = with_entry-IsFreeList target 0 v in
      let range : pp < (after_take pp (with_entry target 0 m)).npages =
        rw (after_take-npages pp (with_entry target 0 m)) hp in
      insert_walked m pml4 pp va perm target hp is_small walk (
        insert_at_empty _ _ _ pml4 pp va perm target (ground arith) (take_if_free_lem v' pp hp)
          (add_ref_lem pp (after_take pp (with_entry target 0 m)) range))
    where
      absent : has_bit (entry_at m target) 0 ≡ false
      absent = rw empty (unfold has_bit in refl)

      walk : page_walk pml4 va 1 m ≡ ok (some target) (with_entry target 0 m)
      walk = page_walk-normal m pml4 va t ∙ rw absent refl

  module _ (low : perm < 2 ^ 12)
      (plain : has_bit (entry_at m (slot pd (page_dir_index va))) 7 ≡ false)
      (apart_pml4 : same_slot (slot pml4 (pml4_index va)) target ≡ false)
      (apart_pdpt : same_slot (slot pdp (pdpt_index va)) target ≡ false)
      (apart_dir : same_slot (slot pd (page_dir_index va)) target ≡ false) where
    abbrev entry : ℕ
    entry = make_entry (page2pa pp) (from_int perm)

    abbrev after : Memory
    after = mapped pp target entry m

    same_entry : (s : Slot) → same_slot s target ≡ false → entry_at after s ≡ entry_at m s
    same_entry s apart = ground (
      arith,
      ap (λ (g : ℕ → ℕ → ℕ). g s.frame s.index) (after_take-frames pp (with_entry target 0 m)),
    )

    still_Leads : (s : Slot) (f : ℕ) → same_slot s target ≡ false → Leads m s f → Leads after s f
    still_Leads s f apart l = record {
      present = rw (same_entry s apart) l.present;
      frame = rw (same_entry s apart) l.frame;
      in_range = rw (after_take-npages pp (with_entry target 0 m)) l.in_range;
    }

    fits : page2pa pp ≡ pp * 4096
    unfolding page2pa
    fits = omega (arith, v.bounded)

    same_perm : from_int perm ≡ perm
    unfolding from_int
    same_perm = rw (lt→ltb perm (2 ^ 31) (omega arith)) refl

    entry_frame-entry : entry_frame entry ≡ pp
    entry_frame-entry =
        rw (fits, same_perm)
          (entry_frame-make_entry pp perm (omega (arith, v.bounded)) (omega arith))

    entry-after : entry_at after target ≡ entry
    entry-after = entry_at-with_entry (linked pp target m) target entry

    present-after : has_bit (entry_at after target) 0 ≡ true
    present-after =
        ap (λ e. has_bit e 0) entry-after ∙ make_entry-present (page2pa pp) (from_int perm)

    translated : Translates after pml4 va target
    translated =
        small pdp pd pt (still_Leads _ pdp apart_pml4 t.at_pml4)
          (still_Leads _ pd apart_pdpt t.at_pdpt) (still_Leads _ pt apart_dir t.at_dir)
          (rw (same_entry _ apart_dir) plain) refl present-after

    -- Let the free list be well formed, pp a small page of the array, the three upper tables for
    -- va present, the page directory's entry not huge, the page table's entry zero and perm
    -- below 2 ^ 12, and let that entry be none of the three entries the walk passes. Then
    -- page_insert succeeds, page_lookup finds pp at that entry, the entry is pp's address with
    -- perm and PAGE_PRESENT, and pp's reference count is one more on 16 bits.
    pub page_insert-page_lookup :
        (m' : Memory) × (page_insert pml4 pp va perm m ≡ ok true m')
        × (page_lookup pml4 va m' ≡ ok (some (pp, target)) m')
        × (entry_at m' target ≡ make_entry (pp * 4096) perm)
        × ((m'.pages pp).pp_ref ≡ ((m.pages pp).pp_ref + 1) % 2 ^ 16)
    page_insert-page_lookup = (
      after,
      page_insert-mapped,
      page_lookup-Translates after pml4 va pp target translated present-after
          (ap entry_frame entry-after ∙ entry_frame-entry) in_range,
      entry-after ∙ plain_entry,
      counted,
    )
      where
        in_range : pp < after.npages
        in_range = rw (after_take-npages pp (with_entry target 0 m)) hp

        plain_entry : entry ≡ make_entry (pp * 4096) perm
        plain_entry = rw (fits, same_perm) refl

        counted : (after.pages pp).pp_ref ≡ ((m.pages pp).pp_ref + 1) % 2 ^ 16
        counted =
            rw (==_refl pp)
              (ap (λ r. (r + 1) % 2 ^ 16) (after_take-ref pp (with_entry target 0 m) hp))
