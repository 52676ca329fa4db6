-- ===== src/PageTable/Walk.antt =====
-- page_walk with `create == 0` against the translation that the page tables stand for.
use kp.Base.{
  ℕ, ◌*◌, ◌/◌, ◌<◌, ◌≡◌, ◌⊎◌, refl, ◌∙◌, true, false, Option, none, some, if◌then◌else◌, arith, inl,
  inr, Bool-cases, leb,
}
use kp.Run.{Run, ok, panic}
use kp.Words.{has_bit, entry_frame, page_table_index, page_dir_index, pdpt_index, pml4_index}
use kp.Pages.{Memory}
use kp.PageTable.{
  Slot, slot, entry_at, table_of, entry_in_table, finish_walk, walk_table, walk_dir, walk_pdpt,
  page_walk,
}

-- The entry at `s` is present and leads to the table in frame `f`.
pub record Leads (m : Memory) (s : Slot) (f : ℕ) : Type 0 where
  pub present : has_bit (entry_at m s) 0 ≡ true
  pub frame : entry_frame (entry_at m s) ≡ f
  pub in_range : f < m.npages

-- `va` is mapped by the present entry at `s`: a page table entry, or a page directory entry with
-- the huge bit.
pub data Translates (m : Memory) (pml4 va : ℕ) (s : Slot) : Type 0 where
  small :
      (pdp pd pt : ℕ)
      → Leads m (slot pml4 (pml4_index va)) pdp
      → Leads m (slot pdp (pdpt_index va)) pd
      → Leads m (slot pd (page_dir_index va)) pt
      → has_bit (entry_at m (slot pd (page_dir_index va))) 7 ≡ false
      → s ≡ slot pt (page_table_index va)
      → has_bit (entry_at m s) 0 ≡ true
      → Translates m pml4 va s
  huge :
      (pdp pd : ℕ)
      → Leads m (slot pml4 (pml4_index va)) pdp
      → Leads m (slot pdp (pdpt_index va)) pd
      → s ≡ slot pd (page_dir_index va)
      → has_bit (entry_at m s) 7 ≡ true
      → has_bit (entry_at m s) 0 ≡ true
      → Translates m pml4 va s

module _ (m : Memory) (s : Slot) where
  pub table_of-Leads : (f : ℕ) → Leads m s f → table_of s m ≡ ok f m
  unfolding table_of
  table_of-Leads f l = ground arith

  -- An entry is absent, leads out of memory, or leads to a table.
  pub entry_cases :
      (has_bit (entry_at m s) 0 ≡ false)
      ⊎ ((has_bit (entry_at m s) 0 ≡ true) × (table_of s m ≡ panic) ⊎ ((f : ℕ) × Leads m s f))
  unfolding table_of
  entry_cases = elim (Bool-cases (has_bit (entry_at m s) 0)) [
    | inl p ↦ inr (elim (Bool-cases (leb m.npages (entry_frame (entry_at m s) * 4096 / 4096))) [
      | inl e ↦ inl (p, rw e)
      | inr e ↦ inr (
        entry_frame (entry_at m s),
        record { present = p; frame = refl; in_range = ground arith },
      )
    ])
    | inr n ↦ inl n
  ]

  entry_in_table-read : entry_in_table s 0 m ≡ ok (has_bit (entry_at m s) 0) m
  unfolding entry_in_table
  entry_in_table-read = ground arith

  finish_walk-read :
      finish_walk 0 s m ≡ (if has_bit (entry_at m s) 0 then ok (some s) m else ok none m)
  unfolding finish_walk
  finish_walk-read = ground arith

-- What a walk that creates nothing comes to: it panics at an entry that leads out of memory, finds
-- no mapping, or finds the entry of the mapping. The memory is left as it was.
pub data Walked (m : Memory) (pml4 va : ℕ) (r : Run Memory (Option Slot)) : Type 0 where
  panics : r ≡ panic → Walked m pml4 va r
  unmapped : r ≡ ok none m → Walked m pml4 va r
  found : (s : Slot) → r ≡ ok (some s) m → Translates m pml4 va s → Walked m pml4 va r

module _ (m : Memory) (pml4 va : ℕ) where
  abbrev at_pml4 : Slot
  at_pml4 = slot pml4 (pml4_index va)

  page_walk-Leads :
      (pdp : ℕ)
      → Leads m at_pml4 pdp
      → page_walk pml4 va 0 m ≡ walk_pdpt va 0 (slot pdp (pdpt_index va)) m
  unfolding page_walk
  page_walk-Leads pdp l =
      rw (entry_in_table-read m at_pml4, l.present, table_of-Leads m at_pml4 pdp l)

  walk_pdpt-Leads :
      (s : Slot) (pd : ℕ)
      → Leads m s pd
      → walk_pdpt va 0 s m ≡ walk_dir va 0 (slot pd (page_dir_index va)) m
  unfolding walk_pdpt
  walk_pdpt-Leads s pd l = rw (entry_in_table-read m s, l.present, table_of-Leads m s pd l)

  walk_dir-huge :
      (s : Slot) → has_bit (entry_at m s) 7 ≡ true → walk_dir va 0 s m ≡ finish_walk 0 s m
  unfolding walk_dir
  walk_dir-huge s h = rw h

  walk_dir-Leads :
      (s : Slot) (pt : ℕ)
      → has_bit (entry_at m s) 7 ≡ false
      → Leads m s pt
      → walk_dir va 0 s m ≡ finish_walk 0 (slot pt (page_table_index va)) m
  unfolding walk_dir walk_table
  walk_dir-Leads s pt n l = rw (n, entry_in_table-read m s, l.present, table_of-Leads m s pt l)

  module _ (s : Slot) (absent : has_bit (entry_at m s) 0 ≡ false) where
    walk_pdpt-absent : walk_pdpt va 0 s m ≡ ok none m
    unfolding walk_pdpt
    walk_pdpt-absent = rw (entry_in_table-read m s, absent)

    walk_dir-absent : has_bit (entry_at m s) 7 ≡ false → walk_dir va 0 s m ≡ ok none m
    unfolding walk_dir walk_table
    walk_dir-absent n = rw (n, entry_in_table-read m s, absent)

  module _ (s : Slot) (present : has_bit (entry_at m s) 0 ≡ true) (out : table_of s m ≡ panic) where
    walk_pdpt-panic : walk_pdpt va 0 s m ≡ panic
    unfolding walk_pdpt
    walk_pdpt-panic = rw (entry_in_table-read m s, present, out)

    walk_dir-panic : has_bit (entry_at m s) 7 ≡ false → walk_dir va 0 s m ≡ panic
    unfolding walk_dir walk_table
    walk_dir-panic n = rw (n, entry_in_table-read m s, present, out)

  page_walk-absent : has_bit (entry_at m at_pml4) 0 ≡ false → page_walk pml4 va 0 m ≡ ok none m
  unfolding page_walk
  page_walk-absent absent = rw (entry_in_table-read m at_pml4, absent)

  page_walk-panic :
      has_bit (entry_at m at_pml4) 0 ≡ true
      → table_of at_pml4 m ≡ panic
      → page_walk pml4 va 0 m ≡ panic
  unfolding page_walk
  page_walk-panic present out = rw (entry_in_table-read m at_pml4, present, out)

  finish-Walked :
      (s : Slot)
      → page_walk pml4 va 0 m ≡ finish_walk 0 s m
      → (has_bit (entry_at m s) 0 ≡ true → Translates m pml4 va s)
      → Walked m pml4 va (page_walk pml4 va 0 m)
  finish-Walked s e t = elim (Bool-cases (has_bit (entry_at m s) 0)) [
    | inl h ↦ found s (e ∙ finish_walk-read m s ∙ rw h refl) (t h)
    | inr h ↦ unmapped (e ∙ finish_walk-read m s ∙ rw h refl)
  ]

  -- If present entries lead from the PML4 to a present page table entry for the address, or to a
  -- present huge page directory entry, then a page_walk that may create nothing returns that
  -- entry and leaves the memory unchanged.
  pub page_walk_complete :
      (s : Slot) → Translates m pml4 va s → page_walk pml4 va 0 m ≡ ok (some s) m
  page_walk_complete s (small pdp pd pt a b c n e h) =
      page_walk-Leads pdp a
      ∙ walk_pdpt-Leads _ pd b
      ∙ walk_dir-Leads _ pt n c
      ∙ finish_walk-read m _
      ∙ ground arith
  page_walk_complete s (huge pdp pd a b e n h) =
      page_walk-Leads pdp a
      ∙ walk_pdpt-Leads _ pd b
      ∙ walk_dir-huge _ (ground arith)
      ∙ finish_walk-read m _
      ∙ ground arith

  in_dir :
      (pdp pd : ℕ)
      → Leads m at_pml4 pdp
      → Leads m (slot pdp (pdpt_index va)) pd
      → Walked m pml4 va (page_walk pml4 va 0 m)
  in_dir pdp pd a b =
      let s : Slot = slot pd (page_dir_index va) in
      let here : page_walk pml4 va 0 m ≡ walk_dir va 0 s m =
        page_walk-Leads pdp a ∙ walk_pdpt-Leads _ pd b in
      elim (Bool-cases (has_bit (entry_at m s) 7)) [
        | inl h ↦ finish-Walked s (here ∙ walk_dir-huge s h) (λ t. huge pdp pd a b refl h t)
        | inr n ↦ elim (entry_cases m s) [
          | inl absent ↦ unmapped (here ∙ walk_dir-absent s absent n)
          | inr (inl (present, out)) ↦ panics (here ∙ walk_dir-panic s present out n)
          | inr (inr (pt, c)) ↦
              finish-Walked _ (here ∙ walk_dir-Leads s pt n c) (λ t. small pdp pd pt a b c n refl t)
        ]
      ]

  in_pdpt : (pdp : ℕ) → Leads m at_pml4 pdp → Walked m pml4 va (page_walk pml4 va 0 m)
  in_pdpt pdp a =
      let s : Slot = slot pdp (pdpt_index va) in
      elim (entry_cases m s) [
        | inl absent ↦ unmapped (page_walk-Leads pdp a ∙ walk_pdpt-absent s absent)
        | inr (inl (present, out)) ↦ panics (page_walk-Leads pdp a ∙ walk_pdpt-panic s present out)
        | inr (inr (pd, b)) ↦ in_dir pdp pd a b
      ]

  -- A page_walk that may create nothing panics, or returns NULL, or returns the present entry
  -- that maps the address, a page table entry or a huge page directory entry reached through
  -- present entries; if it returns, the memory is unchanged.
  pub page_walk-Walked : Walked m pml4 va (page_walk pml4 va 0 m)
  page_walk-Walked = elim (entry_cases m at_pml4) [
    | inl absent ↦ unmapped (page_walk-absent absent)
    | inr (inl (present, out)) ↦ panics (page_walk-panic present out)
    | inr (inr (pdp, a)) ↦ in_pdpt pdp a
  ]
