-- ===== src/Boot/WriteExecute.antt =====
-- check_wx looks at every entry that maps a page.
use kp.Base.{
  ℕ, zero, suc, ◌+◌, ◌<◌, ◌≤◌, ◌≡◌, subst, ◌==◌, true, false, Bool, ◌||◌, inl, inr, Bool-cases,
  arith,
}
use kp.Words.{has_bit, entry_frame}
use kp.Pages.{Memory}
use kp.Boot.{
  is_wx, all_entries, allowed, table_entry, dir_entry, pdpt_entry, pml4_entry, check_table,
  check_dir, check_pdpt, check_wx,
}

all_entries_lem :
    (test : ℕ → Bool) (left i j : ℕ)
    → all_entries test left i ≡ true
    → i ≤ j
    → j < i + left
    → test j ≡ true
unfolding all_entries
all_entries_lem test zero i j h a b = absurd (omega arith)
all_entries_lem test (suc left) i j h a b = elim (Bool-cases (j == i)) [
  | inl e ↦ let s : j ≡ i = ground arith in rw s (ground arith)
  | inr e ↦ all_entries_lem test left (i + 1) j (ground arith) (ground arith) (omega arith)
]

allowed_lem :
    (below : ℕ → ℕ → Bool) (m : Memory) (f i : ℕ)
    → allowed below m f i ≡ true
    → has_bit (m.frames f i) 0 ≡ true
    → below f i ≡ true
allowed_lem below m f i h p = ground arith

-- The present entry `i` of table `f` leads to the table `g`.
pub record Step (m : Memory) (f i g : ℕ) : Type 0 where
  pub index : i < 512
  pub present : has_bit (m.frames f i) 0 ≡ true
  pub leads : entry_frame (m.frames f i) ≡ g

module _ (m : Memory) where
  at_table :
      (pt v : ℕ)
      → check_table m pt ≡ true
      → v < 512
      → has_bit (m.frames pt v) 0 ≡ true
      → table_entry m pt v ≡ true
  unfolding check_table
  at_table pt v h l p =
      allowed_lem (table_entry m) m pt v (all_entries_lem _ 512 0 v h (omega arith) (omega arith)) p

  at_dir :
      (dir u : ℕ)
      → check_dir m dir ≡ true
      → u < 512
      → has_bit (m.frames dir u) 0 ≡ true
      → dir_entry m dir u ≡ true
  unfolding check_dir
  at_dir dir u h l p =
      allowed_lem (dir_entry m) m dir u (all_entries_lem _ 512 0 u h (omega arith) (omega arith)) p

  at_pdpt : (pdpt t dir : ℕ) → check_pdpt m pdpt ≡ true → Step m pdpt t dir → check_dir m dir ≡ true
  unfolding check_pdpt
  at_pdpt pdpt t dir h s =
      subst (λ f. check_dir m f ≡ true) s.leads
        (allowed_lem (pdpt_entry m) m pdpt t
          (all_entries_lem _ 512 0 t h (omega arith) (omega (arith, s.index))) s.present)

  at_pml4 :
      (pml4 s pdpt : ℕ)
      → check_wx m pml4 ≡ true
      → (s == 511) ≡ false
      → Step m pml4 s pdpt
      → check_pdpt m pdpt ≡ true
  unfolding check_wx
  at_pml4 pml4 s pdpt h n st =
      subst (λ f. check_pdpt m f ≡ true) st.leads
        (allowed_lem (pml4_entry m) m pml4 s
          (other (all_entries_lem _ 512 0 s h (omega arith) (omega (arith, st.index)))) st.present)
    where
      other : {b : Bool} → (s == 511 || b) ≡ true → b ≡ true
      other e = ground (arith, n)

  module _ (pml4 s pdpt t dir u : ℕ) (h : check_wx m pml4 ≡ true) (n : (s == 511) ≡ false)
      (a : Step m pml4 s pdpt) (b : Step m pdpt t dir) where
    checked : check_dir m dir ≡ true
    checked = at_pdpt pdpt t dir (at_pml4 pml4 s pdpt h n a) b

    -- If check_wx passes, a present huge page directory entry reached through present entries,
    -- not by the self-map, is not both writable and executable.
    pub check_wx-huge :
        u < 512
        → has_bit (m.frames dir u) 0 ≡ true
        → has_bit (m.frames dir u) 7 ≡ true
        → is_wx (m.frames dir u) ≡ false
    check_wx-huge l p g = ground (arith, at_dir dir u checked l p)

    -- If check_wx passes, a present page table entry reached through present entries, not by the
    -- self-map nor through a huge entry, is not both writable and executable.
    pub check_wx-small :
        (pt v : ℕ)
        → has_bit (m.frames dir u) 7 ≡ false
        → Step m dir u pt
        → v < 512
        → has_bit (m.frames pt v) 0 ≡ true
        → is_wx (m.frames pt v) ≡ false
    check_wx-small pt v g c l p = ground (arith, at_table pt v below l p)
      where
        below : check_table m pt ≡ true
        below =
            subst (λ f. check_table m f ≡ true) c.leads
              (rw g at (at_dir dir u checked c.index c.present))
