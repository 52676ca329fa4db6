-- ===== src/SelfTest/LowFirst.antt =====
-- The loop of check_page_free_list of kern/pmap.c that gives every page of the free list to one of two
-- lists.
use kp.Base.{
  ℕ, zero, suc, ◌<◌, ◌≤◌, ◌≡◌, ◌∙◌, refl, ap, subst, Bool, true, false, ◌||◌, leb, Option, none,
  some, List, [], ◌∷◌, ◌++◌, arith, Bool-cases, inl, inr, lt→ltb,
}
use kp.Run.{ok}
use kp.Pages.{PageInfo, Memory, page_at, page2pa}
use kp.Pages.FreeList.Lists.{has, length}
use kp.SelfTest.FreeList.{TwoLists, add_to_lists, separate}
use kp.SelfTest.Segments.{linked, headed, link-linked, has-append}
use kp.SelfTest.Halves.{lows, highs, append_assoc, append_nil}
use kp.SelfTest.Separating.{
  with_pages, Separating, Relinked, Relinked-trans, linked-Relinked, end_high_lem, end_low_lem,
  take_high, take_low,
}

module _ (fuel limit : ℕ) (m : Memory) (l : TwoLists) (p : ℕ) (hp : p < m.npages) where
  separate_high :
      leb limit (page2pa p) ≡ true
      → ((q : ℕ) → l.high_tail ≡ some q → q < m.npages)
      → (linked m.pages l.high_tail (some p) p).pp_link ≡ (m.pages p).pp_link
      → separate (suc fuel) limit (some p) l m
        ≡ separate fuel limit
            (m.pages p).pp_link
            (record l { high = headed l.high l.high_tail (some p); high_tail = some p })
            (with_pages m (linked m.pages l.high_tail (some p)))
  unfolding separate add_to_lists page_at
  separate_high t i same =
      rw (t, end_high_lem m l (some p) i)
        (rw (lt→ltb p m.npages hp) (
          ap
            (λ (o : Option ℕ).
              separate fuel limit o
                (record l { high = headed l.high l.high_tail (some p); high_tail = some p })
                (with_pages m (linked m.pages l.high_tail (some p))))
            same))

  separate_low :
      leb limit (page2pa p) ≡ false
      → ((q : ℕ) → l.low_tail ≡ some q → q < m.npages)
      → (linked m.pages l.low_tail (some p) p).pp_link ≡ (m.pages p).pp_link
      → separate (suc fuel) limit (some p) l m
        ≡ separate fuel limit
            (m.pages p).pp_link
            (record l { low = headed l.low l.low_tail (some p); low_tail = some p })
            (with_pages m (linked m.pages l.low_tail (some p)))
  unfolding separate add_to_lists page_at
  separate_low t i same =
      rw (t, end_low_lem m l (some p) i)
        (rw (lt→ltb p m.npages hp) (
          ap
            (λ (o : Option ℕ).
              separate fuel limit o
                (record l { low = headed l.low l.low_tail (some p); low_tail = some p })
                (with_pages m (linked m.pages l.low_tail (some p))))
            same))

-- The pages that are left go to the ends of `ls` and `hs`.
abbrev Separation : ℕ → ℕ → Option ℕ → TwoLists → Memory → List ℕ → List ℕ → (ℕ → Bool) → Type 0
Separation fuel limit pp l m ls hs member =
    (l' : TwoLists) × (g : ℕ → PageInfo) × (separate fuel limit pp l m ≡ ok l' (with_pages m g))
    × Separating m.npages g l' ls hs [] none
    × Relinked member m.pages g

Separation-end :
    (fuel limit : ℕ) (m : Memory) (l : TwoLists) (ls hs : List ℕ) (pp : Option ℕ)
    (member : ℕ → Bool)
    → Separating m.npages m.pages l ls hs [] pp
    → Separation fuel limit pp l m ls hs member
unfolding separate
Separation-end fuel limit m l ls hs pp member s =
    (l, m.pages, rw s.rest refl, rw s.rest at s, record { rest = λ j. refl; links = λ j o. refl })

-- The loop takes all pages that are left.
pub separate_lem :
    (fuel limit : ℕ) (m : Memory) (l : TwoLists) (ls hs zs : List ℕ) (pp : Option ℕ)
    (member : ℕ → Bool)
    → length zs ≤ fuel
    → Separating m.npages m.pages l ls hs zs pp
    → ((j : ℕ) → (has j ls || (has j hs || has j zs)) ≡ true → member j ≡ true)
    → Separation fuel limit pp l m (ls ++ lows limit zs) (hs ++ highs limit zs) member
separate_lem fuel limit m l ls hs [] pp member f s i =
    rw (append_nil ls, append_nil hs) (Separation-end fuel limit m l ls hs pp member s)
separate_lem zero limit m l ls hs (p ∷ zs) pp member f s i = absurd (omega arith)
separate_lem (suc fuel) limit m l ls hs (p ∷ zs) pp member f s i =
    elim (Bool-cases (leb limit (page2pa p))) [
      | inl t ↦
          let same =
            link-linked m.pages l.high_tail (some p) hs p s.high.inside (s.apart_high p here) in
          let run =
            separate_high fuel limit m l p in_array t
              (λ q e. s.in_range q (ground (arith, s.high.inside q e))) same in
          let (l', g, rest, s', r) =
            separate_lem fuel limit (with_pages m (linked m.pages l.high_tail (some p)))
              (record l { high = headed l.high l.high_tail (some p); high_tail = some p }) ls
              (hs ++ (p ∷ [])) zs (m.pages p).pp_link member (omega arith) (take_high p s)
              (λ j h. i j (ground (arith, has-append j hs (p ∷ [])))) in
          let first =
            linked-Relinked m.pages l.high_tail (some p) hs member s.high.inside
              (λ j h. i j (ground arith)) in
          rw t (
            subst
              (λ (ys : List ℕ). Separation (suc fuel) limit pp l m (ls ++ lows limit zs) ys member)
              (append_assoc hs (p ∷ []) (highs limit zs))
              (l', g, rw s.rest.0 (run ∙ rest), s', Relinked-trans first r))
      | inr t ↦
          let same =
            link-linked m.pages l.low_tail (some p) ls p s.low.inside (s.apart_low p here) in
          let run =
            separate_low fuel limit m l p in_array t
              (λ q e. s.in_range q (ground (arith, s.low.inside q e))) same in
          let (l', g, rest, s', r) =
            separate_lem fuel limit (with_pages m (linked m.pages l.low_tail (some p)))
              (record l { low = headed l.low l.low_tail (some p); low_tail = some p })
              (ls ++ (p ∷ [])) hs zs (m.pages p).pp_link member (omega arith) (take_low p s)
              (λ j h. i j (ground (arith, has-append j ls (p ∷ [])))) in
          let first =
            linked-Relinked m.pages l.low_tail (some p) ls member s.low.inside
              (λ j h. i j (ground arith)) in
          rw t (
            subst
              (λ (ys : List ℕ). Separation (suc fuel) limit pp l m ys (hs ++ highs limit zs) member)
              (append_assoc ls (p ∷ []) (lows limit zs))
              (l', g, rw s.rest.0 (run ∙ rest), s', Relinked-trans first r))
    ]
  where
    here : has p (p ∷ zs) ≡ true
    here = ground arith

    in_array : p < m.npages
    in_array = s.in_range p (ground arith)
