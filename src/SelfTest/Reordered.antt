-- ===== src/SelfTest/Reordered.antt =====
-- The free list after check_page_free_list of kern/pmap.c has moved its low pages to the front.
use kp.Base.{
  ℕ, zero, suc, ◌<◌, ◌≤◌, ◌≡◌, ◌∙◌, refl, sym, ap, true, false, ◌==◌, ◌||◌, Option, none, some,
  List, [], ◌∷◌, ◌++◌, arith, Bool-cases, ==_iff, ==_refl, inl, inr, lt→ltb,
}
use kp.Run.{ok}
use kp.Pages.{PageInfo, Memory, update, set_previous, modify_page, page_at}
use kp.Pages.FreeList.{Chain, IsFreeList}
use kp.Pages.FreeList.Lists.{has, IsDistinct, length, length_below}
use kp.SelfTest.FreeList.{TwoLists, no_lists, separate, fix_previous, low_first}
use kp.SelfTest.Segments.{
  Segment, Segment-frame, Segment-join, linked, headed, Open-frame, link-linked, has-append,
  apart_sym,
}
use kp.SelfTest.Halves.{
  lows, highs, halves_lem, append-IsDistinct, lows-IsDistinct, highs-IsDistinct,
}
use kp.SelfTest.Separating.{
  with_pages, Separating, Relinked, Relinked-trans, linked-Relinked, end_high_lem, end_low_lem,
}
use kp.SelfTest.LowFirst.{separate_lem}

-- The pages with the back links of `xs` set, from `back` on.
unfoldable repaired : (ℕ → PageInfo) → Option ℕ → List ℕ → ℕ → PageInfo
repaired g back [] = g
repaired g back (x ∷ xs) = repaired (update g x (set_previous back (g x))) (some x) xs

-- Only the back links of members change.
repaired_lem :
    (g : ℕ → PageInfo) (back : Option ℕ) (xs : List ℕ) (j : ℕ)
    → (set_previous none (repaired g back xs j) ≡ set_previous none (g j))
      × (has j xs ≡ false → repaired g back xs j ≡ g j)
unfolding repaired
repaired_lem g back [] j = (refl, λ o. refl)
repaired_lem g back (x ∷ xs) j =
    let (a, b) = repaired_lem (update g x (set_previous back (g x))) (some x) xs j in
    (a ∙ same, λ o. b (ground arith) ∙ rw (other o) refl)
  where
    same : set_previous none (update g x (set_previous back (g x)) j) ≡ set_previous none (g j)
    same = elim (Bool-cases (x == j)) [
      | inl e ↦ rw e (ap (λ (k : ℕ). set_previous none (g k)) ((==_iff x j).0 e))
      | inr e ↦ rw e refl
    ]

    other : has j (x ∷ xs) ≡ false → (x == j) ≡ false
    other o = ground arith

fix_previous_lem :
    (fuel : ℕ) (m : Memory) (back head : Option ℕ) (xs : List ℕ)
    → length xs ≤ fuel
    → Segment m.pages head xs none
    → IsDistinct xs
    → ((j : ℕ) → has j xs ≡ true → j < m.npages)
    → (fix_previous fuel back head m ≡ ok tt (with_pages m (repaired m.pages back xs)))
      × Chain (repaired m.pages back xs) back head xs
unfolding fix_previous repaired modify_page page_at
fix_previous_lem fuel m back head [] f s d i = (rw s refl, s)
fix_previous_lem zero m back head (x ∷ xs) f s d i = absurd (omega arith)
fix_previous_lem (suc fuel) m back head (x ∷ xs) f (e, s) d i =
    let g : ℕ → PageInfo = update m.pages x (set_previous back (m.pages x)) in
    let links : (j : ℕ) → (g j).pp_link ≡ (m.pages j).pp_link = λ j. ground arith in
    let (run, c) =
      fix_previous_lem fuel (with_pages m g) (some x) (m.pages x).pp_link xs (omega arith)
        (Segment-frame m.pages g _ none xs s (λ j h. links j)) d.1 (λ j h. i j (ground arith)) in
    let in_array = lt→ltb x m.npages (i x (ground arith)) in
    let here = (repaired_lem g (some x) xs x).1 d.0 in
    let own : g x ≡ set_previous back (m.pages x) = rw (==_refl x) refl in
    (
      rw (e, in_array)
          (rw in_array
            (ap (λ (o : Option ℕ). fix_previous fuel (some x) o (with_pages m g)) (links x) ∙ run)),
      (
        e,
        ap (λ (c : PageInfo). c.previous) (here ∙ own),
        rw (ap (λ (c : PageInfo). c.pp_link) (here ∙ own)) c,
      ),
    )

-- The two lists at the end of the loop, joined: the high pages behind the low ones.
joined :
    {n : ℕ} {g : ℕ → PageInfo} {l : TwoLists} {ls hs : List ℕ}
    → Separating n g l ls hs [] none
    → Segment
        (linked (linked g l.high_tail none) l.low_tail (headed l.high l.high_tail none))
        (headed l.low l.low_tail (headed l.high l.high_tail none))
        (ls ++ hs)
        none
joined {n} {g} {l} {ls} {hs} s =
    let g' = linked g l.high_tail none in
    let middle = headed l.high l.high_tail none in
    let low =
      Open-frame g g' l.low l.low_tail ls s.low
        λ j i. link-linked g l.high_tail none hs j s.high.inside (s.apart j i) in
    Segment-join (linked g' l.low_tail middle) _ middle none ls hs (low.leads middle) (
      Segment-frame g' (linked g' l.low_tail middle) middle none hs (s.high.leads none) λ j i.
        link-linked g' l.low_tail middle ls j s.low.inside
          (apart_sym (has j ls) (has j hs) (s.apart j) i))

Chain-Segment :
    (g : ℕ → PageInfo) (back head : Option ℕ) (xs : List ℕ)
    → Chain g back head xs
    → Segment g head xs none
Chain-Segment g back head [] c = c
Chain-Segment g back head (x ∷ xs) c = (c.0, Chain-Segment g (some x) (g x).pp_link xs c.2)

-- At the start both lists are empty.
started :
    {m : Memory} {xs : List ℕ}
    → IsFreeList m xs
    → Separating m.npages m.pages no_lists [] [] xs m.page_free_list
started {m} {xs} v = record {
  low = record { leads = λ target. refl; inside = λ q e. cc };
  high = record { leads = λ target. refl; inside = λ q e. cc };
  rest = Chain-Segment m.pages none m.page_free_list xs v.chain;
  apart_low = λ j i. refl;
  apart_high = λ j i. refl;
  apart = λ j i. refl;
  distinct = v.distinct;
  in_range = v.in_range;
}

-- Writes to the links of the members, and to their back links in a new order, leave a free list.
module _ {m : Memory} {xs : List ℕ} {g : ℕ → PageInfo} (ys : List ℕ) (v : IsFreeList m xs)
    (r : Relinked (λ j. has j xs) m.pages g) (same : (j : ℕ) → has j ys ≡ has j xs) where
  untouched :
      (j : ℕ)
      → ((repaired g none ys j).is_available ≡ (m.pages j).is_available)
        × ((repaired g none ys j).is_huge ≡ (m.pages j).is_huge)
  untouched j =
      let a = (repaired_lem g none ys j).0 in
      (
        ap (λ (c : PageInfo). c.is_available) a ∙ ap (λ (c : PageInfo). c.is_available) (r.rest j),
        ap (λ (c : PageInfo). c.is_huge) a ∙ ap (λ (c : PageInfo). c.is_huge) (r.rest j),
      )

  outside :
      (j : ℕ)
      → has j xs ≡ false
      → ((repaired g none ys j).pp_link ≡ (m.pages j).pp_link)
        × ((repaired g none ys j).previous ≡ (m.pages j).previous)
  outside j o =
      let a = (repaired_lem g none ys j).1 (same j ∙ o) in
      (
        ap (λ (c : PageInfo). c.pp_link) a ∙ r.links j o,
        ap (λ (c : PageInfo). c.previous) a ∙ ap (λ (c : PageInfo). c.previous) (r.rest j),
      )

  repaired-IsFreeList :
      (head : Option ℕ)
      → Chain (repaired g none ys) none head ys
      → IsDistinct ys
      → IsFreeList (record m { pages = repaired g none ys; page_free_list = head }) ys
  repaired-IsFreeList head c d = record {
    chain = c;
    distinct = d;
    in_range = λ j i. v.in_range j (sym (same j) ∙ i);
    available = λ j i. rw ((untouched j).0, same j) (v.available j i);
    detached = λ j i o.
        let out = sym (same j) ∙ o in
        ((outside j out).0 ∙ (v.detached j i out).0, (outside j out).1 ∙ (v.detached j i out).1);
    bounded = v.bounded;
  }

-- The end of both lists, and the list that they make.
low_first_lem :
    {m : Memory} {ls hs : List ℕ} {l : TwoLists} {g : ℕ → PageInfo} (limit : ℕ) (xs : List ℕ)
    → separate m.npages limit m.page_free_list no_lists m ≡ ok l (with_pages m g)
    → Separating m.npages g l ls hs [] none
    → Relinked (λ j. has j xs) m.pages g
    → ((j : ℕ) → (has j ls || has j hs) ≡ has j xs)
    → (h : ℕ → PageInfo) × (head : Option ℕ) × Segment h head (ls ++ hs) none
      × Relinked (λ j. has j xs) m.pages h
      × (low_first limit m
          ≡ fix_previous m.npages none head (record m { pages = h; page_free_list = head }))
unfolding low_first
low_first_lem {m} {ls} {hs} {l} {g} limit xs run s r same =
    let middle = headed l.high l.high_tail none in
    let g' = linked g l.high_tail none in
    let high = end_high_lem (with_pages m g) l none in_high in
    let low = end_low_lem (with_pages m g') (record l { high = middle }) middle in_low in
    (
      linked g' l.low_tail middle,
      headed l.low l.low_tail middle,
      joined s,
      Relinked-trans r (
          Relinked-trans
            (linked-Relinked g l.high_tail none hs (λ j. has j xs) s.high.inside
              (λ j i. rw (sym (same j)) (ground arith)))
            (linked-Relinked g' l.low_tail middle ls (λ j. has j xs) s.low.inside
              (λ j i. rw (sym (same j)) (ground arith)))),
      rw run (rw high (rw low refl)),
    )
  where
    in_high : (q : ℕ) → l.high_tail ≡ some q → q < m.npages
    in_high q e = s.in_range q (ground (arith, s.high.inside q e))

    in_low : (q : ℕ) → l.low_tail ≡ some q → q < m.npages
    in_low q e = s.in_range q (ground (arith, s.low.inside q e))

-- If the free list is well formed and holds the pages xs, then the part of check_page_free_list
-- that moves the low pages to the front, under any limit, succeeds within a number of turns that
-- is the number of pages, and leaves a well-formed free list, with the right back links, of the
-- pages of xs whose address is below the limit and then the others, both in the order of xs; no
-- page changes its size.
pub low_first-IsFreeList :
    {m : Memory} {xs : List ℕ} (limit : ℕ)
    → IsFreeList m xs
    → (m' : Memory) × (low_first limit m ≡ ok tt m')
      × IsFreeList m' (lows limit xs ++ highs limit xs)
      × ((j : ℕ) → (m'.pages j).is_huge ≡ (m.pages j).is_huge)
unfolding low_first
low_first-IsFreeList {m} {xs} limit v =
    let (l, g, run, s, r) =
      separate_lem m.npages limit m no_lists [] [] xs m.page_free_list (λ j. has j xs)
        (length_below m.npages xs v.distinct v.in_range) (started v) (λ j i. i) in
    let (h, head, c, links, rest) = low_first_lem limit xs run s r (halves_lem limit xs) in
    let ys = lows limit xs ++ highs limit xs in
    let d =
      append-IsDistinct (lows limit xs) (highs limit xs) (lows-IsDistinct limit xs v.distinct)
        (highs-IsDistinct limit xs v.distinct) s.apart in
    let same : (j : ℕ) → has j ys ≡ has j xs =
      λ j. has-append j (lows limit xs) (highs limit xs) ∙ halves_lem limit xs j in
    let in_range : (j : ℕ) → has j ys ≡ true → j < m.npages =
      λ j i. v.in_range j (sym (same j) ∙ i) in
    let (fixed, chain) =
      fix_previous_lem m.npages (record m { pages = h; page_free_list = head }) none head ys
        (length_below m.npages ys d in_range) c d in_range in
    (
      record m { pages = repaired h none ys; page_free_list = head },
      rest ∙ fixed,
      repaired-IsFreeList ys v links same head chain d,
      λ j. (untouched ys v links same j).1,
    )
