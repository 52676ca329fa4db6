-- ===== src/SelfTest/Separating.antt =====
-- The two lists that check_page_free_list of kern/pmap.c builds from the free list, in the middle of its
-- loop.
use kp.Base.{
  ℕ, ◌<◌, ◌≡◌, ◌∙◌, refl, ap, Bool, true, false, ◌==◌, ◌||◌, Option, none, some, List, [], ◌∷◌,
  ◌++◌, arith, Bool-cases, ==_iff, inl, inr, lt→ltb,
}
use kp.Run.{ok}
use kp.Pages.{PageInfo, Memory, set_link, modify_page}
use kp.Pages.FreeList.Lists.{has, IsDistinct}
use kp.SelfTest.FreeList.{TwoLists, end_low, end_high}
use kp.SelfTest.Segments.{
  Segment, Segment-frame, linked, headed, Open, Open-frame, Open-push, link-linked, has-append,
  apart_sym,
}

abbrev pub with_pages : Memory → (ℕ → PageInfo) → Memory
with_pages m g = record m { pages = g }

-- The pages `g` and the two lists, of which `ls` and `hs` have been taken, while `zs` from `pp` on are
-- left.
pub record Separating (n : ℕ) (g : ℕ → PageInfo) (l : TwoLists) (ls hs zs : List ℕ) (pp : Option ℕ)
    : Type 0 where
  pub low : Open g l.low l.low_tail ls
  pub high : Open g l.high l.high_tail hs
  pub rest : Segment g pp zs none
  pub apart_low : (j : ℕ) → has j zs ≡ true → has j ls ≡ false
  pub apart_high : (j : ℕ) → has j zs ≡ true → has j hs ≡ false
  pub apart : (j : ℕ) → has j ls ≡ true → has j hs ≡ false
  pub distinct : IsDistinct zs
  pub in_range : (j : ℕ) → (has j ls || (has j hs || has j zs)) ≡ true → j < n

-- Only links change, and only those of the pages for which `some_list` holds.
pub record Relinked (member : ℕ → Bool) (g h : ℕ → PageInfo) : Type 0 where
  pub rest : (j : ℕ) → set_link none (h j) ≡ set_link none (g j)
  pub links : (j : ℕ) → member j ≡ false → (h j).pp_link ≡ (g j).pp_link

-- A write through the pointer to the end of a list.
pub end_high_lem :
    (m : Memory) (l : TwoLists) (target : Option ℕ)
    → ((q : ℕ) → l.high_tail ≡ some q → q < m.npages)
    → end_high target l m
      ≡ ok
          (record l { high = headed l.high l.high_tail target })
          (with_pages m (linked m.pages l.high_tail target))
unfolding end_high modify_page
end_high_lem m l target i = go l.high_tail refl
  where
    go :
        (t : Option ℕ)
        → l.high_tail ≡ t
        → end_high target l m
          ≡ ok
              (record l { high = headed l.high l.high_tail target })
              (with_pages m (linked m.pages l.high_tail target))
    go none e = rw e refl
    go (some q) e = rw (e, lt→ltb q m.npages (i q e)) refl

pub end_low_lem :
    (m : Memory) (l : TwoLists) (target : Option ℕ)
    → ((q : ℕ) → l.low_tail ≡ some q → q < m.npages)
    → end_low target l m
      ≡ ok
          (record l { low = headed l.low l.low_tail target })
          (with_pages m (linked m.pages l.low_tail target))
unfolding end_low modify_page
end_low_lem m l target i = go l.low_tail refl
  where
    go :
        (t : Option ℕ)
        → l.low_tail ≡ t
        → end_low target l m
          ≡ ok
              (record l { low = headed l.low l.low_tail target })
              (with_pages m (linked m.pages l.low_tail target))
    go none e = rw e refl
    go (some q) e = rw (e, lt→ltb q m.npages (i q e)) refl

-- It changes one link, of a page of the list; such changes add up.
pub linked-Relinked :
    (g : ℕ → PageInfo) (tail target : Option ℕ) (xs : List ℕ) (member : ℕ → Bool)
    → ((q : ℕ) → tail ≡ some q → has q xs ≡ true)
    → ((j : ℕ) → has j xs ≡ true → member j ≡ true)
    → Relinked member g (linked g tail target)
linked-Relinked g none target xs member i s = record { rest = λ j. refl; links = λ j o. refl }
linked-Relinked g (some q) target xs member i s = record {
  rest = λ j. elim (Bool-cases (q == j)) [
    | inl e ↦ rw e (ap (λ (k : ℕ). set_link none (g k)) ((==_iff q j).0 e))
    | inr e ↦ rw e refl
  ];
  links = λ j o. ground (arith, s q (i q refl));
}

pub Relinked-trans :
    {member : ℕ → Bool} {g h k : ℕ → PageInfo}
    → Relinked member g h
    → Relinked member h k
    → Relinked member g k
Relinked-trans a b = record {
  rest = λ j. b.rest j ∙ a.rest j;
  links = λ j o. b.links j o ∙ a.links j o;
}

-- What is taken next goes behind the high pages.
pub take_high :
    {n : ℕ} {g : ℕ → PageInfo} {l : TwoLists} {ls hs zs : List ℕ} {pp : Option ℕ} (p : ℕ)
    → Separating n g l ls hs (p ∷ zs) pp
    → Separating n
        (linked g l.high_tail (some p))
        (record l { high = headed l.high l.high_tail (some p); high_tail = some p })
        ls
        (hs ++ (p ∷ []))
        zs
        (g p).pp_link
take_high {n} {g} {l} {ls} {hs} {zs} {pp} p s =
    let out : has p hs ≡ false = s.apart_high p (ground arith) in
    let g' = linked g l.high_tail (some p) in
    let same : (j : ℕ) → has j hs ≡ false → (g' j).pp_link ≡ (g j).pp_link =
      λ j o. link-linked g l.high_tail (some p) hs j s.high.inside o in
    record {
      low = Open-frame g g' l.low l.low_tail ls s.low (λ j i. same j (s.apart j i));
      high = Open-push g l.high l.high_tail hs p s.high out;
      rest = Segment-frame g g' _ none zs s.rest.1 (λ j i. same j (s.apart_high j (ground arith)));
      apart_low = λ j i. s.apart_low j (ground arith);
      apart_high = λ j i. ground (arith, has-append j hs (p ∷ []), s.apart_high j, s.distinct.0);
      apart = λ j i. ground (arith, has-append j hs (p ∷ []), s.apart j i, s.apart_low p);
      distinct = s.distinct.1;
      in_range = λ j i. s.in_range j (ground (arith, has-append j hs (p ∷ [])));
    }

pub take_low :
    {n : ℕ} {g : ℕ → PageInfo} {l : TwoLists} {ls hs zs : List ℕ} {pp : Option ℕ} (p : ℕ)
    → Separating n g l ls hs (p ∷ zs) pp
    → Separating n
        (linked g l.low_tail (some p))
        (record l { low = headed l.low l.low_tail (some p); low_tail = some p })
        (ls ++ (p ∷ []))
        hs
        zs
        (g p).pp_link
take_low {n} {g} {l} {ls} {hs} {zs} {pp} p s =
    let out : has p ls ≡ false = s.apart_low p (ground arith) in
    let g' = linked g l.low_tail (some p) in
    let same : (j : ℕ) → has j ls ≡ false → (g' j).pp_link ≡ (g j).pp_link =
      λ j o. link-linked g l.low_tail (some p) ls j s.low.inside o in
    let off_low : (j : ℕ) → has j hs ≡ true → has j ls ≡ false =
      λ j i. apart_sym (has j ls) (has j hs) (s.apart j) i in
    record {
      low = Open-push g l.low l.low_tail ls p s.low out;
      high = Open-frame g g' l.high l.high_tail hs s.high (λ j i. same j (off_low j i));
      rest = Segment-frame g g' _ none zs s.rest.1 (λ j i. same j (s.apart_low j (ground arith)));
      apart_low = λ j i. ground (arith, has-append j ls (p ∷ []), s.apart_low j, s.distinct.0);
      apart_high = λ j i. s.apart_high j (ground arith);
      apart = λ j i. ground (arith, has-append j ls (p ∷ []), s.apart j, s.apart_high p);
      distinct = s.distinct.1;
      in_range = λ j i. s.in_range j (ground (arith, has-append j ls (p ∷ [])));
    }
