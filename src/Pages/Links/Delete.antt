-- ===== src/Pages/Links/Delete.antt =====
-- delete_from_free of kern/lab1.c takes the first page of the wanted size out of the free list.
use kp.Base.{
  ℕ, zero, suc, ◌<◌, ◌≡◌, refl, inl, inr, true, false, Option, none, some, List, [], ◌∷◌,
  if◌then◌else◌, arith, ◌==◌, Bool-cases, Option-cases, lt→ltb,
}
use kp.Run.{Run, ok}
use kp.Pages.{PageInfo, Memory, update, page_at, modify_page, detach}
use kp.Pages.FreeList.{Chain, IsFreeList}
use kp.Pages.FreeList.Lists.{
  length, has, erase, has-erase_self, has-erase, erase-IsDistinct, length_below,
}
use kp.Pages.FreeList.Chain.{
  points, spliced, Chain-frame, Chain-spliced, previous_cases, link_cases,
}
use kp.Pages.Links.{search_free, take_found, delete_from_free}
use kp.Pages.Links.Unlink.{unlink_lem}

-- The memory once `p` is out of the list and marked as taken.
abbrev pub removed : ℕ → Memory → Memory
removed p m = record m {
  pages = update (spliced m.pages p) p (detach (spliced m.pages p p));
  page_free_list = if points m.page_free_list p then (m.pages p).pp_link else m.page_free_list;
}

-- The first of `xs` whose `is_huge` is `ishuge`.
abbrev pub first_sized : (ℕ → PageInfo) → ℕ → List ℕ → Option ℕ
first_sized g ishuge [] = none
first_sized g ishuge (x ∷ xs) = if (g x).is_huge == ishuge then some x else first_sized g ishuge xs

pub has-first_sized :
    (g : ℕ → PageInfo) (ishuge : ℕ) (p : ℕ) (xs : List ℕ)
    → first_sized g ishuge xs ≡ some p
    → (has p xs ≡ true) × ((g p).is_huge ≡ ishuge)
has-first_sized g ishuge p [] e = cc
has-first_sized g ishuge p (x ∷ xs) e = ground (arith, has-first_sized g ishuge p xs)

module _ {m : Memory} {xs : List ℕ} (v : IsFreeList m xs) (p : ℕ) (i : has p xs ≡ true) where
  -- Taking a member out leaves a free list of the others.
  pub removed-IsFreeList : IsFreeList (removed p m) (erase p xs)
  removed-IsFreeList = record {
    chain =
        Chain-frame (spliced m.pages p) (removed p m).pages none _ (erase p xs)
          (Chain-spliced m.pages p none m.page_free_list xs v.chain v.distinct i (λ j e. cc))
          (λ j h. ground (arith, has-erase_self p xs v.distinct));
    distinct = erase-IsDistinct p xs v.distinct;
    in_range = λ j h. ground (arith, has-erase p j xs v.distinct, v.in_range j);
    available = λ j h. ground (arith, has-erase p j xs v.distinct, v.available j h);
    detached = detached;
    bounded = v.bounded;
  }
    where
      detached :
          (j : ℕ)
          → j < m.npages
          → has j (erase p xs) ≡ false
          → (((removed p m).pages j).pp_link ≡ none) × (((removed p m).pages j).previous ≡ none)
      detached j h o = elim (Bool-cases (p == j)) [
        | inl e ↦ ground arith
        | inr e ↦
            let out : has j xs ≡ false = ground (arith, has-erase p j xs v.distinct) in
            (
              elim (previous_cases m.pages p none m.page_free_list xs v.chain v.distinct i) [
                | inl (b, _) ↦ ground (arith, v.detached j h)
                | inr (q, b, hq, nq) ↦ ground (arith, v.detached j h)
              ],
              elim (link_cases m.pages p none m.page_free_list xs v.chain v.distinct i) [
                | inl l ↦ ground (arith, v.detached j h)
                | inr (r, l, hr, nr) ↦ ground (arith, v.detached j h)
              ],
            )
      ]

search_free_lem :
    (m : Memory) (ishuge fuel : ℕ) (back head : Option ℕ) (xs : List ℕ)
    → Chain m.pages back head xs
    → ((p : ℕ) → has p xs ≡ true → p < m.npages)
    → length xs < fuel
    → search_free fuel ishuge head m ≡ ok (first_sized m.pages ishuge xs) m
unfolding search_free page_at
search_free_lem m ishuge zero back head xs c r h = absurd (omega arith)
search_free_lem m ishuge (suc fuel) back head [] c r h = rw c
search_free_lem m ishuge (suc fuel) back head (x ∷ xs) c r h = rw c.0 (
    ground (
      arith,
      r x,
      search_free_lem m ishuge fuel (some x) (m.pages x).pp_link xs c.2 (λ p i. r p (ground arith)),
    ))

take_found_lem :
    {m : Memory} {xs : List ℕ} (p : ℕ)
    → IsFreeList m xs
    → has p xs ≡ true
    → take_found (some p) m ≡ ok (some p) (removed p m)
unfolding take_found modify_page
take_found_lem {m} p v i = rw (unlink_lem v p i) (rw (lt→ltb p m.npages (v.in_range p i)))

-- What delete_from_free returns, and what it leaves, by the first page of the size.
abbrev pub deleted : Memory → Option ℕ → Run Memory (Option ℕ)
deleted m none = ok none m
deleted m (some p) = ok (some p) (removed p m)

-- On a well-formed free list delete_from_free returns the first page of the wanted size and
-- takes it out of the list; if there is none it returns NULL and changes nothing.
pub delete_from_free_lem :
    {m : Memory} {xs : List ℕ} (ishuge : ℕ)
    → IsFreeList m xs
    → delete_from_free ishuge m ≡ deleted m (first_sized m.pages ishuge xs)
unfolding delete_from_free
delete_from_free_lem {m} {xs} ishuge v =
    rw
      (search_free_lem m ishuge (suc m.npages) none m.page_free_list xs v.chain v.in_range
        (omega (arith, length_below m.npages xs v.distinct v.in_range)))
      (elim (Option-cases (first_sized m.pages ishuge xs)) [
        | inl n ↦ rw n (unfold take_found in refl)
        | inr (p, e) ↦ rw e (take_found_lem p v (has-first_sized m.pages ishuge p xs e).0)
      ])
