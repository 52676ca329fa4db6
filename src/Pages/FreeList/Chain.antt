-- ===== src/Pages/FreeList/Chain.antt =====
-- What a chain of links says of a member's neighbours, and what becomes of it when the member is
-- taken out.
use kp.Base.{
  ℕ, ◌≡◌, refl, ◌∙◌, ◌⊎◌, inl, inr, Bool, true, false, Option, none, some, List, [], ◌∷◌, ◌==◌,
  if◌then◌else◌, arith, Bool-cases, Option-cases, ==_iff, subst,
}
use kp.Pages.{PageInfo}
use kp.Pages.FreeList.{Chain}
use kp.Pages.FreeList.Lists.{has, erase, IsDistinct}

-- Whether a pointer points to page `j`.
abbrev pub points : Option ℕ → ℕ → Bool
points none j = false
points (some p) j = p == j

-- The pages once the neighbours of `p` point past it.
abbrev pub spliced : (ℕ → PageInfo) → ℕ → ℕ → PageInfo
spliced g p j = record (g j) {
  pp_link = if points (g p).previous j then (g p).pp_link else (g j).pp_link;
  previous = if points (g p).pp_link j then (g p).previous else (g j).previous;
}

pub points-some : (l : Option ℕ) (p : ℕ) → points l p ≡ true → l ≡ some p
points-some none p t = cc
points-some (some r) p t = ground arith

-- A chain reads only the links of its members.
pub Chain-frame :
    (g h : ℕ → PageInfo) (back head : Option ℕ) (xs : List ℕ)
    → Chain g back head xs
    → ((j : ℕ)
        → has j xs ≡ true
        → ((h j).pp_link ≡ (g j).pp_link) × ((h j).previous ≡ (g j).previous))
    → Chain h back head xs
Chain-frame g h back head [] c same = c
Chain-frame g h back head (x ∷ xs) (e, b, c) same =
    let (l, p) = same x (ground arith) in
    (e, p ∙ b, rw l (Chain-frame g h (some x) (g x).pp_link xs c λ j i. same j (ground arith)))

module _ (g : ℕ → PageInfo) (p : ℕ) where
  -- The head of a chain is its first member.
  pub head_cases :
      (back head : Option ℕ) (xs : List ℕ)
      → Chain g back head xs
      → (head ≡ none) ⊎ ((r : ℕ) × (head ≡ some r) × (has r xs ≡ true))
  head_cases back head [] c = inl c
  head_cases back head (x ∷ xs) c = inr (x, c.0, ground arith)

  pub link_cases :
      (back head : Option ℕ) (xs : List ℕ)
      → Chain g back head xs
      → IsDistinct xs
      → has p xs ≡ true
      → ((g p).pp_link ≡ none)
        ⊎ ((r : ℕ) × ((g p).pp_link ≡ some r) × (has r xs ≡ true) × ((r == p) ≡ false))
  link_cases back head [] c d i = cc
  link_cases back head (x ∷ xs) c d i = elim (Bool-cases (x == p)) [
    | inl e ↦ elim (head_cases (some x) (g x).pp_link xs c.2) [
      | inl n ↦ inl (ground arith)
      | inr (r, l, h) ↦ inr (r, ground arith, ground arith, ground arith)
    ]
    | inr e ↦ elim (link_cases (some x) (g x).pp_link xs c.2 d.1 (ground arith)) [
      | inl n ↦ inl n
      | inr (r, l, h, n) ↦ inr (r, l, ground arith, n)
    ]
  ]

  pub previous_cases :
      (back head : Option ℕ) (xs : List ℕ)
      → Chain g back head xs
      → IsDistinct xs
      → has p xs ≡ true
      → (((g p).previous ≡ back) × (head ≡ some p))
        ⊎ ((q : ℕ) × ((g p).previous ≡ some q) × (has q xs ≡ true) × ((q == p) ≡ false))
  previous_cases back head [] c d i = cc
  previous_cases back head (x ∷ xs) c d i = elim (Bool-cases (x == p)) [
    | inl e ↦ inl (ground arith)
    | inr e ↦ elim (previous_cases (some x) (g x).pp_link xs c.2 d.1 (ground arith)) [
      | inl (b, h) ↦ inr (x, b, ground arith, e)
      | inr (q, b, h, n) ↦ inr (q, b, ground arith, n)
    ]
  ]

  -- The head's `previous` is where the chain starts from.
  pub head_previous :
      (back head : Option ℕ) (xs : List ℕ)
      → Chain g back head xs
      → head ≡ some p
      → (g p).previous ≡ back
  head_previous back head [] c e = cc
  head_previous back head (x ∷ xs) c e = ground arith

  -- A head with no link is alone.
  pub not_alone :
      (q : ℕ) (back head : Option ℕ) (xs : List ℕ)
      → Chain g back head xs
      → head ≡ some p
      → (g p).pp_link ≡ none
      → has q xs ≡ true
      → (q == p) ≡ false
      → ⊥
  not_alone q back head [] c h l i n = cc
  not_alone q back head (x ∷ []) c h l i n = ground arith
  not_alone q back head (x ∷ y ∷ ys) c h l i n = ground arith

  -- Behind `p` only the back link of the next member changes.
  Chain-past :
      (back head : Option ℕ) (xs : List ℕ)
      → Chain g (some p) head xs
      → IsDistinct xs
      → (g p).pp_link ≡ head
      → (g p).previous ≡ back
      → ((j : ℕ) → back ≡ some j → has j xs ≡ false)
      → Chain (spliced g p) back head xs
  Chain-past back head [] c d l b o = c
  Chain-past back head (y ∷ ys) c d l b o = (
    c.0,
    ground arith,
    rw same_link (Chain-frame g (spliced g p) (some y) (g y).pp_link ys c.2 rest),
  )
    where
      not_back : (j : ℕ) → has j (y ∷ ys) ≡ true → points (g p).previous j ≡ false
      not_back j i = elim (Option-cases back) [
        | inl n ↦ ground arith
        | inr (q, n) ↦ ground (arith, o q n)
      ]

      same_link : (spliced g p y).pp_link ≡ (g y).pp_link
      same_link = rw (not_back y (ground arith))

      rest :
          (j : ℕ)
          → has j ys ≡ true
          → ((spliced g p j).pp_link ≡ (g j).pp_link) × ((spliced g p j).previous ≡ (g j).previous)
      rest j i = (rw (not_back j (ground arith)), ground arith)

  -- A member's link leads to `p` exactly if `p`'s back link leads to it.
  points_both :
      (x : ℕ) (head : Option ℕ) (xs : List ℕ)
      → Chain g (some x) head xs
      → IsDistinct xs
      → has x xs ≡ false
      → has p xs ≡ true
      → points (g p).previous x ≡ points head p
  points_both x head xs c d o i = elim (previous_cases (some x) head xs c d i) [
    | inl (b, h) ↦ ground arith
    | inr (q, b, h, n) ↦ elim (Bool-cases (points head p)) [
      | inl t ↦ ground (arith, head_previous (some x) head xs c (points-some head p t))
      | inr f ↦ ground arith
    ]
  ]

  pub Chain-spliced :
      (back head : Option ℕ) (xs : List ℕ)
      → Chain g back head xs
      → IsDistinct xs
      → has p xs ≡ true
      → ((j : ℕ) → back ≡ some j → has j xs ≡ false)
      → Chain (spliced g p) back (if points head p then (g p).pp_link else head) (erase p xs)
  Chain-spliced back head [] c d i o = cc
  Chain-spliced back head (x ∷ xs) c d i o = elim (Bool-cases (x == p)) [
    | inl e ↦
        let same : x ≡ p = (==_iff x p).0 e in
        rw (c.0, e)
          (Chain-past back (g p).pp_link xs
            (subst (λ (t : ℕ). Chain g (some t) (g t).pp_link xs) same c.2) d.1 refl
            (subst (λ (t : ℕ). (g t).previous ≡ back) same c.1) (λ j h. ground (arith, o j h)))
    | inr e ↦
        let here : has p xs ≡ true = ground arith in
        rw (c.0, e)
          (
            refl,
            previous_kept here,
            rw (points_both x (g x).pp_link xs c.2 d.1 d.0 here)
                (Chain-spliced (some x) (g x).pp_link xs c.2 d.1 here (λ j h. ground arith)),
          )
  ]
    where
      previous_kept : has p xs ≡ true → (spliced g p x).previous ≡ back
      previous_kept here = elim (link_cases (some x) (g x).pp_link xs c.2 d.1 here) [
        | inl n ↦ ground arith
        | inr (r, l, h, n) ↦ ground arith
      ]
