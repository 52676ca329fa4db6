-- ===== src/Vma/Lookup.antt =====
-- vma_lookup against the areas of the list it searches.
use kp.Base.{
  ℕ, zero, suc, ◌+◌, ◌^◌, ◌<◌, ◌≤◌, ◌≡◌, refl, subst, true, false, ◌==◌, ==_iff, inl, inr,
  Bool-cases, Option, none, some, arith, List, [], ◌∷◌,
}
use kp.Run.{ok}
use kp.Words.{add64}
use kp.Pages.FreeList.Lists.{has, length}
use kp.Kernel.{Vma, Kernel, is_unused}
use kp.Vma.{holds, lookup_loop, vma_lookup}

-- The nodes from `o` on, in order.
abbrev pub Nodes : (ℕ → Vma) → Option ℕ → List ℕ → Type 0
Nodes g o [] = o ≡ none
Nodes g o (x ∷ xs) = (o ≡ some x) × Nodes g (g x).next xs

-- A used area with the address in its range.
pub record Contains (v : Vma) (a : ℕ) : Type 0 where
  pub used : is_unused v.vma_type ≡ false
  pub from_start : v.va ≤ a
  pub before_end : a < v.va + v.len

-- No used area stands behind an unused one.
abbrev pub UsedFirst : (ℕ → Vma) → List ℕ → Type 0
UsedFirst g [] = Unit
UsedFirst g (x ∷ xs) =
    (is_unused (g x).vma_type ≡ true → (j : ℕ) → has j xs ≡ true → is_unused (g j).vma_type ≡ true)
    × UsedFirst g xs

-- What a look-up promises: an area of the list that contains the address, or NULL if none does.
abbrev pub Answers : (ℕ → Vma) → ℕ → List ℕ → Option ℕ → Type 0
Answers g a xs none = (j : ℕ) → has j xs ≡ true → ¬ Contains (g j) a
Answers g a xs (some x) = (has x xs ≡ true) × Contains (g x) a

-- The test of the code, on an area that ends below 2 ^ 64.
holds-Contains :
    (v : Vma) (a : ℕ)
    → v.va + v.len < 2 ^ 64
    → is_unused v.vma_type ≡ false
    → (holds v a ≡ true → Contains v a) × (holds v a ≡ false → ¬ Contains v a)
holds-Contains v a fits used =
    let e : add64 v.va v.len ≡ v.va + v.len = omega (arith, fits) in
    (
      λ h. record { used = used; from_start = ground arith; before_end = ground (arith, e) },
      λ h c. absurd (ground (arith, e, c.from_start, c.before_end)),
    )

module _ (k : Kernel) (a : ℕ) where
  Finds : ℕ → Option ℕ → List ℕ → Type 0
  Finds fuel o xs = (r : Option ℕ) × (lookup_loop fuel o a k ≡ ok r k) × Answers k.vmas a xs r

  -- An area that does not contain the address is passed over.
  skip :
      (x : ℕ) (xs : List ℕ) (r : Option ℕ)
      → ¬ Contains (k.vmas x) a
      → Answers k.vmas a xs r
      → Answers k.vmas a (x ∷ xs) r
  skip x xs (some y) n h = (ground (arith, h.0), h.1)
  skip x xs none n h = λ j i. elim (Bool-cases (x == j)) [
    | inl e ↦ subst (λ (y : ℕ). ¬ Contains (k.vmas y) a) ((==_iff x j).0 e) n
    | inr e ↦ h j (ground arith)
  ]

  -- Behind an unused area none contains the address.
  all_unused :
      (x : ℕ) (xs : List ℕ)
      → is_unused (k.vmas x).vma_type ≡ true
      → ((j : ℕ) → has j xs ≡ true → is_unused (k.vmas j).vma_type ≡ true)
      → Answers k.vmas a (x ∷ xs) none
  all_unused x xs e h j i c = elim (Bool-cases (x == j)) [
    | inl t ↦
        let same : is_unused (k.vmas j).vma_type ≡ true =
          subst (λ (y : ℕ). is_unused (k.vmas y).vma_type ≡ true) ((==_iff x j).0 t) e in
        absurd (cc (same, c.used))
    | inr t ↦ absurd (cc (h j (ground arith), c.used))
  ]

  lookup_loop_lem :
      (fuel : ℕ) (o : Option ℕ) (xs : List ℕ)
      → Nodes k.vmas o xs
      → length xs < fuel
      → UsedFirst k.vmas xs
      → ((j : ℕ) → has j xs ≡ true → (k.vmas j).va + (k.vmas j).len < 2 ^ 64)
      → Finds fuel o xs
  unfolding lookup_loop Finds
  lookup_loop_lem fuel o [] n h u fits = (none, rw n refl, λ j i. absurd (cc i))
  lookup_loop_lem zero o (x ∷ xs) n h u fits = absurd (omega arith)
  lookup_loop_lem (suc fuel) o (x ∷ xs) n h u fits =
      elim (Bool-cases (is_unused (k.vmas x).vma_type)) [
        | inl unused ↦ (none, rw (n.0, unused) refl, all_unused x xs unused (u.0 unused))
        | inr used ↦
            let t = holds-Contains (k.vmas x) a (fits x (ground arith)) used in
            elim (Bool-cases (holds (k.vmas x) a)) [
              | inl here ↦ (some x, rw (n.0, used, here) refl, (ground arith, t.0 here))
              | inr not_here ↦
                  let (r, run, v) =
                    lookup_loop_lem fuel (k.vmas x).next xs n.1 (omega arith) u.1
                      (λ j i. fits j (ground arith)) in
                  (r, rw (n.0, used, not_here) run, skip x xs r (t.1 not_here) v)
            ]
      ]

-- If the nodes of the environment's list are xs, no more than there are VMA structures, none of
-- them ends at or beyond 2 ^ 64, and no used area stands behind an unused one, then vma_lookup
-- changes nothing and returns a used area of the list with the address in its range, or NULL,
-- and then no used area of the list has the address in its range.
pub vma_lookup-Answers :
    (k : Kernel) (env a : ℕ) (xs : List ℕ)
    → Nodes k.vmas (k.envs env).vma xs
    → length xs ≤ k.vma_slots
    → UsedFirst k.vmas xs
    → ((j : ℕ) → has j xs ≡ true → (k.vmas j).va + (k.vmas j).len < 2 ^ 64)
    → (r : Option ℕ) × (vma_lookup env a k ≡ ok r k) × Answers k.vmas a xs r
unfolding vma_lookup Finds
vma_lookup-Answers k env a xs n h u fits =
    lookup_loop_lem k a (suc k.vma_slots) (k.envs env).vma xs n (omega arith) u fits
