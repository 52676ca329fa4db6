-- ===== src/SelfTest/Halves.antt =====
-- The pages below a limit and the others, which check_page_free_list of kern/pmap.c puts one behind the
-- other.
use kp.Base.{
  ℕ, ◌≡◌, refl, ap, true, false, ◌||◌, leb, List, [], ◌∷◌, ◌++◌, if◌then◌else◌, arith, Bool-cases,
  inl, inr,
}
use kp.Pages.{page2pa}
use kp.Pages.FreeList.Lists.{has, IsDistinct}
use kp.SelfTest.Segments.{has-append}

-- The pages below the limit, and the others, in their order.
abbrev pub lows : ℕ → List ℕ → List ℕ
lows limit [] = []
lows limit (x ∷ xs) = if leb limit (page2pa x) then lows limit xs else x ∷ lows limit xs

abbrev pub highs : ℕ → List ℕ → List ℕ
highs limit [] = []
highs limit (x ∷ xs) = if leb limit (page2pa x) then x ∷ highs limit xs else highs limit xs

pub append_assoc : (xs ys zs : List ℕ) → (xs ++ ys) ++ zs ≡ xs ++ (ys ++ zs)
append_assoc [] ys zs = refl
append_assoc (x ∷ xs) ys zs = ap (λ (l : List ℕ). x ∷ l) (append_assoc xs ys zs)

pub append_nil : (xs : List ℕ) → xs ++ [] ≡ xs
append_nil [] = refl
append_nil (x ∷ xs) = ap (λ (l : List ℕ). x ∷ l) (append_nil xs)

-- The two halves of a list have its members, once each.
pub halves_lem :
    (limit : ℕ) (xs : List ℕ) (j : ℕ) → (has j (lows limit xs) || has j (highs limit xs)) ≡ has j xs
halves_lem limit [] j = refl
halves_lem limit (x ∷ xs) j = ground (arith, halves_lem limit xs j)

pub append-IsDistinct :
    (xs ys : List ℕ)
    → IsDistinct xs
    → IsDistinct ys
    → ((j : ℕ) → has j xs ≡ true → has j ys ≡ false)
    → IsDistinct (xs ++ ys)
append-IsDistinct [] ys d e a = e
append-IsDistinct (x ∷ xs) ys d e a = (
  ground (arith, has-append x xs ys, a x),
  append-IsDistinct xs ys d.1 e λ j i. a j (ground arith),
)

pub lows-IsDistinct : (limit : ℕ) (xs : List ℕ) → IsDistinct xs → IsDistinct (lows limit xs)
lows-IsDistinct limit [] d = tt
lows-IsDistinct limit (x ∷ xs) d = elim (Bool-cases (leb limit (page2pa x))) [
  | inl t ↦ rw t (lows-IsDistinct limit xs d.1)
  | inr t ↦ rw t (ground (arith, halves_lem limit xs x), lows-IsDistinct limit xs d.1)
]

pub highs-IsDistinct : (limit : ℕ) (xs : List ℕ) → IsDistinct xs → IsDistinct (highs limit xs)
highs-IsDistinct limit [] d = tt
highs-IsDistinct limit (x ∷ xs) d = elim (Bool-cases (leb limit (page2pa x))) [
  | inl t ↦ rw t (ground (arith, halves_lem limit xs x), highs-IsDistinct limit xs d.1)
  | inr t ↦ rw t (highs-IsDistinct limit xs d.1)
]
