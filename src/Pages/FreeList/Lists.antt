-- ===== src/Pages/FreeList/Lists.antt =====
-- Lists of page numbers: membership as a test, lists without repetition, and their lengths.
use kp.Base.{
  ℕ, zero, suc, ◌+◌, ◌≤◌, ◌<◌, ◌≡◌, refl, Bool, true, false, ◌||◌, List, [], ◌∷◌, ◌==◌,
  if◌then◌else◌, arith, Bool-cases, inl, inr, ◌∙◌,
}

abbrev pub length {ℓ} : {A : Type ℓ} → List A → ℕ
length [] = 0
length (x ∷ xs) = suc (length xs)

abbrev pub has : ℕ → List ℕ → Bool
has p [] = false
has p (x ∷ xs) = (x == p) || has p xs

abbrev pub erase : ℕ → List ℕ → List ℕ
erase p [] = []
erase p (x ∷ xs) = if x == p then xs else x ∷ erase p xs

abbrev pub IsDistinct : List ℕ → Type 0
IsDistinct [] = Unit
IsDistinct (x ∷ xs) = (has x xs ≡ false) × IsDistinct xs

pub has-erase_self : (p : ℕ) (xs : List ℕ) → IsDistinct xs → has p (erase p xs) ≡ false
has-erase_self p [] d = refl
has-erase_self p (x ∷ xs) d = ground (arith, has-erase_self p xs d.1)

pub has-erase_ne : (p q : ℕ) (xs : List ℕ) → (p == q) ≡ false → has q (erase p xs) ≡ has q xs
has-erase_ne p q [] d = refl
has-erase_ne p q (x ∷ xs) d = ground (arith, has-erase_ne p q xs d)

pub has-erase :
    (p q : ℕ) (xs : List ℕ)
    → IsDistinct xs
    → has q (erase p xs) ≡ (if p == q then false else has q xs)
has-erase p q xs d = elim (Bool-cases (p == q)) [
  | inl e ↦ ground (arith, has-erase_self p xs d)
  | inr e ↦ rw e (has-erase_ne p q xs e)
]

pub erase-IsDistinct : (p : ℕ) (xs : List ℕ) → IsDistinct xs → IsDistinct (erase p xs)
erase-IsDistinct p [] d = tt
erase-IsDistinct p (x ∷ xs) d = elim (Bool-cases (x == p)) [
  | inl e ↦ rw e d.1
  | inr e ↦ rw e (has-erase_ne p x xs (ground arith) ∙ d.0, erase-IsDistinct p xs d.1)
]

pub length-erase : (p : ℕ) (xs : List ℕ) → has p xs ≡ true → length (erase p xs) + 1 ≡ length xs
length-erase p [] h = cc
length-erase p (x ∷ xs) h = ground (arith, length-erase p xs)

-- Distinct numbers below `n` are at most `n` many.
pub length_below :
    (n : ℕ) (xs : List ℕ) → IsDistinct xs → ((p : ℕ) → has p xs ≡ true → p < n) → length xs ≤ n
length_below zero [] d h = omega arith
length_below zero (x ∷ xs) d h = absurd (omega (arith, h x (ground arith)))
length_below (suc n) xs d h = elim (Bool-cases (has n xs)) [
  | inl e ↦ omega (
    arith,
    length-erase n xs e,
    length_below n (erase n xs) (erase-IsDistinct n xs d) λ p i. lt_of_mem_erase p i,
  )
  | inr e ↦ omega (arith, length_below n xs d λ p i. ground (arith, h p))
]
  where
    lt_of_mem_erase : (p : ℕ) → has p (erase n xs) ≡ true → p < n
    lt_of_mem_erase p i = elim (Bool-cases (n == p)) [
      | inl e ↦ absurd (ground (arith, has-erase_self n xs d))
      | inr e ↦ ground (arith, h p, has-erase_ne n p xs e)
    ]
