-- ===== src/Monitor/Words.antt =====
-- The words of a line, and where their strings lie.
use kp.Base.{
  ℕ, suc, ◌+◌, ◌<◌, ◌≡◌, ◌⊎◌, refl, sym, ap, subst, ◌∙◌, ◌==◌, true, false, if◌then◌else◌, inl, inr,
  List, [], ◌∷◌, arith, Bool-cases,
}
use kp.Strings.{Bytes}
use kp.Pages.FreeList.Lists.{length}
use kp.Monitor.{is_space}
use kp.Monitor.Text.{Text, drop_spaces, first_word, behind_word, at_end}

abbrev pub extend : ℕ → List (List ℕ) → List (List ℕ)
extend c [] = (c ∷ []) ∷ []
extend c (w ∷ ws) = (c ∷ w) ∷ ws

-- The words of a line: what stands between white space.
abbrev pub words : List ℕ → List (List ℕ)
words [] = []
words (c ∷ cs) =
    let rest = words cs in
    if is_space c then rest else if at_end cs then (c ∷ []) ∷ rest else extend c rest

-- The strings at these addresses are these words.
abbrev pub Named : Bytes → List ℕ → List (List ℕ) → Type 0
Named m [] [] = Unit
Named m [] (w ∷ ws) = true ≡ false
Named m (a ∷ argv) [] = true ≡ false
Named m (a ∷ argv) (w ∷ ws) = Text m a w × Named m argv ws

pub words-drop_spaces : (cs : List ℕ) → words (drop_spaces cs) ≡ words cs
words-drop_spaces [] = refl
words-drop_spaces (c ∷ cs) = elim (Bool-cases (is_space c)) [
  | inl s ↦ rw s (words-drop_spaces cs)
  | inr s ↦ rw (s, s) refl
]

at_end_word : (cs : List ℕ) → at_end cs ≡ true → (first_word cs ≡ []) × (behind_word cs ≡ cs)
at_end_word [] h = (refl, refl)
at_end_word (c ∷ cs) h = rw h (refl, refl)

pub words_next :
    (cs : List ℕ) → at_end cs ≡ false → words cs ≡ first_word cs ∷ words (behind_word cs)
words_next [] h = absurd (cc h)
words_next (c ∷ cs) h = elim (Bool-cases (at_end cs)) [
  | inl e ↦ rw (h, e, (at_end_word cs e).0, (at_end_word cs e).1) refl
  | inr e ↦ rw (h, e) (ap (extend c) (words_next cs e))
]

-- The word's characters stay, and a zero comes behind it.
pub Text-first_word :
    (cs : List ℕ) (m n : Bytes) (a : ℕ)
    → Text m a cs
    → ((x : ℕ) → x < a + length (first_word cs) → n x ≡ m x)
    → n (a + length (first_word cs)) ≡ 0
    → Text n a (first_word cs)
Text-first_word [] m n a t e z = subst (λ k. n k ≡ 0) (omega arith) z
Text-first_word (c ∷ cs) m n a t e z = elim (Bool-cases (is_space c)) [
  | inl s ↦
      let p : first_word (c ∷ cs) ≡ [] = rw s refl in
      let k : a + 0 ≡ a = omega arith in
      subst (λ w. Text n a w) (sym p) (ap n (sym k) ∙ subst (λ w. n (a + length w) ≡ 0) p z)
  | inr s ↦
      let p : first_word (c ∷ cs) ≡ c ∷ first_word cs = rw s refl in
      let k : a + suc (length (first_word cs)) ≡ a + 1 + length (first_word cs) = omega arith in
      let e' = subst (λ w. (x : ℕ) → x < a + length w → n x ≡ m x) p e in
      let z' = subst (λ w. n (a + length w) ≡ 0) p z in
      subst (λ w. Text n a w) (sym p)
        (
          e' a (omega arith) ∙ t.0,
          t.1,
          Text-first_word cs m n (a + 1) t.2 (λ x l. e' x (omega (arith, l))) (ap n (sym k) ∙ z'),
        )
]

-- What drop_spaces leaves is nothing, or starts with a word.
pub drop_spaces_cases : (cs : List ℕ) → (drop_spaces cs ≡ []) ⊎ (at_end (drop_spaces cs) ≡ false)
drop_spaces_cases [] = inl refl
drop_spaces_cases (c ∷ cs) = elim (Bool-cases (is_space c)) [
  | inl s ↦ rw s (drop_spaces_cases cs)
  | inr s ↦ rw s (inr s)
]

pub at_end-nonzero :
    (ds : List ℕ) (m : Bytes) (a : ℕ) → at_end ds ≡ false → Text m a ds → (m a == 0) ≡ false
at_end-nonzero [] m a h t = absurd (cc h)
at_end-nonzero (c ∷ ds) m a h t = rw t.0 t.1
