-- ===== src/Monitor/Text.antt =====
-- A line as a list of characters, its words, and what the two scanning loops do.
use kp.Base.{
  ℕ, zero, suc, ◌+◌, ◌<◌, ◌≤◌, ◌≡◌, refl, ap, ◌∙◌, ◌==◌, Bool, true, false, not, ◌&&◌,
  if◌then◌else◌, inl, inr, List, [], ◌∷◌, arith, Bool-cases,
}
use kp.Run.{Run, ok, Cmd, pure, ◌>>◌}
use kp.Strings.{Bytes, store, write_byte}
use kp.Pages.FreeList.Lists.{length}
use kp.Monitor.{is_space, gobble, scan_past}

-- The string at `a` has these characters, none of them 0.
abbrev pub Text : Bytes → ℕ → List ℕ → Type 0
Text m a [] = m a ≡ 0
Text m a (c ∷ cs) = (m a ≡ c) × ((c == 0) ≡ false) × Text m (a + 1) cs

abbrev pub drop_spaces : List ℕ → List ℕ
drop_spaces [] = []
drop_spaces (c ∷ cs) = let rest = drop_spaces cs in if is_space c then rest else c ∷ cs

-- The first word, and what is behind it.
abbrev pub first_word : List ℕ → List ℕ
first_word [] = []
first_word (c ∷ cs) = let rest = first_word cs in if is_space c then [] else c ∷ rest

abbrev pub behind_word : List ℕ → List ℕ
behind_word [] = []
behind_word (c ∷ cs) = let rest = behind_word cs in if is_space c then c ∷ cs else rest

-- Where a line ends or has white space, a zero comes to stand.
abbrev pub at_end : List ℕ → Bool
at_end [] = true
at_end (c ∷ cs) = is_space c

pub Text-same :
    (m n : Bytes) (a : ℕ) (cs : List ℕ) → ((x : ℕ) → a ≤ x → n x ≡ m x) → Text m a cs → Text n a cs
Text-same m n a [] e t = e a (omega arith) ∙ t
Text-same m n a (c ∷ cs) e t =
    (e a (omega arith) ∙ t.0, t.1, Text-same m n (a + 1) cs (λ x h. e x (omega (arith, h))) t.2)

gobble_turn :
    (fuel a : ℕ) (m : Bytes) (b : Bool)
    → (not (m a == 0) && is_space (m a)) ≡ b
    → gobble (suc fuel) a m
      ≡ elim b as (λ _. Run Bytes ℕ) [ true ↦ gobble fuel (a + 1) (store a 0 m) | false ↦ ok a m ]
unfolding gobble
gobble_turn fuel a m true e =
    ap
      (λ (b : Bool).
        (elim b as (λ _. Cmd Bytes ℕ) [
          | true ↦ (do write_byte a 0; gobble fuel (a + 1))
          | false ↦ pure a
        ])
          m)
      e
gobble_turn fuel a m false e =
    ap
      (λ (b : Bool).
        (elim b as (λ _. Cmd Bytes ℕ) [
          | true ↦ (do write_byte a 0; gobble fuel (a + 1))
          | false ↦ pure a
        ])
          m)
      e

scan_past_turn :
    (fuel a : ℕ) (m : Bytes) (b : Bool)
    → (not (m a == 0) && not (is_space (m a))) ≡ b
    → scan_past (suc fuel) a m
      ≡ elim b as (λ _. Run Bytes ℕ) [ true ↦ scan_past fuel (a + 1) m | false ↦ ok a m ]
unfolding scan_past
scan_past_turn fuel a m true e =
    ap
      (λ (b : Bool).
        (elim b as (λ _. Cmd Bytes ℕ) [ true ↦ scan_past fuel (a + 1) | false ↦ pure a ]) m)
      e
scan_past_turn fuel a m false e =
    ap
      (λ (b : Bool).
        (elim b as (λ _. Cmd Bytes ℕ) [ true ↦ scan_past fuel (a + 1) | false ↦ pure a ]) m)
      e

-- gobble stops at the first character that is no white space.
pub record Gobbled (cs : List ℕ) (a : ℕ) (m : Bytes) (b : ℕ) (m' : Bytes) : Type 0 where
  pub text : Text m' b (drop_spaces cs)
  pub before : (x : ℕ) → x < a → m' x ≡ m x
  pub cleared : at_end cs ≡ true → m' a ≡ 0
  pub further : a ≤ b

pub gobble_lem :
    (cs : List ℕ) (fuel a : ℕ) (m : Bytes)
    → Text m a cs
    → length cs < fuel
    → (b : ℕ) × (m' : Bytes) × (gobble fuel a m ≡ ok b m') × Gobbled cs a m b m'
gobble_lem cs zero a m t h = absurd (omega (arith, h))
gobble_lem [] (suc fuel) a m t h = (
  a,
  m,
  gobble_turn fuel a m false (rw t refl),
  record { text = t; before = λ x l. refl; cleared = λ e. t; further = omega arith },
)
gobble_lem (c ∷ cs) (suc fuel) a m t h = elim (Bool-cases (is_space c)) [
  | inl s ↦
      let n = store a 0 m in
      let rest = Text-same m n (a + 1) cs (λ x l. ground arith) t.2 in
      let (b, m', run, g) = gobble_lem cs fuel (a + 1) n rest (omega (arith, h)) in
      (
        b,
        m',
        gobble_turn fuel a m true (rw (t.0, t.1) s) ∙ run,
        record {
          text = rw s g.text;
          before = λ x l. g.before x (omega (arith, l)) ∙ ground arith;
          cleared = λ e. g.before a (omega arith) ∙ ground arith;
          further = omega (arith, g.further);
        },
      )
  | inr s ↦ (
    a,
    m,
    gobble_turn fuel a m false (rw (t.0, t.1) s),
    record {
      text = rw s t;
      before = λ x l. refl;
      cleared = λ e. absurd (cc (e, s));
      further = omega arith;
    },
  )
]

-- scan_past stops behind the word.
pub scan_past_lem :
    (cs : List ℕ) (fuel a : ℕ) (m : Bytes)
    → Text m a cs
    → length cs < fuel
    → (scan_past fuel a m ≡ ok (a + length (first_word cs)) m)
      × Text m (a + length (first_word cs)) (behind_word cs)
scan_past_lem cs zero a m t h = absurd (omega (arith, h))
scan_past_lem [] (suc fuel) a m t h =
    let z : a + 0 ≡ a = omega arith in rw z (scan_past_turn fuel a m false (rw t refl), t)
scan_past_lem (c ∷ cs) (suc fuel) a m t h = elim (Bool-cases (is_space c)) [
  | inl s ↦
      let z : a + 0 ≡ a = omega arith in
      rw (s, z) (scan_past_turn fuel a m false (rw (t.0, t.1, s) refl), t)
  | inr s ↦
      let z : a + suc (length (first_word cs)) ≡ a + 1 + length (first_word cs) = omega arith in
      let r = scan_past_lem cs fuel (a + 1) m t.2 (omega (arith, h)) in
      rw (s, z) (scan_past_turn fuel a m true (rw (t.0, t.1, s) refl) ∙ r.0, r.1)
]

pub length-behind_word : (cs : List ℕ) → length (behind_word cs) ≤ length cs
length-behind_word [] = omega arith
length-behind_word (c ∷ cs) = elim (Bool-cases (is_space c)) [
  | inl s ↦ rw s (omega arith)
  | inr s ↦ rw s (omega (arith, length-behind_word cs))
]

pub length-drop_spaces : (cs : List ℕ) → length (drop_spaces cs) ≤ length cs
length-drop_spaces [] = omega arith
length-drop_spaces (c ∷ cs) = elim (Bool-cases (is_space c)) [
  | inl s ↦ rw s (omega (arith, length-drop_spaces cs))
  | inr s ↦ rw s (omega arith)
]

pub behind_word-at_end : (cs : List ℕ) → at_end (behind_word cs) ≡ true
behind_word-at_end [] = refl
behind_word-at_end (c ∷ cs) = elim (Bool-cases (is_space c)) [
  | inl s ↦ rw s s
  | inr s ↦ rw s (behind_word-at_end cs)
]
