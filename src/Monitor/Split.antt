-- ===== src/Monitor/Split.antt =====
-- runcmd calls its command with the words of the line.
use kp.Base.{
  ℕ, zero, suc, ◌+◌, ◌<◌, ◌≤◌, ◌≡◌, ◌⊎◌, refl, sym, ap, subst, ◌∙◌, ◌==◌, true, false, inl, inr,
  Option, none, some, List, [], ◌∷◌, pos, arith, Bool-cases,
}
use kp.Run.{ok, and_then, Cmd}
use kp.Strings.{Bytes}
use kp.Pages.FreeList.Lists.{length}
use kp.Monitor.{gobble, scan_past, word_at, split_words, Command, find_command, runcmd}
use kp.Monitor.Text.{
  Text, drop_spaces, first_word, behind_word, at_end, Gobbled, gobble_lem, scan_past_lem,
  length-behind_word, length-drop_spaces, behind_word-at_end,
}
use kp.Monitor.Words.{
  words, Named, words-drop_spaces, words_next, Text-first_word, drop_spaces_cases, at_end-nonzero,
}

-- How a line at `a` is split: into all its words, or there are too many.
data Split (fuel argc a : ℕ) (m : Bytes) (cs : List ℕ) : Type 0 where
  all_words :
      (argv : List ℕ) (n : Bytes)
      → split_words fuel argc a m ≡ ok (some argv) n
      → Named n argv (words cs)
      → argc + length (words cs) ≤ 15
      → ((x : ℕ) → x < a → n x ≡ m x)
      → (at_end cs ≡ true → n a ≡ 0)
      → Split fuel argc a m cs
  too_many :
      (n : Bytes)
      → split_words fuel argc a m ≡ ok none n
      → 15 < argc + length (words cs)
      → Split fuel argc a m cs

module _ (fuel argc b : ℕ) (n : Bytes) (rest : ℕ → Cmd Bytes (Option (List ℕ))) where
  word_at-end : (n b == 0) ≡ true → word_at fuel argc rest b n ≡ ok (some []) n
  unfolding word_at
  word_at-end z = rw (word_at, z) refl

  word_at-full : (n b == 0) ≡ false → (argc == 15) ≡ true → word_at fuel argc rest b n ≡ ok none n
  unfolding word_at
  word_at-full z f = rw (word_at, z, f) refl

  word_at-next :
      (e : ℕ) (k : Bytes) (r : Option (List ℕ))
      → (n b == 0) ≡ false
      → (argc == 15) ≡ false
      → scan_past fuel b n ≡ ok e n
      → rest e n ≡ ok r k
      → word_at fuel argc rest b n
        ≡ ok (elim r as (λ _. Option (List ℕ)) [ none ↦ none | some argv ↦ some (b ∷ argv) ]) k
  unfolding word_at
  word_at-next e k r z f scanned run = rw (word_at, z, f) (rw scanned (rw run refl))

split_words-word_at :
    (fuel argc a b : ℕ) (m n : Bytes)
    → gobble (suc fuel) a m ≡ ok b n
    → split_words (suc fuel) argc a m ≡ word_at (suc fuel) argc (split_words fuel (argc + 1)) b n
unfolding split_words
split_words-word_at fuel argc a b m n g =
    ap (λ r. and_then r (word_at (suc fuel) argc (split_words fuel (argc + 1)))) g

-- A word is not empty, and what is behind it is shorter than the line.
word_sizes :
    (ds : List ℕ)
    → at_end ds ≡ false
    → (0 < length (first_word ds)) × (length (behind_word ds) < length ds)
word_sizes [] h = absurd (cc h)
word_sizes (c ∷ ds) h = rw h (omega arith, omega (arith, length-behind_word ds))

module _ (fuel argc a b : ℕ) (m n : Bytes) (cs : List ℕ) (run : gobble (suc fuel) a m ≡ ok b n)
    (g : Gobbled cs a m b n) (e : at_end (drop_spaces cs) ≡ false)
    (scanned : scan_past (suc fuel) b n ≡ ok (b + length (first_word (drop_spaces cs))) n) where
  all : words cs ≡ first_word (drop_spaces cs) ∷ words (behind_word (drop_spaces cs))
  all = sym (words-drop_spaces cs) ∙ words_next (drop_spaces cs) e

  nonzero : (n b == 0) ≡ false
  nonzero = at_end-nonzero (drop_spaces cs) n b e g.text

  too_many_words : (argc == 15) ≡ true → Split (suc fuel) argc a m cs
  too_many_words f =
      too_many n
        (split_words-word_at fuel argc a b m n run
          ∙ word_at-full (suc fuel) argc b n (split_words fuel (argc + 1)) nonzero f)
        (rw all (ground arith))

  one_more_word :
      (argc == 15) ≡ false
      → Split fuel
          (argc + 1)
          (b + length (first_word (drop_spaces cs)))
          n
          (behind_word (drop_spaces cs))
      → Split (suc fuel) argc a m cs
  one_more_word f (too_many k next more) =
      too_many k
        (split_words-word_at fuel argc a b m n run
          ∙ word_at-next (suc fuel) argc b n (split_words fuel (argc + 1))
              (b + length (first_word (drop_spaces cs))) k none nonzero f scanned next)
        (rw all (omega (arith, more)))
  one_more_word f (all_words argv k next named few before cleared) =
      let s = word_sizes (drop_spaces cs) e in
      all_words (b ∷ argv) k
        (split_words-word_at fuel argc a b m n run
          ∙ word_at-next (suc fuel) argc b n (split_words fuel (argc + 1))
              (b + length (first_word (drop_spaces cs))) k (some argv) nonzero f scanned next)
        (subst (λ ws. Named k (b ∷ argv) ws) (sym all)
          (
            Text-first_word (drop_spaces cs) n k b g.text before
                (cleared (behind_word-at_end (drop_spaces cs))),
            named,
          ))
        (rw all (omega (arith, few))) (λ x l. before x (omega (arith, l, g.further)) ∙ g.before x l)
        (λ h. before a (omega (arith, g.further, s.0)) ∙ g.cleared h)

split_lem :
    (fuel : ℕ) (cs : List ℕ) (argc a : ℕ) (m : Bytes)
    → Text m a cs
    → length cs < fuel
    → argc ≤ 15
    → Split fuel argc a m cs
split_lem zero cs argc a m t h l = absurd (omega (arith, h))
split_lem (suc fuel) cs argc a m t h l =
    let (b, n, run, g) = gobble_lem cs (suc fuel) a m t h in
    elim (drop_spaces_cases cs) [
      | inl e ↦
          let z = subst (λ ds. Text n b ds) e g.text in
          let none_left : words cs ≡ [] = sym (words-drop_spaces cs) ∙ ap words e in
          all_words [] n
            (split_words-word_at fuel argc a b m n run
              ∙ word_at-end (suc fuel) argc b n (split_words fuel (argc + 1)) (rw z refl))
            (subst (λ ws. Named n [] ws) (sym none_left) tt) (rw none_left (omega (arith, l)))
            g.before g.cleared
      | inr e ↦
          let q = length-drop_spaces cs in
          let s = word_sizes (drop_spaces cs) e in
          let p = scan_past_lem (drop_spaces cs) (suc fuel) b n g.text (omega (arith, h, q)) in
          elim (Bool-cases (argc == 15)) [
            | inl f ↦ too_many_words fuel argc a b m n cs run g e p.0 f
            | inr f ↦ one_more_word fuel argc a b m n cs run g e p.0 f (
                split_lem fuel (behind_word (drop_spaces cs)) (argc + 1)
                  (b + length (first_word (drop_spaces cs))) n p.1 (omega (arith, h, q, s.1))
                  (ground arith))
          ]
    ]

-- How runcmd goes on: with nothing, or with the command that the first word names.
pub data Outcome (fuel : ℕ) (commands : List Command) (a : ℕ) (m : Bytes) (ws : List (List ℕ))
    : Type 0 where
  nothing :
      (n : Bytes)
      → runcmd fuel commands a m ≡ ok (pos 0) n
      → (length ws ≡ 0) ⊎ (15 < length ws)
      → Outcome fuel commands a m ws
  called :
      (word : ℕ) (argv : List ℕ) (n : Bytes)
      → runcmd fuel commands a m ≡ find_command fuel commands word (word ∷ argv) n
      → Named n (word ∷ argv) ws
      → length ws ≤ 15
      → Outcome fuel commands a m ws

outcome :
    (fuel : ℕ) (commands : List Command) (a : ℕ) (m n : Bytes) (argv : List ℕ) (ws : List (List ℕ))
    → split_words fuel 0 a m ≡ ok (some argv) n
    → Named n argv ws
    → length ws ≤ 15
    → Outcome fuel commands a m ws
unfolding runcmd
outcome fuel commands a m n [] [] run named few = nothing n (rw run refl) (inl refl)
outcome fuel commands a m n [] (w ∷ ws) run named few = absurd (cc named)
outcome fuel commands a m n (word ∷ argv) ws run named few =
    called word argv n (rw run refl) named few

-- For a line of which all characters are nonzero, up to its zero, runcmd with more turns than
-- characters splits it at white space: with no word or with more than 15 it returns 0, and
-- otherwise it goes on as the search of the commands does with the addresses of the words, at
-- each of which the line then holds the word and a zero behind it.
pub runcmd_lem :
    (fuel : ℕ) (commands : List Command) (a : ℕ) (m : Bytes) (cs : List ℕ)
    → Text m a cs
    → length cs < fuel
    → Outcome fuel commands a m (words cs)
unfolding runcmd
runcmd_lem fuel commands a m cs t h = elim (split_lem fuel cs 0 a m t h (omega arith)) [
  | too_many n run more ↦ nothing n (rw run refl) (inr (omega (arith, more)))
  | all_words argv n run named few before cleared ↦
      outcome fuel commands a m n argv (words cs) run named (omega (arith, few))
]
