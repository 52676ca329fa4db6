-- ===== src/ReadLine/Tests.antt =====
-- readline on a terminal where a list of characters is typed.
use kp.Base.{ℕ, ◌≡◌, ◌≤◌, refl, ap, true, some, List, [], ◌∷◌, ℤ, pos, negsuc, arith}
use kp.Run.{Run, ok, Cmd}
use kp.Strings.{Bytes}
use kp.ReadLine.{Terminal, readline}
use kp.ReadLine.Typing.{Holds, Typist, readline_lem}

-- What is going to be typed, and what was shown, the last character first.
abbrev Screen : Type 0
Screen = List ℕ × List ℕ

abbrev key_of : List ℕ → List ℕ → Run Screen ℤ
key_of [] shown = ok (negsuc 0) ([], shown)
key_of (c ∷ cs) shown = ok (pos c) (cs, shown)

abbrev next_key : Cmd Screen ℤ
next_key s = key_of s.0 s.1

abbrev scripted : Terminal Screen
scripted = record {
  getchar = next_key;
  cputchar = λ c s. ok tt (s.0, c ∷ s.1);
  iscons = λ s. ok true s;
  show_prompt = λ p s. ok tt s;
  show_error = λ e s. ok tt s;
}

abbrev Types : Screen → List ℕ → Type 0
Types s cs = s.0 ≡ cs

scripted-Typist : Typist scripted Types
scripted-Typist = record {
  read = λ s c cs e. ((cs, s.1), ap (λ l. key_of l s.1) e, refl);
  show = λ s c cs e. ((s.0, c ∷ s.1), refl, e);
  prompt = λ s p cs e. (s, refl, e);
  console = λ s cs e. (true, s, refl, e);
}

-- "hx", a backspace, "i" and a line end.
readline_lem_example :
    (b : Bytes) × (s : Screen) × (readline scripted 9
        (some 4096)
        (λ i. 0)
        (104 ∷ 120 ∷ 8 ∷ 105 ∷ 13 ∷ [], [])
      ≡ ok (some b) s)
    × Holds (105 ∷ 104 ∷ []) b
    × (b 2 ≡ 0)
    × (2 ≤ 1023)
readline_lem_example =
    readline_lem scripted Types scripted-Typist (104 ∷ 120 ∷ 8 ∷ 105 ∷ 13 ∷ []) 9 (some 4096)
      (λ i. 0) (104 ∷ 120 ∷ 8 ∷ 105 ∷ 13 ∷ [], []) (105 ∷ 104 ∷ []) refl refl (omega arith)
