-- ===== src/ReadLine/Typing.antt =====
-- readline returns the line that was typed.
use kp.Base.{
  ℕ, zero, suc, ◌+◌, ◌-◌, ◌%◌, ◌≤◌, ◌≡◌, refl, sym, ap, subst, ◌∙◌, ◌==◌, leb, ltb, Bool, true,
  false, ◌&&◌, ◌||◌, inl, inr, Option, none, some, List, [], ◌∷◌, pos, arith, Bool-cases,
}
use kp.Run.{ok, Cmd}
use kp.Strings.{Bytes, store}
use kp.Pages.FreeList.Lists.{length}
use kp.ReadLine.{Terminal, Edited, edit, echo_char, after_edit, readline_loop, readline}
use kp.ReadLine.Line.{typed, line_of}

-- The buffer holds the characters, the last one first in the list.
abbrev pub Holds : List ℕ → Bytes → Type 0
Holds [] buf = Unit
Holds (l ∷ ls) buf = (buf (length ls) ≡ l) × Holds ls buf

Holds-store :
    (ls : List ℕ) (buf : Bytes) (i c : ℕ) → length ls ≤ i → Holds ls buf → Holds ls (store i c buf)
Holds-store [] buf i c h k = tt
Holds-store (l ∷ ls) buf i c h k =
    let e : (length ls == i) ≡ false = ground arith in
    (rw e k.0, Holds-store ls buf i c (omega (arith, h)) k.1)

module _ (c i : ℕ) (buf : Bytes) where
  edit_erase :
      ((c == 8 || c == 127) && ltb 0 i) ≡ true
      → edit c i buf ≡ record { echo = some 8; index = i - 1; chars = buf; is_done = false }
  unfolding edit
  edit_erase a = rw (edit, a) refl

  edit_add :
      ((c == 8 || c == 127) && ltb 0 i) ≡ false
      → (leb 32 c && ltb i 1023) ≡ true
      → edit c i buf
        ≡ record { echo = some c; index = i + 1; chars = store i (c % 256) buf; is_done = false }
  unfolding edit
  edit_add a b = rw (edit, a, b) refl

  edit_skip :
      ((c == 8 || c == 127) && ltb 0 i) ≡ false
      → (leb 32 c && ltb i 1023) ≡ false
      → (c == 10 || c == 13) ≡ false
      → edit c i buf ≡ record { echo = none; index = i; chars = buf; is_done = false }
  unfolding edit
  edit_skip a b d = rw (edit, a, b, d) refl

  edit_end :
      (c == 10 || c == 13) ≡ true
      → edit c i buf ≡ record { echo = some 10; index = i; chars = store i 0 buf; is_done = true }
  unfolding edit
  edit_end d =
      let a : ((c == 8 || c == 127) && ltb 0 i) ≡ false = ground arith in
      let b : (leb 32 c && ltb i 1023) ≡ false = ground arith in rw (edit, a, b, d) refl

some_injective : (a b : List ℕ) → some a ≡ some b → a ≡ b
some_injective a b e = cc e

-- What an edit has to leave for the list to describe it.
Describes : List ℕ → Edited → Type 0
Describes ls e = (e.is_done ≡ false) × (e.index ≡ length ls) × (length ls ≤ 1023) × Holds ls e.chars

edit-typed :
    (c : ℕ) (ls : List ℕ) (buf : Bytes)
    → (c == 10 || c == 13) ≡ false
    → length ls ≤ 1023
    → Holds ls buf
    → Describes (typed c ls) (edit c (length ls) buf)
unfolding Describes
edit-typed c [] buf e h k =
    let a : ((c == 8 || c == 127) && ltb 0 0) ≡ false = ground arith in
    elim (Bool-cases (leb 32 c)) [
      | inl p ↦ rw (p, edit_add c 0 buf a (ground arith)) (refl, refl, omega arith, (refl, tt))
      | inr p ↦ rw (p, edit_skip c 0 buf a (ground arith) e) (refl, refl, omega arith, tt)
    ]
edit-typed c (l ∷ ls) buf e h k = elim (Bool-cases (c == 8 || c == 127)) [
  | inl p ↦
      rw (p, edit_erase c (suc (length ls)) buf (ground arith))
        (refl, omega arith, omega arith, k.1)
  | inr p ↦ elim (Bool-cases (leb 32 c && ltb (suc (length ls)) 1023)) [
    | inl q ↦
        rw (p, q, edit_add c (suc (length ls)) buf (ground arith) q)
          (
            refl,
            omega arith,
            ground arith,
            (ground arith, Holds-store (l ∷ ls) buf (suc (length ls)) (c % 256) (omega arith) k),
          )
    | inr q ↦ rw (p, q, edit_skip c (suc (length ls)) buf (ground arith) q e) (refl, refl, h, k)
  ]
]

-- A terminal on which characters are going to be typed.
pub record Typist {S : Type 0} (t : Terminal S) (Types : S → List ℕ → Type 0) : Type 0 where
  pub read :
      (s : S) (c : ℕ) (cs : List ℕ)
      → Types s (c ∷ cs)
      → (s' : S) × (t.getchar s ≡ ok (pos c) s') × Types s' cs
  pub show :
      (s : S) (c : ℕ) (cs : List ℕ)
      → Types s cs
      → (s' : S) × (t.cputchar c s ≡ ok tt s') × Types s' cs
  pub prompt :
      (s : S) (p : ℕ) (cs : List ℕ)
      → Types s cs
      → (s' : S) × (t.show_prompt p s ≡ ok tt s') × Types s' cs
  pub console :
      (s : S) (cs : List ℕ)
      → Types s cs
      → (b : Bool) × (s' : S) × (t.iscons s ≡ ok b s') × Types s' cs

module _ {S : Type 0} (t : Terminal S) (Types : S → List ℕ → Type 0) (typist : Typist t Types) where
  echo_char_lem :
      (echoing : Bool) (o : Option ℕ) (s : S) (cs : List ℕ)
      → Types s cs
      → (s' : S) × (echo_char t echoing o s ≡ ok tt s') × Types s' cs
  unfolding echo_char
  echo_char_lem echoing none s cs k = (s, refl, k)
  echo_char_lem true (some c) s cs k = typist.show s c cs k
  echo_char_lem false (some c) s cs k = (s, refl, k)

  after_edit_done :
      (echoing : Bool) (e : Edited) (rest : Cmd S (Option Bytes)) (s : S) (cs : List ℕ)
      → Types s cs
      → e.is_done ≡ true
      → (s' : S) × (after_edit t echoing e rest s ≡ ok (some e.chars) s') × Types s' cs
  unfolding after_edit
  after_edit_done echoing e rest s cs k d =
      let (s', shown, k') = echo_char_lem echoing e.echo s cs k in (s', rw (shown, d) refl, k')

  after_edit_more :
      (echoing : Bool) (e : Edited) (rest : Cmd S (Option Bytes)) (s : S) (cs : List ℕ)
      → Types s cs
      → e.is_done ≡ false
      → (s' : S) × (after_edit t echoing e rest s ≡ rest s') × Types s' cs
  unfolding after_edit
  after_edit_more echoing e rest s cs k d =
      let (s', shown, k') = echo_char_lem echoing e.echo s cs k in (s', rw (shown, d) refl, k')

  readline_loop_lem :
      (cs : List ℕ) (fuel : ℕ) (echoing : Bool) (ls : List ℕ) (buf : Bytes) (s : S) (line : List ℕ)
      → Types s cs
      → line_of cs ls ≡ some line
      → length cs ≤ fuel
      → length ls ≤ 1023
      → Holds ls buf
      → (b : Bytes) × (s' : S) × (readline_loop t fuel echoing (length ls) buf s ≡ ok (some b) s')
        × Holds line b
        × (b (length line) ≡ 0)
        × (length line ≤ 1023)
  unfolding readline_loop Describes
  readline_loop_lem [] fuel echoing ls buf s line k e f h held = absurd (cc e)
  readline_loop_lem (c ∷ cs) zero echoing ls buf s line k e f h held = absurd (omega (arith, f))
  readline_loop_lem (c ∷ cs) (suc fuel) echoing ls buf s line k e f h held =
      let (s1, got, k1) = typist.read s c cs k in
      elim (Bool-cases (c == 10 || c == 13)) [
        | inl d ↦
            let w = edit_end c (length ls) buf d in
            let same : ls ≡ line = some_injective ls line (sym (rw d refl) ∙ e) in
            let (s2, shown, k2) =
              after_edit_done echoing (edit c (length ls) buf)
                (readline_loop t fuel echoing (edit c (length ls) buf).index
                  (edit c (length ls) buf).chars)
                s1 cs k1 (rw w refl) in
            (
              (edit c (length ls) buf).chars,
              s2,
              rw got shown,
              subst (λ l. Holds l (edit c (length ls) buf).chars) same
                  (rw w (Holds-store ls buf (length ls) 0 (omega arith) held)),
              subst (λ l. (edit c (length ls) buf).chars (length l) ≡ 0) same (rw w (ground arith)),
              subst (λ l. length l ≤ 1023) same h,
            )
        | inr d ↦
            let p = edit-typed c ls buf d h held in
            let (s2, shown, k2) =
              after_edit_more echoing (edit c (length ls) buf)
                (readline_loop t fuel echoing (edit c (length ls) buf).index
                  (edit c (length ls) buf).chars)
                s1 cs k1 p.0 in
            let r =
              readline_loop_lem cs fuel echoing (typed c ls) (edit c (length ls) buf).chars s2 line
                k2 (sym (rw d refl) ∙ e) (omega (arith, f)) p.2 p.3 in
            (
              r.0,
              r.1,
              rw (got, shown)
                  (ap (λ i. readline_loop t fuel echoing i (edit c (length ls) buf).chars s2) p.1
                    ∙ r.2),
              r.3,
              r.4,
              r.5,
            )
      ]

  -- On a terminal whose operations succeed and that is going to deliver the characters cs,
  -- readline returns within one turn for each character, if editing cs gives a line: backspace
  -- and delete take the last character back, characters from 32 on are added up to 1023, others
  -- are ignored, and a line feed or a carriage return ends the line. The buffer then holds the
  -- line and a zero after it, at most at index 1023.
  pub readline_lem :
      (cs : List ℕ) (fuel : ℕ) (prompt : Option ℕ) (buf : Bytes) (s : S) (line : List ℕ)
      → Types s cs
      → line_of cs [] ≡ some line
      → length cs ≤ fuel
      → (b : Bytes) × (s' : S) × (readline t fuel prompt buf s ≡ ok (some b) s')
        × Holds line b
        × (b (length line) ≡ 0)
        × (length line ≤ 1023)
  unfolding readline
  readline_lem cs fuel none buf s line k e f =
      let (echoing, s1, asked, k1) = typist.console s cs k in
      let r = readline_loop_lem cs fuel echoing [] buf s1 line k1 e f (omega arith) tt in
      (r.0, r.1, rw asked r.2, r.3, r.4, r.5)
  readline_lem cs fuel (some p) buf s line k e f =
      let (s0, prompted, k0) = typist.prompt s p cs k in
      let (echoing, s1, asked, k1) = typist.console s0 cs k0 in
      let r = readline_loop_lem cs fuel echoing [] buf s1 line k1 e f (omega arith) tt in
      (r.0, r.1, rw (prompted, asked) r.2, r.3, r.4, r.5)
