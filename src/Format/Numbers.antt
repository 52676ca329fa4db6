-- ===== src/Format/Numbers.antt =====
-- printnum prints the digits of the number, most significant first, behind the padding.
use kp.Base.{
  ℕ, zero, suc, ◌+◌, ◌-◌, ◌*◌, ◌/◌, ◌%◌, ◌^◌, ◌<◌, ◌≤◌, ◌≡◌, ◌⊎◌, refl, ◌∙◌, ap, leb, ltb,
  if◌then◌else◌, true, false, inl, inr, some, List, [], ◌∷◌, ◌++◌, ℤ, pos, negsuc, arith,
  Bool-cases,
}
use native.Mathlib.Nat.{
  pow-succ', pow-zero, div-add-mod', mod-lt, mod-eq_of_lt, div-lt_iff_lt-mul, le-div_iff_mul-le,
}
use kp.Pages.FreeList.Lists.{length}
use kp.Format.{printnum, decrement, rounds, repeat, digit_char}

-- `width - n`
abbrev pub minus : ℤ → ℕ → ℤ
minus (pos a) n = if leb n a then pos (a - n) else negsuc (n - a - 1)
minus (negsuc a) n = negsuc (a + n)

-- What a character is worth as a digit, read back by the ranges '0' to '9' and 'a' to 'f'.
abbrev pub digit_value : ℕ → ℕ
digit_value c = if leb c 57 then c - 48 else c - 97 + 10

abbrev pub IsDigit : ℕ → ℕ → Type 0
IsDigit base c = (((48 ≤ c) × (c ≤ 57)) ⊎ ((97 ≤ c) × (c ≤ 102))) × (digit_value c < base)

abbrev pub AllDigits : ℕ → List ℕ → Type 0
AllDigits base [] = Unit
AllDigits base (c ∷ cs) = IsDigit base c × AllDigits base cs

-- The number that characters stand for, after those that stand for `n`.
abbrev pub value : ℕ → ℕ → List ℕ → ℕ
value base n [] = n
value base n (c ∷ cs) = value base (n * base + digit_value c) cs

digit_char_lem :
    (base d : ℕ)
    → base ≤ 16
    → d < base
    → (c : ℕ) × (digit_char d ≡ some c) × (digit_value c ≡ d) × IsDigit base c
unfolding digit_char
digit_char_lem base d b h = elim (Bool-cases (ltb d 10)) [
  | inl small ↦
      (48 + d, rw small refl, ground arith, (inl (omega arith, ground arith), ground arith))
  | inr large ↦
      let low : ltb d 16 ≡ true = ground arith in
      (
        87 + d,
        rw (large, low) refl,
        ground arith,
        (inr (ground arith, omega (arith, b, h)), ground arith),
      )
]

value-append :
    (base n c : ℕ) (cs : List ℕ)
    → value base n (cs ++ (c ∷ [])) ≡ value base n cs * base + digit_value c
value-append base n c [] = refl
value-append base n c (x ∷ cs) = value-append base (n * base + digit_value x) c cs

AllDigits-append :
    (base c : ℕ) (cs : List ℕ)
    → AllDigits base cs
    → IsDigit base c
    → AllDigits base (cs ++ (c ∷ []))
AllDigits-append base c [] h l = (l, tt)
AllDigits-append base c (x ∷ cs) h l = (h.0, AllDigits-append base c cs h.1 l)

length-append : (c : ℕ) (cs : List ℕ) → length (cs ++ (c ∷ [])) ≡ length cs + 1
length-append c [] = omega arith
length-append c (x ∷ cs) = omega (arith, length-append c cs)

append_assoc : (xs ys zs : List ℕ) → (xs ++ ys) ++ zs ≡ xs ++ (ys ++ zs)
append_assoc [] ys zs = refl
append_assoc (x ∷ xs) ys zs = ap (λ l. x ∷ l) (append_assoc xs ys zs)

minus-decrement : (w : ℤ) (n : ℕ) → rounds (minus (decrement w) n) ≡ rounds (minus w (n + 1))
minus-decrement (pos zero) n = ground arith
minus-decrement (pos (suc k)) n = ground arith
minus-decrement (negsuc k) n = ground arith

minus_one : (w : ℤ) → rounds (decrement w) ≡ rounds (minus w 1)
minus_one (pos zero) = ground arith
minus_one (pos (suc k)) = ground arith
minus_one (negsuc k) = ground arith

module _ (base : ℕ) (b : 2 ≤ base) where
  less : (num p : ℕ) → num < base * p → num / base < p
  less num p h = (div-lt_iff_lt-mul (omega arith)).1 (omega arith)

  more : (num p : ℕ) → p ≤ num / base → base * p ≤ num
  more num p h = omega (arith, (le-div_iff_mul-le {k = base} {x = p} {y = num} (omega arith)).0 h)

-- The characters are digits that stand for `num`, as few as there can be.
pub record Numeral (base num : ℕ) (cs : List ℕ) : Type 0 where
  pub same_value : value base 0 cs ≡ num
  pub digits : AllDigits base cs
  pub shortest : (length cs ≡ 1) ⊎ ((2 ≤ length cs) × (base ^ (length cs - 1) ≤ num))

leb→le : (a b : ℕ) → leb a b ≡ true → a ≤ b
leb→le a b h = ground arith

not_leb : (a b : ℕ) → leb a b ≡ false → b < a
not_leb a b h = ground arith

one_digit : (base num c : ℕ) → digit_value c ≡ num → IsDigit base c → Numeral base num (c ∷ [])
one_digit base num c e v = record {
  same_value = omega (arith, e);
  digits = (v, tt);
  shortest = inl refl;
}

next_digit :
    (base num c : ℕ) (cs : List ℕ)
    → 2 ≤ base
    → base ≤ num
    → digit_value c ≡ num % base
    → IsDigit base c
    → Numeral base (num / base) cs
    → Numeral base num (cs ++ (c ∷ []))
next_digit base num c cs b h e d v = record {
  same_value =
      value-append base 0 c cs
      ∙ ap (λ q. q * base + digit_value c) v.same_value
      ∙ ap (λ r. num / base * base + r) e
      ∙ div-add-mod' num base;
  digits = AllDigits-append base c cs v.digits d;
  shortest = inr (rw (length-append c cs) (long v.shortest));
}
  where
    long :
        (length cs ≡ 1) ⊎ ((2 ≤ length cs) × (base ^ (length cs - 1) ≤ num / base))
        → (2 ≤ length cs + 1) × (base ^ (length cs + 1 - 1) ≤ num)
    long (inl e) =
        let k : length cs + 1 - 1 ≡ 1 = omega (arith, e) in
        (
          omega (arith, e),
          rw k (omega (arith, h, pow-succ' base 0, ap (λ (z : ℕ). base * z) (pow-zero base))),
        )
    long (inr (l, p)) =
        let k : length cs + 1 - 1 ≡ suc (length cs - 1) = omega (arith, l) in
        (
          omega (arith, l),
          rw (k, pow-succ' base (length cs - 1)) (more base b num (base ^ (length cs - 1)) p),
        )

-- The digits and the padding of one more round.
longer :
    (width : ℤ) (padc c : ℕ) (cs : List ℕ)
    → (repeat (rounds (minus (decrement width) (length cs))) padc ++ cs) ++ (c ∷ [])
      ≡ repeat (rounds (minus width (length (cs ++ (c ∷ []))))) padc ++ (cs ++ (c ∷ []))
longer width padc c cs =
    rw (length-append c cs, minus-decrement width (length cs))
      (append_assoc (repeat (rounds (minus width (length cs + 1))) padc) cs (c ∷ []))

-- For a base from 2 to 16 and enough turns for the number's digits, printnum prints the padding
-- that the width leaves and then characters from '0' to '9' and 'a' to 'f' that, read back as
-- digits of the base, the most significant first, give the number, and no fewer characters would
-- do.
pub printnum_lem :
    (fuel num base : ℕ) (width : ℤ) (padc : ℕ)
    → 2 ≤ base
    → base ≤ 16
    → num < base ^ fuel
    → 0 < fuel
    → (cs : List ℕ) × (printnum fuel num base width padc
        ≡ some (repeat (rounds (minus width (length cs))) padc ++ cs))
      × Numeral base num cs
unfolding printnum
printnum_lem zero num base width padc b t h f = absurd (omega arith)
printnum_lem (suc fuel) num base width padc b t h f =
    let (c, char, worth, digit) = digit_char_lem base (num % base) t (mod-lt num (omega arith)) in
    elim (Bool-cases (leb base num)) [
      | inl big ↦
          let bound : num / base < base ^ fuel =
            less base b num (base ^ fuel) (rw (← pow-succ' base fuel) h) in
          let (cs, run, v) =
            printnum_lem fuel (num / base) base (decrement width) padc b t bound
              (enough fuel bound big) in
          (
            cs ++ (c ∷ []),
            rw (big, run, char) (ap some (longer width padc c cs)),
            next_digit base num c cs b (leb→le base num big) worth digit v,
          )
      | inr small ↦ (
        c ∷ [],
        rw (small, char, minus_one width) refl,
        one_digit base num c (worth ∙ mod-eq_of_lt (not_leb base num small)) digit,
      )
    ]
  where
    enough : (k : ℕ) → num / base < base ^ k → leb base num ≡ true → 0 < k
    enough zero l g = ground (
      arith,
      (div-lt_iff_lt-mul {k = base} {x = num} {y = 1} (omega arith)).0
          (omega (arith, l, pow-zero base)),
    )
    enough (suc k) l g = omega arith
