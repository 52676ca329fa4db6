-- ===== src/Strings/Fill.antt =====
-- memset against what it promises, byte by byte.
use kp.Base.{
  ℕ, zero, suc, ◌+◌, ◌*◌, ◌/◌, ◌%◌, ◌^◌, ◌<◌, ◌≡◌, refl, subst, ◌∙◌, ◌==◌, ◌&&◌, inl, inr,
  Bool-cases, arith, bit_or, bit_or-div, bit_or-mod, bit_or-zero, zero-bit_or,
}
use kp.Strings.{Bytes, store, stosb, stosl, store4, four_times, memset}
use kp.Strings.Moves.{replaced}

stosb_lem : (n p a x : ℕ) (m : Bytes) → stosb p a n m x ≡ replaced p n (λ _. a % 256) m x
unfolding stosb
stosb_lem zero p a x m = ground arith
stosb_lem (suc n) p a x m = ground (arith, stosb_lem n (p + 1) a x (store p (a % 256) m))

-- The bytes of (c<<24)|(c<<16)|(c<<8)|c.
byte_of_four :
    (a b c d k : ℕ)
    → bit_or (bit_or (bit_or a b) c) d / 2 ^ k % 2 ^ 8
      ≡ bit_or
          (bit_or (bit_or (a / 2 ^ k % 2 ^ 8) (b / 2 ^ k % 2 ^ 8)) (c / 2 ^ k % 2 ^ 8))
          (d / 2 ^ k % 2 ^ 8)
byte_of_four a b c d k =
    rw (bit_or-div k (bit_or (bit_or a b) c) d, bit_or-div k (bit_or a b) c, bit_or-div k a b)
      (rw
        (
          bit_or-mod 8 (bit_or (bit_or (a / 2 ^ k) (b / 2 ^ k)) (c / 2 ^ k)) (d / 2 ^ k),
          bit_or-mod 8 (bit_or (a / 2 ^ k) (b / 2 ^ k)) (c / 2 ^ k),
          bit_or-mod 8 (a / 2 ^ k) (b / 2 ^ k),
        )
        refl)

whole : (x : ℕ) → x % 256 ≡ x / 2 ^ 0 % 2 ^ 8
whole x = omega arith

module _ (c : ℕ) (h : c < 256) where
  byte_zero : four_times c % 256 ≡ c
  unfolding four_times
  byte_zero =
      let a : c * 2 ^ 24 / 2 ^ 0 % 2 ^ 8 ≡ 0 = omega arith in
      let b : c * 2 ^ 16 / 2 ^ 0 % 2 ^ 8 ≡ 0 = omega arith in
      let d : c * 2 ^ 8 / 2 ^ 0 % 2 ^ 8 ≡ 0 = omega arith in
      let e : c / 2 ^ 0 % 2 ^ 8 ≡ c = omega arith in
      whole (four_times c)
      ∙ byte_of_four (c * 2 ^ 24) (c * 2 ^ 16) (c * 2 ^ 8) c 0
      ∙ rw (a, b, d, e) (simp (bit_or-zero, zero-bit_or))

  byte_one : four_times c / 2 ^ 8 % 256 ≡ c
  unfolding four_times
  byte_one =
      let a : c * 2 ^ 24 / 2 ^ 8 % 2 ^ 8 ≡ 0 = omega arith in
      let b : c * 2 ^ 16 / 2 ^ 8 % 2 ^ 8 ≡ 0 = omega arith in
      let d : c * 2 ^ 8 / 2 ^ 8 % 2 ^ 8 ≡ c = omega arith in
      let e : c / 2 ^ 8 % 2 ^ 8 ≡ 0 = omega arith in
      byte_of_four (c * 2 ^ 24) (c * 2 ^ 16) (c * 2 ^ 8) c 8
      ∙ rw (a, b, d, e) (simp (bit_or-zero, zero-bit_or))

  byte_two : four_times c / 2 ^ 16 % 256 ≡ c
  unfolding four_times
  byte_two =
      let a : c * 2 ^ 24 / 2 ^ 16 % 2 ^ 8 ≡ 0 = omega arith in
      let b : c * 2 ^ 16 / 2 ^ 16 % 2 ^ 8 ≡ c = omega arith in
      let d : c * 2 ^ 8 / 2 ^ 16 % 2 ^ 8 ≡ 0 = omega arith in
      let e : c / 2 ^ 16 % 2 ^ 8 ≡ 0 = omega arith in
      byte_of_four (c * 2 ^ 24) (c * 2 ^ 16) (c * 2 ^ 8) c 16
      ∙ rw (a, b, d, e) (simp (bit_or-zero, zero-bit_or))

  byte_three : four_times c / 2 ^ 24 % 256 ≡ c
  unfolding four_times
  byte_three =
      let a : c * 2 ^ 24 / 2 ^ 24 % 2 ^ 8 ≡ c = omega arith in
      let b : c * 2 ^ 16 / 2 ^ 24 % 2 ^ 8 ≡ 0 = omega arith in
      let d : c * 2 ^ 8 / 2 ^ 24 % 2 ^ 8 ≡ 0 = omega arith in
      let e : c / 2 ^ 24 % 2 ^ 8 ≡ 0 = omega arith in
      byte_of_four (c * 2 ^ 24) (c * 2 ^ 16) (c * 2 ^ 8) c 24 ∙ rw (a, b, d, e) (simp bit_or-zero)

stosl_lem :
    (n p c x : ℕ) (m : Bytes)
    → c < 256
    → stosl p (four_times c) n m x ≡ replaced p (4 * n) (λ _. c) m x
unfolding stosl
stosl_lem zero p c x m h = ground arith
stosl_lem (suc n) p c x m h =
    rw (byte_zero c h, byte_one c h, byte_two c h, byte_three c h)
      (ground (arith, stosl_lem n (p + 4) c x (store4 p c c c c m) h))

-- memset leaves the low byte of c at each of the n addresses from v on, also where it stores
-- four bytes at a time, and every other byte as it was.
pub memset_lem : (v c n x : ℕ) (m : Bytes) → memset v c n m x ≡ replaced v n (λ _. c % 256) m x
unfolding memset
memset_lem v c n x m = elim (Bool-cases (n == 0)) [
  | inl z ↦ rw z (ground arith)
  | inr z ↦ rw z (elim (Bool-cases (v % 4 == 0 && n % 4 == 0)) [
    | inl b ↦
        let e : 4 * (n / 4) ≡ n = ground arith in
        rw b (
          subst (λ k. stosl v (four_times (c % 256)) (n / 4) m x ≡ replaced v k (λ _. c % 256) m x)
            e (stosl_lem (n / 4) v (c % 256) x m (omega arith)))
    | inr b ↦ rw b (stosb_lem n v c x m)
  ])
]
