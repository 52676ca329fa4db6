-- ===== src/Strings/Loops.antt =====
-- The loops of lib/string.c that run to a terminator, and the bounded copy.
use kp.Base.{
  ℕ, zero, suc, ◌+◌, ◌%◌, ◌^◌, ◌<◌, ◌≡◌, ◌≢◌, ◌↔◌, refl, ap, subst, ◌∙◌, sym, ◌==◌, false, inl, inr,
  min, Bool-cases, ==_refl, arith, pos, difference,
}
use kp.Run.{ok}
use kp.Strings.{Bytes, strlen_loop, strlen, strnlen, memcmp}

-- The string at `s` has `n` characters.
abbrev pub IsString : Bytes → ℕ → ℕ → Type 0
IsString m s n = ((i : ℕ) → i < n → (m (s + i) == 0) ≡ false) × (m (s + n) ≡ 0)

rest-IsString : (m : Bytes) (s n : ℕ) → IsString m s (suc n) → IsString m (s + 1) n
rest-IsString m s n (a, z) = (nonzero, end)
  where
    nonzero : (i : ℕ) → i < n → (m (s + 1 + i) == 0) ≡ false
    nonzero i h = let e : s + 1 + i ≡ s + (i + 1) = omega arith in rw e (a (i + 1) (omega arith))

    end : m (s + 1 + n) ≡ 0
    end = let e : s + 1 + n ≡ s + suc n = omega arith in rw e z

first : (m : Bytes) (s n : ℕ) → IsString m s n → (m s == 0) ≡ (n == 0)
first m s n (a, z) = elim (Bool-cases (n == 0)) [
  | inl e ↦ let here : s + n ≡ s = ground arith in rw e (ground (arith, ap m here))
  | inr e ↦
      let here : s + 0 ≡ s = omega arith in rw e (ground (arith, a 0 (ground arith), ap m here))
]

not_empty : (n : ℕ) → (suc n == 0) ≡ false
not_empty n = ground arith

strlen_loop_lem :
    (m : Bytes) (n fuel s k : ℕ)
    → IsString m s n
    → n < fuel
    → k + n < 2 ^ 31
    → strlen_loop fuel s k m ≡ ok (k + n) m
unfolding strlen_loop
strlen_loop_lem m n zero s k v h b = absurd (omega arith)
strlen_loop_lem m zero (suc fuel) s k v h b =
    let e : k + 0 ≡ k = omega arith in rw (first m s zero v, e) refl
strlen_loop_lem m (suc n) (suc fuel) s k v h b =
    let e : k + 1 + n ≡ k + suc n = omega arith in
    let c : (k + 1) % 2 ^ 32 ≡ k + 1 = omega arith in
    rw (first m s (suc n) v, not_empty n, c, ← e)
      (strlen_loop_lem m n fuel (s + 1) (k + 1) (rest-IsString m s n v) (omega arith) (omega arith))

-- On a string of n characters, n below 2 ^ 31, strlen returns n, in n + 1 steps.
pub strlen_lem :
    (m : Bytes) (n fuel s : ℕ) → IsString m s n → n < fuel → n < 2 ^ 31 → strlen fuel s m ≡ ok n m
unfolding strlen
strlen_lem m n fuel s v h b =
    let e : 0 + n ≡ n = omega arith in
    subst (λ k. strlen_loop fuel s 0 m ≡ ok k m) e
      (strlen_loop_lem m n fuel s 0 v h (omega (arith, b)))

-- On a string of n characters strnlen returns the smaller of n and its bound, on 32 bits.
pub strnlen_lem :
    (m : Bytes) (size n s : ℕ) → IsString m s n → strnlen s size m ≡ min n size % 2 ^ 32
unfolding strnlen
strnlen_lem m zero n s v = omega arith
strnlen_lem m (suc size) zero s v = rw (first m s zero v) (omega arith)
strnlen_lem m (suc size) (suc n) s v =
    rw (first m s (suc n) v, not_empty n)
      (omega (arith, strnlen_lem m size n (s + 1) (rest-IsString m s n v)))

difference-nonzero : (a b : ℕ) → (a == b) ≡ false → difference a b ≢ pos 0
difference-nonzero a b h = ground arith

module _ (m : Bytes) where
  unfoldable pub AgreeOn : ℕ → ℕ → ℕ → Type 0
  AgreeOn a b n = (i : ℕ) → i < n → m (a + i) ≡ m (b + i)

  first_of : (a b n : ℕ) → AgreeOn a b (suc n) → m a ≡ m b
  unfolding AgreeOn
  first_of a b n e =
      let here : a + 0 ≡ a = omega arith in
      let there : b + 0 ≡ b = omega arith in sym (ap m here) ∙ e 0 (omega arith) ∙ ap m there

  rest_of : (a b n : ℕ) → AgreeOn a b (suc n) → AgreeOn (a + 1) (b + 1) n
  unfolding AgreeOn
  rest_of a b n e i h =
      let here : a + 1 + i ≡ a + (i + 1) = omega arith in
      let there : b + 1 + i ≡ b + (i + 1) = omega arith in
      rw (here, there) (e (i + 1) (omega arith))

  extend : (a b n : ℕ) → m a ≡ m b → AgreeOn (a + 1) (b + 1) n → AgreeOn a b (suc n)
  unfolding AgreeOn
  extend a b n f e zero h =
      let here : a + 0 ≡ a = omega arith in
      let there : b + 0 ≡ b = omega arith in rw (here, there) f
  extend a b n f e (suc i) h =
      let here : a + suc i ≡ a + 1 + i = omega arith in
      let there : b + suc i ≡ b + 1 + i = omega arith in rw (here, there) (e i (omega arith))

  memcmp-AgreeOn : (n a b : ℕ) → memcmp a b n m ≡ pos 0 → AgreeOn a b n
  unfolding memcmp
  memcmp-AgreeOn zero a b e = unfold AgreeOn in λ i h. absurd (omega arith)
  memcmp-AgreeOn (suc n) a b e = elim (Bool-cases (m a == m b)) [
    | inl f ↦ extend a b n (ground arith) (memcmp-AgreeOn n (a + 1) (b + 1) (rw f at e))
    | inr f ↦ absurd (difference-nonzero (m a) (m b) f (rw f at e))
  ]

  AgreeOn-memcmp : (n a b : ℕ) → AgreeOn a b n → memcmp a b n m ≡ pos 0
  unfolding memcmp
  AgreeOn-memcmp zero a b e = refl
  AgreeOn-memcmp (suc n) a b e =
      rw (first_of a b n e, ==_refl (m b)) (AgreeOn-memcmp n (a + 1) (b + 1) (rest_of a b n e))

  -- memcmp returns 0 exactly if the two regions hold the same bytes.
  pub memcmp-zero : (n a b : ℕ) → (memcmp a b n m ≡ pos 0) ↔ AgreeOn a b n
  memcmp-zero n a b = (memcmp-AgreeOn n a b, AgreeOn-memcmp n a b)
