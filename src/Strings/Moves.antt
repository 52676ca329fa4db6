-- ===== src/Strings/Moves.antt =====
-- memmove against what it promises, byte by byte.
use kp.Base.{
  ℕ, zero, suc, ◌+◌, ◌-◌, ◌*◌, ◌/◌, ◌<◌, ◌≡◌, refl, ap, subst, ◌∙◌, sym, fun_ext, ◌==◌, leb, ltb,
  true, false, ◌&&◌, if◌then◌else◌, inl, inr, Bool-cases, arith,
}
use kp.Strings.{
  Bytes, store, movsb, movsl, movsb_down, movsl_down, copy4, memmove, memmove_plain, all_aligned,
}

-- The bytes of `m` with `n` bytes from `d` on replaced: the one at `d + i` by `f i`.
abbrev pub replaced : ℕ → ℕ → (ℕ → ℕ) → Bytes → Bytes
replaced d n f m = λ x. if leb d x && ltb x (d + n) then f (x - d) else m x

-- One byte moved at the low end, and one at the high end.
first_replaced :
    (n d s x : ℕ) (m : Bytes)
    → (ltb s d && ltb d (s + suc n)) ≡ false
    → replaced (d + 1) n (λ i. store d (m s) m (s + 1 + i)) (store d (m s) m) x
      ≡ replaced d (suc n) (λ i. m (s + i)) m x
first_replaced n d s x m h = elim (Bool-cases (leb (d + 1) x)) [
  | inl a ↦ let e : s + 1 + (x - (d + 1)) ≡ s + (x - d) = ground arith in rw e (ground arith)
  | inr a ↦ ground arith
]

last_replaced :
    (n d s x : ℕ) (m : Bytes)
    → s < d
    → replaced d n (λ i. store (d + n) (m (s + n)) m (s + i)) (store (d + n) (m (s + n)) m) x
      ≡ replaced d (suc n) (λ i. m (s + i)) m x
last_replaced n d s x m h = elim (Bool-cases (x == d + n)) [
  | inl a ↦ let e : x - d ≡ n = ground arith in rw e (ground arith)
  | inr a ↦ ground arith
]

movsb_lem :
    (n d s x : ℕ) (m : Bytes)
    → (ltb s d && ltb d (s + n)) ≡ false
    → movsb d s n m x ≡ replaced d n (λ i. m (s + i)) m x
unfolding movsb
movsb_lem zero d s x m h = ground arith
movsb_lem (suc n) d s x m h =
    movsb_lem n (d + 1) (s + 1) x (store d (m s) m) (ground arith) ∙ first_replaced n d s x m h

less_one : (a n : ℕ) → a + suc n - 1 ≡ a + n
less_one a n = omega arith

movsb_down-suc :
    (n d s : ℕ) (m : Bytes)
    → movsb_down (d + suc n) (s + suc n) (suc n) m
      ≡ movsb_down (d + n) (s + n) n (store (d + n) (m (s + n)) m)
unfolding movsb_down
movsb_down-suc n d s m = rw (less_one d n, less_one s n) refl

movsb_down_lem :
    (n d s x : ℕ) (m : Bytes)
    → s < d
    → movsb_down (d + n) (s + n) n m x ≡ replaced d n (λ i. m (s + i)) m x
movsb_down_lem zero d s x m h = unfold movsb_down in ground arith
movsb_down_lem (suc n) d s x m h =
    ap (λ (g : Bytes). g x) (movsb_down-suc n d s m)
    ∙ movsb_down_lem n d s x (store (d + n) (m (s + n)) m) h
    ∙ last_replaced n d s x m h

-- Four bytes at a time.
at_offset :
    (d s x k : ℕ) (m : Bytes)
    → k < 4
    → (x == d + k) ≡ true
    → m (s + k) ≡ replaced d 4 (λ i. m (s + i)) m x
at_offset d s x k m h a = let e : x - d ≡ k = ground arith in rw e (ground arith)

copy4_at : (d s x : ℕ) (m : Bytes) → copy4 d s m x ≡ replaced d 4 (λ i. m (s + i)) m x
copy4_at d s x m = elim (Bool-cases (x == d + 3)) [
  | inl a ↦ rw a (at_offset d s x 3 m (omega arith) a)
  | inr a ↦ rw a (elim (Bool-cases (x == d + 2)) [
    | inl b ↦ rw b (at_offset d s x 2 m (omega arith) b)
    | inr b ↦ rw b (elim (Bool-cases (x == d + 1)) [
      | inl c ↦ rw c (at_offset d s x 1 m (omega arith) c)
      | inr c ↦
          rw c (elim (Bool-cases (x == d)) [ inl z ↦ rw z (here z) | inr z ↦ rw z (ground arith) ])
    ])
  ])
]
  where
    here : (x == d) ≡ true → m s ≡ replaced d 4 (λ i. m (s + i)) m x
    here z = let e : x - d ≡ 0 = ground arith in rw e (ground arith)

first_four :
    (n d s x : ℕ) (m : Bytes)
    → (ltb s d && ltb d (s + 4 * suc n)) ≡ false
    → replaced (d + 4) (4 * n) (λ i. copy4 d s m (s + 4 + i)) (copy4 d s m) x
      ≡ replaced d (4 * suc n) (λ i. m (s + i)) m x
first_four n d s x m h = elim (Bool-cases (leb (d + 4) x)) [
  | inl a ↦
      let e : s + 4 + (x - (d + 4)) ≡ s + (x - d) = ground arith in
      rw (e, copy4_at d s (s + (x - d)) m, copy4_at d s x m) (ground arith)
  | inr a ↦ rw (copy4_at d s x m) (ground arith)
]

last_four :
    (n d s x : ℕ) (m : Bytes)
    → s < d
    → replaced d
        (4 * n)
        (λ i. copy4 (d + 4 * n) (s + 4 * n) m (s + i))
        (copy4 (d + 4 * n) (s + 4 * n) m)
        x
      ≡ replaced d (4 * suc n) (λ i. m (s + i)) m x
last_four n d s x m h = elim (Bool-cases (leb (d + 4 * n) x)) [
  | inl a ↦
      let e : s + 4 * n + (x - (d + 4 * n)) ≡ s + (x - d) = ground arith in
      rw (copy4_at (d + 4 * n) (s + 4 * n) x m, e) (ground arith)
  | inr a ↦
      rw (copy4_at (d + 4 * n) (s + 4 * n) x m, copy4_at (d + 4 * n) (s + 4 * n) (s + (x - d)) m)
        (ground arith)
]

movsl_lem :
    (n d s x : ℕ) (m : Bytes)
    → (ltb s d && ltb d (s + 4 * n)) ≡ false
    → movsl d s n m x ≡ replaced d (4 * n) (λ i. m (s + i)) m x
unfolding movsl
movsl_lem zero d s x m h = ground arith
movsl_lem (suc n) d s x m h =
    movsl_lem n (d + 4) (s + 4) x (copy4 d s m) (ground arith) ∙ first_four n d s x m h

less_four : (a n : ℕ) → a + 4 * suc n - 4 ≡ a + 4 * n
less_four a n = omega arith

movsl_down-suc :
    (n d s : ℕ) (m : Bytes)
    → movsl_down (d + 4 * suc n) (s + 4 * suc n) (suc n) m
      ≡ movsl_down (d + 4 * n) (s + 4 * n) n (copy4 (d + 4 * n) (s + 4 * n) m)
unfolding movsl_down
movsl_down-suc n d s m = rw (less_four d n, less_four s n) refl

movsl_down_lem :
    (n d s x : ℕ) (m : Bytes)
    → s < d
    → movsl_down (d + 4 * n) (s + 4 * n) n m x ≡ replaced d (4 * n) (λ i. m (s + i)) m x
movsl_down_lem zero d s x m h = unfold movsl_down in ground arith
movsl_down_lem (suc n) d s x m h =
    ap (λ (g : Bytes). g x) (movsl_down-suc n d s m)
    ∙ movsl_down_lem n d s x (copy4 (d + 4 * n) (s + 4 * n) m) h
    ∙ last_four n d s x m h

-- The two branches of memmove.
downwards :
    (d s n x : ℕ) (m : Bytes)
    → (ltb s d && ltb d (s + n)) ≡ true
    → memmove d s n m x ≡ replaced d n (λ i. m (s + i)) m x
unfolding memmove
downwards d s n x m a = elim (Bool-cases (all_aligned (d + n) (s + n) n)) [
  | inl b ↦
      let e : 4 * (n / 4) ≡ n = ground arith in
      rw (a, b)
        (subst (λ k. movsl_down (d + k) (s + k) (n / 4) m x ≡ replaced d k (λ i. m (s + i)) m x) e
          (movsl_down_lem (n / 4) d s x m (ground arith)))
  | inr b ↦ rw (a, b) (movsb_down_lem n d s x m (ground arith))
]

upwards :
    (d s n x : ℕ) (m : Bytes)
    → (ltb s d && ltb d (s + n)) ≡ false
    → memmove d s n m x ≡ replaced d n (λ i. m (s + i)) m x
unfolding memmove
upwards d s n x m a = elim (Bool-cases (all_aligned d s n)) [
  | inl b ↦
      let e : 4 * (n / 4) ≡ n = ground arith in
      rw (a, b)
        (subst (λ k. movsl d s (n / 4) m x ≡ replaced d k (λ i. m (s + i)) m x) e
          (movsl_lem (n / 4) d s x m (rw e a)))
  | inr b ↦ rw (a, b) (movsb_lem n d s x m a)
]

-- memmove leaves at each address of the destination range the byte that was at the corresponding
-- address of the source, also where the two overlap, and every other byte as it was.
pub memmove_lem : (d s n x : ℕ) (m : Bytes) → memmove d s n m x ≡ replaced d n (λ i. m (s + i)) m x
memmove_lem d s n x m = elim (Bool-cases (ltb s d && ltb d (s + n))) [
  | inl a ↦ downwards d s n x m a
  | inr a ↦ upwards d s n x m a
]

-- The version without assembly does the same.
plain_lem : (d s n x : ℕ) (m : Bytes) → memmove_plain d s n m x ≡ replaced d n (λ i. m (s + i)) m x
unfolding memmove_plain
plain_lem d s n x m = elim (Bool-cases (ltb s d && ltb d (s + n))) [
  | inl a ↦ rw a (movsb_down_lem n d s x m (ground arith))
  | inr a ↦ rw a (movsb_lem n d s x m a)
]

-- The memmove with string instructions and the memmove with byte loops leave the same memory.
pub memmove-memmove_plain : (d s n : ℕ) (m : Bytes) → memmove d s n m ≡ memmove_plain d s n m
memmove-memmove_plain d s n m = fun_ext λ x. memmove_lem d s n x m ∙ sym (plain_lem d s n x m)
