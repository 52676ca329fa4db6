-- ===== src/Run.antt =====
-- What a kernel function does to the state: it returns, it panics, it performs an access that C
-- leaves undefined (a null pointer, an index past an array), or the model's loop bound is spent.

use kp.Base.{◌≡◌, refl}

pub data Run (S A : Type 0) : Type 0 where
  ok : A → S → Run S A
  panic : Run S A
  fault : Run S A
  out_of_fuel : Run S A

abbrev pub Cmd : Type 0 → Type 0 → Type 0
Cmd S A = S → Run S A

abbrev pub pure : {S A : Type 0} → A → Cmd S A
pure a s = ok a s

abbrev pub get : {S : Type 0} → Cmd S S
get s = ok s s

abbrev pub put : {S : Type 0} → S → Cmd S (Unit {0})
put t s = ok tt t

module _ {S A B : Type 0} where
  abbrev pub and_then : Run S A → (A → Cmd S B) → Run S B
  and_then (ok a s) k = k a s
  and_then panic k = panic
  and_then fault k = fault
  and_then out_of_fuel k = out_of_fuel

  infixl 5 ◌>>=◌ ◌>>◌
  abbrev pub ◌>>=◌ : Cmd S A → (A → Cmd S B) → Cmd S B
  m >>= k = λ s. and_then (m s) k

  abbrev pub ◌>>◌ : Cmd S A → Cmd S B → Cmd S B
  m >> n = m >>= λ _. n

  -- A bind that returns has a first part that returns.
  pub and_then-ok :
      (r : Run S A) (k : A → Cmd S B) {b : B} {t : S}
      → and_then r k ≡ ok b t
      → (a : A) × (s : S) × (r ≡ ok a s) × (k a s ≡ ok b t)
  and_then-ok (ok a s) k e = (a, s, refl, e)
  and_then-ok panic k e = cc
  and_then-ok fault k e = cc
  and_then-ok out_of_fuel k e = cc
