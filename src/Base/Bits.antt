-- ===== src/Base/Bits.antt =====
-- The bit operations at variables, digit by digit: how `|` meets shifts and single bits.
use Prim.Native.Nat.{ℕ, zero, suc, ◌+◌, ◌*◌, ◌/◌, ◌%◌, ◌^◌, ◌≤◌, max}
use Prim.Native.Nat.{bit_or, digits, bit_or-bitwise}
use mathlib.Core.Path.{◌≡◌, refl, ap}
use native.Mathlib.Omega.{arith}
use native.Mathlib.Nat.{
  pow-succ', div-div-eq-div-mul, div-one, mod-one, mod-eq-sub-mul-div, div-add-mod,
}

abbrev or_digits : ℕ → ℕ → ℕ → ℕ
or_digits n a b = digits (λ b. b) max n a b

-- Fuel beyond the value changes nothing.
or_digits_fuel : (n m a b : ℕ) → a ≤ n → a ≤ m → or_digits n a b ≡ or_digits m a b
or_digits_fuel zero zero a b p q = refl
or_digits_fuel zero (suc m) zero b p q = refl
or_digits_fuel zero (suc m) (suc a) b p q = absurd (omega arith)
or_digits_fuel (suc n) zero zero b p q = refl
or_digits_fuel (suc n) zero (suc a) b p q = absurd (omega arith)
or_digits_fuel (suc n) (suc m) zero b p q = refl
or_digits_fuel (suc n) (suc m) (suc a) b p q =
    omega (arith, or_digits_fuel n m (suc a / 2) (b / 2) (omega arith) (omega arith))

pub zero-bit_or : (b : ℕ) → bit_or 0 b ≡ b
zero-bit_or b = bit_or-bitwise 0 b

bit_or_digit : (a b : ℕ) → bit_or a b ≡ bit_or (a / 2) (b / 2) * 2 + max (a % 2) (b % 2)
bit_or_digit zero b = omega (arith, zero-bit_or b, zero-bit_or (b / 2))
bit_or_digit (suc a) b = omega (
  arith,
  bit_or-bitwise (suc a) b,
  bit_or-bitwise (suc a / 2) (b / 2),
  or_digits_fuel a (suc a / 2) (suc a / 2) (b / 2) (omega arith) (omega arith),
)

pub bit_or-zero : (a : ℕ) → bit_or a 0 ≡ a
bit_or-zero a = go a a (omega arith)
  where
    go : (n a : ℕ) → a ≤ n → bit_or a 0 ≡ a
    go zero zero h = zero-bit_or 0
    go zero (suc a) h = absurd (omega arith)
    go (suc n) zero h = zero-bit_or 0
    go (suc n) (suc a) h = omega (arith, bit_or_digit (suc a) 0, go n (suc a / 2) (omega arith))

div-pow-suc : (k a : ℕ) → a / 2 ^ suc k ≡ a / 2 / 2 ^ k
div-pow-suc k a = rw (pow-succ', div-div-eq-div-mul)

-- `|` and a right shift.
pub bit_or-div : (k a b : ℕ) → bit_or a b / 2 ^ k ≡ bit_or (a / 2 ^ k) (b / 2 ^ k)
bit_or-div zero a b = simp div-one
bit_or-div (suc k) a b =
    rw (div-pow-suc k (bit_or a b), div-pow-suc k a, div-pow-suc k b, ← bit_or-div k)
      (ap (λ (t : ℕ). t / 2 ^ k) (omega (arith, bit_or_digit a b)))

-- The lowest bit of `|`.
pub bit_or-mod_two : (a b : ℕ) → bit_or a b % 2 ≡ max (a % 2) (b % 2)
bit_or-mod_two a b = omega (arith, bit_or_digit a b)

bit_or-half : (a b : ℕ) → bit_or a b / 2 ≡ bit_or (a / 2) (b / 2)
bit_or-half a b = omega (arith, bit_or_digit a b)

mod-pow-suc : (k a : ℕ) → a % 2 ^ suc k ≡ a / 2 % 2 ^ k * 2 + a % 2
mod-pow-suc k a =
    rw
      (
        pow-succ',
        mod-eq-sub-mul-div a (2 * 2 ^ k),
        mod-eq-sub-mul-div (a / 2) (2 ^ k),
        ← div-div-eq-div-mul,
      )
      (omega (arith, div-add-mod (a / 2) (2 ^ k)))

-- `|` and a low mask.
pub bit_or-mod : (k a b : ℕ) → bit_or a b % 2 ^ k ≡ bit_or (a % 2 ^ k) (b % 2 ^ k)
bit_or-mod zero a b = simp mod-one
bit_or-mod (suc k) a b =
    rw (mod-pow-suc k (bit_or a b), bit_or_digit (a % 2 ^ suc k) (b % 2 ^ suc k), half a, half b)
      (omega (
        arith,
        bit_or-mod k (a / 2) (b / 2),
        bit_or_digit a b,
        mod-pow-suc k a,
        mod-pow-suc k b,
        ap (λ (t : ℕ). t % 2 ^ k) (bit_or-half a b),
      ))
  where
    half : (x : ℕ) → x % 2 ^ suc k / 2 ≡ x / 2 % 2 ^ k
    half x = omega (arith, mod-pow-suc k x)
