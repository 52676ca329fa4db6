-- ===== src/Boot/Alloc.antt =====
-- boot_alloc: the chunk it hands out.
use kp.Base.{
  ℕ, ◌+◌, ◌%◌, ◌^◌, ◌<◌, ◌≤◌, ◌≡◌, ◌≢◌, ◌∙◌, sym, ap, ◌==◌, leb, false, inl, inr, Option, none,
  some, Bool-cases, arith,
}
use kp.Words.{add64, round_up}
use kp.Words.Rounding.{round_up_bounds}
use kp.Boot.{boot_alloc}

some_pair : {a b c d : ℕ} → ◌≡◌ {A = Option (ℕ × ℕ)} (some (a, b)) (some (c, d)) → (a ≡ c) × (b ≡ d)
some_pair {a} {b} e = (
  ap (λ (o : Option (ℕ × ℕ)). elim o [ none ↦ a | some p ↦ p.0 ]) e,
  ap (λ (o : Option (ℕ × ℕ)). elim o [ none ↦ b | some p ↦ p.1 ]) e,
)

-- If boot_alloc has been called before, its free address lies below KERNEL_VMA + 2 ^ 32,
-- KERNEL_VMA + 2 ^ 34 is below 2 ^ 64, and it returns for a size n below 2 ^ 32, then it returns
-- the old free address, and the new one is the first multiple of the page size at or above the
-- end of the chunk, and below KERNEL_VMA + 2 ^ 32.
boot_alloc_lem :
    (kernel_vma end next_free n result next : ℕ)
    → kernel_vma + 2 ^ 34 < 2 ^ 64
    → next_free ≢ 0
    → next_free < kernel_vma + 2 ^ 32
    → n < 2 ^ 32
    → boot_alloc kernel_vma end next_free n ≡ some (result, next)
    → (result ≡ next_free)
      × (result + n ≤ next)
      × (next % 4096 ≡ 0)
      × (next < result + n + 4096)
      × (next < kernel_vma + 2 ^ 32)
unfolding boot_alloc
boot_alloc_lem kernel_vma end next_free n result next room nonzero low small e =
    let z : (next_free == 0) ≡ false = ground arith in
    let sum : add64 next_free n ≡ next_free + n = omega arith in
    let limit : add64 kernel_vma (2 ^ 32) ≡ kernel_vma + 2 ^ 32 = omega arith in
    let up = round_up_bounds (next_free + n) (omega arith) in
    elim (Bool-cases (leb (add64 kernel_vma (2 ^ 32)) (round_up (next_free + n)))) [
      | inl full ↦ absurd (cc (rw (z, sum, full) at e))
      | inr free ↦
          let (r, x) = some_pair (rw (z, sum, free) at e) in
          (
            omega (arith, r),
            omega (arith, r, x, up),
            ap (λ t. t % 4096) (sym x) ∙ up.2,
            omega (arith, r, x, up),
            ground (arith, free, x, limit),
          )
    ]
