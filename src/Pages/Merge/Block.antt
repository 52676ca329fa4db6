-- ===== src/Pages/Merge/Block.antt =====
-- The first half of merge_after_free: the start of the block, and the test that all of it is free.
use kp.Base.{
  ℕ, zero, suc, ◌+◌, ◌-◌, ◌*◌, ◌%◌, ◌^◌, ◌<◌, ◌≤◌, ◌≡◌, ◌≢◌, refl, ◌∙◌, ap, true, false, Bool, some,
  List, arith, ◌==◌, inl, inr, Bool-cases, lt→ltb, le→ltb,
}
use kp.Run.{ok, panic}
use kp.Pages.{Memory, page_at, page2pa, pa2page}
use kp.Pages.FreeList.{IsFreeList}
use kp.Pages.FreeList.Lists.{has}
use kp.Pages.Merge.{
  to_int, from_int, huge_size, align_loop, block_start, breaks_block, block_is_free,
}

-- The loop goes down to the last multiple of 2 MB, in at most 511 rounds.
align_loop_lem :
    (fuel k : ℕ)
    → k % 512 < fuel
    → k < 2 ^ 20
    → align_loop fuel (k * 4096) ≡ some ((k - k % 512) * 4096)
unfolding align_loop
align_loop_lem zero k h b = absurd (omega arith)
align_loop_lem (suc fuel) k h b = elim (Bool-cases (k * 4096 % huge_size == 0)) [
  | inl e ↦ rw e (ap (λ (t : ℕ). some (t * 4096)) (ground arith))
  | inr e ↦
      rw (e, step (ground arith))
        (align_loop_lem fuel (k - 1) (ground arith) (omega arith)
          ∙ ap (λ (t : ℕ). some (t * 4096)) (ground arith))
]
  where
    step : 0 < k → (k * 4096 + 2 ^ 32 - 4096) % 2 ^ 32 ≡ (k - 1) * 4096
    step pos = omega arith

int_address : (p : ℕ) → p < 2 ^ 20 → to_int (page2pa p) ≡ p * 4096
unfolding page2pa
int_address p h = omega arith

from_int_low :
    (m : Memory) (q : ℕ) → q < 2 ^ 19 → q < m.npages → pa2page (from_int (q * 4096)) m ≡ ok q m
unfolding from_int pa2page
from_int_low m q low h = rw (lt→ltb (q * 4096) (2 ^ 31) (omega arith)) (ground arith)

from_int_high :
    (m : Memory) (q : ℕ)
    → 2 ^ 19 ≤ q
    → q < 2 ^ 20
    → m.npages ≤ 2 ^ 36
    → pa2page (from_int (q * 4096)) m ≡ panic
unfolding from_int pa2page
from_int_high m q high h b = rw (le→ltb (q * 4096) (2 ^ 31) (omega arith)) (ground arith)

-- Below 2 GB the block of a page starts at the last page number that is a multiple of 512.
pub block_start_low :
    (m : Memory) (p : ℕ) → p < 2 ^ 19 → p < m.npages → block_start p m ≡ ok (p - p % 512) m
unfolding block_start
block_start_low m p low h = elim (Bool-cases (p * 4096 % huge_size == 0)) [
  | inl e ↦ rw (int_address p (omega arith), e) (ap (λ (t : ℕ). ok t m) (ground arith))
  | inr e ↦
      rw (int_address p (omega arith), e, align_loop_lem 513 p (omega arith) (omega arith))
        (from_int_low m (p - p % 512) (omega arith) (omega arith))
]

-- From 2 GB to 4 GB the `int` is negative, and its block is no page.
pub block_start_high :
    (m : Memory) (p : ℕ)
    → 2 ^ 19 ≤ p
    → p < 2 ^ 20
    → m.npages ≤ 2 ^ 36
    → p % 512 ≢ 0
    → block_start p m ≡ panic
unfolding block_start
block_start_high m p high h b n = elim (Bool-cases (p * 4096 % huge_size == 0)) [
  | inl e ↦ absurd (n (ground arith))
  | inr e ↦
      rw (int_address p h, e, align_loop_lem 513 p (omega arith) h)
        (from_int_high m (p - p % 512) (omega arith) (omega arith) b)
]

-- What the test of the block reports, and what it means.
pub block_is_free_lem :
    {m : Memory} {xs : List ℕ} (start n cur : ℕ)
    → IsFreeList m xs
    → cur + n ≤ m.npages
    → (b : Bool) × (block_is_free n start cur m ≡ ok b m)
      × (b ≡ true → (j : ℕ) → cur ≤ j → j < cur + n → has j xs ≡ true)
unfolding block_is_free page_at
block_is_free_lem start zero cur v h = (true, refl, λ e j p q. absurd (omega arith))
block_is_free_lem {m} {xs} start (suc n) cur v h =
    elim (Bool-cases (breaks_block m start cur (m.pages cur))) [
      | inl e ↦ (false, ground arith, λ f. cc)
      | inr e ↦
          let (b, run, all) = block_is_free_lem start n (suc cur) v (omega arith) in
          (
            b,
            ground arith,
            λ f j p q. elim (Bool-cases (cur == j)) [
              | inl s ↦ unfold breaks_block in ground (arith, v.available j)
              | inr s ↦ all f j (ground arith) (omega arith)
            ],
          )
    ]
