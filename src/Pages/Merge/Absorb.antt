-- ===== src/Pages/Merge/Absorb.antt =====
-- The second half of merge_after_free: the pages of the block but the first leave the free list.
use kp.Base.{
  ℕ, zero, suc, ◌+◌, ◌-◌, ◌%◌, ◌^◌, ◌<◌, ◌≤◌, ◌≡◌, refl, true, false, List, if◌then◌else◌, arith,
  Bool-cases, lt→ltb, ltb, leb, ◌&&◌, inl, inr,
}
use kp.Run.{ok}
use kp.Pages.{Memory, modify_page}
use kp.Pages.FreeList.{IsFreeList}
use kp.Pages.FreeList.Push.{sized, sized-IsFreeList}
use kp.Pages.Merge.Block.{block_start_low, block_is_free_lem}
use kp.Pages.FreeList.Lists.{has, erase, has-erase}
use kp.Pages.Links.Unlink.{unlink_unchecked_lem}
use kp.Pages.Links.Delete.{removed, removed-IsFreeList}
use kp.Pages.Merge.{absorb, mark_huge, merge_block, merge_after_free}

-- `xs` without the `n` pages from `cur` on.
unfoldable pub erase_range : ℕ → ℕ → List ℕ → List ℕ
erase_range zero cur xs = xs
erase_range (suc n) cur xs = erase_range n (suc cur) (erase cur xs)

unfoldable pub absorbed : ℕ → ℕ → Memory → Memory
absorbed zero cur m = m
absorbed (suc n) cur m = absorbed n (suc cur) (removed cur m)

pub has-erase_range :
    (n cur q : ℕ) (m : Memory) (xs : List ℕ)
    → IsFreeList m xs
    → ((j : ℕ) → cur ≤ j → j < cur + n → has j xs ≡ true)
    → has q (erase_range n cur xs) ≡ (if leb cur q && ltb q (cur + n) then false else has q xs)
unfolding erase_range
has-erase_range zero cur q m xs v all = ground arith
has-erase_range (suc n) cur q m xs v all = ground (
  arith,
  has-erase_range n (suc cur) q (removed cur m) (erase cur xs)
      (removed-IsFreeList v cur (all cur (omega arith) (omega arith)))
      (λ j p h. ground (arith, has-erase cur j xs v.distinct, all j)),
  has-erase cur q xs v.distinct,
)

-- The loop removes its pages one by one, as long as a page before them is free too.
pub absorb_lem :
    (n cur start : ℕ) {m : Memory} {xs : List ℕ}
    → IsFreeList m xs
    → start < cur
    → has start xs ≡ true
    → ((j : ℕ) → cur ≤ j → j < cur + n → has j xs ≡ true)
    → (absorb n cur m ≡ ok tt (absorbed n cur m))
      × IsFreeList (absorbed n cur m) (erase_range n cur xs)
unfolding absorb absorbed erase_range modify_page
absorb_lem zero cur start v before here all = (refl, v)
absorb_lem (suc n) cur start {m} {xs} v before here all =
    let i : has cur xs ≡ true = all cur (omega arith) (omega arith) in
    let (run, w) =
      absorb_lem n (suc cur) start (removed-IsFreeList v cur i) (omega arith)
        (ground (arith, has-erase cur start xs v.distinct))
        (λ j p h. ground (arith, has-erase cur j xs v.distinct, all j)) in
    (
      rw
          (
            unlink_unchecked_lem v cur i start here (ground arith),
            lt→ltb cur m.npages (v.in_range cur i),
          )
          run,
      w,
    )

-- The memory once `start` is marked as a huge page.
abbrev pub marked : ℕ → Memory → Memory
marked start = sized 1 start

-- What merging the block of `start` makes of a memory and its free list.
pub data Merged (m : Memory) (start : ℕ) (xs : List ℕ) (m' : Memory) (ys : List ℕ) : Type 0 where
  kept : m' ≡ m → ys ≡ xs → Merged m start xs m' ys
  merged :
      ((j : ℕ) → start ≤ j → j < start + 512 → has j xs ≡ true)
      → m' ≡ marked start (absorbed 511 (suc start) m)
      → ys ≡ erase_range 511 (suc start) xs
      → Merged m start xs m' ys

merge_block_lem :
    {m : Memory} {xs : List ℕ} (start : ℕ)
    → IsFreeList m xs
    → ((j : ℕ) → start ≤ j → j < start + 512 → has j xs ≡ true)
    → (merge_block start m ≡ ok tt (marked start (absorbed 511 (suc start) m)))
      × IsFreeList (marked start (absorbed 511 (suc start) m)) (erase_range 511 (suc start) xs)
unfolding merge_block
merge_block_lem {m} {xs} start v all =
    let (run, w) =
      absorb_lem 511 (suc start) start v (omega arith) (all start (omega arith) (omega arith))
        (λ j p h. all j (omega arith) (omega arith)) in
    (
      rw run (mark (absorbed 511 (suc start) m) (w.in_range start still)),
      sized-IsFreeList 1 start w,
    )
  where
    still : has start (erase_range 511 (suc start) xs) ≡ true
    still = ground (
      arith,
      has-erase_range 511 (suc start) start m xs v (λ j p h. all j (omega arith) (omega arith)),
      all start,
    )

    mark : (n : Memory) → start < n.npages → modify_page start mark_huge n ≡ ok tt (marked start n)
    mark n h = unfold modify_page in rw (lt→ltb start n.npages h)

-- merge_after_free either changes nothing or makes the block of the page one huge page, and leaves
-- a well-formed free list. It needs the page below 2 GB and its block inside the array.
pub merge_after_free_lem :
    {m : Memory} {xs : List ℕ} (p : ℕ)
    → IsFreeList m xs
    → p < 2 ^ 19
    → p - p % 512 + 512 ≤ m.npages
    → (m' : Memory) × (ys : List ℕ) × (merge_after_free p m ≡ ok tt m')
      × Merged m (p - p % 512) xs m' ys
      × IsFreeList m' ys
unfolding merge_after_free
merge_after_free_lem {m} {xs} p v low fits =
    let start = p - p % 512 in
    let (b, run, all) = block_is_free_lem start 512 start v fits in
    let start_run = block_start_low m p low (omega arith) in
    elim (Bool-cases b) [
      | inl e ↦
          let (r, w) = merge_block_lem start v (all e) in
          (_, _, rw (start_run, run, e, r), merged (all e) refl refl, w)
      | inr e ↦ (m, xs, rw (start_run, run, e), kept refl refl, v)
    ]
