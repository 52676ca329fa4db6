-- ===== src/Pages/Allocator/Free.antt =====
-- page_free and page_decref of kern/pmap.c: what is refused, and what becomes of the free list.
use kp.Base.{
  ℕ, ◌+◌, ◌-◌, ◌%◌, ◌^◌, ◌<◌, ◌≤◌, ◌≡◌, ◌≢◌, ◌⊎◌, refl, ◌∙◌, ap, true, false, none, some, List, ◌∷◌,
  arith, lt→ltb, inl, inr,
}
use kp.Run.{ok, panic, ◌>>◌}
use kp.Pages.{PageInfo, Memory, update, page_at, modify_page, set_link, set_previous}
use kp.Pages.FreeList.{IsFreeList}
use kp.Pages.FreeList.Lists.{has}
use kp.Pages.FreeList.Push.{pushed, pushed-IsFreeList}
use kp.Pages.FreeList.Chain.{head_cases}
use kp.Pages.Links.Unlink.{with_list, same_run}
use kp.Pages.Merge.{merge_after_free}
use kp.Pages.Merge.Absorb.{Merged, kept, merged, merge_after_free_lem}
use kp.Pages.Merge.Block.{block_start_high}
use kp.Pages.Allocator.{push_free, free_refused, page_free}

abbrev fresh : PageInfo → PageInfo
fresh c = record c { previous = none; is_available = 1 }

merge_high :
    (m : Memory) (p : ℕ)
    → 2 ^ 19 ≤ p
    → p < 2 ^ 20
    → m.npages ≤ 2 ^ 36
    → p % 512 ≢ 0
    → merge_after_free p m ≡ panic
unfolding merge_after_free
merge_high m p low high b inside = rw (block_start_high m p low high b inside)

module _ {m : Memory} {xs : List ℕ} (v : IsFreeList m xs) (p : ℕ) (hp : p < m.npages) where
  -- With a well-formed free list, page_free of a page of the array that is on the list, or that
  -- has references, panics.
  page_free-panic : (has p xs ≡ true) ⊎ ((m.pages p).pp_ref ≢ 0) → page_free p m ≡ panic
  unfolding page_free page_at
  page_free-panic bad = ground (arith, v.available p hp)

  module _ (taken : has p xs ≡ false) where
    push_free_lem : push_free p m ≡ ok tt (pushed (m.pages p).is_huge p m)
    unfolding push_free modify_page
    push_free_lem = elim (head_cases m.pages p none m.page_free_list xs v.chain) [
      | inl e ↦
          let g : ℕ → PageInfo = update m.pages p (set_link none (m.pages p)) in
          let run : push_free p m ≡ ok tt (with_list m (update g p (fresh (g p))) (some p)) =
            ground arith in
          run ∙ same_run m (λ j. ground arith) refl
      | inr (r, e, i) ↦
          let f : ℕ → PageInfo = update m.pages r (set_previous (some p) (m.pages r)) in
          let g : ℕ → PageInfo = update f p (set_link (some r) (f p)) in
          let run : push_free p m ≡ ok tt (with_list m (update g p (fresh (g p))) (some p)) =
            ground (arith, v.in_range r i) in
          run ∙ same_run m (λ j. ground arith) refl
    ]

    pushed_huge :
        (pushed (m.pages p).is_huge p m).pages p
        ≡ record (m.pages p) { pp_link = m.page_free_list; previous = none; is_available = 1 }
    pushed_huge = ground arith

    module _ (unused : (m.pages p).pp_ref ≡ 0) where
      checks_pass : free_refused (m.pages p) ≡ false
      checks_pass = ground (arith, v.available p hp, v.detached p hp taken)

      -- With a well-formed free list, page_free of a huge page of the array that is not on the
      -- list and has no references puts it at the front of the list, which stays well formed.
      pub page_free-huge :
          (m.pages p).is_huge ≢ 0
          → (page_free p m ≡ ok tt (pushed (m.pages p).is_huge p m))
            × IsFreeList (pushed (m.pages p).is_huge p m) (p ∷ xs)
      unfolding page_free page_at
      page_free-huge huge = (
        rw (lt→ltb p m.npages hp, checks_pass, push_free_lem) (ground arith),
        pushed-IsFreeList _ p v hp taken,
      )

      page_free-small : (m.pages p).is_huge ≡ 0 → page_free p m ≡ merge_after_free p (pushed 0 p m)
      unfolding page_free page_at
      page_free-small small =
          let push : push_free p m ≡ ok tt (pushed 0 p m) =
            push_free_lem ∙ ap (λ (h : ℕ). ok tt (pushed h p m)) small in
          rw (lt→ltb p m.npages hp, checks_pass, push) (ground arith)

      -- With a well-formed free list, page_free of a small page of the array that is not on the
      -- list and has no references, below 2 GB and with its aligned block of 512 pages in the
      -- array, returns; the page goes to the front of the list, and then either nothing more
      -- happens or, all 512 pages of the block being free, the block's other pages leave the
      -- list and its first page is marked huge. The list is well formed afterwards.
      pub page_free-Merged :
          (m.pages p).is_huge ≡ 0
          → p < 2 ^ 19
          → p - p % 512 + 512 ≤ m.npages
          → (m' : Memory) × (ys : List ℕ) × (page_free p m ≡ ok tt m')
            × Merged (pushed 0 p m) (p - p % 512) (p ∷ xs) m' ys
            × IsFreeList m' ys
      page_free-Merged small low fits =
          let (m', ys, run, how, w) =
            merge_after_free_lem p (pushed-IsFreeList 0 p v hp taken) low fits in
          (m', ys, page_free-small small ∙ run, how, w)

      -- With a well-formed free list, page_free panics on a small page of the array from 2 GB to
      -- 4 GB that does not start a 2 MB block, is not on the list and has no references.
      pub page_free-high :
          (m.pages p).is_huge ≡ 0 → 2 ^ 19 ≤ p → p < 2 ^ 20 → p % 512 ≢ 0 → page_free p m ≡ panic
      page_free-high small low high inside =
          page_free-small small ∙ merge_high (pushed 0 p m) p low high v.bounded inside

-- Page `p` does not complete a block: it is huge, or some page of its block is neither free nor `p`.
abbrev pub StaysSingle : Memory → List ℕ → ℕ → Type 0
StaysSingle m xs p =
    ((m.pages p).is_huge ≢ 0)
    ⊎ (((m.pages p).is_huge ≡ 0)
        × (p < 2 ^ 19)
        × (p - p % 512 + 512 ≤ m.npages)
        × (j : ℕ) × (p - p % 512 ≤ j)
        × (j < p - p % 512 + 512)
        × (has j (p ∷ xs) ≡ false))

freed_again :
    (m : Memory) {m' : Memory} {ys : List ℕ} (p : ℕ)
    → page_free p m ≡ ok tt m'
    → IsFreeList m' ys
    → has p ys ≡ true
    → p < m'.npages
    → (page_free p >> page_free p) m ≡ panic
freed_again m p run w on_list fits = rw run (page_free-panic w p fits (inl on_list))

-- With a well-formed free list, let page p of the array be off the list and without references,
-- and let freeing it not complete a block: it is huge, or it is small, below 2 GB, its aligned
-- block of 512 pages lies in the array and some page of the block is neither free nor p. Then
-- page_free of p followed by another page_free of p panics.
pub page_free-twice :
    {m : Memory} {xs : List ℕ} (p : ℕ)
    → IsFreeList m xs
    → p < m.npages
    → has p xs ≡ false
    → (m.pages p).pp_ref ≡ 0
    → StaysSingle m xs p
    → (page_free p >> page_free p) m ≡ panic
page_free-twice {m} {xs} p v hp taken unused (inl huge) =
    let (run, w) = page_free-huge v p hp taken unused huge in
    freed_again m p run w (ground arith) hp
page_free-twice {m} {xs} p v hp taken unused (inr (small, low, fits, j, above, below, out)) =
    let (m', ys, run, how, w) = page_free-Merged v p hp taken unused small low fits in
    elim how [
      | kept same same_list ↦ freed_again m p run w (rw same_list (ground arith)) (rw same hp)
      | merged all how' list' ↦ absurd (cc (all j above below, out))
    ]
