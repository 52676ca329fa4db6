-- ===== src/Pages/Allocator/Split.antt =====
-- Splitting the huge page at the head of the free list, when no small page is free.
use kp.Base.{
  ℕ, zero, suc, ◌+◌, ◌<◌, ◌≤◌, ◌≡◌, refl, sym, ◌∙◌, true, false, none, some, List, [], ◌∷◌, arith,
  lt→ltb, inl, inr,
}
use kp.Run.{ok}
use kp.Pages.{PageInfo, Memory, update, page_at, modify_page, set_link, set_previous, detach}
use kp.Pages.FreeList.{IsFreeList}
use kp.Pages.FreeList.Lists.{has}
use kp.Pages.FreeList.Chain.{head_cases}
use kp.Pages.FreeList.Push.{
  pushed, pushed-IsFreeList, sized, sized-IsFreeList, pushed_range, onto, has-onto,
}
use kp.Pages.Links.{pop_free_list, unlink}
use kp.Pages.Links.Unlink.{unlinked, unlink_lem, with_list, same_run}
use kp.Pages.Links.Delete.{removed, removed-IsFreeList}
use kp.Pages.Allocator.{small_free, push_small, push_rest, clear_head_previous, split_page}

module _ {m : Memory} {xs : List ℕ} (v : IsFreeList m xs) where
  push_small_lem : (p : ℕ) → p < m.npages → has p xs ≡ false → push_small p m ≡ ok tt (pushed 0 p m)
  unfolding push_small modify_page
  push_small_lem p hp o = elim (head_cases m.pages p none m.page_free_list xs v.chain) [
    | inl e ↦
        let g : ℕ → PageInfo = update m.pages p (set_link none (m.pages p)) in
        let run : push_small p m ≡ ok tt (with_list m (update g p (small_free (g p))) (some p)) =
          ground arith in
        run ∙ same_run m (λ j. ground (arith, v.detached p hp o)) refl
    | inr (r, e, i) ↦
        let f : ℕ → PageInfo = update m.pages p (set_link (some r) (m.pages p)) in
        let g : ℕ → PageInfo = update f r (set_previous (some p) (f r)) in
        let run : push_small p m ≡ ok tt (with_list m (update g p (small_free (g p))) (some p)) =
          ground (arith, v.in_range r i) in
        run ∙ same_run m (λ j. ground (arith, v.detached p hp o)) refl
  ]

push_rest_lem :
    (n p : ℕ) {m : Memory} {xs : List ℕ}
    → IsFreeList m xs
    → p + n ≤ m.npages
    → ((j : ℕ) → p ≤ j → j < p + n → has j xs ≡ false)
    → (push_rest n p m ≡ ok tt (pushed_range n p m)) × IsFreeList (pushed_range n p m) (onto n p xs)
unfolding push_rest pushed_range onto
push_rest_lem zero p v fits taken = (refl, v)
push_rest_lem (suc n) p {m} {xs} v fits taken =
    let o : has p xs ≡ false = taken p (omega arith) (omega arith) in
    let (run, w) =
      push_rest_lem n (suc p) (pushed-IsFreeList 0 p v (omega arith) o) (omega arith)
        (λ j h k. ground (arith, taken j)) in
    (rw (push_small_lem v p (omega arith) o) run, w)

-- The head's `previous` is NULL already.
clear_head_previous_lem :
    {m : Memory} (q : ℕ) (xs : List ℕ)
    → IsFreeList m xs
    → has q xs ≡ true
    → clear_head_previous m ≡ ok tt m
unfolding clear_head_previous modify_page
clear_head_previous_lem q [] v i = cc
clear_head_previous_lem {m} q (x ∷ xs) v i =
    let run : clear_head_previous m
        ≡ ok tt (with_list m (update m.pages x (set_previous none (m.pages x))) m.page_free_list) =
      ground (arith, v.in_range x) in
    run ∙ same_run m (λ j. ground arith) refl

pop_free_list_lem :
    {m : Memory} {p : ℕ} {xs : List ℕ}
    → IsFreeList m (p ∷ xs)
    → pop_free_list m ≡ ok tt (unlinked p m)
unfolding unlink page_at
pop_free_list_lem {m} {p} v =
    let same : unlink p m ≡ pop_free_list m = ground (arith, v.in_range p) in
    sym same ∙ unlink_lem v p (ground arith)

-- The memory once `p` is taken as a small page.
abbrev pub taken_small : ℕ → Memory → Memory
taken_small p m = sized 0 p (removed p m)

detach_small :
    (p : ℕ) (m : Memory)
    → p < m.npages
    → modify_page p (λ c. record (detach c) { is_huge = 0 }) (unlinked p m)
      ≡ ok tt (taken_small p m)
unfolding modify_page
detach_small p m h = rw (lt→ltb p m.npages h) (same_run m (λ j. ground arith) refl)

-- What splitting the huge page `p` at the head makes of the memory.
abbrev pub split : ℕ → Memory → Memory
split p m = pushed_range 511 (suc p) (taken_small p m)

-- The first page of the block is taken, and the other 511 become small free pages in front.
pub split_page_lem :
    {m : Memory} {p : ℕ} {xs : List ℕ}
    → IsFreeList m (p ∷ xs)
    → p + 512 ≤ m.npages
    → ((j : ℕ) → p < j → j < p + 512 → has j xs ≡ false)
    → (split_page p m ≡ ok (some p) (split p m)) × IsFreeList (split p m) (onto 511 (suc p) xs)
unfolding split_page
split_page_lem {m} {p} {xs} v fits taken =
    let w : IsFreeList (removed p m) xs = ground (arith, removed-IsFreeList v p) in
    let (run, u) =
      push_rest_lem 511 (suc p) (sized-IsFreeList 0 p w) (omega arith)
        (λ j h k. taken j h (omega arith)) in
    let clear =
      clear_head_previous_lem (suc p) (onto 511 (suc p) xs) u
        (ground (arith, has-onto 511 (suc p) (suc p) xs)) in
    (rw (pop_free_list_lem v, detach_small p m (omega arith), run, clear), u)
