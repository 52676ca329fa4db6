-- ===== src/Boot/Blocks.antt =====
-- How initial_merge of kern/lab1.c takes the pages of a block off the free list.
use kp.Base.{
  ℕ, zero, suc, ◌+◌, ◌*◌, ◌/◌, ◌%◌, ◌^◌, ◌<◌, ◌≤◌, ◌≡◌, ◌∙◌, refl, true, false, ◌==◌, ltb, none,
  some, List, arith, lt→ltb, lt→leb, ==_refl, inl, inr,
}
use kp.Run.{ok}
use kp.Pages.{PageInfo, Memory, update, page_at, modify_page, set_link, set_previous, pa2page}
use kp.Pages.FreeList.{IsFreeList}
use kp.Pages.FreeList.Lists.{has, has-erase}
use kp.Pages.FreeList.Chain.{points, link_cases, previous_cases}
use kp.Pages.Links.Unlink.{not_head, with_list, same_run}
use kp.Pages.Links.Delete.{removed, removed-IsFreeList}
use kp.Pages.Merge.Absorb.{absorbed, erase_range}
use kp.Boot.Merge.{remove_small, remove_block, signed_word}

-- The memory once page `p` is marked as taken.
abbrev cleared : ℕ → Memory → ℕ → PageInfo
cleared p m = update m.pages p (record (m.pages p) { is_available = 0 })

abbrev emptied : ℕ → (ℕ → PageInfo) → ℕ → PageInfo
emptied p f = update f p (record (f p) { pp_link = none; previous = none })

module _ (m : Memory) (p : ℕ) (hp : p < m.npages) where
  in_array : ltb p m.npages ≡ true
  in_array = lt→ltb p m.npages hp

  remove_last :
      (q : ℕ)
      → q < m.npages
      → (q == p) ≡ false
      → (m.pages p).previous ≡ some q
      → (m.pages p).pp_link ≡ none
      → points m.page_free_list p ≡ false
      → remove_small p m ≡ ok tt (removed p m)
  unfolding remove_small page_at modify_page
  remove_last q hq nq b l h =
      let f = cleared p m in
      let g : ℕ → PageInfo = update f q (set_link none (f q)) in
      let run : remove_small p m ≡ ok tt (with_list m (emptied p g) m.page_free_list) =
        ground arith in
      run ∙ same_run m (λ j. ground arith) (ground arith)

  remove_middle :
      (r : ℕ)
      → r < m.npages
      → (r == p) ≡ false
      → (m.pages p).pp_link ≡ some r
      → (q : ℕ) → q < m.npages
      → (q == p) ≡ false
      → (m.pages p).previous ≡ some q
      → points m.page_free_list p ≡ false
      → remove_small p m ≡ ok tt (removed p m)
  unfolding remove_small page_at modify_page
  remove_middle r hr nr l q hq nq b h =
      let f = cleared p m in
      let g : ℕ → PageInfo = update f q (set_link (some r) (f q)) in
      let k : ℕ → PageInfo = update g r (set_previous (some q) (g r)) in
      let run : remove_small p m ≡ ok tt (with_list m (emptied p k) m.page_free_list) =
        rw (in_array, ==_refl p, b, l)
          (rw in_array (
            rw (lt→ltb q m.npages hq)
              (rw (lt→ltb r m.npages hr) (rw in_array (same_run m (λ j. ground arith) refl))))) in
      run ∙ same_run m (λ j. ground arith) (ground arith)

module _ {m : Memory} {xs : List ℕ} (v : IsFreeList m xs) (p : ℕ) (i : has p xs ≡ true) where
  -- A member leaves the list, wherever it stands.
  pub remove_small_lem : remove_small p m ≡ ok tt (removed p m)
  unfolding remove_small page_at modify_page
  remove_small_lem = elim (previous_cases m.pages p none m.page_free_list xs v.chain v.distinct i) [
    | inl (b, h) ↦ elim (link_cases m.pages p none m.page_free_list xs v.chain v.distinct i) [
      | inl l ↦
          let run : remove_small p m ≡ ok tt (with_list m (emptied p (cleared p m)) none) =
            ground (arith, v.in_range p i) in
          run ∙ same_run m (λ j. ground arith) (ground arith)
      | inr (r, l, hr, nr) ↦
          let f = cleared p m in
          let g : ℕ → PageInfo = update f r (set_previous none (f r)) in
          let run : remove_small p m ≡ ok tt (with_list m (emptied p g) (some r)) =
            ground (arith, v.in_range p i, v.in_range r hr) in
          run ∙ same_run m (λ j. ground arith) (ground arith)
    ]
    | inr (q, b, hq, nq) ↦
        elim (link_cases m.pages p none m.page_free_list xs v.chain v.distinct i) [
          | inl l ↦ remove_last m p (v.in_range p i) q (v.in_range q hq) nq b l (not_head v p i q b)
          | inr (r, l, hr, nr) ↦
              remove_middle m p (v.in_range p i) r (v.in_range r hr) nr l q (v.in_range q hq) nq b
                (not_head v p i q b)
        ]
  ]

signed_low : (p : ℕ) → p < 2 ^ 19 → signed_word (p * 4096) ≡ p * 4096
signed_low p h = ground arith

-- The loop over a block takes its pages off one by one. The block ends below 2 GB.
pub remove_block_lem :
    (n p : ℕ) {m : Memory} {xs : List ℕ}
    → IsFreeList m xs
    → p + n ≤ 2 ^ 19
    → ((j : ℕ) → p ≤ j → j < p + n → has j xs ≡ true)
    → (remove_block (suc n) (p * 4096) ((p + n) * 4096) m ≡ ok tt (absorbed n p m))
      × IsFreeList (absorbed n p m) (erase_range n p xs)
unfolding remove_block absorbed erase_range pa2page
remove_block_lem zero p v b all = (ground arith, v)
remove_block_lem (suc n) p {m} {xs} v b all =
    let i : has p xs ≡ true = all p (omega arith) (omega arith) in
    let (run, w) =
      remove_block_lem n (suc p) (removed-IsFreeList v p i) (omega arith)
        (λ j l h. ground (arith, has-erase p j xs v.distinct, all j)) in
    (
      rw (signed_low p (omega arith)) (
          rw
            (
              lt→ltb (p * 4096) ((p + suc n) * 4096) (omega arith),
              index,
              lt→leb m.npages p (v.in_range p i),
            )
            (rw (remove_small_lem v p i) (rw (next, limit) run))),
      w,
    )
  where
    index : p * 4096 / 4096 ≡ p
    index = omega arith

    next : (p * 4096 + 4096) % 2 ^ 32 ≡ suc p * 4096
    next = omega arith

    limit : (p + suc n) * 4096 ≡ (suc p + n) * 4096
    limit = omega arith
