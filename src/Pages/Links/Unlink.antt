-- ===== src/Pages/Links/Unlink.antt =====
-- Unlinking a member of the free list, in one step.
use kp.Base.{
  ℕ, ◌<◌, ◌≡◌, ◌∙◌, fun_ext, inl, inr, true, false, Option, none, some, List, if◌then◌else◌, arith,
  ◌==◌, Bool-cases,
}
use kp.Run.{Run, ok}
use kp.Pages.{PageInfo, Memory, update, page_at, modify_page, set_link, set_previous}
use kp.Pages.FreeList.{IsFreeList}
use kp.Pages.FreeList.Lists.{has}
use kp.Pages.FreeList.Chain.{
  points, points-some, spliced, link_cases, previous_cases, head_previous, not_alone,
}
use kp.Pages.Links.{unlink_inner, unlink, unlink_unchecked}

-- The memory once `p` is out of the list.
abbrev pub unlinked : ℕ → Memory → Memory
unlinked p m = record m {
  pages = spliced m.pages p;
  page_free_list = if points m.page_free_list p then (m.pages p).pp_link else m.page_free_list;
}

-- The memory with other pages and another head.
abbrev pub with_list : Memory → (ℕ → PageInfo) → Option ℕ → Memory
with_list m g l = record m { pages = g; page_free_list = l }

pub same_run :
    (m : Memory) {f g : ℕ → PageInfo} {k l : Option ℕ}
    → ((j : ℕ) → f j ≡ g j)
    → k ≡ l
    → ◌≡◌ {A = Run Memory (Unit {0})} (ok tt (with_list m f k)) (ok tt (with_list m g l))
same_run m e h = λ i. ok tt (with_list m (fun_ext e i) (h i))

module _ {m : Memory} {xs : List ℕ} (v : IsFreeList m xs) (p : ℕ) (i : has p xs ≡ true) where
  -- `p` is the only member.
  unlink_only :
      (m.pages p).previous ≡ none
      → m.page_free_list ≡ some p
      → (m.pages p).pp_link ≡ none
      → unlink p m ≡ ok tt (unlinked p m)
  unfolding unlink page_at modify_page
  unlink_only b h l =
      let run : unlink p m ≡ ok tt (with_list m m.pages none) = ground (arith, v.in_range p i) in
      run ∙ same_run m (λ j. ground arith) (ground arith)

  module _ (r : ℕ) (hr : r < m.npages) (ne : (r == p) ≡ false)
      (l : (m.pages p).pp_link ≡ some r) where
    abbrev after_first : Memory
    after_first = with_list m (update m.pages r (set_previous none (m.pages r))) (some r)

    after_first-unlinked :
        (m.pages p).previous ≡ none
        → m.page_free_list ≡ some p
        → ◌≡◌ {A = Run Memory (Unit {0})} (ok tt after_first) (ok tt (unlinked p m))
    after_first-unlinked b h = same_run m (λ j. ground arith) (ground arith)

    unlink_first :
        (m.pages p).previous ≡ none → m.page_free_list ≡ some p → unlink p m ≡ ok tt (unlinked p m)
    unfolding unlink page_at modify_page
    unlink_first b h =
        let run : unlink p m ≡ ok tt after_first = ground (arith, v.in_range p i) in
        run ∙ after_first-unlinked b h

    unlink_unchecked_first :
        (m.pages p).previous ≡ none
        → m.page_free_list ≡ some p
        → unlink_unchecked p m ≡ ok tt (unlinked p m)
    unfolding unlink_unchecked page_at modify_page
    unlink_unchecked_first b h =
        let run : unlink_unchecked p m ≡ ok tt after_first = ground (arith, v.in_range p i) in
        run ∙ after_first-unlinked b h

    unlink_middle :
        (q : ℕ)
        → q < m.npages
        → (q == p) ≡ false
        → (m.pages p).previous ≡ some q
        → points m.page_free_list p ≡ false
        → unlink_inner p m ≡ ok tt (unlinked p m)
    unfolding unlink_inner page_at modify_page
    unlink_middle q hq nq b h =
        let g : ℕ → PageInfo = update m.pages q (set_link (some r) (m.pages q)) in
        let run : unlink_inner p m
            ≡ ok tt (with_list m (update g r (set_previous (some q) (g r))) m.page_free_list) =
          ground (arith, v.in_range p i) in
        run ∙ same_run m (λ j. ground arith) (ground arith)

  unlink_last :
      (q : ℕ)
      → q < m.npages
      → (q == p) ≡ false
      → (m.pages p).previous ≡ some q
      → (m.pages p).pp_link ≡ none
      → points m.page_free_list p ≡ false
      → unlink_inner p m ≡ ok tt (unlinked p m)
  unfolding unlink_inner page_at modify_page
  unlink_last q hq nq b l h =
      let g : ℕ → PageInfo = update m.pages q (set_link none (m.pages q)) in
      let run : unlink_inner p m ≡ ok tt (with_list m g m.page_free_list) =
        ground (arith, v.in_range p i) in
      run ∙ same_run m (λ j. ground arith) (ground arith)

  -- A member with a page before it is not the head.
  pub not_head : (q : ℕ) → (m.pages p).previous ≡ some q → points m.page_free_list p ≡ false
  not_head q b = elim (Bool-cases (points m.page_free_list p)) [
    | inl t ↦
        let first = points-some m.page_free_list p t in
        ground (arith, head_previous m.pages p none m.page_free_list xs v.chain first)
    | inr f ↦ f
  ]

  inner :
      (q : ℕ)
      → (m.pages p).previous ≡ some q
      → has q xs ≡ true
      → (q == p) ≡ false
      → unlink_inner p m ≡ ok tt (unlinked p m)
  inner q b hq nq = elim (link_cases m.pages p none m.page_free_list xs v.chain v.distinct i) [
    | inl l ↦ unlink_last q (v.in_range q hq) nq b l (not_head q b)
    | inr (r, l, hr, nr) ↦
        unlink_middle r (v.in_range r hr) nr l q (v.in_range q hq) nq b (not_head q b)
  ]

  unlink-inner : (q : ℕ) → (m.pages p).previous ≡ some q → unlink p m ≡ unlink_inner p m
  unfolding unlink page_at
  unlink-inner q b = ground (arith, v.in_range p i)

  unlink_unchecked-inner :
      (q : ℕ) → (m.pages p).previous ≡ some q → unlink_unchecked p m ≡ unlink_inner p m
  unfolding unlink_unchecked page_at
  unlink_unchecked-inner q b = ground (arith, v.in_range p i)

  -- Unlinking a member rewires its two neighbours and, if it is the first, the head.
  pub unlink_lem : unlink p m ≡ ok tt (unlinked p m)
  unlink_lem = elim (previous_cases m.pages p none m.page_free_list xs v.chain v.distinct i) [
    | inl (b, h) ↦ elim (link_cases m.pages p none m.page_free_list xs v.chain v.distinct i) [
      | inl l ↦ unlink_only b h l
      | inr (r, l, hr, nr) ↦ unlink_first r (v.in_range r hr) nr l b h
    ]
    | inr (q, b, hq, nq) ↦ unlink-inner q b ∙ inner q b hq nq
  ]

  -- merge_after_free does the same to a member that is not alone in the list.
  pub unlink_unchecked_lem :
      (q : ℕ) → has q xs ≡ true → (q == p) ≡ false → unlink_unchecked p m ≡ ok tt (unlinked p m)
  unlink_unchecked_lem q other ne =
      elim (previous_cases m.pages p none m.page_free_list xs v.chain v.distinct i) [
        | inl (b, h) ↦ elim (link_cases m.pages p none m.page_free_list xs v.chain v.distinct i) [
          | inl l ↦ absurd (not_alone m.pages p q none m.page_free_list xs v.chain h l other ne)
          | inr (r, l, hr, nr) ↦ unlink_unchecked_first r (v.in_range r hr) nr l b h
        ]
        | inr (q, b, hq, nq) ↦ unlink_unchecked-inner q b ∙ inner q b hq nq
      ]
