-- ===== src/Boot/Scan.antt =====
-- The scan of initial_merge in kern/lab1.c over the pages of a region.
use kp.Base.{
  ℕ, suc, ◌+◌, ◌-◌, ◌*◌, ◌/◌, ◌%◌, ◌^◌, ◌<◌, ◌≤◌, ◌≡◌, ◌≢◌, ◌⊎◌, refl, sym, subst, Bool, true,
  false, ◌&&◌, ◌==◌, List, arith, lt→ltb, lt→leb, ==_iff, Bool-cases, inl, inr,
}
use kp.Run.{ok}
use kp.Words.{add64}
use kp.Pages.{PageInfo, Memory, page_at, modify_page, pa2page}
use kp.Pages.FreeList.{IsFreeList}
use kp.Pages.FreeList.Lists.{has}
use kp.Pages.Merge.Absorb.{absorbed, erase_range, marked}
use kp.Boot.InitialMerge.{Coalesced, refl_Coalesced, absorbed_lem, block-Coalesced}
use kp.Boot.Blocks.{remove_block_lem}
use kp.Boot.Merge.{MergeScan, at_boundary, check_page, remove_block, merge_step}

-- What the scan knows when it comes to page `p`: inside a block that it began, all pages from its
-- start to here are free; a block of an earlier entry is given up.
abbrev pub Live : ℕ → List ℕ → MergeScan → Type 0
Live p xs l =
    (l.start_huge ≡ (p - p % 512) * 4096)
    × (add64 l.prev 4096 ≡ p * 4096)
    × ((j : ℕ) → p - p % 512 ≤ j → j < p → has j xs ≡ true)

abbrev pub Stale : ℕ → MergeScan → Type 0
Stale p l = (l.start_huge ≢ p * 4096) × (add64 l.prev 4096 ≢ p * 4096)

abbrev pub Scanning : ℕ → List ℕ → MergeScan → Type 0
Scanning p xs l = l.start ≡ true → (p % 512 ≡ 0) ⊎ (Stale p l ⊎ Live p xs l)

abbrev checked : PageInfo → ℕ → MergeScan → MergeScan
checked c p l = check_page c (p * 4096) (at_boundary (p * 4096) l)

checked-Live :
    (c : PageInfo) (p : ℕ) (xs : List ℕ) (l : MergeScan)
    → (c.is_available == 1) ≡ has p xs
    → Scanning p xs l
    → (checked c p l).start ≡ true
    → ((checked c p l).start_huge ≡ (p - p % 512) * 4096)
      × ((j : ℕ) → p - p % 512 ≤ j → j ≤ p → has j xs ≡ true)
checked-Live c p xs l a scan on = elim (Bool-cases (p * 4096 % (512 * 4096) == 0)) [
  | inl b ↦
      let d : p % 512 ≡ 0 = ground arith in
      let free : has p xs ≡ true = ground arith in
      (ground arith, up_to free λ j low h. absurd (omega (arith, d)))
  | inr b ↦
      let d : p % 512 ≢ 0 = ground arith in
      let started : l.start ≡ true = ground arith in
      let free : has p xs ≡ true = ground arith in
      elim (scan started) [
        | inl z ↦ absurd (d z)
        | inr (inl (x, y)) ↦ absurd (ground arith)
        | inr (inr (x, y, f)) ↦ (ground arith, up_to free f)
      ]
]
  where
    up_to :
        has p xs ≡ true
        → ((j : ℕ) → p - p % 512 ≤ j → j < p → has j xs ≡ true)
        → (j : ℕ) → p - p % 512 ≤ j
        → j ≤ p
        → has j xs ≡ true
    up_to free f j low h = elim (Bool-cases (j == p)) [
      | inl e ↦ subst (λ (k : ℕ). has k xs ≡ true) (sym ((==_iff j p).0 e)) free
      | inr e ↦ f j low (ground arith)
    ]

last_page :
    (p : ℕ) (l : MergeScan)
    → p < 2 ^ 19
    → (l.start && p * 4096 == add64 l.start_huge (511 * 4096)) ≡ true
    → l.start_huge ≡ (p - p % 512) * 4096
    → p ≡ p - p % 512 + 511
last_page p l h y e =
    omega (arith, e, (==_iff (p * 4096) (add64 l.start_huge (511 * 4096))).0 (ground arith))

-- One turn of the scan either leaves the memory alone, or makes the block that ends at page `p` a
-- huge page. The memory ends at 2 GB.
abbrev pub Turn : ℕ → MergeScan → Memory → List ℕ → Type 0
Turn p l m xs =
    (m' : Memory) × (ys : List ℕ) × (l' : MergeScan) × (merge_step (p * 4096) l m ≡ ok l' m')
    × Coalesced m xs m' ys
    × Scanning (suc p) ys l'

module _ {m : Memory} {xs : List ℕ} (v : IsFreeList m xs) (small : m.npages ≤ 2 ^ 19) (p : ℕ)
    (hp : p < m.npages) (l : MergeScan) where
  abbrev seen : MergeScan
  seen = checked (m.pages p) p l

  abbrev at_end : Bool
  at_end = seen.start && p * 4096 == add64 seen.start_huge (511 * 4096)

  index : p * 4096 / 4096 ≡ p
  index = omega arith

  step_on : at_end ≡ false → merge_step (p * 4096) l m ≡ ok (record seen { prev = p * 4096 }) m
  unfolding merge_step pa2page page_at
  step_on n = rw (index, lt→leb m.npages p hp) (rw (lt→ltb p m.npages hp) (rw n refl))

  step_merge :
      (s : ℕ)
      → at_end ≡ true
      → seen.start_huge ≡ s * 4096
      → s + 512 ≤ 2 ^ 19
      → s < m.npages
      → remove_block 512 (suc s * 4096) ((suc s + 511) * 4096) m ≡ ok tt (absorbed 511 (suc s) m)
      → merge_step (p * 4096) l m
        ≡ ok (record seen { prev = p * 4096 }) (marked s (absorbed 511 (suc s) m))
  unfolding merge_step pa2page page_at modify_page
  step_merge s y e b hs run =
      let size = (absorbed_lem 511 (suc s) m).0 in
      let first : (s * 4096 + 4096) % 2 ^ 32 ≡ suc s * 4096 = omega arith in
      let limit : add64 (s * 4096) (512 * 4096) ≡ (suc s + 511) * 4096 = omega arith in
      let start : s * 4096 / 4096 ≡ s = omega arith in
      rw (index, lt→leb m.npages p hp)
        (rw (lt→ltb p m.npages hp) (
          rw y (
            rw e (
              rw (first, limit, run)
                (rw start (rw (size, lt→leb m.npages s hs) (rw (lt→ltb s m.npages hs) refl)))))))

  pub merge_step_lem : Scanning p xs l → Turn p l m xs
  merge_step_lem scan = elim (Bool-cases at_end) [
    | inr n ↦ (
      m,
      xs,
      record seen { prev = p * 4096 },
      step_on n,
      refl_Coalesced v,
      λ on.
          let (e, f) = live on in
          elim (Bool-cases (p % 512 == 511)) [
            | inl z ↦ inl (omega (arith, (==_iff (p % 512) 511).0 z))
            | inr z ↦
                let same : suc p - suc p % 512 ≡ p - p % 512 = omega (arith, not_last z) in
                inr (inr (rw same e, omega arith, λ j low h. f j (rw⁻¹ same low) (omega arith)))
          ],
    )
    | inl y ↦
        let (e, f) = live (ground arith) in
        let s = p - p % 512 in
        let last : p ≡ s + 511 = last_page p seen hp' y e in
        let all : (j : ℕ) → s ≤ j → j < s + 512 → has j xs ≡ true =
          λ j low h. f j low (omega (arith, last)) in
        let (run, w) =
          remove_block_lem 511 (suc s) v (omega (arith, last))
            λ j low h. all j (omega arith) (omega arith) in
        (
          marked s (absorbed 511 (suc s) m),
          erase_range 511 (suc s) xs,
          record seen { prev = p * 4096 },
          step_merge s y e (omega (arith, last)) (omega (arith, last)) run,
          block-Coalesced s v w (omega arith) all,
          λ on. inl (omega (arith, last)),
        )
  ]
    where
      hp' : p < 2 ^ 19
      hp' = omega arith

      not_last : (p % 512 == 511) ≡ false → p % 512 ≢ 511
      not_last z = ground arith

      live :
          seen.start ≡ true
          → (seen.start_huge ≡ (p - p % 512) * 4096)
            × ((j : ℕ) → p - p % 512 ≤ j → j ≤ p → has j xs ≡ true)
      live = checked-Live (m.pages p) p xs l (v.available p hp) scan
