-- ===== src/Boot/PageInit.antt =====
-- page_init of kern/pmap.c as a whole: the free list after initial_merge of kern/lab1.c.
use kp.Base.{
  ℕ, zero, suc, ◌+◌, ◌-◌, ◌*◌, ◌/◌, ◌%◌, ◌^◌, ◌<◌, ◌≤◌, ◌≡◌, ◌≢◌, ◌⊎◌, ◌∙◌, refl, sym, subst, Bool,
  true, false, not, ◌&&◌, ◌==◌, ltb, if◌then◌else◌, none, some, List, [], ◌∷◌, arith, ltb→lt,
  le→ltb, ==_iff, Bool-cases, inl, inr,
}
use kp.Run.{ok, Cmd, ◌>>◌}
use kp.Words.{add64, has_bit}
use kp.Pages.{Memory}
use kp.Pages.FreeList.{IsFreeList}
use kp.Pages.Allocator.Alloc.{HasBlocks, page_alloc-Allocated}
use kp.Pages.Allocator.{page_alloc}
use kp.Pages.FreeList.Lists.{has}
use kp.Boot.Init.{init_pages}
use kp.Boot.{Kept, page_init}
use kp.Boot.FreePages.{Separate, Regions, usable, init_entries_lem}
use kp.Boot.InitialMerge.{Coalesced, refl_Coalesced, trans_Coalesced}
use kp.Boot.Scan.{Scanning, merge_step_lem}
use kp.Boot.Merge.{MergeScan, merge_region, merge_entries, initial_merge, MmapEntry}

abbrev RegionMerge : ℕ → ℕ → ℕ → ℕ → MergeScan → Memory → List ℕ → Type 0
RegionMerge left len pa limit l m xs =
    (m' : Memory) × (ys : List ℕ) × (l' : MergeScan) × (merge_region left len pa limit l m
      ≡ ok l' m')
    × Coalesced m xs m' ys

-- The scan of a region from page `p` on.
merge_region_lem :
    (left : ℕ) {m : Memory} {xs : List ℕ} (len p limit : ℕ) (l : MergeScan)
    → IsFreeList m xs
    → m.npages ≤ 2 ^ 19
    → limit ≤ (p + left) * 4096
    → limit ≤ m.npages * 4096
    → Scanning p xs l
    → RegionMerge left len (p * 4096) limit l m xs
unfolding merge_region
merge_region_lem zero {m} {xs} len p limit l v b h e scan =
    (m, xs, l, rw (le→ltb (p * 4096) limit (omega arith)) refl, refl_Coalesced v)
merge_region_lem (suc left) {m} {xs} len p limit l v b h e scan =
    elim (Bool-cases (ltb (p * 4096) limit && not (ltb len 512))) [
      | inr n ↦ (m, xs, l, rw n refl, refl_Coalesced v)
      | inl n ↦
          let below : p * 4096 < limit = ltb→lt (p * 4096) limit (ground arith) in
          let (m₁, ys, l₁, run, c, scan') = merge_step_lem v b p (omega arith) l scan in
          let (m₂, zs, l₂, rest, c') =
            merge_region_lem left len (suc p) limit l₁ c.list (rw c.same_size b) (omega arith)
              (rw c.same_size e) scan' in
          let next : add64 (p * 4096) 4096 ≡ suc p * 4096 = omega arith in
          (m₂, zs, l₂, rw (n, run, next) rest, trans_Coalesced {m₂ = m₂} {zs = zs} c c')
    ]

-- No free entry begins at the second page: there the scan of a region takes over a block that an
-- earlier region began.
abbrev pub StartsClear : List MmapEntry → Type 0
StartsClear [] = Unit
StartsClear (e ∷ rest) = (e.is_free ≡ true → e.addr ≢ 4096) × StartsClear rest

abbrev begun : Bool → MergeScan
begun start = record { start = start; start_huge = 0; prev = 0 }

begun-Scanning : (p : ℕ) (xs : List ℕ) (start : Bool) → p ≢ 1 → Scanning p xs (begun start)
begun-Scanning p xs start n on = elim (Bool-cases (p % 512 == 0)) [
  | inl z ↦ inl ((==_iff (p % 512) 0).0 z)
  | inr z ↦ inr (inl ((λ e. ground arith), λ e. n (omega (arith, e))))
]

merge_entry_lem :
    {m : Memory} {xs : List ℕ} (e : MmapEntry) (rest : List MmapEntry) (start : Bool)
    → IsFreeList m xs
    → m.npages ≤ 2 ^ 19
    → Separate m.npages e rest
    → e.addr ≢ 4096
    → RegionMerge (suc (e.len / 4096)) e.len e.addr (e.addr + e.len) (begun start) m xs
merge_entry_lem {m} {xs} e rest start v b s n =
    let begin : e.addr / 4096 * 4096 ≡ e.addr = omega (arith, s.aligned) in
    subst (λ (a : ℕ). RegionMerge (suc (e.len / 4096)) e.len a (e.addr + e.len) (begun start) m xs)
      begin
      (merge_region_lem (suc (e.len / 4096)) e.len (e.addr / 4096) (e.addr + e.len) (begun start) v
        b (omega arith) s.ends
        (begun-Scanning (e.addr / 4096) xs start λ q. n (omega (arith, q, s.aligned))))

merge_entries_lem :
    (entries : List MmapEntry) {m : Memory} {xs : List ℕ} (start : Bool)
    → IsFreeList m xs
    → m.npages ≤ 2 ^ 19
    → Regions m.npages entries
    → StartsClear entries
    → (m' : Memory) × (ys : List ℕ) × (merge_entries entries start m ≡ ok tt m')
      × Coalesced m xs m' ys
unfolding merge_entries
merge_entries_lem [] {m} {xs} start v b s n = (m, xs, refl, refl_Coalesced v)
merge_entries_lem (e ∷ rest) {m} {xs} start v b s n = elim (Bool-cases e.is_free) [
  | inr y ↦ let (m₁, ys, run, c) = merge_entries_lem rest start v b s.1 n.1 in (m₁, ys, rw y run, c)
  | inl y ↦
      let limit : add64 e.addr e.len ≡ e.addr + e.len = omega (arith, (s.0 y).ends) in
      let (m₁, ys, l, run, c) = merge_entry_lem e rest start v b (s.0 y) (n.0 y) in
      let (m₂, zs, next, c') =
        merge_entries_lem rest l.start c.list (rw c.same_size b) (rw c.same_size s.1) n.1 in
      (m₂, zs, rw (y, limit, run) next, trans_Coalesced {m₂ = m₂} {zs = zs} c c')
]

-- The pages before page_init: none is marked as free, linked or huge. Memory ends at 2 GB.
record Untouched (m : Memory) : Type 0 where
  taken : (p : ℕ) → p < m.npages → ((m.pages p).is_available == 1) ≡ false
  unlinked : (p : ℕ) → p < m.npages → ((m.pages p).pp_link ≡ none) × ((m.pages p).previous ≡ none)
  small : (p : ℕ) → p < m.npages → (m.pages p).is_huge ≡ 0
  bounded : m.npages ≤ 2 ^ 19

-- The free list `ys` that page_init leaves: it holds usable pages only, and each usable page is on it
-- or inside the block of a huge page that is on it.
pub record Initialised (r : Kept) (entries : List MmapEntry) (m : Memory) (ys : List ℕ)
    : Type 0 where
  pub list : IsFreeList m ys
  pub blocks : HasBlocks m ys
  pub only : (j : ℕ) → has j ys ≡ true → usable r entries j ≡ true
  pub complete :
      (j : ℕ)
      → usable r entries j ≡ true
      → (has j ys ≡ true) ⊎ ((has (j - j % 512) ys ≡ true) × ((m.pages (j - j % 512)).is_huge ≡ 1))

emptied-IsFreeList : (m : Memory) → Untouched m → IsFreeList (record m { page_free_list = none }) []
emptied-IsFreeList m u = record {
  chain = refl;
  distinct = tt;
  in_range = λ p h. cc;
  available = u.taken;
  detached = λ p h o. u.unlinked p h;
  bounded = omega (arith, u.bounded);
}

-- The loop over a memory map and the merging, on untouched pages.
page_init_lem :
    (r : Kept) (entries : List MmapEntry) (m : Memory)
    → Untouched m
    → Regions m.npages entries
    → StartsClear entries
    → (m' : Memory) × (ys : List ℕ) × (page_init r entries m ≡ ok tt m')
      × Initialised r entries m' ys
unfolding page_init initial_merge
page_init_lem r entries m u s n =
    let (m₁, xs, run, g) = init_entries_lem entries r (emptied-IsFreeList m u) s λ j c. refl in
    let (m₂, ys, rest, c) =
      merge_entries_lem entries false g.list (rw g.same_size u.bounded) (rw g.same_size s) n in
    (
      m₂,
      ys,
      rw run rest,
      record {
        list = c.list;
        blocks = λ p i h. elim (c.block p h) [
          | inl q ↦
              let in_array : p < m.npages =
                rw⁻¹ (c.same_size ∙ g.same_size) (c.list.in_range p i) in
              absurd (q (g.same_huge p ∙ u.small p in_array))
          | inr (d, f, o) ↦
              let last = g.list.in_range (p + 511) (f (p + 511) (omega arith) (omega arith)) in
              (rw c.same_size (omega (arith, last)), o)
        ];
        only = λ j i. sym (g.members j) ∙ c.only j i;
        complete = λ j q. elim (Bool-cases (has j ys)) [
          | inl i ↦ inl i
          | inr o ↦ let (head, huge, _) = c.gone j (g.members j ∙ q) o in inr (head, huge)
        ];
      },
    )

-- The part of mem_init that sets up the pages of a memory of `npages` pages.
unfoldable pub page_setup : ℕ → ℕ → ℕ → Kept → List MmapEntry → Cmd Memory (Unit {0})
page_setup kernel_vma end npages r entries = do
  init_pages kernel_vma end npages
  page_init r entries

abbrev zeroed : ℕ → Memory → Memory
zeroed npages m = record m {
  npages = npages;
  pages = λ p.
      if ltb p npages
      then record { pp_link = none; previous = none; is_huge = 0; pp_ref = 0; is_available = 0 }
      else m.pages p;
}

zeroed-Untouched : (npages : ℕ) (m : Memory) → npages ≤ 2 ^ 19 → Untouched (zeroed npages m)
zeroed-Untouched npages m b = record {
  taken = λ p h. ground arith;
  unlinked = λ p h. (ground arith, ground arith);
  small = λ p h. ground arith;
  bounded = b;
}

no_member : (ys : List ℕ) (j : ℕ) → ys ≡ [] → has j ys ≡ true → ⊥
no_member [] j e h = cc
no_member (y ∷ ys) j e h = cc

module _ (kernel_vma end npages : ℕ) (r : Kept) (entries : List MmapEntry) (m : Memory)
    (small : npages ≤ 2 ^ 19) (s : Regions npages entries) (n : StartsClear entries) where
  -- Let no more than 2 GB of memory be managed, and let the free entries of the memory map start
  -- at page boundaries other than 4096, end within the managed memory and share no page. Then
  -- mem_init's reset of the pages and page_init with its initial_merge succeed on any memory.
  -- They leave a well-formed free list on which each huge page has its 512 pages in the array,
  -- none of the others being on the list; each page on it is covered by a free entry and not
  -- kept for the kernel; and each such page is on the list or inside the block of a huge page
  -- that is.
  pub page_init-Initialised :
      (m' : Memory) × (ys : List ℕ) × (page_setup kernel_vma end npages r entries m ≡ ok tt m')
      × Initialised r entries m' ys
  unfolding page_setup init_pages
  page_init-Initialised =
      page_init_lem r entries (zeroed npages m) (zeroed-Untouched npages m small) s n

  -- If moreover at least one page is covered by a free entry and not kept, page_alloc for a
  -- small page, called after page_init, returns a page that is covered by a free entry and not
  -- kept.
  pub page_init-page_alloc :
      (flags j : ℕ)
      → has_bit flags 1 ≡ false
      → usable r entries j ≡ true
      → (p : ℕ) × (m' : Memory) × (((do
        page_setup kernel_vma end npages r entries
        page_alloc flags)
            m)
          ≡ ok (some p) m')
        × (usable r entries p ≡ true)
  page_init-page_alloc flags j f u =
      let (m₁, ys, run, i) = page_init-Initialised in
      let (p, m₂, zs, next, a) = page_alloc-Allocated flags i.list i.blocks (not_empty i) f in
      (p, m₂, rw run next, i.only p a.was_free)
    where
      not_empty : {m' : Memory} {ys : List ℕ} → Initialised r entries m' ys → ys ≢ []
      not_empty i e = elim (i.complete j u) [
        | inl h ↦ no_member _ j e h
        | inr (h, _) ↦ no_member _ _ e h
      ]
