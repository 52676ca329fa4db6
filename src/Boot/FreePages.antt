-- ===== src/Boot/FreePages.antt =====
-- The free list that the loop of page_init in kern/pmap.c makes from the memory map, before
-- initial_merge.
use kp.Base.{
  ℕ, zero, suc, ◌+◌, ◌*◌, ◌/◌, ◌%◌, ◌<◌, ◌≤◌, ◌≡◌, ◌∙◌, subst, refl, Bool, true, false, not, ◌&&◌,
  ◌||◌, ◌==◌, ltb, leb, none, some, List, [], ◌∷◌, arith, ltb→lt, lt→leb, Bool-cases, inl, inr,
}
use kp.Run.{ok}
use kp.Words.{add64}
use kp.Pages.{PageInfo, Memory, update, modify_page, set_link, set_previous, pa2page}
use kp.Pages.FreeList.{IsFreeList}
use kp.Pages.FreeList.Lists.{has}
use kp.Pages.FreeList.Push.{pushed, pushed-IsFreeList}
use kp.Pages.FreeList.Chain.{head_cases}
use kp.Pages.Links.Unlink.{with_list, same_run}
use kp.Boot.{Kept, is_kept, add_free, init_page, init_region, init_entries}
use kp.Boot.Merge.{MmapEntry}

-- Whether page `p` starts inside a range of addresses, or inside a free entry.
abbrev pub inside : ℕ → ℕ → ℕ → Bool
inside pa limit p = leb pa (p * 4096) && ltb (p * 4096) limit

abbrev pub covers : MmapEntry → ℕ → Bool
covers e p = e.is_free && inside e.addr (e.addr + e.len) p

abbrev pub covered : List MmapEntry → ℕ → Bool
covered [] p = false
covered (e ∷ rest) p = covers e p || covered rest p

abbrev pub usable : Kept → List MmapEntry → ℕ → Bool
usable r entries p = covered entries p && not (is_kept r (p * 4096))

-- A free entry starts at a page, ends within the array, and shares no page with a later entry.
pub record Separate (npages : ℕ) (e : MmapEntry) (rest : List MmapEntry) : Type 0 where
  pub aligned : e.addr % 4096 ≡ 0
  pub ends : e.addr + e.len ≤ npages * 4096
  pub apart : (p : ℕ) → covers e p ≡ true → covered rest p ≡ false

abbrev pub Regions : ℕ → List MmapEntry → Type 0
Regions n [] = Unit
Regions n (e ∷ rest) = (e.is_free ≡ true → Separate n e rest) × Regions n rest

module _ {m : Memory} {xs : List ℕ} (v : IsFreeList m xs) (p : ℕ) (hp : p < m.npages)
    (taken : has p xs ≡ false) where
  pub add_free_lem : add_free p m ≡ ok tt (pushed (m.pages p).is_huge p m)
  unfolding add_free modify_page
  add_free_lem = elim (head_cases m.pages p none m.page_free_list xs v.chain) [
    | inl e ↦
        let f : ℕ → PageInfo = update m.pages p (record (m.pages p) { is_available = 1 }) in
        let run : add_free p m ≡ ok tt (with_list m (update f p (set_link none (f p))) (some p)) =
          ground arith in
        run ∙ same_run m (λ j. ground (arith, v.detached p hp taken)) refl
    | inr (r, e, i) ↦
        let f : ℕ → PageInfo = update m.pages p (record (m.pages p) { is_available = 1 }) in
        let g : ℕ → PageInfo = update f p (set_link (some r) (f p)) in
        let run : add_free p m
            ≡ ok tt (with_list m (update g r (set_previous (some p) (g r))) (some p)) =
          ground (arith, v.in_range r i) in
        run ∙ same_run m (λ j. ground (arith, v.detached p hp taken)) refl
  ]

-- A run that puts the pages of `new` on the free list `xs` of `m`, and no other.
pub record Grown (m : Memory) (xs : List ℕ) (new : ℕ → Bool) (m' : Memory) (ys : List ℕ)
    : Type 0 where
  pub list : IsFreeList m' ys
  pub members : (j : ℕ) → has j ys ≡ (has j xs || new j)
  pub same_size : m'.npages ≡ m.npages
  pub same_huge : (j : ℕ) → (m'.pages j).is_huge ≡ (m.pages j).is_huge

init_page_lem :
    {m : Memory} {xs : List ℕ} (r : Kept) (p : ℕ)
    → IsFreeList m xs
    → p < m.npages
    → has p xs ≡ false
    → (m' : Memory) × (ys : List ℕ) × (init_page r (p * 4096) m ≡ ok tt m')
      × Grown m xs (λ j. (p == j) && not (is_kept r (p * 4096))) m' ys
unfolding init_page pa2page
init_page_lem {m} {xs} r p v hp o = elim (Bool-cases (is_kept r (p * 4096))) [
  | inl k ↦ (
    m,
    xs,
    rw (in_array, index, k) refl,
    record {
      list = v;
      members = λ j. rw k (ground arith);
      same_size = refl;
      same_huge = λ j. refl;
    },
  )
  | inr k ↦ (
    pushed (m.pages p).is_huge p m,
    p ∷ xs,
    rw (in_array, index, k) (add_free_lem v p hp o),
    record {
      list = pushed-IsFreeList _ p v hp o;
      members = λ j. rw k (ground arith);
      same_size = refl;
      same_huge = λ j. ground arith;
    },
  )
]
  where
    index : p * 4096 / 4096 ≡ p
    index = omega arith

    in_array : leb m.npages (p * 4096 / 4096) ≡ false
    in_array = rw index (lt→leb m.npages p hp)

same_Grown :
    {m m' : Memory} {xs ys : List ℕ} {f h : ℕ → Bool}
    → Grown m xs f m' ys
    → ((j : ℕ) → f j ≡ h j)
    → Grown m xs h m' ys
same_Grown g e = record {
  list = g.list;
  members = λ j. rw (g.members j, e j) refl;
  same_size = g.same_size;
  same_huge = g.same_huge;
}

both_Grown :
    {m m₁ m₂ : Memory} {xs ys zs : List ℕ} {f g h : ℕ → Bool}
    → Grown m xs f m₁ ys
    → Grown m₁ ys g m₂ zs
    → ((j : ℕ) → (f j || g j) ≡ h j)
    → Grown m xs h m₂ zs
both_Grown a b e = record {
  list = b.list;
  members = λ j. ground (arith, a.members j, b.members j, e j);
  same_size = b.same_size ∙ a.same_size;
  same_huge = λ j. b.same_huge j ∙ a.same_huge j;
}

-- The loop over a region frees the pages inside it that are not kept.
abbrev RegionRun : ℕ → Kept → ℕ → ℕ → Memory → List ℕ → Type 0
RegionRun left r pa limit m xs =
    (m' : Memory) × (ys : List ℕ) × (init_region r left pa limit m ≡ ok tt m')
    × Grown m xs (λ j. inside pa limit j && not (is_kept r (j * 4096))) m' ys

init_region_lem :
    (left : ℕ) {m : Memory} {xs : List ℕ} (r : Kept) (p limit : ℕ)
    → IsFreeList m xs
    → limit ≤ (p + left) * 4096
    → limit ≤ m.npages * 4096
    → ((j : ℕ) → inside (p * 4096) limit j ≡ true → has j xs ≡ false)
    → RegionRun left r (p * 4096) limit m xs
unfolding init_region
init_region_lem zero {m} {xs} r p limit v h e o = (
  m,
  xs,
  ground arith,
  record { list = v; members = λ j. ground arith; same_size = refl; same_huge = λ j. refl },
)
init_region_lem (suc left) {m} {xs} r p limit v h e o = elim (Bool-cases (ltb (p * 4096) limit)) [
  | inr n ↦ (
    m,
    xs,
    rw n refl,
    record { list = v; members = λ j. ground arith; same_size = refl; same_huge = λ j. refl },
  )
  | inl n ↦
      let below : p * 4096 < limit = ltb→lt (p * 4096) limit n in
      let (m₁, ys, run, g) = init_page_lem r p v (omega arith) (o p (ground arith)) in
      let (m₂, zs, rest, g') =
        init_region_lem left r (suc p) limit g.list (omega arith) (rw g.same_size e)
          (λ j i. ground (arith, g.members j, o j)) in
      let next : add64 (p * 4096) 4096 ≡ suc p * 4096 = omega (arith, v.bounded) in
      (m₂, zs, rw (n, run, next) rest, both_Grown {m₂ = m₂} {zs = zs} g g' λ j. ground arith)
]

init_entry_lem :
    {m : Memory} {xs : List ℕ} (r : Kept) (e : MmapEntry) (rest : List MmapEntry)
    → IsFreeList m xs
    → Separate m.npages e rest
    → ((j : ℕ) → inside e.addr (e.addr + e.len) j ≡ true → has j xs ≡ false)
    → RegionRun (suc (e.len / 4096)) r e.addr (e.addr + e.len) m xs
init_entry_lem {m} {xs} r e rest v s o =
    let start : e.addr / 4096 * 4096 ≡ e.addr = omega (arith, s.aligned) in
    subst (λ (a : ℕ). RegionRun (suc (e.len / 4096)) r a (e.addr + e.len) m xs) start
      (init_region_lem (suc (e.len / 4096)) r (e.addr / 4096) (e.addr + e.len) v (omega arith)
        s.ends (rw start o))

-- If every free entry starts at a page, ends within the array and shares no page with another, the
-- loop puts exactly the pages that the entries cover and that are not kept on the free list.
pub init_entries_lem :
    (entries : List MmapEntry) {m : Memory} {xs : List ℕ} (r : Kept)
    → IsFreeList m xs
    → Regions m.npages entries
    → ((j : ℕ) → covered entries j ≡ true → has j xs ≡ false)
    → (m' : Memory) × (ys : List ℕ) × (init_entries r entries m ≡ ok tt m')
      × Grown m xs (usable r entries) m' ys
unfolding init_entries
init_entries_lem [] {m} {xs} r v s o = (
  m,
  xs,
  refl,
  record { list = v; members = λ j. ground arith; same_size = refl; same_huge = λ j. refl },
)
init_entries_lem (e ∷ rest) {m} {xs} r v s o = elim (Bool-cases e.is_free) [
  | inr n ↦
      let (m₁, ys, run, g) = init_entries_lem rest r v s.1 (λ j c. ground (arith, o j)) in
      (m₁, ys, rw n run, same_Grown g λ j. ground arith)
  | inl y ↦
      let limit : add64 e.addr e.len ≡ e.addr + e.len = omega (arith, (s.0 y).ends, v.bounded) in
      let (m₁, ys, run, g) = init_entry_lem r e rest v (s.0 y) (λ j i. ground (arith, o j)) in
      let (m₂, zs, next, g') =
        init_entries_lem rest r g.list (rw g.same_size s.1)
          (λ j c. ground (arith, o j, g.members j, (s.0 y).apart j)) in
      (m₂, zs, rw (y, limit, run) next, both_Grown {m₂ = m₂} {zs = zs} g g' λ j. ground arith)
]
