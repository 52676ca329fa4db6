-- ===== src/Pages/Allocator/Alloc.antt =====
-- page_alloc of kern/pmap.c: when it returns a page, and what it leaves.
use kp.Base.{
  ℕ, suc, ◌+◌, ◌*◌, ◌<◌, ◌≤◌, ◌≡◌, ◌≢◌, ◌⊎◌, refl, ◌∙◌, ap, true, false, Option, none, some, List,
  [], ◌∷◌, if◌then◌else◌, arith, ◌==◌, lt→leb, ltb, leb, ◌%◌, ◌^◌, ◌/◌, ◌&&◌, inl, inr, Bool-cases,
  Option-cases,
}
use kp.Run.{Run, ok}
use kp.Words.{has_bit}
use kp.Pages.{Memory, page2pa, zero_frames, kaddr}
use kp.Pages.FreeList.{IsFreeList}
use kp.Pages.FreeList.Lists.{has, erase, has-erase}
use kp.Pages.FreeList.Push.{onto, has-onto, pushed_range-frames}
use kp.Pages.Links.Delete.{
  removed, removed-IsFreeList, first_sized, has-first_sized, delete_from_free_lem,
}
use kp.Pages.Allocator.{alloc_small, alloc_zero, alloc_from, split_head, split_page, page_alloc}
use kp.Pages.Allocator.Split.{taken_small, split, split_page_lem}

-- The block of a free huge page lies inside the array, and its other pages are not in the list.
abbrev pub HasBlocks : Memory → List ℕ → Type 0
HasBlocks m xs =
    (p : ℕ)
    → has p xs ≡ true
    → (m.pages p).is_huge ≢ 0
    → (p + 512 ≤ m.npages) × ((j : ℕ) → p < j → j < p + 512 → has j xs ≡ false)

-- What taking the small page `p` makes of the free list `xs`: the other members stay, and at most
-- the rest of `p`'s own block is new.
pub record Taken (m : Memory) (xs : List ℕ) (p : ℕ) (m' : Memory) (ys : List ℕ) : Type 0 where
  pub valid : IsFreeList m' ys
  pub was_free : has p xs ≡ true
  pub now_taken : has p ys ≡ false
  pub kept : (j : ℕ) → has j xs ≡ true → (p == j) ≡ false → has j ys ≡ true
  pub added :
      (j : ℕ)
      → has j ys ≡ true
      → (has j xs ≡ true) ⊎ (((m.pages p).is_huge ≢ 0) × (p < j) × (j < p + 512))
  pub same_frames : m'.frames ≡ m.frames
  pub same_npages : m'.npages ≡ m.npages

module _ {m : Memory} {xs : List ℕ} (v : IsFreeList m xs) where
  removed-Taken : (p : ℕ) → has p xs ≡ true → Taken m xs p (removed p m) (erase p xs)
  removed-Taken p i = record {
    valid = removed-IsFreeList v p i;
    was_free = i;
    now_taken = ground (arith, has-erase p p xs v.distinct);
    kept = λ j h n. ground (arith, has-erase p j xs v.distinct);
    added = λ j h. inl (ground (arith, has-erase p j xs v.distinct));
    same_frames = refl;
    same_npages = refl;
  }

split-Taken :
    {m : Memory} {p : ℕ} {xs : List ℕ}
    → IsFreeList m (p ∷ xs)
    → HasBlocks m (p ∷ xs)
    → (m.pages p).is_huge ≢ 0
    → (split_page p m ≡ ok (some p) (split p m))
      × Taken m (p ∷ xs) p (split p m) (onto 511 (suc p) xs)
split-Taken {m} {p} {xs} v blocks huge =
    let (fits, inside) = blocks p (ground arith) huge in
    let (run, w) = split_page_lem v fits (λ j h k. ground (arith, inside j)) in
    let (f, n) = pushed_range-frames 511 (suc p) (taken_small p m) in
    (
      run,
      record {
        valid = w;
        was_free = ground arith;
        now_taken = ground (arith, has-onto 511 (suc p) p xs);
        kept = λ j h n. ground (arith, has-onto 511 (suc p) j xs);
        added = λ j h. elim (Bool-cases (has j xs)) [
          | inl i ↦ inl (ground arith)
          | inr o ↦ inr (
            huge,
            ground (arith, has-onto 511 (suc p) j xs),
            ground (arith, has-onto 511 (suc p) j xs),
          )
        ];
        same_frames = f;
        same_npages = n;
      },
    )

-- With any free page, a small page is found: the first small one, or the start of a huge one.
pub alloc_small-Taken :
    {m : Memory} (xs : List ℕ)
    → IsFreeList m xs
    → HasBlocks m xs
    → xs ≢ []
    → (p : ℕ) × (m' : Memory) × (ys : List ℕ) × (alloc_small m ≡ ok (some p) m')
      × Taken m xs p m' ys
unfolding alloc_small split_head
alloc_small-Taken [] v blocks ne = absurd (ne refl)
alloc_small-Taken {m} (x ∷ xs) v blocks ne = elim (Option-cases (first_sized m.pages 0 (x ∷ xs))) [
  | inl n ↦
      let (run, t) = split-Taken v blocks (ground arith) in
      (x, _, _, rw (delete_from_free_lem 0 v, n) (ground arith), t)
  | inr (p, e) ↦
      let (i, s) = has-first_sized m.pages 0 p (x ∷ xs) e in
      (p, _, _, rw (delete_from_free_lem 0 v, e) refl, removed-Taken v p i)
]

-- The memory with the `n` frames from `p` on set to zero.
abbrev pub zeroed : ℕ → ℕ → Memory → Memory
zeroed p n m = record m { frames = λ g. if leb p g && ltb g (p + n) then (λ _. 0) else m.frames g }

zero_frames_lem :
    (p n : ℕ) (m : Memory)
    → p < m.npages
    → m.npages ≤ 2 ^ 36
    → zero_frames p n m ≡ ok tt (zeroed p n m)
unfolding zero_frames kaddr page2pa
zero_frames_lem p n m h b =
    let here : p * 4096 % 2 ^ 64 / 4096 ≡ p = omega arith in rw (here, lt→leb m.npages p h)

outside : (p f : ℕ) (m : Memory) → (p == f) ≡ false → (zeroed p 1 m).frames f ≡ m.frames f
outside p f m n = let no_test : (leb p f && ltb f (p + 1)) ≡ false = ground arith in rw no_test

-- What page_alloc promises of a page that it returns for a small request.
pub record Allocated (flags : ℕ) (m : Memory) (xs : List ℕ) (p : ℕ) (m' : Memory) (ys : List ℕ)
    : Type 0 where
  pub valid : IsFreeList m' ys
  pub was_free : has p xs ≡ true
  pub now_taken : has p ys ≡ false
  pub kept : (j : ℕ) → has j xs ≡ true → (p == j) ≡ false → has j ys ≡ true
  pub added :
      (j : ℕ)
      → has j ys ≡ true
      → (has j xs ≡ true) ⊎ (((m.pages p).is_huge ≢ 0) × (p < j) × (j < p + 512))
  pub zero : has_bit flags 0 ≡ true → (i : ℕ) → m'.frames p i ≡ 0
  pub same_frames : (f : ℕ) → (p == f) ≡ false → m'.frames f ≡ m.frames f
  pub same_count : m'.npages ≡ m.npages

alloc_zero_lem :
    (flags p : ℕ) (m : Memory)
    → p < m.npages
    → m.npages ≤ 2 ^ 36
    → alloc_zero flags p m
      ≡ ok tt (
          if has_bit flags 0 then (if has_bit flags 1 then zeroed p 512 m else zeroed p 1 m) else m)
unfolding alloc_zero
alloc_zero_lem flags p m h b =
    ground (arith, zero_frames_lem p 512 m h b, zero_frames_lem p 1 m h b)

page_alloc-alloc_from :
    (flags : ℕ) {m : Memory} (xs : List ℕ)
    → IsFreeList m xs
    → xs ≢ []
    → page_alloc flags m ≡ alloc_from flags m
unfolding page_alloc
page_alloc-alloc_from flags [] v ne = absurd (ne refl)
page_alloc-alloc_from flags {m} (x ∷ xs) v ne = ground (arith, v.chain)

-- With no free page page_alloc returns NULL and changes nothing.
pub page_alloc-empty : (flags : ℕ) {m : Memory} → IsFreeList m [] → page_alloc flags m ≡ ok none m
unfolding page_alloc
page_alloc-empty flags {m} v = ground (arith, v.chain)

-- The pages of a memory do not depend on the contents of its frames.
zeroed-IsFreeList :
    {m : Memory} {xs : List ℕ} (p n : ℕ) → IsFreeList m xs → IsFreeList (zeroed p n m) xs
zeroed-IsFreeList p n v = record {
  chain = v.chain;
  distinct = v.distinct;
  in_range = v.in_range;
  available = v.available;
  detached = v.detached;
  bounded = v.bounded;
}

module _ (flags : ℕ) {m : Memory} {xs : List ℕ} (v : IsFreeList m xs) where
  -- If the free list is well formed and not empty, and the block of 512 pages of each huge
  -- member lies in the array and holds no other member, then page_alloc without ALLOC_HUGE
  -- returns a page that was free; it is off the list, which stays well formed, keeps all other
  -- members and gains at most other pages of the returned page's own block, which was then a
  -- huge page's; with ALLOC_ZERO the page's frame is all zeros, and no other frame changes, nor
  -- does the number of pages.
  pub page_alloc-Allocated :
      HasBlocks m xs
      → xs ≢ []
      → has_bit flags 1 ≡ false
      → (p : ℕ) × (m' : Memory) × (ys : List ℕ) × (page_alloc flags m ≡ ok (some p) m')
        × Allocated flags m xs p m' ys
  unfolding alloc_from
  page_alloc-Allocated blocks ne small =
      let (p, m', ys, run, t) = alloc_small-Taken xs v blocks ne in
      let fits : p < m'.npages = rw (t.same_npages) (v.in_range p t.was_free) in
      (
        p,
        (if has_bit flags 0 then zeroed p 1 m' else m'),
        ys,
        page_alloc-alloc_from flags xs v ne
            ∙ rw (small, run, alloc_zero_lem flags p m' fits t.valid.bounded) (rw small refl),
        record {
          valid = elim (Bool-cases (has_bit flags 0)) [
            | inl e ↦ rw e (zeroed-IsFreeList p 1 t.valid)
            | inr e ↦ rw e t.valid
          ];
          was_free = t.was_free;
          now_taken = t.now_taken;
          kept = t.kept;
          added = t.added;
          zero = λ e i. rw e (ground arith);
          same_frames = λ f n.
              let same : m'.frames f ≡ m.frames f = ap (λ (g : ℕ → ℕ → ℕ). g f) t.same_frames in
              elim (Bool-cases (has_bit flags 0)) [
                | inl e ↦ rw e (outside p f m' n ∙ same)
                | inr e ↦ rw e same
              ];
          same_count = elim (Bool-cases (has_bit flags 0)) [
            | inl e ↦ rw e t.same_npages
            | inr e ↦ rw e t.same_npages
          ];
        },
      )

-- What a huge request returns and leaves, by the first huge page of the list.
abbrev pub huge_outcome : ℕ → Memory → Option ℕ → Run Memory (Option ℕ)
huge_outcome flags m none = ok none m
huge_outcome flags m (some p) =
    ok (some p) (if has_bit flags 0 then zeroed p 512 (removed p m) else removed p m)

-- With a well-formed free list, page_alloc with ALLOC_HUGE returns the first huge page of the
-- list and takes it off, zeroing its 512 frames if ALLOC_ZERO is given; if the list has no huge
-- page it returns NULL and changes nothing.
pub page_alloc-huge :
    (flags : ℕ) {m : Memory} (xs : List ℕ)
    → IsFreeList m xs
    → has_bit flags 1 ≡ true
    → page_alloc flags m ≡ huge_outcome flags m (first_sized m.pages 1 xs)
unfolding alloc_from
page_alloc-huge flags [] v huge = page_alloc-empty flags v
page_alloc-huge flags {m} (x ∷ xs) v huge =
    page_alloc-alloc_from flags (x ∷ xs) v (λ e. cc)
    ∙ elim (Option-cases (first_sized m.pages 1 (x ∷ xs))) [
      | inl n ↦ rw (huge, delete_from_free_lem 1 v, n) refl
      | inr (p, e) ↦
          let (i, _) = has-first_sized m.pages 1 p (x ∷ xs) e in
          rw
            (
              huge,
              delete_from_free_lem 1 v,
              e,
              alloc_zero_lem flags p (removed p m) (v.in_range p i) v.bounded,
            )
            (rw huge refl)
    ]
