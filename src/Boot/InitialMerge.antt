-- ===== src/Boot/InitialMerge.antt =====
-- What initial_merge of kern/lab1.c may make of a free list, and that turning one block into a huge page
-- is such a change.
use kp.Base.{
  ℕ, zero, suc, ◌+◌, ◌-◌, ◌%◌, ◌<◌, ◌≤◌, ◌≡◌, ◌≢◌, ◌⊎◌, ◌∙◌, refl, true, false, ◌&&◌, ◌==◌, ltb,
  leb, if◌then◌else◌, List, arith, ==_refl, ==_iff, Bool-cases, inl, inr,
}
use kp.Pages.{Memory}
use kp.Pages.FreeList.{IsFreeList}
use kp.Pages.FreeList.Lists.{has}
use kp.Pages.FreeList.Push.{sized-IsFreeList}
use kp.Pages.Links.Delete.{removed}
use kp.Pages.Merge.Absorb.{absorbed, erase_range, has-erase_range, marked}

-- What merging makes of a memory with the free list `xs`: members only leave it, and each that is
-- gone is inside the block of a huge page that is on the list.
pub record Coalesced (m : Memory) (xs : List ℕ) (m' : Memory) (ys : List ℕ) : Type 0 where
  pub list : IsFreeList m' ys
  pub same_size : m'.npages ≡ m.npages
  pub only : (j : ℕ) → has j ys ≡ true → has j xs ≡ true
  pub gone :
      (j : ℕ)
      → has j xs ≡ true
      → has j ys ≡ false
      → (has (j - j % 512) ys ≡ true) × ((m'.pages (j - j % 512)).is_huge ≡ 1) × (j % 512 ≢ 0)
  pub stays : (j : ℕ) → (m.pages j).is_huge ≡ 1 → (m'.pages j).is_huge ≡ 1
  pub block :
      (j : ℕ)
      → (m'.pages j).is_huge ≢ 0
      → ((m.pages j).is_huge ≢ 0)
        ⊎ ((j % 512 ≡ 0)
            × ((k : ℕ) → j ≤ k → k < j + 512 → has k xs ≡ true)
            × ((k : ℕ) → j < k → k < j + 512 → has k ys ≡ false))

-- Nothing may change, and two such changes make one.
pub refl_Coalesced : {m : Memory} {xs : List ℕ} → IsFreeList m xs → Coalesced m xs m xs
refl_Coalesced v = record {
  list = v;
  same_size = refl;
  only = λ j i. i;
  gone = λ j i o. cc;
  stays = λ j e. e;
  block = λ j h. inl h;
}

still_out :
    {m m' : Memory} {xs ys : List ℕ}
    → Coalesced m xs m' ys
    → (k : ℕ) → has k xs ≡ false
    → has k ys ≡ false
still_out {ys = ys} c k o = elim (Bool-cases (has k ys)) [
  | inl t ↦ absurd (ground (arith, c.only k t))
  | inr f ↦ f
]

pub trans_Coalesced :
    {m m₁ m₂ : Memory} {xs ys zs : List ℕ}
    → Coalesced m xs m₁ ys
    → Coalesced m₁ ys m₂ zs
    → Coalesced m xs m₂ zs
trans_Coalesced {m} {m₁} {m₂} {xs} {ys} {zs} a b = record {
  list = b.list;
  same_size = b.same_size ∙ a.same_size;
  only = λ j i. a.only j (b.only j i);
  gone = λ j i o. elim (Bool-cases (has j ys)) [
    | inl h ↦ b.gone j h o
    | inr h ↦
        let (head, huge, inside) = a.gone j i h in
        elim (Bool-cases (has (j - j % 512) zs)) [
          | inl t ↦ (t, b.stays (j - j % 512) huge, inside)
          | inr f ↦ absurd ((b.gone (j - j % 512) head f).2 (omega arith))
        ]
  ];
  stays = λ j e. b.stays j (a.stays j e);
  block = λ j h. elim (b.block j h) [
    | inr (d, f, g) ↦ inr (d, (λ k l u. a.only k (f k l u)), g)
    | inl h ↦ elim (a.block j h) [
      | inl n ↦ inl n
      | inr (d, f, g) ↦ inr (d, f, λ k l u. still_out b k (g k l u))
    ]
  ];
}

-- Taking a block off the list changes neither the number of pages nor their sizes.
pub absorbed_lem :
    (n p : ℕ) (m : Memory)
    → ((absorbed n p m).npages ≡ m.npages)
      × ((j : ℕ) → ((absorbed n p m).pages j).is_huge ≡ (m.pages j).is_huge)
unfolding absorbed
absorbed_lem zero p m = (refl, λ j. refl)
absorbed_lem (suc n) p m =
    let (a, b) = absorbed_lem n (suc p) (removed p m) in (a, λ j. b j ∙ ground arith)

-- The memory and the list once the block of `s` is a huge page.
pub block-Coalesced :
    {m : Memory} {xs : List ℕ} (s : ℕ)
    → IsFreeList m xs
    → IsFreeList (absorbed 511 (suc s) m) (erase_range 511 (suc s) xs)
    → s % 512 ≡ 0
    → ((j : ℕ) → s ≤ j → j < s + 512 → has j xs ≡ true)
    → Coalesced m xs (marked s (absorbed 511 (suc s) m)) (erase_range 511 (suc s) xs)
block-Coalesced {m} {xs} s v w d all =
    let (size, huge) = absorbed_lem 511 (suc s) m in
    let members : (q : ℕ)
        → has q (erase_range 511 (suc s) xs)
          ≡ (if leb (suc s) q && ltb q (suc s + 511) then false else has q xs) =
      λ q. has-erase_range 511 (suc s) q m xs v (λ j l u. all j (omega arith) (omega arith)) in
    record {
      list = sized-IsFreeList 1 s w;
      same_size = size;
      only = λ j i. ground (arith, members j);
      gone = λ j i o.
          let inside : (s < j) × (j < s + 512) =
            elim (Bool-cases (leb (suc s) j && ltb j (suc s + 511))) [
              | inl t ↦ (ground arith, ground arith)
              | inr f ↦ absurd (ground (arith, members j))
            ] in
          let head : j - j % 512 ≡ s = omega (arith, inside.0, inside.1, d) in
          (
            rw head (ground (arith, members s, all s)),
            rw (head, ==_refl s) refl,
            omega (arith, inside.0, inside.1, d),
          );
      stays = λ j e. ground (arith, huge j);
      block = λ j h. elim (Bool-cases (s == j)) [
        | inl e ↦
            let same : s ≡ j = (==_iff s j).0 e in
            inr (
              omega (arith, same, d),
              (λ k l u. all k (omega (arith, same)) (omega (arith, same))),
              λ k l u. ground (arith, members k, same),
            )
        | inr e ↦ inl (rw⁻¹ (huge j) (rw e at h))
      ];
    }
