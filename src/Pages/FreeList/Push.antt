-- ===== src/Pages/FreeList/Push.antt =====
-- Putting a page, or the pages of a split block, at the front of the free list.
use kp.Base.{
  ℕ, zero, suc, ◌+◌, ◌&&◌, ◌||◌, leb, ltb, ◌<◌, ◌≡◌, refl, false, none, some, List, [], ◌∷◌,
  if◌then◌else◌, arith, ◌==◌, inl, inr,
}
use kp.Pages.{Memory}
use kp.Pages.FreeList.{Chain, IsFreeList}
use kp.Pages.FreeList.Lists.{has, IsDistinct}
use kp.Pages.FreeList.Chain.{points, Chain-frame, head_cases}

-- The memory with `p` in front of the free list, as a page of size `ishuge`.
abbrev pub pushed : ℕ → ℕ → Memory → Memory
pushed ishuge p m = record m {
  pages = λ j.
      if p == j
      then record (m.pages p) {
        pp_link = m.page_free_list;
        previous = none;
        is_huge = ishuge;
        is_available = 1;
      }
      else record (m.pages j) {
        previous = if points m.page_free_list j then some p else (m.pages j).previous;
      };
  page_free_list = some p;
}

pushed-Chain :
    (m : Memory) (ishuge p : ℕ) (xs : List ℕ)
    → Chain m.pages none m.page_free_list xs
    → IsDistinct xs
    → has p xs ≡ false
    → Chain (pushed ishuge p m).pages (some p) m.page_free_list xs
pushed-Chain m ishuge p [] c d o = c
pushed-Chain m ishuge p (y ∷ ys) c d o = (
  c.0,
  ground arith,
  rw same_link (
      Chain-frame m.pages (pushed ishuge p m).pages (some y) (m.pages y).pp_link ys c.2
        λ j i. (ground arith, ground arith)),
)
  where
    same_link : ((pushed ishuge p m).pages y).pp_link ≡ (m.pages y).pp_link
    same_link = ground arith

module _ {m : Memory} {xs : List ℕ} (ishuge p : ℕ) (v : IsFreeList m xs) (hp : p < m.npages)
    (o : has p xs ≡ false) where
  -- Nothing that is not in the list is pointed to by its head.
  pub not_first : (j : ℕ) → has j xs ≡ false → points m.page_free_list j ≡ false
  not_first j n = elim (head_cases m.pages p none m.page_free_list xs v.chain) [
    | inl e ↦ ground arith
    | inr (r, e, i) ↦ ground arith
  ]

  -- A page that is not free can be put in front.
  pub pushed-IsFreeList : IsFreeList (pushed ishuge p m) (p ∷ xs)
  pushed-IsFreeList = record {
    chain = (refl, ground arith, rw own_link (pushed-Chain m ishuge p xs v.chain v.distinct o));
    distinct = (o, v.distinct);
    in_range = λ j h. ground (arith, v.in_range j);
    available = λ j h. ground (arith, v.available j h);
    detached =
        λ j h n. (ground (arith, v.detached j h), ground (arith, v.detached j h, not_first j));
    bounded = v.bounded;
  }
    where
      own_link : ((pushed ishuge p m).pages p).pp_link ≡ m.page_free_list
      own_link = ground arith

-- The memory with another size of page `p`.
abbrev pub sized : ℕ → ℕ → Memory → Memory
sized ishuge p m = record m {
  pages = λ j. if p == j then record (m.pages p) { is_huge = ishuge } else m.pages j;
}

pub sized-IsFreeList :
    {m : Memory} {xs : List ℕ} (ishuge p : ℕ) → IsFreeList m xs → IsFreeList (sized ishuge p m) xs
sized-IsFreeList {m} {xs} ishuge p v = record {
  chain =
      Chain-frame m.pages (sized ishuge p m).pages none m.page_free_list xs v.chain
        (λ j i. (ground arith, ground arith));
  distinct = v.distinct;
  in_range = v.in_range;
  available = λ j h. ground (arith, v.available j h);
  detached = λ j h n. ground (arith, v.detached j h n);
  bounded = v.bounded;
}

-- The `n` pages from `p` on, put in front of the list one after the other.
unfoldable pub pushed_range : ℕ → ℕ → Memory → Memory
pushed_range zero p m = m
pushed_range (suc n) p m = pushed_range n (suc p) (pushed 0 p m)

unfoldable pub onto : ℕ → ℕ → List ℕ → List ℕ
onto zero p xs = xs
onto (suc n) p xs = onto n (suc p) (p ∷ xs)

pub has-onto :
    (n p j : ℕ) (xs : List ℕ) → has j (onto n p xs) ≡ ((leb p j && ltb j (p + n)) || has j xs)
unfolding onto
has-onto zero p j xs = ground arith
has-onto (suc n) p j xs = ground (arith, has-onto n (suc p) j (p ∷ xs))

-- Pushing leaves the contents of the frames, and the sizes of the other pages, alone.
pub pushed_range-frames :
    (n p : ℕ) (m : Memory)
    → ((pushed_range n p m).frames ≡ m.frames) × ((pushed_range n p m).npages ≡ m.npages)
unfolding pushed_range
pushed_range-frames zero p m = (refl, refl)
pushed_range-frames (suc n) p m = pushed_range-frames n (suc p) (pushed 0 p m)
