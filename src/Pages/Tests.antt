-- ===== src/Pages/Tests.antt =====
-- The allocator on a small memory: 1024 pages, of which the huge page 512 and page 7 are free.
use kp.Base.{ℕ, ◌^◌, ◌≡◌, refl, inr, none, some, List, [], ◌∷◌, if◌then◌else◌, arith, ◌==◌}
use kp.Run.{ok, panic, ◌>>◌}
use kp.Words.{has_bit}
use kp.Pages.{PageInfo, Memory}
use kp.Pages.FreeList.{IsFreeList}
use kp.Pages.FreeList.Push.{pushed}
use kp.Pages.Links.{delete_from_free}
use kp.Pages.Links.Delete.{removed, delete_from_free_lem}
use kp.Pages.Merge.Absorb.{Merged}
use kp.Pages.Allocator.{page_alloc, page_free}
use kp.Pages.Allocator.Free.{page_free-twice, page_free-huge, page_free-Merged, page_free-high}
use kp.Pages.Allocator.Alloc.{HasBlocks, Allocated, page_alloc-Allocated, page_alloc-huge}

abbrev taken_page : PageInfo
taken_page = record { pp_link = none; previous = none; is_huge = 0; pp_ref = 0; is_available = 0 }

abbrev two_free : Memory
two_free = record {
  npages = 1024;
  null_pa = 0;
  pages = λ p.
      if p == 512
      then record { pp_link = some 7; previous = none; is_huge = 1; pp_ref = 0; is_available = 1 }
      else if p == 7
      then record { pp_link = none; previous = some 512; is_huge = 0; pp_ref = 0; is_available = 1 }
      else taken_page;
  page_free_list = some 512;
  frames = λ f i. 9;
  flushed = [];
}

abbrev free_pages : List ℕ
free_pages = 512 ∷ 7 ∷ []

two_free-IsFreeList : IsFreeList two_free free_pages
two_free-IsFreeList = record {
  chain = (refl, refl, (refl, refl, refl));
  distinct = (refl, (refl, tt));
  in_range = λ p h. ground arith;
  available = λ p h. ground arith;
  detached = λ p h o. (ground arith, ground arith);
  bounded = omega arith;
}

two_free-HasBlocks : HasBlocks two_free free_pages
two_free-HasBlocks p h n = ground arith

delete_from_free_lem_example : delete_from_free 0 two_free ≡ ok (some 7) (removed 7 two_free)
delete_from_free_lem_example = delete_from_free_lem 0 two_free-IsFreeList

page_alloc-Allocated_example :
    (p : ℕ) × (m' : Memory) × (ys : List ℕ) × (page_alloc 1 two_free ≡ ok (some p) m')
    × Allocated 1 two_free free_pages p m' ys
unfolding has_bit
page_alloc-Allocated_example =
    page_alloc-Allocated 1 two_free-IsFreeList two_free-HasBlocks (λ e. cc) refl

page_alloc-huge_example : page_alloc 2 two_free ≡ ok (some 512) (removed 512 two_free)
unfolding has_bit
page_alloc-huge_example = page_alloc-huge 2 free_pages two_free-IsFreeList refl

-- Page 9 is not free, so freeing page 8 does not complete the first block.
page_free-twice_example : (page_free 8 >> page_free 8) two_free ≡ panic
page_free-twice_example =
    page_free-twice 8 two_free-IsFreeList (omega arith) refl refl
      (inr (refl, omega arith, omega arith, 9, omega arith, omega arith, refl))

page_free-Merged_example :
    (m' : Memory) × (ys : List ℕ) × (page_free 8 two_free ≡ ok tt m')
    × Merged (pushed 0 8 two_free) 0 (8 ∷ free_pages) m' ys
    × IsFreeList m' ys
page_free-Merged_example =
    page_free-Merged two_free-IsFreeList 8 (omega arith) refl refl refl (omega arith) (omega arith)

-- A huge page that is in use.
abbrev huge_taken : Memory
huge_taken = record two_free {
  pages = λ p. if p == 0 then record taken_page { is_huge = 1 } else two_free.pages p;
}

huge_taken-IsFreeList : IsFreeList huge_taken free_pages
huge_taken-IsFreeList = record {
  chain = (refl, refl, (refl, refl, refl));
  distinct = (refl, (refl, tt));
  in_range = λ p h. ground arith;
  available = λ p h. ground arith;
  detached = λ p h o. (ground arith, ground arith);
  bounded = omega arith;
}

page_free-huge_example :
    (page_free 0 huge_taken ≡ ok tt (pushed 1 0 huge_taken))
    × IsFreeList (pushed 1 0 huge_taken) (0 ∷ free_pages)
page_free-huge_example =
    page_free-huge huge_taken-IsFreeList 0 (omega arith) refl refl (λ e. omega arith)

-- With 4 GB of memory, page 2 ^ 19 + 1 is in use.
abbrev large : Memory
large = record two_free { npages = 2 ^ 20 }

large-IsFreeList : IsFreeList large free_pages
large-IsFreeList = record {
  chain = (refl, refl, (refl, refl, refl));
  distinct = (refl, (refl, tt));
  in_range = λ p h. ground arith;
  available = λ p h. ground arith;
  detached = λ p h o. (ground arith, ground arith);
  bounded = omega arith;
}

page_free-high_example : page_free 0x80001 large ≡ panic
page_free-high_example =
    page_free-high large-IsFreeList 0x80001 (omega arith) refl refl refl (omega arith) (omega arith)
      (omega arith)
