-- ===== src/SelfTest/Alloc.antt =====
-- check_page_alloc of kern/pmap.c.
use kp.Base.{ℕ, zero, suc, ◌-◌, ◌*◌, ◌%◌, ◌==◌, ltb, leb, not, ◌&&◌, if◌then◌else◌, none}
use kp.Run.{ok, Cmd, pure, get, ◌>>=◌, ◌>>◌}
use kp.Words.{word, sub64}
use kp.Pages.{Memory, set_free_list, page2pa, kaddr}
use kp.Pages.Merge.{huge_size}
use kp.Pages.Allocator.{page_free}
use kp.SelfTest.{assert, alloc_asserted, assert_no_page, fill_page, count_free_list}

-- Three different pages.
unfoldable pub alloc_three : Cmd Memory (ℕ × ℕ × ℕ)
alloc_three = do
  pp0 ← alloc_asserted 0
  pp1 ← alloc_asserted 0
  pp2 ← alloc_asserted 0
  assert (not (pp1 == pp0))
  assert (not (pp2 == pp1) && not (pp2 == pp0))
  pure (pp0, pp1, pp2)

unfoldable pub assert_in_memory : ℕ → Cmd Memory (Unit {0})
assert_in_memory pp = do m ← get; assert (ltb (page2pa pp) (m.npages * 4096 % word))

unfoldable pub free_three : ℕ × ℕ × ℕ → Cmd Memory (Unit {0})
free_three p = do page_free p.0; page_free p.1; page_free p.2

-- for (i = 0; i < PAGE_SIZE; i++) assert(c[i] == 0);
unfoldable pub assert_zeros : ℕ → ℕ → Cmd Memory (Unit {0})
assert_zeros zero f m = ok tt m
assert_zeros (suc i) f m = (do assert (m.frames f (511 - i) == 0); assert_zeros i f) m

-- The page that is freed last is the one that is returned, cleared.
unfoldable pub check_flags : ℕ → Cmd Memory (Unit {0})
unfolding assert_zeros
check_flags pp0 = do
  fill_page pp0 1 4096
  page_free pp0
  pp ← alloc_asserted 1
  assert (pp0 == pp)
  f ← kaddr (page2pa pp)
  assert_zeros 512 f

-- With the rest of the free list put aside.
unfoldable pub check_alloc_small : Cmd Memory (Unit {0})
unfolding alloc_three assert_in_memory free_three check_flags
check_alloc_small = do
  nfree ← count_free_list
  pp ← alloc_three
  assert_in_memory pp.0
  assert_in_memory pp.1
  assert_in_memory pp.2
  m ← get
  let fl = m.page_free_list
  set_free_list none
  assert_no_page
  free_three pp
  pp ← alloc_three
  assert_no_page
  check_flags pp.0
  set_free_list fl
  free_three pp
  n ← count_free_list
  assert (n == nfree)

-- `page2pa(php0) % 512*PAGE_SIZE` is a product of a remainder.
unfoldable pub check_aligned : ℕ → Cmd Memory (Unit {0})
check_aligned php = assert (0 == page2pa php % 512 * 4096 % word)

unfoldable pub assert_apart : ℕ → ℕ → Cmd Memory (Unit {0})
assert_apart above below = assert (leb huge_size (sub64 (page2pa above) (page2pa below)))

unfoldable pub check_alloc_huge : ℕ → Cmd Memory (Unit {0})
unfolding check_aligned assert_apart
check_alloc_huge total_free = do
  pp0 ← alloc_asserted 0
  php0 ← alloc_asserted 2
  pp1 ← alloc_asserted 0
  assert (not (php0 == pp0))
  assert (not (pp1 == php0) && not (pp1 == pp0))
  check_aligned php0
  (if ltb (page2pa php0) (page2pa pp1) then assert_apart pp1 php0 else pure tt)
  page_free php0
  page_free pp0
  page_free pp1
  php0 ← alloc_asserted 2
  php1 ← alloc_asserted 2
  (if ltb (page2pa php0) (page2pa php1) then assert_apart php1 php0 else assert_apart php0 php1)
  page_free php0
  page_free php1
  n ← count_free_list
  assert (n == total_free)

unfoldable pub check_page_alloc : Cmd Memory (Unit {0})
unfolding check_alloc_small check_alloc_huge
check_page_alloc = do total_free ← count_free_list; check_alloc_small; check_alloc_huge total_free
