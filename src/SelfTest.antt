-- ===== src/SelfTest.antt =====
-- The tests of kern/pmap.c that the kernel runs on itself at boot.
--
-- A failed assert is a panic. `kernel_vma` is KERNEL_VMA.
pub mod FreeList
pub mod Segments
pub mod Halves
pub mod Separating
pub mod LowFirst
pub mod Reordered
pub mod Alloc
pub mod Tables
pub mod Mappings
pub mod KernelMapped
pub mod Pages
pub mod Installed
mod Tests
use kp.Base.{
  ℕ, zero, suc, ◌+◌, ◌-◌, ◌*◌, ◌/◌, ◌%◌, ◌^◌, ◌==◌, ltb, leb, Bool, true, false, not, ◌&&◌, ◌||◌,
  if◌then◌else◌, Option, none, some,
}
use kp.Run.{Run, ok, panic, fault, out_of_fuel, Cmd, pure, get, ◌>>=◌, ◌>>◌}
use kp.Words.{has_bit}
use kp.Pages.{Memory, is_none, page_at, page2pa, kaddr}
use kp.Pages.Allocator.{page_alloc}

abbrev pub assert : {S : Type 0} → Bool → Cmd S (Unit {0})
assert true = pure tt
assert false = λ _. panic

-- assert(p) for a pointer, and assert((p = page_alloc(flags))).
abbrev pub require : {S A : Type 0} → Option A → Cmd S A
require none = λ _. panic
require (some a) = pure a

unfoldable pub alloc_asserted : ℕ → Cmd Memory ℕ
alloc_asserted flags = do p ← page_alloc flags; require p

-- assert(!page_alloc(0))
unfoldable pub assert_no_page : Cmd Memory (Unit {0})
assert_no_page = do p ← page_alloc 0; assert (is_none p)

-- memset(page2kva(pp), c, n) for `n` a multiple of 8.
unfoldable pub fill_page : ℕ → ℕ → ℕ → Cmd Memory (Unit {0})
unfolding kaddr page2pa
fill_page p c n = do
  f ← kaddr (page2pa p)
  λ m. ok tt (record m {
    frames = λ g i. if g == f && ltb i (n / 8) then c * 0x0101_0101_0101_0101 else m.frames g i;
  })

-- The number of pages on the free list.
unfoldable pub count_free : ℕ → Option ℕ → Cmd Memory ℕ
count_free fuel none m = ok 0 m
count_free zero (some p) m = out_of_fuel
count_free (suc fuel) (some p) m = (do c ← page_at p; n ← count_free fuel c.pp_link; pure (n + 1)) m

unfoldable pub count_free_list : Cmd Memory ℕ
count_free_list m = count_free m.npages m.page_free_list m
