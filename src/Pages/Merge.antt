-- ===== src/Pages/Merge.antt =====
-- merge_after_free of kern/lab1.c: after a small page is freed, its 2 MB block becomes one huge
-- page if all its pages are free and stand in the free list in the order of their addresses.
pub mod Block
pub mod Absorb
use kp.Base.{
  ℕ, zero, suc, ◌+◌, ◌-◌, ◌*◌, ◌%◌, ◌^◌, ◌==◌, ltb, Bool, true, false, not, ◌&&◌, ◌||◌,
  if◌then◌else◌, Option, none, some,
}
use kp.Run.{out_of_fuel, Cmd, pure, get, ◌>>=◌, ◌>>◌}
use kp.Words.{add64, page_size, small_pages_in_huge, word}
use kp.Pages.{PageInfo, Memory, page_at, modify_page, detach, page2pa, pa2page}
use kp.Pages.Links.{unlink_unchecked}

-- `int addr` is its 32-bit pattern; a conversion to 64 bits extends its sign.
abbrev pub to_int : ℕ → ℕ
to_int x = x % 2 ^ 32

unfoldable pub from_int : ℕ → ℕ
from_int a = if ltb a (2 ^ 31) then a else a + (word - 2 ^ 32)

abbrev pub huge_size : ℕ
huge_size = small_pages_in_huge * page_size

-- while (addr % (SMALL_PAGES_IN_HUGE * PAGE_SIZE) != 0) addr -= PAGE_SIZE;
unfoldable pub align_loop : ℕ → ℕ → Option ℕ
align_loop zero addr = none
align_loop (suc fuel) addr =
    let rest = align_loop fuel ((addr + 2 ^ 32 - page_size) % 2 ^ 32) in
    if addr % huge_size == 0 then some addr else rest

unfoldable pub block_start : ℕ → Cmd Memory ℕ
block_start target =
    let addr = to_int (page2pa target) in
    if addr % huge_size == 0
    then pure target
    else elim (align_loop (suc small_pages_in_huge) addr) [
      | none ↦ λ _. out_of_fuel
      | some start ↦ pa2page (from_int start)
    ]

abbrev pub pointer_pa : Memory → Option ℕ → ℕ
pointer_pa m none = m.null_pa
pointer_pa m (some p) = page2pa p

-- The test of one page of the block.
unfoldable pub breaks_block : Memory → ℕ → ℕ → PageInfo → Bool
unfolding page2pa
breaks_block m start cur c =
    (not (cur == start) && not (add64 (pointer_pa m c.previous) page_size == page2pa cur))
    || not (c.is_available == 1)

unfoldable pub block_is_free : ℕ → ℕ → ℕ → Cmd Memory Bool
unfolding breaks_block
block_is_free zero start cur = pure true
block_is_free (suc n) start cur = do
  c ← page_at cur
  m ← get
  let rest = block_is_free n start (suc cur)
  if breaks_block m start cur c then pure false else rest

unfoldable pub absorb : ℕ → ℕ → Cmd Memory (Unit {0})
unfolding unlink_unchecked
absorb zero cur = pure tt
absorb (suc n) cur = do unlink_unchecked cur; modify_page cur detach; absorb n (suc cur)

abbrev pub mark_huge : PageInfo → PageInfo
mark_huge c = record c { is_huge = 1 }

unfoldable pub merge_block : ℕ → Cmd Memory (Unit {0})
merge_block start = do absorb (small_pages_in_huge - 1) (suc start); modify_page start mark_huge

unfoldable pub merge_after_free : ℕ → Cmd Memory (Unit {0})
merge_after_free target = do
  start ← block_start target
  free ← block_is_free small_pages_in_huge start start
  if free then merge_block start else pure tt
