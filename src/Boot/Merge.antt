-- ===== src/Boot/Merge.antt =====
-- initial_merge of kern/lab1.c, and the entries of the memory map.
use kp.Base.{
  ℕ, zero, suc, ◌+◌, ◌-◌, ◌*◌, ◌/◌, ◌%◌, ◌^◌, ◌==◌, ltb, Bool, true, false, not, ◌&&◌, ◌||◌,
  if◌then◌else◌, none, some, List, [], ◌∷◌,
}
use kp.Run.{ok, out_of_fuel, Cmd, pure, ◌>>=◌, ◌>>◌}
use kp.Words.{add64, word, small_pages_in_huge}
use kp.Pages.{
  Memory, PageInfo, page_at, modify_page, modify_if_some, set_link, set_previous, set_free_list,
  pa2page,
}
use kp.Pages.Merge.{huge_size}

-- An entry of the BIOS memory map; `is_free` is `type == MMAP_FREE`.
pub record MmapEntry : Type 0 where
  pub addr : ℕ
  pub len : ℕ
  pub is_free : Bool

-- initial_merge. The `int m` of the loop over a block is compared with 64-bit numbers: from 2 GiB on it
-- is negative, hence too large.
pub record MergeScan : Type 0 where
  pub start : Bool
  pub start_huge : ℕ
  pub prev : ℕ

unfoldable pub remove_small : ℕ → Cmd Memory (Unit {0})
remove_small cur = do
  modify_page cur (λ c. record c { is_available = 0 })
  c ← page_at cur
  elim c.previous [
    | none ↦ (do set_free_list c.pp_link; modify_if_some c.pp_link (set_previous none))
    | some q ↦ (do
      modify_page q (set_link c.pp_link)
      modify_if_some c.pp_link (set_previous (some q)))
  ]
  modify_page cur (λ d. record d { pp_link = none; previous = none })

abbrev pub signed_word : ℕ → ℕ
signed_word m = if ltb m (2 ^ 31) then m else word - 2 ^ 32 + m

unfoldable pub remove_block : ℕ → ℕ → ℕ → Cmd Memory (Unit {0})
remove_block zero m limit mem = if ltb (signed_word m) limit then out_of_fuel else ok tt mem
remove_block (suc left) m limit mem =
    let step =
      (do
        cur ← pa2page (signed_word m)
        remove_small cur
        remove_block left ((m + 4096) % 2 ^ 32) limit)
        mem in
    if ltb (signed_word m) limit then step else ok tt mem

abbrev pub at_boundary : ℕ → MergeScan → MergeScan
at_boundary pa l = if pa % huge_size == 0 then record l { start = true; start_huge = pa } else l

abbrev pub check_page : PageInfo → ℕ → MergeScan → MergeScan
check_page c pa l =
    if l.start
      && (not (c.is_available == 1) || (not (l.start_huge == pa) && not (pa == add64 l.prev 4096)))
    then record l { start = false }
    else l

unfoldable pub merge_step : ℕ → MergeScan → Cmd Memory MergeScan
merge_step pa l = do
  page ← pa2page pa
  c ← page_at page
  let l' = check_page c pa (at_boundary pa l)
  (if l'.start && pa == add64 l'.start_huge (511 * 4096)
      then (do
        remove_block small_pages_in_huge ((l'.start_huge + 4096) % 2 ^ 32)
            (add64 l'.start_huge huge_size)
        first ← pa2page l'.start_huge
        modify_page first (λ d. record d { is_huge = 1 }))
      else pure tt)
  pure (record l' { prev = pa })

-- `entry->len < SMALL_PAGES_IN_HUGE` is the test that the code has, on a length in bytes.
unfoldable pub merge_region : ℕ → ℕ → ℕ → ℕ → MergeScan → Cmd Memory MergeScan
merge_region zero len pa limit l m = if ltb pa limit then out_of_fuel else ok l m
merge_region (suc left) len pa limit l m =
    let step = (do l' ← merge_step pa l; merge_region left len (add64 pa 4096) limit l') m in
    if ltb pa limit && not (ltb len small_pages_in_huge) then step else ok l m

unfoldable pub merge_entries : List MmapEntry → Bool → Cmd Memory (Unit {0})
merge_entries [] start m = ok tt m
merge_entries (e ∷ rest) start m =
    (do
      l ←
          (if e.is_free
            then merge_region (suc (e.len / 4096)) e.len e.addr (add64 e.addr e.len)
                (record { start = start; start_huge = 0; prev = 0 })
            else pure (record { start = start; start_huge = 0; prev = 0 }))
      merge_entries rest l.start)
      m

unfoldable pub initial_merge : List MmapEntry → Cmd Memory (Unit {0})
initial_merge entries = merge_entries entries false
