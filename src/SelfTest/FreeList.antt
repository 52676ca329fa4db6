-- ===== src/SelfTest/FreeList.antt =====
-- check_page_free_list of kern/pmap.c: the pages below 4 MB move to the front of the free list, and its
-- members are checked.
use kp.Base.{ℕ, zero, suc, ◌+◌, ◌-◌, ◌==◌, ltb, leb, Bool, not, if◌then◌else◌, Option, none, some}
use kp.Run.{ok, out_of_fuel, Cmd, pure, get, ◌>>=◌, ◌>>◌}
use kp.Words.{add64}
use kp.Pages.{
  Memory, is_none, page_at, modify_page, set_link, set_previous, set_free_list, page2pa, kaddr,
}
use kp.Boot.{boot_alloc}
use kp.SelfTest.{assert, require, fill_page}

-- `pp1` and `pp2`, and what `tp[0]` and `tp[1]` point to: the local variable, for `none`, or the
-- `pp_link` of a page. The locals are read only after they have been written.
pub record TwoLists : Type 0 where
  pub low : Option ℕ
  pub high : Option ℕ
  pub low_tail : Option ℕ
  pub high_tail : Option ℕ

abbrev pub no_lists : TwoLists
no_lists = record { low = none; high = none; low_tail = none; high_tail = none }

-- *tp[0] = target; and the same for tp[1].
unfoldable pub end_low : Option ℕ → TwoLists → Cmd Memory TwoLists
end_low target l = elim l.low_tail as (λ _. Cmd Memory TwoLists) [
  | none ↦ pure (record l { low = target })
  | some q ↦ (do modify_page q (set_link target); pure l)
]

unfoldable pub end_high : Option ℕ → TwoLists → Cmd Memory TwoLists
end_high target l = elim l.high_tail as (λ _. Cmd Memory TwoLists) [
  | none ↦ pure (record l { high = target })
  | some q ↦ (do modify_page q (set_link target); pure l)
]

unfoldable pub add_to_lists : ℕ → ℕ → TwoLists → Cmd Memory TwoLists
add_to_lists limit pp l =
    if leb limit (page2pa pp)
    then (do l' ← end_high (some pp) l; pure (record l' { high_tail = some pp }))
    else (do l' ← end_low (some pp) l; pure (record l' { low_tail = some pp }))

unfoldable pub separate : ℕ → ℕ → Option ℕ → TwoLists → Cmd Memory TwoLists
separate fuel limit none l m = ok l m
separate zero limit (some pp) l m = out_of_fuel
separate (suc fuel) limit (some pp) l m =
    (do l' ← add_to_lists limit pp l; c ← page_at pp; separate fuel limit c.pp_link l') m

unfoldable pub fix_previous : ℕ → Option ℕ → Option ℕ → Cmd Memory (Unit {0})
fix_previous fuel prev none m = ok tt m
fix_previous zero prev (some pp) m = out_of_fuel
fix_previous (suc fuel) prev (some pp) m =
    (do modify_page pp (set_previous prev); c ← page_at pp; fix_previous fuel (some pp) c.pp_link) m

unfoldable pub low_first : ℕ → Cmd Memory (Unit {0})
low_first limit m =
    (do
      l ← separate m.npages limit m.page_free_list no_lists
      l ← end_high none l
      l ← end_low l.high l
      set_free_list l.low
      fix_previous m.npages none l.low)
      m

unfoldable pub poison : ℕ → ℕ → Option ℕ → Cmd Memory (Unit {0})
poison fuel limit none m = ok tt m
poison zero limit (some pp) m = out_of_fuel
poison (suc fuel) limit (some pp) m =
    (do
      (if ltb (page2pa pp) limit then fill_page pp 0x97 128 else pure tt)
      c ← page_at pp
      poison fuel limit c.pp_link)
      m

-- page2kva(pp) >= first_free_page
unfoldable pub beyond_kernel : ℕ → ℕ → ℕ → Cmd Memory Bool
beyond_kernel kernel_vma first_free pp = do
  _ ← kaddr (page2pa pp)
  pure (leb first_free (add64 kernel_vma (page2pa pp)))

unfoldable pub check_free_page : ℕ → ℕ → ℕ → Cmd Memory (Unit {0})
check_free_page kernel_vma first_free pp = do
  m ← get
  assert (ltb pp m.npages)
  assert (not (page2pa pp == 0))
  assert (not (page2pa pp == 0xA_0000))
  assert (not (page2pa pp == 0x10_0000 - 4096))
  assert (not (page2pa pp == 0x10_0000))
  (if ltb (page2pa pp) 0x10_0000
      then pure tt
      else (beyond_kernel kernel_vma first_free pp >>= assert))

-- The numbers of pages below and from 1 MB on.
unfoldable pub check_free_pages : ℕ → ℕ → ℕ → Option ℕ → Cmd Memory (ℕ × ℕ)
check_free_pages fuel kernel_vma first_free none m = ok (0, 0) m
check_free_pages zero kernel_vma first_free (some pp) m = out_of_fuel
check_free_pages (suc fuel) kernel_vma first_free (some pp) m =
    (do
      check_free_page kernel_vma first_free pp
      c ← page_at pp
      n ← check_free_pages fuel kernel_vma first_free c.pp_link
      pure (if ltb (page2pa pp) 0x10_0000 then (n.0 + 1, n.1) else (n.0, n.1 + 1)))
      m

-- `next_free` is what boot_alloc keeps; the result is its new value.
unfoldable pub check_page_free_list : ℕ → ℕ → ℕ → Bool → Cmd Memory ℕ
check_page_free_list kernel_vma end next_free only_low m =
    let limit = if only_low then 0x40_0000 else 0xFFFF_FFFF in
    (do
      assert (not (is_none m.page_free_list))
      (if only_low then low_first limit else pure tt)
      m ← get
      poison m.npages limit m.page_free_list
      first_free ← require (boot_alloc kernel_vma end next_free 0)
      n ← check_free_pages m.npages kernel_vma first_free.0 m.page_free_list
      assert (not (n.0 == 0))
      assert (not (n.1 == 0))
      pure first_free.1)
      m
