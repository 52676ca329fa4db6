-- ===== src/Pages/Allocator.antt =====
-- page_alloc, page_free and page_decref of kern/pmap.c.
pub mod Free
pub mod Split
pub mod Alloc
use kp.Base.{
  ℕ, zero, suc, ◌+◌, ◌-◌, ◌%◌, ◌^◌, ◌==◌, Bool, not, ◌||◌, if◌then◌else◌, Option, none, some,
}
use kp.Run.{ok, panic, fault, Cmd, pure, ◌>>=◌, ◌>>◌}
use kp.Words.{has_bit, small_pages_in_huge}
use kp.Pages.{
  PageInfo, Memory, is_none, page_at, modify_page, modify, modify_if_some, set_link, set_previous,
  detach, set_free_list, zero_frames,
}
use kp.Pages.Links.{pop_free_list, delete_from_free}
use kp.Pages.Merge.{merge_after_free}

abbrev pub small_free : PageInfo → PageInfo
small_free c = record c { is_huge = 0; is_available = 1 }

-- One round of the loop that puts the pages of a split huge page on the free list.
unfoldable pub push_small : ℕ → Cmd Memory (Unit {0})
push_small p m =
    (do
      modify_page p (set_link m.page_free_list)
      modify_if_some m.page_free_list (set_previous (some p))
      set_free_list (some p)
      modify_page p small_free)
      m

unfoldable pub push_rest : ℕ → ℕ → Cmd Memory (Unit {0})
unfolding push_small
push_rest zero p = pure tt
push_rest (suc n) p = do push_small p; push_rest n (suc p)

-- page_free_list->previous = NULL
unfoldable pub clear_head_previous : Cmd Memory (Unit {0})
clear_head_previous m = modify m.page_free_list (set_previous none) m

-- The head of the free list, a huge page, is taken and its other pages become small free pages.
unfoldable pub split_page : ℕ → Cmd Memory (Option ℕ)
split_page p = do
  pop_free_list
  modify_page p (λ c. record (detach c) { is_huge = 0 })
  push_rest (small_pages_in_huge - 1) (suc p)
  clear_head_previous
  pure (some p)

unfoldable pub split_head : Cmd Memory (Option ℕ)
split_head m = elim m.page_free_list [ none ↦ fault | some p ↦ split_page p m ]

unfoldable pub alloc_small : Cmd Memory (Option ℕ)
alloc_small = do page ← delete_from_free 0; elim page [ none ↦ split_head | some p ↦ pure (some p) ]

-- `ALLOC_ZERO` is bit 0 of the flags, `ALLOC_HUGE` bit 1.
unfoldable pub alloc_zero : ℕ → ℕ → Cmd Memory (Unit {0})
alloc_zero flags p =
    if has_bit flags 0
    then (if has_bit flags 1 then zero_frames p small_pages_in_huge else zero_frames p 1)
    else pure tt

unfoldable pub alloc_from : ℕ → Cmd Memory (Option ℕ)
alloc_from flags = do
  page ← (if has_bit flags 1 then delete_from_free 1 else alloc_small)
  elim page [ none ↦ pure none | some p ↦ (do alloc_zero flags p; pure (some p)) ]

unfoldable pub page_alloc : ℕ → Cmd Memory (Option ℕ)
page_alloc flags m = elim m.page_free_list [ none ↦ ok none m | some _ ↦ alloc_from flags m ]

-- The page becomes the head of the free list.
unfoldable pub push_free : ℕ → Cmd Memory (Unit {0})
push_free pp m =
    (do
      modify_if_some m.page_free_list (set_previous (some pp))
      modify_page pp (set_link m.page_free_list)
      set_free_list (some pp)
      modify_page pp (λ c. record c { previous = none; is_available = 1 }))
      m

-- The three checks of page_free: still linked, still referenced, already free.
abbrev pub free_refused : PageInfo → Bool
free_refused c = not (is_none c.pp_link) || (not (c.pp_ref == 0) || (c.is_available == 1))

unfoldable pub page_free : ℕ → Cmd Memory (Unit {0})
page_free pp = do
  c ← page_at pp
  if free_refused c
      then (λ _. panic)
      else do push_free pp; c ← page_at pp; if c.is_huge == 0 then merge_after_free pp else pure tt

-- `--pp->pp_ref` on 16 bits.
abbrev pub drop_ref : PageInfo → PageInfo
drop_ref c = record c { pp_ref = (c.pp_ref + 2 ^ 16 - 1) % 2 ^ 16 }

unfoldable pub page_decref : ℕ → Cmd Memory (Unit {0})
page_decref pp = do
  modify_page pp drop_ref
  c ← page_at pp
  if c.pp_ref == 0 then page_free pp else pure tt
