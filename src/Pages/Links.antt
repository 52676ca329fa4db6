-- ===== src/Pages/Links.antt =====
-- Taking pages out of the free list: the code that delete_from_free, page_alloc, page_insert and
-- merge_after_free repeat, and the search of delete_from_free (kern/lab1.c, kern/pmap.c).
pub mod Unlink
pub mod Delete
use kp.Base.{ℕ, zero, suc, ◌==◌, if◌then◌else◌, Option, none, some}
use kp.Run.{fault, out_of_fuel, Cmd, pure, ◌>>=◌, ◌>>◌}
use kp.Pages.{
  PageInfo, Memory, page_at, modify_page, modify, modify_if_some, set_link, set_previous, detach,
  set_free_list,
}

-- A field read through a pointer.
abbrev pub load : Option ℕ → Cmd Memory PageInfo
load none = λ _. fault
load (some p) = page_at p

-- page_free_list = page_free_list->pp_link; if (page_free_list != NULL) … ->previous = NULL;
unfoldable pub pop_free_list : Cmd Memory (Unit {0})
pop_free_list m =
    (do
      c ← load m.page_free_list
      set_free_list c.pp_link
      modify_if_some c.pp_link (set_previous none))
      m

-- (p->previous)->pp_link = p->pp_link; if (p->pp_link != NULL) … ->previous = p->previous;
unfoldable pub unlink_inner : ℕ → Cmd Memory (Unit {0})
unlink_inner p = do
  c ← page_at p
  modify c.previous (set_link c.pp_link)
  c ← page_at p
  modify_if_some c.pp_link (set_previous c.previous)

unfoldable pub unlink : ℕ → Cmd Memory (Unit {0})
unfolding pop_free_list unlink_inner
unlink p = do c ← page_at p; elim c.previous [ none ↦ pop_free_list | some _ ↦ unlink_inner p ]

-- The same in merge_after_free, which sets `previous` of the new head with no test for NULL.
unfoldable pub pop_free_list_unchecked : Cmd Memory (Unit {0})
pop_free_list_unchecked m =
    (do c ← load m.page_free_list; set_free_list c.pp_link; modify c.pp_link (set_previous none)) m

unfoldable pub unlink_unchecked : ℕ → Cmd Memory (Unit {0})
unfolding pop_free_list_unchecked unlink_inner
unlink_unchecked p = do
  c ← page_at p
  elim c.previous [ none ↦ pop_free_list_unchecked | some _ ↦ unlink_inner p ]

-- The first page from `cur` on whose `is_huge` is the one wanted.
unfoldable pub search_free : ℕ → ℕ → Option ℕ → Cmd Memory (Option ℕ)
search_free zero ishuge cur = λ _. out_of_fuel
search_free (suc fuel) ishuge none = pure none
search_free (suc fuel) ishuge (some p) = do
  c ← page_at p
  let rest = search_free fuel ishuge c.pp_link
  if c.is_huge == ishuge then pure (some p) else rest

unfoldable pub take_found : Option ℕ → Cmd Memory (Option ℕ)
unfolding unlink
take_found none = pure none
take_found (some p) = do unlink p; modify_page p detach; pure (some p)

-- The free list has at most `npages` members.
unfoldable pub delete_from_free : ℕ → Cmd Memory (Option ℕ)
unfolding search_free take_found
delete_from_free ishuge m =
    (do found ← search_free (suc m.npages) ishuge m.page_free_list; take_found found) m
