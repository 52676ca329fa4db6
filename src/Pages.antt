-- ===== src/Pages.antt =====
-- Physical pages: `struct page_info`, the array `pages`, the free list and the contents of page
-- frames, with the accesses that kern/pmap.c and kern/lab1.c make to them.
--
-- A `struct page_info *` is an index into `pages`, or `none` for NULL. An access through NULL or
-- past the array is a fault.
pub mod FreeList
pub mod Links
pub mod Merge
pub mod Allocator
mod Tests
use kp.Base.{
  ℕ, ◌+◌, ◌*◌, ◌%◌, ◌^◌, Bool, ◌&&◌, ◌==◌, ltb, leb, if◌then◌else◌, Option, none, some, List,
}
use kp.Run.{Run, ok, panic, fault, Cmd, pure, ◌>>=◌, ◌>>◌}
use kp.Words.{word, page_index}

-- The flags and the count are 16 bits wide.
pub record PageInfo : Type 0 where
  pub pp_link : Option ℕ
  pub previous : Option ℕ
  pub is_huge : ℕ
  pub pp_ref : ℕ
  pub is_available : ℕ

-- `frames f i` is the 8-byte word `i` of page frame `f`. `null_pa` is what `page2pa(NULL)`
-- evaluates to, which depends on where `pages` lies. `flushed` are the virtual addresses whose TLB
-- entries have been invalidated, the last one first.
pub record Memory : Type 0 where
  pub npages : ℕ
  pub null_pa : ℕ
  pub pages : ℕ → PageInfo
  pub page_free_list : Option ℕ
  pub frames : ℕ → ℕ → ℕ
  pub flushed : List ℕ

abbrev pub update {ℓ} : {A : Type ℓ} → (ℕ → A) → ℕ → A → ℕ → A
update f p v q = if p == q then v else f q

abbrev pub is_none {ℓ} : {A : Type ℓ} → Option A → Bool
is_none none = Bool.true
is_none (some _) = Bool.false

-- `pages[p]`, and `pages[p].field = …`.
unfoldable pub page_at : ℕ → Cmd Memory PageInfo
page_at p m = if ltb p m.npages then ok (m.pages p) m else fault

unfoldable pub modify_page : ℕ → (PageInfo → PageInfo) → Cmd Memory (Unit {0})
modify_page p f m =
    if ltb p m.npages then ok tt (record m { pages = update m.pages p (f (m.pages p)) }) else fault

-- The same through a pointer, and through a pointer that the code tests for NULL first.
abbrev pub modify : Option ℕ → (PageInfo → PageInfo) → Cmd Memory (Unit {0})
modify none f = λ _. fault
modify (some p) f = modify_page p f

abbrev pub modify_if_some : Option ℕ → (PageInfo → PageInfo) → Cmd Memory (Unit {0})
modify_if_some none f = pure tt
modify_if_some (some p) f = modify_page p f

abbrev pub set_link : Option ℕ → PageInfo → PageInfo
set_link l c = record c { pp_link = l }

abbrev pub set_previous : Option ℕ → PageInfo → PageInfo
set_previous l c = record c { previous = l }

-- The state of a page that has just left the free list.
abbrev pub detach : PageInfo → PageInfo
detach c = record c { is_available = 0; pp_link = none; previous = none }

abbrev pub set_free_list : Option ℕ → Cmd Memory (Unit {0})
set_free_list l m = ok tt (record m { page_free_list = l })

-- page2pa: the shift is on 64 bits.
unfoldable pub page2pa : ℕ → ℕ
page2pa p = p * 4096 % word

-- pa2page panics beyond the last page.
unfoldable pub pa2page : ℕ → Cmd Memory ℕ
pa2page pa m = if leb m.npages (page_index pa) then panic else ok (page_index pa) m

-- KADDR, as far as the frame goes.
unfoldable pub kaddr : ℕ → Cmd Memory ℕ
kaddr pa m = if leb m.npages (page_index pa) then panic else ok (page_index pa) m

-- memset(page2kva(page), 0, n * PAGE_SIZE)
unfoldable pub zero_frames : ℕ → ℕ → Cmd Memory (Unit {0})
unfolding kaddr page2pa
zero_frames p n = do
  f ← kaddr (page2pa p)
  λ m. ok tt (record m { frames = λ g. if leb f g && ltb g (f + n) then (λ _. 0) else m.frames g })
