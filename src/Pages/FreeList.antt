-- ===== src/Pages/FreeList.antt =====
-- The free list as a list of page numbers: a chain of `pp_link` and `previous` fields.
pub mod Lists
pub mod Chain
pub mod Push
use kp.Base.{ℕ, ◌≤◌, ◌<◌, ◌≡◌, ◌^◌, Bool, true, false, Option, none, some, List, [], ◌∷◌, ◌==◌}
use kp.Pages.{PageInfo, Memory}
use Lists.{has, IsDistinct}

-- From `head` the `pp_link` fields lead through `xs` to NULL, and the `previous` fields lead back.
abbrev pub Chain : (ℕ → PageInfo) → Option ℕ → Option ℕ → List ℕ → Type 0
Chain g back head [] = head ≡ none
Chain g back head (x ∷ xs) =
    (head ≡ some x) × ((g x).previous ≡ back) × Chain g (some x) (g x).pp_link xs

-- The free list of `m` holds the pages `xs`, in this order.
pub record IsFreeList (m : Memory) (xs : List ℕ) : Type 0 where
  pub chain : Chain m.pages none m.page_free_list xs
  pub distinct : IsDistinct xs
  pub in_range : (p : ℕ) → has p xs ≡ true → p < m.npages
  pub available : (p : ℕ) → p < m.npages → ((m.pages p).is_available == 1) ≡ has p xs
  pub detached :
      (p : ℕ)
      → p < m.npages
      → has p xs ≡ false
      → ((m.pages p).pp_link ≡ none) × ((m.pages p).previous ≡ none)
  pub bounded : m.npages ≤ 2 ^ 36
