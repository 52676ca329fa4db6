-- ===== src/Words/Rounding.antt =====
-- ROUNDDOWN and ROUNDUP at the page size, and the split of a virtual address into table indices.
use kp.Base.{ℕ, ◌+◌, ◌-◌, ◌*◌, ◌%◌, ◌^◌, ◌≤◌, ◌<◌, ◌≡◌, arith}
use kp.Words.{
  word, page_size, round_down, round_up, page_table_index, page_dir_index, pdpt_index, pml4_index,
}

-- ROUNDDOWN gives the last multiple of the page size that is not above its argument.
pub round_down_bounds :
    (a : ℕ) → (round_down a ≤ a) × (a < round_down a + page_size) × (round_down a % page_size ≡ 0)
unfolding round_down
round_down_bounds a = omega arith

-- For an address at most 2 ^ 64 - PAGE_SIZE, ROUNDUP is the first multiple of the page size that
-- is not below it.
pub round_up_bounds :
    (a : ℕ)
    → a ≤ word - page_size
    → (a ≤ round_up a) × (round_up a < a + page_size) × (round_up a % page_size ≡ 0)
unfolding round_up
round_up_bounds a h = omega arith

-- In the last page but its first byte ROUNDUP wraps to 0.
pub round_up_wraps : (a : ℕ) → word - page_size < a → a < word → round_up a ≡ 0
unfolding round_up
round_up_wraps a h k = omega arith

pub round_up_aligned : (a : ℕ) → a % page_size ≡ 0 → a < word → round_up a ≡ a
unfolding round_up
round_up_aligned a h k = omega arith

-- The four table indices and the offset in the page make up an address below 2 ^ 48.
pub indices_address :
    (va : ℕ)
    → va < 2 ^ 48
    → pml4_index va * 2 ^ 39
        + pdpt_index va * 2 ^ 30
        + page_dir_index va * 2 ^ 21
        + page_table_index va * 2 ^ 12
        + va % 2 ^ 12
      ≡ va
unfolding pml4_index pdpt_index page_dir_index page_table_index
indices_address va h = omega arith
