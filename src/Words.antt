-- ===== src/Words.antt =====
-- Rounding on 64-bit words and the fields of an address: inc/types.h, inc/x86-64/paging.h and
-- inc/x86-64/memory.h.
pub mod Rounding
pub mod Entries
use kp.Base.{ℕ, ◌+◌, ◌-◌, ◌*◌, ◌/◌, ◌%◌, ◌^◌, Bool, ◌==◌}

abbrev pub word : ℕ
word = 2 ^ 64

-- `+` and `-` on uint64_t, size_t and uintptr_t.
abbrev pub add64 : ℕ → ℕ → ℕ
add64 a b = (a + b) % word

abbrev pub sub64 : ℕ → ℕ → ℕ
sub64 a b = (a + word - b) % word

abbrev pub page_size : ℕ
page_size = 4096

abbrev pub small_pages_in_huge : ℕ
small_pages_in_huge = 512

abbrev pub page_table_entries : ℕ
page_table_entries = 512

-- ROUNDDOWN(a, PAGE_SIZE); the subtraction cannot go below 0.
unfoldable pub round_down : ℕ → ℕ
round_down a = a - a % page_size

-- ROUNDUP(a, PAGE_SIZE): the sum wraps at 2 ^ 64.
unfoldable pub round_up : ℕ → ℕ
unfolding round_down
round_up a = round_down (sub64 (add64 a page_size) 1)

-- `x & (1 << k)` as a truth value.
unfoldable pub has_bit : ℕ → ℕ → Bool
has_bit x k = x / 2 ^ k % 2 == 1

abbrev pub page_present : ℕ
page_present = 1

abbrev pub page_write : ℕ
page_write = 2

abbrev pub page_user : ℕ
page_user = 4

abbrev pub page_no_exec : ℕ
page_no_exec = 2 ^ 63

-- PAGE_INDEX(x)
abbrev pub page_index : ℕ → ℕ
page_index x = x / 4096

-- PAGE_INDEX(PAGE_ADDR(x)): PAGE_ADDR keeps bits 12 to 47 of an entry.
unfoldable pub entry_frame : ℕ → ℕ
entry_frame x = x / 4096 % 2 ^ 36

-- The nine bits of a virtual address that select an entry at each level.
unfoldable pub page_table_index : ℕ → ℕ
page_table_index va = va / 2 ^ 12 % 512

unfoldable pub page_dir_index : ℕ → ℕ
page_dir_index va = va / 2 ^ 21 % 512

unfoldable pub pdpt_index : ℕ → ℕ
pdpt_index va = va / 2 ^ 30 % 512

unfoldable pub pml4_index : ℕ → ℕ
pml4_index va = va / 2 ^ 39 % 512

-- The end of user memory, USER_TOP: two PML4 entries below USER_LIM.
abbrev pub user_top : ℕ
user_top = 0x8000_0000_0000 - 2 ^ 40
