-- ===== src/Words/Entries.antt =====
-- An entry `pa | perm | PAGE_PRESENT` gives back its frame and its bits.
use kp.Base.{
  ℕ, ◌*◌, ◌/◌, ◌%◌, ◌^◌, ◌<◌, ◌≡◌, true, ◌||◌, bit_or, bit_or-div, bit_or-mod, bit_or-mod_two,
  arith, bit_or-zero,
}
use kp.Words.{page_present, has_bit, entry_frame}

-- The entry that page_insert and boot_map_region write.
unfoldable pub make_entry : ℕ → ℕ → ℕ
make_entry pa perm = bit_or (bit_or pa perm) page_present

pub has_bit-bit_or : (a b k : ℕ) → has_bit (bit_or a b) k ≡ (has_bit a k || has_bit b k)
unfolding has_bit
has_bit-bit_or a b k =
    rw (bit_or-div k a b) (ground (arith, bit_or-mod_two (a / 2 ^ k) (b / 2 ^ k)))

pub make_entry-present : (pa perm : ℕ) → has_bit (make_entry pa perm) 0 ≡ true
unfolding make_entry
make_entry-present pa perm =
    rw (has_bit-bit_or (bit_or pa perm) 1 0) (unfold has_bit in ground arith)

-- An entry made from a frame below 2 ^ 36 and permission bits outside bits 12 to 47 has that
-- frame in its address field.
pub entry_frame-make_entry :
    (f perm : ℕ)
    → f < 2 ^ 36
    → perm / 4096 % 2 ^ 36 ≡ 0
    → entry_frame (make_entry (f * 4096) perm) ≡ f
unfolding entry_frame make_entry
entry_frame-make_entry f perm hf hp =
    rw (bit_or-div 12 (bit_or (f * 4096) perm) 1, bit_or-div 12 (f * 4096) perm, bit_or-zero)
      (rw (bit_or-mod 36 (f * 4096 / 4096) (perm / 4096), hp, bit_or-zero) (omega arith))
