-- ===== src/SelfTest/Tables.antt =====
-- check_kern_pml4 of kern/pmap.c: the mappings that mem_init has made.
use kp.Base.{
  ℕ, zero, suc, ◌+◌, ◌-◌, ◌*◌, ◌/◌, ◌%◌, ◌^◌, ◌==◌, ltb, Bool, false, ◌&&◌, ◌||◌, if◌then◌else◌,
  Option, none, some,
}
use kp.Run.{ok, out_of_fuel, Cmd, get, ◌>>=◌, ◌>>◌}
use kp.Words.{word, add64, sub64, page_size, round_up, has_bit, pml4_index, user_top}
use kp.Pages.{Memory, is_none}
use kp.PageTable.{slot, read_entry, check_va2pa}
use kp.Boot.Init.{
  Sizes, BootArrays, environments, user_pml4, user_pages, user_vmas, kstack_top, kstack_size,
}
use kp.SelfTest.{assert}

abbrev pub same_address : Option ℕ → ℕ → Bool
same_address none pa = false
same_address (some a) pa = a == pa

-- assert(check_va2pa(pml4, va) == pa)
unfoldable pub assert_maps : ℕ → ℕ → ℕ → Cmd Memory (Unit {0})
assert_maps pml4 va pa = do a ← check_va2pa pml4 va; assert (same_address a pa)

-- The loops over the pages of a region: the counter is an unsigned int, `limit` is not.
unfoldable pub assert_region : ℕ → ℕ → ℕ → ℕ → ℕ → ℕ → Cmd Memory (Unit {0})
assert_region zero pml4 va pa i limit m = if ltb i limit then out_of_fuel else ok tt m
assert_region (suc left) pml4 va pa i limit m =
    let step =
      (do
        assert_maps pml4 (add64 va i) (add64 pa i)
        assert_region left pml4 va pa ((i + page_size) % 2 ^ 32) limit)
        m in
    if ltb i limit then step else ok tt m

-- The entries of the top table: the expected ones are present, the kernel's is writable, and the
-- others are 0.
abbrev pub is_expected : ℕ → Bool
is_expected i =
    i == pml4_index user_pml4
    || (i == pml4_index (kstack_top - 1)
        || (i == pml4_index user_pages || (i == pml4_index user_top || i == pml4_index user_vmas)))

abbrev pub entry_is_right : ℕ → ℕ → ℕ → Bool
entry_is_right kernel_vma i e =
    if is_expected i
    then has_bit e 0
    else if i == pml4_index kernel_vma
    then has_bit e 0 && has_bit e 1
    else e == 0

unfoldable pub check_entries : ℕ → ℕ → ℕ → ℕ → Cmd Memory (Unit {0})
check_entries zero kernel_vma pml4 i m = ok tt m
check_entries (suc left) kernel_vma pml4 i m =
    (do
      e ← read_entry (slot pml4 i)
      assert (entry_is_right kernel_vma i e)
      check_entries left kernel_vma pml4 (i + 1))
      m

-- A loop is given the turns that its limit takes; 2 ^ 32 bytes and more are never reached.
unfoldable pub check_kern_pml4 : ℕ → Sizes → BootArrays → ℕ → ℕ → Cmd Memory (Unit {0})
unfolding check_entries assert_region
check_kern_pml4 kernel_vma z a bootstack pml4 = do
  m ← get
  let pages_size = round_up (m.npages * z.page_info % word) % 2 ^ 32
  assert_region (suc (pages_size / page_size)) pml4 user_pages (sub64 a.pages_at kernel_vma) 0
      pages_size
  let envs_size = round_up (environments * z.env) % 2 ^ 32
  assert_region (suc (envs_size / page_size)) pml4 user_top (sub64 a.envs_at kernel_vma) 0 envs_size
  assert_region (suc m.npages) pml4 kernel_vma 0 0 (m.npages * page_size % word)
  assert_region (suc 8) pml4 (kstack_top - kstack_size) bootstack 0 kstack_size
  gap ← check_va2pa pml4 (kstack_top - kstack_size - page_size)
  assert (is_none gap)
  check_entries 512 kernel_vma pml4 0
