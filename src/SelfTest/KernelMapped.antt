-- ===== src/SelfTest/KernelMapped.antt =====
-- What check_kern_pml4 of kern/pmap.c tells about the page tables when it passes.
use kp.Base.{
  ℕ, zero, suc, ◌+◌, ◌-◌, ◌*◌, ◌/◌, ◌%◌, ◌^◌, ◌<◌, ◌≤◌, ◌≡◌, ◌==◌, ◌∙◌, ap, subst, true, Option,
  none, some, arith, inl, inr, Bool-cases, ==_iff,
}
use kp.Run.{ok, Cmd, and_then, and_then-ok, ◌>>◌}
use kp.Words.{word, sub64, page_size, round_up, round_down, user_top}
use kp.Pages.{Memory, is_none}
use kp.PageTable.{check_va2pa}
use kp.Boot.Init.{Sizes, BootArrays, environments, user_pages, kstack_top, kstack_size}
use kp.SelfTest.{assert}
use kp.SelfTest.Tables.{check_entries, entry_is_right, assert_region, check_kern_pml4}
use kp.SelfTest.Mappings.{Row, assert-ok, check_va2pa-same, assert_region-Row}

rounded_int : (a : ℕ) → round_up a % 2 ^ 32 ≤ 2 ^ 32 - 4096
unfolding round_up round_down
rounded_int a = omega arith

-- The test that an address is not mapped, and what follows it.
guard_then :
    (pml4 va : ℕ) {m m' : Memory} (k : Cmd Memory (Unit {0}))
    → and_then (check_va2pa pml4 va m) (λ gap. assert (is_none gap) >> k) ≡ ok tt m'
    → (check_va2pa pml4 va m ≡ ok none m) × (k m ≡ ok tt m')
guard_then pml4 va {m} {m'} k e =
    let (gap, s, run, e') = and_then-ok (check_va2pa pml4 va m) _ e in
    let (_, t, run', e'') = and_then-ok (assert (is_none gap) s) _ e' in
    go gap s t (check_va2pa-same m pml4 va run) run (assert-ok (is_none gap) run') e''
  where
    go :
        (gap : Option ℕ) (s t : Memory)
        → s ≡ m
        → check_va2pa pml4 va m ≡ ok gap s
        → (is_none gap ≡ true) × (t ≡ s)
        → k t ≡ ok tt m'
        → (check_va2pa pml4 va m ≡ ok none m) × (k m ≡ ok tt m')
    go none s t kept run (empty, same) e =
        (run ∙ ap (λ (x : Memory). ok none x) kept, rw (same ∙ kept) at e)
    go (some a) s t kept run (empty, same) e = cc

-- A test of a region, and what follows it.
region_then :
    (left pml4 va pa limit : ℕ) {m m' : Memory} (k : Unit {0} → Cmd Memory (Unit {0}))
    → limit ≤ 2 ^ 32 - 4096
    → and_then (assert_region left pml4 va pa 0 limit m) k ≡ ok tt m'
    → Row m pml4 va pa 0 limit × (k tt m ≡ ok tt m')
region_then left pml4 va pa limit {m} {m'} k b e =
    let (_, s, run, next) = and_then-ok (assert_region left pml4 va pa 0 limit m) k e in
    let (same, row) = assert_region-Row left pml4 va pa 0 limit b run in (row, rw same at next)

check_entries_lem :
    (left kernel_vma pml4 i : ℕ) {m m' : Memory}
    → check_entries left kernel_vma pml4 i m ≡ ok tt m'
    → (m' ≡ m)
      × ((k : ℕ) → i ≤ k → k < i + left → entry_is_right kernel_vma k (m.frames pml4 k) ≡ true)
unfolding check_entries
check_entries_lem zero kernel_vma pml4 i e = (cc, λ k l h. absurd (omega arith))
check_entries_lem (suc left) kernel_vma pml4 i {m} {m'} e =
    let (_, s, run, e') =
      and_then-ok (assert (entry_is_right kernel_vma i (m.frames pml4 i)) m) _ e in
    let (right, same) = assert-ok (entry_is_right kernel_vma i (m.frames pml4 i)) run in
    let (same', rest) = check_entries_lem left kernel_vma pml4 (i + 1) (rw same at e') in
    (
      same',
      λ k l h. elim (Bool-cases (i == k)) [
        | inl t ↦
            subst (λ (j : ℕ). entry_is_right kernel_vma j (m.frames pml4 j) ≡ true)
              ((==_iff i k).0 t) right
        | inr f ↦ rest k (ground arith) (omega arith)
      ],
    )

-- The mappings of the kernel that do not depend on the sizes of its structures: physical memory, the
-- stack, which has no page below it, and the entries of the top table.
pub record KernelMapped (kernel_vma : ℕ) (z : Sizes) (a : BootArrays) (bootstack pml4 : ℕ)
    (m : Memory) : Type 0 where
  pub pages :
      Row m pml4 user_pages
        (sub64 a.pages_at kernel_vma)
        0
        (round_up (m.npages * z.page_info % word) % 2 ^ 32)
  pub envs :
      Row m pml4 user_top (sub64 a.envs_at kernel_vma) 0 (round_up (environments * z.env) % 2 ^ 32)
  pub physical : Row m pml4 kernel_vma 0 0 (m.npages * page_size % word)
  pub stack : Row m pml4 (kstack_top - kstack_size) bootstack 0 kstack_size
  pub guard : check_va2pa pml4 (kstack_top - kstack_size - page_size) m ≡ ok none m
  pub entries : (k : ℕ) → k < 512 → entry_is_right kernel_vma k (m.frames pml4 k) ≡ true

-- If less than 4 GB of memory are managed and check_kern_pml4 returns, it has changed nothing,
-- and present entries lead to the right frames for the array of pages and the environments, as
-- far as an unsigned int counts their bytes, for all physical memory from KERNEL_VMA on and for
-- the kernel's stack; the page below the stack is not mapped; and each entry of the top table is
-- present, writable or 0 as the test wants it.
pub check_kern_pml4-KernelMapped :
    (kernel_vma : ℕ) (z : Sizes) (a : BootArrays) (bootstack pml4 : ℕ) (m m' : Memory)
    → m.npages < 2 ^ 20
    → check_kern_pml4 kernel_vma z a bootstack pml4 m ≡ ok tt m'
    → (m' ≡ m) × KernelMapped kernel_vma z a bootstack pml4 m
unfolding check_kern_pml4
check_kern_pml4-KernelMapped kernel_vma z a bootstack pml4 m m' b e =
    let pages_size = round_up (m.npages * z.page_info % word) % 2 ^ 32 in
    let envs_size = round_up (environments * z.env) % 2 ^ 32 in
    let (pages, e1) =
      region_then (suc (pages_size / page_size)) pml4 user_pages (sub64 a.pages_at kernel_vma)
        pages_size _ (rounded_int (m.npages * z.page_info % word)) e in
    let (envs, e2) =
      region_then (suc (envs_size / page_size)) pml4 user_top (sub64 a.envs_at kernel_vma) envs_size
        _ (rounded_int (environments * z.env)) e1 in
    let (physical, e3) =
      region_then (suc m.npages) pml4 kernel_vma 0 (m.npages * page_size % word) _ (omega arith)
        e2 in
    let (stack, e4) =
      region_then 9 pml4 (kstack_top - kstack_size) bootstack kstack_size _ (omega arith) e3 in
    let (guard, e5) = guard_then pml4 (kstack_top - kstack_size - page_size) _ e4 in
    let (kept, entries) = check_entries_lem 512 kernel_vma pml4 0 e5 in
    (
      kept,
      record {
        pages = pages;
        envs = envs;
        physical = physical;
        stack = stack;
        guard = guard;
        entries = λ k h. entries k (omega arith) h;
      },
    )
