-- ===== src/Boot/Init.antt =====
-- mem_init of kern/pmap.c, without its calls of the kernel's tests: the arrays that it allocates before
-- page_init, and the mappings that it makes after it.
--
-- Addresses of the arrays are kernel addresses; the sizes of the structures are the compiler's.
use kp.Base.{
  ℕ, zero, suc, ◌+◌, ◌-◌, ◌*◌, ◌/◌, ◌%◌, ◌^◌, ltb, if◌then◌else◌, none, some, List, [], ◌∷◌, bit_or,
}
use kp.Run.{Run, ok, panic, Cmd, pure, get, ◌>>=◌, ◌>>◌}
use kp.Words.{
  add64, sub64, word, page_size, round_up, pml4_index, page_present, page_user, page_write,
  page_no_exec, user_top,
}
use kp.Pages.{Memory, update}
use kp.PageTable.{page_walk}
use kp.Env.Load.{ProgramHeader}
use kp.Boot.{boot_alloc, boot_map_region, boot_map_kernel}
use kp.Boot.Merge.{MmapEntry}

pub record Sizes : Type 0 where
  pub page_info : ℕ
  pub env : ℕ
  pub vma : ℕ

abbrev pub environments : ℕ
environments = 1024

abbrev pub vmas_per_env : ℕ
vmas_per_env = 128

abbrev pub user_pml4 : ℕ
user_pml4 = 0xFFFF_FFFF_FFFF_F000

abbrev pub kstack_top : ℕ
kstack_top = 0xFFFF_FF80_0000_0000 - 2 ^ 39

abbrev pub kstack_size : ℕ
kstack_size = 8 * page_size

abbrev pub kstack_gap : ℕ
kstack_gap = 8 * page_size

abbrev pub user_pages : ℕ
user_pages = 0x8000_0000_0000 - 2 ^ 39

-- USER_ENVS is USER_TOP.
abbrev pub user_vmas : ℕ
user_vmas = user_top - 2 ^ 39

-- The end of the last free entry, wherever it lies.
unfoldable pub highest_addr : List MmapEntry → ℕ → ℕ
highest_addr [] highest = highest
highest_addr (e ∷ rest) highest =
    highest_addr rest (if e.is_free then add64 e.addr e.len else highest)

-- What mem_init keeps of its allocations.
pub record BootArrays : Type 0 where
  pub kern_pml4 : ℕ
  pub pages_at : ℕ
  pub envs_at : ℕ
  pub vma_lists : List ℕ
  pub next_free : ℕ

module _ (kernel_vma end : ℕ) where
  -- The size is an unsigned int.
  unfoldable pub alloc_or_panic : ℕ → ℕ → Cmd Memory (ℕ × ℕ)
  alloc_or_panic next_free n m =
      elim (boot_alloc kernel_vma end next_free (n % 2 ^ 32)) as (λ _. Run Memory (ℕ × ℕ)) [
        | none ↦ panic
        | some r ↦ ok r m
      ]

  unfoldable pub alloc_vma_lists : Sizes → ℕ → ℕ → Cmd Memory (List ℕ × ℕ)
  unfolding alloc_or_panic
  alloc_vma_lists z zero next_free m = ok ([], next_free) m
  alloc_vma_lists z (suc n) next_free m =
      (do
        r ← alloc_or_panic next_free (z.vma * vmas_per_env)
        rest ← alloc_vma_lists z n r.1
        pure (r.0 ∷ rest.0, rest.1))
        m

  -- memset, and the entry that points to the table itself.
  unfoldable pub init_pml4 : ℕ → Cmd Memory (Unit {0})
  init_pml4 pml4 m =
      let frame = sub64 pml4 kernel_vma / 4096 in
      let entry =
        bit_or (bit_or (bit_or (sub64 pml4 kernel_vma) page_present) page_user) page_no_exec in
      ok tt
        (record m { frames = update m.frames frame (update (λ i. 0) (pml4_index user_pml4) entry) })

  unfoldable pub init_pages : ℕ → Cmd Memory (Unit {0})
  init_pages npages m = ok tt (record m {
    npages = npages;
    pages = λ p.
        if ltb p npages
        then record { pp_link = none; previous = none; is_huge = 0; pp_ref = 0; is_available = 0 }
        else m.pages p;
  })

  unfoldable pub init_arrays : Sizes → List MmapEntry → Cmd Memory BootArrays
  unfolding alloc_or_panic alloc_vma_lists init_pml4 init_pages highest_addr
  init_arrays z entries = do
    pml4 ← alloc_or_panic 0 page_size
    init_pml4 pml4.0
    pages ← alloc_or_panic pml4.1 (z.page_info * (highest_addr entries 0 / page_size))
    init_pages (highest_addr entries 0 / page_size)
    envs ← alloc_or_panic pages.1 (z.env * environments)
    lists ← alloc_vma_lists z environments envs.1
    pure (record {
      kern_pml4 = pml4.0;
      pages_at = pages.0;
      envs_at = envs.0;
      vma_lists = lists.0;
      next_free = lists.1;
    })

  unfoldable pub map_vma_lists : ℕ → ℕ → ℕ → List ℕ → Cmd Memory (Unit {0})
  map_vma_lists pml4 size va [] m = ok tt m
  map_vma_lists pml4 size va (l ∷ ls) m =
      (do
        boot_map_region pml4 va size (sub64 l kernel_vma) (bit_or page_write page_no_exec)
        map_vma_lists pml4 size (va + size) ls)
        m

  -- The tables of the guard region, one page after the other.
  unfoldable pub walk_gap : ℕ → ℕ → ℕ → Cmd Memory (Unit {0})
  walk_gap pml4 vi zero m = ok tt m
  walk_gap pml4 vi (suc n) m = (do _ ← page_walk pml4 vi 1; walk_gap pml4 (vi + page_size) n) m

  -- `bootstack` is the linker's symbol, `pml4` the frame of the table.
  unfoldable pub init_mappings : Sizes → BootArrays → ℕ → List ProgramHeader → Cmd Memory (Unit {0})
  unfolding map_vma_lists walk_gap
  init_mappings z a bootstack headers = do
    m ← get
    let pml4 = sub64 a.kern_pml4 kernel_vma / 4096
    boot_map_region pml4 user_pages (round_up (m.npages * z.page_info % word))
        (sub64 a.pages_at kernel_vma) (bit_or page_write page_no_exec)
    boot_map_region pml4 user_top (round_up (environments * z.env)) (sub64 a.envs_at kernel_vma)
        (bit_or (bit_or page_write page_no_exec) page_user)
    _ ← page_walk pml4 user_top 0
    map_vma_lists pml4 (round_up (vmas_per_env * z.vma)) user_vmas a.vma_lists
    boot_map_region pml4 (kstack_top - kstack_size) kstack_size bootstack
        (bit_or page_write page_no_exec)
    walk_gap pml4 (kstack_top - kstack_size - kstack_gap) (kstack_gap / page_size)
    boot_map_kernel kernel_vma pml4 headers
