-- ===== src/Env/Alloc.antt =====
-- What a new environment is given: env_alloc of kern/env.c.
use kp.Base.{
  ℕ, ◌+◌, ◌-◌, ◌*◌, ◌<◌, ◌≤◌, ◌≡◌, ◌≢◌, ◌∙◌, ◌^◌, ◌%◌, ◌/◌, refl, ap, true, false, ◌==◌, ◌&&◌, ltb,
  leb, if◌then◌else◌, none, some, List, [], arith, ==_refl, ==_iff, Bool-cases, inl, inr, ◌⊎◌,
  bit_or, bit_or-div, bit_or-mod, bit_or-zero, lt→ltb, lt→leb,
}
use kp.Run.{ok}
use kp.Words.{has_bit, entry_frame, page_present, page_user, page_no_exec, pml4_index, user_top}
use kp.Words.Entries.{has_bit-bit_or}
use kp.Pages.{Memory, update, modify_page, kaddr, page2pa}
use kp.Pages.FreeList.{IsFreeList}
use kp.Pages.FreeList.Chain.{Chain-frame}
use kp.Pages.FreeList.Lists.{has}
use kp.Pages.Allocator.{page_alloc}
use kp.Pages.Allocator.Alloc.{HasBlocks, Allocated, page_alloc-Allocated}
use kp.PageTable.{add_ref}
use kp.Kernel.{Kernel, env_runnable, update_at}
use kp.Env.{
  env_alloc, new_env, env_setup_vm, setup_table, env_entries, env_setup_vma, setup_vmas, empty_vma,
  started, next_env_id, start_frame,
}

-- What environment `e` of the kernel `k'` has been given: the page `p` for its table and the VMAs from
-- `start` on.
pub record Allotted (k : Kernel) (e parent_id start : ℕ) (xs : List ℕ) (k' : Kernel) (p : ℕ)
    (ys : List ℕ) : Type 0 where
  pub list : IsFreeList k'.memory ys
  pub was_free : has p xs ≡ true
  pub now_taken : has p ys ≡ false
  pub table : (k'.envs e).env_pml4 ≡ some p
  pub status : (k'.envs e).env_status ≡ env_runnable
  pub id : (k'.envs e).env_id ≡ next_env_id (k.envs e).env_id e
  pub parent : (k'.envs e).env_parent_id ≡ parent_id
  pub registers : (k'.envs e).env_frame ≡ start_frame
  pub next_free : k'.env_free_list ≡ (k.envs e).env_link
  pub others : (j : ℕ) → (j == e) ≡ false → k'.envs j ≡ k.envs j
  pub user_half : (i : ℕ) → i < pml4_index user_top → k'.memory.frames p i ≡ 0
  pub kernel_half :
      (i : ℕ)
      → pml4_index user_top ≤ i
      → i < 511
      → k'.memory.frames p i ≡ k.memory.frames k.kern_pml4 i
  pub own_frame : entry_frame (k'.memory.frames p 511) ≡ p
  pub own_present : has_bit (k'.memory.frames p 511) 0 ≡ true
  pub other_frames : (f : ℕ) → (p == f) ≡ false → k'.memory.frames f ≡ k.memory.frames f
  pub areas : (j : ℕ) → j < 128 → k'.vmas (start + j) ≡ empty_vma start j
  pub other_areas : (a : ℕ) → (a < start) ⊎ (start + 128 ≤ a) → k'.vmas a ≡ k.vmas a
  pub same_current : k'.curenv ≡ k.curenv

-- The entry with which a table maps itself.
abbrev own_entry : ℕ → ℕ
own_entry f = bit_or (bit_or (bit_or (f * 4096) page_present) page_user) page_no_exec

entry_frame-own_entry : (f : ℕ) → f < 2 ^ 36 → entry_frame (own_entry f) ≡ f
unfolding entry_frame
entry_frame-own_entry f h =
    rw
      (
        bit_or-div 12 (bit_or (bit_or (f * 4096) 1) 4) (2 ^ 63),
        bit_or-div 12 (bit_or (f * 4096) 1) 4,
        bit_or-div 12 (f * 4096) 1,
        bit_or-zero,
        bit_or-mod 36 (bit_or (f * 4096 / 2 ^ 12) (1 / 2 ^ 12)) (2 ^ 63 / 2 ^ 12),
      )
      (bit_or-zero _ ∙ ap (λ (t : ℕ). t % 2 ^ 36) (bit_or-zero (f * 4096 / 4096)) ∙ omega arith)

own_entry-present : (f : ℕ) → has_bit (own_entry f) 0 ≡ true
own_entry-present f =
    rw
      (
        has_bit-bit_or (bit_or (bit_or (f * 4096) 1) 4) (2 ^ 63) 0,
        has_bit-bit_or (bit_or (f * 4096) 1) 4 0,
        has_bit-bit_or (f * 4096) 1 0,
      )
      (unfold has_bit in ground arith)

-- The reference that env_setup_vm takes.
abbrev counted : ℕ → Memory → Memory
counted p m = record m { pages = update m.pages p (add_ref (m.pages p)) }

counted-IsFreeList :
    {m : Memory} {xs : List ℕ} (p : ℕ) → IsFreeList m xs → IsFreeList (counted p m) xs
counted-IsFreeList {m} {xs} p v = record {
  chain =
      Chain-frame m.pages (counted p m).pages none m.page_free_list xs v.chain
        (λ j i. ground arith);
  distinct = v.distinct;
  in_range = v.in_range;
  available = λ j i. ground (arith, v.available j i);
  detached = λ j i o. (ground (arith, v.detached j i o), ground (arith, v.detached j i o));
  bounded = v.bounded;
}

abbrev installed : Kernel → ℕ → ℕ → Memory → Kernel
installed k e f m = record k {
  memory = record m { frames = λ g. if g == f then env_entries m k.kern_pml4 f else m.frames g };
  envs = λ j. if j == e then record (k.envs j) { env_pml4 = some f } else k.envs j;
}

module _ (k : Kernel) (e p : ℕ) (m : Memory) (run : page_alloc 1 k.memory ≡ ok (some p) m)
    (fits : p < m.npages) (bounded : m.npages ≤ 2 ^ 36) where
  env_setup_vm-installed : env_setup_vm e k ≡ ok true (installed k e p (counted p m))
  unfolding env_setup_vm setup_table modify_page kaddr page2pa
  env_setup_vm-installed =
      let here : p * 4096 % 2 ^ 64 / 4096 ≡ p = omega arith in
      rw run (rw (lt→ltb p m.npages fits, here, lt→leb m.npages p fits) refl)

-- The state that env_alloc leaves.
abbrev finished : Kernel → ℕ → ℕ → ℕ → ℕ → Memory → Kernel
finished k e parent_id start p m =
    let k' = installed k e p (counted p m) in
    record k' {
      vmas =
          λ a. if leb start a && ltb a (start + 128) then empty_vma start (a - start) else k.vmas a;
      envs = update_at k'.envs e (started e parent_id (k'.envs e));
      env_free_list = (k.envs e).env_link;
    }

module _ (k : Kernel) (e parent_id start p : ℕ) (m : Memory) (next : k.env_free_list ≡ some e)
    (lists : (k.envs e).vma ≡ some start) where
  env_alloc-finished :
      page_alloc 1 k.memory ≡ ok (some p) m
      → p < m.npages
      → m.npages ≤ 2 ^ 36
      → env_alloc parent_id k ≡ ok (new_env e) (finished k e parent_id start p m)
  unfolding env_alloc env_setup_vma setup_vmas
  env_alloc-finished run fits bounded =
      rw (next, env_setup_vm-installed (record k { env_free_list = some e }) e p m run fits bounded)
        (rw (==_refl e, lists) (rw (==_refl e) (rw lists refl)))

  finished-Allotted :
      {xs ys : List ℕ}
      → Allocated 1 k.memory xs p m ys
      → has k.kern_pml4 xs ≡ false
      → p < 2 ^ 36
      → Allotted k e parent_id start xs (finished k e parent_id start p m) p ys
  unfolding pml4_index has_bit
  finished-Allotted {xs} {ys} a kern fits = record {
    list = framed (counted-IsFreeList p a.valid);
    was_free = a.was_free;
    now_taken = a.now_taken;
    table = rw (==_refl e) refl;
    status = rw (==_refl e) refl;
    id = rw (==_refl e) refl;
    parent = rw (==_refl e) refl;
    registers = rw (==_refl e) refl;
    next_free = refl;
    others = λ j n. rw n refl;
    user_half = λ i h. rw (==_refl p) (ground arith);
    kernel_half = λ i l h. rw (==_refl p) (ground (arith, same));
    own_frame = rw (==_refl p) (entry_frame-own_entry p fits);
    own_present = rw (==_refl p) (own_entry-present p);
    other_frames = λ f n. let off : (f == p) ≡ false = ground arith in rw off (a.same_frames f n);
    areas = λ j h. ground arith;
    other_areas = λ b h. ground arith;
    same_current = refl;
  }
    where
      other : (p == k.kern_pml4) ≡ false
      other = elim (Bool-cases (p == k.kern_pml4)) [
        | inl t ↦ absurd (cc (a.was_free, kern, (==_iff p k.kern_pml4).0 t))
        | inr n ↦ n
      ]

      same : m.frames k.kern_pml4 ≡ k.memory.frames k.kern_pml4
      same = a.same_frames k.kern_pml4 other

      framed :
          {m' : Memory} {f : ℕ → ℕ → ℕ}
          → IsFreeList m' ys
          → IsFreeList (record m' { frames = f }) ys
      framed v = record {
        chain = v.chain;
        distinct = v.distinct;
        in_range = v.in_range;
        available = v.available;
        detached = v.detached;
        bounded = v.bounded;
      }

-- Let the memory's free list be well formed and not empty, the block of each of its huge pages
-- whole and holding no other member, the kernel's page table not on it, environment e the first
-- free one, and its VMAs lie from start on. Then env_alloc returns e with the id that
-- next_env_id makes of the old one, runnable, with a fresh frame of registers; its page table is
-- a page that was free and is off the list, which stays well formed; the table is empty below
-- USER_TOP, has the kernel's entries from there up to the last, which maps the table itself; the
-- 128 VMAs are an unused list; the next free environment is the one behind e; and no other
-- environment, frame or VMA, nor the current environment changes.
pub env_alloc-Allotted :
    (k : Kernel) (xs : List ℕ) (e parent_id start : ℕ)
    → IsFreeList k.memory xs
    → HasBlocks k.memory xs
    → xs ≢ []
    → has k.kern_pml4 xs ≡ false
    → k.env_free_list ≡ some e
    → (k.envs e).vma ≡ some start
    → (k' : Kernel) × (p : ℕ) × (ys : List ℕ) × (env_alloc parent_id k ≡ ok (new_env e) k')
      × Allotted k e parent_id start xs k' p ys
unfolding has_bit
env_alloc-Allotted k xs e parent_id start v blocks ne kern next lists =
    let (p, m, ys, run, a) = page_alloc-Allocated 1 v blocks ne refl in
    let fits : p < m.npages = rw a.same_count (v.in_range p a.was_free) in
    (
      finished k e parent_id start p m,
      p,
      ys,
      env_alloc-finished k e parent_id start p m next lists run fits a.valid.bounded,
      finished-Allotted k e parent_id start p m next lists a kern
          (omega (arith, fits, a.valid.bounded)),
    )
