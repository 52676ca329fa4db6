-- ===== src/Env.antt =====
-- Environments: kern/env.c.
pub mod Load
pub mod Alloc
pub mod Free
pub mod Ids
pub mod Lists
pub mod Running
mod Tests
use kp.Base.{
  ℕ, zero, suc, ◌+◌, ◌-◌, ◌*◌, ◌/◌, ◌%◌, ◌^◌, ◌==◌, ltb, leb, Bool, true, false, not, ◌&&◌, ◌||◌,
  if◌then◌else◌, Option, none, some, bit_or, bit_and, List, [], ◌∷◌, ℤ, pos, negsuc,
}
use kp.Run.{Run, ok, panic, fault, out_of_fuel, Cmd, pure, ◌>>=◌, ◌>>◌}
use kp.Words.{
  add64, sub64, round_down, round_up, user_top, word, has_bit, entry_frame, pml4_index,
  page_table_entries, page_present, page_user, page_write, page_no_exec,
}
use kp.Pages.{Memory, is_none, modify_page, page2pa, pa2page, kaddr}
use kp.Pages.Allocator.{page_alloc, page_decref}
use kp.PageTable.{Slot, slot, entry_at, write_entry, add_ref, table_of, page_insert}
use kp.Kernel.{
  IntFrame, zero_frame, Vma, VmaType, vma_unused, vma_anon, vma_binary, Kernel, Env,
  env_free_status, env_runnable, env_running, is_free_status, is_running, on_memory, deref,
  modify_vma, env_at, modify_env,
}
use kp.Vma.{Request, vma_insert}

abbrev pub nenv : ℕ
nenv = 1024

-- ENVX
abbrev pub envx : ℕ → ℕ
envx envid = envid % nenv

abbrev pub is_some_env : Option ℕ → ℕ → Bool
is_some_env none e = false
is_some_env (some c) e = c == e

-- `some` is the result 0 with what is stored, `none` the result -E_BAD_ENV with NULL stored. The
-- permission check reads `curenv` if the environment is not the current one.
unfoldable pub check_parent : ℕ → Env → Cmd Kernel (Option (Option ℕ))
check_parent e v k =
    (if is_some_env k.curenv e then pure (some (some e)) else do
      c ← deref k.curenv
      cur ← env_at c
      if v.env_parent_id == cur.env_id then pure (some (some e)) else pure none)
      k

unfoldable pub envid2env : ℕ → Bool → Cmd Kernel (Option (Option ℕ))
envid2env envid checkperm k =
    (if envid == 0 then pure (some k.curenv) else do
      let e = envx envid
      v ← env_at e
      if is_free_status v.env_status || not (v.env_id == envid)
          then pure none
          else if checkperm
          then check_parent e v
          else pure (some (some e)))
      k

unfoldable pub init_loop : ℕ → Cmd Kernel (Unit {0})
init_loop zero k = ok tt k
init_loop (suc i) k =
    (do
      modify_env i
          (λ e. record e { env_id = 0; env_status = env_free_status; env_link = k.env_free_list })
      (λ k. ok tt (record k { env_free_list = some i }))
      init_loop i)
      k

unfoldable pub env_init : ℕ → Cmd Kernel (Unit {0})
env_init n k = init_loop n (record k { env_free_list = none })

abbrev pub user_pml4_index : ℕ
user_pml4_index = 511

-- Entries below USER_TOP are cleared, those above are the kernel's, and one maps the table itself.
abbrev pub env_entries : Memory → ℕ → ℕ → ℕ → ℕ
env_entries m kern f i =
    if i == user_pml4_index
    then bit_or (bit_or (bit_or (f * 4096) page_present) page_user) page_no_exec
    else if ltb i (pml4_index user_top)
    then 0
    else if ltb i page_table_entries
    then m.frames kern i
    else m.frames f i

unfoldable pub setup_table : ℕ → ℕ → Cmd Kernel (Unit {0})
setup_table e f k = ok tt (record k {
  memory = record k.memory {
    frames = λ g. if g == f then env_entries k.memory k.kern_pml4 f else k.memory.frames g;
  };
  envs = λ j. if j == e then record (k.envs j) { env_pml4 = some f } else k.envs j;
})

-- `false` is -E_NO_MEM.
unfoldable pub env_setup_vm : ℕ → Cmd Kernel Bool
env_setup_vm e = do
  page ← on_memory (page_alloc 1)
  elim page [
    | none ↦ pure false
    | some p ↦ (do
      on_memory (modify_page p add_ref)
      f ← on_memory (kaddr (page2pa p))
      setup_table e f
      pure true)
  ]

-- `j` counts down from 128, `at` is where the array starts.
abbrev pub empty_vma : ℕ → ℕ → Vma
empty_vma start j = record {
  vma_type = vma_unused;
  va = 0;
  len = 0;
  perm = 0;
  mem_va = 0;
  mem_size = 0;
  file_va = 0;
  file_size = 0;
  next = if j == 127 then none else some (start + (j + 1));
  prev = if j == 0 then none else some (start + (j - 1));
}

unfoldable pub setup_vmas : ℕ → ℕ → Cmd Kernel (Unit {0})
setup_vmas start count k = ok tt (record k {
  vmas =
      λ p. if leb start p && ltb p (start + count) then empty_vma start (p - start) else k.vmas p;
})

unfoldable pub env_setup_vma : ℕ → Cmd Kernel (Unit {0})
env_setup_vma e = do v ← env_at e; start ← deref v.vma; setup_vmas start 128

-- Bits of an id above the index; the index is kept below 1024.
unfoldable pub next_generation : ℕ → ℕ
next_generation id =
    let g = (id + 2 ^ 12) % 2 ^ 32 / 1024 * 1024 in if g == 0 || leb (2 ^ 31) g then 2 ^ 12 else g

unfoldable pub next_env_id : ℕ → ℕ → ℕ
next_env_id id e = bit_or (next_generation id) e

-- Segment selectors and the user stack.
abbrev pub start_frame : IntFrame
start_frame = record zero_frame { ds = 27; ss = 27; rsp = user_top - 2 * 4096; cs = 35 }

abbrev pub started : ℕ → ℕ → Env → Env
started e parent_id v = record v {
  env_id = next_env_id v.env_id e;
  env_parent_id = parent_id;
  env_type = 0;
  env_status = env_runnable;
  env_runs = 0;
  env_frame = start_frame;
}

pub data AllocResult : Type 0 where
  new_env : ℕ → AllocResult
  no_free_env : AllocResult
  no_mem : AllocResult

unfoldable pub env_alloc : ℕ → Cmd Kernel AllocResult
env_alloc parent_id k = elim k.env_free_list [
  | none ↦ ok no_free_env k
  | some e ↦
      ((do
        mapped ← env_setup_vm e
        if mapped
            then (do
              env_setup_vma e
              modify_env e (started e parent_id)
              v ← env_at e
              (λ k. ok tt (record k { env_free_list = v.env_link }))
              pure (new_env e))
            else pure no_mem)
        k)
]

-- The current environment gives up the processor.
unfoldable pub pause_current : Cmd Kernel (Unit {0})
pause_current k = elim k.curenv [
  | none ↦ ok tt k
  | some c ↦
      (if is_running (k.envs c).env_status
        then modify_env c (λ v. record v { env_status = env_runnable }) k
        else ok tt k)
]

-- PADDR of a kernel address, which panics on a null pointer.
abbrev pub paddr : Option ℕ → Cmd Kernel ℕ
paddr none k = panic
paddr (some f) k = ok f k

-- env_run up to the return to user mode: the result is the frame that `iret` pops.
unfoldable pub env_run : ℕ → Cmd Kernel IntFrame
env_run e = do
  pause_current
  (λ k. ok tt (record k { curenv = some e }))
  modify_env e (λ v. record v { env_status = env_running; env_runs = (v.env_runs + 1) % 2 ^ 32 })
  v ← env_at e
  pml4 ← paddr v.env_pml4
  (λ k. ok tt (record k { loaded = pml4 }))
  pure v.env_frame
