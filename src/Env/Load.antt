-- ===== src/Env/Load.antt =====
-- region_alloc, load_icode and env_create of kern/env.c.
use kp.Base.{
  ℕ, zero, suc, ◌+◌, ◌-◌, ◌*◌, ◌/◌, ◌==◌, ltb, not, if◌then◌else◌, none, some, List, [], ◌∷◌,
}
use kp.Run.{ok, panic, out_of_fuel, Cmd, pure, ◌>>=◌, ◌>>◌}
use kp.Words.{add64, round_down, round_up, user_top, page_user, page_write}
use kp.Pages.{is_none}
use kp.Pages.Allocator.{page_alloc}
use kp.PageTable.{page_insert}
use kp.Kernel.{vma_anon, vma_binary, Kernel, on_memory, deref, env_at, modify_env}
use kp.Vma.{Request, vma_insert}
use kp.Env.{new_env, no_free_env, no_mem, env_alloc}

-- `fuel` is the number of pages the loop may map. The result of page_insert is not looked at.
unfoldable pub region_loop : ℕ → ℕ → ℕ → ℕ → Cmd Kernel (Unit {0})
region_loop zero vi va_end pml4 k = if ltb vi va_end then out_of_fuel else ok tt k
region_loop (suc fuel) vi va_end pml4 k =
    let step =
      (do
        page ← on_memory (page_alloc 1)
        elim page [
          | none ↦ (λ _. panic)
          | some p ↦ (do
            on_memory (page_insert pml4 p vi (page_write + page_user))
            region_loop fuel (add64 vi 4096) va_end pml4)
        ])
        k in
    if ltb vi va_end then step else ok tt k

unfoldable pub region_alloc : ℕ → ℕ → ℕ → Cmd Kernel (Unit {0})
region_alloc env va len = do
  e ← env_at env
  pml4 ← deref e.env_pml4
  region_loop (suc (suc (len / 4096))) (round_down va) (round_up (add64 va len)) pml4

-- The parts of an ELF image that load_icode reads; `binary` is where it lies.
pub record ProgramHeader : Type 0 where
  pub p_type : ℕ
  pub p_flags : ℕ
  pub p_offset : ℕ
  pub p_va : ℕ
  pub p_pa : ℕ
  pub p_filesz : ℕ
  pub p_memsz : ℕ

pub record ElfImage : Type 0 where
  pub binary : ℕ
  pub e_magic : ℕ
  pub e_entry : ℕ
  pub headers : List ProgramHeader

abbrev pub segment_request : ℕ → ProgramHeader → Request
segment_request binary ph = record {
  req_type = vma_binary;
  req_mem_va = ph.p_va;
  req_mem_size = ph.p_memsz;
  req_perm = page_write + page_user;
  req_file_va = add64 binary ph.p_offset;
  req_file_size = ph.p_filesz;
}

abbrev pub anon_request : ℕ → ℕ → ℕ → Request
anon_request va size perm = record {
  req_type = vma_anon;
  req_mem_va = va;
  req_mem_size = size;
  req_perm = perm;
  req_file_va = 0;
  req_file_size = 0;
}

-- `zero_user va n` is memset through the page table in CR3: the processor's translation is not here.
module _ (zero_user : ℕ → ℕ → Cmd Kernel (Unit {0})) where
  unfoldable pub load_segments : ℕ → ℕ → List ProgramHeader → Cmd Kernel (Unit {0})
  load_segments e binary [] k = ok tt k
  load_segments e binary (ph ∷ rest) k =
      (do
        (if ph.p_type == 1
            then (do
              v ← vma_insert e (segment_request binary ph)
              if is_none v then (λ _. panic) else pure tt)
            else zero_user ph.p_va (round_up ph.p_memsz))
        load_segments e binary rest)
        k

  -- The stack's page is allocated and not used: only the VMA is made.
  unfoldable pub load_icode : ℕ → ElfImage → Cmd Kernel (Unit {0})
  load_icode e eh = if not (eh.e_magic == 0x464C457F) then (λ _. panic) else do
    load_segments e eh.binary eh.headers
    modify_env e (λ v. record v { env_frame = record v.env_frame { rip = eh.e_entry } })
    page ← on_memory (page_alloc 0)
    if is_none page then (λ _. panic) else do
      vma_insert e (anon_request (user_top - 3 * 4096) 4096 (page_write + page_user))
      vma_insert e (anon_request 4096 4096 page_user)
      vma_insert e (anon_request (4096 + 4096) 4096 (page_write + page_user))
      pure tt

  -- Every failure of env_alloc is a panic, whichever message it has.
  unfoldable pub env_create : ElfImage → ℕ → Cmd Kernel (Unit {0})
  env_create eh type_ = do
    r ← env_alloc 0
    elim r [
      | new_env e ↦ (do load_icode e eh; modify_env e (λ v. record v { env_type = type_ }))
      | no_free_env ↦ (λ _. panic)
      | no_mem ↦ (λ _. panic)
    ]
