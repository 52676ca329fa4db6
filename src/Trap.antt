-- ===== src/Trap.antt =====
-- Interrupts and page faults: kern/idt.c from int_dispatch on.
pub mod Fault
mod Tests
use kp.Base.{
  ℕ, zero, suc, ◌+◌, ◌-◌, ◌/◌, ◌%◌, ◌^◌, ◌==◌, ltb, leb, Bool, true, false, not, ◌&&◌,
  if◌then◌else◌, Option, none, some, bit_or,
}
use kp.Run.{Run, ok, panic, fault, out_of_fuel, Cmd, pure, ◌>>=◌, ◌>>◌}
use kp.Words.{add64, sub64, round_down, word, has_bit}
use kp.Pages.{Memory}
use kp.Pages.Allocator.{page_alloc}
use kp.PageTable.{page_insert}
use kp.Kernel.{
  Vma, VmaType, vma_unused, vma_anon, vma_binary, Kernel, IntFrame, Env, is_running, on_memory,
  deref, vma_at, env_at, modify_env,
}
use kp.Vma.{vma_lookup}
use kp.Env.{env_run}
use kp.Syscall.{Outcome, returns, in_monitor, env_destroy, current, syscall}

abbrev pub is_binary : VmaType → Bool
is_binary vma_unused = false
is_binary vma_anon = false
is_binary vma_binary = true

-- What a fault on a page of a binary copies: from, to and how many bytes.
pub record Copy : Type 0 where
  pub from : ℕ
  pub to : ℕ
  pub size : ℕ

abbrev pub offset_of : Vma → ℕ
offset_of v = sub64 v.file_va v.mem_va

abbrev pub dst_start : Vma → ℕ → ℕ
dst_start v page = if ltb v.mem_va page then page else v.mem_va

abbrev pub dst_end : Vma → ℕ → ℕ
dst_end v page =
    if ltb (add64 page 4096) (add64 v.mem_va v.mem_size)
    then add64 page 4096
    else add64 v.mem_va v.mem_size

abbrev pub src_start : Vma → ℕ → ℕ
src_start v page =
    if ltb v.file_va (add64 page (offset_of v)) then add64 page (offset_of v) else v.file_va

abbrev pub src_end : Vma → ℕ → ℕ
src_end v page =
    if ltb (add64 (add64 page 4096) (offset_of v)) (add64 v.file_va v.file_size)
    then add64 (add64 page 4096) (offset_of v)
    else add64 v.file_va v.file_size

abbrev pub least : ℕ → ℕ → ℕ
least a b = if ltb a b then a else b

abbrev pub copied : Vma → ℕ → Copy
copied v page = record {
  from = src_start v page;
  to = dst_start v page;
  size =
      least (sub64 (src_end v page) (src_start v page)) (sub64 (dst_end v page) (dst_start v page));
}

-- `none`: the page stays all zeros.
unfoldable pub page_copy : Vma → ℕ → Option Copy
page_copy v page = if leb (src_end v page) (src_start v page) then none else some (copied v page)

-- `user_copy` is memcpy through the page table in CR3.
module _ (user_copy : Copy → Cmd Kernel (Unit {0})) where
  unfoldable pub load_binary : ℕ → Vma → ℕ → Cmd Kernel (Unit {0})
  load_binary pml4 v page = elim (page_copy v page) [
    | none ↦ pure tt
    | some c ↦ (do
      (λ k. ok tt (record k { loaded = pml4 }))
      user_copy c
      (λ k. ok tt (record k { loaded = k.kern_pml4 })))
  ]

  -- Is the fault handled? Without a free page, and without room for the tables, the kernel panics.
  unfoldable pub page_fault_load_page : ℕ → Cmd Kernel Bool
  page_fault_load_page va = do
    c ← current
    found ← vma_lookup c va
    elim found [
      | none ↦ pure false
      | some p ↦ (do
        page ← on_memory (page_alloc 1)
        elim page [
          | none ↦ (λ _. panic)
          | some pp ↦ (do
            e ← env_at c
            v ← vma_at p
            pml4 ← deref e.env_pml4
            mapped ← on_memory (page_insert pml4 pp va v.perm)
            if not mapped then (λ _. panic) else do
              (if is_binary v.vma_type then load_binary pml4 v va else pure tt)
              pure true)
        ])
    ]

  abbrev die : Cmd Kernel (Outcome (Unit {0}))
  die = do c ← current; env_destroy c

  unfoldable pub load_or_die : ℕ → Cmd Kernel (Outcome (Unit {0}))
  load_or_die page = do
    loaded ← page_fault_load_page page
    if loaded then pure (returns tt) else die

  -- `fault_va` is CR2.
  unfoldable pub page_fault_handler : ℕ → IntFrame → Cmd Kernel (Outcome (Unit {0}))
  page_fault_handler fault_va frame k =
      (if not (has_bit frame.err_code 2)
          then (if ltb (round_down fault_va) k.kernel_vma
              then load_or_die (round_down fault_va)
              else (λ _. panic))
          else if not (has_bit frame.err_code 0)
          then load_or_die (round_down fault_va)
          else die)
        k

  module _ (read_word : ℕ → Cmd Kernel ℕ) (cons_getc : Cmd Kernel ℕ)
      (monitor : IntFrame → Cmd Kernel (Unit {0})) where
    abbrev store_rax : ℕ → Outcome ℕ → Cmd Kernel (Outcome (Unit {0}))
    store_rax c (returns r) = do
      modify_env c (λ e. record e { env_frame = record e.env_frame { rax = r } })
      pure (returns tt)
    store_rax c in_monitor = pure in_monitor

    -- `frame` is the one int_handler copied to the environment `c`, whose frame a system call writes.
    unfoldable pub int_dispatch : ℕ → ℕ → ℕ → IntFrame → Cmd Kernel (Outcome (Unit {0}))
    int_dispatch fuel fault_va c frame =
        if frame.int_no == 14
        then page_fault_handler fault_va frame
        else if frame.int_no == 3
        then (do monitor frame; pure (returns tt))
        else if frame.int_no == 128
        then (do
          r ← syscall read_word cons_getc fuel frame.rdi frame.rsi frame.rdx frame.rcx
          store_rax c r)
        else if frame.cs == 8
        then (λ _. panic)
        else (do e ← current; env_destroy e)

    abbrev resume : Outcome (Unit {0}) → Cmd Kernel (Outcome IntFrame)
    resume in_monitor = pure in_monitor
    resume (returns u) = λ k. elim k.curenv [
      | none ↦ panic
      | some c ↦
          (if is_running (k.envs c).env_status
            then (do f ← env_run c; pure (returns f)) k
            else panic)
    ]

    -- An interrupt that user mode takes; interrupts are off.
    unfoldable pub user_int_handler : ℕ → ℕ → IntFrame → Cmd Kernel (Outcome IntFrame)
    user_int_handler fuel fault_va frame k = elim k.curenv [
      | none ↦ panic
      | some c ↦
          (do
            modify_env c (λ e. record e { env_frame = frame })
            r ← int_dispatch fuel fault_va c frame
            resume r)
            k
    ]
