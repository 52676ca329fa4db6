-- ===== src/Syscall.antt =====
-- The system calls of kern/syscall.c.
use kp.Base.{ℕ, ◌-◌, ◌%◌, ◌^◌, ◌==◌, ltb, leb, true, ◌&&◌, if◌then◌else◌, none, some, bit_or}
use kp.Run.{panic, Cmd, pure, ◌>>=◌, ◌>>◌}
use kp.Words.{add64, sub64, round_down, round_up, word, page_user}
use kp.Kernel.{vma_anon, Kernel, IntFrame, deref, vma_at, modify_vma, env_at, modify_env}
use kp.Vma.{vma_lookup, vma_insert, vma_make_unused, vma_get_vmem, vma_map_populate}
use kp.Vma.Unmap.{vma_unmap}
use kp.Env.{envid2env, env_run}
use kp.Env.Free.{env_free}
use kp.Access.{user_mem_assert}

-- `env_destroy` frees the environment and then stays in the monitor: nothing after it runs.
pub data Outcome (A : Type 0) : Type 0 where
  returns : A → Outcome A
  in_monitor : Outcome A

unfoldable pub env_destroy : {A : Type 0} → ℕ → Cmd Kernel (Outcome A)
env_destroy e = do env_free e; pure in_monitor

abbrev pub current : Cmd Kernel ℕ
current k = deref k.curenv k

abbrev pub minus_one : ℕ
minus_one = 2 ^ 64 - 1

unfoldable pub sys_vma_create : ℕ → ℕ → ℕ → Cmd Kernel ℕ
sys_vma_create size perm flags = do
  c ← current
  e ← env_at c
  va ← vma_get_vmem (round_up size) e.vma
  if leb (2 ^ 63) va then pure minus_one else do
    new_vma ← vma_insert c (record {
      req_type = vma_anon;
      req_mem_va = va;
      req_mem_size = size;
      req_perm = bit_or perm page_user;
      req_file_va = 0;
      req_file_size = 0;
    })
    elim new_vma [
      | none ↦ pure minus_one
      | some p ↦ (do
        v ← vma_at p
        (if flags == 0 then pure tt else vma_map_populate v.va v.len (bit_or perm page_user) c)
        pure v.va)
    ]

-- The area that is left when `[va_start, va_end)` is taken out of it.
unfoldable pub shrink_vma : ℕ → ℕ → ℕ → ℕ → ℕ → Cmd Kernel (Unit {0})
shrink_vma c p va_start va_end size = do
  v ← vma_at p
  if va_start == v.va
      then modify_vma p (λ w. record w { va = va_end; len = sub64 w.len size })
      else if va_end == add64 v.va v.len
      then modify_vma p (λ w. record w { len = sub64 w.len size })
      else (do
        let len_new = sub64 (add64 v.va v.len) va_end
        modify_vma p (λ w. record w { len = sub64 (sub64 w.len size) len_new })
        vma_insert c (record {
          req_type = v.vma_type;
          req_mem_va = va_end;
          req_mem_size = len_new;
          req_perm = v.perm;
          req_file_va = 0;
          req_file_size = 0;
        })
        pure tt)

-- An address that no area holds, and a range that ends beyond the area, are kernel panics.
unfoldable pub sys_vma_destroy : ℕ → ℕ → ℕ → Cmd Kernel ℕ
sys_vma_destroy fuel va size = do
  let va_start = round_up va
  let va_end = round_down (add64 va size)
  let size_rounded = sub64 va_end va_start
  c ← current
  found ← vma_lookup c va
  elim found [
    | none ↦ (λ _. panic)
    | some p ↦ (do
      v ← vma_at p
      if ltb (add64 v.va v.len) va_end then (λ _. panic) else do
        (if va_start == v.va && size_rounded == v.len
            then vma_make_unused c p
            else shrink_vma c p va_start va_end size_rounded)
        vma_unmap fuel va_start size_rounded c
        pure 0)
  ]

unfoldable pub sys_getenvid : Cmd Kernel ℕ
sys_getenvid = do c ← current; e ← env_at c; pure e.env_id

-- -E_BAD_ENV as a 64-bit word. Without an error the environment is destroyed.
unfoldable pub sys_env_destroy : ℕ → Cmd Kernel (Outcome ℕ)
sys_env_destroy envid = do
  r ← envid2env envid true
  elim r [ none ↦ pure (returns (word - 2)) | some stored ↦ (do e ← deref stored; env_destroy e) ]

-- `read_word` reads user memory, `cons_getc` is the console driver.
module _ (read_word : ℕ → Cmd Kernel ℕ) (cons_getc : Cmd Kernel ℕ) where
  unfoldable pub sys_cputs : ℕ → ℕ → Cmd Kernel (Outcome (Unit {0}))
  sys_cputs s len = do
    c ← current
    destroyed ← user_mem_assert read_word c s len 0
    if destroyed then env_destroy c else pure (returns tt)

  abbrev pub cputs_result : Outcome (Unit {0}) → Outcome ℕ
  cputs_result (returns u) = returns 0
  cputs_result in_monitor = in_monitor

  abbrev pub wrap : Cmd Kernel ℕ → Cmd Kernel (Outcome ℕ)
  wrap c = do r ← c; pure (returns r)

  -- `a1` to `a3` are cut to the parameters' types; -E_NO_SYS is the last result.
  unfoldable pub syscall : ℕ → ℕ → ℕ → ℕ → ℕ → Cmd Kernel (Outcome ℕ)
  syscall fuel syscallno a1 a2 a3 =
      if syscallno == 0
      then (do r ← sys_cputs a1 a2; pure (cputs_result r))
      else if syscallno == 1
      then wrap cons_getc
      else if syscallno == 2
      then wrap sys_getenvid
      else if syscallno == 3
      then sys_env_destroy (a1 % 2 ^ 32)
      else if syscallno == 4
      then wrap (sys_vma_create a1 (a2 % 2 ^ 32) (a3 % 2 ^ 32))
      else if syscallno == 5
      then wrap (sys_vma_destroy fuel a1 a2)
      else pure (returns (word - 7))

  abbrev finish_syscall : ℕ → Outcome ℕ → Cmd Kernel (Outcome IntFrame)
  finish_syscall c (returns r) = do
    modify_env c (λ e. record e { env_frame = record e.env_frame { rax = r } })
    f ← env_run c
    pure (returns f)
  finish_syscall c in_monitor = pure in_monitor

  -- The result is stored in the frame of the environment that was current when the call began.
  unfoldable pub syscall_handler : ℕ → ℕ → ℕ → ℕ → ℕ → Cmd Kernel (Outcome IntFrame)
  syscall_handler fuel rdi rsi rdx rcx k = elim k.curenv [
    | none ↦ panic
    | some c ↦ (do r ← syscall fuel rdi rsi rdx rcx; finish_syscall c r) k
  ]
