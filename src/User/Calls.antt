-- ===== src/User/Calls.antt =====
-- User programs and the kernel together: the calls of the user library, served by kern/syscall.c.
use kp.Base.{
  ℕ, zero, suc, ◌+◌, ◌%◌, ◌^◌, ◌==◌, ◌≤◌, ◌<◌, ◌≡◌, ◌≢◌, ◌∙◌, refl, sym, ap, Option, some, ◌⊎◌,
  arith, inl, inr, Bool-cases, ==_iff, ==_refl,
}
use kp.Run.{and_then, ok, Cmd, pure, ◌>>=◌}
use kp.Kernel.{Kernel, IntFrame, is_running, update_at}
use kp.Env.{env_run, envx, envid2env}
use kp.Env.Running.{IsSolo, env_run-ids}
use kp.Syscall.{
  Outcome, returns, in_monitor, syscall_handler, syscall, sys_getenvid, sys_env_destroy,
  env_destroy,
}
use kp.User.{find_env, assert_env, libmain_env, exit}
use kp.Env.Free.{env_free}

-- What the stub returns is what the handler leaves in rax.
abbrev pub result_of : Outcome IntFrame → Outcome ℕ
result_of in_monitor = in_monitor
result_of (returns f) = returns f.rax

unfoldable pub kernel_call :
    (ℕ → Cmd Kernel ℕ) → Cmd Kernel ℕ → ℕ → ℕ → ℕ → ℕ → ℕ → ℕ → ℕ → Cmd Kernel (Outcome ℕ)
kernel_call read_word cons_getc fuel num a1 a2 a3 a4 a5 = do
  r ← syscall_handler read_word cons_getc fuel num a1 a2 a3
  pure (result_of r)

-- The search stops at the first slot that has the id.
find_env_lem :
    (ids : ℕ → ℕ) (id c left i : ℕ)
    → i ≤ c
    → c < i + left
    → ids c ≡ id
    → ((j : ℕ) → j < i + left → ids j ≡ id → j ≡ c)
    → find_env ids id left i ≡ some c
unfolding find_env
find_env_lem ids id c zero i low high e one = absurd (omega arith)
find_env_lem ids id c (suc left) i low high e one = elim (Bool-cases (ids i == id)) [
  | inl t ↦ rw t (ap some (one i (omega arith) ((==_iff (ids i) id).0 t)))
  | inr f ↦
      let next : i ≢ c = λ q. ground (arith, ap ids q) in
      rw f (
        find_env_lem ids id c left (i + 1) (omega (arith, next)) (omega arith) e
          λ j h q. one j (omega arith) q)
]

-- The state in which the current environment has been given its id as the result.
abbrev answered : Kernel → ℕ → Kernel
answered k c = record k {
  envs =
      update_at k.envs c
        (record (k.envs c) { env_frame = record (k.envs c).env_frame { rax = (k.envs c).env_id } });
}

answered-IsSolo : (k : Kernel) (c : ℕ) → IsSolo k → IsSolo (answered k c)
unfolding IsSolo
answered-IsSolo k c v j r = v j (ap is_running (sym (status_kept j)) ∙ r)
  where
    status_kept : (j : ℕ) → ((answered k c).envs j).env_status ≡ (k.envs j).env_status
    status_kept j = ground arith

answered_id : (k : Kernel) (c j : ℕ) → ((answered k c).envs j).env_id ≡ (k.envs j).env_id
answered_id k c j = ground arith

handled :
    (read_word : ℕ → Cmd Kernel ℕ) (cons_getc : Cmd Kernel ℕ) (fuel : ℕ) (k : Kernel) (c : ℕ)
    → k.curenv ≡ some c
    → kernel_call read_word cons_getc fuel 2 0 0 0 0 0 k
      ≡ and_then
          (and_then (env_run c (answered k c)) (λ f. pure (returns f)))
          (λ r. pure (result_of r))
unfolding kernel_call syscall_handler syscall sys_getenvid
handled read_word cons_getc fuel k c q = rw q refl

-- A handled call of sys_getenvid gives the id of the current environment, which runs on.
getenvid_lem :
    (read_word : ℕ → Cmd Kernel ℕ) (cons_getc : Cmd Kernel ℕ) (fuel : ℕ) (k : Kernel) (c pml4 : ℕ)
    → IsSolo k
    → k.curenv ≡ some c
    → (k.envs c).env_pml4 ≡ some pml4
    → (k' : Kernel) × (kernel_call read_word cons_getc fuel 2 0 0 0 0 0 k
        ≡ ok (returns (k.envs c).env_id) k')
      × ((j : ℕ) → (k'.envs j).env_id ≡ (k.envs j).env_id)
getenvid_lem read_word cons_getc fuel k c pml4 v q h =
    let (k', run, ids) =
      env_run-ids (answered k c) c pml4 (answered-IsSolo k c v) (rw (==_refl c) h) in
    let rax : ((answered k c).envs c).env_frame.rax ≡ (k.envs c).env_id = rw (==_refl c) refl in
    (
      k',
      handled read_word cons_getc fuel k c q ∙ rw run (ap (λ (r : ℕ). ok (returns r) k') rax),
      λ j. ids j ∙ answered_id k c j,
    )

-- Let only the current environment c, below 1024, be running, with a page table and an id that
-- is not 0, and let each of the 1024 ids be 0 or name its slot. Then a user program's libmain,
-- whose call of sys_getenvid the kernel's syscall_handler serves, finds the slot c for thisenv,
-- and no id changes.
pub libmain_env-getenvid :
    (read_word : ℕ → Cmd Kernel ℕ) (cons_getc : Cmd Kernel ℕ) (fuel : ℕ) (k : Kernel) (c pml4 : ℕ)
    → IsSolo k
    → k.curenv ≡ some c
    → (k.envs c).env_pml4 ≡ some pml4
    → c < 1024
    → (k.envs c).env_id < 2 ^ 32
    → (k.envs c).env_id ≢ 0
    → ((j : ℕ) → j < 1024 → ((k.envs j).env_id ≡ 0) ⊎ (envx (k.envs j).env_id ≡ j))
    → (k' : Kernel) × (libmain_env
          (kernel_call read_word cons_getc fuel)
          (λ k j. (k.envs j).env_id)
          k
        ≡ ok (returns c) k')
      × ((j : ℕ) → (k'.envs j).env_id ≡ (k.envs j).env_id)
unfolding libmain_env
libmain_env-getenvid read_word cons_getc fuel k c pml4 v q h low small set names =
    let (k', run, ids) = getenvid_lem read_word cons_getc fuel k c pml4 v q h in
    let id : (k.envs c).env_id % 2 ^ 32 ≡ (k.envs c).env_id = omega (arith, small) in
    let found : find_env (λ j. (k'.envs j).env_id) (k.envs c).env_id 1024 0 ≡ some c =
      find_env_lem (λ j. (k'.envs j).env_id) (k.envs c).env_id c 1024 0 (omega arith) low (ids c)
        (λ j l e. one j l (sym (ids j) ∙ e)) in
    (k', rw run (rw id (ap (λ (o : Option ℕ). assert_env o k') found)), ids)
  where
    one : (j : ℕ) → j < 1024 → (k.envs j).env_id ≡ (k.envs c).env_id → j ≡ c
    one j l e = elim (names j l) [
      | inl z ↦ absurd (set (sym e ∙ z))
      | inr n ↦ elim (names c low) [ inl z ↦ absurd (set z) | inr n' ↦ sym n ∙ ap envx e ∙ n' ]
    ]

-- exit destroys the environment that calls it, and does not return.
pub exit-env_free :
    (read_word : ℕ → Cmd Kernel ℕ) (cons_getc : Cmd Kernel ℕ) (fuel : ℕ) (k k' : Kernel) (c : ℕ)
    → k.curenv ≡ some c
    → env_free c k ≡ ok tt k'
    → exit (kernel_call read_word cons_getc fuel) k ≡ ok in_monitor k'
unfolding kernel_call syscall_handler syscall sys_env_destroy env_destroy envid2env exit
exit-env_free read_word cons_getc fuel k k' c q f =
    let f' : env_free c (record k { curenv = some c }) ≡ ok tt k' = rw q at f in rw q (rw f' refl)
