-- ===== src/User.antt =====
-- The user library: lib/libmain.c, lib/syscall.c, lib/exit.c and lib/console.c.
--
-- do_syscall, an assembly stub, is a parameter: the number of the call and five words, to a word. User
-- programs see the ids of the environments as a function, `ids`.
pub mod Calls
mod Tests
use kp.Base.{
  ℕ, zero, suc, ◌+◌, ◌-◌, ◌%◌, ◌^◌, ◌==◌, ltb, ◌&&◌, Bool, true, false, if◌then◌else◌, Option, none,
  some, List, [], ◌∷◌,
}
use kp.Run.{Run, ok, panic, out_of_fuel, Cmd, pure, ◌>>=◌, ◌>>◌}
use kp.Syscall.{Outcome, returns, in_monitor}

-- The search of libmain over `left` environments from slot `i` on.
unfoldable pub find_env : (ℕ → ℕ) → ℕ → ℕ → ℕ → Option ℕ
find_env ids id zero i = none
find_env ids id (suc left) i =
    let rest = find_env ids id left (i + 1) in if ids i == id then some i else rest

-- assert(thisenv)
abbrev pub assert_env : {S : Type 0} → Option ℕ → Cmd S (Outcome ℕ)
assert_env none s = panic
assert_env (some e) s = ok (returns e) s

module _ {S : Type 0} (do_syscall : ℕ → ℕ → ℕ → ℕ → ℕ → ℕ → Cmd S (Outcome ℕ)) where
  -- The test of the result is made on an unsigned long.
  abbrev pub checked_result : Bool → Outcome ℕ → Cmd S (Outcome ℕ)
  checked_result check in_monitor = pure in_monitor
  checked_result check (returns ret) =
      if check && ltb ret 0 then (λ _. panic) else pure (returns ret)

  unfoldable pub syscall : ℕ → Bool → ℕ → ℕ → ℕ → ℕ → ℕ → Cmd S (Outcome ℕ)
  syscall num check a1 a2 a3 a4 a5 = do
    ret ← do_syscall num a1 a2 a3 a4 a5
    checked_result check ret

  -- A result of a narrower type is cut to it.
  abbrev pub cut : ℕ → Outcome ℕ → Outcome ℕ
  cut w in_monitor = in_monitor
  cut w (returns r) = returns (r % 2 ^ w)

  unfoldable pub sys_cputs : ℕ → ℕ → Cmd S (Outcome ℕ)
  unfolding syscall
  sys_cputs s len = syscall 0 false s len 0 0 0

  unfoldable pub sys_cgetc : Cmd S (Outcome ℕ)
  unfolding syscall
  sys_cgetc = do r ← syscall 1 false 0 0 0 0 0; pure (cut 32 r)

  -- An envid_t is an int: as an unsigned long its sign is extended.
  abbrev pub sign_extended : ℕ → ℕ
  sign_extended x = if ltb x (2 ^ 31) then x else x + (2 ^ 64 - 2 ^ 32)

  unfoldable pub sys_env_destroy : ℕ → Cmd S (Outcome ℕ)
  unfolding syscall
  sys_env_destroy envid = do r ← syscall 3 true (sign_extended envid) 0 0 0 0; pure (cut 32 r)

  unfoldable pub sys_getenvid : Cmd S (Outcome ℕ)
  unfolding syscall
  sys_getenvid = do r ← syscall 2 false 0 0 0 0 0; pure (cut 32 r)

  unfoldable pub sys_vma_create : ℕ → ℕ → ℕ → Cmd S (Outcome ℕ)
  unfolding syscall
  sys_vma_create size perm flags =
      syscall 4 true size (sign_extended perm) (sign_extended flags) 0 0

  unfoldable pub sys_vma_destroy : ℕ → ℕ → Cmd S (Outcome ℕ)
  unfolding syscall
  sys_vma_destroy va size = do r ← syscall 5 true va size 0 0 0; pure (cut 32 r)

  unfoldable pub exit : Cmd S (Outcome ℕ)
  unfolding sys_env_destroy
  exit = sys_env_destroy 0

  -- libmain up to the call of umain: the slot that thisenv points to; a failed assert panics.
  unfoldable pub libmain_env : (S → ℕ → ℕ) → Cmd S (Outcome ℕ)
  unfolding sys_getenvid
  libmain_env ids = do
    id ← sys_getenvid
    (λ s. elim id as (λ _. Run S (Outcome ℕ)) [
      | in_monitor ↦ ok in_monitor s
      | returns env_id ↦ assert_env (find_env (ids s) env_id 1024 0) s
    ])

  -- `umain` is the program.
  unfoldable pub libmain : (S → ℕ → ℕ) → Cmd S (Outcome ℕ) → Cmd S (Outcome ℕ)
  unfolding libmain_env exit
  libmain ids umain = do
    e ← libmain_env ids
    elim e as (λ _. Cmd S (Outcome ℕ)) [
      | in_monitor ↦ pure in_monitor
      | returns _ ↦ (do
        r ← umain
        elim r as (λ _. Cmd S (Outcome ℕ)) [ in_monitor ↦ pure in_monitor | returns _ ↦ exit ])
    ]

  -- getchar: it asks until there is a character.
  unfoldable pub getchar : Cmd S (Unit {0}) → ℕ → Cmd S (Outcome ℕ)
  unfolding sys_cgetc
  getchar sys_yield zero s = out_of_fuel
  getchar sys_yield (suc fuel) s =
      (do
        r ← sys_cgetc
        elim r as (λ _. Cmd S (Outcome ℕ)) [
          | in_monitor ↦ pure in_monitor
          | returns c ↦ elim (c == 0) as (λ _. Cmd S (Outcome ℕ)) [
            | true ↦ (do sys_yield; getchar sys_yield fuel)
            | false ↦ pure (returns c)
          ]
        ])
        s
