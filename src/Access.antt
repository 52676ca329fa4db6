-- ===== src/Access.antt =====
-- user_mem_check and user_mem_assert of kern/pmap.c.
use kp.Base.{
  ℕ, zero, suc, ◌/◌, ◌==◌, ltb, leb, Bool, true, false, not, ◌&&◌, if◌then◌else◌, Option, none,
  some, bit_or, bit_and,
}
use kp.Run.{ok, out_of_fuel, Cmd, pure, ◌>>=◌}
use kp.Words.{add64, round_down, round_up, has_bit, page_user}
use kp.PageTable.{entry_at, page_lookup}
use kp.Kernel.{Kernel, on_memory, deref, env_at}

-- `read_word va` is a read of 64 bits through the page table in CR3, which the check makes at each page.
module _ (read_word : ℕ → Cmd Kernel ℕ) where
  -- Is the page of `vi` one that the program may use with some of the bits `perm`?
  unfoldable pub page_allowed : ℕ → ℕ → ℕ → Cmd Kernel Bool
  page_allowed pml4 vi perm = do
    found ← on_memory (page_lookup pml4 vi)
    elim found [
      | none ↦ pure false
      | some (p, s) ↦ (do
        w ← read_word vi
        λ k.
            ok
              (not (entry_at k.memory s == 0)
                && (ltb w k.kernel_vma
                    && (has_bit (entry_at k.memory s) 0
                        && not (bit_and (entry_at k.memory s) perm == 0))))
              k)
    ]

  -- `none` is the result 0; `some a` is -E_FAULT with user_mem_check_addr set to `a`.
  unfoldable pub check_loop : ℕ → ℕ → ℕ → ℕ → ℕ → ℕ → Cmd Kernel (Option ℕ)
  check_loop zero pml4 va vi va_end perm k = if ltb vi va_end then out_of_fuel else ok none k
  check_loop (suc fuel) pml4 va vi va_end perm k =
      let step =
        (do
          allowed ← page_allowed pml4 vi perm
          if allowed
              then check_loop fuel pml4 va (add64 vi 4096) va_end perm
              else pure (some (if leb va vi then vi else va)))
          k in
      if ltb vi va_end then step else ok none k

  unfoldable pub user_mem_check : ℕ → ℕ → ℕ → ℕ → Cmd Kernel (Option ℕ)
  user_mem_check env va len perm = do
    e ← env_at env
    pml4 ← deref e.env_pml4
    check_loop (suc (suc (len / 4096))) pml4 va (round_down va) (round_up (add64 va len)) perm

  -- Is the environment destroyed?
  unfoldable pub user_mem_assert : ℕ → ℕ → ℕ → ℕ → Cmd Kernel Bool
  user_mem_assert env va len perm = do
    r ← user_mem_check env va len (bit_or perm page_user)
    elim r [ none ↦ pure false | some a ↦ pure true ]
