-- ===== src/Vma.antt =====
-- The lists of virtual memory areas: kern/vma.c, and the two system calls that use them.
pub mod Unmap
pub mod Lookup
mod Tests
use kp.Base.{
  ℕ, zero, suc, ◌+◌, ◌-◌, ◌/◌, ◌^◌, ◌==◌, ltb, leb, Bool, true, false, not, ◌&&◌, ◌||◌,
  if◌then◌else◌, Option, none, some,
}
use kp.Run.{Run, ok, panic, fault, out_of_fuel, Cmd, pure, ◌>>=◌, ◌>>◌}
use kp.Words.{add64, sub64, round_down, round_up, user_top, word}
use kp.Pages.{Memory, is_none}
use kp.Pages.Allocator.{page_alloc}
use kp.PageTable.{page_insert}
use kp.Kernel.{
  Vma, VmaType, vma_unused, is_unused, Kernel, Env, on_memory, deref, vma_at, modify_vma, env_at,
  modify_env, set_vma, set_vma_if_some, set_next, set_prev, set_head,
}

unfoldable pub last_loop : ℕ → ℕ → Cmd Kernel (Option ℕ)
last_loop zero p k = out_of_fuel
last_loop (suc fuel) p k = elim (k.vmas p).next [
  | none ↦ ok (some p) k
  | some n ↦ last_loop fuel n k
]

-- A list has no more nodes than there are VMA structures.
unfoldable pub vma_get_last : Option ℕ → Cmd Kernel (Option ℕ)
vma_get_last none k = ok none k
vma_get_last (some p) k = last_loop (suc k.vma_slots) p k

-- The entry leaves the list of `env`, and goes to the end of the list of `curenv`.
unfoldable pub vma_make_unused : ℕ → ℕ → Cmd Kernel (Unit {0})
vma_make_unused env p = do
  v ← vma_at p
  elim v.prev [
    | none ↦ (do modify_env env (set_head v.next); set_vma_if_some v.next (set_prev none))
    | some q ↦ (do modify_vma q (set_next v.next); set_vma_if_some v.next (set_prev (some q)))
  ]
  c ← (λ k. deref k.curenv k)
  e ← env_at c
  last_vma ← vma_get_last e.vma
  modify_vma p (λ w. record w { va = 0; next = none; vma_type = vma_unused; prev = last_vma })
  set_vma last_vma (set_next (some p))

abbrev pub holds : Vma → ℕ → Bool
holds v a = leb v.va a && ltb a (add64 v.va v.len)

unfoldable pub lookup_loop : ℕ → Option ℕ → ℕ → Cmd Kernel (Option ℕ)
lookup_loop fuel none a k = ok none k
lookup_loop zero (some p) a k = out_of_fuel
lookup_loop (suc fuel) (some p) a k =
    let rest = lookup_loop fuel (k.vmas p).next a k in
    if is_unused (k.vmas p).vma_type
    then ok none k
    else if holds (k.vmas p) a
    then ok (some p) k
    else rest

unfoldable pub vma_lookup : ℕ → ℕ → Cmd Kernel (Option ℕ)
vma_lookup env a k = lookup_loop (suc k.vma_slots) (k.envs env).vma a k

-- Can the new area stand between `v` and its successor `n`?
abbrev pub fits_after : Vma → Vma → ℕ → ℕ → Bool
fits_after v n va_start va_end =
    leb (add64 v.va v.len) va_start && (is_unused n.vma_type || ltb va_end n.va)

unfoldable pub insert_between : ℕ → ℕ → ℕ → Cmd Kernel (Option ℕ)
insert_between p tmp new_vma = do
  modify_vma p (set_next (some new_vma))
  modify_vma new_vma (set_prev (some p))
  modify_vma tmp (set_prev (some new_vma))
  modify_vma new_vma (set_next (some tmp))
  pure (some new_vma)

unfoldable pub append_or_fail : ℕ → ℕ → ℕ → Cmd Kernel (Option ℕ)
append_or_fail p new_vma va_start = do
  v ← vma_at p
  if leb (add64 v.va v.len) va_start
      then (do
        modify_vma p (set_next (some new_vma))
        modify_vma new_vma (set_prev (some p))
        modify_vma new_vma (set_next none)
        pure (some new_vma))
      else pure none

unfoldable pub place_loop : ℕ → ℕ → ℕ → ℕ → ℕ → Cmd Kernel (Option ℕ)
place_loop zero p new_vma va_start va_end k = out_of_fuel
place_loop (suc fuel) p new_vma va_start va_end k = elim (k.vmas p).next [
  | none ↦ append_or_fail p new_vma va_start k
  | some n ↦
      (let rest = place_loop fuel n new_vma va_start va_end k in
        if fits_after (k.vmas p) (k.vmas n) va_start va_end
        then insert_between p n new_vma k
        else rest)
]

-- The area to insert, but for its links.
pub record Request : Type 0 where
  pub req_type : VmaType
  pub req_mem_va : ℕ
  pub req_mem_size : ℕ
  pub req_perm : ℕ
  pub req_file_va : ℕ
  pub req_file_size : ℕ

abbrev pub va_start_of : Request → ℕ
va_start_of r = round_down r.req_mem_va

abbrev pub va_end_of : Request → ℕ
va_end_of r = round_up (add64 r.req_mem_va r.req_mem_size)

abbrev pub filled : Request → Vma → Vma
filled r v = record v {
  vma_type = r.req_type;
  va = va_start_of r;
  len = sub64 (va_end_of r) (va_start_of r);
  perm = r.req_perm;
  mem_va = r.req_mem_va;
  file_va = r.req_file_va;
  mem_size = r.req_mem_size;
  file_size = r.req_file_size;
}

unfoldable pub place_vma : ℕ → ℕ → ℕ → Request → Cmd Kernel (Option ℕ)
place_vma env head new_vma r = do
  v ← vma_at head
  if is_unused v.vma_type || ltb (va_end_of r) v.va
      then (do
        modify_vma head (set_prev (some new_vma))
        modify_vma new_vma (set_next (some head))
        modify_vma new_vma (set_prev none)
        modify_env env (set_head (some new_vma))
        pure (some new_vma))
      else (λ k. place_loop (suc k.vma_slots) head new_vma (va_start_of r) (va_end_of r) k)

-- The last node of the list is filled in, taken off the end and put in its place.
unfoldable pub take_slot : ℕ → ℕ → Request → Option ℕ → Cmd Kernel (Option ℕ)
take_slot env head r none = pure none
take_slot env head r (some new_vma) = do
  v ← vma_at new_vma
  if not (is_unused v.vma_type) then pure none else do
    modify_vma new_vma (filled r)
    w ← vma_at new_vma
    set_vma w.prev (set_next none)
    place_vma env head new_vma r

unfoldable pub vma_insert : ℕ → Request → Cmd Kernel (Option ℕ)
vma_insert env r = do
  e ← env_at env
  last ← vma_get_last e.vma
  elim e.vma [ none ↦ pure none | some head ↦ take_slot env head r last ]

abbrev pub end_of : Vma → ℕ
end_of v = round_up (add64 v.va v.len)

unfoldable pub vmem_loop : ℕ → ℕ → ℕ → Cmd Kernel ℕ
vmem_loop zero size p k = out_of_fuel
vmem_loop (suc fuel) size p k = elim (k.vmas p).next [
  | none ↦ ok (word - 1) k
  | some n ↦
      (let rest = vmem_loop fuel size n k in
        if is_unused (k.vmas n).vma_type
        then (if ltb (sub64 user_top (end_of (k.vmas p))) size
            then ok (word - 1) k
            else ok (end_of (k.vmas p)) k)
        else if leb size (sub64 (k.vmas n).va (end_of (k.vmas p)))
        then ok (end_of (k.vmas p)) k
        else rest)
]

-- The result -1 is the word 2 ^ 64 - 1.
unfoldable pub vma_get_vmem : ℕ → Option ℕ → Cmd Kernel ℕ
vma_get_vmem size none k = fault
vma_get_vmem size (some p) k =
    if is_unused (k.vmas p).vma_type
    then ok 0 k
    else if leb size (k.vmas p).va
    then ok ((k.vmas p).va - size) k
    else vmem_loop (suc k.vma_slots) size p k

-- `fuel` is the number of pages the loop may map.
unfoldable pub populate_loop : ℕ → ℕ → ℕ → ℕ → ℕ → Cmd Kernel (Unit {0})
populate_loop zero virt_addr limit perm pml4 k =
    if ltb virt_addr limit then out_of_fuel else ok tt k
populate_loop (suc fuel) virt_addr limit perm pml4 k =
    let step =
      (do
        page ← on_memory (page_alloc 1)
        elim page [
          | none ↦ (λ _. panic)
          | some p ↦ (do
            mapped ← on_memory (page_insert pml4 p virt_addr perm)
            if mapped
                then populate_loop fuel (add64 virt_addr 4096) limit perm pml4
                else (λ _. panic))
        ])
        k in
    if ltb virt_addr limit then step else ok tt k

unfoldable pub vma_map_populate : ℕ → ℕ → ℕ → ℕ → Cmd Kernel (Unit {0})
vma_map_populate va size perm env = do
  e ← env_at env
  pml4 ← deref e.env_pml4
  populate_loop (suc (size / 4096)) va (add64 va size) perm pml4
