-- ===== src/Vma/Unmap.antt =====
-- vma_unmap of kern/vma.c: the pages of a range, then the tables that the function takes for empty.
use kp.Base.{
  ℕ, zero, suc, ◌+◌, ◌*◌, ◌/◌, ◌%◌, ◌==◌, ltb, Bool, true, false, not, ◌&&◌, ◌||◌, if◌then◌else◌,
  Option, none, some,
}
use kp.Run.{ok, fault, out_of_fuel, Cmd, pure, ◌>>=◌, ◌>>◌}
use kp.Words.{
  add64, has_bit, entry_frame, pml4_index, pdpt_index, page_dir_index, page_table_entries, word,
}
use kp.Pages.{Memory, pa2page}
use kp.Pages.Allocator.{page_decref}
use kp.PageTable.{Slot, slot, entry_at, table_of, write_entry, page_remove, tlb_invalidate}
use kp.Kernel.{Kernel, on_memory, deref, env_at}

-- The locals of vma_unmap that live across iterations: the counter that both loops share, the flag
-- that is set once, and the two table pointers that an iteration may leave as they were.
pub record Scan : Type 0 where
  pub i : ℕ
  pub is_empty : Bool
  pub pd : Option ℕ
  pub pt : Option ℕ

-- The loop over a table's entries ends at the first one that is present, or past the last one.
unfoldable pub scan_entries : ℕ → ℕ → ℕ → Memory → ℕ × Bool
scan_entries zero table i m = (i, false)
scan_entries (suc left) table i m =
    let rest = scan_entries left table (i + 1) m in
    if has_bit (entry_at m (slot table i)) 0 then (i, true) else rest

-- An entry that is present, and the table it leads to.
unfoldable pub next_table : Slot → Cmd Memory (Option ℕ)
next_table s m =
    (if has_bit (entry_at m s) 0 then (do f ← table_of s; pure (some f)) else pure none) m

-- `tlb_invalidate(env->env_pml4, entry)` is given the entry's own address.
unfoldable pub delete_table : ℕ → Slot → Cmd Memory (Unit {0})
delete_table kernel_vma s = do
  e ← (λ m. ok (entry_at m s) m)
  page ← pa2page (entry_frame e * 4096)
  page_decref page
  write_entry s 0
  tlb_invalidate ((kernel_vma + s.frame * 4096 + s.index * 8) % word)

abbrev after_scan : ℕ → Scan → Memory → Scan
after_scan table l m =
    let r = scan_entries page_table_entries table 0 m in
    record l { i = r.0; is_empty = l.is_empty && not r.1 }

-- The scan of the table that `i` selects, and the deletion of its entry `s`.
unfoldable pub scan_and_delete : ℕ → Scan → Slot → Cmd Memory Scan
scan_and_delete kernel_vma l s m = elim l.pt [
  | none ↦ fault
  | some table ↦
      (let l' = after_scan table l m in
        (do (if l'.is_empty then delete_table kernel_vma s else pure tt); pure l') m)
]

-- `if (i == 1) pt = pd; else if (i == 2) pt = pdp;`
abbrev pub fix_pointers : ℕ → Scan → Scan
fix_pointers pdp l =
    if l.i == 1 then record l { pt = l.pd } else if l.i == 2 then record l { pt = some pdp } else l

-- The rest of an iteration, from the page directory down; `none` is `continue`.
abbrev get_or_zero : Option ℕ → ℕ
get_or_zero none = 0
get_or_zero (some f) = f

unfoldable pub at_dir : ℕ → ℕ → ℕ → Scan → Slot → Cmd Memory Scan
at_dir kernel_vma va pdp l s m =
    (if l.i == 0
        then (do
          t ← next_table (slot (get_or_zero l.pd) (page_dir_index va))
          elim t [
            | none ↦ pure l
            | some pt ↦
                scan_and_delete kernel_vma (record l { pt = some pt })
                  (slot (get_or_zero l.pd) (page_dir_index va))
          ])
        else scan_and_delete kernel_vma (fix_pointers pdp l) s)
      m

unfoldable pub at_pdpt : ℕ → ℕ → ℕ → Scan → Slot → Cmd Memory Scan
at_pdpt kernel_vma va pdp l s =
    if l.i == 0 || l.i == 1
    then (do
      t ← next_table (slot pdp (pdpt_index va))
      elim t [
        | none ↦ pure l
        | some pd ↦ at_dir kernel_vma va pdp (record l { pd = some pd }) (slot pdp (pdpt_index va))
      ])
    else at_dir kernel_vma va pdp l s

-- One iteration of the inner loop; every level is looked up for `va`, the start of the range.
unfoldable pub unmap_step : ℕ → ℕ → ℕ → Scan → Cmd Memory Scan
unmap_step kernel_vma pml4 va l = do
  t ← next_table (slot pml4 (pml4_index va))
  elim t [ none ↦ pure l | some pdp ↦ at_pdpt kernel_vma va pdp l (slot pml4 (pml4_index va)) ]

unfoldable pub remove_loop : ℕ → ℕ → ℕ → ℕ → Cmd Memory (Unit {0})
remove_loop zero pml4 vi limit m = if ltb vi limit then out_of_fuel else ok tt m
remove_loop (suc fuel) pml4 vi limit m =
    let step = (do page_remove pml4 vi; remove_loop fuel pml4 (add64 vi 4096) limit) m in
    if ltb vi limit then step else ok tt m

unfoldable pub tables_loop : ℕ → ℕ → ℕ → ℕ → ℕ → ℕ → Scan → Cmd Memory Scan
tables_loop zero kernel_vma pml4 va vi limit l m = if ltb vi limit then out_of_fuel else ok l m
tables_loop (suc fuel) kernel_vma pml4 va vi limit l m =
    let step =
      (do
        l' ← unmap_step kernel_vma pml4 va l
        tables_loop fuel kernel_vma pml4 va (add64 vi 4096) limit l')
        m in
    if ltb vi limit then step else ok l m

-- `for (i = 0; i < 3; i++)`, whose counter the body also changes: it may be set back, so the number
-- of rounds is `fuel`.
unfoldable pub levels_loop : ℕ → ℕ → ℕ → ℕ → ℕ → ℕ → Scan → Cmd Memory (Unit {0})
levels_loop zero pages kernel_vma pml4 va limit l m = if ltb l.i 3 then out_of_fuel else ok tt m
levels_loop (suc fuel) pages kernel_vma pml4 va limit l m =
    let step =
      (do
        l' ← tables_loop pages kernel_vma pml4 va va limit l
        levels_loop fuel pages kernel_vma pml4 va limit (record l' { i = l'.i + 1 }))
        m in
    if ltb l.i 3 then step else ok tt m

abbrev pub first_scan : Scan
first_scan = record { i = 0; is_empty = true; pd = none; pt = none }

unfoldable pub vma_unmap : ℕ → ℕ → ℕ → ℕ → Cmd Kernel (Unit {0})
vma_unmap fuel va size env = do
  e ← env_at env
  pml4 ← deref e.env_pml4
  let limit = add64 va size
  let pages = suc (size / 4096)
  on_memory (remove_loop pages pml4 va limit)
  λ k. on_memory (levels_loop fuel pages k.kernel_vma pml4 va limit first_scan) k
