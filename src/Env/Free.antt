-- ===== src/Env/Free.antt =====
-- env_free and env_free_page_tables of kern/env.c.
use kp.Base.{ℕ, zero, suc, ◌+◌, ◌*◌, ◌==◌, if◌then◌else◌, none, some}
use kp.Run.{ok, Cmd, pure, ◌>>=◌, ◌>>◌}
use kp.Words.{has_bit, entry_frame, pml4_index, page_table_entries}
use kp.Pages.{Memory, pa2page}
use kp.Pages.Allocator.{page_decref}
use kp.PageTable.{Slot, slot, entry_at, write_entry, table_of}
use kp.Kernel.{Kernel, env_free_status, on_memory, deref, env_at, modify_env}
use kp.Env.{is_some_env}

-- The loop over the entries of a table, with what is done to the table an entry leads to.
unfoldable pub free_entries : (Slot → Cmd Memory (Unit {0})) → ℕ → ℕ → ℕ → Cmd Memory (Unit {0})
free_entries child zero table i m = ok tt m
free_entries child (suc left) table i m =
    (do
      (if has_bit (entry_at m (slot table i)) 0 then child (slot table i) else pure tt)
      free_entries child left table (i + 1))
      m

-- `*entry = 0` only at the lowest level.
unfoldable pub free_leaf : Slot → Cmd Memory (Unit {0})
free_leaf s = do
  page ← (λ m. pa2page (entry_frame (entry_at m s) * 4096) m)
  page_decref page
  write_entry s 0

-- `max` is PML4_INDEX(KERNEL_VMA), which bounds the table of depth 3.
unfoldable pub env_free_page_tables : ℕ → ℕ → ℕ → Cmd Memory (Unit {0})
env_free_page_tables max zero table = do
  free_entries free_leaf page_table_entries table 0
  page ← pa2page (table * 4096)
  page_decref page
env_free_page_tables max (suc depth) table = do
  free_entries (λ s. table_of s >>= env_free_page_tables max depth)
      (if suc depth == 3 then max else page_table_entries) table 0
  page ← pa2page (table * 4096)
  page_decref page

unfoldable pub env_free : ℕ → Cmd Kernel (Unit {0})
env_free e = do
  (λ k. ok tt (if is_some_env k.curenv e then record k { loaded = k.kern_pml4 } else k))
  v ← env_at e
  pml4 ← deref v.env_pml4
  (λ k. on_memory (env_free_page_tables (pml4_index k.kernel_vma) 3 pml4) k)
  (λ k.
      modify_env e
        (λ w. record w {
          env_pml4 = none;
          env_status = env_free_status;
          env_link = k.env_free_list;
        })
        k)
  (λ k. ok tt (record k { env_free_list = some e }))
