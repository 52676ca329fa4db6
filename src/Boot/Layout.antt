-- ===== src/Boot/Layout.antt =====
-- Where mem_init's arrays lie.
use kp.Base.{
  ℕ, zero, suc, ◌+◌, ◌*◌, ◌/◌, ◌%◌, ◌^◌, ◌<◌, ◌≤◌, ◌≡◌, refl, ◌==◌, leb, ltb, false, if◌then◌else◌,
  none, List, [], ◌∷◌, arith, bit_or,
}
use kp.Run.{ok}
use kp.Words.{add64, sub64, round_up, pml4_index, page_present, page_user, page_no_exec}
use kp.Words.Rounding.{round_up_bounds}
use kp.Pages.{Memory, update}
use kp.Boot.{boot_alloc}
use kp.Boot.Merge.{MmapEntry}
use kp.Boot.Init.{
  Sizes, BootArrays, user_pml4, alloc_or_panic, alloc_vma_lists, init_pml4, init_pages, init_arrays,
  highest_addr,
}

-- Chunks of a size, one behind the other, between two addresses.
abbrev pub Spaced : ℕ → ℕ → List ℕ → ℕ → Type 0
Spaced size from [] limit = from ≤ limit
Spaced size from (l ∷ ls) limit = (from ≤ l) × Spaced size (l + size) ls limit

-- How many pages mem_init counts.
abbrev pub page_count : List MmapEntry → ℕ
page_count entries = highest_addr entries 0 / 4096

Spaced-from :
    (size from before limit : ℕ) (ls : List ℕ)
    → before ≤ from
    → Spaced size from ls limit
    → Spaced size before ls limit
Spaced-from size from before limit [] h s = omega (arith, h, s)
Spaced-from size from before limit (l ∷ ls) h s = (omega (arith, h, s.0), s.1)

suc_times : (n s : ℕ) → suc n * s ≡ s + n * s
suc_times n s = grind arith

module _ (kernel_vma end : ℕ) (high : kernel_vma + 2 ^ 34 < 2 ^ 64) where
  -- A chunk that fits.
  record Chunk (start next_free n : ℕ) (m : Memory) : Type 0 where
    after : ℕ
    run : alloc_or_panic kernel_vma end next_free n m ≡ ok (start, after) m
    behind : start + n ≤ after
    close : after < start + n + 4096

  first_Chunk :
      (start next_free n : ℕ) (m : Memory)
      → (if next_free == 0 then round_up end else next_free) ≡ start
      → start + n + 4096 ≤ kernel_vma + 2 ^ 32
      → n < 2 ^ 32
      → Chunk start next_free n m
  unfolding alloc_or_panic boot_alloc
  first_Chunk start next_free n m e fits small =
      let b = round_up_bounds (start + n) (omega arith) in
      let size : n % 2 ^ 32 ≡ n = omega arith in
      let sum : add64 start n ≡ start + n = omega arith in
      let limit : add64 kernel_vma (2 ^ 32) ≡ kernel_vma + 2 ^ 32 = omega arith in
      let room : leb (kernel_vma + 2 ^ 32) (round_up (start + n)) ≡ false = ground (arith, b) in
      record {
        after = round_up (start + n);
        run = rw (alloc_or_panic, boot_alloc, size, e, sum, limit, room) refl;
        behind = b.0;
        close = b.1;
      }

  next_Chunk :
      (next_free n : ℕ) (m : Memory)
      → 0 < next_free
      → next_free + n + 4096 ≤ kernel_vma + 2 ^ 32
      → n < 2 ^ 32
      → Chunk next_free next_free n m
  next_Chunk next_free n m p fits small =
      let z : (next_free == 0) ≡ false = ground arith in
      first_Chunk next_free next_free n m (rw z refl) fits small

  record Lists (z : Sizes) (count next_free : ℕ) (m : Memory) : Type 0 where
    lists : List ℕ
    after : ℕ
    run : alloc_vma_lists kernel_vma end z count next_free m ≡ ok (lists, after) m
    spaced : Spaced (z.vma * 128) next_free lists after

  alloc_vma_lists_lem :
      (z : Sizes) (count next_free : ℕ) (m : Memory)
      → 0 < next_free
      → next_free + count * (z.vma * 128 + 4096) ≤ kernel_vma + 2 ^ 32
      → z.vma * 128 < 2 ^ 32
      → Lists z count next_free m
  unfolding alloc_vma_lists
  alloc_vma_lists_lem z zero next_free m p fits small = record {
    lists = [];
    after = next_free;
    run = refl;
    spaced = omega arith;
  }
  alloc_vma_lists_lem z (suc n) next_free m p fits small =
      let more : suc n * (z.vma * 128 + 4096) ≡ z.vma * 128 + 4096 + n * (z.vma * 128 + 4096) =
        suc_times n (z.vma * 128 + 4096) in
      let c = next_Chunk next_free (z.vma * 128) m p (omega (arith, fits, more)) small in
      let r =
        alloc_vma_lists_lem z n c.after m (omega (arith, p, c.behind))
          (omega (arith, fits, more, c.close)) small in
      record {
        lists = next_free ∷ r.lists;
        after = r.after;
        run = rw (alloc_vma_lists, c.run) (rw r.run refl);
        spaced = (
          omega arith,
          Spaced-from (z.vma * 128) c.after (next_free + z.vma * 128) r.after r.lists c.behind
              r.spaced,
        );
      }

  -- If the kernel's end is at or above a nonzero KERNEL_VMA, KERNEL_VMA + 2 ^ 34 is below 2 ^
  -- 64, and five pages and the arrays, with a page more for each list of areas, end within 2 ^
  -- 32 behind KERNEL_VMA, then the allocations of mem_init succeed; the PML4, the array of
  -- pages, the environments and the lists of areas lie one behind the other without overlap from
  -- the kernel's end on, and npages is the end of the last free entry divided by the page size.
  pub init_arrays_lem :
      (z : Sizes) (entries : List MmapEntry) (m : Memory)
      → 0 < kernel_vma
      → kernel_vma ≤ end
      → end
          + 5 * 4096
          + z.page_info * page_count entries
          + z.env * 1024
          + 1024 * (z.vma * 128 + 4096)
        ≤ kernel_vma + 2 ^ 32
      → (r : BootArrays) × (m' : Memory) × (init_arrays kernel_vma end z entries m ≡ ok r m')
        × (end ≤ r.kern_pml4)
        × (r.kern_pml4 + 4096 ≤ r.pages_at)
        × (r.pages_at + z.page_info * page_count entries ≤ r.envs_at)
        × Spaced (z.vma * 128) (r.envs_at + z.env * 1024) r.vma_lists r.next_free
        × (m'.npages ≡ page_count entries)
  unfolding init_arrays init_pml4 init_pages
  init_arrays_lem z entries m p low fits =
      let b = round_up_bounds end (omega arith) in
      let c = first_Chunk (round_up end) 0 4096 m refl (omega (arith, b)) (omega arith) in
      let m1 = record m {
        frames = update m.frames (sub64 (round_up end) kernel_vma / 4096) (
            update (λ i. 0) (pml4_index user_pml4)
              (bit_or (bit_or (bit_or (sub64 (round_up end) kernel_vma) page_present) page_user)
                page_no_exec));
      } in
      let d =
        next_Chunk c.after (z.page_info * page_count entries) m1 (omega (arith, b, c.behind))
          (omega (arith, b, c.close)) (omega arith) in
      let m2 = record m1 {
        npages = page_count entries;
        pages = λ p.
            if ltb p (page_count entries)
            then record {
              pp_link = none;
              previous = none;
              is_huge = 0;
              pp_ref = 0;
              is_available = 0;
            }
            else m.pages p;
      } in
      let e =
        next_Chunk d.after (z.env * 1024) m2 (omega (arith, b, c.behind, d.behind))
          (omega (arith, b, c.close, d.close)) (omega arith) in
      let l =
        alloc_vma_lists_lem z 1024 e.after m2 (omega (arith, b, c.behind, d.behind, e.behind))
          (omega (arith, b, c.close, d.close, e.close)) (omega arith) in
      (
        record {
          kern_pml4 = round_up end;
          pages_at = c.after;
          envs_at = d.after;
          vma_lists = l.lists;
          next_free = l.after;
        },
        m2,
        rw (init_arrays, c.run) (rw d.run (rw e.run (rw l.run refl))),
        b.0,
        c.behind,
        d.behind,
        Spaced-from (z.vma * 128) e.after (d.after + z.env * 1024) l.after l.lists e.behind
            l.spaced,
        refl,
      )
