-- ===== src/Vma/Tests.antt =====
-- A list of two areas, one of them used, and the kernel that holds it.
use kp.Base.{ℕ, ◌+◌, ◌-◌, Option, ◌^◌, ◌≡◌, refl, none, some, [], ◌∷◌, if◌then◌else◌, ◌==◌, arith}
use kp.Run.{Run, ok, panic, fault, out_of_fuel, ◌>>◌}
use kp.Pages.{Memory}
use kp.Kernel.{Kernel, Vma, vma_unused, vma_anon, env_running, zero_frame}
use kp.Vma.{
  Request, vma_lookup, vma_insert, vma_get_last, last_loop, take_slot, place_vma, place_loop,
  insert_between, append_or_fail, lookup_loop,
}
use kp.Words.{round_up, round_down}
use kp.Vma.Lookup.{Answers, vma_lookup-Answers}

abbrev empty_memory : Memory
empty_memory = record {
  npages = 0;
  null_pa = 0;
  pages =
      λ p. record { pp_link = none; previous = none; is_huge = 0; pp_ref = 0; is_available = 0 };
  page_free_list = none;
  frames = λ f i. 0;
  flushed = [];
}

abbrev some_vma : Vma
some_vma = record {
  vma_type = vma_anon;
  va = 0x4000;
  len = 0x2000;
  perm = 6;
  next = some 1;
  prev = none;
  mem_va = 0x4000;
  file_va = 0;
  mem_size = 0x2000;
  file_size = 0;
}

abbrev some_kernel : Kernel
some_kernel = record {
  memory = empty_memory;
  kernel_vma = 2 ^ 47;
  vmas = λ p.
      if p == 0
      then some_vma
      else record some_vma { vma_type = vma_unused; next = none; prev = some 0 };
  vma_slots = 2;
  envs = λ e. record {
    env_frame = zero_frame;
    env_link = none;
    env_id = 4096;
    env_parent_id = 0;
    env_type = 0;
    env_status = env_running;
    env_runs = 1;
    env_pml4 = some 3;
    vma = some 0;
  };
  env_free_list = none;
  curenv = some 0;
  kern_pml4 = 1;
  loaded = 3;
}

vma_lookup-Answers_example :
    (r : Option ℕ) × (vma_lookup 0 0x5000 some_kernel ≡ ok r some_kernel)
    × Answers some_kernel.vmas 0x5000 (0 ∷ 1 ∷ []) r
vma_lookup-Answers_example =
    vma_lookup-Answers some_kernel 0 0x5000 (0 ∷ 1 ∷ []) (refl, (refl, refl)) (omega arith)
      ((λ e. absurd (cc e)), ((λ e j i. absurd (cc i)), tt)) (λ j i. ground arith)

-- An area at 0x8000 and three unused nodes behind it.
abbrev three_unused : Kernel
three_unused = record some_kernel {
  vmas = λ p.
      if p == 0
      then record some_vma { va = 0x8000; len = 0x1000; mem_va = 0x8000; mem_size = 0x1000 }
      else record some_vma {
        vma_type = vma_unused;
        va = 0;
        len = 0;
        prev = some (p - 1);
        next = if p == 3 then none else some (p + 1);
      };
  vma_slots = 4;
}

-- 4 KB at 0x7000, which end where the area starts.
abbrev below_first : Request
below_first = record {
  req_type = vma_anon;
  req_mem_va = 0x7000;
  req_mem_size = 0x1000;
  req_perm = 6;
  req_file_va = 0;
  req_file_size = 0;
}

abbrev answer_of : Run Kernel (Option ℕ) → Option (Option ℕ)
answer_of (ok a k) = some a
answer_of panic = none
answer_of fault = none
answer_of out_of_fuel = none

-- The insertion succeeds, and the area is not found.
inserted : answer_of (vma_insert 0 below_first three_unused) ≡ some (some 3)
unfolding vma_insert vma_get_last last_loop take_slot place_vma place_loop insert_between
    append_or_fail round_up round_down
inserted = refl

lost : answer_of ((vma_insert 0 below_first >> vma_lookup 0 0x7000) three_unused) ≡ some none
unfolding vma_insert vma_get_last last_loop take_slot place_vma place_loop insert_between
    append_or_fail round_up round_down vma_lookup lookup_loop
lost = refl
