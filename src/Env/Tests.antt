-- ===== src/Env/Tests.antt =====
-- Environments: one is running, the others are free.
use kp.Base.{
  ◌+◌, ◌%◌, ◌^◌, ◌≡◌, refl, true, false, none, some, [], if◌then◌else◌, ◌==◌, arith, ℕ, List, ◌∷◌,
}
use kp.Run.{ok}
use kp.Pages.{Memory}
use kp.Kernel.{Kernel, vma_unused, env_running, env_free_status, is_running, zero_frame}
use kp.Pages.FreeList.{IsFreeList}
use kp.Pages.Allocator.Alloc.{HasBlocks}
use kp.Env.{new_env, env_alloc, envid2env, next_env_id, env_run, env_init}
use kp.Env.Alloc.{Allotted, env_alloc-Allotted}
use kp.Env.Ids.{with_started, envid2env-started, envid2env-stale}
use kp.Env.Lists.{Ordered, env_init-Ordered}
use kp.Env.Running.{IsSolo, env_run-IsSolo}

abbrev empty_memory : Memory
empty_memory = record {
  npages = 0;
  null_pa = 0;
  pages =
      λ p. record { pp_link = none; previous = none; is_huge = 0; pp_ref = 0; is_available = 0 };
  page_free_list = none;
  frames = λ f i. 0;
  flushed = [];
}

abbrev one_running : Kernel
one_running = record {
  memory = empty_memory;
  kernel_vma = 2 ^ 47;
  vmas = λ p. record {
    vma_type = vma_unused;
    va = 0;
    len = 0;
    perm = 0;
    next = none;
    prev = none;
    mem_va = 0;
    file_va = 0;
    mem_size = 0;
    file_size = 0;
  };
  vma_slots = 0;
  envs = λ e. record {
    env_frame = zero_frame;
    env_link = none;
    env_id = 4096 + e;
    env_parent_id = 0;
    env_type = 0;
    env_status = if e == 0 then env_running else env_free_status;
    env_runs = 1;
    env_pml4 = some 3;
    vma = some 0;
  };
  env_free_list = none;
  curenv = some 0;
  kern_pml4 = 1;
  loaded = 3;
}

one_running-IsSolo : IsSolo one_running
unfolding IsSolo
one_running-IsSolo j r = ground arith

env_run-IsSolo_example :
    (k' : Kernel) × (env_run 5 one_running ≡ ok zero_frame k')
    × (k'.curenv ≡ some 5)
    × (k'.loaded ≡ 3)
    × ((k'.envs 5).env_runs ≡ 2 % 2 ^ 32)
    × (is_running (k'.envs 5).env_status ≡ true)
    × IsSolo k'
env_run-IsSolo_example = env_run-IsSolo one_running 5 3 one_running-IsSolo refl

envid2env-started_example :
    envid2env (next_env_id 4101 5) false (with_started 5 0 one_running)
    ≡ ok (some (some 5)) (with_started 5 0 one_running)
envid2env-started_example = envid2env-started one_running 5 0 (omega arith) (omega arith)

envid2env-stale_example :
    envid2env 4101 true (with_started 5 0 one_running) ≡ ok none (with_started 5 0 one_running)
envid2env-stale_example =
    envid2env-stale one_running 5 0 (omega arith) (omega arith) true refl (λ e. omega arith)

env_init-Ordered_example : (k' : Kernel) × (env_init 4 one_running ≡ ok tt k') × Ordered k' 4 none
env_init-Ordered_example = env_init-Ordered 4 one_running

-- Page 7 of ten is free, and slot 1 is the first free environment.
abbrev one_page : Memory
one_page = record empty_memory {
  npages = 10;
  pages = λ p. record {
    pp_link = none;
    previous = none;
    is_huge = 0;
    pp_ref = 0;
    is_available = if p == 7 then 1 else 0;
  };
  page_free_list = some 7;
}

abbrev one_page_left : Kernel
one_page_left = record one_running { memory = one_page; env_free_list = some 1 }

one_page-IsFreeList : IsFreeList one_page (7 ∷ [])
one_page-IsFreeList = record {
  chain = (refl, refl, refl);
  distinct = (refl, tt);
  in_range = λ p h. ground arith;
  available = λ p h. ground arith;
  detached = λ p h o. (refl, refl);
  bounded = omega arith;
}

one_page-HasBlocks : HasBlocks one_page (7 ∷ [])
one_page-HasBlocks p i n = absurd (n refl)

env_alloc-Allotted_example :
    (k' : Kernel) × (p : ℕ) × (ys : List ℕ) × (env_alloc 0 one_page_left ≡ ok (new_env 1) k')
    × Allotted one_page_left 1 0 0 (7 ∷ []) k' p ys
env_alloc-Allotted_example =
    env_alloc-Allotted one_page_left (7 ∷ []) 1 0 0 one_page-IsFreeList one_page-HasBlocks (λ e. cc)
      refl refl refl
