-- ===== src/User/Tests.antt =====
-- The first environment runs a program of the user library.
use kp.Base.{ℕ, ◌+◌, ◌^◌, ◌≡◌, refl, none, some, [], if◌then◌else◌, ◌==◌, arith, inr}
use kp.Run.{ok, Cmd, pure}
use kp.Pages.{Memory}
use kp.Kernel.{Kernel, vma_unused, env_running, env_free_status, zero_frame}
use kp.Env.Running.{IsSolo}
use kp.Syscall.{returns}
use kp.User.{libmain_env}
use kp.User.Calls.{kernel_call, libmain_env-getenvid}

abbrev empty_memory : Memory
empty_memory = record {
  npages = 0;
  null_pa = 0;
  pages =
      λ p. record { pp_link = none; previous = none; is_huge = 0; pp_ref = 0; is_available = 0 };
  page_free_list = none;
  frames = λ f i. 0;
  flushed = [];
}

abbrev running_first : Kernel
running_first = record {
  memory = empty_memory;
  kernel_vma = 2 ^ 47;
  vmas = λ p. record {
    vma_type = vma_unused;
    va = 0;
    len = 0;
    perm = 0;
    next = none;
    prev = none;
    mem_va = 0;
    file_va = 0;
    mem_size = 0;
    file_size = 0;
  };
  vma_slots = 0;
  envs = λ e. record {
    env_frame = zero_frame;
    env_link = none;
    env_id = 4096 + e;
    env_parent_id = 0;
    env_type = 0;
    env_status = if e == 0 then env_running else env_free_status;
    env_runs = 1;
    env_pml4 = some 3;
    vma = some 0;
  };
  env_free_list = none;
  curenv = some 0;
  kern_pml4 = 1;
  loaded = 3;
}

running_first-IsSolo : IsSolo running_first
unfolding IsSolo
running_first-IsSolo j r = ground arith

abbrev no_reads : ℕ → Cmd Kernel ℕ
no_reads a = pure 0

abbrev no_input : Cmd Kernel ℕ
no_input = pure 0

libmain_env-getenvid_example :
    (k' : Kernel) × (libmain_env
        (kernel_call no_reads no_input 1)
        (λ k j. (k.envs j).env_id)
        running_first
      ≡ ok (returns 0) k')
    × ((j : ℕ) → (k'.envs j).env_id ≡ 4096 + j)
libmain_env-getenvid_example =
    libmain_env-getenvid no_reads no_input 1 running_first 0 3 running_first-IsSolo refl refl
      (omega arith) (omega arith) (λ e. omega (arith, e)) (λ j l. inr (omega arith))
