-- ===== src/Kernel.antt =====
-- The kernel's state above the page allocator: environments, their lists of virtual memory areas, and
-- the physical memory. struct env and struct vma of inc/env.h, struct int_frame of inc/x86-64/idt.h.
use kp.Base.{ℕ, ◌==◌, Bool, true, false, if◌then◌else◌, Option, none, some}
use kp.Run.{Run, ok, panic, fault, out_of_fuel, Cmd, ◌>>=◌}
use kp.Pages.{Memory}

pub record IntFrame : Type 0 where
  pub ds : ℕ
  pub r15 : ℕ
  pub r14 : ℕ
  pub r13 : ℕ
  pub r12 : ℕ
  pub r11 : ℕ
  pub r10 : ℕ
  pub r9 : ℕ
  pub r8 : ℕ
  pub rdi : ℕ
  pub rsi : ℕ
  pub rbp : ℕ
  pub rbx : ℕ
  pub rdx : ℕ
  pub rcx : ℕ
  pub rax : ℕ
  pub int_no : ℕ
  pub err_code : ℕ
  pub rip : ℕ
  pub cs : ℕ
  pub rflags : ℕ
  pub rsp : ℕ
  pub ss : ℕ

-- What memset leaves.
abbrev pub zero_frame : IntFrame
zero_frame = record {
  ds = 0;
  r15 = 0;
  r14 = 0;
  r13 = 0;
  r12 = 0;
  r11 = 0;
  r10 = 0;
  r9 = 0;
  r8 = 0;
  rdi = 0;
  rsi = 0;
  rbp = 0;
  rbx = 0;
  rdx = 0;
  rcx = 0;
  rax = 0;
  int_no = 0;
  err_code = 0;
  rip = 0;
  cs = 0;
  rflags = 0;
  rsp = 0;
  ss = 0;
}

pub data VmaType : Type 0 where
  vma_unused : VmaType
  vma_anon : VmaType
  vma_binary : VmaType

abbrev pub is_unused : VmaType → Bool
is_unused vma_unused = true
is_unused vma_anon = false
is_unused vma_binary = false

-- NULL as an address is 0.
pub record Vma : Type 0 where
  pub vma_type : VmaType
  pub va : ℕ
  pub len : ℕ
  pub perm : ℕ
  pub next : Option ℕ
  pub prev : Option ℕ
  pub mem_va : ℕ
  pub file_va : ℕ
  pub mem_size : ℕ
  pub file_size : ℕ

pub data EnvStatus : Type 0 where
  env_free_status : EnvStatus
  env_dying : EnvStatus
  env_runnable : EnvStatus
  env_running : EnvStatus
  env_not_runnable : EnvStatus

abbrev pub is_free_status : EnvStatus → Bool
is_free_status env_free_status = true
is_free_status env_dying = false
is_free_status env_runnable = false
is_free_status env_running = false
is_free_status env_not_runnable = false

abbrev pub is_running : EnvStatus → Bool
is_running env_free_status = false
is_running env_dying = false
is_running env_runnable = false
is_running env_running = true
is_running env_not_runnable = false

-- Ids are 32-bit patterns; `env_pml4` is the frame of the page table.
pub record Env : Type 0 where
  pub env_frame : IntFrame
  pub env_link : Option ℕ
  pub env_id : ℕ
  pub env_parent_id : ℕ
  pub env_type : ℕ
  pub env_status : EnvStatus
  pub env_runs : ℕ
  pub env_pml4 : Option ℕ
  pub vma : Option ℕ

-- `vmas` holds the VMA structures, `vma_slots` their number; `kernel_vma` is where the kernel maps
-- physical memory, which the build decides; `loaded` is the page table in CR3.
pub record Kernel : Type 0 where
  pub memory : Memory
  pub kernel_vma : ℕ
  pub vmas : ℕ → Vma
  pub vma_slots : ℕ
  pub envs : ℕ → Env
  pub env_free_list : Option ℕ
  pub curenv : Option ℕ
  pub kern_pml4 : ℕ
  pub loaded : ℕ

module _ {A : Type 0} where
  -- A command on the physical memory.
  abbrev pub lift_run : Kernel → Run Memory A → Run Kernel A
  lift_run k (ok a m) = ok a (record k { memory = m })
  lift_run k panic = panic
  lift_run k fault = fault
  lift_run k out_of_fuel = out_of_fuel

  abbrev pub on_memory : Cmd Memory A → Cmd Kernel A
  on_memory c k = lift_run k (c k.memory)

  -- The target of a pointer; a null pointer faults.
  abbrev pub deref : Option A → Cmd Kernel A
  deref none k = fault
  deref (some a) k = ok a k

abbrev pub update_at : {A : Type 0} → (ℕ → A) → ℕ → A → ℕ → A
update_at f i a j = if j == i then a else f j

abbrev pub vma_at : ℕ → Cmd Kernel Vma
vma_at p k = ok (k.vmas p) k

abbrev pub modify_vma : ℕ → (Vma → Vma) → Cmd Kernel (Unit {0})
modify_vma p f k = ok tt (record k { vmas = update_at k.vmas p (f (k.vmas p)) })

abbrev pub env_at : ℕ → Cmd Kernel Env
env_at e k = ok (k.envs e) k

abbrev pub modify_env : ℕ → (Env → Env) → Cmd Kernel (Unit {0})
modify_env e f k = ok tt (record k { envs = update_at k.envs e (f (k.envs e)) })

-- A write through a pointer to a VMA, and one made only if the pointer is not null.
abbrev pub set_vma : Option ℕ → (Vma → Vma) → Cmd Kernel (Unit {0})
set_vma p f = deref p >>= λ q. modify_vma q f

abbrev pub set_vma_if_some : Option ℕ → (Vma → Vma) → Cmd Kernel (Unit {0})
set_vma_if_some none f k = ok tt k
set_vma_if_some (some q) f k = modify_vma q f k

abbrev pub set_next : Option ℕ → Vma → Vma
set_next n v = record v { next = n }

abbrev pub set_prev : Option ℕ → Vma → Vma
set_prev p v = record v { prev = p }

abbrev pub set_head : Option ℕ → Env → Env
set_head h e = record e { vma = h }
