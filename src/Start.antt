-- ===== src/Start.antt =====
-- kern/main.c: kmain, as far as it changes the memory and the environments, and what _panic and _warn
-- print; and _panic of lib/panic.c.
--
-- The console, the segments and the interrupt table are set up on states of their own: Console/Input,
-- Gdt and Idt. The monitor, in which _panic ends, does not return.
use kp.Base.{ℕ, ◌*◌, ◌/◌, Option, none, some, List, [], ◌∷◌}
use kp.Run.{ok, Cmd, ◌>>=◌, ◌>>◌}
use kp.Words.{sub64}
use kp.Pages.{Memory}
use kp.Kernel.{Kernel, IntFrame, on_memory}
use kp.Env.{nenv, env_init, env_run}
use kp.Env.Load.{ElfImage, env_create}
use kp.Boot.Init.{Sizes, BootArrays, vmas_per_env}
use kp.Boot.Merge.{MmapEntry}
use kp.Boot.MemInit.{Image, mem_init}
use kp.Messages.{Arg, number, text, Message, message}
use Prim.Native.String.{String}

-- The variables that mem_init leaves: the VMAs of environment i are those from 128 * i on, and the table
-- is in CR3.
abbrev pub take_arrays : ℕ → BootArrays → Cmd Kernel (Unit {0})
take_arrays kernel_vma a k = ok tt (record k {
  kern_pml4 = sub64 a.kern_pml4 kernel_vma / 4096;
  loaded = sub64 a.kern_pml4 kernel_vma / 4096;
  envs = λ e. record (k.envs e) { vma = some (vmas_per_env * e) };
})

module _ (load32 : ℕ → Cmd Memory ℕ) (store32 : ℕ → ℕ → Cmd Memory (Unit {0}))
    (install : ℕ → Cmd Memory (Unit {0})) (zero_user : ℕ → ℕ → Cmd Kernel (Unit {0}))
    (image : Image) where
  -- ENV_TYPE_USER is 0. The result is the frame with which the first environment starts.
  unfoldable kmain : Sizes → List MmapEntry → ElfImage → Cmd Kernel IntFrame
  kmain z entries binary = do
    a ← on_memory (mem_init load32 store32 install image z entries)
    take_arrays image.kernel_vma a
    env_init nenv
    env_create zero_user binary 0
    env_run 0

-- `panicstr` is the format of the first panic, which alone prints.
abbrev panic_messages :
    Option String → String → ℕ → String → List Arg → Option String × List Message
panic_messages (some s) file line format args = (some s, [])
panic_messages none file line format args = (
  some format,
  message "kernel panic at %s:%d: " (text file ∷ number line ∷ [])
      ∷ message format args
      ∷ message "\n" []
      ∷ [],
)

abbrev warn_messages : String → ℕ → String → List Arg → List Message
warn_messages file line format args =
    message "kernel warning at %s:%d: " (text file ∷ number line ∷ [])
    ∷ message format args
    ∷ message "\n" []
    ∷ []

-- `name` is the program's binaryname, and `id` what sys_getenvid returns.
abbrev user_panic_messages : ℕ → String → String → ℕ → String → List Arg → List Message
user_panic_messages id name file line format args =
    message "[%08x] user panic in %s at %s:%d: "
      (number id ∷ text name ∷ text file ∷ number line ∷ [])
    ∷ message format args
    ∷ message "\n" []
    ∷ []
