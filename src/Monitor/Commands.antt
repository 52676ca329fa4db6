-- ===== src/Monitor/Commands.antt =====
-- The commands of kern/monitor.c, by what they print, and the loop of monitor.
--
-- `read` gives the 8-byte word at an address. The addresses that the linker decides are parameters.
use kp.Base.{
  ℕ, zero, suc, ◌-◌, ◌/◌, ◌%◌, Bool, true, false, Option, none, some, List, [], ◌∷◌, ◌++◌, ℤ, pos,
  negsuc,
}
use kp.Run.{out_of_fuel, Cmd, pure, ◌>>=◌}
use kp.Words.{add64, sub64}
use kp.Messages.{Arg, number, text, Message, message}
use Prim.Native.String.{String}

-- The names and descriptions of the commands.
abbrev pub command_texts : List (String × String)
command_texts =
    ("help", "Display this list of commands")
    ∷ ("kerninfo", "Display information about the kernel")
    ∷ ("backtrace", "Display stack backtrace")
    ∷ []

unfoldable pub mon_help : List (String × String) → List Message
mon_help [] = []
mon_help (c ∷ cs) = message "%s - %s\n" (text c.0 ∷ text c.1 ∷ []) ∷ mon_help cs

pub record Symbols : Type 0 where
  pub start : ℕ
  pub entry : ℕ
  pub etext : ℕ
  pub edata : ℕ
  pub end : ℕ
  pub kernel_vma : ℕ

-- ROUNDUP(n, 1024)
unfoldable pub round_up_kb : ℕ → ℕ
round_up_kb n = let m = sub64 (add64 n 1024) 1 in m - m % 1024

abbrev pub both_addresses : Symbols → ℕ → List Arg
both_addresses s a = number a ∷ number (sub64 a s.kernel_vma) ∷ []

unfoldable pub mon_kerninfo : Symbols → List Message
unfolding round_up_kb
mon_kerninfo s =
    message "Special kernel symbols:\n" []
    ∷ message "  _start                  %08x (phys)\n" (number s.start ∷ [])
    ∷ message "  entry  %08x (virt)  %08x (phys)\n" (both_addresses s s.entry)
    ∷ message "  etext  %08x (virt)  %08x (phys)\n" (both_addresses s s.etext)
    ∷ message "  edata  %08x (virt)  %08x (phys)\n" (both_addresses s s.edata)
    ∷ message "  end    %08x (virt)  %08x (phys)\n" (both_addresses s s.end)
    ∷ message "Kernel executable memory footprint: %dKB\n"
        (number (round_up_kb (sub64 s.end s.entry) / 1024) ∷ [])
    ∷ []

module _ (read : ℕ → ℕ) where
  -- The `n` arguments from the address `a` on.
  unfoldable pub print_args : ℕ → ℕ → List Message
  print_args a zero = []
  print_args a (suc n) = message "%08x " (number (read a) ∷ []) ∷ print_args (add64 a 8) n

  unfoldable pub print_stack_frame : ℕ → List Message
  print_stack_frame rbp =
      message "  RIP: %08x " (number (read (add64 rbp 8)) ∷ [])
      ∷ message "<no debug info>\t" []
      ∷ message "  RBP: %08x " (number rbp ∷ [])
      ∷ message "  args " []
      ∷ (print_args (add64 rbp 16) 6 ++ (message "\n" [] ∷ []))

  unfoldable pub backtrace_loop : ℕ → ℕ → Option (List Message)
  backtrace_loop fuel zero = some []
  backtrace_loop zero (suc a) = none
  backtrace_loop (suc fuel) (suc a) = elim (backtrace_loop fuel (read (suc a))) [
    | none ↦ none
    | some rest ↦ some (print_stack_frame (suc a) ++ rest)
  ]

  -- `none` when the fuel is spent.
  unfoldable pub mon_backtrace : ℕ → ℕ → Option (List Message)
  mon_backtrace fuel rbp = elim (backtrace_loop fuel rbp) [
    | none ↦ none
    | some rest ↦ some (message "Stack backtrace:\n" [] ∷ rest)
  ]

-- The loop of monitor, with readline and runcmd as they act on the state `S`: it ends at a command
-- with a negative result.
module _ {S : Type 0} (readline : Cmd S (Option ℕ)) (runcmd : ℕ → Cmd S ℤ) where
  unfoldable pub run_line : Option ℕ → Cmd S Bool
  run_line none = pure true
  run_line (some buf) = do
    r ← runcmd buf
    pure (elim r as (λ _. Bool) [ pos n ↦ true | negsuc n ↦ false ])

  unfoldable pub monitor : ℕ → Cmd S (Unit {0})
  unfolding run_line
  monitor zero s = out_of_fuel
  monitor (suc fuel) s =
      (do
        buf ← readline
        again ← run_line buf
        elim again as (λ _. Cmd S (Unit {0})) [ true ↦ monitor fuel | false ↦ pure tt ])
        s
