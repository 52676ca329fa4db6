-- ===== src/Messages.antt =====
-- Calls of cprintf as values: the format string, and the arguments that follow it.
use kp.Base.{ℕ, List}
use Prim.Native.String.{String}

pub data Arg : Type 0 where
  number : ℕ → Arg
  text : String → Arg

pub record Message : Type 0 where
  pub format : String
  pub args : List Arg

abbrev pub message : String → List Arg → Message
message f a = record { format = f; args = a }
