-- ===== src/ReadLine.antt =====
-- lib/readline.c on a terminal: the kernel's console, or the user library's.
--
-- The loop reads until a line ends or an error comes, so it runs on fuel, one unit for each character read.
pub mod Line
pub mod Typing
mod Tests
use kp.Base.{
  ℕ, zero, suc, ◌+◌, ◌-◌, ◌%◌, ◌==◌, leb, ltb, Bool, true, false, ◌&&◌, ◌||◌, if◌then◌else◌, Option,
  none, some, List, [], ◌∷◌, ℤ, pos, negsuc,
}
use kp.Run.{Run, ok, out_of_fuel, Cmd, pure, ◌>>=◌, ◌>>◌}
use kp.Strings.{Bytes, store}

abbrev pub line_size : ℕ
line_size = 1024

-- getchar, cputchar, iscons(0), and cprintf("%s", prompt) and cprintf("read error: %e\n", c).
pub record Terminal (S : Type 0) : Type 0 where
  pub getchar : Cmd S ℤ
  pub cputchar : ℕ → Cmd S (Unit {0})
  pub iscons : Cmd S Bool
  pub show_prompt : ℕ → Cmd S (Unit {0})
  pub show_error : ℤ → Cmd S (Unit {0})

-- What one character does: what is echoed, `i` and `buf`, and whether the line is done.
pub record Edited : Type 0 where
  pub echo : Option ℕ
  pub index : ℕ
  pub chars : Bytes
  pub is_done : Bool

unfoldable pub edit : ℕ → ℕ → Bytes → Edited
edit c i buf =
    if (c == 8 || c == 127) && ltb 0 i
    then record { echo = some 8; index = i - 1; chars = buf; is_done = false }
    else if leb 32 c && ltb i (line_size - 1)
    then record { echo = some c; index = i + 1; chars = store i (c % 256) buf; is_done = false }
    else if c == 10 || c == 13
    then record { echo = some 10; index = i; chars = store i 0 buf; is_done = true }
    else record { echo = none; index = i; chars = buf; is_done = false }

module _ {S : Type 0} (t : Terminal S) where
  unfoldable pub echo_char : Bool → Option ℕ → Cmd S (Unit {0})
  echo_char echoing none = pure tt
  echo_char echoing (some c) = if echoing then t.cputchar c else pure tt

  -- `rest` is the next turn of the loop.
  unfoldable pub after_edit : Bool → Edited → Cmd S (Option Bytes) → Cmd S (Option Bytes)
  unfolding echo_char
  after_edit echoing e rest = do
    _ ← echo_char echoing e.echo
    elim e.is_done as (λ _. Cmd S (Option Bytes)) [ true ↦ pure (some e.chars) | false ↦ rest ]

  -- A null pointer is `none`; otherwise the result is what the buffer holds.
  unfoldable pub readline_loop : ℕ → Bool → ℕ → Bytes → Cmd S (Option Bytes)
  unfolding after_edit edit
  readline_loop zero echoing i buf s = out_of_fuel
  readline_loop (suc fuel) echoing i buf s =
      (do
        c ← t.getchar
        elim c as (λ _. Cmd S (Option Bytes)) [
          | negsuc k ↦ (do _ ← t.show_error (negsuc k); pure none)
          | pos n ↦
              let e = edit n i buf in
              after_edit echoing e (readline_loop fuel echoing e.index e.chars)
        ])
        s

  unfoldable pub readline : ℕ → Option ℕ → Bytes → Cmd S (Option Bytes)
  unfolding readline_loop
  readline fuel prompt buf = do
    _ ← elim prompt as (λ _. Cmd S (Unit {0})) [ none ↦ pure tt | some p ↦ t.show_prompt p ]
    echoing ← t.iscons
    readline_loop fuel echoing 0 buf
