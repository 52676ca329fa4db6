-- ===== src/Monitor.antt =====
-- The command line of kern/monitor.c: runcmd splits a line into words and calls a command.
--
-- Loops that end at a character of the line run on fuel, one unit for each character.
pub mod Text
pub mod Words
pub mod Split
pub mod Commands
mod Tests
use kp.Base.{
  ℕ, zero, suc, ◌+◌, ◌-◌, ◌==◌, ltb, Bool, true, false, not, ◌&&◌, ◌||◌, if◌then◌else◌, Option,
  none, some, List, [], ◌∷◌, ℤ, pos, negsuc,
}
use kp.Run.{Run, ok, out_of_fuel, Cmd, pure, ◌>>=◌, ◌>>◌}
use kp.Strings.{Bytes, read_byte, write_byte, strcmp}
use kp.Pages.FreeList.Lists.{length}

abbrev pub max_args : ℕ
max_args = 16

-- strchr(WHITESPACE, c) for a character that is not 0.
abbrev pub is_space : ℕ → Bool
is_space c = c == 9 || c == 13 || c == 10 || c == 32

-- White space is overwritten with zeros.
unfoldable pub gobble : ℕ → ℕ → Cmd Bytes ℕ
gobble zero buf m = out_of_fuel
gobble (suc fuel) buf m =
    (do
      c ← read_byte buf
      elim (not (c == 0) && is_space c) as (λ _. Cmd Bytes ℕ) [
        | true ↦ (do write_byte buf 0; gobble fuel (buf + 1))
        | false ↦ pure buf
      ])
      m

unfoldable pub scan_past : ℕ → ℕ → Cmd Bytes ℕ
scan_past zero buf m = out_of_fuel
scan_past (suc fuel) buf m =
    (do
      c ← read_byte buf
      elim (not (c == 0) && not (is_space c)) as (λ _. Cmd Bytes ℕ) [
        | true ↦ scan_past fuel (buf + 1)
        | false ↦ pure buf
      ])
      m

-- After the white space: the end of the line, one word too many, or a word and what `rest` finds.
unfoldable pub word_at : ℕ → ℕ → (ℕ → Cmd Bytes (Option (List ℕ))) → ℕ → Cmd Bytes (Option (List ℕ))
unfolding scan_past
word_at fuel argc rest start m = elim (m start == 0) as (λ _. Run Bytes (Option (List ℕ))) [
  | true ↦ ok (some []) m
  | false ↦ elim (argc == max_args - 1) as (λ _. Run Bytes (Option (List ℕ))) [
    | true ↦ ok none m
    | false ↦
        (do
          end ← scan_past fuel start
          argv ← rest end
          pure (elim argv as (λ _. Option (List ℕ)) [
            | none ↦ none
            | some words ↦ some (start ∷ words)
          ]))
          m
  ]
]

-- The words from `buf` on, of which `argc` came before; `none` if there are too many.
unfoldable pub split_words : ℕ → ℕ → ℕ → Cmd Bytes (Option (List ℕ))
unfolding gobble word_at
split_words zero argc buf m = out_of_fuel
split_words (suc fuel) argc buf m =
    (do start ← gobble (suc fuel) buf; word_at (suc fuel) argc (split_words fuel (argc + 1)) start)
      m

-- struct command: where the name lies, and the function.
pub record Command : Type 0 where
  pub name : ℕ
  pub func : List ℕ → Cmd Bytes ℤ

-- An unknown command is 0, after a message.
unfoldable pub find_command : ℕ → List Command → ℕ → List ℕ → Cmd Bytes ℤ
find_command fuel [] word argv = pure (pos 0)
find_command fuel (c ∷ cs) word argv = do
  order ← strcmp fuel word c.name
  elim order as (λ _. Cmd Bytes ℤ) [
    | pos n ↦ elim n as (λ _. Cmd Bytes ℤ) [
      | zero ↦ c.func argv
      | suc k ↦ find_command fuel cs word argv
    ]
    | negsuc n ↦ find_command fuel cs word argv
  ]

-- `commands` is the table of the commands.
unfoldable pub runcmd : ℕ → List Command → ℕ → Cmd Bytes ℤ
unfolding split_words find_command
runcmd fuel commands buf = do
  words ← split_words fuel 0 buf
  elim words as (λ _. Cmd Bytes ℤ) [
    | none ↦ pure (pos 0)
    | some argv ↦ elim argv as (λ _. Cmd Bytes ℤ) [
      | [] ↦ pure (pos 0)
      | word ∷ rest ↦ find_command fuel commands word (word ∷ rest)
    ]
  ]
