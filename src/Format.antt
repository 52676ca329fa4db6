-- ===== src/Format.antt =====
-- Formatted output: lib/printfmt.c.
--
-- The printing functions return the arguments of the calls of `putch`, in their order: `putdat` is
-- opaque to them, and `putch` returns nothing. A format string is an address in a byte memory, which
-- printing does not change; the variable arguments are 64-bit words.
pub mod Numbers
pub mod Buffer
mod Tests
use kp.Base.{
  ℕ, zero, suc, ◌+◌, ◌-◌, ◌*◌, ◌/◌, ◌%◌, ◌^◌, ◌==◌, leb, ltb, Bool, true, false, not, ◌&&◌, ◌||◌,
  if◌then◌else◌, Option, none, some, List, [], ◌∷◌, ◌++◌, ℤ, pos, negsuc,
}
use kp.Run.{Run, ok, fault, out_of_fuel, Cmd, pure, ◌>>=◌, ◌>>◌}
use kp.Pages.FreeList.Lists.{length}
use kp.Strings.{Bytes, strlen, strnlen}

-- `--x` on an int.
abbrev pub decrement : ℤ → ℤ
decrement (pos zero) = negsuc 0
decrement (pos (suc n)) = pos n
decrement (negsuc n) = negsuc (n + 1)

abbrev pub is_negative : ℤ → Bool
is_negative (pos n) = false
is_negative (negsuc n) = true

-- The rounds of a loop that runs as long as `x > 0` and counts `x` down.
abbrev pub rounds : ℤ → ℕ
rounds (pos n) = n
rounds (negsuc n) = 0

abbrev pub repeat : ℕ → ℕ → List ℕ
repeat zero c = []
repeat (suc n) c = c ∷ repeat n c

-- "0123456789abcdef"[d]: the terminator is behind the 16 characters, and nothing behind that.
unfoldable pub digit_char : ℕ → Option ℕ
digit_char d =
    if ltb d 10
    then some (48 + d)
    else if ltb d 16
    then some (87 + d)
    else if d == 16
    then some 0
    else none

abbrev pub then_digit : Option (List ℕ) → Option ℕ → Option (List ℕ)
then_digit none c = none
then_digit (some cs) none = none
then_digit (some cs) (some c) = some (cs ++ (c ∷ []))

-- `none` when the fuel is spent or a digit is not in the literal.
unfoldable pub printnum : ℕ → ℕ → ℕ → ℤ → ℕ → Option (List ℕ)
printnum zero num base width padc = none
printnum (suc fuel) num base width padc =
    let before = printnum fuel (num / base) base (decrement width) padc in
    if leb base num
    then then_digit before (digit_char (num % base))
    else then_digit (some (repeat (rounds (decrement width)) padc)) (digit_char (num % base))

-- va_arg: reading past the last argument is undefined.
abbrev pub Args : Type 0
Args = List ℕ

abbrev pub next_arg : {S : Type 0} → Args → Cmd S (ℕ × Args)
next_arg [] s = fault
next_arg (a ∷ rest) s = ok (a, rest) s

-- A `w`-bit pattern as a signed number.
abbrev pub signed : ℕ → ℕ → ℤ
signed w a = if ltb a (2 ^ (w - 1)) then pos a else negsuc (2 ^ w - 1 - a)

abbrev pub as_int : ℕ → ℤ
as_int a = signed 32 (a % 2 ^ 32)

-- `lflag` above 0 reads 64 bits, else 32.
unfoldable pub getuint : ℕ → ℕ → ℕ
getuint lflag a = if lflag == 0 then a % 2 ^ 32 else a % 2 ^ 64

unfoldable pub getint : ℕ → ℕ → ℤ
getint lflag a = if lflag == 0 then as_int a else signed 64 (a % 2 ^ 64)

abbrev pub magnitude : ℤ → ℕ
magnitude (pos n) = n
magnitude (negsuc n) = n + 1

-- The locals that an escape sequence sets up.
pub record Escape : Type 0 where
  pub padc : ℕ
  pub width : ℤ
  pub precision : ℤ
  pub lflag : ℕ
  pub altflag : Bool

abbrev pub fresh_escape : Escape
fresh_escape = record {
  padc = 32;
  width = negsuc 0;
  precision = negsuc 0;
  lflag = 0;
  altflag = false;
}

-- process_precision
abbrev pub process_precision : Escape → Escape
process_precision e =
    if is_negative e.width then record e { width = e.precision; precision = negsuc 0 } else e

abbrev pub is_digit : ℕ → Bool
is_digit c = leb 48 c && leb c 57

-- The width field from its first digit on: its value and where it ends.
unfoldable pub read_width : ℕ → ℕ → ℕ → Cmd Bytes (ℕ × ℕ)
read_width zero fmt n m = out_of_fuel
read_width (suc fuel) fmt n m =
    let rest = read_width fuel (fmt + 1) (n * 10 + (m fmt - 48)) m in
    if is_digit (m fmt) then rest else ok (n, fmt) m

-- number:
unfoldable pub put_number : ℕ → ℕ → Escape → Cmd Bytes (List ℕ)
put_number num base e m = elim (printnum 64 num base e.width e.padc) [
  | none ↦ out_of_fuel
  | some cs ↦ ok cs m
]

-- A `char` as an int's pattern.
abbrev pub char_int : ℕ → ℕ
char_int c = if ltb c 128 then c else c + (2 ^ 32 - 256)

-- The loop over the characters of a string, with the width that is left.
unfoldable pub put_chars : ℕ → ℕ → Escape → Cmd Bytes (List ℕ × ℤ)
put_chars zero p e m = out_of_fuel
put_chars (suc fuel) p e m =
    let shown = if e.altflag && (ltb (m p) 32 || ltb 126 (m p)) then 63 else char_int (m p) in
    let rest =
      (do
        r ← put_chars fuel (p + 1) (record e {
          width = decrement e.width;
          precision = if is_negative e.precision then e.precision else decrement e.precision;
        })
        pure (shown ∷ r.0, r.1))
        m in
    if m p == 0
    then ok ([], e.width) m
    else if is_negative e.precision
    then rest
    else if is_negative (decrement e.precision)
    then ok ([], e.width) m
    else rest

-- strnlen(p, precision), where a negative precision is a bound that no string reaches.
unfoldable pub bounded_length : ℕ → ℕ → ℤ → Cmd Bytes ℕ
bounded_length fuel p (pos n) m = ok (strnlen p n m) m
bounded_length fuel p (negsuc n) m = strlen fuel p m

-- The width when the loop over the padding has ended.
abbrev pub after_padding : ℤ → ℤ
after_padding (pos n) = pos 0
after_padding (negsuc n) = negsuc n

-- The padding in front: only if a width is wanted, and not with '-'. The length is the pattern of an
-- int, and `width -= length` wraps around.
unfoldable pub put_string : ℕ → ℕ → Escape → Cmd Bytes (List ℕ)
put_string fuel p e = do
  n ← bounded_length fuel p e.precision
  let padded = not (rounds e.width == 0) && not (e.padc == 45)
  let width = if padded then as_int (rounds e.width + 2 ^ 32 - n) else e.width
  let before = if padded then repeat (rounds width) e.padc else []
  r ← put_chars fuel p (record e { width = if padded then after_padding width else width })
  pure (before ++ (r.0 ++ repeat (rounds r.1) 32))

-- Which codes `error_string` has a text for; MAXERROR is 11. "error " stands before the number of
-- another code.
abbrev pub has_error_text : ℕ → Bool
has_error_text err = (leb 1 err && leb err 6) || (err == 9 || err == 10)

abbrev pub error_prefix : List ℕ
error_prefix = 101 ∷ 114 ∷ 114 ∷ 111 ∷ 114 ∷ 32 ∷ []

-- Back to the character after the last '%'.
unfoldable pub rewind : ℕ → ℕ → Cmd Bytes ℕ
rewind zero fmt m = out_of_fuel
rewind (suc fuel) fmt m =
    let rest = rewind fuel (fmt - 1) m in if m (fmt - 1) == 37 then ok fmt m else rest

-- What an escape prints, where the format goes on, and the arguments that are left.
abbrev pub Printed : Type 0
Printed = List ℕ × (ℕ × Args)

-- Where an escape goes on after a flag.
pub record FlagStep : Type 0 where
  pub at : ℕ
  pub state : Escape
  pub left : Args

abbrev pub go_on : ℕ → Escape → Args → Cmd Bytes (Option FlagStep)
go_on fmt e args = pure (some (record { at = fmt; state = e; left = args }))

-- reswitch: the flags, the width and the precision change the state; `none` at any other character.
unfoldable pub flag_step : ℕ → ℕ → Escape → Args → Cmd Bytes (Option FlagStep)
flag_step fuel fmt e args m =
    (let ch = m fmt in
        if ch == 45
        then go_on (fmt + 1) (record e { padc = 45 }) args
        else if ch == 48
        then go_on (fmt + 1) (record e { padc = 48 }) args
        else if is_digit ch
        then (do
          r ← read_width fuel fmt 0
          go_on r.1 (process_precision (record e { precision = signed 32 (r.0 % 2 ^ 32) })) args)
        else if ch == 42
        then (do
          a ← next_arg args
          go_on (fmt + 1) (process_precision (record e { precision = as_int a.0 })) a.1)
        else if ch == 46
        then go_on (fmt + 1) (if is_negative e.width then record e { width = pos 0 } else e) args
        else if ch == 35
        then go_on (fmt + 1) (record e { altflag = true }) args
        else if ch == 108
        then go_on (fmt + 1) (record e { lflag = e.lflag + 1 }) args
        else pure none)
      m

-- `null_text` is where "(null)" lies, `error_text` where the texts of the codes lie.
module _ (null_text : ℕ) (error_text : ℕ → ℕ) where
  unfoldable pub put_error : ℕ → ℕ → Cmd Bytes (List ℕ)
  put_error fuel err =
      if has_error_text err
      then put_string fuel (error_text err) fresh_escape
      else (do cs ← put_number err 10 fresh_escape; pure (error_prefix ++ cs))

  -- Conversions that end the escape. `fmt` is after the conversion's character `ch`.
  unfoldable pub convert : ℕ → ℕ → ℕ → Escape → Args → Cmd Bytes Printed
  convert fuel ch fmt e args =
      if ch == 99
      then (do a ← next_arg args; pure (a.0 % 2 ^ 32 ∷ [], (fmt, a.1)))
      else if ch == 101
      then (do
        a ← next_arg args
        cs ← put_error fuel (magnitude (as_int a.0))
        pure (cs, (fmt, a.1)))
      else if ch == 115
      then (do
        a ← next_arg args
        cs ← put_string fuel (if a.0 == 0 then null_text else a.0) e
        pure (cs, (fmt, a.1)))
      else if ch == 100
      then (do
        a ← next_arg args
        cs ← put_number (magnitude (getint e.lflag a.0)) 10 e
        pure ((if is_negative (getint e.lflag a.0) then 45 ∷ cs else cs), (fmt, a.1)))
      else if ch == 117
      then (do a ← next_arg args; cs ← put_number (getuint e.lflag a.0) 10 e; pure (cs, (fmt, a.1)))
      else if ch == 111
      then (do a ← next_arg args; cs ← put_number (getuint e.lflag a.0) 8 e; pure (cs, (fmt, a.1)))
      else if ch == 112
      then (do a ← next_arg args; cs ← put_number a.0 16 e; pure (48 ∷ 120 ∷ cs, (fmt, a.1)))
      else if ch == 120
      then (do a ← next_arg args; cs ← put_number (getuint e.lflag a.0) 16 e; pure (cs, (fmt, a.1)))
      else if ch == 37
      then pure (37 ∷ [], (fmt, args))
      else (do back ← rewind fuel (fmt - 1); pure (37 ∷ [], (back, args)))

  unfoldable pub escape : ℕ → ℕ → Escape → Args → Cmd Bytes Printed
  escape zero fmt e args m = out_of_fuel
  escape (suc fuel) fmt e args m =
      (do
        s ← flag_step fuel fmt e args
        elim s [
          | none ↦ convert fuel (m fmt) (fmt + 1) e args
          | some f ↦ escape fuel f.at f.state f.left
        ])
        m

  -- A plain character or an escape; `none` at the end of the format.
  unfoldable pub next_piece : ℕ → ℕ → Args → Cmd Bytes (Option Printed)
  next_piece fuel fmt args m =
      (if m fmt == 37
          then (do r ← escape fuel (fmt + 1) fresh_escape args; pure (some r))
          else if m fmt == 0
          then pure none
          else pure (some (m fmt ∷ [], (fmt + 1, args))))
        m

  unfoldable pub vprintfmt : ℕ → ℕ → Args → Cmd Bytes (List ℕ)
  vprintfmt zero fmt args m = out_of_fuel
  vprintfmt (suc fuel) fmt args m =
      (do
        r ← next_piece fuel fmt args
        elim r [
          | none ↦ pure []
          | some piece ↦ (do cs ← vprintfmt fuel piece.1.0 piece.1.1; pure (piece.0 ++ cs))
        ])
        m
