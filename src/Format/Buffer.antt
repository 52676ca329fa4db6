-- ===== src/Format/Buffer.antt =====
-- The two buffers that formatted text goes to: sprintputch and vsnprintf of lib/printfmt.c, and putch
-- and vcprintf of lib/printf.c.
pub mod Laws
use kp.Base.{
  ℕ, zero, suc, ◌+◌, ◌-◌, ◌%◌, ◌^◌, ◌==◌, ltb, leb, Bool, true, false, ◌||◌, if◌then◌else◌, List,
  [], ◌∷◌, ◌++◌,
}
use kp.Run.{Run, ok, Cmd, pure, ◌>>=◌}
use kp.Strings.{Bytes, store}
use kp.Format.{Args, vprintfmt}

-- struct sprintbuf and the memory it points into; `cnt` is an int, as its 32-bit pattern.
pub record SprintBuf : Type 0 where
  pub buf : ℕ
  pub ebuf : ℕ
  pub cnt : ℕ
  pub bytes : Bytes

unfoldable pub sprintputch : ℕ → SprintBuf → SprintBuf
sprintputch ch b =
    if ltb b.buf b.ebuf
    then record b {
      cnt = (b.cnt + 1) % 2 ^ 32;
      bytes = store b.buf (ch % 256) b.bytes;
      buf = b.buf + 1;
    }
    else record b { cnt = (b.cnt + 1) % 2 ^ 32 }

-- The calls of `putch`, one after the other.
unfoldable pub sprint_all : List ℕ → SprintBuf → SprintBuf
sprint_all [] b = b
sprint_all (ch ∷ chs) b = sprint_all chs (sprintputch ch b)

-- -E_INVAL, or the number of characters, as the pattern of an int.
pub data SprintResult : Type 0 where
  invalid : SprintResult
  printed : ℕ → SprintResult

-- `int n` is at most 0 if it is negative.
abbrev pub finish_sprint : SprintBuf → Run Bytes SprintResult
finish_sprint b = ok (printed b.cnt) (store b.buf 0 b.bytes)

-- The text is what vprintfmt prints; the buffer and the strings it reads are apart.
unfoldable pub vsnprintf : (Cmd Bytes (List ℕ)) → ℕ → ℕ → Cmd Bytes SprintResult
vsnprintf text buf n = if buf == 0 || ltb n 1 then pure invalid else (do
  cs ← text
  λ m. finish_sprint (sprint_all cs (record { buf = buf; ebuf = buf + n - 1; cnt = 0; bytes = m })))

-- struct printbuf, with the strings that sys_cputs was given so far, the last one first. `idx` is at
-- most 255, and `buf` has 256 bytes; `total` is its `cnt`, an int as its 32-bit pattern.
pub record PrintBuf : Type 0 where
  pub idx : ℕ
  pub total : ℕ
  pub chars : ℕ → ℕ
  pub puts : List (List ℕ)

-- The `n` characters from index `i` on.
abbrev pub chars_from : (ℕ → ℕ) → ℕ → ℕ → List ℕ
chars_from f i zero = []
chars_from f i (suc n) = f i ∷ chars_from f (i + 1) n

unfoldable pub flush : PrintBuf → PrintBuf
flush b = record b { puts = chars_from b.chars 0 b.idx ∷ b.puts }

abbrev pub stored : ℕ → PrintBuf → PrintBuf
stored ch b = record b { chars = store b.idx (ch % 256) b.chars; idx = b.idx + 1 }

unfoldable pub putch : ℕ → PrintBuf → PrintBuf
unfolding flush
putch ch b =
    let s = stored ch b in
    let f = if s.idx == 255 then record (flush s) { idx = 0 } else s in
    record f { total = (f.total + 1) % 2 ^ 32 }

unfoldable pub putch_all : List ℕ → PrintBuf → PrintBuf
putch_all [] b = b
putch_all (ch ∷ chs) b = putch_all chs (putch ch b)

-- `garbage` is what the buffer on the stack holds. The result is the count.
unfoldable pub vcprintf : List ℕ → (ℕ → ℕ) → ℕ × List (List ℕ)
vcprintf text garbage =
    let b = flush (putch_all text (record { idx = 0; total = 0; chars = garbage; puts = [] })) in
    (b.total, b.puts)
