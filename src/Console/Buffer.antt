-- ===== src/Console/Buffer.antt =====
-- The console's input buffer: `cons` of kern/console.c.
pub mod Queue
use kp.Base.{ℕ, ◌+◌, ◌%◌, ◌==◌, if◌then◌else◌}

abbrev pub console_buffer_size : ℕ
console_buffer_size = 512

pub record Ring : Type 0 where
  pub buf : ℕ → ℕ
  pub rpos : ℕ
  pub wpos : ℕ

abbrev pub next_index : ℕ → ℕ
next_index i = if i + 1 == console_buffer_size then 0 else i + 1

unfoldable pub ring_put : ℕ → Ring → Ring
ring_put c r = record r {
  buf = λ i. if i == r.wpos then c % 256 else r.buf i;
  wpos = next_index r.wpos;
}

-- 0 if none waits.
unfoldable pub ring_get : Ring → ℕ × Ring
ring_get r =
    if r.rpos == r.wpos then (0, r) else (r.buf r.rpos, record r { rpos = next_index r.rpos })
