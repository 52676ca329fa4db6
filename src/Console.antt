-- ===== src/Console.antt =====
-- The output half of kern/console.c: the serial port, the parallel port and the display.
--
-- `c` is the bit pattern of an int. The display's cells are kept by the address of the buffer and their
-- index; a write to an absent display is lost.
pub mod Buffer
pub mod Screen
pub mod Cursor
pub mod Keyboard
pub mod Input
mod Tests
use kp.Base.{
  ℕ, zero, suc, ◌+◌, ◌-◌, ◌*◌, ◌/◌, ◌%◌, ◌^◌, ◌==◌, leb, ltb, Bool, true, false, ◌&&◌,
  if◌then◌else◌, bit_or, List, [], ◌∷◌,
}
use kp.Devices.{Ports}
use kp.Words.{has_bit}
use kp.Console.Buffer.{Ring}

pub record Io (D : Type 0) : Type 0 where
  pub device : D
  pub video : ℕ → ℕ → ℕ
  pub serial_exists : Bool
  pub addr_6845 : ℕ
  pub crt_buf : ℕ
  pub crt_pos : ℕ
  pub shift : ℕ
  pub cons : Ring
  pub irq_mask : ℕ
  pub didinit : Bool

abbrev pub crt_cols : ℕ
crt_cols = 80

abbrev pub crt_size : ℕ
crt_size = 2000

-- The limit of the loops that wait for a port.
abbrev pub wait_limit : ℕ
wait_limit = 12800

-- If no attribute is given, black on white.
unfoldable pub attributed : ℕ → ℕ
attributed c = if c / 256 == 0 then bit_or c 1792 else c

module _ {D : Type 0} where
  unfoldable pub carriage_return : Io D → Io D
  carriage_return s = record s { crt_pos = s.crt_pos - s.crt_pos % crt_cols }

  unfoldable pub line_feed : Io D → Io D
  line_feed s = carriage_return (record s { crt_pos = (s.crt_pos + crt_cols) % 2 ^ 16 })

  abbrev pub five : (Io D → Io D) → Io D → Io D
  five f s = f (f (f (f (f s))))

module _ {D : Type 0} (ports : Ports D) where
  -- inb and outb take and give a uint8_t.
  unfoldable pub input : ℕ → Io D → ℕ × Io D
  input port s = let r = ports.inb port s.device in (r.0 % 256, record s { device = r.1 })

  unfoldable pub output : ℕ → ℕ → Io D → Io D
  output port v s = record s { device = ports.outb port (v % 256) s.device }

  abbrev pub ignore : ℕ → Io D → Io D
  ignore port s = (input port s).1

  unfoldable pub delay : Io D → Io D
  unfolding input
  delay s = ignore 132 (ignore 132 (ignore 132 (ignore 132 s)))

  -- The port is polled until the bit is set, `n` more times at most.
  unfoldable pub wait_for : ℕ → ℕ → ℕ → Io D → Io D
  wait_for port bit zero s = ignore port s
  wait_for port bit (suc n) s =
      let r = input port s in
      elim (has_bit r.0 bit) as (λ _. Io D) [ true ↦ r.1 | false ↦ wait_for port bit n (delay r.1) ]

  unfoldable pub serial_putc : ℕ → Io D → Io D
  serial_putc c s = output 1016 c (wait_for 1021 5 wait_limit s)

  unfoldable pub lpt_putc : ℕ → Io D → Io D
  lpt_putc c s = output 890 8 (output 890 13 (output 888 c (wait_for 889 7 wait_limit s)))

  unfoldable pub write_cell : ℕ → ℕ → ℕ → Io D → Io D
  write_cell b i v s =
      if ports.has_display b
      then record s { video = λ a j. if a == b && j == i then v % 2 ^ 16 else s.video a j }
      else s

  unfoldable pub backspace : ℕ → Io D → Io D
  backspace c s =
      if ltb 0 s.crt_pos
      then write_cell s.crt_buf (s.crt_pos - 1) (c / 256 * 256 + 32)
          (record s { crt_pos = s.crt_pos - 1 })
      else s

  unfoldable pub plain : ℕ → Io D → Io D
  plain c s =
      let t = write_cell s.crt_buf s.crt_pos c s in record t { crt_pos = (s.crt_pos + 1) % 2 ^ 16 }

  -- `tab` is what the calls of cons_putc for a tab do.
  unfoldable pub cga_switch : (Io D → Io D) → ℕ → Io D → Io D
  cga_switch tab c s =
      if c % 256 == 8
      then backspace c s
      else if c % 256 == 10
      then line_feed s
      else if c % 256 == 13
      then carriage_return s
      else if c % 256 == 9
      then tab s
      else plain c s

  -- memmove of all rows but the first.
  unfoldable pub move_rows : Io D → Io D
  move_rows s =
      if ports.has_display s.crt_buf
      then record s {
        video = λ a j.
            if a == s.crt_buf && ltb j (crt_size - crt_cols)
            then s.video a (j + crt_cols)
            else s.video a j;
      }
      else s

  unfoldable pub blank_cells : ℕ → ℕ → Io D → Io D
  blank_cells i zero s = s
  blank_cells i (suc n) s = blank_cells (i + 1) n (write_cell s.crt_buf i 1824 s)

  unfoldable pub scroll : Io D → Io D
  scroll s =
      if leb crt_size s.crt_pos
      then (let t = blank_cells (crt_size - crt_cols) crt_cols (move_rows s) in
          record t { crt_pos = (t.crt_pos + 2 ^ 16 - crt_cols) % 2 ^ 16 })
      else s

  unfoldable pub show_cursor : Io D → Io D
  show_cursor s =
      output (s.addr_6845 + 1) s.crt_pos (
        output s.addr_6845 15
          (output (s.addr_6845 + 1) (s.crt_pos / 256) (output s.addr_6845 14 s)))

  unfoldable pub cga_putc : (Io D → Io D) → ℕ → Io D → Io D
  cga_putc tab c s = show_cursor (scroll (cga_switch tab (attributed c) s))

  -- A tab calls cons_putc again: `depth` bounds the nesting, and 2 is enough.
  unfoldable pub cons_putc : ℕ → ℕ → Io D → Io D
  cons_putc zero c s = s
  cons_putc (suc depth) c s = cga_putc (five (cons_putc depth 32)) c (lpt_putc c (serial_putc c s))

  unfoldable pub cputchar : ℕ → Io D → Io D
  cputchar c s = cons_putc 2 c s

  -- kern/printf.c gives the characters of a text to cputchar.
  unfoldable pub put_text : List ℕ → Io D → Io D
  put_text [] s = s
  put_text (c ∷ cs) s = put_text cs (cputchar c s)

  -- kern/printf.c's vcprintf for a text that vprintfmt makes: `*cnt++` moves the pointer, so the count stays 0.
  unfoldable pub vcprintf : List ℕ → Io D → ℕ × Io D
  unfolding put_text
  vcprintf text s = (0, put_text text s)
