-- ===== src/Console/Input.antt =====
-- The input half of kern/console.c: the buffer is filled by the interrupts and by polling.
--
-- `none` is -1, the answer of a device that has nothing. Loops that end when a device says so run on fuel.
pub mod Receive
use kp.Base.{
  ℕ, zero, suc, ◌+◌, ◌-◌, ◌*◌, ◌%◌, ◌^◌, ◌==◌, not, Bool, true, false, if◌then◌else◌, bit_or, List,
  [], ◌∷◌, Option, none, some,
}
use kp.Run.{Run, ok, out_of_fuel, Cmd, pure, ◌>>=◌, ◌>>◌}
use kp.Devices.{Ports}
use kp.Words.{has_bit}
use kp.Console.{Io, input, output, ignore, write_cell, put_text}
use kp.Console.Buffer.{Ring, ring_put, ring_get}
use kp.Console.Keyboard.{clear_bits, kbd_proc_data}
use kp.PicIrq.{irq_setmask_8259A}

-- "Serial port does not exist!\n"
abbrev pub no_serial_text : List ℕ
no_serial_text =
    83 ∷ 101 ∷ 114 ∷ 105 ∷ 97 ∷ 108 ∷ 32 ∷ 112 ∷ 111 ∷ 114 ∷ 116 ∷ 32 ∷ 100 ∷ 111 ∷ 101 ∷ 115 ∷ 32
    ∷ 110 ∷ 111 ∷ 116 ∷ 32 ∷ 101 ∷ 120 ∷ 105 ∷ 115 ∷ 116 ∷ 33 ∷ 10 ∷ []

module _ {D : Type 0} where
  -- A character of cons_intr's loop.
  unfoldable pub stash : ℕ → Io D → Io D
  stash c s = if c == 0 then s else record s { cons = ring_put c s.cons }

  unfoldable pub cons_intr : ℕ → (Io D → Option ℕ × Io D) → Cmd (Io D) (Unit {0})
  unfolding stash
  cons_intr zero proc s = out_of_fuel
  cons_intr (suc fuel) proc s =
      let r = proc s in
      elim r.0 as (λ _. Run (Io D) (Unit {0})) [
        | none ↦ ok tt r.1
        | some c ↦ cons_intr fuel proc (stash c r.1)
      ]

  unfoldable pub take_char : Cmd (Io D) ℕ
  take_char s = let r = ring_get s.cons in ok r.0 (record s { cons = r.1 })

module _ {D : Type 0} (ports : Ports D) where
  unfoldable pub serial_proc_data : Io D → Option ℕ × Io D
  serial_proc_data s =
      let status = input ports 1021 s in
      if not (has_bit status.0 0)
      then (none, status.1)
      else (let r = input ports 1016 status.1 in (some r.0, r.1))

  unfoldable pub serial_intr : ℕ → Cmd (Io D) (Unit {0})
  unfolding serial_proc_data cons_intr
  serial_intr fuel s = if s.serial_exists then cons_intr fuel serial_proc_data s else ok tt s

  unfoldable pub kbd_intr : ℕ → Cmd (Io D) (Unit {0})
  unfolding cons_intr
  kbd_intr fuel = cons_intr fuel (kbd_proc_data ports)

  unfoldable pub cons_getc : ℕ → Cmd (Io D) ℕ
  unfolding serial_intr kbd_intr take_char
  cons_getc fuel = do _ ← serial_intr fuel; _ ← kbd_intr fuel; take_char

  -- The device is polled until there is a character.
  unfoldable pub getchar : ℕ → ℕ → Cmd (Io D) ℕ
  unfolding cons_getc
  getchar fuel zero s = out_of_fuel
  getchar fuel (suc n) s =
      (do
        c ← cons_getc fuel
        elim (c == 0) as (λ _. Cmd (Io D) ℕ) [ true ↦ getchar fuel n | false ↦ pure c ])
        s

  unfoldable pub iscons : ℕ → ℕ
  iscons fdnum = 1

  unfoldable pub serial_init : Io D → Io D
  serial_init s =
      let t = output ports 1017 1 (
        output ports 1020 0 (
          output ports 1019 3 (
            output ports 1017 0
              (output ports 1016 12 (output ports 1019 128 (output ports 1018 0 s)))))) in
      let status = input ports 1021 t in
      ignore ports 1016
        (ignore ports 1018 (record status.1 { serial_exists = not (status.0 == 255) }))

  -- What is read back tells whether there is display memory.
  unfoldable pub cga_init : ℕ → Io D → Io D
  cga_init kernel_vma s =
      let cga = kernel_vma + 753664 in
      let mono = kernel_vma + 720896 in
      let was = s.video cga 0 in
      let t = write_cell ports cga 0 42330 s in
      let u =
        if not (t.video cga 0 == 42330)
        then record t { addr_6845 = 948; crt_buf = mono }
        else record (write_cell ports cga 0 was t) { addr_6845 = 980; crt_buf = cga } in
      let high = input ports (u.addr_6845 + 1) (output ports u.addr_6845 14 u) in
      let low = input ports (u.addr_6845 + 1) (output ports u.addr_6845 15 high.1) in
      record low.1 { crt_pos = bit_or (high.0 * 256) low.0 % 2 ^ 16 }

  unfoldable pub kbd_init : ℕ → Cmd (Io D) (Unit {0})
  unfolding kbd_intr
  kbd_init fuel = do
    _ ← kbd_intr fuel
    λ s. ok tt (irq_setmask_8259A ports (clear_bits s.irq_mask 2) s)

  unfoldable pub cons_init : ℕ → ℕ → Cmd (Io D) (Unit {0})
  unfolding cga_init kbd_init serial_init
  cons_init fuel kernel_vma s =
      (do
        _ ← kbd_init fuel
        λ t.
            let u = serial_init t in
            if not u.serial_exists then ok tt (put_text ports no_serial_text u) else ok tt u)
        (cga_init kernel_vma s)
