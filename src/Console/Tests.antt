-- ===== src/Console/Tests.antt =====
-- The console on a machine whose keyboard gives a list of scan codes.
use kp.Base.{ℕ, ◌<◌, ◌≡◌, refl, ◌==◌, false, if◌then◌else◌, arith, some, List, [], ◌∷◌}
use kp.Run.{ok}
use kp.Devices.{Ports}
use kp.Words.{has_bit}
use kp.Console.{Io, put_text, input}
use kp.Console.Screen.{InRows}
use kp.Console.Cursor.{put_text-bounds}
use kp.Console.Buffer.{Ring}
use kp.Console.Buffer.Queue.{Waits, put, take, ring_run, queue_run, ring_run_lem}
use kp.Console.Keyboard.{
  kbd_proc_data, scan_code, key_pressed, shift_pressed, key_char, charcode, normalmap, shiftmap,
  ctlmap, swap_case, shiftcode, togglecode, entry_at, designated, reboot_keys,
}
use kp.Console.Input.{cons_getc, stash}
use kp.Console.Input.Receive.{Delivers, cons_getc_lem}

-- 100 and 96 are the keyboard's ports; the other devices are always ready.
abbrev keys_at : List ℕ → ℕ × List ℕ
keys_at [] = (0, [])
keys_at (k ∷ ks) = (k, ks)

abbrev waits : List ℕ → ℕ
waits [] = 0
waits (k ∷ ks) = 1

abbrev machine : Ports (List ℕ)
machine = record {
  inb = λ port ks.
      if port == 96 then keys_at ks else if port == 100 then (waits ks, ks) else (160, ks);
  outb = λ port v ks. ks;
  has_display = λ b. b == 753664;
}

abbrev empty_ring : Ring
empty_ring = record { buf = λ i. 0; rpos = 0; wpos = 0 }

abbrev empty_ring-Waits : Waits empty_ring []
empty_ring-Waits = record {
  stands = refl;
  short = omega arith;
  read_index = omega arith;
  write_index = omega arith;
}

abbrev console : List ℕ → ℕ → Io (List ℕ)
console ks p = record {
  device = ks;
  video = λ b i. 1824;
  serial_exists = false;
  addr_6845 = 980;
  crt_buf = 753664;
  crt_pos = p;
  shift = 0;
  cons = empty_ring;
  irq_mask = 65531;
  didinit = false;
}

ring_run_lem_example :
    ring_run (put 97 ∷ put 98 ∷ take ∷ take ∷ take ∷ []) empty_ring
    ≡ queue_run (put 97 ∷ put 98 ∷ take ∷ take ∷ take ∷ []) []
ring_run_lem_example =
    ring_run_lem (put 97 ∷ put 98 ∷ take ∷ take ∷ take ∷ []) empty_ring [] empty_ring-Waits

-- A line feed on the last line.
put_text-bounds_example :
    ((put_text machine (72 ∷ 10 ∷ 9 ∷ []) (console [] 1930)).crt_pos < 2000)
    × InRows (console [] 1930) (put_text machine (72 ∷ 10 ∷ 9 ∷ []) (console [] 1930))
put_text-bounds_example = put_text-bounds machine (72 ∷ 10 ∷ 9 ∷ []) (console [] 1930) (omega arith)

-- The key A with shift.
shifted_key : (kbd_proc_data machine (console (42 ∷ 30 ∷ []) 0)).0 ≡ some 0
unfolding kbd_proc_data input scan_code key_pressed reboot_keys key_char shift_pressed charcode
    normalmap shiftmap ctlmap swap_case shiftcode togglecode entry_at designated has_bit
shifted_key = refl

shifted_letter :
    (kbd_proc_data machine (kbd_proc_data machine (console (42 ∷ 30 ∷ []) 0)).1).0 ≡ some 65
unfolding kbd_proc_data input scan_code key_pressed reboot_keys key_char shift_pressed charcode
    normalmap shiftmap ctlmap swap_case shiftcode togglecode entry_at designated has_bit
shifted_letter = refl

-- The key A, pressed and released, with nothing from the serial port.
abbrev pressed : Io (List ℕ)
pressed = (kbd_proc_data machine (console (30 ∷ 158 ∷ []) 0)).1

abbrev released : Io (List ℕ)
released = (kbd_proc_data machine (stash 97 pressed)).1

abbrev idle : Io (List ℕ)
idle = (kbd_proc_data machine (stash 0 released)).1

key_a-Delivers : Delivers (kbd_proc_data machine) (97 ∷ 0 ∷ []) (console (30 ∷ 158 ∷ []) 0) idle
unfolding kbd_proc_data input scan_code key_pressed reboot_keys key_char shift_pressed charcode
    normalmap shiftmap ctlmap swap_case shiftcode togglecode entry_at designated has_bit stash
key_a-Delivers = (pressed, refl, (released, refl, refl))

cons_getc_lem_example :
    (w : Io (List ℕ)) × (cons_getc machine 3 (console (30 ∷ 158 ∷ []) 0) ≡ ok 97 w)
    × Waits w.cons []
cons_getc_lem_example =
    cons_getc_lem machine [] (97 ∷ 0 ∷ []) 3 (console (30 ∷ 158 ∷ []) 0) (console (30 ∷ 158 ∷ []) 0)
      idle [] (omega arith) empty_ring-Waits (refl, refl) key_a-Delivers (omega arith) (omega arith)
