-- ===== src/Console/Keyboard.antt =====
-- The keyboard of kern/console.c: the tables of scan codes and kbd_proc_data.
use kp.Base.{
  ℕ, zero, suc, ◌+◌, ◌-◌, ◌^◌, ◌==◌, leb, not, ◌&&◌, if◌then◌else◌, bit_or, List, [], ◌∷◌, Option,
  none, some,
}
use Prim.Native.Nat.{bit_and, bit_xor}
use kp.Devices.{Ports}
use kp.Words.{has_bit}
use kp.Console.{Io, input, output, put_text}

abbrev pub caps_lock : ℕ
caps_lock = 3

abbrev pub e0_escape : ℕ
e0_escape = 64

abbrev pub key_delete : ℕ
key_delete = 233

-- The entries of an initializer by position; the others are 0.
unfoldable pub entry_at : List ℕ → ℕ → ℕ
entry_at [] i = 0
entry_at (c ∷ cs) zero = c
entry_at (c ∷ cs) (suc i) = entry_at cs i

-- The entries of an initializer by index, or else `c`.
unfoldable pub designated : List (ℕ × ℕ) → ℕ → ℕ → ℕ
designated [] i c = c
designated (e ∷ es) i c = let rest = designated es i c in if e.0 == i then e.1 else rest

unfoldable pub shiftcode : ℕ → ℕ
unfolding designated
shiftcode i = designated ((29, 2) ∷ (42, 1) ∷ (54, 1) ∷ (56, 4) ∷ (157, 2) ∷ (184, 4) ∷ []) i 0

unfoldable pub togglecode : ℕ → ℕ
unfolding designated
togglecode i = designated ((58, 8) ∷ (69, 16) ∷ (70, 32) ∷ []) i 0

abbrev pub extended_keys : List (ℕ × ℕ)
extended_keys =
    (199, 224)
    ∷ (156, 10)
    ∷ (181, 47)
    ∷ (200, 226)
    ∷ (201, 230)
    ∷ (203, 228)
    ∷ (205, 229)
    ∷ (207, 225)
    ∷ (208, 227)
    ∷ (209, 231)
    ∷ (210, 232)
    ∷ (211, 233)
    ∷ []

abbrev pub normal_keys : List ℕ
normal_keys =
    0 ∷ 27 ∷ 49 ∷ 50 ∷ 51 ∷ 52 ∷ 53 ∷ 54 ∷ 55 ∷ 56 ∷ 57 ∷ 48 ∷ 45 ∷ 61 ∷ 8 ∷ 9 ∷ 113 ∷ 119 ∷ 101
    ∷ 114 ∷ 116 ∷ 121 ∷ 117 ∷ 105 ∷ 111 ∷ 112 ∷ 91 ∷ 93 ∷ 10 ∷ 0 ∷ 97 ∷ 115 ∷ 100 ∷ 102 ∷ 103 ∷ 104
    ∷ 106 ∷ 107 ∷ 108 ∷ 59 ∷ 39 ∷ 96 ∷ 0 ∷ 92 ∷ 122 ∷ 120 ∷ 99 ∷ 118 ∷ 98 ∷ 110 ∷ 109 ∷ 44 ∷ 46 ∷ 47
    ∷ 0 ∷ 42 ∷ 0 ∷ 32 ∷ 0 ∷ 0 ∷ 0 ∷ 0 ∷ 0 ∷ 0 ∷ 0 ∷ 0 ∷ 0 ∷ 0 ∷ 0 ∷ 0 ∷ 0 ∷ 55 ∷ 56 ∷ 57 ∷ 45 ∷ 52
    ∷ 53 ∷ 54 ∷ 43 ∷ 49 ∷ 50 ∷ 51 ∷ 48 ∷ 46 ∷ 0 ∷ 0 ∷ 0 ∷ 0 ∷ []

unfoldable pub normalmap : ℕ → ℕ
unfolding designated entry_at
normalmap i = designated extended_keys i (entry_at normal_keys i)

abbrev pub shift_keys : List ℕ
shift_keys =
    0 ∷ 27 ∷ 33 ∷ 64 ∷ 35 ∷ 36 ∷ 37 ∷ 94 ∷ 38 ∷ 42 ∷ 40 ∷ 41 ∷ 95 ∷ 43 ∷ 8 ∷ 9 ∷ 81 ∷ 87 ∷ 69 ∷ 82
    ∷ 84 ∷ 89 ∷ 85 ∷ 73 ∷ 79 ∷ 80 ∷ 123 ∷ 125 ∷ 10 ∷ 0 ∷ 65 ∷ 83 ∷ 68 ∷ 70 ∷ 71 ∷ 72 ∷ 74 ∷ 75 ∷ 76
    ∷ 58 ∷ 34 ∷ 126 ∷ 0 ∷ 124 ∷ 90 ∷ 88 ∷ 67 ∷ 86 ∷ 66 ∷ 78 ∷ 77 ∷ 60 ∷ 62 ∷ 63 ∷ 0 ∷ 42 ∷ 0 ∷ 32
    ∷ 0 ∷ 0 ∷ 0 ∷ 0 ∷ 0 ∷ 0 ∷ 0 ∷ 0 ∷ 0 ∷ 0 ∷ 0 ∷ 0 ∷ 0 ∷ 55 ∷ 56 ∷ 57 ∷ 45 ∷ 52 ∷ 53 ∷ 54 ∷ 43 ∷ 49
    ∷ 50 ∷ 51 ∷ 48 ∷ 46 ∷ 0 ∷ 0 ∷ 0 ∷ 0 ∷ []

unfoldable pub shiftmap : ℕ → ℕ
unfolding designated entry_at
shiftmap i = designated extended_keys i (entry_at shift_keys i)

-- C(x) is x - '@' in a uint8_t.
abbrev pub control_keys : List ℕ
control_keys =
    0 ∷ 0 ∷ 0 ∷ 0 ∷ 0 ∷ 0 ∷ 0 ∷ 0 ∷ 0 ∷ 0 ∷ 0 ∷ 0 ∷ 0 ∷ 0 ∷ 0 ∷ 0 ∷ 17 ∷ 23 ∷ 5 ∷ 18 ∷ 20 ∷ 25 ∷ 21
    ∷ 9 ∷ 15 ∷ 16 ∷ 0 ∷ 0 ∷ 13 ∷ 0 ∷ 1 ∷ 19 ∷ 4 ∷ 6 ∷ 7 ∷ 8 ∷ 10 ∷ 11 ∷ 12 ∷ 0 ∷ 0 ∷ 0 ∷ 0 ∷ 28 ∷ 26
    ∷ 24 ∷ 3 ∷ 22 ∷ 2 ∷ 14 ∷ 13 ∷ 0 ∷ 0 ∷ 239 ∷ 0 ∷ 0 ∷ []

abbrev pub control_extended : List (ℕ × ℕ)
control_extended =
    (151, 224)
    ∷ (181, 239)
    ∷ (200, 226)
    ∷ (201, 230)
    ∷ (203, 228)
    ∷ (205, 229)
    ∷ (207, 225)
    ∷ (208, 227)
    ∷ (209, 231)
    ∷ (210, 232)
    ∷ (211, 233)
    ∷ []

unfoldable pub ctlmap : ℕ → ℕ
unfolding designated entry_at
ctlmap i = designated control_extended i (entry_at control_keys i)

unfoldable pub charcode : ℕ → ℕ → ℕ
unfolding normalmap shiftmap ctlmap
charcode k i = if k == 0 then normalmap i else if k == 1 then shiftmap i else ctlmap i

-- Caps lock swaps the case of a letter.
unfoldable pub swap_case : ℕ → ℕ
swap_case c = if leb 97 c && leb c 122 then c - 32 else if leb 65 c && leb c 90 then c + 32 else c

-- `a & ~b` on a uint32_t.
unfoldable pub clear_bits : ℕ → ℕ → ℕ
clear_bits a b = bit_and a (2 ^ 32 - 1 - b)

-- The modifier bits after a key is pressed.
unfoldable pub shift_pressed : ℕ → ℕ → ℕ
unfolding shiftcode togglecode
shift_pressed shift code = bit_xor (bit_or shift (shiftcode code)) (togglecode code)

-- "Rebooting!\n"
abbrev pub rebooting : List ℕ
rebooting = 82 ∷ 101 ∷ 98 ∷ 111 ∷ 111 ∷ 116 ∷ 105 ∷ 110 ∷ 103 ∷ 33 ∷ 10 ∷ []

-- The character of a key that is pressed.
unfoldable pub key_char : ℕ → ℕ → ℕ
unfolding charcode swap_case
key_char shift code =
    let c = charcode (bit_and shift 3) code in if has_bit shift caps_lock then swap_case c else c

module _ {D : Type 0} (ports : Ports D) where
  unfoldable pub reboot_keys : ℕ → Io D → Io D
  reboot_keys c s =
      if has_bit s.shift 1 && has_bit s.shift 2 && c == key_delete
      then output ports 146 3 (put_text ports rebooting s)
      else s

  unfoldable pub key_pressed : ℕ → Io D → ℕ × Io D
  unfolding shift_pressed key_char reboot_keys
  key_pressed code s =
      let t = record s { shift = shift_pressed s.shift code } in
      let c = key_char t.shift code in (c, reboot_keys c t)

  unfoldable pub scan_code : ℕ → Io D → ℕ × Io D
  unfolding clear_bits shiftcode key_pressed
  scan_code code s =
      if code == 224
      then (0, record s { shift = bit_or s.shift e0_escape })
      else if has_bit code 7
      then (let k = if has_bit s.shift 6 then code else bit_and code 127 in
          (0, record s { shift = clear_bits s.shift (bit_or (shiftcode k) e0_escape) }))
      else if has_bit s.shift 6
      then key_pressed (bit_or code 128) (record s { shift = clear_bits s.shift e0_escape })
      else key_pressed code s

  -- `none` is -1.
  unfoldable pub kbd_proc_data : Io D → Option ℕ × Io D
  unfolding scan_code input
  kbd_proc_data s =
      let status = input ports 100 s in
      if not (has_bit status.0 0)
      then (none, status.1)
      else (let byte = input ports 96 status.1 in
          let r = scan_code byte.0 byte.1 in (some r.0, r.1))
