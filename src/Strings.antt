-- ===== src/Strings.antt =====
-- lib/string.c on a byte-addressed memory.
--
-- A pointer is an address, a null pointer is `none`; a string may not wrap past the end of the address
-- space. Loops that end only at a byte of the string run on fuel.
pub mod Moves
pub mod Fill
pub mod Loops
mod Tests
use kp.Base.{
  ℕ, zero, suc, ◌+◌, ◌-◌, ◌*◌, ◌/◌, ◌%◌, ◌^◌, ◌==◌, leb, ltb, Bool, true, false, not, ◌&&◌, ◌||◌,
  if◌then◌else◌, Option, none, some, bit_or, ℤ, pos, difference,
}
use kp.Run.{Run, ok, out_of_fuel, Cmd, pure, ◌>>=◌, ◌>>◌}

abbrev pub Bytes : Type 0
Bytes = ℕ → ℕ

abbrev pub store : ℕ → ℕ → Bytes → Bytes
store a b m = λ x. if x == a then b else m x

abbrev pub write_byte : ℕ → ℕ → Cmd Bytes (Unit {0})
write_byte a b m = ok tt (store a b m)

abbrev pub read_byte : ℕ → Cmd Bytes ℕ
read_byte a m = ok (m a) m

-- The lengths are ints, kept as 32-bit patterns; adding one to an address extends the sign.
abbrev pub extended : ℕ → ℕ
extended n = if ltb n (2 ^ 31) then n else n + (2 ^ 64 - 2 ^ 32)

unfoldable pub strlen_loop : ℕ → ℕ → ℕ → Cmd Bytes ℕ
strlen_loop zero s n m = out_of_fuel
strlen_loop (suc fuel) s n m =
    let rest = strlen_loop fuel (s + 1) ((n + 1) % 2 ^ 32) m in if m s == 0 then ok n m else rest

unfoldable pub strlen : ℕ → ℕ → Cmd Bytes ℕ
strlen fuel s = strlen_loop fuel s 0

unfoldable pub strnlen : ℕ → ℕ → Bytes → ℕ
strnlen s zero m = 0
strnlen s (suc size) m =
    let rest = strnlen (s + 1) size m in if m s == 0 then 0 else (rest + 1) % 2 ^ 32

-- The byte is copied before it is tested.
unfoldable pub strcpy : ℕ → ℕ → ℕ → Cmd Bytes (Unit {0})
strcpy zero dst src m = out_of_fuel
strcpy (suc fuel) dst src m =
    let rest = strcpy fuel (dst + 1) (src + 1) (store dst (m src) m) in
    if m src == 0 then ok tt (store dst (m src) m) else rest

unfoldable pub strcat : ℕ → ℕ → ℕ → Cmd Bytes (Unit {0})
strcat fuel dst src = do len ← strlen fuel dst; strcpy fuel ((dst + extended len) % 2 ^ 64) src

-- The source pointer stays at the terminator, so the rest is padded with zeros.
unfoldable pub strncpy : ℕ → ℕ → ℕ → Bytes → Bytes
strncpy dst src zero m = m
strncpy dst src (suc size) m =
    strncpy (dst + 1) (if store dst (m src) m src == 0 then src else src + 1) size
      (store dst (m src) m)

-- `size` is what is left after `--size`. The result is the length copied.
unfoldable pub strlcpy_loop : ℕ → ℕ → ℕ → ℕ → Bytes → ℕ × Bytes
strlcpy_loop dst src n zero m = (n, store dst 0 m)
strlcpy_loop dst src n (suc size) m =
    let rest = strlcpy_loop (dst + 1) (src + 1) (n + 1) size (store dst (m src) m) in
    if m src == 0 then (n, store dst 0 m) else rest

unfoldable pub strlcpy : ℕ → ℕ → ℕ → Bytes → ℕ × Bytes
strlcpy dst src zero m = (0, m)
strlcpy dst src (suc size) m = strlcpy_loop dst src 0 size m

unfoldable pub strcmp : ℕ → ℕ → ℕ → Cmd Bytes ℤ
strcmp zero p q m = out_of_fuel
strcmp (suc fuel) p q m =
    let rest = strcmp fuel (p + 1) (q + 1) m in
    if not (m p == 0) && m p == m q then rest else ok (difference (m p) (m q)) m

unfoldable pub strncmp : ℕ → ℕ → ℕ → Bytes → ℤ
strncmp p q zero m = pos 0
strncmp p q (suc n) m =
    let rest = strncmp (p + 1) (q + 1) n m in
    if not (m p == 0) && m p == m q then rest else difference (m p) (m q)

unfoldable pub strchr : ℕ → ℕ → ℕ → Cmd Bytes (Option ℕ)
strchr zero s c m = out_of_fuel
strchr (suc fuel) s c m =
    let rest = strchr fuel (s + 1) c m in
    if m s == 0 then ok none m else if m s == c then ok (some s) m else rest

unfoldable pub strfind : ℕ → ℕ → ℕ → Cmd Bytes ℕ
strfind zero s c m = out_of_fuel
strfind (suc fuel) s c m =
    let rest = strfind fuel (s + 1) c m in
    if m s == 0 then ok s m else if m s == c then ok s m else rest

-- rep stosb, rep stosl, rep movsb and rep movsl with the direction flag clear; an `l` instruction moves
-- four bytes at a time, the low one first.
unfoldable pub stosb : ℕ → ℕ → ℕ → Bytes → Bytes
stosb p a zero m = m
stosb p a (suc n) m = stosb (p + 1) a n (store p (a % 256) m)

abbrev pub store4 : ℕ → ℕ → ℕ → ℕ → ℕ → Bytes → Bytes
store4 p a b c d m = store (p + 3) d (store (p + 2) c (store (p + 1) b (store p a m)))

unfoldable pub stosl : ℕ → ℕ → ℕ → Bytes → Bytes
stosl p a zero m = m
stosl p a (suc n) m =
    stosl (p + 4) a n (store4 p (a % 256) (a / 2 ^ 8 % 256) (a / 2 ^ 16 % 256) (a / 2 ^ 24 % 256) m)

unfoldable pub movsb : ℕ → ℕ → ℕ → Bytes → Bytes
movsb d s zero m = m
movsb d s (suc n) m = movsb (d + 1) (s + 1) n (store d (m s) m)

abbrev pub copy4 : ℕ → ℕ → Bytes → Bytes
copy4 d s m = store4 d (m s) (m (s + 1)) (m (s + 2)) (m (s + 3)) m

unfoldable pub movsl : ℕ → ℕ → ℕ → Bytes → Bytes
movsl d s zero m = m
movsl d s (suc n) m = movsl (d + 4) (s + 4) n (copy4 d s m)

-- The same with the direction flag set, from the ends `d` and `s` downwards: `d - 1` and `s - 1` (or
-- `d - 4` and `s - 4`) are what the code loads into the registers.
unfoldable pub movsb_down : ℕ → ℕ → ℕ → Bytes → Bytes
movsb_down d s zero m = m
movsb_down d s (suc n) m = movsb_down (d - 1) (s - 1) n (store (d - 1) (m (s - 1)) m)

unfoldable pub movsl_down : ℕ → ℕ → ℕ → Bytes → Bytes
movsl_down d s zero m = m
movsl_down d s (suc n) m = movsl_down (d - 4) (s - 4) n (copy4 (d - 4) (s - 4) m)

-- (c<<24)|(c<<16)|(c<<8)|c
unfoldable pub four_times : ℕ → ℕ
four_times c = bit_or (bit_or (bit_or (c * 2 ^ 24) (c * 2 ^ 16)) (c * 2 ^ 8)) c

unfoldable pub memset : ℕ → ℕ → ℕ → Bytes → Bytes
memset v c n m =
    if n == 0
    then m
    else if v % 4 == 0 && n % 4 == 0
    then stosl v (four_times (c % 256)) (n / 4) m
    else stosb v c n m

abbrev pub all_aligned : ℕ → ℕ → ℕ → Bool
all_aligned d s n = s % 4 == 0 && (d % 4 == 0 && n % 4 == 0)

unfoldable pub memmove : ℕ → ℕ → ℕ → Bytes → Bytes
memmove d s n m =
    if ltb s d && ltb d (s + n)
    then (if all_aligned (d + n) (s + n) n
        then movsl_down (d + n) (s + n) (n / 4) m
        else movsb_down (d + n) (s + n) n m)
    else (if all_aligned d s n then movsl d s (n / 4) m else movsb d s n m)

-- The versions without assembly. `int m = n` in memset, and `while (--m >= 0)`, so a size with its
-- sign bit set writes nothing.
unfoldable pub memset_plain : ℕ → ℕ → ℕ → Bytes → Bytes
memset_plain v c n m = if ltb (n % 2 ^ 32) (2 ^ 31) then stosb v c (n % 2 ^ 32) m else m

unfoldable pub memmove_plain : ℕ → ℕ → ℕ → Bytes → Bytes
memmove_plain d s n m =
    if ltb s d && ltb d (s + n) then movsb_down (d + n) (s + n) n m else movsb d s n m

unfoldable pub memcpy : ℕ → ℕ → ℕ → Bytes → Bytes
memcpy d s n m = memmove d s n m

unfoldable pub memcmp : ℕ → ℕ → ℕ → Bytes → ℤ
memcmp s1 s2 zero m = pos 0
memcmp s1 s2 (suc n) m =
    let rest = memcmp (s1 + 1) (s2 + 1) n m in
    if m s1 == m s2 then rest else difference (m s1) (m s2)

unfoldable pub memfind : ℕ → ℕ → ℕ → Bytes → ℕ
memfind s c zero m = s
memfind s c (suc n) m = let rest = memfind (s + 1) c n m in if m s == c % 256 then s else rest

-- strtol, one step at a time: whitespace, sign, prefix, digits.
unfoldable pub skip_blanks : ℕ → ℕ → Cmd Bytes ℕ
skip_blanks zero s m = out_of_fuel
skip_blanks (suc fuel) s m =
    let rest = skip_blanks fuel (s + 1) m in if m s == 32 || m s == 9 then rest else ok s m

unfoldable pub digit_of : ℕ → Option ℕ
digit_of c =
    if leb 48 c && leb c 57
    then some (c - 48)
    else if leb 97 c && leb c 122
    then some (c - 97 + 10)
    else if leb 65 c && leb c 90
    then some (c - 65 + 10)
    else none

-- `long val` wraps at 2 ^ 64: "we don't properly detect overflow".
unfoldable pub digits_loop : ℕ → ℕ → ℕ → ℕ → Cmd Bytes (ℕ × ℕ)
digits_loop zero s base val m = out_of_fuel
digits_loop (suc fuel) s base val m =
    let next = λ (dig : ℕ). digits_loop fuel (s + 1) base ((val * base + dig) % 2 ^ 64) m in
    elim (digit_of (m s)) [
      | none ↦ ok (s, val) m
      | some dig ↦ (let rest = next dig in if leb base dig then ok (s, val) m else rest)
    ]

unfoldable pub skip_sign : ℕ → Bytes → ℕ × Bool
skip_sign s m =
    if m s == 43 then (s + 1, false) else if m s == 45 then (s + 1, true) else (s, false)

unfoldable pub skip_prefix : ℕ → ℕ → Bytes → ℕ × ℕ
skip_prefix s base m =
    if (base == 0 || base == 16) && (m s == 48 && m (s + 1) == 120)
    then (s + 2, 16)
    else if base == 0 && m s == 48
    then (s + 1, 8)
    else if base == 0
    then (s, 10)
    else (s, base)

-- The end pointer and the value as a 64-bit word.
unfoldable pub strtol : ℕ → ℕ → ℕ → Cmd Bytes (ℕ × ℕ)
strtol fuel s base m =
    (do
      s ← skip_blanks fuel s
      let signed = skip_sign s m
      let start = skip_prefix signed.0 base m
      r ← digits_loop fuel start.0 start.1 0
      pure (r.0, (if signed.1 then (2 ^ 64 - r.1) % 2 ^ 64 else r.1)))
      m
