-- ===== src/Strings/Tests.antt =====
-- The string functions on a memory that holds its own addresses, and on a short string.
use kp.Base.{◌+◌, ◌%◌, ◌≡◌, refl, if◌then◌else◌, ltb, arith}
use kp.Run.{ok}
use kp.Strings.{Bytes, strlen, memset, memmove, memmove_plain}
use kp.Strings.Moves.{replaced, memmove_lem, memmove-memmove_plain}
use kp.Strings.Fill.{memset_lem}
use kp.Strings.Loops.{IsString, strlen_lem}

abbrev addresses : Bytes
addresses a = a % 256

-- Three letters at 100.
abbrev letters : Bytes
letters a = if ltb a 103 then 65 else 0

letters-IsString : IsString letters 100 3
letters-IsString = ((λ i h. ground arith), refl)

-- Eight bytes move up by four: the ranges overlap, and all is aligned.
memmove_lem_example :
    memmove 104 100 8 addresses 107 ≡ replaced 104 8 (λ i. addresses (100 + i)) addresses 107
memmove_lem_example = memmove_lem 104 100 8 107 addresses

memmove-memmove_plain_example : memmove 104 100 8 addresses ≡ memmove_plain 104 100 8 addresses
memmove-memmove_plain_example = memmove-memmove_plain 104 100 8 addresses

memset_lem_example :
    memset 200 0x141 8 addresses 203 ≡ replaced 200 8 (λ _. 0x141 % 256) addresses 203
memset_lem_example = memset_lem 200 0x141 8 203 addresses

strlen_lem_example : strlen 4 100 letters ≡ ok 3 letters
strlen_lem_example = strlen_lem letters 3 4 100 letters-IsString (omega arith) (omega arith)
