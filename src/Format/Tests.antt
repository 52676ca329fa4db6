-- ===== src/Format/Tests.antt =====
-- Numbers and formats that are printed, and the console's buffers.
use kp.Base.{ℕ, ◌-◌, ◌^◌, ◌≡◌, refl, ◌==◌, if◌then◌else◌, arith, some, List, [], ◌∷◌, ◌++◌, pos}
use kp.Run.{ok}
use kp.Strings.{Bytes, store}
use kp.Pages.FreeList.Lists.{length}
use kp.Format.{
  printnum, digit_char, rounds, repeat, vprintfmt, next_piece, escape, flag_step, convert,
  put_number, getint, read_width,
}
use kp.Format.Numbers.{minus, Numeral, printnum_lem}
use kp.Format.Buffer.{vsnprintf, vcprintf, printed}
use kp.Format.Buffer.Laws.{with_text, sent, AllShort, vsnprintf_lem, vcprintf_lem}

printnum_lem_example :
    (cs : List ℕ) × (printnum 64 42 16 (pos 5) 48
      ≡ some (repeat (rounds (minus (pos 5) (length cs))) 48 ++ cs))
    × Numeral 16 42 cs
printnum_lem_example =
    printnum_lem 64 42 16 (pos 5) 48 (omega arith) (omega arith) (omega arith) (omega arith)

-- "0002a"
padded : printnum 64 42 16 (pos 5) 48 ≡ some (48 ∷ 48 ∷ 48 ∷ 50 ∷ 97 ∷ [])
unfolding printnum digit_char
padded = refl

-- "a%d" at address 100.
abbrev format_bytes : Bytes
format_bytes = λ x. if x == 100 then 97 else if x == 101 then 37 else if x == 102 then 100 else 0

minus_seven :
    vprintfmt 1 (λ e. 1) 10 100 ((2 ^ 32 - 7) ∷ []) format_bytes
    ≡ ok (97 ∷ 45 ∷ 55 ∷ []) format_bytes
unfolding vprintfmt next_piece escape flag_step convert put_number getint printnum digit_char
    read_width
minus_seven = refl

vsnprintf_lem_example :
    vsnprintf (vprintfmt 1 (λ e. 1) 10 100 ((2 ^ 32 - 7) ∷ [])) 200 3 format_bytes
    ≡ ok (printed 3) (store 202 0 (with_text 200 2 (97 ∷ 45 ∷ 55 ∷ []) format_bytes))
vsnprintf_lem_example =
    vsnprintf_lem (vprintfmt 1 (λ e. 1) 10 100 ((2 ^ 32 - 7) ∷ [])) (97 ∷ 45 ∷ 55 ∷ []) 200 3
      format_bytes minus_seven (λ e. absurd (omega (arith, e))) (omega arith) (omega arith)

vcprintf_lem_example :
    ((vcprintf (72 ∷ 105 ∷ 10 ∷ []) (λ i. 7)).0 ≡ 3)
    × (sent (vcprintf (72 ∷ 105 ∷ 10 ∷ []) (λ i. 7)).1 ≡ 72 ∷ 105 ∷ 10 ∷ [])
    × AllShort (vcprintf (72 ∷ 105 ∷ 10 ∷ []) (λ i. 7)).1
vcprintf_lem_example = vcprintf_lem (72 ∷ 105 ∷ 10 ∷ []) (λ i. 7) (omega arith)
