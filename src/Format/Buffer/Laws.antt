-- ===== src/Format/Buffer/Laws.antt =====
-- What the two buffers hold in the end: the text that was printed, cut or in pieces.
use kp.Base.{
  ℕ, zero, suc, ◌+◌, ◌-◌, ◌%◌, ◌^◌, ◌<◌, ◌≤◌, ◌≡◌, ◌≢◌, refl, ◌∙◌, sym, ap, ◌==◌, leb, ltb, true,
  false, ◌&&◌, ◌||◌, if◌then◌else◌, inl, inr, min, List, [], ◌∷◌, ◌++◌, arith, Bool-cases, fun_ext,
}
use kp.Run.{ok, Cmd}
use kp.Strings.{Bytes, store}
use kp.Pages.FreeList.Lists.{length}
use kp.Format.Buffer.{
  SprintBuf, sprintputch, sprint_all, printed, vsnprintf, finish_sprint, PrintBuf, chars_from,
  flush, putch, putch_all, vcprintf,
}

-- The character at index `i` of a text, as a byte.
abbrev pub nth_byte : List ℕ → ℕ → ℕ
nth_byte [] i = 0
nth_byte (c ∷ cs) zero = c % 256
nth_byte (c ∷ cs) (suc i) = nth_byte cs i

-- The memory with the first `n` characters of a text at `a`, as far as the text goes.
abbrev pub with_text : ℕ → ℕ → List ℕ → Bytes → Bytes
with_text a n cs m =
    λ x. if leb a x && ltb x (a + min n (length cs)) then nth_byte cs (x - a) else m x

append_assoc : (xs ys zs : List ℕ) → (xs ++ ys) ++ zs ≡ xs ++ (ys ++ zs)
append_assoc [] ys zs = refl
append_assoc (x ∷ xs) ys zs = ap (λ l. x ∷ l) (append_assoc xs ys zs)

append_nil : (xs : List ℕ) → xs ++ [] ≡ xs
append_nil [] = refl
append_nil (x ∷ xs) = ap (λ l. x ∷ l) (append_nil xs)

-- The text behind the first character is one place further on.
with_text_next :
    (a n c x : ℕ) (cs : List ℕ) (m : Bytes)
    → with_text (a + 1) n cs (store a (c % 256) m) x ≡ with_text a (n + 1) (c ∷ cs) m x
with_text_next a n c x cs m = elim (Bool-cases (x == a)) [
  | inl here ↦ let e : x - a ≡ 0 = ground arith in rw (here, e) (ground arith)
  | inr other ↦ elim (Bool-cases (leb (a + 1) x)) [
    | inl behind ↦ let e : x - a ≡ suc (x - (a + 1)) = ground arith in rw (other, e) (ground arith)
    | inr before ↦ rw other (ground arith)
  ]
]

sprint_all_lem :
    (cs : List ℕ) (b : SprintBuf)
    → b.buf ≤ b.ebuf
    → b.cnt + length cs < 2 ^ 32
    → ((sprint_all cs b).buf ≡ b.buf + min (b.ebuf - b.buf) (length cs))
      × ((sprint_all cs b).cnt ≡ b.cnt + length cs)
      × ((x : ℕ) → (sprint_all cs b).bytes x ≡ with_text b.buf (b.ebuf - b.buf) cs b.bytes x)
unfolding sprint_all sprintputch
sprint_all_lem [] b h c₀ = (omega arith, omega arith, λ x. ground arith)
sprint_all_lem (c ∷ cs) b h c₀ = elim (Bool-cases (ltb b.buf b.ebuf)) [
  | inl room ↦
      let r =
        sprint_all_lem cs
          (record {
            buf = b.buf + 1;
            ebuf = b.ebuf;
            cnt = (b.cnt + 1) % 2 ^ 32;
            bytes = store b.buf (c % 256) b.bytes;
          })
          (ground arith) (omega arith) in
      let e : b.ebuf - b.buf ≡ b.ebuf - (b.buf + 1) + 1 = ground arith in
      rw (sprint_all, sprintputch, room)
        (
          omega (arith, r.0, e),
          omega (arith, r.1),
          λ x.
              r.2 x
              ∙ with_text_next b.buf (b.ebuf - (b.buf + 1)) c x cs b.bytes
              ∙ ap (λ k. with_text b.buf k (c ∷ cs) b.bytes x) (sym e),
        )
  | inr full ↦
      let r = sprint_all_lem cs (record b { cnt = (b.cnt + 1) % 2 ^ 32 }) h (omega arith) in
      let e : b.ebuf - b.buf ≡ 0 = ground arith in
      rw (sprint_all, sprintputch, full)
        (omega (arith, r.0, e), omega (arith, r.1), λ x. r.2 x ∙ rw e (ground arith))
]

finish_sprint_lem :
    (b : SprintBuf) (k a : ℕ) (t : Bytes)
    → b.cnt ≡ k
    → b.buf ≡ a
    → ((x : ℕ) → b.bytes x ≡ t x)
    → finish_sprint b ≡ ok (printed k) (store a 0 t)
finish_sprint_lem b k a t e f g = let h : b.bytes ≡ t = fun_ext g in rw (e, f, h) refl

-- For a buffer that is not NULL, a size n of at least 1 and a text of less than 2 ^ 31
-- characters that is printed without changing memory, vsnprintf returns the whole text's length;
-- the buffer then holds the text's first n - 1 characters, or all if there are fewer, and a zero
-- after them, and no other byte changes.
pub vsnprintf_lem :
    (text : Cmd Bytes (List ℕ)) (cs : List ℕ) (buf n : ℕ) (m : Bytes)
    → text m ≡ ok cs m
    → buf ≢ 0
    → 1 ≤ n
    → length cs < 2 ^ 31
    → vsnprintf text buf n m
      ≡ ok
          (printed (length cs))
          (store (buf + min (n - 1) (length cs)) 0 (with_text buf (n - 1) cs m))
unfolding vsnprintf
vsnprintf_lem text cs buf n m e p l small =
    let r =
      sprint_all_lem cs (record { buf = buf; ebuf = buf + n - 1; cnt = 0; bytes = m }) (omega arith)
        (omega (arith, small)) in
    let k : buf + n - 1 - buf ≡ n - 1 = omega arith in
    let guard : (buf == 0 || ltb n 1) ≡ false = ground arith in
    rw (guard, e)
      (finish_sprint_lem
        (sprint_all cs (record { buf = buf; ebuf = buf + n - 1; cnt = 0; bytes = m })) (length cs)
        (buf + min (n - 1) (length cs)) (with_text buf (n - 1) cs m) (omega (arith, r.1))
        (omega (arith, r.0, k)) (λ x. r.2 x ∙ ap (λ j. with_text buf j cs m x) k))

abbrev pub AllShort : List (List ℕ) → Type 0
AllShort [] = Unit
AllShort (p ∷ ps) = (length p ≤ 255) × AllShort ps

-- The text that the strings make up, the last one first in the list.
abbrev pub sent : List (List ℕ) → List ℕ
sent [] = []
sent (p ∷ ps) = sent ps ++ p

abbrev pub as_bytes : List ℕ → List ℕ
as_bytes [] = []
as_bytes (c ∷ cs) = c % 256 ∷ as_bytes cs

length-chars_from : (f : ℕ → ℕ) (i n : ℕ) → length (chars_from f i n) ≡ n
length-chars_from f i zero = refl
length-chars_from f i (suc n) = omega (arith, length-chars_from f (i + 1) n)

chars_from-store :
    (f : ℕ → ℕ) (c a i n : ℕ)
    → a ≡ i + n
    → chars_from (store a c f) i (suc n) ≡ chars_from f i n ++ (c ∷ [])
chars_from-store f c a i zero h = let e : (i == a) ≡ true = ground arith in rw e refl
chars_from-store f c a i (suc n) h =
    let e : (i == a) ≡ false = ground arith in
    rw e (ap (λ l. f i ∷ l) (chars_from-store f c a (i + 1) n (omega (arith, h))))

module _ (b : PrintBuf) where
  all_sent : List ℕ
  all_sent = sent b.puts ++ chars_from b.chars 0 b.idx

putch_lem :
    (c : ℕ) (b : PrintBuf)
    → b.idx < 255
    → AllShort b.puts
    → ((putch c b).idx < 255)
      × ((putch c b).total ≡ (b.total + 1) % 2 ^ 32)
      × AllShort (putch c b).puts
      × (all_sent (putch c b) ≡ all_sent b ++ (c % 256 ∷ []))
unfolding putch flush all_sent
putch_lem c b h short = elim (Bool-cases (b.idx + 1 == 255)) [
  | inl full ↦ rw full (
    omega arith,
    refl,
    (omega (arith, full_length full), short),
    append_nil (sent b.puts ++ chars_from (store b.idx (c % 256) b.chars) 0 (b.idx + 1)) ∙ one_more,
  )
  | inr room ↦ rw room (ground arith, refl, short, one_more)
]
  where
    one_more :
        sent b.puts ++ chars_from (store b.idx (c % 256) b.chars) 0 (b.idx + 1)
        ≡ (sent b.puts ++ chars_from b.chars 0 b.idx) ++ (c % 256 ∷ [])
    one_more =
        let k : b.idx + 1 ≡ suc b.idx = omega arith in
        ap (λ n. sent b.puts ++ chars_from (store b.idx (c % 256) b.chars) 0 n) k
        ∙ ap (λ l. sent b.puts ++ l)
            (chars_from-store b.chars (c % 256) b.idx 0 b.idx (omega arith))
        ∙ sym (append_assoc (sent b.puts) (chars_from b.chars 0 b.idx) (c % 256 ∷ []))

    full_length :
        (b.idx + 1 == 255) ≡ true
        → length (chars_from (store b.idx (c % 256) b.chars) 0 (b.idx + 1)) ≤ 255
    full_length full =
        ground (arith, length-chars_from (store b.idx (c % 256) b.chars) 0 (b.idx + 1))

putch_all_lem :
    (cs : List ℕ) (b : PrintBuf)
    → b.idx < 255
    → AllShort b.puts
    → b.total + length cs < 2 ^ 32
    → ((putch_all cs b).idx < 255)
      × ((putch_all cs b).total ≡ b.total + length cs)
      × AllShort (putch_all cs b).puts
      × (all_sent (putch_all cs b) ≡ all_sent b ++ as_bytes cs)
unfolding putch_all
putch_all_lem [] b h short fits = (h, omega arith, short, sym (append_nil (all_sent b)))
putch_all_lem (c ∷ cs) b h short fits =
    let one = putch_lem c b h short in
    let rest = putch_all_lem cs (putch c b) one.0 one.2 (omega (arith, one.1)) in
    (
      rest.0,
      omega (arith, one.1, rest.1),
      rest.2,
      rest.3
          ∙ ap (λ l. l ++ as_bytes cs) one.3
          ∙ append_assoc (all_sent b) (c % 256 ∷ []) (as_bytes cs),
    )

-- For a text of less than 2 ^ 31 characters, the strings that the user library's vcprintf hands
-- to sys_cputs make up the text, as bytes; each is at most 255 long, and the result is the
-- text's length.
pub vcprintf_lem :
    (text : List ℕ) (garbage : ℕ → ℕ)
    → length text < 2 ^ 31
    → ((vcprintf text garbage).0 ≡ length text)
      × (sent (vcprintf text garbage).1 ≡ as_bytes text)
      × AllShort (vcprintf text garbage).1
unfolding vcprintf flush all_sent
vcprintf_lem text garbage small =
    let b = putch_all text (record { idx = 0; total = 0; chars = garbage; puts = [] }) in
    let r =
      putch_all_lem text (record { idx = 0; total = 0; chars = garbage; puts = [] }) (omega arith)
        tt (omega (arith, small)) in
    (omega (arith, r.1), r.3, (omega (arith, length-chars_from b.chars 0 b.idx, r.0), r.2))
