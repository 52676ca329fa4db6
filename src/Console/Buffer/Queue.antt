-- ===== src/Console/Buffer/Queue.antt =====
-- The console's input buffer against a queue of characters.
use kp.Base.{
  ℕ, suc, ◌+◌, ◌-◌, ◌%◌, ◌<◌, ◌≡◌, refl, sym, ap, ◌∙◌, ◌==◌, true, false, if◌then◌else◌, inl, inr,
  List, [], ◌∷◌, ◌++◌, arith, Bool-cases,
}
use kp.Pages.FreeList.Lists.{length}
use kp.Console.Buffer.{Ring, next_index, ring_put, ring_get}

-- What the buffer promises: a queue, which is lost when it gets as long as the buffer.
abbrev pub queue_put : ℕ → List ℕ → List ℕ
queue_put c q = if length q == 511 then [] else q ++ (c % 256 ∷ [])

abbrev pub queue_get : List ℕ → ℕ × List ℕ
queue_get [] = (0, [])
queue_get (c ∷ q) = (c, q)

-- The characters of `q` stand in the buffer from index `i` on, up to `j`.
abbrev pub Stands : (ℕ → ℕ) → ℕ → ℕ → List ℕ → Type 0
Stands buf i j [] = i ≡ j
Stands buf i j (c ∷ q) = (buf i ≡ c) × Stands buf (next_index i) j q

pub record Waits (r : Ring) (q : List ℕ) : Type 0 where
  pub stands : Stands r.buf r.rpos r.wpos q
  pub short : length q < 512
  pub read_index : r.rpos < 512
  pub write_index : r.wpos < 512

pub data Request : Type 0 where
  put : ℕ → Request
  take : Request

-- The characters that a run of requests takes out.
abbrev pub ring_run : List Request → Ring → List ℕ
ring_run [] r = []
ring_run (put c ∷ rs) r = ring_run rs (ring_put c r)
ring_run (take ∷ rs) r = let t = ring_get r in t.0 ∷ ring_run rs t.1

abbrev pub queue_run : List Request → List ℕ → List ℕ
queue_run [] q = []
queue_run (put c ∷ rs) q = queue_run rs (queue_put c q)
queue_run (take ∷ rs) q = let t = queue_get q in t.0 ∷ queue_run rs t.1

next_below : (i : ℕ) → i < 512 → next_index i < 512
next_below i h = ground arith

-- The distance that is left to the end of the queue, once round at most.
apart : ℕ → ℕ → ℕ
apart i j = (j + 512 - i) % 512

one_before : (i j n : ℕ) → i < 512 → suc n < 512 → apart (next_index i) j ≡ n → apart i j ≡ suc n
unfolding apart
one_before i j n h l e = elim (Bool-cases (i + 1 == 512)) [
  | inl w ↦ let e' : (j + 512 - 0) % 512 ≡ n = sym (rw w refl) ∙ e in ground arith
  | inr w ↦ let e' : (j + 512 - (i + 1)) % 512 ≡ n = sym (rw w refl) ∙ e in ground arith
]

-- The queue is empty exactly if the indices are equal.
apart_self : (i : ℕ) → i < 512 → apart i i ≡ 0
unfolding apart
apart_self i h = omega arith

Stands-apart :
    (buf : ℕ → ℕ) (i j : ℕ) (q : List ℕ)
    → Stands buf i j q
    → i < 512
    → length q < 512
    → apart i j ≡ length q
unfolding apart
Stands-apart buf i j [] s h l = omega (arith, s)
Stands-apart buf i j (c ∷ q) s h l =
    let r = Stands-apart buf (next_index i) j q s.1 (next_below i h) (omega (arith, l)) in
    one_before i j (length q) h (omega (arith, l)) r

not_at_end : (i j n : ℕ) → apart i j ≡ suc n → i < 512 → (i == j) ≡ false
unfolding apart
not_at_end i j n e h = ground arith

-- A character at the end.
Stands-put :
    (buf : ℕ → ℕ) (i j c : ℕ) (q : List ℕ)
    → Stands buf i j q
    → i < 512
    → j < 512
    → length q < 512
    → Stands (λ k. if k == j then c else buf k) i (next_index j) (q ++ (c ∷ []))
Stands-put buf i j c [] s h g l = (ground arith, ap next_index s)
Stands-put buf i j c (d ∷ q) s h g l =
    let e : (i == j) ≡ false = not_at_end i j (length q) (Stands-apart buf i j (d ∷ q) s h l) h in
    (rw e s.0, Stands-put buf (next_index i) j c q s.1 (next_below i h) g (omega (arith, l)))

length-append : (q : List ℕ) (c : ℕ) → length (q ++ (c ∷ [])) ≡ suc (length q)
length-append [] c = refl
length-append (d ∷ q) c = ap suc (length-append q c)

-- With 511 characters waiting the next one makes the indices meet.
round_trip : (i j : ℕ) → i < 512 → j < 512 → apart i j ≡ 511 → i ≡ next_index j
unfolding apart
round_trip i j h g e = ground arith

pub ring_put_lem :
    (c : ℕ) (r : Ring) (q : List ℕ) → Waits r q → Waits (ring_put c r) (queue_put c q)
unfolding ring_put
ring_put_lem c r q w = elim (Bool-cases (length q == 511)) [
  | inl full ↦ rw full (record {
    stands =
        round_trip r.rpos r.wpos w.read_index w.write_index
          (Stands-apart r.buf r.rpos r.wpos q w.stands w.read_index w.short ∙ ground arith);
    short = omega arith;
    read_index = w.read_index;
    write_index = next_below r.wpos w.write_index;
  })
  | inr room ↦ rw room (record {
    stands = Stands-put r.buf r.rpos r.wpos (c % 256) q w.stands w.read_index w.write_index w.short;
    short = ground (arith, length-append q (c % 256), w.short);
    read_index = w.read_index;
    write_index = next_below r.wpos w.write_index;
  })
]

pub ring_get_lem :
    (r : Ring) (q : List ℕ)
    → Waits r q
    → ((ring_get r).0 ≡ (queue_get q).0) × Waits (ring_get r).1 (queue_get q).1
unfolding ring_get
ring_get_lem r [] w = let e : (r.rpos == r.wpos) ≡ true = ground (arith, w.stands) in rw e (refl, w)
ring_get_lem r (c ∷ q) w =
    let e : (r.rpos == r.wpos) ≡ false =
      not_at_end r.rpos r.wpos (length q)
        (Stands-apart r.buf r.rpos r.wpos (c ∷ q) w.stands w.read_index w.short) w.read_index in
    rw e (
      w.stands.0,
      record {
        stands = w.stands.1;
        short = omega (arith, w.short);
        read_index = next_below r.rpos w.read_index;
        write_index = w.write_index;
      },
    )

-- A buffer whose indices are below 512 and that holds the characters q answers any run of
-- insertions and removals like a queue that starts with q, gives 0 when it is empty, and loses
-- all it holds when a 512th character comes.
pub ring_run_lem :
    (rs : List Request) (r : Ring) (q : List ℕ) → Waits r q → ring_run rs r ≡ queue_run rs q
ring_run_lem [] r q w = refl
ring_run_lem (put c ∷ rs) r q w =
    ring_run_lem rs (ring_put c r) (queue_put c q) (ring_put_lem c r q w)
ring_run_lem (take ∷ rs) r q w =
    let g = ring_get_lem r q w in rw (g.0, ring_run_lem rs (ring_get r).1 (queue_get q).1 g.1) refl
