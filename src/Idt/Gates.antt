-- ===== src/Idt/Gates.antt =====
-- What the table says of each vector.
use kp.Base.{
  ℕ, ◌+◌, ◌*◌, ◌/◌, ◌%◌, ◌^◌, ◌<◌, ◌≡◌, ◌⊎◌, ◌∙◌, refl, sym, ap, subst, ◌==◌, Bool, true, false,
  ◌||◌, ◌&&◌, not, leb, ltb, if◌then◌else◌, inl, inr, arith, Bool-cases, List, [], ◌∷◌,
}
use kp.Idt.{IdtEntry, Gate, gates, gate_flags, set_idt_entry, set_gates, idt_init, gdt_kcode}

-- How the processor reads an entry.
abbrev pub target : IdtEntry → ℕ
target e = e.offset_hi % 2 ^ 48 * 2 ^ 16 + e.offset_lo

abbrev pub privilege_of : IdtEntry → ℕ
privilege_of e = e.flags / 2 ^ 13 % 4

abbrev pub is_present : IdtEntry → ℕ
is_present e = e.flags / 2 ^ 15 % 2

-- The vectors that user programs may raise.
abbrev pub is_open : ℕ → Bool
is_open v = v == 3 || v == 128

-- The vectors with a handler: the exceptions 0 to 19 but for the reserved 9 and 15, and the system call.
abbrev pub is_raised : ℕ → Bool
is_raised v = (leb v 19 && not (v == 9 || v == 15)) || v == 128

abbrev pub empty_entry : IdtEntry
empty_entry = record { offset_lo = 0; sel = 0; flags = 0; offset_hi = 0; always0 = 0 }

abbrev pub is_listed : ℕ → List Gate → Bool
is_listed v [] = false
is_listed v (g ∷ gs) = v == g.vector || is_listed v gs

-- A present entry leads to its handler, and only open vectors have privilege 3.
abbrev pub IsGuarded : (ℕ → ℕ) → ℕ → IdtEntry → Type 0
IsGuarded isr v e =
    (target e ≡ isr v) × (e.sel ≡ gdt_kcode) × (privilege_of e ≡ (if is_open v then 3 else 0))

abbrev pub is_sound_flags : Gate → Bool
is_sound_flags g =
    gate_flags g / 2 ^ 13 % 4 == (if is_open g.vector then 3 else 0)
    && (gate_flags g / 2 ^ 15 % 2 == 1 && ltb (gate_flags g) (2 ^ 16))

abbrev pub is_sound : Gate → Bool
is_sound g = g.handler == g.vector && is_sound_flags g

abbrev pub all_sound : List Gate → Bool
all_sound [] = true
all_sound (g ∷ gs) = is_sound g && all_sound gs

equal_of_test : (a b : ℕ) → (a == b) ≡ true → a ≡ b
equal_of_test a b h = ground arith

below_of_test : (a b : ℕ) → ltb a b ≡ true → a < b
below_of_test a b h = ground arith

if_true : {A : Type 0} (b : Bool) (x y : A) → b ≡ true → (if b then x else y) ≡ x
if_true b x y h = rw h refl

if_false : {A : Type 0} (b : Bool) (x y : A) → b ≡ false → (if b then x else y) ≡ y
if_false b x y h = rw h refl

and_left : (a b : Bool) → (a && b) ≡ true → a ≡ true
and_left true b h = refl
and_left false b h = h

and_right : (a b : Bool) → (a && b) ≡ true → b ≡ true
and_right true b h = h
and_right false b h = absurd (cc h)

module _ (isr : ℕ → ℕ) (v : ℕ) (bound : isr v < 2 ^ 64) where
  Settled : IdtEntry → Type 0
  Settled e = (is_present e ≡ 1) × IsGuarded isr v e

  set_idt_entry-Settled :
      (g : Gate) (e : IdtEntry)
      → (v == g.vector) ≡ true
      → is_sound g ≡ true
      → Settled (set_idt_entry (isr g.handler) (gate_flags g) gdt_kcode e)
  unfolding Settled set_idt_entry
  set_idt_entry-Settled g e h sound =
      let same : v ≡ g.vector = ground arith in
      let own : v ≡ g.handler =
        same
        ∙ sym (
            equal_of_test g.handler g.vector
              (and_left (g.handler == g.vector) (is_sound_flags g) sound)) in
      let k = and_right (g.handler == g.vector) (is_sound_flags g) sound in
      let p : gate_flags g / 2 ^ 13 % 4 ≡ (if is_open g.vector then 3 else 0) =
        equal_of_test (gate_flags g / 2 ^ 13 % 4) (if is_open g.vector then 3 else 0) (
          and_left (gate_flags g / 2 ^ 13 % 4 == (if is_open g.vector then 3 else 0))
            (gate_flags g / 2 ^ 15 % 2 == 1 && ltb (gate_flags g) (2 ^ 16)) k) in
      let rest =
        and_right (gate_flags g / 2 ^ 13 % 4 == (if is_open g.vector then 3 else 0))
          (gate_flags g / 2 ^ 15 % 2 == 1 && ltb (gate_flags g) (2 ^ 16)) k in
      let q : gate_flags g / 2 ^ 15 % 2 ≡ 1 =
        equal_of_test (gate_flags g / 2 ^ 15 % 2) 1
          (and_left (gate_flags g / 2 ^ 15 % 2 == 1) (ltb (gate_flags g) (2 ^ 16)) rest) in
      let r : gate_flags g < 2 ^ 16 =
        below_of_test (gate_flags g) (2 ^ 16)
          (and_right (gate_flags g / 2 ^ 15 % 2 == 1) (ltb (gate_flags g) (2 ^ 16)) rest) in
      let f : (gate_flags g % 2 ^ 16) ≡ gate_flags g = omega (arith, r) in
      (
        ap (λ (x : ℕ). x / 2 ^ 15 % 2) f ∙ q,
        (
          rw (← own) (omega (arith, bound)),
          refl,
          ap (λ (x : ℕ). x / 2 ^ 13 % 4) f ∙ p ∙ ap (λ x. if is_open x then 3 else 0) (sym same),
        ),
      )

  -- A vector keeps its entry, or it is listed and has a sound one.
  set_gates_lem :
      (gs : List Gate) (entries : ℕ → IdtEntry)
      → all_sound gs ≡ true
      → ((is_listed v gs ≡ false) × (set_gates isr gs entries v ≡ entries v))
        ⊎ ((is_listed v gs ≡ true) × Settled (set_gates isr gs entries v))
  unfolding set_gates
  set_gates_lem [] entries k = inl (refl, refl)
  set_gates_lem (g ∷ gs) entries k =
      let next = λ (w : ℕ).
        if w == g.vector
        then set_idt_entry (isr g.handler) (gate_flags g) gdt_kcode (entries w)
        else entries w in
      elim (set_gates_lem gs next (and_right (is_sound g) (all_sound gs) k)) [
        | inr (l, s) ↦ inr (ground arith, s)
        | inl (l, e) ↦ elim (Bool-cases (v == g.vector)) [
          | inl h ↦ inr (
            ground arith,
            subst Settled
                (sym (
                  e
                  ∙ if_true (v == g.vector)
                      (set_idt_entry (isr g.handler) (gate_flags g) gdt_kcode (entries v))
                      (entries v) h))
                (set_idt_entry-Settled g (entries v) h (and_left (is_sound g) (all_sound gs) k)),
          )
          | inr h ↦ inl (
            ground arith,
            e
                ∙ if_false (v == g.vector)
                    (set_idt_entry (isr g.handler) (gate_flags g) gdt_kcode (entries v)) (entries v)
                    h,
          )
        ]
      ]

  listed_lem : is_listed v gates ≡ is_raised v
  listed_lem = ground arith

  entry_facts :
      (gs : List Gate) (e : IdtEntry)
      → (is_listed v gs ≡ false → is_open v ≡ false)
      → ((is_listed v gs ≡ false) × (e ≡ empty_entry)) ⊎ ((is_listed v gs ≡ true) × Settled e)
      → (is_present e ≡ (if is_listed v gs then 1 else 0))
        × (target e ≡ (if is_listed v gs then isr v else 0))
        × (privilege_of e ≡ (if is_open v then 3 else 0))
  unfolding Settled
  entry_facts gs e o (inl (l, h)) = rw (l, h, o l) (refl, refl, refl)
  entry_facts gs e o (inr (l, s)) = rw l (s.0, s.1.0, s.1.2)

  -- After idt_init on an empty table, with the handler isrV of vector v below 2 ^ 64, the entry
  -- of v is present exactly if v is one of the exceptions 0 to 19, but for 9 and 15, or 128, it
  -- then leads to isrV, and user programs may raise v only if it is the breakpoint, 3, or the
  -- system call, 128.
  pub idt_init_lem :
      (is_present (idt_init isr (λ _. empty_entry) v) ≡ (if is_raised v then 1 else 0))
      × (target (idt_init isr (λ _. empty_entry) v) ≡ (if is_raised v then isr v else 0))
      × (privilege_of (idt_init isr (λ _. empty_entry) v) ≡ (if is_open v then 3 else 0))
  unfolding idt_init
  idt_init_lem = rw (← listed_lem) (
      entry_facts gates (set_gates isr gates (λ _. empty_entry) v) (λ l. ground arith)
        (set_gates_lem gates (λ _. empty_entry) refl))
