-- ===== src/Console/Input/Receive.antt =====
-- Characters that the devices deliver arrive in order, and cons_getc gives the first one.
use kp.Base.{
  ℕ, zero, suc, ◌<◌, ◌≡◌, refl, sym, ap, subst, ◌∙◌, ◌==◌, Bool, true, false, not, ◌&&◌,
  if◌then◌else◌, inl, inr, Option, none, some, bit_or, arith, Bool-cases, List, [], ◌∷◌,
}
use Prim.Native.Nat.{bit_and}
use kp.Run.{Run, ok}
use kp.Pages.FreeList.Lists.{length}
use kp.Devices.{Ports}
use kp.Words.{has_bit}
use kp.Console.{Io, input, output}
use kp.Console.Cursor.{put_text-Within}
use kp.Console.Keyboard.{
  kbd_proc_data, scan_code, key_pressed, reboot_keys, rebooting, key_delete, clear_bits, e0_escape,
  shiftcode, shift_pressed, key_char,
}
use kp.Console.Buffer.{ring_get}
use kp.Console.Buffer.Queue.{Waits, queue_put, queue_get, ring_put_lem, ring_get_lem}
use kp.Console.Input.{
  stash, cons_intr, take_char, serial_proc_data, serial_intr, kbd_intr, cons_getc,
}

-- The queue after characters of a device; 0 is no character.
abbrev pub queue_all : List ℕ → List ℕ → List ℕ
queue_all [] q = q
queue_all (c ∷ cs) q = queue_all cs (if c == 0 then q else queue_put c q)

module _ {D : Type 0} where
  -- The device answers with these characters and then has nothing more.
  abbrev pub Delivers : (Io D → Option ℕ × Io D) → List ℕ → Io D → Io D → Type 0
  Delivers proc [] s u = proc s ≡ (none, u)
  Delivers proc (c ∷ cs) s u = (t : Io D) × (proc s ≡ (some c, t)) × Delivers proc cs (stash c t) u

  -- The input buffer is left alone, and the cursor in its bounds.
  record Keeps (s t : Io D) : Type 0 where
    same_cons : t.cons ≡ s.cons
    position : t.crt_pos < 2000

  stash-Waits :
      (c : ℕ) (t : Io D) (q : List ℕ)
      → Waits t.cons q
      → Waits (stash c t).cons (if c == 0 then q else queue_put c q)
  unfolding stash
  stash-Waits c t q w = elim (Bool-cases (c == 0)) [
    | inl e ↦ rw e w
    | inr e ↦ rw e (ring_put_lem c t.cons q w)
  ]

  stash_cursor : (c : ℕ) (t : Io D) → (stash c t).crt_pos ≡ t.crt_pos
  unfolding stash
  stash_cursor c t = elim (Bool-cases (c == 0)) [ inl e ↦ rw e refl | inr e ↦ rw e refl ]

  -- One turn of the loop.
  cons_intr_turn :
      (proc : Io D → Option ℕ × Io D) (fuel : ℕ) (s : Io D) (r : Option ℕ × Io D)
      → proc s ≡ r
      → cons_intr (suc fuel) proc s ≡ elim r.0 as (λ _. Run (Io D) (Unit {0})) [
        | none ↦ ok tt r.1
        | some c ↦ cons_intr fuel proc (stash c r.1)
      ]
  unfolding cons_intr
  cons_intr_turn proc fuel s r e =
      ap
        (λ (r : Option ℕ × Io D). elim r.0 as (λ _. Run (Io D) (Unit {0})) [
          | none ↦ ok tt r.1
          | some c ↦ cons_intr fuel proc (stash c r.1)
        ])
        e

  cons_intr_lem :
      (proc : Io D → Option ℕ × Io D) (cs : List ℕ) (fuel : ℕ) (s u : Io D) (q : List ℕ)
      → ((t : Io D) → t.crt_pos < 2000 → Keeps t (proc t).1)
      → Delivers proc cs s u
      → length cs < fuel
      → s.crt_pos < 2000
      → Waits s.cons q
      → (cons_intr fuel proc s ≡ ok tt u) × Waits u.cons (queue_all cs q) × (u.crt_pos < 2000)
  unfolding cons_intr
  cons_intr_lem proc cs zero s u q keeps d f h w = absurd (omega (arith, f))
  cons_intr_lem proc [] (suc fuel) s u q keeps d f h w =
      let k : Keeps s u = subst (λ r. Keeps s r.1) d (keeps s h) in
      (
        cons_intr_turn proc fuel s (none, u) d,
        subst (λ r. Waits r q) (sym k.same_cons) w,
        k.position,
      )
  cons_intr_lem proc (c ∷ cs) (suc fuel) s u q keeps d f h w =
      let t = d.0 in
      let k : Keeps s t = subst (λ r. Keeps s r.1) d.1 (keeps s h) in
      let r =
        cons_intr_lem proc cs fuel (stash c t) u (if c == 0 then q else queue_put c q) keeps d.2
          (omega (arith, f)) (rw (stash_cursor c t) k.position)
          (stash-Waits c t q (subst (λ r. Waits r q) (sym k.same_cons) w)) in
      (cons_intr_turn proc fuel s (some c, t) d.1 ∙ r.0, r.1, r.2)

  choose-Keeps :
      {A : Type 0} (b : Bool) (s : Io D) (x y : A × Io D)
      → Keeps s x.1
      → Keeps s y.1
      → Keeps s (if b then x else y).1
  choose-Keeps true s x y p q = p
  choose-Keeps false s x y p q = q

module _ {D : Type 0} (ports : Ports D) where
  input-Keeps : (port : ℕ) (s : Io D) → s.crt_pos < 2000 → Keeps s (input ports port s).1
  unfolding input
  input-Keeps port s h = record { same_cons = refl; position = h }

  serial_proc_data-Keeps : (s : Io D) → s.crt_pos < 2000 → Keeps s (serial_proc_data ports s).1
  unfolding serial_proc_data
  serial_proc_data-Keeps s h =
      let r = input ports 1021 s in
      let t = input ports 1016 r.1 in
      let p = input-Keeps 1021 s h in
      let q = input-Keeps 1016 r.1 p.position in
      choose-Keeps (not (has_bit r.0 0)) s (none, r.1) (some t.0, t.1) p
        (record { same_cons = q.same_cons ∙ p.same_cons; position = q.position })

  reboot_keys-Keeps : (c : ℕ) (s : Io D) → s.crt_pos < 2000 → Keeps s (reboot_keys ports c s)
  unfolding reboot_keys output
  reboot_keys-Keeps c s h =
      elim (Bool-cases (has_bit s.shift 1 && has_bit s.shift 2 && c == key_delete)) [
        | inl e ↦
            let p = put_text-Within ports rebooting s h in
            rw e (record { same_cons = p.rows.same_cons; position = p.position })
        | inr e ↦ rw e (record { same_cons = refl; position = h })
      ]

  key_pressed-Keeps :
      (code : ℕ) (s : Io D) → s.crt_pos < 2000 → Keeps s (key_pressed ports code s).1
  unfolding key_pressed
  key_pressed-Keeps code s h =
      let t = record s { shift = shift_pressed s.shift code } in
      let k = reboot_keys-Keeps (key_char t.shift code) t h in
      record { same_cons = k.same_cons; position = k.position }

  scan_code-Keeps : (code : ℕ) (s : Io D) → s.crt_pos < 2000 → Keeps s (scan_code ports code s).1
  unfolding scan_code
  scan_code-Keeps code s h =
      let extended =
        key_pressed-Keeps (bit_or code 128) (record s { shift = clear_bits s.shift e0_escape }) h in
      choose-Keeps (code == 224) s (0, record s { shift = bit_or s.shift e0_escape })
        (if has_bit code 7
          then released s (if has_bit s.shift 6 then code else bit_and code 127)
          else pressed s code)
        (record { same_cons = refl; position = h })
        (choose-Keeps (has_bit code 7) s
          (released s (if has_bit s.shift 6 then code else bit_and code 127)) (pressed s code)
          (record { same_cons = refl; position = h })
          (choose-Keeps (has_bit s.shift 6) s
            (key_pressed ports (bit_or code 128)
              (record s { shift = clear_bits s.shift e0_escape }))
            (key_pressed ports code s)
            (record { same_cons = extended.same_cons; position = extended.position })
            (key_pressed-Keeps code s h)))
    where
      released : Io D → ℕ → ℕ × Io D
      released s k = (0, record s { shift = clear_bits s.shift (bit_or (shiftcode k) e0_escape) })

      pressed : Io D → ℕ → ℕ × Io D
      pressed s code =
          if has_bit s.shift 6
          then key_pressed ports (bit_or code 128)
              (record s { shift = clear_bits s.shift e0_escape })
          else key_pressed ports code s

  kbd_proc_data-Keeps : (s : Io D) → s.crt_pos < 2000 → Keeps s (kbd_proc_data ports s).1
  unfolding kbd_proc_data
  kbd_proc_data-Keeps s h =
      let r = input ports 100 s in
      let t = input ports 96 r.1 in
      let p = input-Keeps 100 s h in
      let q = input-Keeps 96 r.1 p.position in
      let k = scan_code-Keeps t.0 t.1 q.position in
      choose-Keeps (not (has_bit r.0 0)) s (none, r.1)
        (some (scan_code ports t.0 t.1).0, (scan_code ports t.0 t.1).1) p
        (record { same_cons = k.same_cons ∙ q.same_cons ∙ p.same_cons; position = k.position })

  -- What the serial port delivers, nothing if there is none.
  abbrev pub SerialDelivers : Bool → List ℕ → Io D → Io D → Type 0
  SerialDelivers true xs s t = Delivers (serial_proc_data ports) xs s t
  SerialDelivers false xs s t = (xs ≡ []) × (t ≡ s)

  serial_intr_lem :
      (b : Bool) (xs : List ℕ) (fuel : ℕ) (s t : Io D) (q : List ℕ)
      → s.serial_exists ≡ b
      → SerialDelivers b xs s t
      → length xs < fuel
      → s.crt_pos < 2000
      → Waits s.cons q
      → (serial_intr ports fuel s ≡ ok tt t) × Waits t.cons (queue_all xs q) × (t.crt_pos < 2000)
  unfolding serial_intr
  serial_intr_lem true xs fuel s t q e d f h w =
      let r = cons_intr_lem (serial_proc_data ports) xs fuel s t q serial_proc_data-Keeps d f h w in
      (
        ap (λ (b : Bool). if b then cons_intr fuel (serial_proc_data ports) s else ok tt s) e ∙ r.0,
        r.1,
        r.2,
      )
  serial_intr_lem false xs fuel s t q e d f h w = (
    ap (λ (b : Bool). if b then cons_intr fuel (serial_proc_data ports) s else ok tt s) e
        ∙ ap (λ v. ok tt v) (sym d.1),
    subst (λ (v : Io D). Waits v.cons (queue_all xs q)) (sym d.1) (rw d.0 w),
    subst (λ (v : Io D). v.crt_pos < 2000) (sym d.1) h,
  )

  -- Let the cursor be below 2000 and the input buffer hold q, and let the serial port, if there
  -- is one, deliver xs and then the keyboard ys before each has nothing more. Let q' be q after
  -- the nonzero characters of xs and then of ys, each as a byte, have been put at its end one by
  -- one, where a queue that already holds 511 characters loses them and the new one. Then
  -- cons_getc, with more turns for each loop than characters, returns the first character of q',
  -- or 0 if q' is empty, and the buffer keeps the rest of q'.
  pub cons_getc_lem :
      (xs ys : List ℕ) (fuel : ℕ) (s t u : Io D) (q : List ℕ)
      → s.crt_pos < 2000
      → Waits s.cons q
      → SerialDelivers s.serial_exists xs s t
      → Delivers (kbd_proc_data ports) ys t u
      → length xs < fuel
      → length ys < fuel
      → (w : Io D) × (cons_getc ports fuel s ≡ ok (queue_get (queue_all ys (queue_all xs q))).0 w)
        × Waits w.cons (queue_get (queue_all ys (queue_all xs q))).1
  unfolding cons_getc kbd_intr take_char
  cons_getc_lem xs ys fuel s t u q h w dx dy fx fy =
      let a = serial_intr_lem s.serial_exists xs fuel s t q refl dx fx h w in
      let b =
        cons_intr_lem (kbd_proc_data ports) ys fuel t u (queue_all xs q) kbd_proc_data-Keeps dy fy
          a.2 a.1 in
      let g = ring_get_lem u.cons (queue_all ys (queue_all xs q)) b.1 in
      (
        record u { cons = (ring_get u.cons).1 },
        rw (a.0, b.0) (ap (λ c. ok c (record u { cons = (ring_get u.cons).1 })) g.0),
        g.1,
      )
