-- ===== src/Console/Screen.antt =====
-- What the ports and a written cell leave of the display.
use kp.Base.{
  ℕ, zero, suc, ◌<◌, ◌≡◌, refl, ◌∙◌, ◌==◌, ltb, Bool, true, false, ◌&&◌, inl, inr, arith,
  Bool-cases,
}
use kp.Devices.{Ports}
use kp.Words.{has_bit}
use kp.Console.{
  Io, input, output, delay, wait_for, wait_limit, serial_putc, lpt_putc, write_cell, show_cursor,
}

module _ {D : Type 0} where
  -- The input buffer is the same, and only the cells of the 25 rows may differ.
  pub record InRows (s t : Io D) : Type 0 where
    pub same_display : t.crt_buf ≡ s.crt_buf
    pub same_cons : t.cons ≡ s.cons
    pub outside : (b i : ℕ) → (b == s.crt_buf && ltb i 2000) ≡ false → t.video b i ≡ s.video b i

  pub InRows-refl : (s : Io D) → InRows s s
  InRows-refl s = record { same_display = refl; same_cons = refl; outside = λ b i h. refl }

  pub InRows-trans : (s t u : Io D) → InRows s t → InRows t u → InRows s u
  InRows-trans s t u p q = record {
    same_display = q.same_display ∙ p.same_display;
    same_cons = q.same_cons ∙ p.same_cons;
    outside = λ b i h. q.outside b i (rw p.same_display h) ∙ p.outside b i h;
  }

  -- What the ports cannot change.
  pub record Shows (s t : Io D) : Type 0 where
    pub rows : InRows s t
    pub cursor : t.crt_pos ≡ s.crt_pos

  pub Shows-trans : (s t u : Io D) → Shows s t → Shows t u → Shows s u
  Shows-trans s t u p q = record {
    rows = InRows-trans s t u p.rows q.rows;
    cursor = q.cursor ∙ p.cursor;
  }

module _ {D : Type 0} (ports : Ports D) where
  pub output-Shows : (port v : ℕ) (s : Io D) → Shows s (output ports port v s)
  unfolding output
  output-Shows port v s = record {
    rows = record { same_display = refl; same_cons = refl; outside = λ b i h. refl };
    cursor = refl;
  }

  pub input-Shows : (port : ℕ) (s : Io D) → Shows s (input ports port s).1
  unfolding input
  input-Shows port s = record {
    rows = record { same_display = refl; same_cons = refl; outside = λ b i h. refl };
    cursor = refl;
  }

  pub delay-Shows : (s : Io D) → Shows s (delay ports s)
  unfolding delay input
  delay-Shows s = record {
    rows = record { same_display = refl; same_cons = refl; outside = λ b i h. refl };
    cursor = refl;
  }

  pub wait_for-Shows : (port bit n : ℕ) (s : Io D) → Shows s (wait_for ports port bit n s)
  unfolding wait_for
  wait_for-Shows port bit zero s = input-Shows port s
  wait_for-Shows port bit (suc n) s =
      turn (wait_for-Shows port bit n (delay ports (input ports port s).1))
        (has_bit (input ports port s).0 bit)
    where
      r : Io D
      r = (input ports port s).1

      turn :
          Shows (delay ports r) (wait_for ports port bit n (delay ports r))
          → (b : Bool)
          → Shows s (elim b as (λ _. Io D) [
            | true ↦ r
            | false ↦ wait_for ports port bit n (delay ports r)
          ])
      turn more true = input-Shows port s
      turn more false =
          Shows-trans s (delay ports r) (wait_for ports port bit n (delay ports r))
            (Shows-trans s r (delay ports r) (input-Shows port s) (delay-Shows r)) more

  -- A wait and a write.
  pub wait_output-Shows :
      (port bit n out v : ℕ) (s : Io D) → Shows s (output ports out v (wait_for ports port bit n s))
  wait_output-Shows port bit n out v s =
      let t = wait_for ports port bit n s in
      Shows-trans s t (output ports out v t) (wait_for-Shows port bit n s) (output-Shows out v t)

  pub ports-Shows : (c : ℕ) (s : Io D) → Shows s (lpt_putc ports c (serial_putc ports c s))
  unfolding lpt_putc serial_putc
  ports-Shows c s =
      let t = output ports 1016 c (wait_for ports 1021 5 wait_limit s) in
      let u = output ports 888 c (wait_for ports 889 7 wait_limit t) in
      let w = output ports 890 13 u in
      Shows-trans s w (output ports 890 8 w)
        (Shows-trans s u w
          (Shows-trans s t u (wait_output-Shows 1021 5 wait_limit 1016 c s)
            (wait_output-Shows 889 7 wait_limit 888 c t))
          (output-Shows 890 13 u))
        (output-Shows 890 8 w)

  pub write_cell-Shows :
      (i v : ℕ) (s : Io D) → i < 2000 → Shows s (write_cell ports s.crt_buf i v s)
  unfolding write_cell
  write_cell-Shows i v s h = elim (Bool-cases (ports.has_display s.crt_buf)) [
    | inl e ↦ rw e (record {
      rows = record { same_display = refl; same_cons = refl; outside = λ b j g. ground arith };
      cursor = refl;
    })
    | inr e ↦ rw e (record { rows = InRows-refl s; cursor = refl })
  ]

  pub show_cursor-Shows : (s : Io D) → Shows s (show_cursor ports s)
  unfolding show_cursor output
  show_cursor-Shows s = record {
    rows = record { same_display = refl; same_cons = refl; outside = λ b i h. refl };
    cursor = refl;
  }
