-- ===== src/Console/Cursor.antt =====
-- The display stays in its bounds: where the cursor is and which cells are written.
use kp.Base.{
  ℕ, zero, suc, ◌+◌, ◌-◌, ◌*◌, ◌/◌, ◌%◌, ◌^◌, ◌<◌, ◌≤◌, refl, ◌==◌, leb, ltb, inl, inr, arith,
  Bool-cases, List, [], ◌∷◌,
}
use kp.Devices.{Ports}
use kp.Console.{
  Io, serial_putc, lpt_putc, write_cell, backspace, carriage_return, line_feed, plain, cga_switch,
  move_rows, blank_cells, scroll, show_cursor, cga_putc, five, cons_putc, cputchar, attributed,
  put_text,
}
use kp.Console.Screen.{
  InRows, InRows-refl, InRows-trans, Shows, Shows-trans, ports-Shows, write_cell-Shows,
  show_cursor-Shows,
}

module _ {D : Type 0} (ports : Ports D) where
  -- What one character may do before the display scrolls, and after it.
  pub record Within (bound : ℕ) (s t : Io D) : Type 0 where
    pub rows : InRows s t
    pub position : t.crt_pos < bound

  Shows-Within : (n : ℕ) (s t : Io D) → s.crt_pos < n → Shows s t → Within n s t
  Shows-Within n s t h p = record { rows = p.rows; position = rw p.cursor h }

  Within-trans : (m n : ℕ) (s t u : Io D) → Within m s t → Within n t u → Within n s u
  Within-trans m n s t u p q = record {
    rows = InRows-trans s t u p.rows q.rows;
    position = q.position;
  }

  moved : (n p : ℕ) (s t : Io D) → Shows s t → p < n → Within n s (record t { crt_pos = p })
  moved n p s t k h = record {
    rows = record {
      same_display = k.rows.same_display;
      same_cons = k.rows.same_cons;
      outside = k.rows.outside;
    };
    position = h;
  }

  backspace-Within : (c : ℕ) (s : Io D) → s.crt_pos < 2000 → Within 2080 s (backspace ports c s)
  unfolding backspace
  backspace-Within c s h = elim (Bool-cases (ltb 0 s.crt_pos)) [
    | inl e ↦
        let u = record s { crt_pos = s.crt_pos - 1 } in
        let k = write_cell-Shows ports (s.crt_pos - 1) (c / 256 * 256 + 32) u (omega (arith, h)) in
        rw e (record {
          rows = record {
            same_display = k.rows.same_display;
            same_cons = k.rows.same_cons;
            outside = k.rows.outside;
          };
          position = omega (arith, h, k.cursor);
        })
    | inr e ↦ rw e (record { rows = InRows-refl s; position = omega (arith, h) })
  ]

  line_feed-Within : (s : Io D) → s.crt_pos < 2000 → Within 2080 s (line_feed s)
  unfolding line_feed carriage_return
  line_feed-Within s h =
      moved 2080 ((s.crt_pos + 80) % 2 ^ 16 - (s.crt_pos + 80) % 2 ^ 16 % 80) s s
        (record { rows = InRows-refl s; cursor = refl }) (omega (arith, h))

  carriage_return-Within : (s : Io D) → s.crt_pos < 2000 → Within 2080 s (carriage_return s)
  unfolding carriage_return
  carriage_return-Within s h =
      moved 2080 (s.crt_pos - s.crt_pos % 80) s s (record { rows = InRows-refl s; cursor = refl })
        (omega (arith, h))

  plain-Within : (c : ℕ) (s : Io D) → s.crt_pos < 2000 → Within 2080 s (plain ports c s)
  unfolding plain
  plain-Within c s h =
      moved 2080 ((s.crt_pos + 1) % 2 ^ 16) s (write_cell ports s.crt_buf s.crt_pos c s)
        (write_cell-Shows ports s.crt_pos c s h) (omega (arith, h))

  cga_switch-Within :
      (tab : Io D → Io D) (c : ℕ) (s : Io D)
      → ((t : Io D) → t.crt_pos < 2000 → Within 2000 t (tab t))
      → s.crt_pos < 2000
      → Within 2080 s (cga_switch ports tab c s)
  unfolding cga_switch
  cga_switch-Within tab c s k h = elim (Bool-cases (c % 256 == 8)) [
    | inl e ↦ rw e (backspace-Within c s h)
    | inr e ↦ rw e (elim (Bool-cases (c % 256 == 10)) [
      | inl f ↦ rw f (line_feed-Within s h)
      | inr f ↦ rw f (elim (Bool-cases (c % 256 == 13)) [
        | inl g ↦ rw g (carriage_return-Within s h)
        | inr g ↦ rw g (elim (Bool-cases (c % 256 == 9)) [
          | inl j ↦ rw j (wider (tab s) (k s h))
          | inr j ↦ rw j (plain-Within c s h)
        ])
      ])
    ])
  ]
    where
      wider : (t : Io D) → Within 2000 s t → Within 2080 s t
      wider t w = record { rows = w.rows; position = omega (arith, w.position) }

  blank_cells-Shows : (i n : ℕ) (s : Io D) → i + n ≤ 2000 → Shows s (blank_cells ports i n s)
  unfolding blank_cells
  blank_cells-Shows i zero s h = record { rows = InRows-refl s; cursor = refl }
  blank_cells-Shows i (suc n) s h =
      let t = write_cell ports s.crt_buf i 1824 s in
      Shows-trans s t (blank_cells ports (i + 1) n t)
        (write_cell-Shows ports i 1824 s (omega (arith, h)))
        (blank_cells-Shows (i + 1) n t (omega (arith, h)))

  move_rows-Shows : (s : Io D) → Shows s (move_rows ports s)
  unfolding move_rows
  move_rows-Shows s = elim (Bool-cases (ports.has_display s.crt_buf)) [
    | inl e ↦ rw e (record {
      rows = record { same_display = refl; same_cons = refl; outside = λ b j g. ground arith };
      cursor = refl;
    })
    | inr e ↦ rw e (record { rows = InRows-refl s; cursor = refl })
  ]

  scroll-Within : (s : Io D) → s.crt_pos < 2080 → Within 2000 s (scroll ports s)
  unfolding scroll
  scroll-Within s h = elim (Bool-cases (leb 2000 s.crt_pos)) [
    | inl e ↦
        let t = move_rows ports s in
        let u = blank_cells ports 1920 80 t in
        let k = Shows-trans s t u (move_rows-Shows s) (blank_cells-Shows 1920 80 t (omega arith)) in
        rw e (moved 2000 ((u.crt_pos + 2 ^ 16 - 80) % 2 ^ 16) s u k (ground (arith, h, k.cursor)))
    | inr e ↦ rw e (record { rows = InRows-refl s; position = ground arith })
  ]

  cga_putc-Within :
      (tab : Io D → Io D) (c : ℕ) (s : Io D)
      → ((t : Io D) → t.crt_pos < 2000 → Within 2000 t (tab t))
      → s.crt_pos < 2000
      → Within 2000 s (cga_putc ports tab c s)
  unfolding cga_putc
  cga_putc-Within tab c s k h =
      let t = cga_switch ports tab (attributed c) s in
      let p = cga_switch-Within tab (attributed c) s k h in
      let q = scroll-Within t p.position in
      let u = scroll ports t in
      Within-trans 2000 2000 s u (show_cursor ports u) (Within-trans 2080 2000 s t u p q)
        (Shows-Within 2000 u (show_cursor ports u) q.position (show_cursor-Shows ports u))

  five-Within :
      (f : Io D → Io D) (s : Io D)
      → ((t : Io D) → t.crt_pos < 2000 → Within 2000 t (f t))
      → s.crt_pos < 2000
      → Within 2000 s (five f s)
  five-Within f s k h =
      let twice =
        λ (t : Io D) (p : Within 2000 s t). Within-trans 2000 2000 s t (f t) p (k t p.position) in
      twice (f (f (f (f s)))) (twice (f (f (f s))) (twice (f (f s)) (twice (f s) (k s h))))

  cons_putc-Within :
      (depth c : ℕ) (s : Io D) → s.crt_pos < 2000 → Within 2000 s (cons_putc ports depth c s)
  unfolding cons_putc
  cons_putc-Within zero c s h = record { rows = InRows-refl s; position = h }
  cons_putc-Within (suc depth) c s h =
      let t = lpt_putc ports c (serial_putc ports c s) in
      let p = Shows-Within 2000 s t h (ports-Shows ports c s) in
      let f = cons_putc ports depth 32 in
      Within-trans 2000 2000 s t (cga_putc ports (five f) c t) p (
        cga_putc-Within (five f) c t (λ u g. five-Within f u (cons_putc-Within depth 32) g)
          p.position)

  pub put_text-Within :
      (cs : List ℕ) (s : Io D) → s.crt_pos < 2000 → Within 2000 s (put_text ports cs s)
  unfolding put_text cputchar
  put_text-Within [] s h = record { rows = InRows-refl s; position = h }
  put_text-Within (c ∷ cs) s h =
      let p = cons_putc-Within 2 c s h in
      let t = cputchar ports c s in
      Within-trans 2000 2000 s t (put_text ports cs t) p (put_text-Within cs t p.position)

  -- If the cursor is below 2000, then after any text is put on the console it is below 2000
  -- again, the input buffer is unchanged, and only the 2000 cells of the display's buffer may
  -- have changed.
  pub put_text-bounds :
      (cs : List ℕ) (s : Io D)
      → s.crt_pos < 2000
      → ((put_text ports cs s).crt_pos < 2000) × InRows s (put_text ports cs s)
  put_text-bounds cs s h = let p = put_text-Within cs s h in (p.position, p.rows)
