-- ===== src/SelfTest/Mappings.antt =====
-- What check_va2pa of kern/pmap.c, and a loop of its tests over a region, tell about the page tables.
use kp.Base.{
  ℕ, zero, suc, ◌+◌, ◌-◌, ◌*◌, ◌%◌, ◌^◌, ◌<◌, ◌≤◌, ◌≡◌, refl, ◌∙◌, subst, ltb, Bool, true, false,
  Option, none, some, arith, inl, inr, Bool-cases, ==_iff,
}
use kp.Run.{ok, Cmd, and_then-ok}
use kp.Words.{add64, has_bit, entry_frame, pml4_index, pdpt_index, page_dir_index, page_table_index}
use kp.Pages.{Memory}
use kp.PageTable.{Slot, slot, entry_at, va2pa_level, check_va2pa}
use kp.PageTable.Walk.{Leads, entry_cases, table_of-Leads}
use kp.SelfTest.{assert}
use kp.SelfTest.Tables.{same_address, assert_maps, assert_region}

-- Present entries lead from the top table to a present entry with the address `pa`.
pub record Maps (m : Memory) (pml4 va pa : ℕ) : Type 0 where
  pub pdpt : ℕ
  pub dir : ℕ
  pub table : ℕ
  pub to_pdpt : Leads m (slot pml4 (pml4_index va)) pdpt
  pub to_dir : Leads m (slot pdpt (pdpt_index va)) dir
  pub to_table : Leads m (slot dir (page_dir_index va)) table
  pub present : has_bit (entry_at m (slot table (page_table_index va))) 0 ≡ true
  pub address : entry_frame (entry_at m (slot table (page_table_index va))) * 4096 ≡ pa

-- An assert that returns holds.
pub assert-ok : (b : Bool) {m m' : Memory} → assert b m ≡ ok tt m' → (b ≡ true) × (m' ≡ m)
assert-ok false e = cc
assert-ok true e = (refl, cc)

module _ (m : Memory) where
  -- A level of the walk that finds something goes through a present entry.
  va2pa_level-some :
      (s : Slot) (next : ℕ → Cmd Memory (Option ℕ)) {pa : ℕ} {m' : Memory}
      → va2pa_level s next m ≡ ok (some pa) m'
      → (f : ℕ) × Leads m s f × (next f m ≡ ok (some pa) m')
  unfolding va2pa_level
  va2pa_level-some s next e = elim (entry_cases m s) [
    | inl n ↦ absurd (ground (arith, e))
    | inr (inl (p, t)) ↦ absurd (ground (arith, e, p, t))
    | inr (inr (f, l)) ↦ (f, l, rw (l.present, table_of-Leads m s f l) at e)
  ]

  -- The walk changes nothing.
  va2pa_level-same :
      (s : Slot) (next : ℕ → Cmd Memory (Option ℕ)) {r : Option ℕ} {m' : Memory}
      → va2pa_level s next m ≡ ok r m'
      → ((f : ℕ) → next f m ≡ ok r m' → m' ≡ m)
      → m' ≡ m
  unfolding va2pa_level
  va2pa_level-same s next {r} {m'} e rest = elim (entry_cases m s) [
    | inl n ↦ let here : ok none m ≡ ok r m' = rw n at e in cc
    | inr (inl (p, t)) ↦ absurd (ground (arith, e, p, t))
    | inr (inr (f, l)) ↦ rest f (rw (l.present, table_of-Leads m s f l) at e)
  ]

  pub check_va2pa-same :
      (pml4 va : ℕ) {r : Option ℕ} {m' : Memory} → check_va2pa pml4 va m ≡ ok r m' → m' ≡ m
  unfolding check_va2pa
  check_va2pa-same pml4 va {r} {m'} e = va2pa_level-same (slot pml4 (pml4_index va)) _ e λ pdpt e.
      va2pa_level-same (slot pdpt (pdpt_index va)) _ e λ dir e.
        va2pa_level-same (slot dir (page_dir_index va)) _ e λ table e.
          elim (Bool-cases (has_bit (entry_at m (slot table (page_table_index va))) 0)) [
            | inl t ↦
                let here : ok
                      (some (entry_frame (entry_at m (slot table (page_table_index va))) * 4096)) m
                    ≡ ok r m' =
                  rw t at e in
                cc
            | inr t ↦ let here : ok none m ≡ ok r m' = rw t at e in cc
          ]

  pub check_va2pa-Maps :
      (pml4 va : ℕ) {pa : ℕ} {m' : Memory}
      → check_va2pa pml4 va m ≡ ok (some pa) m'
      → (m' ≡ m) × Maps m pml4 va pa
  unfolding check_va2pa
  check_va2pa-Maps pml4 va {pa} {m'} e =
      let (pdpt, l, e) = va2pa_level-some (slot pml4 (pml4_index va)) _ e in
      let (dir, l', e) = va2pa_level-some (slot pdpt (pdpt_index va)) _ e in
      let (table, l'', e) = va2pa_level-some (slot dir (page_dir_index va)) _ e in
      elim (Bool-cases (has_bit (entry_at m (slot table (page_table_index va))) 0)) [
        | inr n ↦ absurd (ground (arith, e))
        | inl p ↦
            let found : ok
                  (some (entry_frame (entry_at m (slot table (page_table_index va))) * 4096)) m
                ≡ ok (some pa) m' =
              rw p at e in
            (
              cc,
              record {
                pdpt = pdpt;
                dir = dir;
                table = table;
                to_pdpt = l;
                to_dir = l';
                to_table = l'';
                present = p;
                address = cc;
              },
            )
      ]

  assert_maps-Maps :
      (pml4 va pa : ℕ) {m' : Memory}
      → assert_maps pml4 va pa m ≡ ok tt m'
      → (m' ≡ m) × Maps m pml4 va pa
  unfolding assert_maps
  assert_maps-Maps pml4 va pa {m'} e =
      let (a, s, run, e') = and_then-ok (check_va2pa pml4 va m) _ e in
      go a s run (assert-ok (same_address a pa) e')
    where
      go :
          (a : Option ℕ) (s : Memory)
          → check_va2pa pml4 va m ≡ ok a s
          → (same_address a pa ≡ true) × (m' ≡ s)
          → (m' ≡ m) × Maps m pml4 va pa
      go none s run e' = cc
      go (some a) s run (t, same) =
          let (kept, maps) = check_va2pa-Maps pml4 va run in
          (same ∙ kept, subst (λ (x : ℕ). Maps m pml4 va x) ((==_iff a pa).0 t) maps)

-- The pages of a region from offset `i` on are mapped in a row.
abbrev pub Row : Memory → ℕ → ℕ → ℕ → ℕ → ℕ → Type 0
Row m pml4 va pa i limit =
    (k : ℕ) → i + k * 4096 < limit → Maps m pml4 (add64 va (i + k * 4096)) (add64 pa (i + k * 4096))

step_Row :
    {m : Memory} (pml4 va pa i limit : ℕ)
    → Maps m pml4 (add64 va i) (add64 pa i)
    → Row m pml4 va pa (i + 4096) limit
    → Row m pml4 va pa i limit
step_Row {m} pml4 va pa i limit first rest zero h =
    subst (λ (o : ℕ). Maps m pml4 (add64 va o) (add64 pa o)) (omega arith) first
step_Row {m} pml4 va pa i limit first rest (suc k) h =
    subst (λ (o : ℕ). Maps m pml4 (add64 va o) (add64 pa o)) (omega arith) (rest k (omega arith))

-- A test of a region that returns finds a row, and changes nothing.
pub assert_region-Row :
    (left pml4 va pa i limit : ℕ) {m m' : Memory}
    → limit ≤ 2 ^ 32 - 4096
    → assert_region left pml4 va pa i limit m ≡ ok tt m'
    → (m' ≡ m) × Row m pml4 va pa i limit
unfolding assert_region
assert_region-Row zero pml4 va pa i limit {m} {m'} b e = elim (Bool-cases (ltb i limit)) [
  | inl t ↦ absurd (ground (arith, e))
  | inr t ↦ let same : ok tt m ≡ ok tt m' = rw t at e in (cc, λ k h. absurd (ground arith))
]
assert_region-Row (suc left) pml4 va pa i limit {m} {m'} b e = elim (Bool-cases (ltb i limit)) [
  | inr t ↦ let same : ok tt m ≡ ok tt m' = rw t at e in (cc, λ k h. absurd (ground arith))
  | inl t ↦
      let (_, s, run, e') =
        and_then-ok (assert_maps pml4 (add64 va i) (add64 pa i) m) _ (rw t at e) in
      let (same, maps) = assert_maps-Maps m pml4 (add64 va i) (add64 pa i) run in
      let next : (i + 4096) % 2 ^ 32 ≡ i + 4096 = ground arith in
      let (same', row) =
        assert_region-Row left pml4 va pa (i + 4096) limit b (rw (next, same) at e') in
      (same', step_Row pml4 va pa i limit maps row)
]
