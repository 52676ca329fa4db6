-- ===== src/SelfTest/Segments.antt =====
-- Lists of pages as they stand in check_page_free_list of kern/pmap.c: pieces of lists, and lists whose
-- end is still open.
use kp.Base.{
  ℕ, ◌≡◌, refl, true, false, ◌||◌, Bool, Option, none, some, List, [], ◌∷◌, ◌++◌, arith, ==_refl,
}
use kp.Pages.{PageInfo, update, set_link}
use kp.Pages.FreeList.Lists.{has}

-- From `head` the `pp_link` fields lead through `xs` to `end`.
abbrev pub Segment : (ℕ → PageInfo) → Option ℕ → List ℕ → Option ℕ → Type 0
Segment g head [] end = head ≡ end
Segment g head (x ∷ xs) end = (head ≡ some x) × Segment g (g x).pp_link xs end

pub Segment-frame :
    (g h : ℕ → PageInfo) (head end : Option ℕ) (xs : List ℕ)
    → Segment g head xs end
    → ((j : ℕ) → has j xs ≡ true → (h j).pp_link ≡ (g j).pp_link)
    → Segment h head xs end
Segment-frame g h head end [] s same = s
Segment-frame g h head end (x ∷ xs) (e, s) same = (
  e,
  rw (same x (ground arith))
      (Segment-frame g h (g x).pp_link end xs s λ j i. same j (ground arith)),
)

pub Segment-join :
    (g : ℕ → PageInfo) (head middle end : Option ℕ) (xs ys : List ℕ)
    → Segment g head xs middle
    → Segment g middle ys end
    → Segment g head (xs ++ ys) end
Segment-join g head middle end [] ys s t = rw s t
Segment-join g head middle end (x ∷ xs) ys (e, s) t =
    (e, Segment-join g (g x).pp_link middle end xs ys s t)

-- What a write to the open end makes of the pages, and of the head of the list.
abbrev pub linked : (ℕ → PageInfo) → Option ℕ → Option ℕ → ℕ → PageInfo
linked g none target = g
linked g (some q) target = update g q (set_link target (g q))

abbrev pub headed : Option ℕ → Option ℕ → Option ℕ → Option ℕ
headed head none target = target
headed head (some q) target = head

-- A list with an open end: whatever is written there, the head leads to it through `xs`.
pub record Open (g : ℕ → PageInfo) (head tail : Option ℕ) (xs : List ℕ) : Type 0 where
  pub leads :
      (target : Option ℕ) → Segment (linked g tail target) (headed head tail target) xs target
  pub inside : (q : ℕ) → tail ≡ some q → has q xs ≡ true

pub link-linked :
    (g : ℕ → PageInfo) (tail target : Option ℕ) (xs : List ℕ) (j : ℕ)
    → ((q : ℕ) → tail ≡ some q → has q xs ≡ true)
    → has j xs ≡ false
    → (linked g tail target j).pp_link ≡ (g j).pp_link
link-linked g none target xs j i o = refl
link-linked g (some q) target xs j i o = ground (arith, i q refl)

pub Open-frame :
    (g h : ℕ → PageInfo) (head tail : Option ℕ) (xs : List ℕ)
    → Open g head tail xs
    → ((j : ℕ) → has j xs ≡ true → (h j).pp_link ≡ (g j).pp_link)
    → Open h head tail xs
Open-frame g h head tail xs o same = record {
  leads = λ target.
      Segment-frame (linked g tail target) (linked h tail target) _ target xs (o.leads target)
        (λ j i. still tail target j i);
  inside = o.inside;
}
  where
    still :
        (tail target : Option ℕ) (j : ℕ)
        → has j xs ≡ true
        → (linked h tail target j).pp_link ≡ (linked g tail target j).pp_link
    still none target j i = same j i
    still (some q) target j i = ground (arith, same j i)

pub has-append : (j : ℕ) (xs ys : List ℕ) → has j (xs ++ ys) ≡ (has j xs || has j ys)
has-append j [] ys = refl
has-append j (x ∷ xs) ys = ground (arith, has-append j xs ys)

-- Writing a page to the open end, and moving the end behind it.
pub Open-push :
    (g : ℕ → PageInfo) (head tail : Option ℕ) (xs : List ℕ) (p : ℕ)
    → Open g head tail xs
    → has p xs ≡ false
    → Open (linked g tail (some p)) (headed head tail (some p)) (some p) (xs ++ (p ∷ []))
Open-push g head tail xs p o out = record {
  leads = λ target.
      let g' = linked g tail (some p) in
      Segment-join (linked g' (some p) target) (headed head tail (some p)) (some p) target xs
        (p ∷ [])
        (Segment-frame g' (linked g' (some p) target) _ (some p) xs (o.leads (some p))
          (λ j i. ground arith))
        (refl, rw (==_refl p) refl);
  inside = λ q e. ground (arith, has-append q xs (p ∷ []));
}

-- Two lists without a common member, seen from the other one.
pub apart_sym : (a b : Bool) → (a ≡ true → b ≡ false) → b ≡ true → a ≡ false
apart_sym true b f i = absurd (ground (arith, f refl))
apart_sym false b f i = refl
