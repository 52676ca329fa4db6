-- ===== src/ReadLine/Line.antt =====
-- The line that typed characters make, as a list.
use kp.Base.{ℕ, ◌%◌, ◌==◌, leb, ltb, ◌&&◌, ◌||◌, if◌then◌else◌, Option, none, some, List, [], ◌∷◌}
use kp.Pages.FreeList.Lists.{length}

-- The characters so far, the last one first, after one more.
abbrev pub typed : ℕ → List ℕ → List ℕ
typed c [] = if leb 32 c then c % 256 ∷ [] else []
typed c (l ∷ ls) =
    if c == 8 || c == 127
    then ls
    else if leb 32 c && ltb (length (l ∷ ls)) 1023
    then c % 256 ∷ l ∷ ls
    else l ∷ ls

-- The first line, the last character first: what is typed up to the first line end.
abbrev pub line_of : List ℕ → List ℕ → Option (List ℕ)
line_of [] ls = none
line_of (c ∷ cs) ls =
    let rest = line_of cs (typed c ls) in if c == 10 || c == 13 then some ls else rest
