-- ===== src/Monitor/Tests.antt =====
-- The line " hi x" with a table of one command, hi.
use kp.Base.{◌≡◌, refl, ◌==◌, ◌||◌, arith, List, [], ◌∷◌, pos, if◌then◌else◌}
use kp.Run.{ok}
use kp.Strings.{Bytes, strcmp}
use kp.Monitor.{Command, runcmd, split_words, gobble, word_at, scan_past, find_command}
use kp.Monitor.Split.{Outcome, runcmd_lem}

abbrev line : Bytes
line = λ x.
    if x == 100
    then 32
    else if x == 101 || x == 200
    then 104
    else if x == 102 || x == 201
    then 105
    else if x == 103
    then 32
    else if x == 104
    then 120
    else 0

abbrev table : List Command
table = record { name = 200; func = λ argv m. ok (pos 7) m } ∷ []

runcmd_lem_example : Outcome 9 table 100 line ((104 ∷ 105 ∷ []) ∷ (120 ∷ []) ∷ [])
runcmd_lem_example =
    runcmd_lem 9 table 100 line (32 ∷ 104 ∷ 105 ∷ 32 ∷ 120 ∷ [])
      (refl, refl, (refl, refl, (refl, refl, (refl, refl, (refl, refl, refl))))) (omega arith)

found :
    runcmd 9 table 100 line
    ≡ ok (pos 7) (λ x. if x == 103 then 0 else if x == 100 then 0 else line x)
unfolding runcmd split_words gobble word_at scan_past find_command strcmp
found = refl
