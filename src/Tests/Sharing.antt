-- ===== src/Tests/Sharing.antt =====
-- Two telnet clients whose turns interleave.
use network_programming_lab.Prelude.{List, [], ◌∷◌, ◌++◌, ◌≡◌, ℕ, zero, suc, refl, codes}
use network_programming_lab.Scanf.{c_string}
use network_programming_lab.Telnet.{Turn, accepts, turn, gets, goes_on, move, move_at, run}
use network_programming_lab.Telnet.Invariant.{inside, count, pending, lines}
use network_programming_lab.Telnet.Lines.{fresh, run-lines}

-- Both have a line; the first takes the mutex, and the second asks for it after every step.
abbrev both_turns : ℕ → List Turn
both_turns zero = []
both_turns (suc n) = turn 0 goes_on ∷ turn 1 goes_on ∷ both_turns n

abbrev arrivals : List Turn
arrivals = accepts ∷ accepts ∷ turn 0 (gets (codes "one")) ∷ turn 1 (gets (codes "two")) ∷ []

abbrev all_turns : List Turn
all_turns = arrivals ++ both_turns 16

both_lines : (run all_turns (fresh (codes "old\n")) []).0.file ≡ codes "old\none\ntwo\n"
unfolding run move move_at c_string
both_lines = refl

run-lines_example :
    (inside (run (arrivals ++ both_turns 4) (fresh []) []).1
      ≡ count (run (arrivals ++ both_turns 4) (fresh []) []).0.locked)
    × ((run (arrivals ++ both_turns 4) (fresh []) []).0.file
          ++ pending (run (arrivals ++ both_turns 4) (fresh []) []).1
        ≡ lines (run (arrivals ++ both_turns 4) (fresh []) []).0.messages)
run-lines_example = run-lines [] (arrivals ++ both_turns 4)
