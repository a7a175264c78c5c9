-- ===== src/Console/Examples.antt =====
-- A session at the console.
use homework.Prelude.{ℕ, arith, ◌≡◌, refl, true, false, List, [], ◌∷◌}
use homework.Console.Defs.{Input, newline, ctrl_h, ctrl_u, consoleintr, consoleread, returns}
use homework.Console.Keys.{Holds, Typed, presses, consoleintr_lem}
use homework.Console.Reading.{Left, Agrees, take_line, consoleread_lem}

abbrev quiet : Input
quiet = record { buf = λ j. 0; r = 0; w = 0; e = 0; woken = false }

abbrev nothing_typed : Typed
nothing_typed = record { queue = []; line = []; woken = false }

quiet-Holds : Holds quiet 0 nothing_typed
quiet-Holds = record {
  shows = record { r = refl; w = refl; e = refl; room = omega arith; bytes = tt };
  plain = refl;
  wakes = refl;
}

-- "x", ^U, "lz", backspace, "s", return, and "e" of the next line
abbrev session : List ℕ
session = 120 ∷ ctrl_u ∷ 108 ∷ 122 ∷ ctrl_h ∷ 115 ∷ 13 ∷ 101 ∷ []

session_typed :
    presses session nothing_typed
    ≡ record { queue = 108 ∷ 115 ∷ newline ∷ []; line = 101 ∷ []; woken = true }
unfolding presses
session_typed = refl

consoleintr_lem_example : Holds (consoleintr session quiet) 0 (presses session nothing_typed)
consoleintr_lem_example = consoleintr_lem session quiet 0 nothing_typed quiet-Holds

session-Left : Left (108 ∷ 115 ∷ newline ∷ []) (101 ∷ []) (consoleintr session quiet)
unfolding presses consoleintr
session-Left = (0, consoleintr_lem session quiet 0 nothing_typed quiet-Holds)

consoleread_lem_example :
    Agrees
      (101 ∷ [])
      (consoleread false 100 [] (consoleintr session quiet))
      (take_line false 100 [] (108 ∷ 115 ∷ newline ∷ []))
consoleread_lem_example =
    consoleread_lem false 100 [] (consoleintr session quiet) (108 ∷ 115 ∷ newline ∷ []) (101 ∷ [])
      session-Left

-- A read takes the line, the last byte first here, and the next one sleeps.
consoleread-test :
    elim (consoleread false 100 [] (consoleintr session quiet)) [ returns got i ↦ got | _ ↦ [] ]
    ≡ newline ∷ 115 ∷ 108 ∷ []
unfolding consoleread consoleintr
consoleread-test = refl
