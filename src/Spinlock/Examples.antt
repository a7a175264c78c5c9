-- ===== src/Spinlock/Examples.antt =====
-- Two processors and one lock.
use homework.Prelude.{ℕ, ◌≡◌, refl, true, false, none, some, List, [], ◌∷◌}
use homework.Spinlock.Defs.{Cpu, initlock, outside, spinning, inside, System, run}
use homework.Spinlock.Held.{has_lock}
use homework.Spinlock.Exclusion.{IsIdle, run-exclusive}
use homework.Spinlock.Nesting.{nothing, pair, run_calls, Restored, run_calls_lem}

abbrev calm : Cpu
calm = record { ncli = 0; intena = false; flag = true }

abbrev idle : System
idle = record { lock = initlock; cpus = λ i. calm; stage = λ i. outside }

idle-IsIdle : IsIdle idle
idle-IsIdle = record { lock = refl; stage = λ j. refl }

-- Processor 0 takes the lock, and 1 spins.
abbrev contended : List ℕ
contended = 0 ∷ 1 ∷ 0 ∷ 1 ∷ 0 ∷ 1 ∷ 0 ∷ 1 ∷ []

run-exclusive_example :
    (t : System) × (run contended idle ≡ some t)
    × ((i j : ℕ) → has_lock (t.stage i) ≡ true → has_lock (t.stage j) ≡ true → i ≡ j)
run-exclusive_example = run-exclusive idle contended idle-IsIdle

run-test :
    elim (run contended idle) [ none ↦ [] | some t ↦ t.stage 0 ∷ t.stage 1 ∷ [] ]
    ≡ inside ∷ spinning ∷ []
unfolding run initlock
run-test = refl

run_calls_lem_example :
    (d : Cpu) × (run_calls (pair (pair nothing nothing) (pair nothing nothing)) calm ≡ some d)
    × Restored calm d
run_calls_lem_example =
    run_calls_lem (pair (pair nothing nothing) (pair nothing nothing)) calm (λ e. refl)
