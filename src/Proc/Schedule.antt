-- ===== src/Proc/Schedule.antt =====
-- proc.c: the choice of the scheduler, growproc and cps.
use homework.Prelude.{
  ℕ, zero, suc, ◌+◌, Option, none, some, List, [], ◌∷◌, ◌++◌, ltb, if◌then◌else◌,
}
use homework.Proc.Table.{
  ProcState, sleeping, runnable, running, Proc, Ptable, nproc, is_state, set_proc,
}

-- The body of the inner loop: `high` is `highP`; a larger number is a lower priority.
unfoldable pub better : (ℕ → Proc) → ℕ → ℕ → ℕ
unfolding is_state
better proc i high =
    if is_state runnable (proc i)
    then (if ltb (proc i).priority (proc high).priority then i else high)
    else high

unfoldable pub highest : (ℕ → Proc) → ℕ → ℕ → ℕ → ℕ
unfolding better
highest proc zero i high = high
highest proc (suc k) i high = highest proc k (i + 1) (better proc i high)

-- The process that runs when the outer loop stands at the runnable slot `i`.
unfoldable pub choose : Ptable → ℕ → ℕ
unfolding highest
choose t i = highest t.proc nproc 0 i

-- `c->proc = p; ... p->state = RUNNING;`
unfoldable pub dispatch : ℕ → Ptable → Ptable
unfolding set_proc
dispatch i t = set_proc t i (record (t.proc i) { state = running })

-- One round of the outer loop at slot `i`: the process that is switched to, if any, and the slot of
-- the next round. Since `p` is `highP` after a switch, the loop goes on behind the process that ran.
-- At the end of the table the lock is released and a new pass begins.
unfoldable pub scheduler_round : ℕ → Ptable → Option ℕ × ℕ
unfolding choose is_state
scheduler_round i t =
    if ltb i nproc
    then (if is_state runnable (t.proc i)
        then (some (choose t i), choose t i + 1)
        else (none, i + 1))
    else (none, 0)

-- `k` rounds from slot `i` on: the processes that were switched to, in order. `runs` is what happens
-- to the table from the switch to a process until the switch back.
unfoldable pub scheduler : (runs : ℕ → Ptable → Ptable) → ℕ → ℕ → Ptable → List ℕ
unfolding scheduler_round dispatch
scheduler runs zero i t = []
scheduler runs (suc k) i t =
    let (chosen, next) = scheduler_round i t in
    elim chosen [
      | none ↦ scheduler runs k next t
      | some p ↦ p ∷ scheduler runs k next (runs p (dispatch p t))
    ]

-- What `cps` prints of a process: name, pid, state and priority.
unfoldable pub cps_line : Proc → List (List ℕ × ℕ × ProcState × ℕ)
unfolding is_state
cps_line p =
    if is_state sleeping p
    then (p.name, p.pid, sleeping, p.priority) ∷ []
    else (if is_state running p
        then (p.name, p.pid, running, p.priority) ∷ []
        else (if is_state runnable p then (p.name, p.pid, runnable, p.priority) ∷ [] else []))

unfoldable pub cps_from : (ℕ → Proc) → ℕ → ℕ → List (List ℕ × ℕ × ProcState × ℕ)
unfolding cps_line
cps_from proc zero i = []
cps_from proc (suc k) i = cps_line (proc i) ++ cps_from proc k (i + 1)

-- The listing, and the result 22.
unfoldable pub cps : Ptable → List (List ℕ × ℕ × ProcState × ℕ) × ℕ
unfolding cps_from
cps t = (cps_from t.proc nproc 0, 22)
