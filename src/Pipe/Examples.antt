-- ===== src/Pipe/Examples.antt =====
-- Runs of the pipe, and its theorems at concrete inputs.
use homework.Prelude.{ℕ, ◌≡◌, refl, true, false, none, List, [], ◌∷◌, ◌++◌, arith}
use homework.Pipe.{Pipe, pipesize, used, IsValid, Outcome, returned, asleep, pipewrite, piperead}
use homework.Pipe.Transfer.{WriteOutcome, ReadOutcome, pipewrite_lem, piperead_lem}
use homework.Pipe.History.{
  Trace, begin, later, writes, reads, start, fresh, IsFifo, Reach-IsFifo, pipe_after, stored,
  delivered,
}
use homework.Pipe.Wakeups.{pipewrite_killed_silent}

-- 510 bytes in the pipe, and counters about to wrap.
abbrev nearly_full : Pipe
nearly_full = record {
  bytes = λ i. i;
  nread = 4294967040;
  nwrite = 254;
  readopen = true;
  writeopen = true;
}

nearly_full-IsValid : IsValid nearly_full
nearly_full-IsValid = record {
  read_range = omega arith;
  write_range = omega arith;
  fits = omega arith;
}

abbrev three : List ℕ
three = 7 ∷ 8 ∷ 9 ∷ []

-- Two bytes fit, and the writer sleeps with the third.
abbrev left_of : Outcome ℕ (List ℕ) → List ℕ
left_of (asleep c rest q w) = rest
left_of (returned r q w) = []

third_waits : left_of (pipewrite false three nearly_full) ≡ 9 ∷ []
unfolding pipewrite
third_waits = refl

pipewrite_lem_example : WriteOutcome false 3 three nearly_full (pipewrite false three nearly_full)
pipewrite_lem_example = pipewrite_lem false three nearly_full nearly_full-IsValid

piperead_lem_example : ReadOutcome false 4 nearly_full (piperead false 4 nearly_full)
piperead_lem_example = piperead_lem false 4 nearly_full nearly_full-IsValid

abbrev page : ℕ → ℕ
page i = 0

abbrev wrote : Trace
wrote = record {
  pipe = pipe_after (pipewrite false three (fresh page));
  sent = [] ++ stored (fresh page) (pipe_after (pipewrite false three (fresh page))) three;
  got = [];
}

abbrev read_two : Trace
read_two = record wrote {
  pipe = pipe_after (piperead false 2 wrote.pipe);
  got = [] ++ delivered (piperead false 2 wrote.pipe);
}

Reach-IsFifo_example : IsFifo read_two
Reach-IsFifo_example =
    Reach-IsFifo {page = page}
      (later {s = wrote} (later {s = start page} begin (writes false three)) (reads false 2))

read_two_first : read_two.got ≡ 7 ∷ 8 ∷ []
unfolding pipewrite piperead fresh
read_two_first = refl

pipewrite_killed_silent_example :
    (q : Pipe) × (pipewrite true three nearly_full ≡ returned none q []) × (used q ≡ pipesize)
pipewrite_killed_silent_example =
    pipewrite_killed_silent three nearly_full nearly_full-IsValid (omega arith)
