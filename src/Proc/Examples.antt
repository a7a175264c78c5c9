-- ===== src/Proc/Examples.antt =====
-- Runs of the process code, and its theorems at concrete inputs.
use homework.Prelude.{
  ℕ, ◌+◌, ◌≡◌, refl, true, false, some, none, [], arith, ◌==◌, if◌then◌else◌, update, All,
}
use homework.Proc.{
  unused, runnable, running, Proc, Ptable, Services, is_state, state_eq, find_slot, find_unused,
  allocproc, allocproc_at, fork_into, growproc, fork, exit_table, kill, scheduler,
}
use homework.Proc.Choice.{Dominates, scheduler_dominant}
use homework.Proc.Killing.{kill_zero_marks}
use homework.Proc.Family.{IsFamily, exit_table-IsFamily}
use homework.Proc.Children.{fork-IsFamily}

abbrev empty_slot : Proc
empty_slot = record {
  sz = 0;
  pgdir = 0;
  kstack = 0;
  state = unused;
  pid = 0;
  parent = none;
  tf = λ r. 0;
  context = λ r. 0;
  chan = none;
  killed = false;
  ofile = λ f. none;
  cwd = none;
  name = [];
  priority = 0;
  start_ticks = 0;
}

-- init in slot 0 and a shell in slot 1.
abbrev slots : ℕ → Proc
slots i =
    if i == 0
    then record empty_slot { state = runnable; pid = 1; priority = 10; pgdir = 4096 }
    else if i == 1
    then record empty_slot {
      state = running;
      pid = 2;
      parent = some 0;
      priority = 10;
      pgdir = 8192;
    }
    else empty_slot

abbrev two_procs : Ptable
two_procs = record { proc = slots; nextpid = 3; initproc = 0 }

-- A memory that hands out one page address after the other.
abbrev counting : Services
counting = record {
  World = ℕ;
  kalloc = λ w. (w + 4096, w + 4096);
  kfree = λ a w. w;
  copyuvm = λ dir sz w. (w + 4096, w + 4096);
  freevm = λ dir w. w;
  filedup = λ f w. w;
  fileclose = λ f w. w;
  idup = λ ip w. w;
  iput_in_op = λ ip w. w;
  allocuvm = λ dir old new w. (new, w);
  deallocuvm = λ dir old new w. (new, w);
}

two_procs-IsFamily : IsFamily two_procs
two_procs-IsFamily = record {
  init_in = omega arith;
  init_lives = refl;
  pids = λ i h l. ground arith;
  distinct = λ i j h h' l l' e. ground arith;
  parents = λ i h l ne. record {
    parent = 0;
    is_parent = ground arith;
    in_table = omega arith;
    lives = refl;
  };
  no_parent = λ i h e. ground arith;
}

forked_pid : (fork counting 77 5 1 two_procs 4096).0 ≡ some 3
unfolding fork allocproc allocproc_at fork_into find_unused
forked_pid = refl

fork-IsFamily_example : IsFamily (fork counting 77 5 1 two_procs 4096).1
fork-IsFamily_example =
    fork-IsFamily counting 1 two_procs 4096 two_procs-IsFamily (omega arith) refl 77 5

exit_table-IsFamily_example : IsFamily (exit_table 1 two_procs)
exit_table-IsFamily_example =
    exit_table-IsFamily 1 two_procs two_procs-IsFamily (omega arith) refl (omega arith)

kill_zero_marks_example :
    ((kill 0 two_procs).0 ≡ true)
    × ((allocproc counting 77 5 (kill 0 two_procs).1 0).0 ≡ some 2)
    × (((allocproc counting 77 5 (kill 0 two_procs).1 0).1.proc 2).killed ≡ true)
unfolding find_unused find_slot is_state
kill_zero_marks_example = kill_zero_marks counting 77 5 0 2 two_procs refl refl (λ e. cc)

-- Slot 1 with a better priority than slot 0.
abbrev ready_slots : Ptable
ready_slots = record two_procs {
  proc = update slots 1 (record (slots 1) { state = runnable; priority = 3 });
}

ready_slots-Dominates : Dominates 1 ready_slots
unfolding is_state state_eq
ready_slots-Dominates = record {
  place = omega arith;
  ready = refl;
  best = λ j h ne r. ground arith;
}

-- A process that gives up the processor at once, with the table as it was.
abbrev back_at_once : ℕ → Ptable → Ptable
back_at_once p t = ready_slots

scheduler_dominant_example : All (λ p. p ≡ 1) (scheduler back_at_once 5 0 ready_slots)
scheduler_dominant_example =
    scheduler_dominant back_at_once 1 (λ t d. ready_slots-Dominates) 5 0 ready_slots
      ready_slots-Dominates

-- The process of slot 1 asks for another page.
growproc-test :
    ((growproc counting 4096 1 two_procs 0).1.0.proc 1).sz ≡ (two_procs.proc 1).sz + 4096
unfolding growproc
growproc-test = refl
