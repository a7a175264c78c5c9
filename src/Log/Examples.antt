-- ===== src/Log/Examples.antt =====
-- Runs of the log, and its theorems at concrete inputs.
use homework.Prelude.{
  ℕ, ◌+◌, ◌≡◌, refl, sym, ℕ_discrete, true, false, some, none, List, [], ◌∷◌, arith, inl, inr, ◌⊎◌,
  ◌==◌, if◌then◌else◌,
}
use homework.Disk.{
  Block, Disk, Outcome, ok, crash, panic, ◌>>=◌, power_on, bread, bwrite, set_data, set_dirty,
}
use homework.Disk.View.{view, Ends}
use homework.Log.{Log, commit, recover_from_log, log_entry, begin_op}
use homework.Log.Replay.{replay, SameFiles, IsLogged}
use homework.Log.Commit.{IsReady, Cut, Committed, commit_lem}
use homework.Log.Recovery.{Interrupted, Recovered, recover_from_log_lem}
use homework.Log.Atomic.{Boots, last, again, Boots-files, commit_atomic, commit_ends}
use homework.Log.Transaction.{changes, apply, transaction_files}
use homework.Log.Session.{Session, MayWrite, begins, Reach, boot, later}
use homework.Log.Reserve.{IsReserved, Reach-IsReserved, log_entry_reserved}
use homework.Log.Entry.{Entered}
use homework.Log.Overflow.{mkfs_nlog, run_of, log_overflow}

-- The superblock of mkfs.c: the log starts at block 2.
abbrev small_log : Log
small_log = record {
  start = 2;
  size = 30;
  outstanding = 1;
  committing = false;
  lh = record { n = 1; block = λ i. 100 };
}

abbrev zeros : Block
zeros w = 0

abbrev sevens : Block
sevens w = 7

-- Block 100 has been changed in the cache, and the power fails after `left` writes.
abbrev changed : ℕ → Disk
changed left = record {
  disk = λ b. zeros;
  buf = λ b.
      if b == 100
      then record { contents = sevens; valid = true; dirty = true }
      else record { contents = zeros; valid = false; dirty = false };
  writes_left = left;
}

changed-IsReady : (left : ℕ) → IsReady small_log 30 (changed left)
unfolding view
changed-IsReady left = record {
  header = record {
    room = omega arith;
    bounded = omega arith;
    outside = λ i lt. inr (omega arith);
    on_disk = λ i lt. omega arith;
  };
  fits = omega arith;
  empty_disk = refl;
  sound = λ b e. ground arith;
  tracked = λ b out. elim (ℕ_discrete b 100) [
    | yes here ↦ inr (0, omega arith, sym here)
    | no other ↦ inl (ground arith)
  ];
}

commit_lem_example :
    Ends
      (Cut small_log 30 (changed 2))
      (Committed small_log 30 (changed 2))
      (commit small_log (changed 2))
commit_lem_example = commit_lem small_log 30 (changed 2) (changed-IsReady 2)

abbrev disk_of : {A : Type 0} → Outcome A → ℕ → Block
disk_of (ok a s) = s.disk
disk_of (crash d) = d
disk_of panic = λ b. zeros

abbrev machine_of : {A : Type 0} → Outcome A → Disk
machine_of (ok a s) = s
machine_of (crash d) = power_on d 0
machine_of panic = power_on (λ b. zeros) 0

-- The power fails when the header is written and the block is not yet installed; then once more
-- during recovery; and then recovery ends.
abbrev cut_disk : ℕ → Block
cut_disk = disk_of (commit small_log (changed 2))

abbrev booted : Disk
booted = machine_of (recover_from_log small_log (power_on cut_disk 9))

cut : commit small_log (changed 2) ≡ crash cut_disk
unfolding commit bread bwrite set_data set_dirty
cut = refl

abbrev cut_again : ℕ → Block
cut_again = disk_of (recover_from_log small_log (power_on cut_disk 1))

abbrev booted_again : Disk
booted_again = machine_of (recover_from_log small_log (power_on cut_again 9))

abbrev log_of : Outcome Log → Log
log_of (ok l s) = l
log_of (crash d) = small_log
log_of panic = small_log

boots : Boots small_log cut_disk booted_again
unfolding commit recover_from_log bread bwrite set_data set_dirty power_on
boots = again 1 refl (last 9 {l' = log_of (recover_from_log small_log (power_on cut_again 9))} refl)

commit_atomic_example :
    (booted_again.disk 2 0 ≡ 0)
    × (SameFiles 2 30 booted_again.disk (changed 2).disk
        ⊎ SameFiles 2 30 booted_again.disk (view (changed 2)))
commit_atomic_example =
    commit_atomic {l = small_log} {size = 30} {s = changed 2} {t = booted_again} {e = cut_disk}
      (changed-IsReady 2) cut boots

-- The new contents are there.
installed_after_boots : booted_again.disk 100 3 ≡ 7
unfolding commit recover_from_log bread bwrite set_data set_dirty power_on
installed_after_boots = refl

commit_ends_example :
    (l' : Log) × (t : Disk) × (commit small_log (changed 9) ≡ ok l' t)
    × Committed small_log 30 (changed 9) l' t
commit_ends_example = commit_ends small_log 30 (changed 9) (changed-IsReady 9) (omega arith)

-- A disk with a committed transaction of one block.
abbrev header_block : Block
header_block w = if w == 0 then 1 else 100

abbrev logged_disk : ℕ → Block
logged_disk b = if b == 2 then header_block else if b == 3 then sevens else zeros

logged_disk-IsLogged : IsLogged 2 30 logged_disk
logged_disk-IsLogged = record {
  room = omega arith;
  bounded = omega arith;
  outside = λ i lt. inr (ground arith);
  on_disk = λ i lt. ground arith;
}

recover_from_log_lem_example :
    Ends
      (Interrupted 2 30 1 logged_disk)
      (Recovered 2 30 logged_disk)
      (recover_from_log small_log (power_on logged_disk 1))
recover_from_log_lem_example =
    recover_from_log_lem small_log 30 1 logged_disk logged_disk-IsLogged (omega arith)

abbrev recovered : Disk
recovered = machine_of (recover_from_log small_log (power_on logged_disk 5))

logged_disk-Boots : Boots small_log logged_disk recovered
unfolding recover_from_log bread bwrite set_data set_dirty power_on
logged_disk-Boots = last 5 {l' = log_of (recover_from_log small_log (power_on logged_disk 5))} refl

Boots-files_example :
    (recovered.disk 2 0 ≡ 0) × SameFiles 2 30 recovered.disk (replay 2 logged_disk)
Boots-files_example =
    Boots-files {l = small_log} {size = 30} {d = logged_disk} {t = recovered} (omega arith)
      logged_disk-IsLogged logged_disk-Boots

abbrev new_blocks : List (ℕ × Block)
new_blocks = (200, sevens) ∷ (201, zeros) ∷ []

transaction_files_example :
    (l' : Log) × (t : Disk) × ((changes small_log new_blocks >>= commit) (changed 9) ≡ ok l' t)
    × SameFiles 2 30 t.disk (apply new_blocks (view (changed 9)))
transaction_files_example =
    transaction_files small_log new_blocks (changed 9) (changed-IsReady 9) (omega arith)
      (omega arith) (omega arith)
      (inr (omega arith), omega arith, (inr (omega arith), omega arith, tt)) (omega arith)

abbrev idle : ℕ → Session
idle size = record {
  log = record {
    start = 2;
    size = size;
    outstanding = 0;
    committing = false;
    lh = record { n = 0; block = λ i. 0 };
  };
  ops = [];
}

abbrev one_call : ℕ → Session
one_call size = record {
  log = record {
    start = 2;
    size = size;
    outstanding = 1;
    committing = false;
    lh = record { n = 0; block = λ i. 0 };
  };
  ops = [] ∷ [];
}

one_call_reached : (size : ℕ) → Reach 2 size (one_call size)
unfolding begin_op
one_call_reached size =
    later {s = idle size} (boot (λ i. 0)) (begins {l = (one_call size).log} refl)

Reach-IsReserved_example : IsReserved 30 (one_call 30)
Reach-IsReserved_example = Reach-IsReserved (one_call_reached 30)

log_entry_reserved_example :
    (l : Log) × (log_entry (one_call 31).log 100 ≡ some l) × Entered (one_call 31).log 100 l
log_entry_reserved_example =
    log_entry_reserved {s = one_call 31} [] [] [] 100 (omega arith) (one_call_reached 31) refl
      (omega arith)

abbrev blocks_from_100 : ℕ → ℕ
blocks_from_100 i = 100 + i

log_overflow_example :
    (s : Session) × Reach 2 mkfs_nlog s
    × (s.ops
        ≡ run_of blocks_from_100 0 10
          ∷ run_of blocks_from_100 10 10
          ∷ run_of blocks_from_100 20 9
          ∷ [])
    × MayWrite (100 + 29) (run_of blocks_from_100 20 9)
    × (log_entry s.log (100 + 29) ≡ none)
log_overflow_example = log_overflow 2 blocks_from_100 (λ i j e. omega arith)
