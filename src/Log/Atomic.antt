-- ===== src/Log/Atomic.antt =====
-- A commit that is cut off anywhere, then boots that are cut off anywhere, then one that ends.
use homework.Prelude.{ℕ, ◌+◌, ◌*◌, ◌≤◌, ◌<◌, ◌≡◌, ◌∙◌, ◌⊎◌, inl, inr, arith}
use homework.Disk.{Block, fssize, Disk, ok, crash, power_on}
use homework.Disk.View.{view, crash_of_Ends, ok_of_Ends, result_of_Ends}
use homework.Log.{Log, recover_from_log, commit}
use homework.Log.Replay.{replay, SameFiles, IsLogged}
use homework.Log.Recovery.{recover_from_log_lem, Recovered}
use homework.Log.Commit.{IsReady, Committed, commit_lem}

-- Boots after a power failure that left disk `d`: recoveries that are cut off, then one that ends.
pub data Boots (l : Log) : (ℕ → Block) → Disk → Type 0 where
  last :
      {d : ℕ → Block} (left : ℕ) {l' : Log} {t : Disk}
      → recover_from_log l (power_on d left) ≡ ok l' t
      → Boots l d t
  again :
      {d : ℕ → Block} (left : ℕ) {e : ℕ → Block} {t : Disk}
      → recover_from_log l (power_on d left) ≡ crash e
      → Boots l e t
      → Boots l d t

-- However often the power fails during recovery, the boot that ends finds the files for which the
-- first disk stood, and leaves an empty log.
pub Boots-files :
    {l : Log} {size : ℕ} {d : ℕ → Block} {t : Disk}
    → l.start + size ≤ fssize
    → IsLogged l.start size d
    → Boots l d t
    → (t.disk l.start 0 ≡ 0) × SameFiles l.start size t.disk (replay l.start d)
Boots-files {l} {size} {d} fits logged (last left e) =
    let r = ok_of_Ends (recover_from_log_lem l size left d logged fits) e in (r.empty_disk, r.files)
Boots-files {l} {size} {d} fits logged (again left e boots) =
    let i = crash_of_Ends (recover_from_log_lem l size left d logged fits) e in
    let (empty, files) = Boots-files fits i.logged boots in
    (empty, λ b out. files b out ∙ i.files b out)

-- All or nothing: if the power fails anywhere in a commit, and then any number of times during
-- recovery, the boot that ends has an empty log on its disk and either all files as they were before
-- the transaction or all files as its system calls left them.
pub commit_atomic :
    {l : Log} {size : ℕ} {s t : Disk} {e : ℕ → Block}
    → IsReady l size s
    → commit l s ≡ crash e
    → Boots l e t
    → (t.disk l.start 0 ≡ 0)
      × (SameFiles l.start size t.disk s.disk ⊎ SameFiles l.start size t.disk (view s))
commit_atomic {l} {size} {s} r cut boots =
    let c = crash_of_Ends (commit_lem l size s r) cut in
    let (empty, files) = Boots-files r.fits c.logged boots in
    (
      empty,
      elim c.atomic [
        | inl old ↦ inl (λ b out. files b out ∙ old b out)
        | inr new ↦ inr (λ b out. files b out ∙ new b out)
      ],
    )

-- With more than 2n + 1 writes before any power failure, a commit of n blocks ends; then the disk and
-- the cache hold the files as the system calls left them, and the log is empty.
pub commit_ends :
    (l : Log) (size : ℕ) (s : Disk)
    → IsReady l size s
    → 2 * l.lh.n + 1 < s.writes_left
    → (l' : Log) × (t : Disk) × (commit l s ≡ ok l' t) × Committed l size s l' t
commit_ends l size s r enough =
    result_of_Ends (commit_lem l size s r) (λ d c. omega (arith, c.writes))

-- With more writes left than blocks are logged, recovery ends.
recover_from_log_ends :
    (l : Log) (size left : ℕ) (d : ℕ → Block)
    → IsLogged l.start size d
    → l.start + size ≤ fssize
    → d l.start 0 < left
    → (l' : Log) × (t : Disk) × (recover_from_log l (power_on d left) ≡ ok l' t)
      × Recovered l.start size d l' t
recover_from_log_ends l size left d logged fits enough =
    result_of_Ends (recover_from_log_lem l size left d logged fits) (λ e i. omega (arith, i.writes))
