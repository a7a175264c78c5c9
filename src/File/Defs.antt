-- ===== src/File/Defs.antt =====
-- file.c and file.h: `filealloc`, `filedup` and `fileclose`, each one critical section under
-- `ftable.lock`. `fileclose` returns what it does after the section.
use homework.Prelude.{
  ℕ, zero, suc, ◌+◌, ◌-◌, Bool, true, false, Option, none, some, ltb, ◌==◌, if◌then◌else◌, update,
}

abbrev pub nfile : ℕ
nfile = 100

pub data FileType : Type 0 where
  fd_none fd_pipe fd_inode : FileType

-- Pointers are addresses; `ref` is a C `int` that stays below 2^31.
pub record File : Type 0 where
  pub kind : FileType
  pub ref : ℕ
  pub readable : Bool
  pub writable : Bool
  pub pipe : ℕ
  pub ip : ℕ
  pub off : ℕ

-- The first of the `k` entries from `i` on with no reference.
unfoldable pub find_free : (ℕ → File) → ℕ → ℕ → Option ℕ
find_free file zero i = none
find_free file (suc k) i = elim ((file i).ref == 0) [
  | true ↦ some i
  | false ↦ find_free file k (i + 1)
]

unfoldable pub filealloc : (ℕ → File) → Option ℕ × (ℕ → File)
unfolding find_free
filealloc file = elim (find_free file nfile 0) [
  | none ↦ (none, file)
  | some f ↦ (some f, update file f (record (file f) { ref = 1 }))
]

-- `none` is a panic.
unfoldable pub filedup : ℕ → (ℕ → File) → Option (ℕ → File)
filedup f file =
    if ltb (file f).ref 1
    then none
    else some (update file f (record (file f) { ref = (file f).ref + 1 }))

-- What `fileclose` goes on with: nothing while there are references, `pipeclose`, or `iput` in an
-- operation of the log.
pub data Closed : Type 0 where
  still_open closes_nothing : Closed
  closes_pipe : ℕ → Bool → Closed
  closes_inode : ℕ → Closed

unfoldable pub close_kind : File → Closed
close_kind ff = elim ff.kind [
  | FileType.fd_none ↦ closes_nothing
  | FileType.fd_pipe ↦ closes_pipe ff.pipe ff.writable
  | FileType.fd_inode ↦ closes_inode ff.ip
]

unfoldable pub fileclose : ℕ → (ℕ → File) → Option (Closed × (ℕ → File))
unfolding close_kind
fileclose f file =
    if ltb (file f).ref 1
    then none
    else some (
        if ltb 0 ((file f).ref - 1)
        then (still_open, update file f (record (file f) { ref = (file f).ref - 1 }))
        else (
          close_kind (file f),
          update file f (record (file f) { ref = 0; kind = FileType.fd_none }),
        ))
