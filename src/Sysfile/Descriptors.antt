-- ===== src/Sysfile/Descriptors.antt =====
-- sysfile.c: descriptors, and the calls that take one. The memory of the process, `sz` bytes, and its
-- stack pointer are as in Syscall; pipes and the calls of the log are parameters. `none` stands for -1.
use homework.Prelude.{
  ℕ, zero, suc, ◌+◌, Bool, Option, none, some, leb, if◌then◌else◌, List, [], ◌∷◌,
}
use homework.Fs
use homework.Fs.{Device, iput}
use homework.File.{
  Closed, still_open, closes_nothing, closes_pipe, closes_inode, filedup, fileclose,
}
use homework.File.Io.{Stat, filestat, fileread, filewrite}
use homework.Syscall.Args.{argint, argptr}
use homework.Sysfile.Machine.{ok, panic, M, ◌>>=◌, ◌>>◌, pure, on_fs, set_ofile, set_file}

abbrev pub nofile : ℕ
nofile = 16

-- The loop of `fdalloc` over the `k` descriptors from `fd` on.
unfoldable pub free_fd : (ℕ → Option ℕ) → (k fd : ℕ) → Option ℕ
free_fd ofile zero fd = none
free_fd ofile (suc k) fd = elim (ofile fd) [ none ↦ some fd | some f ↦ free_fd ofile k (fd + 1) ]

unfoldable pub take_fd : ℕ → Option ℕ → M (Option ℕ)
unfolding set_ofile
take_fd f none = pure none
take_fd f (some fd) = do set_ofile fd (some f); pure (some fd)

unfoldable pub fdalloc : ℕ → M (Option ℕ)
unfolding free_fd take_fd
fdalloc f s = take_fd f (free_fd s.ofile nofile 0) s

unfoldable pub dup_file : ℕ → M (Unit {0})
unfolding filedup
dup_file f s = elim (filedup f s.file) [
  | none ↦ panic
  | some file ↦ ok tt (record s { file = file })
]

module _ (pipeclose : ℕ → Bool → Fs.M (Unit {0})) (begin_op end_op : Fs.M (Unit {0})) where
  -- What `fileclose` does behind its critical section.
  unfoldable pub close_rest : Closed → Fs.M (Unit {0})
  unfolding iput
  close_rest still_open s = Fs.ok tt s
  close_rest closes_nothing s = Fs.ok tt s
  close_rest (closes_pipe p writable) s = pipeclose p writable s
  close_rest (closes_inode ip) s =
      Fs.and_then (begin_op s) (λ _ t. Fs.and_then (iput ip t) (λ _. end_op))

  unfoldable pub close_file : ℕ → M (Unit {0})
  unfolding fileclose close_rest
  close_file f s = elim (fileclose f s.file) [
    | none ↦ panic
    | some r ↦ on_fs (close_rest r.0) (record s { file = r.1 })
  ]

-- A negative `int` is above NOFILE too, as its word.
unfoldable pub open_fd : (ℕ → Option ℕ) → Option ℕ → Option (ℕ × ℕ)
open_fd ofile none = none
open_fd ofile (some fd) =
    if leb nofile fd then none else elim (ofile fd) [ none ↦ none | some f ↦ some (fd, f) ]

-- The `n` bytes of the process from `p` on.
unfoldable pub user_bytes : (ℕ → ℕ) → (p n : ℕ) → List ℕ
user_bytes mem p zero = []
user_bytes mem p (suc n) = mem p ∷ user_bytes mem (p + 1) n

module _ (sz : ℕ) (mem : ℕ → ℕ) (esp : ℕ) where
  -- The descriptor and the file.
  unfoldable pub argfd : ℕ → M (Option (ℕ × ℕ))
  unfolding argint open_fd
  argfd n s = ok (open_fd s.ofile (argint sz mem esp n)) s

  unfoldable pub sys_dup : M (Option ℕ)
  unfolding argfd fdalloc dup_file
  sys_dup = do
    r ← argfd 0
    elim r as (λ _. M (Option ℕ)) [
      | none ↦ pure none
      | some (old, f) ↦ do
        fd ← fdalloc f
        elim fd as (λ _. M (Option ℕ)) [
          | none ↦ pure none
          | some new ↦ do dup_file f; pure (some new)
        ]
    ]

  -- `argint(2, &n)` and `argptr(1, &p, n)`
  unfoldable pub arg_buffer : Option (ℕ × ℕ)
  unfolding argint argptr
  arg_buffer = elim (argint sz mem esp 2) [
    | none ↦ none
    | some n ↦ elim (argptr sz mem esp 1 n) [ none ↦ none | some p ↦ some (p, n) ]
  ]

  module _ (pipeclose : ℕ → Bool → Fs.M (Unit {0})) (begin_op end_op : Fs.M (Unit {0})) where
    unfoldable pub sys_close : M (Option ℕ)
    unfolding argfd set_ofile close_file
    sys_close = do
      r ← argfd 0
      elim r as (λ _. M (Option ℕ)) [
        | none ↦ pure none
        | some (fd, f) ↦ do set_ofile fd none; close_file pipeclose begin_op end_op f; pure (some 0)
      ]

  module _ (devsw : ℕ → Device) (piperead : ℕ → ℕ → Fs.M (Option (List ℕ)))
      (pipewrite : ℕ → List ℕ → Fs.M (Option ℕ)) (begin_op end_op : Fs.M (Unit {0})) where
    -- The bytes, and where they are put.
    unfoldable pub sys_read : M (Option (ℕ × List ℕ))
    unfolding argfd arg_buffer fileread set_file
    sys_read = do
      r ← argfd 0
      elim r as (λ _. M (Option (ℕ × List ℕ))) [
        | none ↦ pure none
        | some (fd, f) ↦ elim arg_buffer as (λ _. M (Option (ℕ × List ℕ))) [
          | none ↦ pure none
          | some (p, n) ↦ do
            q ← (λ s. on_fs (fileread devsw piperead pipewrite begin_op end_op (s.file f) n) s)
            set_file f q.1
            pure (elim q.0 [ none ↦ none | some bytes ↦ some (p, bytes) ])
        ]
      ]

    unfoldable pub sys_write : M (Option ℕ)
    unfolding argfd arg_buffer filewrite set_file user_bytes
    sys_write = do
      r ← argfd 0
      elim r as (λ _. M (Option ℕ)) [
        | none ↦ pure none
        | some (fd, f) ↦ elim arg_buffer as (λ _. M (Option ℕ)) [
          | none ↦ pure none
          | some (p, n) ↦ do
            q ← (λ s.
                on_fs
                  (filewrite devsw piperead pipewrite begin_op end_op (s.file f)
                    (user_bytes mem p n))
                  s)
            set_file f q.1
            pure q.0
        ]
      ]

  -- The record and where it is put; it has 20 bytes.
  unfoldable pub sys_fstat : M (Option (ℕ × Stat))
  unfolding argfd argptr filestat
  sys_fstat = do
    r ← argfd 0
    elim r as (λ _. M (Option (ℕ × Stat))) [
      | none ↦ pure none
      | some (fd, f) ↦ elim (argptr sz mem esp 1 20) as (λ _. M (Option (ℕ × Stat))) [
        | none ↦ pure none
        | some p ↦ do
          st ← (λ s. on_fs (filestat (s.file f)) s)
          pure (elim st [ none ↦ none | some v ↦ some (p, v) ])
      ]
    ]
