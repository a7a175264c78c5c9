-- ===== src/Sysfile/Sharing.antt =====
-- sysfile.c: `sys_dup` and `sys_close` keep the counters of open files right.
use homework.Prelude.{
  Option-cases, ℕ, ◌<◌, ◌≡◌, ◌≢◌, refl, ◌⊎◌, inl, inr, Bool, Option, none, some, ◌==◌,
  if◌then◌else◌, update, List, [], ◌∷◌, ◌++◌, count, count-append, Bool-cases, arith,
}
use homework.Fs
use homework.Fs.{iput}
use homework.File.{File, FileType, Closed, still_open, close_kind}
use homework.File.Holders.{fileclose_lem, filedup_lem}
use homework.Syscall.Args.{argint}
use homework.Sysfile.Machine.{Sys, Ran, ok, and_then, pure, on_fs, set_ofile}
use homework.Sysfile.Descriptors.{
  nofile, open_fd, argfd, free_fd, take_fd, fdalloc, dup_file, sys_dup, close_rest, close_file,
  sys_close,
}
use homework.Sysfile.Counted.{held_by, IsOpen, held_one, IsCounted-same, count-closed, free_fd_lem}
use homework.Sysfile.Opened.{
  open_fd_lem, NoneOpen, open_fd-NoneOpen, duplicated, closed, dup-IsOpen, close-IsOpen,
}

-- What `sys_dup` and `sys_close` do of a process whose memory is `mem`.
module _ (sz : ℕ) (mem : ℕ → ℕ) (esp : ℕ) (s : Sys) (others : List ℕ) where
  abbrev pub Dup : Type 0
  Dup =
      ((sys_dup sz mem esp s ≡ ok none s)
        × (NoneOpen s.ofile (argint sz mem esp 0) ⊎ ((fd : ℕ) → fd < nofile → s.ofile fd ≢ none)))
      ⊎ ((old new f : ℕ) × (file : ℕ → File) × (sys_dup sz mem esp s
            ≡ ok (some new) (duplicated s new f file))
          × (argint sz mem esp 0 ≡ some old)
          × (s.ofile old ≡ some f)
          × (s.ofile new ≡ none)
          × IsOpen (duplicated s new f file) others)

  module _ (pipeclose : ℕ → Bool → Fs.M (Unit {0})) (begin_op end_op : Fs.M (Unit {0})) where
    -- Nobody else has the file of descriptor `fd`.
    abbrev pub IsLast : (fd f : ℕ) → Type 0
    IsLast fd f = count f (held_by (update s.ofile fd none) nofile ++ others) ≡ 0

    -- What `sys_close` does of `fd`, when the table of open files is then `file`: nothing more while others
    -- have the file; or it closes that end of the pipe; or it drops the inode in an operation of the log.
    pub data Goes (fd f : ℕ) (file : ℕ → File) : Ran (Option ℕ) → Type 0 where
      stays : ¬ IsLast fd f → Goes fd f file (ok (some 0) (closed s fd file))
      nothing :
          IsLast fd f
          → (s.file f).kind ≡ FileType.fd_none
          → Goes fd f file (ok (some 0) (closed s fd file))
      pipe :
          IsLast fd f
          → (s.file f).kind ≡ FileType.fd_pipe
          → Goes fd f file (
              and_then
                (on_fs (pipeclose (s.file f).pipe (s.file f).writable) (closed s fd file))
                (λ _. pure (some 0)))
      inode :
          IsLast fd f
          → (s.file f).kind ≡ FileType.fd_inode
          → Goes fd f file (
              and_then
                (on_fs
                  (λ t.
                    Fs.and_then
                      (begin_op t)
                      (λ _ u. Fs.and_then (iput (s.file f).ip u) (λ _. end_op)))
                  (closed s fd file))
                (λ _. pure (some 0)))

    abbrev pub Close : Type 0
    Close =
        ((sys_close sz mem esp pipeclose begin_op end_op s ≡ ok none s)
          × NoneOpen s.ofile (argint sz mem esp 0))
        ⊎ ((fd f : ℕ) × (file : ℕ → File) × (argint sz mem esp 0 ≡ some fd)
            × (s.ofile fd ≡ some f)
            × Goes fd f file (sys_close sz mem esp pipeclose begin_op end_op s)
            × IsOpen (closed s fd file) others)

    kind_cases :
        (k : FileType) → (k ≡ FileType.fd_none) ⊎ (k ≡ FileType.fd_pipe) ⊎ (k ≡ FileType.fd_inode)
    kind_cases FileType.fd_none = inl refl
    kind_cases FileType.fd_pipe = inr (inl refl)
    kind_cases FileType.fd_inode = inr (inr refl)

    -- The code's own way to say what is left to do.
    abbrev left_open : (fd f : ℕ) → Closed
    left_open fd f =
        if count f (held_by (update s.ofile fd none) nofile ++ others) == 0
        then close_kind (s.file f)
        else still_open

    left_open-Goes :
        (fd f : ℕ) (file : ℕ → File)
        → Goes fd f file (
            and_then
              (on_fs (close_rest pipeclose begin_op end_op (left_open fd f)) (closed s fd file))
              (λ _. pure (some 0)))
    unfolding close_rest close_kind
    left_open-Goes fd f file =
        elim (Bool-cases (count f (held_by (update s.ofile fd none) nofile ++ others) == 0)) [
          | inr shared ↦ rw (shared) (stays (λ e. absurd (ground (arith, e, shared))))
          | inl last ↦ rw (last) (elim (kind_cases (s.file f).kind) [
            | inl k ↦ rw (k, close_kind) (nothing (ground (arith, last)) k)
            | inr (inl k) ↦ rw (k, close_kind) (pipe (ground (arith, last)) k)
            | inr (inr k) ↦ rw (k, close_kind) (inode (ground (arith, last)) k)
          ])
        ]

module _ (sz : ℕ) (mem : ℕ → ℕ) (esp : ℕ) (s : Sys) (others : List ℕ) (h : IsOpen s others) where
  dup_of :
      (old f new : ℕ)
      → open_fd s.ofile (argint sz mem esp 0) ≡ some (old, f)
      → free_fd s.ofile nofile 0 ≡ some new
      → new < nofile
      → s.ofile new ≡ none
      → Dup sz mem esp s others
  unfolding sys_dup
  dup_of old f new e free lt z =
      let held = held_by s.ofile nofile in
      let (fetched, small, is_open) = open_fd_lem s.ofile (argint sz mem esp 0) old f e in
      let below = h.valid old f small is_open in
      let shared = held_one old f nofile s.ofile small is_open in
      let (file, de, c) =
        filedup_lem s.file (held ++ others) f below
          (omega (arith, shared, count-append f held others)) h.counted in
      inr (
        old,
        new,
        f,
        file,
        rw (sys_dup, argfd, e, fdalloc, free, take_fd, set_ofile, dup_file, de),
        fetched,
        is_open,
        z,
        dup-IsOpen s others h new f file lt z below c,
      )

  pub sys_dup_lem : Dup sz mem esp s others
  unfolding sys_dup
  sys_dup_lem = elim (Option-cases (open_fd s.ofile (argint sz mem esp 0))) [
    | inl e ↦ inl (rw (sys_dup, argfd, e), inl (open_fd-NoneOpen s.ofile (argint sz mem esp 0) e))
    | inr ((old, f), e) ↦ elim (free_fd_lem s.ofile nofile 0) [
      | inl (none_free, all) ↦ inl (
        rw (sys_dup, argfd, e, fdalloc, none_free, take_fd),
        inr (λ fd lt. all fd (omega arith) (omega arith)),
      )
      | inr (new, free, lt, z) ↦ dup_of old f new e free (omega arith) z
    ]
  ]

  module _ (pipeclose : ℕ → Bool → Fs.M (Unit {0})) (begin_op end_op : Fs.M (Unit {0})) where
    -- Where the counters of open files are the numbers of descriptors, of the calling process and of other
    -- holders, `sys_close` fails and changes nothing, when the argument is no open descriptor; or it frees the
    -- descriptor and the counters are right. When nobody else has the file, it then calls `pipeclose` for
    -- that end of a pipe, or drops an inode between `begin_op` and `end_op`; otherwise it returns 0 at once.
    pub sys_close_lem : Close sz mem esp s others pipeclose begin_op end_op
    unfolding sys_close
    sys_close_lem = elim (Option-cases (open_fd s.ofile (argint sz mem esp 0))) [
      | inl e ↦ inl (rw (sys_close, argfd, e), open_fd-NoneOpen s.ofile (argint sz mem esp 0) e)
      | inr ((fd, f), e) ↦
          let (fetched, small, is_open) = open_fd_lem s.ofile (argint sz mem esp 0) fd f e in
          let rest = held_by (update s.ofile fd none) nofile ++ others in
          let (file, ce, c) = fileclose_lem s.file [] rest f (h.valid fd f small is_open) (
            IsCounted-same s.file (held_by s.ofile nofile ++ others) (f ∷ rest)
              (λ g. count-closed g fd f s.ofile others small is_open) h.counted) in
          inr (
            fd,
            f,
            file,
            fetched,
            is_open,
            rw (sys_close, argfd, e, set_ofile, close_file, ce)
                (left_open-Goes sz mem esp s others pipeclose begin_op end_op fd f file),
            close-IsOpen s others h fd f file c,
          )
    ]
