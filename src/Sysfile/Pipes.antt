-- ===== src/Sysfile/Pipes.antt =====
-- pipe.c: `pipealloc`, and `sys_pipe` of sysfile.c. `kalloc` is a parameter, and so is what is written
-- into the page that becomes the pipe (Pipe has it as `fresh`).
use homework.Prelude.{ℕ, Bool, true, false, Option, none, some, ◌==◌}
use homework.Fs
use homework.File.{FileType, File}
use homework.Syscall.Args.{argptr}
use homework.Sysfile.Machine.{M, ◌>>=◌, ◌>>◌, pure, on_fs, set_ofile, set_file}
use homework.Sysfile.Descriptors.{fdalloc, close_file}
use homework.Sysfile.Paths.{new_file}

unfoldable pub pipe_end : File → (p : ℕ) → (writable : Bool) → File
pipe_end f p true = record f {
  kind = FileType.fd_pipe;
  readable = false;
  writable = true;
  pipe = p;
}
pipe_end f p false = record f {
  kind = FileType.fd_pipe;
  readable = true;
  writable = false;
  pipe = p;
}

module _ (kalloc : Fs.M ℕ) (make_pipe : ℕ → Fs.M (Unit {0}))
    (pipeclose : ℕ → Bool → Fs.M (Unit {0})) (begin_op end_op : Fs.M (Unit {0})) where
  abbrev close : ℕ → M (Unit {0})
  close = close_file pipeclose begin_op end_op

  -- The two files are there. `kfree` of `bad:` is not reached, as nothing fails behind `kalloc`.
  unfoldable pub pipe_between : (f0 f1 : ℕ) → M (Option (ℕ × ℕ))
  unfolding close_file set_file pipe_end
  pipe_between f0 f1 = do
    p ← on_fs kalloc
    elim (p == 0) as (λ _. M (Option (ℕ × ℕ))) [
      | true ↦ do close f0; close f1; pure none
      | false ↦ do
        on_fs (make_pipe p)
        (λ s. set_file f0 (pipe_end (s.file f0) p false) s)
        (λ s. set_file f1 (pipe_end (s.file f1) p true) s)
        pure (some (f0, f1))
    ]

  unfoldable pub pipealloc : M (Option (ℕ × ℕ))
  unfolding new_file close_file pipe_between
  pipealloc = do
    a ← new_file
    elim a as (λ _. M (Option (ℕ × ℕ))) [
      | none ↦ pure none
      | some f0 ↦ do
        b ← new_file
        elim b as (λ _. M (Option (ℕ × ℕ))) [
          | none ↦ do close f0; pure none
          | some f1 ↦ pipe_between f0 f1
        ]
    ]

  unfoldable pub close_both : (rf wf : ℕ) → M (Option (ℕ × ℕ))
  unfolding close_file
  close_both rf wf = do close rf; close wf; pure none

  -- The two descriptors.
  unfoldable pub pipe_fds : (rf wf : ℕ) → M (Option (ℕ × ℕ))
  unfolding fdalloc close_both set_ofile
  pipe_fds rf wf = do
    a ← fdalloc rf
    elim a as (λ _. M (Option (ℕ × ℕ))) [
      | none ↦ close_both rf wf
      | some fd0 ↦ do
        b ← fdalloc wf
        elim b as (λ _. M (Option (ℕ × ℕ))) [
          | none ↦ do set_ofile fd0 none; close_both rf wf
          | some fd1 ↦ pure (some (fd0, fd1))
        ]
    ]

  -- Where the descriptors are put, and the two; `none` stands for -1.
  unfoldable pub sys_pipe : (sz : ℕ) → (ℕ → ℕ) → (esp : ℕ) → M (Option (ℕ × (ℕ × ℕ)))
  unfolding argptr pipealloc pipe_fds
  sys_pipe sz mem esp = elim (argptr sz mem esp 0 8) as (λ _. M (Option (ℕ × (ℕ × ℕ)))) [
    | none ↦ pure none
    | some p ↦ do
      r ← pipealloc
      elim r as (λ _. M (Option (ℕ × (ℕ × ℕ)))) [
        | none ↦ pure none
        | some (rf, wf) ↦ do
          fds ← pipe_fds rf wf
          pure (elim fds [ none ↦ none | some q ↦ some (p, q) ])
      ]
  ]
