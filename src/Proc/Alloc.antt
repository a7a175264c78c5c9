-- ===== src/Proc/Alloc.antt =====
-- proc.c: allocproc and fork.
use homework.Prelude.{ℕ, zero, suc, ◌+◌, Option, none, some, ◌==◌, if◌then◌else◌, update}
use homework.Proc.Table.{
  unused, embryo, runnable, Proc, Ptable, Services, nproc, nofile, find_slot, is_state, set_proc,
}

-- The word of `eax` in the trap frame, and of `eip` in the context.
abbrev pub eax : ℕ
eax = 7

abbrev pub eip : ℕ
eip = 4

unfoldable pub find_unused : Ptable → Option ℕ
unfolding find_slot is_state
find_unused t = find_slot (is_state unused) t.proc nproc 0

abbrev pub taken : ℕ → Proc → Proc
taken pid p = record p { state = embryo; pid = pid; priority = 10 }

-- The critical section of `allocproc`.
unfoldable pub take_slot : ℕ → Ptable → Ptable
unfolding set_proc
take_slot i t = record (set_proc t i (taken t.nextpid (t.proc i))) { nextpid = t.nextpid + 1 }

module _ (services : Services) where
  open services use {World, kalloc, kfree, copyuvm, filedup, idup}

  -- The slot taken, then its kernel stack: `forkret` is the address at which the process starts.
  unfoldable pub allocproc_at : (forkret ticks i : ℕ) → Ptable → World → Option ℕ × Ptable × World
  allocproc_at forkret ticks i t w =
      let p = taken t.nextpid (t.proc i) in
      let (stack, w') = kalloc w in
      if stack == 0
      then (none, set_proc (take_slot i t) i (record p { kstack = 0; state = unused }), w')
      else (
        some i,
        set_proc (take_slot i t) i (record p {
          kstack = stack;
          context = update (λ r. 0) eip forkret;
          start_ticks = ticks;
        }),
        w',
      )

  unfoldable pub allocproc : (forkret ticks : ℕ) → Ptable → World → Option ℕ × Ptable × World
  allocproc forkret ticks t w = elim (find_unused t) [
    | none ↦ (none, t, w)
    | some i ↦ allocproc_at forkret ticks i t w
  ]

  -- `for (i = 0; i < NOFILE; i++) if (ofile[i]) np->ofile[i] = filedup(ofile[i])`
  unfoldable pub dup_files :
      (ofile : ℕ → Option ℕ) → ℕ → ℕ → (ℕ → Option ℕ) → World → (ℕ → Option ℕ) × World
  dup_files ofile zero i new w = (new, w)
  dup_files ofile (suc k) i new w = elim (ofile i) [
    | none ↦ dup_files ofile k (i + 1) new w
    | some f ↦ dup_files ofile k (i + 1) (update new i (some f)) (filedup f w)
  ]

  -- fork after `allocproc` has returned slot `np`; the result is the pid, `none` for -1.
  unfoldable pub fork_into : (cur np : ℕ) → Ptable → World → Option ℕ × Ptable × World
  unfolding dup_files set_proc
  fork_into cur np t w =
      let p = t.proc cur in
      let n = t.proc np in
      let (dir, w₁) = copyuvm p.pgdir p.sz w in
      if dir == 0
      then (
        none,
        set_proc t np (record n { pgdir = 0; kstack = 0; state = unused }),
        kfree n.kstack w₁,
      )
      else (let (files, w₂) = dup_files p.ofile nofile 0 n.ofile w₁ in
          (
            some n.pid,
            set_proc t np (record n {
              pgdir = dir;
              sz = p.sz;
              parent = some cur;
              tf = update p.tf eax 0;
              ofile = files;
              cwd = p.cwd;
              name = p.name;
              state = runnable;
            }),
            idup p.cwd w₂,
          ))

  unfoldable pub fork_after : ℕ → Option ℕ → Ptable → World → Option ℕ × Ptable × World
  fork_after cur none t w = (none, t, w)
  fork_after cur (some np) t w = fork_into cur np t w

  unfoldable pub fork : (forkret ticks cur : ℕ) → Ptable → World → Option ℕ × Ptable × World
  unfolding fork_after
  fork forkret ticks cur t w =
      let (np, t', w') = allocproc forkret ticks t w in fork_after cur np t' w'
