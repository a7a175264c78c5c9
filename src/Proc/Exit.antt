-- ===== src/Proc/Exit.antt =====
-- proc.c: exit and wait.
use homework.Prelude.{
  ℕ, zero, suc, ◌+◌, Bool, true, false, ◌&&◌, ◌||◌, not, Option, none, some, List, [], ◌∷◌, ◌==◌,
  if◌then◌else◌, update,
}
use homework.Proc.Table.{
  unused, zombie, Chan, on_proc, Proc, Ptable, Services, nproc, nofile, find_slot, for_procs,
  is_state, set_proc, proc_eq,
}
use homework.Proc.Wake.{wakeup1, sleep_on}

-- The body of the loop that passes children of `cur` on to init.
unfoldable pub reparent_slot : ℕ → ℕ → Ptable → Ptable
unfolding set_proc is_state proc_eq
reparent_slot cur i t =
    if proc_eq (t.proc i).parent (some cur)
    then (let t' = set_proc t i (record (t.proc i) { parent = some t.initproc }) in
        let woken = wakeup1 (some (on_proc t.initproc)) t' in
        if is_state zombie (t'.proc i) then woken else t')
    else t

unfoldable pub reparent : ℕ → Ptable → Ptable
unfolding for_procs reparent_slot
reparent cur t = for_procs (reparent_slot cur) nproc 0 t

-- `wakeup1(curproc->parent)`: a process sleeps on the address of its parent's slot.
unfoldable pub parent_chan : Option ℕ → Option Chan
parent_chan none = none
parent_chan (some i) = some (on_proc i)

-- The part of `exit` under `ptable.lock`, up to `sched()`.
unfoldable pub exit_table : ℕ → Ptable → Ptable
unfolding parent_chan set_proc
exit_table cur t =
    let t₁ = wakeup1 (parent_chan (t.proc cur).parent) t in
    let t₂ = reparent cur t₁ in set_proc t₂ cur (record (t₂.proc cur) { state = zombie })

-- `p->parent == curproc`
abbrev pub is_child : ℕ → Proc → Bool
is_child cur p = proc_eq p.parent (some cur)

-- The scan of `wait` returns at the first child that is a zombie; `havekids` is set by any child.
unfoldable pub find_zombie : ℕ → Ptable → Option ℕ
unfolding find_slot is_state proc_eq
find_zombie cur t = find_slot (λ p. is_child cur p && is_state zombie p) t.proc nproc 0

unfoldable pub has_kids : ℕ → Ptable → Bool
unfolding find_slot proc_eq
has_kids cur t = elim (find_slot (is_child cur) t.proc nproc 0) [ none ↦ false | some i ↦ true ]

-- How a round of `wait` ends.
pub data Waited : Type 0 where
  returned : ℕ → Waited
  failed : Waited
  sleeps : Waited

abbrev pub clear_first : List ℕ → List ℕ
clear_first [] = []
clear_first (c ∷ cs) = 0 ∷ cs

module _ (services : Services) where
  open services use {World, kfree, freevm, fileclose, iput_in_op}

  unfoldable pub close_files : ℕ → ℕ → (ℕ → Option ℕ) → World → (ℕ → Option ℕ) × World
  close_files zero i files w = (files, w)
  close_files (suc k) i files w = elim (files i) [
    | none ↦ close_files k (i + 1) files w
    | some f ↦ close_files k (i + 1) (update files i none) (fileclose f w)
  ]

  -- `exit`; `none` is the panic "init exiting".
  unfoldable pub exit : ℕ → Ptable → World → Option (Ptable × World)
  unfolding close_files set_proc exit_table
  exit cur t w =
      if cur == t.initproc
      then none
      else (let p = t.proc cur in
          let (files, w₁) = close_files nofile 0 p.ofile w in
          some (
            exit_table cur (set_proc t cur (record p { ofile = files; cwd = none })),
            iput_in_op p.cwd w₁,
          ))

  -- A zombie's slot is given back.
  unfoldable pub reap : ℕ → Ptable → World → Ptable × World
  unfolding set_proc
  reap i t w =
      let p = t.proc i in
      (
        set_proc t i (record p {
          kstack = 0;
          pid = 0;
          parent = none;
          name = clear_first p.name;
          killed = false;
          state = unused;
        }),
        freevm p.pgdir (kfree p.kstack w),
      )

  -- One round of the loop of `wait`, up to its return or to `sched()` in `sleep`.
  unfoldable pub wait : ℕ → Ptable → World → Waited × Ptable × World
  unfolding find_zombie has_kids reap
  wait cur t w = elim (find_zombie cur t) [
    | some i ↦ (returned (t.proc i).pid, (reap i t w).0, (reap i t w).1)
    | none ↦
        if not (has_kids cur t) || (t.proc cur).killed
        then (failed, t, w)
        else (sleeps, sleep_on cur (some (on_proc cur)) t, w)
  ]
