-- ===== src/Proc/Forking.antt =====
-- fork: a new child, or a failure that leaves the slot free.
use homework.Prelude.{
  ℕ, ◌+◌, ◌≡◌, ◌≢◌, refl, ap, ◌∙◌, ◌⊎◌, inl, inr, Option, none, some, ◌==◌, Bool-cases,
  Option-cases, update, update_self, update_ne, sym, subst, ap₂, ℕ_discrete, arith,
}
use homework.Proc.{
  unused, Proc, Ptable, Services, set_proc, find_unused, allocproc, allocproc_at, fork, fork_after,
  fork_into, take_slot,
}
use homework.Proc.Alloc.{eip, taken}
use homework.Proc.Kin.{free, alive, Kin, kin}
use homework.Proc.Free.{FirstFree, NoneFree, find_unused-FirstFree, find_unused-NoneFree}

-- Slot `i` has kin `k` now, and the other slots are as they were.
pub record OneNew (i : ℕ) (k : Kin) (t u : Ptable) : Type 0 where
  pub slot : kin (u.proc i) ≡ k
  pub others : (j : ℕ) → i ≢ j → u.proc j ≡ t.proc j
  pub nextpid : u.nextpid ≡ t.nextpid + 1
  pub initproc : u.initproc ≡ t.initproc

-- A page directory and the size of the memory in it.
abbrev memory : Proc → ℕ × ℕ
memory p = (p.pgdir, p.sz)

module _ (services : Services) where
  open services use {World, kalloc, copyuvm}

  -- There is no page for the kernel stack, or none for the copy of the memory of `cur`.
  abbrev pub IsShort : (cur : ℕ) → Ptable → World → Type 0
  IsShort cur t w =
      ((kalloc w).0 ≡ 0) ⊎ ((copyuvm (t.proc cur).pgdir (t.proc cur).sz (kalloc w).1).0 ≡ 0)

  -- How `fork` ends: no slot is free; or memory runs out, and the slot taken is free again, under a pid
  -- that no other process will get; or, when it does not, slot `i` is a child of `cur` with the next pid.
  pub data Forked (cur : ℕ) (t : Ptable) (w : World) (r : Option ℕ) (u : Ptable) : Type 0 where
    no_slot : NoneFree t → r ≡ none → u ≡ t → Forked cur t w r u
    no_memory :
        (i : ℕ)
        → FirstFree t i
        → IsShort cur t w
        → r ≡ none
        → OneNew i (record { kind = free; pid = t.nextpid; parent = (t.proc i).parent }) t u
        → Forked cur t w r u
    made :
        (i : ℕ)
        → FirstFree t i
        → ¬ IsShort cur t w
        → r ≡ some t.nextpid
        → OneNew i (record { kind = alive; pid = t.nextpid; parent = some cur }) t u
        → Forked cur t w r u

module _ (services : Services) (forkret ticks : ℕ) where
  open services use {World, kalloc, copyuvm}

  take_slot-OneNew :
      (i : ℕ) (t : Ptable) (p : Proc) → OneNew i (kin p) t (set_proc (take_slot i t) i p)
  unfolding take_slot set_proc
  take_slot-OneNew i t p = record {
    slot = ap kin (update_self (update t.proc i (taken t.nextpid (t.proc i))) i p);
    others = λ j ne.
        update_ne (update t.proc i (taken t.nextpid (t.proc i))) i p j ne
        ∙ update_ne t.proc i (taken t.nextpid (t.proc i)) j ne;
    nextpid = refl;
    initproc = refl;
  }

  -- Every slot has the memory that it had.
  abbrev SameMemory : Ptable → Ptable → Type 0
  SameMemory t u = (j : ℕ) → memory (u.proc j) ≡ memory (t.proc j)

  take_slot-SameMemory :
      (i : ℕ) (t : Ptable) (p : Proc)
      → memory p ≡ memory (t.proc i)
      → SameMemory t (set_proc (take_slot i t) i p)
  take_slot-SameMemory i t p e j = elim (ℕ_discrete i j) [
    | yes same ↦
        subst (λ j. memory ((set_proc (take_slot i t) i p).proc j) ≡ memory (t.proc j)) same
          (unfold take_slot set_proc in
            ap memory (update_self (update t.proc i (taken t.nextpid (t.proc i))) i p) ∙ e)
    | no ne ↦ ap memory ((take_slot-OneNew i t p).others j ne)
  ]

  -- What `allocproc_at` gives back: the slot as an embryo, or free again.
  data Taken (i : ℕ) (t : Ptable) (w : World) (r : Option ℕ) (u : Ptable) (w' : World)
      : Type 0 where
    failed :
        (kalloc w).0 ≡ 0
        → r ≡ none
        → OneNew i (record { kind = free; pid = t.nextpid; parent = (t.proc i).parent }) t u
        → Taken i t w r u w'
    took :
        (kalloc w).0 ≢ 0
        → w' ≡ (kalloc w).1
        → SameMemory t u
        → r ≡ some i
        → OneNew i (record { kind = alive; pid = t.nextpid; parent = (t.proc i).parent }) t u
        → Taken i t w r u w'

  allocproc_at-Taken :
      (i : ℕ) (t : Ptable) (w : World)
      → let r = allocproc_at services forkret ticks i t w in Taken i t w r.0 r.1 r.2
  unfolding allocproc_at
  allocproc_at-Taken i t w = elim (Bool-cases ((kalloc w).0 == 0)) [
    | inl none_left ↦
        rw (none_left, allocproc_at)
          (failed (ground (arith, none_left)) refl (
            take_slot-OneNew i t
              (record (taken t.nextpid (t.proc i)) { kstack = 0; state = unused })))
    | inr enough ↦
        rw (enough, allocproc_at)
          (took (λ e. absurd (ground (arith, enough, e))) refl
            (take_slot-SameMemory i t (embryo_of (kalloc w).0) refl) refl
            (take_slot-OneNew i t (embryo_of (kalloc w).0)))
  ]
    where
      embryo_of : ℕ → Proc
      embryo_of stack = record (taken t.nextpid (t.proc i)) {
        kstack = stack;
        context = update (λ r. 0) eip forkret;
        start_ticks = ticks;
      }

  OneNew-set :
      (i : ℕ) {k : Kin} (t u : Ptable) (p : Proc) {k' : Kin}
      → OneNew i k t u
      → kin p ≡ k'
      → OneNew i k' t (set_proc u i p)
  unfolding set_proc
  OneNew-set i t u p one e = record {
    slot = ap kin (update_self u.proc i p) ∙ e;
    others = λ j ne. update_ne u.proc i p j ne ∙ one.others j ne;
    nextpid = one.nextpid;
    initproc = one.initproc;
  }

  -- The second half of `fork`, at the embryo in slot `i`.
  fork_into-OneNew :
      (cur i pid : ℕ) (parent : Option ℕ) (t u : Ptable) (w : World)
      → OneNew i (record { kind = alive; pid = pid; parent = parent }) t u
      → let r = fork_into services cur i u w in
        (((copyuvm (u.proc cur).pgdir (u.proc cur).sz w).0 ≡ 0)
          × (r.0 ≡ none)
          × OneNew i (record { kind = free; pid = pid; parent = parent }) t r.1)
        ⊎ (((copyuvm (u.proc cur).pgdir (u.proc cur).sz w).0 ≢ 0)
            × (r.0 ≡ some pid)
            × OneNew i (record { kind = alive; pid = pid; parent = some cur }) t r.1)
  unfolding fork_into set_proc
  fork_into-OneNew cur i pid parent t u w one =
      elim (Bool-cases ((copyuvm (u.proc cur).pgdir (u.proc cur).sz w).0 == 0)) [
        | inl none_left ↦ inl (
            rw (none_left, fork_into)
              (
                ground (arith, none_left),
                refl,
                OneNew-set i t u _ one (ap (λ (k : Kin). record k { kind = free }) one.slot),
              ))
        | inr enough ↦ inr (
            rw (enough, fork_into)
              (
                λ e. absurd (ground (arith, enough, e)),
                ap (λ (k : Kin). some k.pid) one.slot,
                OneNew-set i t u _ one (
                    ap
                      (λ (k : Kin).
                        let q : Kin = record { kind = alive; pid = k.pid; parent = some cur } in q)
                      one.slot),
              ))
      ]

  fork_after-Forked :
      (cur i : ℕ) (t : Ptable) (w : World) (np : Option ℕ) (u : Ptable) (w' : World)
      → FirstFree t i
      → Taken i t w np u w'
      → let r = fork_after services cur np u w' in Forked services cur t w r.0 r.1
  unfolding fork_after
  fork_after-Forked cur i t w np u w' found (failed short e one) =
      rw (e, fork_after) (no_memory i found (inl short) refl one)
  fork_after-Forked cur i t w np u w' found (took stack same memory_kept e one) =
      rw (e, fork_after)
        (elim (fork_into-OneNew cur i t.nextpid (t.proc i).parent t u w' one) [
          | inl (none_left, result, free_again) ↦
              no_memory i found (inr (sym copied ∙ none_left)) result free_again
          | inr (enough, result, child) ↦
              made i found (λ short. elim short [ inl z ↦ stack z | inr z ↦ enough (copied ∙ z) ])
                result child
        ])
    where
      copied :
          (copyuvm (u.proc cur).pgdir (u.proc cur).sz w').0
          ≡ (copyuvm (t.proc cur).pgdir (t.proc cur).sz (kalloc w).1).0
      copied = ap₂ (λ m v. (copyuvm m.0 m.1 v).0) (memory_kept cur) same

  pub fork_lem :
      (cur : ℕ) (t : Ptable) (w : World)
      → let r = fork services forkret ticks cur t w in Forked services cur t w r.0 r.1
  fork_lem cur t w = elim (Option-cases (find_unused t)) [
    | inl none_free ↦
        rw (fork_none none_free) (no_slot (find_unused-NoneFree t none_free) refl refl)
    | inr (i, found) ↦ rw (fork_at i found) (
        fork_after-Forked cur i t w _ _ _ (find_unused-FirstFree t i found)
          (allocproc_at-Taken i t w))
  ]
    where
      fork_none : find_unused t ≡ none → fork services forkret ticks cur t w ≡ (none, t, w)
      fork_none e = unfold fork allocproc in rw (e, allocproc) refl

      fork_at :
          (i : ℕ)
          → find_unused t ≡ some i
          → fork services forkret ticks cur t w ≡ (
              let r = allocproc_at services forkret ticks i t w in
              fork_after services cur r.0 r.1 r.2)
      fork_at i e = unfold fork allocproc in rw (e, allocproc) refl
