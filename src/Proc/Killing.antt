-- ===== src/Proc/Killing.antt =====
-- `kill`, also of a pid that no process has.
use homework.Prelude.{
  ℕ, ◌<◌, ◌≡◌, ◌≢◌, refl, ap, subst, ◌∙◌, inl, inr, arith, Bool, true, false, some, ◌==◌,
  if◌then◌else◌, Option-cases, update_self, update_ne, ℕ_discrete, update,
}
use homework.Proc.{
  Proc, Ptable, Services, unused, sleeping, runnable, nproc, is_state, set_proc, state_eq,
  find_slot, take_slot, kill, allocproc, allocproc_at, find_unused,
}
use homework.Proc.Scan.{Found, find_slot-some, find_slot-none, find_slot-cong}

abbrev pub has_pid : ℕ → Proc → Bool
has_pid pid p = p.pid == pid

-- The slot after `kill`: marked, and runnable if it slept.
abbrev pub killed_proc : Proc → Proc
killed_proc p = record p {
  killed = true;
  state = if is_state sleeping p then runnable else p.state;
}

-- What `kill` did: it failed, no slot has the pid and the table is as it was; or it marked the first
-- slot that has it, woke that slot's process if it slept, and left all others.
pub data Killed (pid : ℕ) (t : Ptable) : Bool × Ptable → Type 0 where
  missing :
      {r : Bool × Ptable}
      → ((j : ℕ) → j < nproc → (t.proc j).pid ≢ pid)
      → r ≡ (false, t)
      → Killed pid t r
  hit :
      {r : Bool × Ptable} (i : ℕ)
      → Found (has_pid pid) t.proc 0 nproc i
      → r ≡ (true, set_proc t i (killed_proc (t.proc i)))
      → Killed pid t r

kill_lem : (pid : ℕ) (t : Ptable) → Killed pid t (kill pid t)
unfolding kill
kill_lem pid t = elim (Option-cases (find_slot (has_pid pid) t.proc nproc 0)) [
  | inl e ↦
      missing
        (λ j lt same.
          ground
            (arith, find_slot-none (has_pid pid) t.proc nproc 0 e j (omega arith) (omega arith)))
        (rw (e, kill) refl)
  | inr (i, e) ↦ hit i (find_slot-some (has_pid pid) t.proc nproc 0 i e) (rw (e, kill) refl)
]

-- `kill` leaves a free slot free, so the search for one finds what it found before.
killed_free : (p : Proc) → is_state unused (killed_proc p) ≡ is_state unused p
unfolding is_state state_eq
killed_free p = ground arith

set_killed_free :
    (i : ℕ) (t : Ptable) (j : ℕ)
    → is_state unused ((set_proc t i (killed_proc (t.proc i))).proc j) ≡ is_state unused (t.proc j)
unfolding set_proc
set_killed_free i t j = elim (ℕ_discrete i j) [
  | yes same ↦
      ap (is_state unused) (
        subst (λ m. update t.proc i (killed_proc (t.proc i)) m ≡ killed_proc (t.proc m)) same
          (update_self t.proc i (killed_proc (t.proc i))))
      ∙ killed_free (t.proc j)
  | no other ↦ ap (is_state unused) (update_ne t.proc i (killed_proc (t.proc i)) j other)
]

find_unused-killed :
    (i : ℕ) (t : Ptable) → find_unused (set_proc t i (killed_proc (t.proc i))) ≡ find_unused t
unfolding find_unused
find_unused-killed i t =
    find_slot-cong (is_state unused) ((set_proc t i (killed_proc (t.proc i))).proc) t.proc nproc 0
      (set_killed_free i t)

killed_marks : (i : ℕ) (t : Ptable) → ((set_proc t i (killed_proc (t.proc i))).proc i).killed ≡ true
unfolding set_proc
killed_marks i t = ap (λ (p : Proc). p.killed) (update_self t.proc i (killed_proc (t.proc i)))

kill_found :
    (pid i : ℕ) (t : Ptable)
    → find_slot (has_pid pid) t.proc nproc 0 ≡ some i
    → kill pid t ≡ (true, set_proc t i (killed_proc (t.proc i)))
unfolding kill
kill_found pid i t e = rw (e, kill) refl

module _ (services : Services) (forkret ticks : ℕ) (w : services.World) where
  allocproc_at_keeps_killed :
      (i : ℕ) (t : Ptable)
      → (services.kalloc w).0 ≢ 0
      → let r = allocproc_at services forkret ticks i t w in
        (r.0 ≡ some i) × ((r.1.proc i).killed ≡ (t.proc i).killed)
  unfolding allocproc_at set_proc take_slot
  allocproc_at_keeps_killed i t enough =
      let stack : ((services.kalloc w).0 == 0) ≡ false = ground arith in
      (rw (stack, allocproc_at) refl, rw (stack, allocproc_at) (ground arith))

  -- A free slot has pid 0, and `kill` does not ask whether a slot is in use: `kill(0)` succeeds and
  -- marks the first such slot, and `allocproc`, which gives that slot out next, does not reset the
  -- mark. The new process is killed from the start.
  pub kill_zero_marks :
      (i : ℕ) (t : Ptable)
      → find_unused t ≡ some i
      → find_slot (has_pid 0) t.proc nproc 0 ≡ some i
      → (services.kalloc w).0 ≢ 0
      → let r = allocproc services forkret ticks (kill 0 t).1 w in
        ((kill 0 t).0 ≡ true) × (r.0 ≡ some i) × ((r.1.proc i).killed ≡ true)
  unfolding allocproc
  kill_zero_marks i t free zero_pid enough =
      let marked = set_proc t i (killed_proc (t.proc i)) in
      let (taken, kept) = allocproc_at_keeps_killed i marked enough in
      let still_free = find_unused-killed i t ∙ free in
      rw (kill_found 0 i t zero_pid) (
        refl,
        rw (still_free, allocproc) taken,
        rw (still_free, allocproc) (kept ∙ killed_marks i t),
      )
