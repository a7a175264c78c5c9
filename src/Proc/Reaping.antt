-- ===== src/Proc/Reaping.antt =====
-- wait: the slot of a dead child is given back.
use homework.Prelude.{
  ℕ, ◌<◌, ◌≡◌, ◌≢◌, refl, ap, ◌⊎◌, inl, inr, arith, Bool, true, false, ◌&&◌, none, some, Bool-cases,
  Option-cases, update_self, update_ne,
}
use homework.Proc.{
  Proc, Ptable, Services, nproc, is_state, state_eq, zombie, is_child, find_zombie, reap, wait,
  has_kids, set_proc, Waited, returned, failed, sleeps, sleep_on, on_proc,
}
use homework.Proc.Scan.{find_slot-some, find_slot-none}
use homework.Proc.Kin.{free, dead, kind_of, kin}
use homework.Proc.Family.{at, proc_eq-some}

-- Slot `i` is free now, and the other slots are as they were.
pub record Reaped (i : ℕ) (t u : Ptable) : Type 0 where
  pub slot : at u i ≡ record { kind = free; pid = 0; parent = none }
  pub others : (j : ℕ) → i ≢ j → u.proc j ≡ t.proc j
  pub nextpid : u.nextpid ≡ t.nextpid
  pub initproc : u.initproc ≡ t.initproc

pub IsZombieChild : ℕ → Ptable → ℕ → Type 0
IsZombieChild cur t i = (is_child cur (t.proc i) && is_state zombie (t.proc i)) ≡ true

-- How a round of `wait` ends.
pub data WaitOutcome (cur : ℕ) (t : Ptable) (u : Ptable) : Waited → Type 0 where
  reaps :
      (i : ℕ) {pid : ℕ}
      → i < nproc
      → (at t i).kind ≡ dead
      → (at t i).parent ≡ some cur
      → pid ≡ (at t i).pid
      → Reaped i t u
      → WaitOutcome cur t u (returned pid)
  gives_up :
      ((has_kids cur t ≡ false) ⊎ ((t.proc cur).killed ≡ true)) → u ≡ t → WaitOutcome cur t u failed
  waits :
      has_kids cur t ≡ true
      → (t.proc cur).killed ≡ false
      → ((i : ℕ) → i < nproc → ¬ IsZombieChild cur t i)
      → u ≡ sleep_on cur (some (on_proc cur)) t
      → WaitOutcome cur t u sleeps

zombie_dead : (p : Proc) → is_state zombie p ≡ true → kind_of p.state ≡ dead
unfolding is_state state_eq
zombie_dead p h = ground arith

and_true : (a b : Bool) → (a && b) ≡ true → (a ≡ true) × (b ≡ true)
and_true a b h = (ground arith, ground arith)

module _ (services : Services) (cur : ℕ) (t : Ptable) (w : services.World) where
  reap-Reaped : (i : ℕ) → Reaped i t (reap services i t w).0
  unfolding reap set_proc
  reap-Reaped i = record {
    slot = ap kin (update_self t.proc i _);
    others = λ j ne. update_ne t.proc i _ j ne;
    nextpid = refl;
    initproc = refl;
  }

  -- `wait` gives back the slot of a zombie child and returns its pid, whatever else holds; without
  -- one it fails if the caller has no child or is killed, and changes nothing; and else it sleeps on
  -- the caller's own slot.
  pub wait_lem : let r = wait services cur t w in WaitOutcome cur t r.1 r.0
  unfolding wait
  wait_lem = elim (Option-cases (find_zombie cur t)) [
    | inr (i, e) ↦ rw (e, wait) (found i e)
    | inl e ↦ elim (Bool-cases (has_kids cur t)) [
      | inr no_kids ↦ rw (e, wait) (rw no_kids (gives_up (inl no_kids) refl))
      | inl kids ↦ elim (Bool-cases (t.proc cur).killed) [
        | inl killed ↦ rw (e, wait) (rw kids (simp killed (gives_up (inr killed) refl)))
        | inr not_killed ↦
            rw (e, wait) (rw kids (simp not_killed (waits kids not_killed (none_dead e) refl)))
      ]
    ]
  ]
    where
      test : Proc → Bool
      test p = is_child cur p && is_state zombie p

      found :
          (i : ℕ)
          → find_zombie cur t ≡ some i
          → WaitOutcome cur t (reap services i t w).0 (returned (t.proc i).pid)
      found i e =
          let f = find_slot-some test t.proc nproc 0 i (unfold find_zombie in e) in
          let (child, z) = and_true _ _ f.passes in
          reaps i (omega (arith, f.bounds)) (zombie_dead (t.proc i) z)
            (proc_eq-some (t.proc i).parent cur child) refl (reap-Reaped i)

      none_dead : find_zombie cur t ≡ none → (i : ℕ) → i < nproc → ¬ IsZombieChild cur t i
      none_dead e i h q =
          let off =
            find_slot-none test t.proc nproc 0 (unfold find_zombie in e) i (omega arith)
              (omega arith) in
          (unfold IsZombieChild in cc)
