-- ===== src/Proc/Kin.antt =====
-- Who is alive, under which pid and with which parent; what each operation does to that.
use homework.Prelude.{
  ℕ, zero, suc, ◌+◌, ◌≤◌, ◌<◌, ◌≡◌, ◌≢◌, refl, ap, ap₂, subst, ◌∙◌, ◌⊎◌, inl, inr, arith, true,
  false, Option, none, some, ◌==◌, if◌then◌else◌, Bool-cases, dec_lt, ℕ_discrete, update,
  update_self, update_ne,
}
use homework.Proc.{
  ProcState, unused, embryo, sleeping, runnable, running, zombie, Chan, on_proc, Proc, Ptable,
  nproc, is_state, state_eq, set_proc, proc_eq, for_procs, sleeps_on, wakeup1, sleep_on, tidy_up,
  yield_cpu, dispatch, reparent_slot, reparent, parent_chan, exit_table,
}
use homework.Proc.Killing.{killed_proc}
use homework.Proc.Scan.{woken, wakeup1_lem}

-- EMBRYO, SLEEPING, RUNNABLE and RUNNING are alive; ZOMBIE is dead.
pub data Kind : Type 0 where
  free alive dead : Kind

abbrev pub kind_of : ProcState → Kind
kind_of unused = free
kind_of zombie = dead
kind_of embryo = alive
kind_of sleeping = alive
kind_of runnable = alive
kind_of running = alive

pub record Kin : Type 0 where
  pub kind : Kind
  pub pid : ℕ
  pub parent : Option ℕ

abbrev pub kin : Proc → Kin
kin p = record { kind = kind_of p.state; pid = p.pid; parent = p.parent }

-- The family is as before.
pub record SameKin (t u : Ptable) : Type 0 where
  pub slots : (j : ℕ) → j < nproc → kin (u.proc j) ≡ kin (t.proc j)
  pub nextpid : u.nextpid ≡ t.nextpid
  pub initproc : u.initproc ≡ t.initproc

pub SameKin-trans : {t u v : Ptable} → SameKin t u → SameKin u v → SameKin t v
SameKin-trans a b = record {
  slots = λ j h. b.slots j h ∙ a.slots j h;
  nextpid = b.nextpid ∙ a.nextpid;
  initproc = b.initproc ∙ a.initproc;
}

-- One slot changed.
pub set_proc-kin :
    (t : Ptable) (i : ℕ) (p : Proc) (j : ℕ)
    → kin ((set_proc t i p).proc j) ≡ (if i == j then kin p else kin (t.proc j))
unfolding set_proc
set_proc-kin t i p j = elim (Bool-cases (i == j)) [ inl e ↦ rw e refl | inr e ↦ rw e refl ]

pub SameKin-set :
    (t : Ptable) (i : ℕ) (p : Proc) → kin p ≡ kin (t.proc i) → SameKin t (set_proc t i p)
unfolding set_proc
SameKin-set t i p e = record {
  slots = λ j h. elim (ℕ_discrete i j) [
    | yes same ↦
        ap kin (subst (λ m. update t.proc i p m ≡ p) same (update_self t.proc i p))
        ∙ e
        ∙ ap (λ m. kin (t.proc m)) same
    | no other ↦ ap kin (update_ne t.proc i p j other)
  ];
  nextpid = refl;
  initproc = refl;
}

woken-kin : (c : Option Chan) (p : Proc) → kin (woken c p) ≡ kin p
unfolding sleeps_on is_state state_eq
woken-kin c p = ground arith

pub wakeup1-SameKin : (c : Option Chan) (t : Ptable) → SameKin t (wakeup1 c t)
wakeup1-SameKin c t =
    let (rest, slots) = wakeup1_lem c t in
    record {
      slots = λ j h. ap kin (slots j h) ∙ woken-kin c (t.proc j);
      nextpid = rest.nextpid;
      initproc = rest.initproc;
    }

killed_proc-kin : (p : Proc) → kin (killed_proc p) ≡ kin p
unfolding is_state state_eq
killed_proc-kin p = ground arith

module _ (i : ℕ) (t : Ptable) where
  pub sleep_on-SameKin :
      (c : Option Chan) → (kin (t.proc i)).kind ≡ alive → SameKin t (sleep_on i c t)
  unfolding sleep_on
  sleep_on-SameKin c a =
      SameKin-set t i (record (t.proc i) { chan = c; state = sleeping }) (ground arith)

  pub tidy_up-SameKin : SameKin t (tidy_up i t)
  unfolding tidy_up
  tidy_up-SameKin = SameKin-set t i (record (t.proc i) { chan = none }) refl

  pub yield_cpu-SameKin : (kin (t.proc i)).kind ≡ alive → SameKin t (yield_cpu i t)
  unfolding yield_cpu
  yield_cpu-SameKin a = SameKin-set t i (record (t.proc i) { state = runnable }) (ground arith)

  pub dispatch-SameKin : (kin (t.proc i)).kind ≡ alive → SameKin t (dispatch i t)
  unfolding dispatch
  dispatch-SameKin a = SameKin-set t i (record (t.proc i) { state = running }) (ground arith)

  pub killed-SameKin : SameKin t (set_proc t i (killed_proc (t.proc i)))
  killed-SameKin = SameKin-set t i (killed_proc (t.proc i)) (killed_proc-kin (t.proc i))

-- What the loop in `exit` does to a slot: a child of `cur` becomes a child of init.
abbrev pub adopted : (cur init : ℕ) → Kin → Kin
adopted cur init k = if proc_eq k.parent (some cur) then record k { parent = some init } else k

record Adopts (cur i : ℕ) (t u : Ptable) : Type 0 where
  here : i < nproc → kin (u.proc i) ≡ adopted cur t.initproc (kin (t.proc i))
  elsewhere : (j : ℕ) → j < nproc → i ≢ j → kin (u.proc j) ≡ kin (t.proc j)
  nextpid : u.nextpid ≡ t.nextpid
  initproc : u.initproc ≡ t.initproc

reparent_slot-Adopts : (cur i : ℕ) (t : Ptable) → Adopts cur i t (reparent_slot cur i t)
unfolding reparent_slot
reparent_slot-Adopts cur i t = elim (Bool-cases (proc_eq (t.proc i).parent (some cur))) [
  | inr other ↦
      rw (other, reparent_slot)
        (record {
          here = λ h. rw other refl;
          elsewhere = λ j h ne. refl;
          nextpid = refl;
          initproc = refl;
        })
  | inl child ↦ rw (child, reparent_slot) (ends child (Bool-cases (is_state zombie (t'.proc i))))
]
  where
    t' : Ptable
    t' = set_proc t i (record (t.proc i) { parent = some t.initproc })

    given : proc_eq (t.proc i).parent (some cur) ≡ true → Adopts cur i t t'
    given child = record {
      here = λ h.
          ap kin (update_self t.proc i (record (t.proc i) { parent = some t.initproc }))
          ∙ (rw child refl);
      elsewhere = λ j h ne.
          ap kin (update_ne t.proc i (record (t.proc i) { parent = some t.initproc }) j ne);
      nextpid = refl;
      initproc = refl;
    }

    ends :
        proc_eq (t.proc i).parent (some cur) ≡ true
        → (is_state zombie (t'.proc i) ≡ true) ⊎ (is_state zombie (t'.proc i) ≡ false)
        → Adopts cur i t
            (if is_state zombie (t'.proc i) then wakeup1 (some (on_proc t.initproc)) t' else t')
    ends child (inr e) = rw e (given child)
    ends child (inl e) =
        let g = given child in
        let w = wakeup1-SameKin (some (on_proc t.initproc)) t' in
        rw e (record {
          here = λ h. w.slots i h ∙ g.here h;
          elsewhere = λ j h ne. w.slots j h ∙ g.elsewhere j h ne;
          nextpid = w.nextpid ∙ g.nextpid;
          initproc = w.initproc ∙ g.initproc;
        })

module _ (cur : ℕ) where
  record AdoptsFrom (i k : ℕ) (t u : Ptable) : Type 0 where
    before : (j : ℕ) → j < nproc → j < i → kin (u.proc j) ≡ kin (t.proc j)
    inside :
        (j : ℕ)
        → j < nproc
        → i ≤ j
        → j < i + k
        → kin (u.proc j) ≡ adopted cur t.initproc (kin (t.proc j))
    nextpid : u.nextpid ≡ t.nextpid
    initproc : u.initproc ≡ t.initproc

  reparent_from : (k i : ℕ) (t : Ptable) → AdoptsFrom i k t (for_procs (reparent_slot cur) k i t)
  unfolding for_procs
  reparent_from zero i t = record {
    before = λ j h l. refl;
    inside = λ j h le lt. absurd (omega arith);
    nextpid = refl;
    initproc = refl;
  }
  reparent_from (suc k) i t =
      let a = reparent_slot-Adopts cur i t in
      let r = reparent_from k (i + 1) (reparent_slot cur i t) in
      record {
        before = λ j h l. r.before j h (omega arith) ∙ a.elsewhere j h (λ e. omega arith);
        inside = λ j h le lt. elim (dec_lt i j) [
          | yes later ↦
              r.inside j h (omega arith) (omega arith)
              ∙ ap₂ (adopted cur) a.initproc (a.elsewhere j h (λ e. omega arith))
          | no here ↦
              r.before j h (omega arith)
              ∙ subst
                  (λ m.
                    kin ((reparent_slot cur i t).proc m) ≡ adopted cur t.initproc (kin (t.proc m)))
                  (omega arith) (a.here (omega arith))
        ];
        nextpid = r.nextpid ∙ a.nextpid;
        initproc = r.initproc ∙ a.initproc;
      }

-- The family after the locked part of `exit`: children of `cur` are init's, and `cur` is dead.
pub record Exited (cur : ℕ) (t u : Ptable) : Type 0 where
  pub others :
      (j : ℕ) → j < nproc → cur ≢ j → kin (u.proc j) ≡ adopted cur t.initproc (kin (t.proc j))
  pub self :
      cur < nproc
      → kin (u.proc cur) ≡ record (adopted cur t.initproc (kin (t.proc cur))) { kind = dead }
  pub nextpid : u.nextpid ≡ t.nextpid
  pub initproc : u.initproc ≡ t.initproc

pub exit_table-Exited : (cur : ℕ) (t : Ptable) → Exited cur t (exit_table cur t)
unfolding exit_table
exit_table-Exited cur t =
    let w = wakeup1-SameKin (parent_chan (t.proc cur).parent) t in
    let t₁ = wakeup1 (parent_chan (t.proc cur).parent) t in
    let r = reparented t₁ in
    let last = record ((reparent cur t₁).proc cur) { state = zombie } in
    record {
      others = λ j h ne.
          ap kin (update_ne (reparent cur t₁).proc cur last j ne)
          ∙ r.inside j h (omega arith) (omega arith)
          ∙ ap₂ (adopted cur) w.initproc (w.slots j h);
      self = λ h.
          ap kin (update_self (reparent cur t₁).proc cur last)
          ∙ ap (λ (k : Kin). record k { kind = dead })
              (r.inside cur h (omega arith) (omega arith)
                ∙ ap₂ (adopted cur) w.initproc (w.slots cur h));
      nextpid = r.nextpid ∙ w.nextpid;
      initproc = r.initproc ∙ w.initproc;
    }
  where
    reparented : (u : Ptable) → AdoptsFrom cur 0 nproc u (reparent cur u)
    reparented u = unfold reparent in reparent_from cur nproc 0 u
