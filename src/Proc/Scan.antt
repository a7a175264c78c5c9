-- ===== src/Proc/Scan.antt =====
-- The loops over the process table.
use homework.Prelude.{
  ℕ, zero, suc, ◌+◌, ◌≤◌, ◌<◌, ◌≡◌, ◌≢◌, refl, ap, subst, ◌∙◌, inl, inr, arith, Bool, true, false,
  Option, none, some, ◌==◌, if◌then◌else◌, update_ne, update_self, Bool-cases, dec_lt,
}
use homework.Proc.{
  Proc, Ptable, Chan, runnable, nproc, find_slot, for_procs, set_proc, sleeps_on, wake_slot,
  wakeup1,
}

-- The slot found passes the test, and no slot before it does.
pub record Found (test : Proc → Bool) (proc : ℕ → Proc) (i k j : ℕ) : Type 0 where
  pub bounds : (i ≤ j) × (j < i + k)
  pub passes : test (proc j) ≡ true
  pub first : (m : ℕ) → i ≤ m → m < j → test (proc m) ≡ false

pub find_slot-some :
    (test : Proc → Bool) (proc : ℕ → Proc) (k i j : ℕ)
    → find_slot test proc k i ≡ some j
    → Found test proc i k j
unfolding find_slot
find_slot-some test proc zero i j e = cc
find_slot-some test proc (suc k) i j e = elim (Bool-cases (test (proc i))) [
  | inl here ↦
      let same : i ≡ j = ground arith in
      record {
        bounds = omega arith;
        passes = ground arith;
        first = λ m le lt. absurd (omega arith);
      }
  | inr further ↦
      let f = find_slot-some test proc k (i + 1) j (ground arith) in
      record {
        bounds = omega (arith, f.bounds);
        passes = f.passes;
        first = λ m le lt. elim (Bool-cases (i == m)) [
          | inl same ↦ ground arith
          | inr other ↦ f.first m (ground arith) lt
        ];
      }
]

pub find_slot-none :
    (test : Proc → Bool) (proc : ℕ → Proc) (k i : ℕ)
    → find_slot test proc k i ≡ none
    → (j : ℕ) → i ≤ j
    → j < i + k
    → test (proc j) ≡ false
unfolding find_slot
find_slot-none test proc zero i e j le lt = absurd (omega arith)
find_slot-none test proc (suc k) i e j le lt = elim (Bool-cases (i == j)) [
  | inl same ↦ ground arith
  | inr other ↦ find_slot-none test proc k (i + 1) (ground arith) j (ground arith) (omega arith)
]

-- The search sees the slots through the test alone.
pub find_slot-cong :
    (test : Proc → Bool) (proc proc' : ℕ → Proc) (k i : ℕ)
    → ((j : ℕ) → test (proc j) ≡ test (proc' j))
    → find_slot test proc k i ≡ find_slot test proc' k i
unfolding find_slot
find_slot-cong test proc proc' zero i h = refl
find_slot-cong test proc proc' (suc k) i h =
    λ d. if h i d then some i else find_slot-cong test proc proc' k (i + 1) h d

-- What `wakeup1` does to one slot.
abbrev pub woken : Option Chan → Proc → Proc
woken c p = if sleeps_on c p then record p { state = runnable } else p

-- Two tables that differ in their slots only.
pub record SameRest (t u : Ptable) : Type 0 where
  pub nextpid : u.nextpid ≡ t.nextpid
  pub initproc : u.initproc ≡ t.initproc

module _ (c : Option Chan) where
  wake_slot_self : (i : ℕ) (t : Ptable) → (wake_slot c i t).proc i ≡ woken c (t.proc i)
  unfolding wake_slot set_proc
  wake_slot_self i t = elim (Bool-cases (sleeps_on c (t.proc i))) [
    | inl s ↦ rw (s, wake_slot) (update_self t.proc i (record (t.proc i) { state = runnable }))
    | inr s ↦ rw (s, wake_slot) refl
  ]

  wake_slot_ne : (i j : ℕ) (t : Ptable) → i ≢ j → (wake_slot c i t).proc j ≡ t.proc j
  unfolding wake_slot set_proc
  wake_slot_ne i j t ne = elim (Bool-cases (sleeps_on c (t.proc i))) [
    | inl s ↦ rw (s, wake_slot) (update_ne t.proc i (record (t.proc i) { state = runnable }) j ne)
    | inr s ↦ rw (s, wake_slot) refl
  ]

  wake_slot_rest : (i : ℕ) (t : Ptable) → SameRest t (wake_slot c i t)
  unfolding wake_slot set_proc
  wake_slot_rest i t = elim (Bool-cases (sleeps_on c (t.proc i))) [
    | inl s ↦ rw (s, wake_slot) (record { nextpid = refl; initproc = refl })
    | inr s ↦ rw (s, wake_slot) (record { nextpid = refl; initproc = refl })
  ]

  -- The loop over `k` slots from `i` on wakes just those.
  wake_slots_before :
      (k i : ℕ) (t : Ptable) (j : ℕ) → j < i → (for_procs (wake_slot c) k i t).proc j ≡ t.proc j
  unfolding for_procs
  wake_slots_before zero i t j h = refl
  wake_slots_before (suc k) i t j h =
      wake_slots_before k (i + 1) (wake_slot c i t) j (omega arith)
      ∙ wake_slot_ne i j t (λ e. omega arith)

  wake_slots_in :
      (k i : ℕ) (t : Ptable) (j : ℕ)
      → i ≤ j
      → j < i + k
      → (for_procs (wake_slot c) k i t).proc j ≡ woken c (t.proc j)
  unfolding for_procs
  wake_slots_in zero i t j le lt = absurd (omega arith)
  wake_slots_in (suc k) i t j le lt = elim (dec_lt i j) [
    | yes later ↦
        wake_slots_in k (i + 1) (wake_slot c i t) j (omega arith) (omega arith)
        ∙ ap (woken c) (wake_slot_ne i j t (λ e. omega arith))
    | no here ↦
        wake_slots_before k (i + 1) (wake_slot c i t) j (omega arith)
        ∙ subst (λ m. (wake_slot c i t).proc m ≡ woken c (t.proc m)) (omega arith)
            (wake_slot_self i t)
  ]

  wake_slots_rest : (k i : ℕ) (t : Ptable) → SameRest t (for_procs (wake_slot c) k i t)
  unfolding for_procs
  wake_slots_rest zero i t = record { nextpid = refl; initproc = refl }
  wake_slots_rest (suc k) i t =
      let r = wake_slots_rest k (i + 1) (wake_slot c i t) in
      let q = wake_slot_rest i t in
      record { nextpid = r.nextpid ∙ q.nextpid; initproc = r.initproc ∙ q.initproc }

-- `wakeup1` makes exactly the processes that sleep on the channel runnable, and changes nothing else
-- of any slot of the table, nor the rest of it.
pub wakeup1_lem :
    (c : Option Chan) (t : Ptable)
    → SameRest t (wakeup1 c t) × ((j : ℕ) → j < nproc → (wakeup1 c t).proc j ≡ woken c (t.proc j))
unfolding wakeup1
wakeup1_lem c t =
    (wake_slots_rest c nproc 0 t, λ j lt. wake_slots_in c nproc 0 t j (omega arith) (omega arith))
