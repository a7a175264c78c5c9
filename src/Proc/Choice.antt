-- ===== src/Proc/Choice.antt =====
-- Which process the scheduler runs.
use homework.Prelude.{
  ℕ, zero, suc, ◌+◌, ◌≤◌, ◌<◌, ◌≡◌, ◌≢◌, refl, sym, ap, subst, ◌∙◌, ◌⊎◌, inl, inr, arith, true,
  none, some, ltb, Bool-cases, dec_lt, All, ℕ_discrete, lt→ltb,
}
use homework.Proc.{
  Proc, Ptable, runnable, nproc, is_state, better, highest, choose, scheduler_round, scheduler,
  dispatch,
}

-- A runnable slot that no runnable slot of the `k` from `i` on, nor `high`, precedes in priority.
record Best (proc : ℕ → Proc) (i k high j : ℕ) : Type 0 where
  ready : is_state runnable (proc j) ≡ true
  place : (j ≡ high) ⊎ ((i ≤ j) × (j < i + k))
  before_high : (proc j).priority ≤ (proc high).priority
  before_all :
      (m : ℕ)
      → i ≤ m
      → m < i + k
      → is_state runnable (proc m) ≡ true
      → (proc j).priority ≤ (proc m).priority

-- One round of the loop.
record Better (proc : ℕ → Proc) (i high j : ℕ) : Type 0 where
  ready : is_state runnable (proc j) ≡ true
  place : (j ≡ high) ⊎ (j ≡ i)
  before_high : (proc j).priority ≤ (proc high).priority
  before_slot : is_state runnable (proc i) ≡ true → (proc j).priority ≤ (proc i).priority

better_lem :
    (proc : ℕ → Proc) (i high : ℕ)
    → is_state runnable (proc high) ≡ true
    → Better proc i high (better proc i high)
unfolding better
better_lem proc i high r = elim (Bool-cases (is_state runnable (proc i))) [
  | inl a ↦ elim (Bool-cases (ltb (proc i).priority (proc high).priority)) [
    | inl b ↦
        rw (a, better)
          (rw (b, better)
            (record {
              ready = a;
              place = inr refl;
              before_high = ground arith;
              before_slot = λ e. omega arith;
            }))
    | inr b ↦
        rw (a, better)
          (rw (b, better)
            (record {
              ready = r;
              place = inl refl;
              before_high = omega arith;
              before_slot = λ e. ground arith;
            }))
  ]
  | inr a ↦
      rw (a, better)
        (record { ready = r; place = inl refl; before_high = omega arith; before_slot = λ e. cc })
]

highest_lem :
    (proc : ℕ → Proc) (k i high : ℕ)
    → is_state runnable (proc high) ≡ true
    → Best proc i k high (highest proc k i high)
unfolding highest
highest_lem proc zero i high r = record {
  ready = r;
  place = inl refl;
  before_high = omega arith;
  before_all = λ m le lt. absurd (omega arith);
}
highest_lem proc (suc k) i high r =
    let b = better_lem proc i high r in
    let h = highest_lem proc k (i + 1) (better proc i high) b.ready in
    record {
      ready = h.ready;
      place = elim h.place [
        | inl e ↦ elim b.place [ inl f ↦ inl (e ∙ f) | inr f ↦ inr (omega arith, omega arith) ]
        | inr (le, lt) ↦ inr (omega arith, omega arith)
      ];
      before_high = omega (arith, h.before_high, b.before_high);
      before_all = λ m le lt ready. elim (dec_lt i m) [
        | yes later ↦ h.before_all m (omega arith) (omega arith) ready
        | no here ↦
            let same : m ≡ i = omega arith in
            subst
              (λ z.
                (proc (highest proc k (i + 1) (better proc i high))).priority ≤ (proc z).priority)
              (sym same)
              (omega (
                arith,
                h.before_high,
                b.before_slot (subst (λ z. is_state runnable (proc z) ≡ true) same ready),
              ))
      ];
    }

-- The process that the scheduler picks at a runnable slot is a runnable slot of the table, and no
-- runnable process of the table has a better priority (a smaller number).
choose_lem :
    (t : Ptable) (i : ℕ)
    → i < nproc
    → is_state runnable (t.proc i) ≡ true
    → (choose t i < nproc)
      × (is_state runnable (t.proc (choose t i)) ≡ true)
      × ((m : ℕ)
          → m < nproc
          → is_state runnable (t.proc m) ≡ true
          → (t.proc (choose t i)).priority ≤ (t.proc m).priority)
unfolding choose
choose_lem t i lt r =
    let b = highest_lem t.proc nproc 0 i r in
    (
      elim b.place [ inl e ↦ omega arith | inr (le, h) ↦ omega arith ],
      b.ready,
      λ m h ready. b.before_all m (omega arith) (omega arith) ready,
    )

-- Slot `h` is runnable, and every other runnable slot has a worse priority.
pub record Dominates (h : ℕ) (t : Ptable) : Type 0 where
  pub place : h < nproc
  pub ready : is_state runnable (t.proc h) ≡ true
  pub best :
      (j : ℕ)
      → j < nproc
      → j ≢ h
      → is_state runnable (t.proc j) ≡ true
      → (t.proc h).priority < (t.proc j).priority

choose_dominant :
    (h : ℕ) (t : Ptable) (i : ℕ)
    → Dominates h t
    → i < nproc
    → is_state runnable (t.proc i) ≡ true
    → choose t i ≡ h
choose_dominant h t i d lt r =
    let (place, ready, best) = choose_lem t i lt r in
    elim (ℕ_discrete (choose t i) h) [
      | yes e ↦ e
      | no ne ↦ absurd (omega (arith, best h d.place d.ready, d.best (choose t i) place ne ready))
    ]

-- A round that switches does so to the dominant slot.
round_dominant :
    (h : ℕ) (t : Ptable) (i : ℕ)
    → Dominates h t
    → ((scheduler_round i t).0 ≡ none) ⊎ ((scheduler_round i t).0 ≡ some h)
unfolding scheduler_round
round_dominant h t i d = elim (dec_lt i nproc) [
  | yes lt ↦ elim (Bool-cases (is_state runnable (t.proc i))) [
    | inl r ↦
        inr (
          rw (lt→ltb i nproc lt) (rw (r, scheduler_round) (ap some (choose_dominant h t i d lt r))))
    | inr r ↦ inl (rw (lt→ltb i nproc lt) (rw (r, scheduler_round) refl))
  ]
  | no ge ↦ inl (ground arith)
]

-- Starvation: while slot `h` dominates whenever the processor comes back from it, every switch of
-- the scheduler is to `h`, in however many rounds, from whatever slot it starts.
pub scheduler_dominant :
    (runs : ℕ → Ptable → Ptable) (h : ℕ)
    → ((t : Ptable) → Dominates h t → Dominates h (runs h (dispatch h t)))
    → (k i : ℕ) (t : Ptable) → Dominates h t
    → All (λ p. p ≡ h) (scheduler runs k i t)
unfolding scheduler
scheduler_dominant runs h keeps zero i t d = tt
scheduler_dominant runs h keeps (suc k) i t d = elim (round_dominant h t i d) [
  | inl e ↦ rw (e, scheduler) (scheduler_dominant runs h keeps k (scheduler_round i t).1 t d)
  | inr e ↦
      rw (e, scheduler)
        (
          refl,
          scheduler_dominant runs h keeps k (scheduler_round i t).1 (runs h (dispatch h t))
              (keeps t d),
        )
]
