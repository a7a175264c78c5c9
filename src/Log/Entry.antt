-- ===== src/Log/Entry.antt =====
-- `log_write`: one entry for each block, however often it is written.
use homework.Prelude.{
  ℕ, zero, suc, ◌+◌, ◌≤◌, ◌<◌, ◌≡◌, ◌≢◌, refl, subst, ◌⊎◌, inl, inr, arith, none, some, update,
  Bool-cases, ◌==◌, if◌then◌else◌,
}
use homework.Log.{Log, logsize, find_entry, log_entry}

-- Where the loop stops: at the first entry of `b`, or past the end if there is none.
record Found (block : ℕ → ℕ) (b stop i r : ℕ) : Type 0 where
  bounds : (i ≤ r) × (r ≤ stop)
  hit : r < stop → block r ≡ b
  first : (j : ℕ) → i ≤ j → j < r → block j ≢ b

find_entry_lem : (block : ℕ → ℕ) (b k i : ℕ) → Found block b (i + k) i (find_entry block b k i)
unfolding find_entry
find_entry_lem block b zero i = record {
  bounds = omega arith;
  hit = λ h. absurd (omega arith);
  first = λ j h h'. absurd (omega arith);
}
find_entry_lem block b (suc k) i = elim (Bool-cases (block i == b)) [
  | inl here ↦
      rw (here, find_entry)
        (record {
          bounds = omega arith;
          hit = λ h. ground arith;
          first = λ j h h'. absurd (omega arith);
        })
  | inr further ↦
      let f = find_entry_lem block b k (i + 1) in
      rw (further, find_entry)
        (record {
          bounds = omega (arith, f.bounds);
          hit = λ h. f.hit (omega arith);
          first = λ j h h'. elim (Bool-cases (i == j)) [
            | inl same ↦ ground arith
            | inr other ↦ f.first j (ground arith) h'
          ];
        })
]

-- The header after `log_write` of block `b`.
pub record Entered (l : Log) (b : ℕ) (l' : Log) : Type 0 where
  pub same_start : l'.start ≡ l.start
  pub same_size : l'.size ≡ l.size
  pub same_outstanding : l'.outstanding ≡ l.outstanding
  pub same_committing : l'.committing ≡ l.committing
  pub grows : (l.lh.n ≤ l'.lh.n) × (l'.lh.n ≤ l.lh.n + 1)
  pub keeps : (i : ℕ) → i < l.lh.n → l'.lh.block i ≡ l.lh.block i
  pub entered : (i : ℕ) × (i < l'.lh.n) × (l'.lh.block i ≡ b)
  pub no_others : (i : ℕ) → i < l'.lh.n → (i < l.lh.n) ⊎ (l'.lh.block i ≡ b)
  pub absorbed : (i : ℕ) → i < l.lh.n → l.lh.block i ≡ b → l'.lh.n ≡ l.lh.n

entry_at : (l : Log) (b i : ℕ) → Log
entry_at l b i = record l {
  lh = record { n = if i == l.lh.n then l.lh.n + 1 else l.lh.n; block = update l.lh.block i b };
}

entry_at-Entered :
    (l : Log) (b i : ℕ) → Found l.lh.block b l.lh.n 0 i → Entered l b (entry_at l b i)
unfolding entry_at
entry_at-Entered l b i f = record {
  same_start = refl;
  same_size = refl;
  same_outstanding = refl;
  same_committing = refl;
  grows = (ground arith, ground arith);
  keeps = λ j lt. ground (arith, f.hit);
  entered = (i, ground (arith, f.bounds), ground arith);
  no_others = λ j lt. ground (arith, f.bounds);
  absorbed = λ j lt e. ground (arith, f.bounds, f.first j);
}

-- Room for one more entry, inside a transaction.
pub record HasRoom (l : Log) : Type 0 where
  pub bounded : l.lh.n < logsize
  pub fits : l.lh.n + 1 < l.size
  pub active : 0 < l.outstanding

pub log_entry_room :
    (l : Log) (b : ℕ) → HasRoom l → (l' : Log) × (log_entry l b ≡ some l') × Entered l b l'
unfolding log_entry entry_at
log_entry_room l b h =
    let f = find_entry_lem l.lh.block b l.lh.n 0 in
    (
      entry_at l b (find_entry l.lh.block b l.lh.n 0),
      ground arith,
      entry_at-Entered l b _
          (subst (λ m. Found l.lh.block b m 0 (find_entry l.lh.block b l.lh.n 0)) (omega arith) f),
    )

-- Without room, or outside a transaction, it panics.
pub log_entry_full :
    (l : Log) (b : ℕ)
    → (logsize ≤ l.lh.n) ⊎ (l.size ≤ l.lh.n + 1) ⊎ (l.outstanding ≡ 0)
    → log_entry l b ≡ none
unfolding log_entry
log_entry_full l b h = ground arith

log_entry-HasRoom : (l : Log) (b : ℕ) {l' : Log} → log_entry l b ≡ some l' → HasRoom l
unfolding log_entry
log_entry-HasRoom l b e = record {
  bounded = ground arith;
  fits = ground arith;
  active = ground arith;
}

pub log_entry-Entered :
    (l : Log) (b : ℕ) {l' : Log} → log_entry l b ≡ some l' → HasRoom l × Entered l b l'
log_entry-Entered l b e =
    let h = log_entry-HasRoom l b e in
    let (l'', f, entered) = log_entry_room l b h in (h, subst (Entered l b) (cc) entered)
