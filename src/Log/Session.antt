-- ===== src/Log/Session.antt =====
-- The system calls in progress over the log, and the blocks that each has written.
use homework.Prelude.{
  Bool, ℕ, ◌+◌, ◌*◌, ◌≤◌, ◌<◌, ◌≡◌, refl, ap, ◌∙◌, arith, some, false, true, List, [], ◌∷◌, ◌++◌,
  length, length-append, ◌-◌, count, ◌==◌, if◌then◌else◌,
}
use homework.Log.{Log, maxopblocks, log_entry, begin_op, end_op_start, end_op_finish}

-- The log with the system calls in progress: for each the different blocks that it has written.
pub record Session : Type 0 where
  pub log : Log
  pub ops : List (List ℕ)

-- A block is noted once, however often a call writes it.
abbrev pub noted : ℕ → List ℕ → List ℕ
noted b bs = if count b bs == 0 then b ∷ bs else bs

-- A call may write `maxopblocks` different blocks, as often as it likes; that is the contract in param.h.
abbrev pub MayWrite : ℕ → List ℕ → Type 0
MayWrite b bs = length (noted b bs) ≤ maxopblocks

-- How many more blocks the calls may write.
abbrev pub total : List (List ℕ) → ℕ
total [] = 0
total (bs ∷ ops) = maxopblocks - length bs + total ops

-- Sections of calls in any order. The last `end_op` hands over to `commit`, which empties the log
-- while `committing` is set, and then finishes.
pub data Step (s : Session) : Session → Type 0 where
  begins : {l : Log} → begin_op s.log ≡ some l → Step s (record { log = l; ops = [] ∷ s.ops })
  writes :
      (before after : List (List ℕ)) (bs : List ℕ) (b : ℕ) {l : Log}
      → s.ops ≡ before ++ bs ∷ after
      → MayWrite b bs
      → log_entry s.log b ≡ some l
      → Step s (record { log = l; ops = before ++ noted b bs ∷ after })
  ends :
      (before after : List (List ℕ)) (bs : List ℕ) {l : Log} {do_commit : Bool}
      → s.ops ≡ before ++ bs ∷ after
      → end_op_start s.log ≡ some (l, do_commit)
      → Step s (record { log = l; ops = before ++ after })
  commits :
      {l : Log}
      → s.log.committing ≡ true
      → l ≡ record s.log { lh = record { n = 0; block = s.log.lh.block } }
      → Step s (record { log = end_op_finish l; ops = s.ops })

pub data Reach (start size : ℕ) : Session → Type 0 where
  boot :
      (block : ℕ → ℕ)
      → Reach start size (record {
        log = record {
          start = start;
          size = size;
          outstanding = 0;
          committing = false;
          lh = record { n = 0; block = block };
        };
        ops = [];
      })
  later : {s t : Session} → Reach start size s → Step s t → Reach start size t

-- The blocks that a call has written are logged.
abbrev pub IsLogged : Log → ℕ → Type 0
IsLogged l b = (i : ℕ) × (i < l.lh.n) × (l.lh.block i ≡ b)

abbrev pub AllLogged : Log → List (List ℕ) → Type 0
AllLogged l [] = Unit {0}
AllLogged l (bs ∷ ops) = ((b : ℕ) → 1 ≤ count b bs → IsLogged l b) × AllLogged l ops

pub total-append : (xs ys : List (List ℕ)) → total (xs ++ ys) ≡ total xs + total ys
total-append [] ys = omega arith
total-append (bs ∷ xs) ys = omega (arith, total-append xs ys)

pub total-le : (ops : List (List ℕ)) → total ops ≤ length ops * maxopblocks
total-le [] = omega arith
total-le (bs ∷ ops) = omega (arith, total-le ops)

-- What is logged stays logged when entries are kept.
pub AllLogged-kept :
    (l l' : Log) (ops : List (List ℕ))
    → ((b : ℕ) → IsLogged l b → IsLogged l' b)
    → AllLogged l ops
    → AllLogged l' ops
AllLogged-kept l l' [] keep h = tt
AllLogged-kept l l' (bs ∷ ops) keep h = (λ b m. keep b (h.0 b m), AllLogged-kept l l' ops keep h.1)

-- A call picked out of the others, replaced and removed.
pub AllLogged-here :
    (l : Log) (before after : List (List ℕ)) (bs : List ℕ)
    → AllLogged l (before ++ bs ∷ after)
    → (b : ℕ) → 1 ≤ count b bs
    → IsLogged l b
AllLogged-here l [] after bs h = h.0
AllLogged-here l (cs ∷ before) after bs h = AllLogged-here l before after bs h.1

pub AllLogged-replace :
    (l : Log) (before after : List (List ℕ)) (bs bs' : List ℕ)
    → ((b : ℕ) → 1 ≤ count b bs' → IsLogged l b)
    → AllLogged l (before ++ bs ∷ after)
    → AllLogged l (before ++ bs' ∷ after)
AllLogged-replace l [] after bs bs' new h = (new, h.1)
AllLogged-replace l (cs ∷ before) after bs bs' new h =
    (h.0, AllLogged-replace l before after bs bs' new h.1)

pub AllLogged-remove :
    (l : Log) (before after : List (List ℕ)) (bs : List ℕ)
    → AllLogged l (before ++ bs ∷ after)
    → AllLogged l (before ++ after)
AllLogged-remove l [] after bs h = h.1
AllLogged-remove l (cs ∷ before) after bs h = (h.0, AllLogged-remove l before after bs h.1)

-- The numbers of a list with one call picked out.
pub record Picked (ops before after : List (List ℕ)) (bs : List ℕ) : Type 0 where
  pub number : length ops ≡ length (before ++ after) + 1
  pub sum : total ops ≡ total (before ++ after) + (maxopblocks - length bs)
  pub number_with : (cs : List ℕ) → length (before ++ cs ∷ after) ≡ length ops
  pub sum_with :
      (cs : List ℕ)
      → total (before ++ cs ∷ after) + (maxopblocks - length bs)
        ≡ total ops + (maxopblocks - length cs)

pub picked :
    (ops before after : List (List ℕ)) (bs : List ℕ)
    → ops ≡ before ++ bs ∷ after
    → Picked ops before after bs
picked ops before after bs is = record {
  number =
      ap length is ∙ omega (arith, length-append before (bs ∷ after), length-append before after);
  sum = ap total is ∙ omega (arith, total-append before (bs ∷ after), total-append before after);
  number_with = λ cs.
      omega
        (arith, ap length is, length-append before (bs ∷ after), length-append before (cs ∷ after));
  sum_with = λ cs.
      omega
        (arith, ap total is, total-append before (bs ∷ after), total-append before (cs ∷ after));
}

pub nil_of_length {ℓ} : {A : Type ℓ} (ks : List A) → length ks ≡ 0 → ks ≡ []
nil_of_length [] e = refl
nil_of_length (k ∷ ks) e = absurd (omega arith)
