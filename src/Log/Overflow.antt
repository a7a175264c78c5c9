-- ===== src/Log/Overflow.antt =====
-- `begin_op` reserves space for LOGSIZE blocks, and mkfs.c makes a log of LOGSIZE blocks, of which one
-- is the header.
use homework.Prelude.{
  ℕ, zero, suc, ◌+◌, ◌≤◌, ◌<◌, ◌≡◌, ◌≢◌, refl, sym, subst, ◌∙◌, inl, inr, arith, none, true, false,
  ap, List, [], ◌∷◌, ◌++◌, dec_lt, count, length, ◌==◌,
}
use homework.Log.{Log, logsize, maxopblocks, log_entry, begin_op}
use homework.Log.Entry.{log_entry_room, log_entry_full}
use homework.Log.Session.{Session, noted, MayWrite, begins, writes, Reach, boot, later}

-- `nlog` of mkfs.c
abbrev pub mkfs_nlog : ℕ
mkfs_nlog = logsize

abbrev booted : ℕ → ℕ → ℕ → Log
booted start size active = record {
  start = start;
  size = size;
  outstanding = active;
  committing = false;
  lh = record { n = 0; block = λ i. 0 };
}

noted_again : (b : ℕ) (bs : List ℕ) → noted b (b ∷ bs) ≡ b ∷ bs
noted_again b bs = let old : (count b (b ∷ bs) == 0) ≡ false = ground arith in rw old refl

module _ (home : ℕ → ℕ) where
  -- The `n` blocks from number `a` on, the last one first.
  abbrev pub run_of : ℕ → ℕ → List ℕ
  run_of a zero = []
  run_of a (suc n) = home (a + n) ∷ run_of a n

  length-run_of : (a n : ℕ) → length (run_of a n) ≡ n
  length-run_of a zero = refl
  length-run_of a (suc n) = omega (arith, length-run_of a n)

  module _ (distinct : (i j : ℕ) → home i ≡ home j → i ≡ j) where
    new_block : (a n m : ℕ) → n ≤ m → count (home (a + m)) (run_of a n) ≡ 0
    new_block a zero m le = refl
    new_block a (suc n) m le =
        let ih = new_block a n m (omega arith) in
        let other : home (a + m) ≢ home (a + n) =
          λ e. absurd (omega (arith, distinct (a + m) (a + n) e, le)) in
        ground arith

    noted-run_of : (a n : ℕ) → noted (home (a + n)) (run_of a n) ≡ run_of a (suc n)
    noted-run_of a n =
        let new : (count (home (a + n)) (run_of a n) == 0) ≡ true =
          ground (arith, new_block a n n (omega arith)) in
        rw new refl

module _ (start size : ℕ) (home : ℕ → ℕ) (distinct : (i j : ℕ) → home i ≡ home j → i ≡ j) where
  -- The first `k` blocks are logged, by the calls `ops`.
  record Filled (k : ℕ) (ops : List (List ℕ)) : Type 0 where
    state : Session
    reach : Reach start size state
    same_ops : state.ops ≡ ops
    number : state.log.lh.n ≡ k
    same_size : state.log.size ≡ size
    active : state.log.outstanding ≡ 3
    homes : (j : ℕ) → j < k → state.log.lh.block j ≡ home j

  three_calls : Filled 0 ([] ∷ [] ∷ [] ∷ [])
  unfolding begin_op
  three_calls = record {
    state = record { log = booted start size 3; ops = [] ∷ [] ∷ [] ∷ [] };
    reach =
        later
          (later (later (boot (λ i. 0)) (begins {l = booted start size 1} refl))
            (begins {l = booted start size 2} refl))
          (begins {l = booted start size 3} refl);
    same_ops = refl;
    number = refl;
    same_size = refl;
    active = refl;
    homes = λ j lt. elim lt [ ];
  }

  -- A call writes one block more.
  one_more :
      (before after : List (List ℕ)) (a n : ℕ)
      → n < maxopblocks
      → a + n < logsize
      → a + n + 1 < size
      → Filled (a + n) (before ++ run_of home a n ∷ after)
      → Filled (a + suc n) (before ++ run_of home a (suc n) ∷ after)
  one_more before after a n few lt fits f =
      let k = a + n in
      let (l, e, c) = log_entry_room f.state.log (home k) (record {
        bounded = omega (arith, f.number);
        fits = omega (arith, f.number, f.same_size);
        active = omega (arith, f.active);
      }) in
      let grown : (l.lh.n ≡ suc k) × (l.lh.block k ≡ home k) =
        (let (i, h, is) = c.entered in
          elim (dec_lt i k) [
            | yes old ↦ absurd (
                omega (
                  arith,
                  distinct i k
                      (sym (f.homes i old) ∙ sym (c.keeps i (omega (arith, f.number))) ∙ is),
                ))
            | no new ↦ (
              omega (arith, c.grows, f.number),
              subst (λ z. l.lh.block z ≡ home k) (omega (arith, c.grows, f.number)) is,
            )
          ]) in
      record {
        state = record { log = l; ops = before ++ noted (home k) (run_of home a n) ∷ after };
        reach = later f.reach (
            writes before after (run_of home a n) (home k) f.same_ops
              (rw (noted-run_of home distinct a n) (omega (arith, length-run_of home a (suc n))))
              e);
        same_ops = ap (λ bs. before ++ bs ∷ after) (noted-run_of home distinct a n);
        number = omega (arith, grown.0);
        same_size = c.same_size ∙ f.same_size;
        active = c.same_outstanding ∙ f.active;
        homes = λ j h. elim (dec_lt j k) [
          | yes old ↦ c.keeps j (omega (arith, f.number)) ∙ f.homes j old
          | no new ↦ subst (λ z. l.lh.block z ≡ home z) (omega arith) grown.1
        ];
      }

  -- A call writes its first `n` blocks.
  many :
      (before after : List (List ℕ)) (a n : ℕ)
      → n ≤ maxopblocks
      → a + n ≤ logsize
      → a + n < size
      → Filled a (before ++ [] ∷ after)
      → Filled (a + n) (before ++ run_of home a n ∷ after)
  many before after a zero few lt fits f =
      subst (λ k. Filled k (before ++ [] ∷ after)) (omega arith) f
  many before after a (suc n) few lt fits f =
      one_more before after a n (omega arith) (omega arith) (omega arith)
        (many before after a n (omega arith) (omega arith) (omega arith) f)

  -- Three calls, the last with `n` blocks.
  crowd :
      (n : ℕ)
      → n ≤ 10
      → 20 + n < size
      → Filled (20 + n) (run_of home 0 10 ∷ run_of home 10 10 ∷ run_of home 20 n ∷ [])
  crowd n few fits =
      many (run_of home 0 10 ∷ run_of home 10 10 ∷ []) [] 20 n few (omega arith) fits (
        many (run_of home 0 10 ∷ []) ([] ∷ []) 10 10 (omega arith) (omega arith) (omega arith)
          (many [] ([] ∷ [] ∷ []) 0 10 (omega arith) (omega arith) (omega arith) three_calls))

module _ (start : ℕ) (home : ℕ → ℕ) (distinct : (i j : ℕ) → home i ≡ home j → i ≡ j) where
  -- On the log that mkfs makes, for any distinct blocks: three calls in progress reach a state in
  -- which two have written all ten blocks that they may and the third nine, so it may write one more;
  -- and its `log_write` of a tenth block panics.
  pub log_overflow :
      (s : Session) × Reach start mkfs_nlog s
      × (s.ops ≡ run_of home 0 10 ∷ run_of home 10 10 ∷ run_of home 20 9 ∷ [])
      × MayWrite (home 29) (run_of home 20 9)
      × (log_entry s.log (home 29) ≡ none)
  log_overflow =
      let f = crowd start mkfs_nlog home distinct 9 (omega arith) (omega arith) in
      (
        f.state,
        f.reach,
        f.same_ops,
        rw (noted-run_of home distinct 20 9) (omega arith),
        log_entry_full f.state.log (home 29) (inr (inl (omega (arith, f.number, f.same_size)))),
      )

  -- On a log of 31 blocks or more, three calls in progress reach a state in which each has written ten
  -- blocks; and `log_write` of one that is logged already panics too.
  log_write-again :
      (size : ℕ)
      → 31 ≤ size
      → (s : Session) × Reach start size s
        × (s.ops ≡ run_of home 0 10 ∷ run_of home 10 10 ∷ run_of home 20 10 ∷ [])
        × MayWrite (home 29) (run_of home 20 10)
        × (log_entry s.log (home 29) ≡ none)
  log_write-again size big =
      let f = crowd start size home distinct 10 (omega arith) (omega arith) in
      (
        f.state,
        f.reach,
        f.same_ops,
        rw (noted_again (home 29) (run_of home 20 9)) (omega arith),
        log_entry_full f.state.log (home 29) (inl (omega (arith, f.number))),
      )
