-- ===== src/Log/Reserve.antt =====
-- `begin_op` and `end_op`: the reservation of log space by system calls in progress.
use homework.Prelude.{
  Bool, ℕ, ◌+◌, ◌≤◌, ◌<◌, ◌≡◌, refl, sym, ap, subst, ◌∙◌, arith, some, true, List, [], ◌∷◌, ◌++◌,
  length, ◌-◌, count, ◌==◌, Bool-cases, inl, inr, ℕ_discrete,
}
use homework.Log.{Log, logsize, maxopblocks, log_entry, begin_op, end_op_start, end_op_finish}
use homework.Log.Session.{
  Session, noted, MayWrite, total, Step, begins, writes, ends, commits, Reach, boot, later,
  IsLogged, AllLogged, total-le, AllLogged-kept, AllLogged-here, AllLogged-replace,
  AllLogged-remove, picked, nil_of_length,
}
use homework.Log.Entry.{Entered, log_entry_room, log_entry-Entered}

-- What is logged and what may still be logged fits LOGSIZE; a commit runs only while no call does.
pub record IsReserved (size : ℕ) (s : Session) : Type 0 where
  pub same_size : s.log.size ≡ size
  pub counted : s.log.outstanding ≡ length s.ops
  pub reserved : s.log.lh.n + total s.ops ≤ logsize
  pub alone : s.log.committing ≡ true → s.ops ≡ []
  pub in_log : AllLogged s.log s.ops

begins-IsReserved :
    {size : ℕ} (s : Session) (l : Log)
    → begin_op s.log ≡ some l
    → IsReserved size s
    → IsReserved size (record { log = l; ops = [] ∷ s.ops })
unfolding begin_op
begins-IsReserved s l e r = record {
  same_size = ground (arith, r.same_size);
  counted = ground (arith, r.counted);
  reserved = ground (arith, r.counted, r.reserved, total-le s.ops);
  alone = λ c. ground arith;
  in_log = (
    λ b m. absurd (omega arith),
    AllLogged-kept s.log l s.ops (λ b (i, lt, is). (i, ground (arith, lt), ground (arith, is)))
        r.in_log,
  );
}

ends-IsReserved :
    {size : ℕ} (s : Session) (before after : List (List ℕ)) (bs : List ℕ) (l : Log)
    (do_commit : Bool)
    → s.ops ≡ before ++ bs ∷ after
    → end_op_start s.log ≡ some (l, do_commit)
    → IsReserved size s
    → IsReserved size (record { log = l; ops = before ++ after })
unfolding end_op_start
ends-IsReserved s before after bs l do_commit is e r =
    let p = picked s.ops before after bs is in
    record {
      same_size = ground (arith, r.same_size);
      counted = ground (arith, r.counted, p.number);
      reserved = ground (arith, r.reserved, p.sum);
      alone = λ c. nil_of_length (before ++ after) (ground (arith, r.counted, p.number));
      in_log =
          AllLogged-kept s.log l (before ++ after)
            (λ b (i, lt, is). (i, ground (arith, lt), ground (arith, is)))
            (AllLogged-remove s.log before after bs (subst (AllLogged s.log) is r.in_log));
    }

-- A block that a call has not noted costs it one of its own; the others are absorbed.
charge :
    (l l' : Log) (bs : List ℕ) (b : ℕ)
    → MayWrite b bs
    → ((c : ℕ) → 1 ≤ count c bs → IsLogged l c)
    → Entered l b l'
    → l'.lh.n + (maxopblocks - length (noted b bs)) ≤ l.lh.n + (maxopblocks - length bs)
charge l l' bs b may in_log entered = elim (Bool-cases (count b bs == 0)) [
  | inl new ↦ rw new (omega (arith, entered.grows, rw new at may))
  | inr old ↦
      let (i, lt, is) = in_log b (ground (arith, old)) in
      rw old (omega (arith, entered.absorbed i lt is))
]

noted-IsLogged :
    (l l' : Log) (bs : List ℕ) (b : ℕ)
    → ((c : ℕ) → 1 ≤ count c bs → IsLogged l' c)
    → Entered l b l'
    → (c : ℕ) → 1 ≤ count c (noted b bs)
    → IsLogged l' c
noted-IsLogged l l' bs b in_log entered c m = elim (ℕ_discrete c b) [
  | yes same ↦ subst (IsLogged l') (sym same) entered.entered
  | no other ↦ in_log c (ground (arith, m))
]

Entered-IsLogged : (l l' : Log) (b c : ℕ) → Entered l b l' → IsLogged l c → IsLogged l' c
Entered-IsLogged l l' b c entered (i, lt, is) =
    (i, omega (arith, lt, entered.grows), entered.keeps i lt ∙ is)

writes-IsReserved :
    {size : ℕ} (s : Session) (before after : List (List ℕ)) (bs : List ℕ) (b : ℕ) (l : Log)
    → s.ops ≡ before ++ bs ∷ after
    → MayWrite b bs
    → log_entry s.log b ≡ some l
    → IsReserved size s
    → IsReserved size (record { log = l; ops = before ++ noted b bs ∷ after })
writes-IsReserved s before after bs b l is may e r =
    let p = picked s.ops before after bs is in
    let (room, entered) = log_entry-Entered s.log b e in
    let old : AllLogged s.log (before ++ bs ∷ after) = subst (AllLogged s.log) is r.in_log in
    let kept : AllLogged l (before ++ bs ∷ after) =
      AllLogged-kept s.log l (before ++ bs ∷ after) (λ c h. Entered-IsLogged s.log l b c entered h)
        old in
    record {
      same_size = entered.same_size ∙ r.same_size;
      counted = omega (arith, entered.same_outstanding, r.counted, p.number_with (noted b bs));
      reserved = omega (
        arith,
        charge s.log l bs b may (AllLogged-here s.log before after bs old) entered,
        r.reserved,
        p.sum_with (noted b bs),
      );
      alone = λ c.
          absurd (omega (arith, p.number, ap length (r.alone (sym entered.same_committing ∙ c))));
      in_log =
          AllLogged-replace l before after bs (noted b bs)
            (noted-IsLogged s.log l bs b (AllLogged-here l before after bs kept) entered) kept;
    }

Step-IsReserved : {size : ℕ} {s t : Session} → Step s t → IsReserved size s → IsReserved size t
unfolding end_op_finish
Step-IsReserved {s} (begins {l} e) r = begins-IsReserved s l e r
Step-IsReserved {s} (writes before after bs b {l} is may e) r =
    writes-IsReserved s before after bs b l is may e r
Step-IsReserved {s} (ends before after bs {l} {do_commit} is e) r =
    ends-IsReserved s before after bs l do_commit is e r
Step-IsReserved {s} (commits {l} c e) r = record {
  same_size = ap (λ (z : Log). z.size) e ∙ r.same_size;
  counted = ap (λ (z : Log). z.outstanding) e ∙ r.counted;
  reserved = omega (arith, r.reserved, ap (λ (z : Log). z.lh.n) e);
  alone = λ d. cc;
  in_log = subst (AllLogged (end_op_finish l)) (sym (r.alone c)) tt;
}

-- A call may write up to ten different blocks, each as often as it likes. In every state that such calls
-- reach, the blocks logged and those that calls in progress may still write fit LOGSIZE, `outstanding` is
-- the number of those calls, all that they have written is logged, and none is in progress during a
-- commit.
pub Reach-IsReserved : {start size : ℕ} {s : Session} → Reach start size s → IsReserved size s
Reach-IsReserved (boot block) = record {
  same_size = refl;
  counted = refl;
  reserved = omega arith;
  alone = λ c. refl;
  in_log = tt;
}
Reach-IsReserved (later r st) = Step-IsReserved st (Reach-IsReserved r)

-- With a log of more than LOGSIZE blocks, header included, and calls that write up to ten different blocks
-- each: where a call has written fewer than ten, its `log_write` of any block makes an entry and does not
-- panic, whatever the others have written.
pub log_entry_reserved :
    {start size : ℕ} {s : Session} (before after : List (List ℕ)) (bs : List ℕ) (b : ℕ)
    → logsize < size
    → Reach start size s
    → s.ops ≡ before ++ bs ∷ after
    → length bs < maxopblocks
    → (l : Log) × (log_entry s.log b ≡ some l) × Entered s.log b l
log_entry_reserved {s} before after bs b big reach is few =
    let r = Reach-IsReserved reach in
    let p = picked s.ops before after bs is in
    log_entry_room s.log b (record {
      bounded = omega (arith, r.reserved, p.sum);
      fits = omega (arith, r.reserved, p.sum, r.same_size);
      active = omega (arith, r.counted, p.number);
    })
