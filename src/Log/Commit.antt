-- ===== src/Log/Commit.antt =====
-- `commit`: the files change all at once, at the write of the header.
use homework.Prelude.{
  ℕ, ◌+◌, ◌-◌, ◌*◌, ◌≤◌, ◌<◌, ◌≡◌, ◌≢◌, refl, sym, ap, ◌∙◌, ◌⊎◌, inl, inr, arith, subst, update_ne,
  update_self, Bool-cases, ltb,
}
use homework.Disk.{Block, fssize, Disk}
use homework.Disk.View.{view, IsSound, Ends, ended, bind, mono}
use homework.Log.{Log, write_log, install_trans, write_head, commit}
use homework.Log.Defs.{cleared}
use homework.Log.Copy.{copied, for_blocks_lem, log_block-Copies, write_head_lem, head_of}
use homework.Log.Recovery.{install_trans_lem}
use homework.Log.Replay.{
  replay, log_place, home_of, Outside, SameFiles, IsHeader, IsLogged, installed-IsLogged,
  replay-installed_all, replay-installed, replay_empty, head_of_count, head_of_home, copied_fixed,
  copied_value,
}

-- Each block outside the log is as on the disk, or its number is in the header.
abbrev pub IsTracked : (l : Log) (size : ℕ) → Disk → Type 0
IsTracked l size s =
    (b : ℕ)
    → Outside l.start size b
    → (s.disk b ≡ view s b) ⊎ ((i : ℕ) × (i < l.lh.n) × (l.lh.block i ≡ b))

-- The state in which `end_op` calls `commit`.
pub record IsReady (l : Log) (size : ℕ) (s : Disk) : Type 0 where
  pub header : IsHeader l.start size l.lh.n l.lh.block
  pub fits : l.start + size ≤ fssize
  pub empty_disk : s.disk l.start 0 ≡ 0
  pub sound : IsSound s
  pub tracked : IsTracked l size s

-- What a power failure leaves: a sound log, and a disk that stands for the files before the
-- transaction or for those after it.
pub record Cut (l : Log) (size : ℕ) (s : Disk) (e : ℕ → Block) : Type 0 where
  pub logged : IsLogged l.start size e
  pub atomic :
      SameFiles l.start size (replay l.start e) s.disk
      ⊎ SameFiles l.start size (replay l.start e) (view s)
  pub writes : s.writes_left ≤ 2 * l.lh.n + 1

pub record Committed (l : Log) (size : ℕ) (s : Disk) (l' : Log) (t : Disk) : Type 0 where
  pub empty : l'.lh.n ≡ 0
  pub empty_disk : t.disk l.start 0 ≡ 0
  pub files : SameFiles l.start size t.disk (view s)
  pub seen : SameFiles l.start size (view t) (view s)
  pub sound : IsSound t

module _ (l : Log) (size : ℕ) (s : Disk) (r : IsReady l size s) where
  abbrev place : ℕ → ℕ
  place = log_place l.start

  place_apart : (b i : ℕ) → Outside l.start size b → i < l.lh.n → place i ≢ b
  place_apart b i out lt e = ground (arith, r.header.room)

  -- The log area after `k` rounds of `write_log`, over the disk or over what is seen.
  abbrev filled : (ℕ → Block) → ℕ → ℕ → Block
  filled g k = copied l.lh.block place (view s) k g

  filled-Outside :
      (g : ℕ → Block) (k b : ℕ) → k ≤ l.lh.n → Outside l.start size b → filled g k b ≡ g b
  filled-Outside g k b le out =
      copied_fixed l.lh.block place (view s) g k b (λ i lt. place_apart b i out (omega arith))

  filled_start : (g : ℕ → Block) (k : ℕ) → filled g k l.start ≡ g l.start
  filled_start g k = copied_fixed l.lh.block place (view s) g k l.start (λ i lt e. omega arith)

  filled_place :
      (g : ℕ → Block) (j : ℕ) → j < l.lh.n → filled g l.lh.n (place j) ≡ view s (l.lh.block j)
  filled_place g j lt =
      copied_value l.lh.block place (view s) g (λ c. view s (l.lh.block (c - l.start - 1))) l.lh.n
        (place j) (λ i h. ap (λ k. view s (l.lh.block k)) (omega arith)) (inr (j, lt, refl))
      ∙ ap (λ k. view s (l.lh.block k)) (omega arith)

  -- Before the header is written the disk stands for the old files.
  filled-Cut :
      (k : ℕ) (e : ℕ → Block)
      → k ≤ l.lh.n
      → e ≡ filled s.disk k
      → s.writes_left ≤ 2 * l.lh.n + 1
      → Cut l size s e
  filled-Cut k e le is spent =
      let none_logged : e l.start 0 ≡ 0 =
        (λ i. is i l.start 0) ∙ (λ i. filled_start s.disk k i 0) ∙ r.empty_disk in
      record {
        logged = record {
          room = omega (arith, none_logged, r.header.room);
          bounded = omega (arith, none_logged);
          outside = λ i lt. absurd (omega (arith, none_logged));
          on_disk = λ i lt. absurd (omega (arith, none_logged));
        };
        atomic = inl (λ b out.
            replay_empty l.start e b none_logged
            ∙ (λ i. is i b)
            ∙ filled-Outside s.disk k b le out);
        writes = spent;
      }

  write_log_part :
      Ends
        (Cut l size s)
        (λ _ t.
          (t.disk ≡ filled s.disk l.lh.n)
          × (view t ≡ filled (view s) l.lh.n)
          × IsSound t
          × (s.writes_left ≡ l.lh.n + t.writes_left))
        (write_log l s)
  unfolding write_log
  write_log_part =
      mono
        (for_blocks_lem l.lh.block place l.lh.n
          (λ i j hi hj e. place_apart (l.lh.block j) i (r.header.outside j hj) hi e) _ s
          (λ i lt t sound.
            log_block-Copies l i t sound (r.header.on_disk i lt)
              (omega (arith, r.header.room, r.fits)))
          r.sound)
        (λ d p.
          filled-Cut p.rounds d (omega (arith, p.few)) p.reached (omega (arith, p.few, p.spent)))
        (λ _ t f. (f.disk, f.seen, f.sound, f.left))

  -- The machine right after the write of the header.
  record Decided (t : Disk) : Type 0 where
    count : t.disk l.start 0 ≡ l.lh.n
    homes : (i : ℕ) → i < l.lh.n → home_of l.start t.disk i ≡ l.lh.block i
    logged : (i : ℕ) → i < l.lh.n → t.disk (place i) ≡ view s (l.lh.block i)
    seen_logged : (i : ℕ) → i < l.lh.n → view t (place i) ≡ view s (l.lh.block i)
    old_files : SameFiles l.start size t.disk s.disk
    old_seen : SameFiles l.start size (view t) (view s)
    sound : IsSound t
    left : s.writes_left ≡ l.lh.n + 1 + t.writes_left

  write_head_part :
      (t : Disk)
      → t.disk ≡ filled s.disk l.lh.n
      → view t ≡ filled (view s) l.lh.n
      → IsSound t
      → s.writes_left ≡ l.lh.n + t.writes_left
      → Ends (Cut l size s) (λ _. Decided) (write_head l t)
  write_head_part t on_disk seen sound left =
      mono (write_head_lem l t sound (omega (arith, r.header.room, r.fits)))
        (λ d (e, z). filled-Cut l.lh.n d (omega arith) (e ∙ on_disk) (omega arith))
        (λ _ u w.
          let head = head_of l (view t l.start) in
          let word : (k : ℕ) → u.disk l.start k ≡ head k =
            λ k. (λ i. w.disk i l.start k) ∙ (λ i. update_self t.disk l.start head i k) in
          let else_disk : (b : ℕ) → l.start ≢ b → u.disk b ≡ filled s.disk l.lh.n b =
            λ b ne. (λ i. w.disk i b) ∙ update_ne t.disk l.start head b ne ∙ (λ i. on_disk i b) in
          let else_seen : (b : ℕ) → l.start ≢ b → view u b ≡ filled (view s) l.lh.n b =
            λ b ne. (λ i. w.seen i b) ∙ update_ne (view t) l.start head b ne ∙ (λ i. seen i b) in
          record {
            count = word 0 ∙ head_of_count l (view t l.start);
            homes = λ i lt. word (i + 1) ∙ head_of_home l (view t l.start) i lt;
            logged = λ i lt. else_disk (place i) (λ e. omega arith) ∙ filled_place s.disk i lt;
            seen_logged =
                λ i lt. else_seen (place i) (λ e. omega arith) ∙ filled_place (view s) i lt;
            old_files = λ b out.
                else_disk b (λ e. ground (arith, r.header.room))
                ∙ filled-Outside s.disk l.lh.n b (omega arith) out;
            old_seen = λ b out.
                else_seen b (λ e. ground (arith, r.header.room))
                ∙ filled-Outside (view s) l.lh.n b (omega arith) out;
            sound = w.sound;
            left = omega (arith, w.left);
          })

  module _ (t : Disk) (c : Decided t) where
    IsLogged-now : IsLogged l.start size t.disk
    IsLogged-now = record {
      room = omega (arith, c.count, r.header.room);
      bounded = omega (arith, c.count, r.header.bounded);
      outside = λ i lt.
          let lt' : i < l.lh.n = omega (arith, c.count) in
          subst (Outside l.start size) (sym (c.homes i lt')) (r.header.outside i lt');
      on_disk = λ i lt.
          let lt' : i < l.lh.n = omega (arith, c.count) in
          subst (λ b. b < fssize) (sym (c.homes i lt')) (r.header.on_disk i lt');
    }

    -- The copies that install the transaction, from what is seen or from the disk alike.
    abbrev installing : (ℕ → Block) → ℕ → ℕ → Block
    installing g k = copied place l.lh.block (view t) k g

    -- An installed block is the new one, and the others are as they were.
    new_file :
        (g : ℕ → Block) (b : ℕ)
        → (g b ≡ view s b) ⊎ ((i : ℕ) × (i < l.lh.n) × (l.lh.block i ≡ b))
        → installing g l.lh.n b ≡ view s b
    new_file g b e = copied_value place l.lh.block (view t) g (view s) l.lh.n b c.seen_logged e

    new_files : (b : ℕ) → Outside l.start size b → installing t.disk l.lh.n b ≡ view s b
    new_files b out =
        new_file t.disk b
          (elim (r.tracked b out) [ inl e ↦ inl (c.old_files b out ∙ e) | inr hit ↦ inr hit ])

    -- From now on the disk stands for the new files.
    installing-Cut :
        (k : ℕ) (e : ℕ → Block)
        → k ≤ l.lh.n
        → e ≡ installing t.disk k
        → s.writes_left ≤ 2 * l.lh.n + 1
        → Cut l size s e
    installing-Cut k e le is spent = record {
      logged = subst (IsLogged l.start size) (sym is) (
          installed-IsLogged l.start size t.disk IsLogged-now l.lh.block (view t) homes values k
            (omega (arith, c.count)));
      atomic = inr (λ b out.
          (λ i. replay l.start (is i) b)
          ∙ replay-installed l.start size t.disk IsLogged-now l.lh.block (view t) homes values k
              (omega (arith, c.count)) b
          ∙ replay-installed_all l.start size t.disk IsLogged-now l.lh.block (view t) homes values b
          ∙ (λ i. installing t.disk (c.count i) b)
          ∙ new_files b out);
      writes = spent;
    }
      where
        homes : (i : ℕ) → i < t.disk l.start 0 → l.lh.block i ≡ home_of l.start t.disk i
        homes i lt = sym (c.homes i (omega (arith, c.count)))

        values : (i : ℕ) → i < t.disk l.start 0 → view t (place i) ≡ t.disk (place i)
        values i lt =
            let lt' : i < l.lh.n = omega (arith, c.count) in
            c.seen_logged i lt' ∙ sym (c.logged i lt')

    install_part :
        Ends
          (Cut l size s)
          (λ _ u.
            (u.disk ≡ installing t.disk l.lh.n)
            × (view u ≡ installing (view t) l.lh.n)
            × IsSound u
            × (s.writes_left ≡ 2 * l.lh.n + 1 + u.writes_left))
          (install_trans l t)
    install_part =
        mono (install_trans_lem l size t r.header r.fits c.sound)
          (λ d p.
            installing-Cut p.rounds d (omega (arith, p.few)) p.reached
              (omega (arith, p.few, p.spent, c.left)))
          (λ _ u f. (f.disk, f.seen, f.sound, omega (arith, f.left, c.left)))

    clear_part :
        (u : Disk)
        → u.disk ≡ installing t.disk l.lh.n
        → view u ≡ installing (view t) l.lh.n
        → IsSound u
        → s.writes_left ≡ 2 * l.lh.n + 1 + u.writes_left
        → Ends (Cut l size s) (λ _. Committed l size s (cleared l)) (write_head (cleared l) u)
    clear_part u on_disk seen sound left =
        mono (write_head_lem (cleared l) u sound (omega (arith, r.header.room, r.fits)))
          (λ d (e, z). installing-Cut l.lh.n d (omega arith) (e ∙ on_disk) (omega arith))
          (λ _ w p.
            let head = head_of (cleared l) (view u l.start) in
            record {
              empty = refl;
              empty_disk =
                  (λ i. p.disk i l.start 0)
                  ∙ (λ i. update_self u.disk l.start head i 0)
                  ∙ head_of_count (cleared l) (view u l.start);
              files = λ b out.
                  (λ i. p.disk i b)
                  ∙ update_ne u.disk l.start head b (λ e. ground (arith, r.header.room))
                  ∙ (λ i. on_disk i b)
                  ∙ new_files b out;
              seen = λ b out.
                  (λ i. p.seen i b)
                  ∙ update_ne (view u) l.start head b (λ e. ground (arith, r.header.room))
                  ∙ (λ i. seen i b)
                  ∙ new_file (view t) b (inl (c.old_seen b out));
              sound = p.sound;
            })

  nothing_logged : l.lh.n ≡ 0 → Committed l size s l s
  nothing_logged e = record {
    empty = e;
    empty_disk = r.empty_disk;
    files =
        λ b out. elim (r.tracked b out) [ inl same ↦ same | inr (i, lt, _) ↦ absurd (omega arith) ];
    seen = λ b out. refl;
    sound = r.sound;
  }

  -- In the state in which `end_op` calls it, `commit` never panics. It ends with an empty log and
  -- the files as the system calls have left them, on the disk and in the cache; or the power fails,
  -- and then the log on the disk is sound and the disk stands for all of the old files or for all of
  -- the new. It fails only where at most 2n + 1 writes were left, so with more it ends.
  pub commit_lem : Ends (Cut l size s) (Committed l size s) (commit l s)
  unfolding commit
  commit_lem = elim (Bool-cases (ltb 0 l.lh.n)) [
    | inl logs ↦ rw logs (
        bind write_log_part (λ _ t (a, b, c, d). bind (write_head_part t a b c d) (λ _ u decided.
          bind (install_part u decided)
            (λ _ v (e, f, g, h). bind (clear_part u decided v e f g h) (λ _ w done. ended done)))))
    | inr none_logged ↦ rw none_logged (ended (nothing_logged (ground arith)))
  ]
