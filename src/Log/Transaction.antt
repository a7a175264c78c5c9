-- ===== src/Log/Transaction.antt =====
-- What a system call does inside a transaction, as the comment on `log_write` says:
-- `bp = bread(...)`, a change of `bp->data`, `log_write(bp)`; and a commit after such changes.
use homework.Prelude.{
  ℕ, ◌+◌, ◌*◌, ◌≤◌, ◌<◌, ◌≡◌, refl, sym, ap, ◌∙◌, inl, inr, arith, some, update, update_ne, true,
  Bool-cases, ◌==◌, List, [], ◌∷◌, length, fun_ext, subst,
}
use homework.Disk.{Block, Disk, M, ok, ◌>>=◌, ◌>>◌, pure, bread, set_data, set_dirty, fssize}
use homework.Disk.View.{view, IsSound, bread_lem, SameView}
use homework.Log.{Log, logsize, log_entry, log_write, commit}
use homework.Log.Replay.{IsHeader, Outside, SameFiles}
use homework.Log.Commit.{IsReady, IsTracked}
use homework.Log.Atomic.{commit_ends}
use homework.Log.Entry.{Entered, HasRoom, log_entry_room}

unfoldable pub change : Log → ℕ × Block → M Log
change l (b, x) = do bp ← bread b; set_data b x; log_write l b

unfoldable pub changes : Log → List (ℕ × Block) → M Log
unfolding change
changes l [] = pure l
changes l (w ∷ ws) = do l' ← change l w; changes l' ws

-- The files after the changes.
unfoldable pub apply : List (ℕ × Block) → (ℕ → Block) → ℕ → Block
apply [] g = g
apply ((b, x) ∷ ws) g = apply ws (update g b x)

-- After one change the log is ready for a commit that makes it too.
pub record Changed (l : Log) (size : ℕ) (s : Disk) (b : ℕ) (x : Block) (l' : Log) (t : Disk)
    : Type 0 where
  pub disk : t.disk ≡ s.disk
  pub seen : view t ≡ update (view s) b x
  pub ready : IsReady l' size t
  pub start : l'.start ≡ l.start
  pub size_same : l'.size ≡ l.size
  pub outstanding : l'.outstanding ≡ l.outstanding
  pub few : l'.lh.n ≤ l.lh.n + 1
  pub left : t.writes_left ≡ s.writes_left

IsHeader-Entered :
    (l l' : Log) (b : ℕ)
    → IsHeader l.start l.size l.lh.n l.lh.block
    → HasRoom l
    → Outside l.start l.size b
    → b < fssize
    → Entered l b l'
    → IsHeader l'.start l.size l'.lh.n l'.lh.block
IsHeader-Entered l l' b h room out lt e = record {
  room = omega (arith, e.grows, room.fits);
  bounded = omega (arith, e.grows, room.bounded);
  outside = λ i lt_i. elim (e.no_others i lt_i) [
    | inl old ↦ ground (arith, h.outside i old, e.keeps i old, e.same_start)
    | inr new ↦ ground (arith, e.same_start)
  ];
  on_disk = λ i lt_i. elim (e.no_others i lt_i) [
    | inl old ↦ ground (arith, h.on_disk i old, e.keeps i old)
    | inr new ↦ ground arith
  ];
}

module _ (l : Log) (s : Disk) (b : ℕ) (x : Block) (r : IsReady l l.size s) (room : HasRoom l)
    (out : Outside l.start l.size b) (lt : b < fssize) where
  modified : Disk → Disk
  modified u = record u {
    buf =
        update (update u.buf b (record (u.buf b) { contents = x })) b
          (record { contents = x; valid = (u.buf b).valid; dirty = true });
  }

  modify-eq :
      (u : Disk) (l' : Log)
      → log_entry l b ≡ some l'
      → (u.buf b).valid ≡ true
      → (set_data b x >> log_write l b) u ≡ ok l' (modified u)
  unfolding set_data log_write set_dirty modified
  modify-eq u l' e v = ground arith

  modified-seen : (u : Disk) → (u.buf b).valid ≡ true → view (modified u) ≡ update (view u) b x
  unfolding modified view
  modified-seen u v = fun_ext λ c. ground arith

  IsTracked-still :
      (u : Disk) (l' : Log)
      → SameView s u
      → (u.buf b).valid ≡ true
      → Entered l b l'
      → IsTracked l' l.size (modified u)
  unfolding modified
  IsTracked-still u l' v valid e c out_c = elim (Bool-cases (b == c)) [
    | inl here ↦ let (i, h, is) = e.entered in inr (i, h, ground arith)
    | inr other ↦ elim (r.tracked c (subst (λ st. Outside st l.size c) e.same_start out_c)) [
      | inl same ↦ inl (
          (λ i. v.disk i c)
          ∙ same
          ∙ sym (λ i. v.seen i c)
          ∙ sym (update_ne (view u) b x c (ground arith))
          ∙ sym (λ i. modified-seen u valid i c))
      | inr (i, h, is) ↦ inr (i, omega (arith, e.grows), e.keeps i h ∙ is)
    ]
  ]

  modified-IsSound : (u : Disk) → IsSound u → (u.buf b).valid ≡ true → IsSound (modified u)
  unfolding modified
  modified-IsSound u h valid c d = ground (arith, h c)

  modified-Changed :
      (u : Disk) (l' : Log)
      → SameView s u
      → (u.buf b).valid ≡ true
      → Entered l b l'
      → Changed l l.size s b x l' (modified u)
  unfolding modified
  modified-Changed u l' v valid e = record {
    disk = v.disk;
    seen = modified-seen u valid ∙ ap (λ (g : ℕ → Block). update g b x) v.seen;
    ready = record {
      header = IsHeader-Entered l l' b r.header room out lt e;
      fits = omega (arith, r.fits, e.same_start);
      empty_disk = (λ i. v.disk i (e.same_start i) 0) ∙ r.empty_disk;
      sound = modified-IsSound u v.sound valid;
      tracked = IsTracked-still u l' v valid e;
    };
    start = e.same_start;
    size_same = e.same_size;
    outstanding = e.same_outstanding;
    few = e.grows.1;
    left = v.left;
  }

  pub change_lem :
      (l' : Log) × (t : Disk) × (change l (b, x) s ≡ ok l' t) × Changed l l.size s b x l' t
  unfolding change
  change_lem =
      let (u, e, v, valid) = bread_lem b s r.sound lt in
      let (l', f, entered) = log_entry_room l b room in
      (l', modified u, rw e (modify-eq u l' f valid), modified-Changed u l' v valid entered)

-- Blocks outside the log.
abbrev pub AllFiles : (start size : ℕ) → List (ℕ × Block) → Type 0
AllFiles start size [] = Unit {0}
AllFiles start size ((b, x) ∷ ws) = Outside start size b × (b < fssize) × AllFiles start size ws

pub record AllChanged (l : Log) (s : Disk) (ws : List (ℕ × Block)) (l' : Log) (t : Disk)
    : Type 0 where
  pub disk : t.disk ≡ s.disk
  pub seen : view t ≡ apply ws (view s)
  pub ready : IsReady l' l.size t
  pub start : l'.start ≡ l.start
  pub few : l'.lh.n ≤ l.lh.n + length ws
  pub left : t.writes_left ≡ s.writes_left

-- Changes to blocks outside the log, inside a transaction with room for them, succeed. They leave the
-- disk as it is, show in what is seen, and keep the log ready for a commit.
pub changes_lem :
    (l : Log) (ws : List (ℕ × Block)) (s : Disk)
    → IsReady l l.size s
    → 0 < l.outstanding
    → l.lh.n + length ws ≤ logsize
    → l.lh.n + length ws < l.size
    → AllFiles l.start l.size ws
    → (l' : Log) × (t : Disk) × (changes l ws s ≡ ok l' t) × AllChanged l s ws l' t
unfolding changes apply
changes_lem l [] s r active bound fits files = (
  l,
  s,
  refl,
  record { disk = refl; seen = refl; ready = r; start = refl; few = omega arith; left = refl },
)
changes_lem l ((b, x) ∷ ws) s r active bound fits (out, lt, files) =
    let (l', t, e, c) =
      change_lem l s b x r (record { bounded = omega arith; fits = omega arith; active = active })
        out lt in
    let size_same = c.size_same in
    let (l'', u, f, d) =
      changes_lem l' ws t (subst (λ z. IsReady l' z t) (sym size_same) c.ready)
        (omega (arith, c.outstanding)) (omega (arith, c.few)) (omega (arith, c.few))
        (subst (λ z. AllFiles l'.start z ws) (sym size_same)
          (subst (λ z. AllFiles z l.size ws) (sym c.start) files)) in
    (
      l'',
      u,
      rw (e, changes) f,
      record {
        disk = d.disk ∙ c.disk;
        seen = d.seen ∙ ap (apply ws) c.seen;
        ready = subst (λ z. IsReady l'' z u) size_same d.ready;
        start = d.start ∙ c.start;
        few = omega (arith, d.few, c.few);
        left = d.left ∙ c.left;
      },
    )

-- A transaction of changes and its commit, with enough writes before a power failure: the disk then
-- holds, outside the log, the files with all changes applied in order.
pub transaction_files :
    (l : Log) (ws : List (ℕ × Block)) (s : Disk)
    → IsReady l l.size s
    → 0 < l.outstanding
    → l.lh.n + length ws ≤ logsize
    → l.lh.n + length ws < l.size
    → AllFiles l.start l.size ws
    → 2 * (l.lh.n + length ws) + 1 < s.writes_left
    → (l' : Log) × (t : Disk) × ((changes l ws >>= commit) s ≡ ok l' t)
      × SameFiles l.start l.size t.disk (apply ws (view s))
transaction_files l ws s r active bound fits files enough =
    let (l', t, e, c) = changes_lem l ws s r active bound fits files in
    let (l'', u, f, d) = commit_ends l' l.size t c.ready (omega (arith, c.few, c.left)) in
    (
      l'',
      u,
      rw e f,
      λ b out. d.files b (subst (λ z. Outside z l.size b) (sym c.start) out) ∙ (λ i. c.seen i b),
    )
