-- ===== src/Log/Copy.antt =====
-- The two copying loops of log.c, as one: copies of blocks to the disk that may stop at any write.
use homework.Prelude.{
  ℕ, zero, suc, ◌+◌, ◌≤◌, ◌<◌, ◌≡◌, ◌≢◌, refl, sym, ap, ◌∙◌, ap₂, subst, update, arith,
}
use homework.Disk.{Block, fssize, Disk, Outcome, M, ◌>>◌, bwrite, set_data}
use homework.Disk.View.{
  view, IsSound, Ends, ended, bind, mono, bread_lem, Written, Unwritten, put_lem, SameView,
}
use homework.Log.Defs.{Log, for_blocks, install_block, log_block, write_head, fill_header}

-- `g` after blocks `src 0`, ..., `src (k - 1)` of `vals` were put at `dst 0`, ..., `dst (k - 1)`.
unfoldable pub copied : (src dst : ℕ → ℕ) → (ℕ → Block) → ℕ → (ℕ → Block) → ℕ → Block
copied src dst vals zero g = g
copied src dst vals (suc k) g = update (copied src dst vals k g) (dst k) (vals (src k))

-- One round copies block `src` of what is seen to `dst`, or the power fails before its write.
abbrev pub Copies : (src dst : ℕ) → Disk → Outcome (Unit {0}) → Type 0
Copies src dst s = Ends (Unwritten s) (λ _. Written dst (view s src) s)

Written-seen : {b : ℕ} {x : Block} {s t u : Disk} → SameView s t → Written b x t u → Written b x s u
Written-seen {b} {x} v w = record {
  disk = w.disk ∙ ap (λ d. update d b x) v.disk;
  seen = w.seen ∙ ap (λ d. update d b x) v.seen;
  sound = w.sound;
  left = sym v.left ∙ w.left;
}

Unwritten-seen : {s t : Disk} {d : ℕ → Block} → SameView s t → Unwritten t d → Unwritten s d
Unwritten-seen v (e, z) = (e ∙ v.disk, sym v.left ∙ z)

SameView-trans : {s t u : Disk} → SameView s t → SameView t u → SameView s u
SameView-trans v w = record {
  disk = w.disk ∙ v.disk;
  seen = w.seen ∙ v.seen;
  sound = w.sound;
  left = w.left ∙ v.left;
  kept = λ b e. w.kept b (v.kept b e);
}

-- The write at the end of a round, after reads that changed nothing seen.
put_after :
    {s t : Disk} (b : ℕ) (x : Block)
    → SameView s t
    → b < fssize
    → Ends (Unwritten s) (λ _. Written b x s) ((set_data b x >> bwrite b) t)
put_after {t} b x v lt =
    mono (put_lem b x t v.sound lt) (λ d u. Unwritten-seen v u) (λ _ u w. Written-seen v w)

pub install_block-Copies :
    (l : Log) (tail : ℕ) (s : Disk)
    → IsSound s
    → l.start + tail + 1 < fssize
    → l.lh.block tail < fssize
    → Copies (l.start + tail + 1) (l.lh.block tail) s (install_block l tail s)
unfolding install_block
install_block-Copies l tail s h from_lt to_lt =
    let (t, e, v, _) = bread_lem (l.start + tail + 1) s h from_lt in
    let (u, f, w, _) = bread_lem (l.lh.block tail) t v.sound to_lt in
    rw (e, f) (put_after (l.lh.block tail) (view s (l.start + tail + 1)) (SameView-trans v w) to_lt)

pub log_block-Copies :
    (l : Log) (tail : ℕ) (s : Disk)
    → IsSound s
    → l.lh.block tail < fssize
    → l.start + tail + 1 < fssize
    → Copies (l.lh.block tail) (l.start + tail + 1) s (log_block l tail s)
unfolding log_block
log_block-Copies l tail s h from_lt to_lt =
    let (t, e, v, _) = bread_lem (l.start + tail + 1) s h to_lt in
    let (u, f, w, _) = bread_lem (l.lh.block tail) t v.sound from_lt in
    rw (e, f)
      (subst
        (λ (x : Block).
          Ends (Unwritten s) (λ _. Written (l.start + tail + 1) x s)
            ((set_data (l.start + tail + 1) (view t (l.lh.block tail))
                >> bwrite (l.start + tail + 1))
              u))
        (λ i. v.seen i (l.lh.block tail))
        (put_after (l.start + tail + 1) (view t (l.lh.block tail)) (SameView-trans v w) to_lt))

-- `write_head` puts the header of `l` over the header block as it is seen.
unfoldable pub head_of : Log → Block → Block
head_of l buf = fill_header l.lh.block l.lh.n (update buf 0 l.lh.n)

pub write_head_lem :
    (l : Log) (s : Disk)
    → IsSound s
    → l.start < fssize
    → Ends (Unwritten s) (λ _. Written l.start (head_of l (view s l.start)) s) (write_head l s)
unfolding write_head head_of
write_head_lem l s h lt =
    let (t, e, v, _) = bread_lem l.start s h lt in
    rw e (put_after l.start (fill_header l.lh.block l.lh.n (update (view s l.start) 0 l.lh.n)) v lt)

-- A stop after some rounds leaves a prefix of the copies on the disk.
pub record Partly (src dst : ℕ → ℕ) (n : ℕ) (s : Disk) (d : ℕ → Block) : Type 0 where
  pub rounds : ℕ
  pub few : rounds < n
  pub spent : s.writes_left ≡ rounds
  pub reached : d ≡ copied src dst (view s) rounds s.disk

pub record Fully (src dst : ℕ → ℕ) (n : ℕ) (s t : Disk) : Type 0 where
  pub disk : t.disk ≡ copied src dst (view s) n s.disk
  pub seen : view t ≡ copied src dst (view s) n (view s)
  pub sound : IsSound t
  pub left : s.writes_left ≡ n + t.writes_left

module _ (src dst : ℕ → ℕ) (n : ℕ) (apart : (i j : ℕ) → i < n → j < n → dst i ≢ src j) where
  copied_src :
      (vals g : ℕ → Block) (k j : ℕ) → k ≤ n → j < n → copied src dst vals k g (src j) ≡ g (src j)
  unfolding copied
  copied_src vals g zero j hk hj = refl
  copied_src vals g (suc k) j hk hj =
      ground (arith, copied_src vals g k j (omega arith) hj, apart k j)

  module _ (body : ℕ → M (Unit {0})) (s : Disk)
      (round : (i : ℕ) → i < n → (t : Disk) → IsSound t → Copies (src i) (dst i) t (body i t)) where
    advance :
        (i : ℕ) (t u : Disk)
        → i < n
        → Fully src dst i s t
        → Written (dst i) (view t (src i)) t u
        → Fully src dst (suc i) s u
    unfolding copied
    advance i t u lt f w =
        let same : view t (src i) ≡ view s (src i) =
          (λ j. f.seen j (src i)) ∙ copied_src (view s) (view s) i i (omega arith) lt in
        record {
          disk = w.disk ∙ ap₂ (λ (d : ℕ → Block) x. update d (dst i) x) f.disk same;
          seen = w.seen ∙ ap₂ (λ (d : ℕ → Block) x. update d (dst i) x) f.seen same;
          sound = w.sound;
          left = omega (arith, f.left, w.left);
        }

    loop_from :
        (k i : ℕ) (t : Disk)
        → i + k ≡ n
        → Fully src dst i s t
        → Ends (Partly src dst n s) (λ _. Fully src dst n s) (for_blocks body k i t)
    unfolding for_blocks
    loop_from zero i t e f =
        let all : i ≡ n = omega arith in ended (subst (λ m. Fully src dst m s t) all f)
    loop_from (suc k) i t e f =
        let lt : i < n = omega arith in
        bind
          (mono (round i lt t f.sound)
            (λ d (same, none_left). record {
              rounds = i;
              few = lt;
              spent = omega (arith, f.left, none_left);
              reached = same ∙ f.disk;
            })
            (λ _ u w. advance i t u lt f w))
          (λ _ u g.
            loop_from k (i + 1) u (omega arith) (subst (λ m. Fully src dst m s u) (omega arith) g))

    -- The loop makes all copies, or the power fails after some of them.
    pub for_blocks_lem :
        IsSound s → Ends (Partly src dst n s) (λ _. Fully src dst n s) (for_blocks body n 0 s)
    unfolding copied
    for_blocks_lem h =
        loop_from n 0 s (omega arith)
          (record { disk = refl; seen = refl; sound = h; left = omega arith })
