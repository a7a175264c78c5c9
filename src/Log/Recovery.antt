-- ===== src/Log/Recovery.antt =====
-- Recovery at boot, also when the power fails again during it.
use homework.Prelude.{
  ℕ, ◌+◌, ◌≤◌, ◌<◌, ◌≡◌, refl, sym, ap, ◌∙◌, arith, subst, update, update_ne, update_self,
}
use homework.Disk.{Block, fssize, Disk, ok, power_on}
use homework.Disk.View.{view, IsSound, Ends, ended, bind, mono, bread_lem, SameView}
use homework.Log.{Log, read_head, install_trans, write_head, recover_from_log}
use homework.Log.Defs.{cleared}
use homework.Log.Copy.{
  copied, Partly, Fully, for_blocks_lem, install_block-Copies, write_head_lem, head_of,
}
use homework.Log.Replay.{
  replay, log_place, home_of, SameFiles, IsLogged, IsHeader, installed-IsLogged,
  replay-installed_all, replay-installed, head_of_count,
}

-- `install_trans` with a sound header: all copies out of the log, or some and a power failure.
pub install_trans_lem :
    (l : Log) (size : ℕ) (s : Disk)
    → IsHeader l.start size l.lh.n l.lh.block
    → l.start + size ≤ fssize
    → IsSound s
    → Ends
        (Partly (log_place l.start) l.lh.block l.lh.n s)
        (λ _. Fully (log_place l.start) l.lh.block l.lh.n s)
        (install_trans l s)
unfolding install_trans
install_trans_lem l size s header fits h =
    for_blocks_lem (log_place l.start) l.lh.block l.lh.n
      (λ i j hi hj e. ground (arith, header.outside i hi, header.room)) _ s
      (λ i lt t sound.
        install_block-Copies l i t sound (omega (arith, header.room)) (header.on_disk i lt))
      h

power_on-IsSound : (d : ℕ → Block) (left : ℕ) → IsSound (power_on d left)
unfolding power_on
power_on-IsSound d left b e = cc

view-power_on : (d : ℕ → Block) (left : ℕ) → view (power_on d left) ≡ d
unfolding power_on view
view-power_on d left = refl

-- The header that `read_head` makes of what is seen in the header block.
abbrev pub read_log : Log → Block → Log
read_log l hd = record l { lh = record { n = hd 0; block = λ i. hd (i + 1) } }

read_head_lem :
    (l : Log) (s : Disk)
    → IsSound s
    → l.start < fssize
    → (t : Disk) × (read_head l s ≡ ok (read_log l (view s l.start)) t) × SameView s t
unfolding read_head
read_head_lem l s h lt = let (t, e, v, _) = bread_lem l.start s h lt in (t, rw e refl, v)

-- What a failed recovery leaves: the log is sound and the disk stands for the same files; at most
-- as many writes were made as blocks are logged.
pub record Interrupted (start size left : ℕ) (d e : ℕ → Block) : Type 0 where
  pub logged : IsLogged start size e
  pub files : SameFiles start size (replay start e) (replay start d)
  pub writes : left ≤ d start 0

-- What a recovery that ends leaves: an empty log in memory and on the disk, and the files for which
-- the disk stood, on the disk and as seen.
pub record Recovered (start size : ℕ) (d : ℕ → Block) (l : Log) (t : Disk) : Type 0 where
  pub empty : l.lh.n ≡ 0
  pub empty_disk : t.disk start 0 ≡ 0
  pub files : SameFiles start size t.disk (replay start d)
  pub seen : view t ≡ t.disk
  pub sound : IsSound t

module _ (l : Log) (size : ℕ) (s : Disk) (ok_log : IsLogged l.start size s.disk)
    (fits : l.start + size ≤ fssize) (same : view s ≡ s.disk) where
  abbrev part : ℕ → ℕ → Block
  part k = copied (log_place l.start) (home_of l.start s.disk) s.disk k s.disk

  partial-Interrupted :
      (k : ℕ) (e : ℕ → Block)
      → e ≡ part k
      → k ≤ s.disk l.start 0
      → s.writes_left ≤ s.disk l.start 0
      → Interrupted l.start size s.writes_left s.disk e
  partial-Interrupted k e is le spent = record {
    logged = subst (IsLogged l.start size) (sym is) (
        installed-IsLogged l.start size s.disk ok_log (home_of l.start s.disk) s.disk (λ i lt. refl)
          (λ i lt. refl) k le);
    files = λ b out.
        (λ i. replay l.start (is i) b)
        ∙ replay-installed l.start size s.disk ok_log (home_of l.start s.disk) s.disk (λ i lt. refl)
            (λ i lt. refl) k le b;
    writes = spent;
  }

  abbrev found : Log
  found = read_log l (s.disk l.start)

  module _ (t : Disk) (v : SameView s t) where
    copies-eq : (k : ℕ) → copied (log_place l.start) found.lh.block (view t) k t.disk ≡ part k
    copies-eq k i =
        copied (log_place l.start) (home_of l.start s.disk) ((v.seen ∙ same) i) k (v.disk i)

    copies_seen-eq :
        (k : ℕ) → copied (log_place l.start) found.lh.block (view t) k (view t) ≡ part k
    copies_seen-eq k i =
        copied (log_place l.start) (home_of l.start s.disk) ((v.seen ∙ same) i) k
          ((v.seen ∙ same) i)

    install_part :
        Ends
          (Interrupted l.start size s.writes_left s.disk)
          (λ _ u.
            (u.disk ≡ part (s.disk l.start 0))
            × (view u ≡ part (s.disk l.start 0))
            × IsSound u
            × (s.writes_left ≡ s.disk l.start 0 + u.writes_left))
          (install_trans found t)
    install_part =
        mono (install_trans_lem found size t ok_log fits v.sound)
          (λ d p.
            partial-Interrupted p.rounds d (p.reached ∙ copies-eq p.rounds) (omega (arith, p.few))
              (omega (arith, p.few, p.spent, v.left)))
          (λ _ u f. (
            f.disk ∙ copies-eq _,
            f.seen ∙ copies_seen-eq _,
            f.sound,
            omega (arith, f.left, v.left),
          ))

  clear_part :
      (u : Disk)
      → u.disk ≡ part (s.disk l.start 0)
      → view u ≡ part (s.disk l.start 0)
      → IsSound u
      → s.writes_left ≡ s.disk l.start 0 + u.writes_left
      → Ends
          (Interrupted l.start size s.writes_left s.disk)
          (λ _ w. Recovered l.start size s.disk (cleared found) w)
          (write_head (cleared found) u)
  clear_part u on_disk seen sound left =
      mono (write_head_lem (cleared found) u sound (omega (arith, ok_log.room)))
        (λ d (e, z). partial-Interrupted _ d (e ∙ on_disk) (omega arith) (omega arith))
        (λ _ w r. record {
          empty = refl;
          empty_disk =
              (λ i. r.disk i l.start 0)
              ∙ (λ i. update_self u.disk l.start (head_of (cleared found) (view u l.start)) i 0)
              ∙ head_of_count (cleared found) (view u l.start);
          files = λ b out.
              (λ i. r.disk i b)
              ∙ update_ne u.disk l.start _ b (λ e. ground (arith, out, ok_log.room))
              ∙ (λ i. on_disk i b)
              ∙ sym (
                  replay-installed_all l.start size s.disk ok_log (home_of l.start s.disk) s.disk
                    (λ i lt. refl) (λ i lt. refl) b);
          seen =
              r.seen
              ∙ ap (λ (d : ℕ → Block). update d l.start (head_of (cleared found) (view u l.start)))
                  (seen ∙ sym on_disk)
              ∙ sym r.disk;
          sound = r.sound;
        })

  recover_lem :
      IsSound s
      → Ends
          (Interrupted l.start size s.writes_left s.disk)
          (Recovered l.start size s.disk)
          (recover_from_log l s)
  unfolding recover_from_log
  recover_lem h =
      let (t, e, v) = read_head_lem l s h (omega (arith, ok_log.room)) in
      rw (e ∙ (λ i. ok (read_log l (same i l.start)) t)) (
        bind (install_part t v) (λ _ u (on_disk, seen, sound, left).
          bind (clear_part u on_disk seen sound left) (λ _ w r. ended r)))

-- From a disk with a sound log, after a power failure: recovery never panics; it ends, with an empty
-- log and with the files for which the disk stood; or the power fails again, and then it leaves a
-- disk with a sound log that stands for the same files. It fails again only where at most as many
-- writes were left as blocks are logged, so with more it ends.
pub recover_from_log_lem :
    (l : Log) (size left : ℕ) (d : ℕ → Block)
    → IsLogged l.start size d
    → l.start + size ≤ fssize
    → Ends
        (Interrupted l.start size left d)
        (Recovered l.start size d)
        (recover_from_log l (power_on d left))
unfolding power_on
recover_from_log_lem l size left d ok_log fits =
    recover_lem l size (power_on d left) ok_log fits (view-power_on d left)
      (power_on-IsSound d left)
