-- ===== src/Log/Replay.antt =====
-- What a disk stands for: the blocks outside the log, with the logged transaction, if there is one,
-- applied. It is stated of the disk's words alone, and recovery is measured against it.
use homework.Prelude.{
  ℕ, zero, suc, ◌+◌, ◌≤◌, ◌<◌, ◌≡◌, ◌≢◌, refl, sym, subst, ◌∙◌, ◌⊎◌, inl, inr, ◌==◌, update, arith,
  Bool-cases, dec_lt, update_ne,
}
use homework.Disk.{Block, fssize}
use homework.Log.Defs.{Log, logsize, fill_header}
use homework.Log.Copy.{copied, head_of}

-- The block at `start + i + 1`.
abbrev pub log_place : ℕ → ℕ → ℕ
log_place start i = start + i + 1

abbrev pub home_of : ℕ → (ℕ → Block) → ℕ → ℕ
home_of start d i = d start (i + 1)

unfoldable pub replay : ℕ → (ℕ → Block) → ℕ → Block
replay start d = copied (log_place start) (home_of start d) d (d start 0) d

-- A block that is no part of the log.
abbrev pub Outside : (start size b : ℕ) → Type 0
Outside start size b = (b < start) ⊎ (start + size ≤ b)

abbrev pub SameFiles : (start size : ℕ) → (d e : ℕ → Block) → Type 0
SameFiles start size d e = (b : ℕ) → Outside start size b → d b ≡ e b

-- A header that fits `struct logheader` and the log, over blocks of the disk outside the log.
pub record IsHeader (start size n : ℕ) (home : ℕ → ℕ) : Type 0 where
  pub room : n < size
  pub bounded : n ≤ logsize
  pub outside : (i : ℕ) → i < n → Outside start size (home i)
  pub on_disk : (i : ℕ) → i < n → home i < fssize

abbrev pub IsLogged : (start size : ℕ) → (ℕ → Block) → Type 0
IsLogged start size d = IsHeader start size (d start 0) (home_of start d)

module _ (src : ℕ → ℕ) where
  pub copied_fixed :
      (dst : ℕ → ℕ) (vals g : ℕ → Block) (k b : ℕ)
      → ((i : ℕ) → i < k → dst i ≢ b)
      → copied src dst vals k g b ≡ g b
  unfolding copied
  copied_fixed dst vals g zero b h = refl
  copied_fixed dst vals g (suc k) b h =
      ground (arith, h k, copied_fixed dst vals g k b (λ i lt. h i (omega arith)))

  -- The result at `b` depends on the values copied, their places and the old value there.
  pub copied_ext :
      (dst dst' : ℕ → ℕ) (vals vals' g g' : ℕ → Block) (k b : ℕ)
      → ((i : ℕ) → i < k → vals (src i) ≡ vals' (src i))
      → ((i : ℕ) → i < k → dst i ≡ dst' i)
      → g b ≡ g' b
      → copied src dst vals k g b ≡ copied src dst' vals' k g' b
  unfolding copied
  copied_ext dst dst' vals vals' g g' zero b hv hd e = e
  copied_ext dst dst' vals vals' g g' (suc k) b hv hd e = ground (
    arith,
    hv k,
    hd k,
    copied_ext dst dst' vals vals' g g' k b (λ i lt. hv i (omega arith))
        (λ i lt. hd i (omega arith)) e,
  )

  -- Copies made once more, after a part of them, give what they give once.
  pub copied_again :
      (dst : ℕ → ℕ) (vals g : ℕ → Block) (m k b : ℕ)
      → k ≤ m
      → copied src dst vals m (copied src dst vals k g) b ≡ copied src dst vals m g b
  unfolding copied
  copied_again dst vals g zero zero b h = refl
  copied_again dst vals g zero (suc k) b h = absurd (omega arith)
  copied_again dst vals g (suc m) zero b h = refl
  copied_again dst vals g (suc m) (suc k) b h = elim (Bool-cases (dst m == b)) [
    | inl hit ↦ ground arith
    | inr miss ↦ elim (dec_lt k m) [
      | yes below ↦ ground (arith, copied_again dst vals g m (suc k) b (omega arith))
      | no last ↦ ground (
        arith,
        copied_again dst vals g m k b (omega arith),
        copied_ext dst dst vals vals (update (copied src dst vals k g) (dst k) (vals (src k)))
            (copied src dst vals k g) m b (λ i lt. refl) (λ i lt. refl)
            (update_ne (copied src dst vals k g) (dst k) (vals (src k)) b (ground arith)),
      )
    ]
  ]

  -- Where each copy puts what `w` has there, and `b` has it already or is a place of a copy.
  pub copied_value :
      (dst : ℕ → ℕ) (vals g w : ℕ → Block) (k b : ℕ)
      → ((i : ℕ) → i < k → vals (src i) ≡ w (dst i))
      → (g b ≡ w b) ⊎ ((i : ℕ) × (i < k) × (dst i ≡ b))
      → copied src dst vals k g b ≡ w b
  unfolding copied
  copied_value dst vals g w zero b hv (inl e) = e
  copied_value dst vals g w zero b hv (inr (i, lt, e)) = elim lt [ ]
  copied_value dst vals g w (suc k) b hv (inl e) =
      ground (arith, hv k, copied_value dst vals g w k b (λ i lt. hv i (omega arith)) (inl e))
  copied_value dst vals g w (suc k) b hv (inr (i, lt, e)) = elim (dec_lt i k) [
    | yes below ↦
        ground (
          arith,
          hv k,
          copied_value dst vals g w k b (λ j l. hv j (omega arith)) (inr (i, below, e)),
        )
    | no last ↦ ground (arith, hv k)
  ]

-- A disk with a sound log, and the copies out of the log that installing it makes: to the homes `h`
-- with values `v`, which are those of the header and of the log blocks on the disk.
module _ (start size : ℕ) (d : ℕ → Block) (ok_log : IsLogged start size d) (h : ℕ → ℕ)
    (v : ℕ → Block) (homes : (i : ℕ) → i < d start 0 → h i ≡ home_of start d i)
    (values : (i : ℕ) → i < d start 0 → v (log_place start i) ≡ d (log_place start i)) where
  abbrev pub installed : ℕ → ℕ → Block
  installed k = copied (log_place start) h v k d

  home-Outside : (i : ℕ) → i < d start 0 → Outside start size (h i)
  home-Outside i lt = ground (arith, homes i lt, ok_log.outside i lt)

  pub header_kept : (k : ℕ) → k ≤ d start 0 → installed k start ≡ d start
  header_kept k le =
      copied_fixed (log_place start) h v d k start
        (λ i lt e. ground (arith, home-Outside i (omega arith), ok_log.room))

  pub log_kept :
      (k : ℕ)
      → k ≤ d start 0
      → (j : ℕ) → j < d start 0
      → installed k (log_place start j) ≡ d (log_place start j)
  log_kept k le j lt_j =
      copied_fixed (log_place start) h v d k (log_place start j)
        (λ i lt e. ground (arith, home-Outside i (omega arith), ok_log.room))

  pub installed-IsLogged : (k : ℕ) → k ≤ d start 0 → IsLogged start size (installed k)
  installed-IsLogged k le =
      subst (λ (b : Block). IsHeader start size (b 0) (λ i. b (i + 1))) (sym (header_kept k le))
        ok_log

  -- The copies that the disk itself stands for.
  pub replay-installed_all : (b : ℕ) → replay start d b ≡ installed (d start 0) b
  unfolding replay
  replay-installed_all b =
      copied_ext (log_place start) (home_of start d) h d v d d (d start 0) b
        (λ i lt. sym (values i lt)) (λ i lt. sym (homes i lt)) refl

  -- A stop during the installation changes nothing of what the disk stands for.
  pub replay-installed :
      (k : ℕ) → k ≤ d start 0 → (b : ℕ) → replay start (installed k) b ≡ replay start d b
  unfolding replay
  replay-installed k le b =
      (λ i.
        copied (log_place start) (λ j. header_kept k le i (j + 1)) (installed k)
          (header_kept k le i 0) (installed k) b)
      ∙ copied_ext (log_place start) (home_of start d) h (installed k) v (installed k) (installed k)
          (d start 0) b (λ i lt. log_kept k le i lt ∙ sym (values i lt)) (λ i lt. sym (homes i lt))
          refl
      ∙ copied_again (log_place start) h v d (d start 0) k b le
      ∙ sym (replay-installed_all b)

-- A disk with an empty log stands for itself.
pub replay_empty : (start : ℕ) (d : ℕ → Block) (b : ℕ) → d start 0 ≡ 0 → replay start d b ≡ d b
unfolding replay copied
replay_empty start d b e = rw e refl

module _ (block : ℕ → ℕ) where
  fill_header_zero : (k : ℕ) (hb : Block) → fill_header block k hb 0 ≡ hb 0
  unfolding fill_header
  fill_header_zero zero hb = refl
  fill_header_zero (suc k) hb = ground (arith, fill_header_zero k hb)

  fill_header_word : (k : ℕ) (hb : Block) (i : ℕ) → i < k → fill_header block k hb (i + 1) ≡ block i
  unfolding fill_header
  fill_header_word zero hb i lt = elim lt [ ]
  fill_header_word (suc k) hb i lt = ground (arith, fill_header_word k hb i)

module _ (l : Log) (buf : Block) where
  pub head_of_count : head_of l buf 0 ≡ l.lh.n
  unfolding head_of
  head_of_count = fill_header_zero l.lh.block l.lh.n (update buf 0 l.lh.n)

  pub head_of_home : (i : ℕ) → i < l.lh.n → head_of l buf (i + 1) ≡ l.lh.block i
  unfolding head_of
  head_of_home i lt = fill_header_word l.lh.block l.lh.n (update buf 0 l.lh.n) i lt
