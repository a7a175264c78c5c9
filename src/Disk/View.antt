-- ===== src/Disk/View.antt =====
-- What `bread` returns, and the effect of each transfer on it and on the disk.
use homework.Prelude.{
  ℕ, zero, suc, ◌<◌, ◌≡◌, refl, fun_ext, subst, subst₂, inl, inr, true, false, leb, if◌then◌else◌,
  update, arith, Bool-cases,
}
use homework.Disk.{
  Block, fssize, Disk, Outcome, ok, crash, M, and_then, ◌>>◌, bread, bwrite, set_data,
}

-- The contents of a block as the kernel sees them: its valid buffer's, or the disk's.
unfoldable pub view : Disk → ℕ → Block
view s b = if (s.buf b).valid then (s.buf b).contents else s.disk b

abbrev pub IsSound : Disk → Type 0
IsSound s = (b : ℕ) → (s.buf b).dirty ≡ true → (s.buf b).valid ≡ true

-- The outcome is a crash with `P` or a result with `Q`, and no panic.
pub data Ends {A : Type 0} (P : (ℕ → Block) → Type 0) (Q : A → Disk → Type 0)
    : Outcome A → Type 0 where
  ended : {a : A} {s : Disk} → Q a s → Ends P Q (ok a s)
  crashed : {d : ℕ → Block} → P d → Ends P Q (crash d)

module _ {A : Type 0} {P : (ℕ → Block) → Type 0} {Q : A → Disk → Type 0} where
  pub bind :
      {B : Type 0} {R : B → Disk → Type 0} {o : Outcome A} {k : A → M B}
      → Ends P Q o
      → ((a : A) (s : Disk) → Q a s → Ends P R (k a s))
      → Ends P R (and_then o k)
  bind (ended q) next = next _ _ q
  bind (crashed p) next = crashed p

  pub mono :
      {P' : (ℕ → Block) → Type 0} {Q' : A → Disk → Type 0} {o : Outcome A}
      → Ends P Q o
      → ((d : ℕ → Block) → P d → P' d)
      → ((a : A) (s : Disk) → Q a s → Q' a s)
      → Ends P' Q' o
  mono (ended q) f g = ended (g _ _ q)
  mono (crashed p) f g = crashed (f _ p)

  pub crash_of_Ends : {o : Outcome A} {d : ℕ → Block} → Ends P Q o → o ≡ crash d → P d
  crash_of_Ends (crashed {d} p) e = subst P (cc) p
  crash_of_Ends (ended q) e = cc

  pub ok_of_Ends : {o : Outcome A} {a : A} {s : Disk} → Ends P Q o → o ≡ ok a s → Q a s
  ok_of_Ends (ended {a = b} q) e = subst₂ Q (cc) (cc) q
  ok_of_Ends (crashed p) e = cc

  -- Where the power cannot have failed there is a result.
  pub result_of_Ends :
      {o : Outcome A}
      → Ends P Q o
      → ((d : ℕ → Block) → P d → ⊥)
      → (a : A) × (s : Disk) × (o ≡ ok a s) × Q a s
  result_of_Ends (ended {a} {s} q) h = (a, s, refl, q)
  result_of_Ends (crashed {d} p) h = absurd (h d p)

-- The disk and the writes that are left are the same; buffers may have been filled.
pub record SameView (s t : Disk) : Type 0 where
  pub disk : t.disk ≡ s.disk
  pub seen : view t ≡ view s
  pub sound : IsSound t
  pub left : t.writes_left ≡ s.writes_left
  pub kept : (b : ℕ) → (s.buf b).valid ≡ true → (t.buf b).valid ≡ true

module _ (b : ℕ) (s : Disk) (h : IsSound s) (lt : b < fssize) where
  in_range : leb fssize b ≡ false
  in_range = ground arith

  clean : (s.buf b).valid ≡ false → (s.buf b).dirty ≡ false
  clean e = ground (arith, h b)

  loaded : Disk
  loaded = record s {
    buf = update s.buf b (record { contents = s.disk b; valid = true; dirty = false });
  }

  loaded-SameView : (s.buf b).valid ≡ false → SameView s loaded
  unfolding loaded view
  loaded-SameView e = record {
    disk = refl;
    seen = fun_ext λ c. ground arith;
    sound = λ c d. ground (arith, h c);
    left = refl;
    kept = λ c d. ground arith;
  }

  bread_miss : (s.buf b).valid ≡ false → bread b s ≡ ok (s.disk b) loaded
  unfolding bread loaded
  bread_miss e = ground (arith, clean e, in_range)

  SameView-refl : SameView s s
  SameView-refl = record { disk = refl; seen = refl; sound = h; left = refl; kept = λ c d. d }

  -- `bread` of a block of the disk returns what the kernel sees there, and changes nothing seen.
  pub bread_lem :
      (t : Disk) × (bread b s ≡ ok (view s b) t) × SameView s t × ((t.buf b).valid ≡ true)
  unfolding view bread loaded
  bread_lem = elim (Bool-cases (s.buf b).valid) [
    | inl hit ↦ (s, ground arith, SameView-refl, hit)
    | inr miss ↦ (loaded, ground (arith, bread_miss miss), loaded-SameView miss, ground arith)
  ]

-- The block `b` is `x` on the disk and as seen; one write is used up.
pub record Written (b : ℕ) (x : Block) (s t : Disk) : Type 0 where
  pub disk : t.disk ≡ update s.disk b x
  pub seen : view t ≡ update (view s) b x
  pub sound : IsSound t
  pub left : s.writes_left ≡ suc t.writes_left

abbrev pub Unwritten : Disk → (ℕ → Block) → Type 0
Unwritten s d = (d ≡ s.disk) × (s.writes_left ≡ 0)

module _ (b : ℕ) (x : Block) (s : Disk) (h : IsSound s) (lt : b < fssize) where
  after_write : ℕ → Disk
  after_write left = record {
    disk = update s.disk b x;
    buf =
        update
          (update (update s.buf b (record (s.buf b) { contents = x })) b
            (record { contents = x; valid = (s.buf b).valid; dirty = true }))
          b (record { contents = x; valid = true; dirty = false });
    writes_left = left;
  }

  put_out : ℕ → Outcome (Unit {0})
  put_out zero = crash s.disk
  put_out (suc left) = ok tt (after_write left)

  put-eq : (set_data b x >> bwrite b) s ≡ put_out s.writes_left
  unfolding set_data bwrite put_out after_write
  put-eq = ground (arith, in_range b s h lt)

  put_out-Ends :
      (left : ℕ) → s.writes_left ≡ left → Ends (Unwritten s) (λ _. Written b x s) (put_out left)
  unfolding put_out after_write view
  put_out-Ends zero e = crashed (refl, e)
  put_out-Ends (suc left) e = ended (record {
    disk = refl;
    seen = fun_ext λ c. ground arith;
    sound = λ c d. ground (arith, h c);
    left = e;
  })

  -- New data for the block of `b`, written through: the power fails first, or both the disk and what
  -- is seen are changed at `b` only.
  pub put_lem : Ends (Unwritten s) (λ _. Written b x s) ((set_data b x >> bwrite b) s)
  put_lem = rw put-eq (put_out-Ends s.writes_left refl)
