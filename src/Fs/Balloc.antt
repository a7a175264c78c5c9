-- ===== src/Fs/Balloc.antt =====
-- fs.c: the loops of `balloc`, and `bfree`.
use Prim.Native.Nat.{min}
use homework.Prelude.{
  ℕ, zero, suc, ◌+◌, ◌-◌, ◌*◌, ◌/◌, ◌%◌, ◌≤◌, ◌<◌, ◌≡◌, ◌≢◌, refl, ◌∙◌, ap, sym, subst, ◌⊎◌, inl,
  inr, ◌==◌, ltb, leb, if◌then◌else◌, update, update_ne, Bool, true, false, Option, some, ◌∷◌,
  dec_lt, Bool-cases, arith,
}
use homework.Disk.{fssize}
use homework.Fs.Machine.{
  State, Ran, ok, panic, superblock_of, readsb, bpb, bind_ok, bread, log_write, bblock,
}
use homework.Fs.Blocks.{
  used, unmark, find_clear, bzero, balloc_bit, balloc_from, balloc, clear_bit, bfree,
}
use homework.Fs.Bits.{used-unmark}
use homework.Fs.Bitmap.{
  is_used, IsBitmap, Searched, all_set, clear, find_clear_lem, Taken, taken, taken-Taken, bit_after,
}

-- How `balloc` ends: with a block taken, or with a panic when every block is used.
pub data Balloc (s : State) : Ran ℕ → Type 0 where
  takes : {b : ℕ} {t : State} → Taken s b t → Balloc s (ok b t)
  all_used : ((c : ℕ) → c < s.sb.size → is_used s c ≡ true) → Balloc s panic

module _ (s : State) (m : IsBitmap s) where
  -- A block of the range that one block of the bitmap describes.
  bblock_of : (b bi : ℕ) → b % bpb ≡ 0 → bi < bpb → bblock (b + bi) s.sb ≡ bblock b s.sb
  unfolding bblock
  bblock_of b bi al lt = omega arith

  is_used_of :
      (b bi : ℕ) → b % bpb ≡ 0 → bi < bpb → is_used s (b + bi) ≡ used (s.blocks (bblock b s.sb)) bi
  unfolding is_used
  is_used_of b bi al lt = let e : (b + bi) % bpb ≡ bi = omega arith in rw (bblock_of b bi al lt, e)

  bread-bitmap : (b : ℕ) → b < s.sb.size → bread (bblock b s.sb) s ≡ ok (s.blocks (bblock b s.sb)) s
  unfolding bread
  bread-bitmap b lt =
      let fits = m.fits in
      let there = m.on_disk b lt in
      let readable : leb fssize (bblock b s.sb) ≡ false = ground arith in rw readable

  -- A round of the outer loop.
  balloc_from-round :
      (rounds b : ℕ)
      → b < s.sb.size
      → balloc_from (suc rounds) b s
        ≡ balloc_bit
            (balloc_from rounds (b + bpb))
            b
            (bblock b s.sb)
            (s.blocks (bblock b s.sb))
            (find_clear (s.blocks (bblock b s.sb)) (min bpb (s.sb.size - b)) 0)
            s
  unfolding balloc_from
  balloc_from-round rounds b lt =
      let more : ltb b s.sb.size ≡ true = ground arith in
      rw (balloc_from, more)
        (bind_ok (bread (bblock b s.sb))
          (λ x.
            balloc_bit (balloc_from rounds (b + bpb)) b (bblock b s.sb) x
              (find_clear x (min bpb (s.sb.size - b)) 0))
          s (bread-bitmap b lt))

  balloc_bit-found :
      (next : State → Ran ℕ) (b bi : ℕ)
      → b % bpb ≡ 0
      → bi < bpb
      → (lt : b + bi < s.sb.size) → (free : is_used s (b + bi) ≡ false)
      → balloc_bit next b (bblock b s.sb) (s.blocks (bblock b s.sb)) (some bi) s
        ≡ ok (b + bi) (taken s m (b + bi) lt free)
  unfolding balloc_bit bread log_write bzero taken
  balloc_bit-found next b bi al small lt free =
      let fits = m.fits in
      let readable : leb fssize (b + bi) ≡ false = ground arith in
      let low : (b + bi) % bpb ≡ bi = omega arith in rw (readable, bblock_of b bi al small, low)

  is_used_at :
      (b c : ℕ) (v : Bool)
      → b % bpb ≡ 0
      → b ≤ c
      → c < b + bpb
      → used (s.blocks (bblock b s.sb)) (c - b) ≡ v
      → is_used s c ≡ v
  is_used_at b c v al le lt u =
      let split : b + (c - b) ≡ c = omega arith in
      subst (λ i. is_used s i ≡ v) split (is_used_of b (c - b) al (omega arith) ∙ u)

  balloc_bit_lem :
      (rounds b : ℕ) {r : Option ℕ}
      → b % bpb ≡ 0
      → b < s.sb.size
      → ((c : ℕ) → c < b → is_used s c ≡ true)
      → (((c : ℕ) → c < b + bpb → c < s.sb.size → is_used s c ≡ true)
          → Balloc s (balloc_from rounds (b + bpb) s))
      → Searched (s.blocks (bblock b s.sb)) (min bpb (s.sb.size - b)) 0 r
      → Balloc s (
          balloc_bit
            (balloc_from rounds (b + bpb))
            b
            (bblock b s.sb)
            (s.blocks (bblock b s.sb))
            r
            s)
  balloc_bit_lem rounds b al lt below next (all_set all) =
      unfold balloc_bit in
      next (λ c lt_c lt_s. elim (dec_lt c b) [
        | yes h ↦ below c h
        | no h ↦ is_used_at b c true al (omega arith) lt_c (all (c - b) (omega arith) (omega arith))
      ])
  balloc_bit_lem rounds b al lt below next (clear j le lt_j free before) =
      let here : is_used s (b + j) ≡ false = is_used_of b j al (omega arith) ∙ free in
      rw (balloc_bit-found (balloc_from rounds (b + bpb)) b j al (omega arith) (omega arith) here) (
        takes (
          taken-Taken s m (b + j) (omega arith) here (λ c lt_c. elim (dec_lt c b) [
            | yes h ↦ below c h
            | no h ↦
                is_used_at b c true al (omega arith) (omega arith)
                  (before (c - b) (omega arith) (omega arith))
          ])))

  balloc_from_lem :
      (rounds b : ℕ)
      → b % bpb ≡ 0
      → s.sb.size < b + rounds * bpb
      → ((c : ℕ) → c < b → c < s.sb.size → is_used s c ≡ true)
      → Balloc s (balloc_from rounds b s)
  balloc_from_lem zero b al enough below =
      unfold balloc_from in all_used (λ c lt. below c (omega arith) lt)
  balloc_from_lem (suc rounds) b al enough below = elim (dec_lt b s.sb.size) [
    | yes lt ↦ rw (balloc_from-round rounds b lt) (
        balloc_bit_lem rounds b al lt (λ c lt_c. below c lt_c (omega arith))
          (balloc_from_lem rounds (b + bpb) (omega arith) (omega arith))
          (find_clear_lem (s.blocks (bblock b s.sb)) (min bpb (s.sb.size - b)) 0))
    | no ge ↦
        let stop : ltb b s.sb.size ≡ false = ground arith in
        unfold balloc_from in rw (balloc_from, stop) (all_used (λ c lt. below c (omega arith) lt))
  ]

  -- On a bitmap that lies on the disk and marks its own blocks as used, `balloc` takes the first free block:
  -- it marks and zeroes that block, changes no other bit and no other block, and leaves such a bitmap; or it
  -- panics, when every block is used.
  pub balloc_lem : Balloc s (balloc s)
  unfolding balloc
  balloc_lem =
      balloc_from_lem (s.sb.size / bpb + 1) 0 (omega arith) (omega arith)
        (λ c lt. absurd (omega arith))

-- The bit of the block is cleared, and nothing else changes.
pub record Freed (s : State) (b : ℕ) (t : State) : Type 0 where
  pub marks : (c : ℕ) → c < s.sb.size → is_used t c ≡ (if b == c then false else is_used s c)
  pub others : (c : ℕ) → c ≢ bblock b s.sb → t.blocks c ≡ s.blocks c
  pub sb : t.sb ≡ s.sb
  pub icache : t.icache ≡ s.icache

module _ (s : State) (m : IsBitmap s) (super : superblock_of (s.blocks 1) ≡ s.sb) (b : ℕ)
    (lt : b < s.sb.size) where
  readsb-eq : readsb s ≡ ok tt s
  unfolding readsb bread
  readsb-eq = ap (λ q. ok tt (record s { sb = q })) super

  clear_bit-eq : clear_bit b s ≡ (
      if is_used s b
      then log_write (bblock b s.sb) (unmark (s.blocks (bblock b s.sb)) (b % bpb)) s
      else panic)
  unfolding clear_bit is_used bread
  clear_bit-eq =
      let fits = m.fits in
      let there = m.on_disk b lt in
      let readable : leb fssize (bblock b s.sb) ≡ false = ground arith in
      rw readable (elim (Bool-cases (used (s.blocks (bblock b s.sb)) (b % bpb))) [
        | inl u ↦ rw u
        | inr u ↦ rw u
      ])

  bfree-eq : bfree b s ≡ (
      if is_used s b
      then log_write (bblock b s.sb) (unmark (s.blocks (bblock b s.sb)) (b % bpb)) s
      else panic)
  unfolding bfree
  bfree-eq = bind_ok readsb (λ _. clear_bit b) s readsb-eq ∙ clear_bit-eq

  -- `bfree` of a block that is in use clears its bit and changes nothing else; of a free block it panics.
  pub bfree_lem :
      ((is_used s b ≡ true) × (t : State) × (bfree b s ≡ ok tt t) × Freed s b t)
      ⊎ ((is_used s b ≡ false) × (bfree b s ≡ panic))
  unfolding log_write
  bfree_lem = elim (Bool-cases (is_used s b)) [
    | inl u ↦ inl (
      u,
      record s {
        blocks = update s.blocks (bblock b s.sb) (unmark (s.blocks (bblock b s.sb)) (b % bpb));
        logged = bblock b s.sb ∷ s.logged;
      },
      bfree-eq ∙ rw u,
      record {
        marks = λ c lt_c.
            unfold is_used in
            bit_after s b false (unmark (s.blocks (bblock b s.sb)) (b % bpb))
              (used-unmark (s.blocks (bblock b s.sb)) (m.bytes b lt) (b % bpb)) c;
        others = λ c ne.
            update_ne s.blocks (bblock b s.sb) (unmark (s.blocks (bblock b s.sb)) (b % bpb)) c
              (λ e. ne (sym e));
        sb = refl;
        icache = refl;
      },
    )
    | inr u ↦ inr (u, bfree-eq ∙ rw u)
  ]
