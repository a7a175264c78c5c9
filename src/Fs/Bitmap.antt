-- ===== src/Fs/Bitmap.antt =====
-- fs.c: `balloc` and `bfree` on the bitmap of the whole disk.
use homework.Prelude.{
  ℕ, zero, suc, ◌+◌, ◌%◌, ◌≤◌, ◌<◌, ◌≡◌, ◌≢◌, refl, ◌∙◌, ap, sym, subst, inl, inr, ◌==◌,
  if◌then◌else◌, update, update_self, update_ne, Bool, true, false, Option, none, some, ◌∷◌,
  ℕ_discrete, Bool-cases, arith,
}
use homework.Disk.{fssize}
use homework.Fs.Machine.{Block, State, bpb, bblock}
use homework.Fs.Blocks.{used, mark, find_clear}
use homework.Fs.Bits.{IsBytes, mark-IsBytes, used-mark}

-- What the bitmap says of block `b`.
unfoldable pub is_used : State → ℕ → Bool
unfolding used bblock
is_used s b = used (s.blocks (bblock b s.sb)) (b % bpb)

-- The bitmap lies on the disk, and its own blocks are marked as used.
pub record IsBitmap (s : State) : Type 0 where
  pub fits : s.sb.size ≤ fssize
  pub bytes : (b : ℕ) → b < s.sb.size → IsBytes (s.blocks (bblock b s.sb))
  pub on_disk : (b : ℕ) → b < s.sb.size → bblock b s.sb < s.sb.size
  pub own : (b : ℕ) → b < s.sb.size → is_used s (bblock b s.sb) ≡ true

-- The first of the bits that is clear.
pub data Searched (x : Block) (k bi : ℕ) : Option ℕ → Type 0 where
  all_set : ((j : ℕ) → bi ≤ j → j < bi + k → used x j ≡ true) → Searched x k bi none
  clear :
      (j : ℕ)
      → bi ≤ j
      → j < bi + k
      → used x j ≡ false
      → ((i : ℕ) → bi ≤ i → i < j → used x i ≡ true)
      → Searched x k bi (some j)

find_clear-later :
    (x : Block) (k bi : ℕ) {r : Option ℕ}
    → used x bi ≡ true
    → Searched x k (bi + 1) r
    → Searched x (suc k) bi r
find_clear-later x k bi u (all_set all) = all_set (λ j le lt. elim (ℕ_discrete bi j) [
  | yes e ↦ subst (λ i. used x i ≡ true) e u
  | no ne ↦ all j (omega arith) (omega arith)
])
find_clear-later x k bi u (clear j le lt c before) =
    clear j (omega arith) (omega arith) c (λ i le' lt'. elim (ℕ_discrete bi i) [
      | yes e ↦ subst (λ i'. used x i' ≡ true) e u
      | no ne ↦ before i (omega arith) lt'
    ])

pub find_clear_lem : (x : Block) (k bi : ℕ) → Searched x k bi (find_clear x k bi)
unfolding find_clear
find_clear_lem x zero bi = all_set (λ j le lt. absurd (omega arith))
find_clear_lem x (suc k) bi = elim (Bool-cases (used x bi)) [
  | inl u ↦ rw (find_clear, u) (find_clear-later x k bi u (find_clear_lem x k (bi + 1)))
  | inr c ↦
      rw (find_clear, c) (clear bi (omega arith) (omega arith) c (λ i le lt. absurd (omega arith)))
]

-- The first free block is taken: it is marked and zeroed, and no other bit or block changes.
pub record Taken (s : State) (b : ℕ) (t : State) : Type 0 where
  pub in_range : b < s.sb.size
  pub was_free : is_used s b ≡ false
  pub first : (c : ℕ) → c < b → is_used s c ≡ true
  pub marks : (c : ℕ) → c < s.sb.size → is_used t c ≡ (if b == c then true else is_used s c)
  pub zeroed : (i : ℕ) → t.blocks b i ≡ 0
  pub others : (c : ℕ) → c ≢ b → c ≢ bblock b s.sb → t.blocks c ≡ s.blocks c
  pub bitmap : IsBitmap t
  pub sb : t.sb ≡ s.sb
  pub icache : t.icache ≡ s.icache

-- A change of one bit of the bitmap, by a change of the block that holds it.
module _ (s : State) (b : ℕ) (v : Bool) (y : Block)
    (law : (i : ℕ)
      → used y i ≡ (if b % bpb == i then v else used (s.blocks (bblock b s.sb)) i)) where
  same_bit : (c : ℕ) → bblock b s.sb ≡ bblock c s.sb → (b % bpb == c % bpb) ≡ (b == c)
  unfolding bblock
  same_bit c e = ground arith

  pub bit_after :
      (c : ℕ)
      → used (update s.blocks (bblock b s.sb) y (bblock c s.sb)) (c % bpb)
        ≡ (if b == c then v else is_used s c)
  unfolding is_used
  bit_after c = elim (ℕ_discrete (bblock b s.sb) (bblock c s.sb)) [
    | yes e ↦
        ap (λ z. used (update s.blocks (bblock b s.sb) y z) (c % bpb)) (sym e)
        ∙ ap (λ z. used z (c % bpb)) (update_self s.blocks (bblock b s.sb) y)
        ∙ law (c % bpb)
        ∙ ap (λ t. if t then v else used (s.blocks (bblock b s.sb)) (c % bpb)) (same_bit c e)
        ∙ ap (λ z. if b == c then v else used (s.blocks z) (c % bpb)) e
    | no ne ↦
        let other : (b == c) ≡ false =
          let d : b ≢ c = λ e. ne (ap (λ z. bblock z s.sb) e) in ground arith in
        rw (other, update_ne s.blocks (bblock b s.sb) y (bblock c s.sb) ne)
  ]

  pub IsBytes-after :
      IsBytes y
      → (c : ℕ) → IsBytes (s.blocks (bblock c s.sb))
      → IsBytes (update s.blocks (bblock b s.sb) y (bblock c s.sb))
  IsBytes-after new c old = elim (ℕ_discrete (bblock b s.sb) (bblock c s.sb)) [
    | yes e ↦
        subst (λ z. IsBytes (update s.blocks (bblock b s.sb) y z)) e
          (subst IsBytes (sym (update_self s.blocks (bblock b s.sb) y)) new)
    | no ne ↦ subst IsBytes (sym (update_ne s.blocks (bblock b s.sb) y (bblock c s.sb) ne)) old
  ]

module _ (s : State) (m : IsBitmap s) (b : ℕ) (lt : b < s.sb.size)
    (free : is_used s b ≡ false) where
  -- A block of the bitmap is not free.
  not_bitmap : (c : ℕ) → c < s.sb.size → b ≢ bblock c s.sb
  not_bitmap c lt_c e =
      let u = m.own c lt_c in
      let f : is_used s (bblock c s.sb) ≡ false = subst (λ i. is_used s i ≡ false) e free in cc

  -- The state after `balloc` has taken `b`.
  unfoldable pub taken : State
  taken = record s {
    blocks =
        update (update s.blocks (bblock b s.sb) (mark (s.blocks (bblock b s.sb)) (b % bpb))) b
          (λ i. 0);
    logged = b ∷ bblock b s.sb ∷ s.logged;
  }

  taken-bitmap :
      (c : ℕ)
      → c < s.sb.size
      → taken.blocks (bblock c s.sb)
        ≡ update s.blocks
            (bblock b s.sb)
            (mark (s.blocks (bblock b s.sb)) (b % bpb))
            (bblock c s.sb)
  unfolding taken
  taken-bitmap c lt_c =
      update_ne (update s.blocks (bblock b s.sb) (mark (s.blocks (bblock b s.sb)) (b % bpb))) b
        (λ i. 0) (bblock c s.sb) (not_bitmap c lt_c)

  taken-marks : (c : ℕ) → c < s.sb.size → is_used taken c ≡ (if b == c then true else is_used s c)
  unfolding is_used taken
  taken-marks c lt_c =
      ap (λ z. used z (c % bpb)) (taken-bitmap c lt_c)
      ∙ bit_after s b true (mark (s.blocks (bblock b s.sb)) (b % bpb))
          (used-mark (s.blocks (bblock b s.sb)) (m.bytes b lt) (b % bpb)) c

  taken-IsBytes : (c : ℕ) → c < s.sb.size → IsBytes (taken.blocks (bblock c s.sb))
  taken-IsBytes c lt_c = subst IsBytes (sym (taken-bitmap c lt_c)) (
      IsBytes-after s b true (mark (s.blocks (bblock b s.sb)) (b % bpb))
        (used-mark (s.blocks (bblock b s.sb)) (m.bytes b lt) (b % bpb))
        (mark-IsBytes (s.blocks (bblock b s.sb)) (m.bytes b lt) (b % bpb)) c (m.bytes c lt_c))

  taken-IsBitmap : IsBitmap taken
  unfolding taken
  taken-IsBitmap = record {
    fits = m.fits;
    bytes = taken-IsBytes;
    on_disk = m.on_disk;
    own =
        λ c lt_c. taken-marks (bblock c s.sb) (m.on_disk c lt_c) ∙ rw (m.own c lt_c) (ground arith);
  }

  pub taken-Taken : ((c : ℕ) → c < b → is_used s c ≡ true) → Taken s b taken
  unfolding taken
  taken-Taken first = record {
    in_range = lt;
    was_free = free;
    first = first;
    marks = taken-marks;
    zeroed = λ i.
        ap (λ x. x i)
          (update_self (update s.blocks (bblock b s.sb) (mark (s.blocks (bblock b s.sb)) (b % bpb)))
            b (λ i'. 0));
    others = λ c ne ne'.
        update_ne (update s.blocks (bblock b s.sb) (mark (s.blocks (bblock b s.sb)) (b % bpb))) b
          (λ i. 0) c (λ e. ne (sym e))
        ∙ update_ne s.blocks (bblock b s.sb) (mark (s.blocks (bblock b s.sb)) (b % bpb)) c
            (λ e. ne' (sym e));
    bitmap = taken-IsBitmap;
    sb = refl;
    icache = refl;
  }
