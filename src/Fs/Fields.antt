-- ===== src/Fs/Fields.antt =====
-- fs.c: the fields of a dinode, written by `iupdate` and read by `ilock`.
use homework.Prelude.{
  ℕ, zero, suc, ◌+◌, ◌-◌, ◌*◌, ◌/◌, ◌%◌, ◌≤◌, ◌<◌, ◌≡◌, refl, ◌∙◌, ap, sym, subst, ◌⊎◌, inl, inr,
  ℕ_discrete, arith,
}
use homework.Fs.Machine.{Block, Inode, read16, read32, write16, write32}
use homework.Fs.Inodes.{read_addrs, write_addrs, put_dinode, load_inode}

pub write16_outside :
    (x : Block) (off v i : ℕ) → (i < off) ⊎ (off + 1 < i) → write16 x off v i ≡ x i
unfolding write16
write16_outside x off v i h = ground arith

pub read16-write16 : (x : Block) (off v : ℕ) → v < 65536 → read16 (write16 x off v) off ≡ v
unfolding read16 write16
read16-write16 x off v h = ground arith

pub write32_outside :
    (x : Block) (off v i : ℕ) → (i < off) ⊎ (off + 3 < i) → write32 x off v i ≡ x i
unfolding write32
write32_outside x off v i h = ground (
  arith,
  write16_outside (write16 x off (v % 65536)) (off + 2) (v / 65536) i,
  write16_outside x off (v % 65536) i,
)

pub read32-write32 : (x : Block) (off v : ℕ) → v < 4294967296 → read32 (write32 x off v) off ≡ v
unfolding read32 write32
read32-write32 x off v h = unfold write16 in ground arith

write_addrs_outside :
    (n : ℕ) (x : Block) (off : ℕ) (addrs : ℕ → ℕ) (i : ℕ)
    → (i < off) ⊎ (off + n * 4 ≤ i)
    → write_addrs n x off addrs i ≡ x i
unfolding write_addrs
write_addrs_outside zero x off addrs i h = refl
write_addrs_outside (suc n) x off addrs i h =
    write32_outside (write_addrs n x off addrs) (off + n * 4) (addrs n) i
      (elim h [ inl l ↦ inl (omega arith) | inr l ↦ inr (omega arith) ])
    ∙ write_addrs_outside n x off addrs i (elim h [ inl l ↦ inl l | inr l ↦ inr (omega arith) ])

read16_same :
    (x y : Block) (off : ℕ)
    → x off ≡ y off
    → x (off + 1) ≡ y (off + 1)
    → read16 x off ≡ read16 y off
unfolding read16
read16_same x y off e f = omega arith

read32_same :
    (x y : Block) (off : ℕ)
    → ((i : ℕ) → off ≤ i → i < off + 4 → x i ≡ y i)
    → read32 x off ≡ read32 y off
unfolding read32
read32_same x y off h = omega (
  arith,
  h off (omega arith) (omega arith),
  h (off + 1) (omega arith) (omega arith),
  h (off + 2) (omega arith) (omega arith),
  h (off + 3) (omega arith) (omega arith),
)

read_addrs-write_addrs :
    (n : ℕ) (x : Block) (off : ℕ) (addrs : ℕ → ℕ) (i : ℕ)
    → i < n
    → addrs i < 4294967296
    → read_addrs (write_addrs n x off addrs) off i ≡ addrs i
unfolding write_addrs read_addrs
read_addrs-write_addrs zero x off addrs i lt small = absurd (omega arith)
read_addrs-write_addrs (suc n) x off addrs i lt small = elim (ℕ_discrete i n) [
  | yes e ↦
      let at : off + i * 4 ≡ off + n * 4 = omega arith in
      ap (read32 (write_addrs (suc n) x off addrs)) at
      ∙ read32-write32 (write_addrs n x off addrs) (off + n * 4) (addrs n)
          (subst (λ j. addrs j < 4294967296) e small)
      ∙ ap addrs (sym e)
  | no ne ↦
      read32_same (write_addrs (suc n) x off addrs) (write_addrs n x off addrs) (off + i * 4)
        (λ j le lt'.
          write32_outside (write_addrs n x off addrs) (off + n * 4) (addrs n) j (inl (omega arith)))
      ∙ read_addrs-write_addrs n x off addrs i (omega arith) small
]

-- The fields of an inode fit their C types.
pub record Fits (r : Inode) : Type 0 where
  pub kind : r.kind < 65536
  pub major : r.major < 65536
  pub minor : r.minor < 65536
  pub nlink : r.nlink < 65536
  pub size : r.size < 4294967296
  pub addrs : (i : ℕ) → i < 13 → r.addrs i < 4294967296

-- Two inodes with the same contents.
pub record SameFile (r q : Inode) : Type 0 where
  pub kind : r.kind ≡ q.kind
  pub major : r.major ≡ q.major
  pub minor : r.minor ≡ q.minor
  pub nlink : r.nlink ≡ q.nlink
  pub size : r.size ≡ q.size
  pub addrs : (i : ℕ) → i < 13 → r.addrs i ≡ q.addrs i

pub SameFile-trans : (p q r : Inode) → SameFile p q → SameFile q r → SameFile p r
SameFile-trans p q r e f = record {
  kind = e.kind ∙ f.kind;
  major = e.major ∙ f.major;
  minor = e.minor ∙ f.minor;
  nlink = e.nlink ∙ f.nlink;
  size = e.size ∙ f.size;
  addrs = λ i lt. e.addrs i lt ∙ f.addrs i lt;
}

-- Only the 64 bytes of the dinode are read.
pub load_inode-same :
    (x y : Block) (off : ℕ) (q q' : Inode)
    → ((i : ℕ) → i < 64 → x (off + i) ≡ y (off + i))
    → SameFile (load_inode x off q) (load_inode y off q')
unfolding load_inode read_addrs
load_inode-same x y off q q' e = record {
  kind = read16_same x y off (at off 0 (omega arith) (omega arith)) (e 1 (omega arith));
  major =
      read16_same x y (off + 2) (e 2 (omega arith))
        (at (off + 2 + 1) 3 (omega arith) (omega arith));
  minor =
      read16_same x y (off + 4) (e 4 (omega arith))
        (at (off + 4 + 1) 5 (omega arith) (omega arith));
  nlink =
      read16_same x y (off + 6) (e 6 (omega arith))
        (at (off + 6 + 1) 7 (omega arith) (omega arith));
  size = read32_same x y (off + 8) (λ j le lt. at j (j - off) (omega arith) (omega arith));
  addrs = λ i small.
      read32_same x y (off + 12 + i * 4) (λ j le lt. at j (j - off) (omega arith) (omega arith));
}
  where
    at : (j i : ℕ) → i < 64 → j ≡ off + i → x j ≡ y j
    at j i lt is = ap x is ∙ e i lt ∙ ap y (sym is)

read16_at : (x : Block) (a b : ℕ) → a ≡ b → read16 x a ≡ read16 x b
read16_at x a b e = ap (read16 x) e

module _ (x : Block) (off : ℕ) (r : Inode) (fits : Fits r) where
  -- The block with the first four fields, and with `size` too.
  shorts : Block
  shorts =
      write16 (write16 (write16 (write16 x off r.kind) (off + 2) r.major) (off + 4) r.minor)
        (off + 6) r.nlink

  heads : Block
  unfolding shorts
  heads = write32 shorts (off + 8) r.size

  heads_first : (i : ℕ) → i < off + 8 → put_dinode x off r i ≡ shorts i
  unfolding put_dinode heads
  heads_first i lt =
      write_addrs_outside 13 heads (off + 12) r.addrs i (inl (omega arith))
      ∙ write32_outside shorts (off + 8) r.size i (inl (omega arith))

  shorts_outside : (i : ℕ) → (i < off) ⊎ (off + 64 ≤ i) → shorts i ≡ x i
  unfolding shorts write16
  shorts_outside i h = ground arith

  -- The four reads of 16 bits give back what was written.
  shorts_fields :
      (read16 shorts off ≡ r.kind)
      × (read16 shorts (off + 2) ≡ r.major)
      × (read16 shorts (off + 4) ≡ r.minor)
      × (read16 shorts (off + 6) ≡ r.nlink)
  unfolding shorts write16 read16
  shorts_fields =
      let a = fits.kind in
      let b = fits.major in
      let c = fits.minor in
      let d = fits.nlink in (ground arith, ground arith, ground arith, ground arith)

  first_field : (k : ℕ) → k < 7 → read16 (put_dinode x off r) (off + k) ≡ read16 shorts (off + k)
  first_field k lt =
      read16_same (put_dinode x off r) shorts (off + k) (heads_first (off + k) (omega arith))
        (heads_first (off + k + 1) (omega arith))

  pub put_dinode_outside : (i : ℕ) → (i < off) ⊎ (off + 64 ≤ i) → put_dinode x off r i ≡ x i
  unfolding put_dinode heads
  put_dinode_outside i h =
      write_addrs_outside 13 heads (off + 12) r.addrs i
        (elim h [ inl l ↦ inl (omega arith) | inr l ↦ inr (omega arith) ])
      ∙ write32_outside shorts (off + 8) r.size i
          (elim h [ inl l ↦ inl (omega arith) | inr l ↦ inr (omega arith) ])
      ∙ shorts_outside i h

  pub load_inode-put_dinode : (q : Inode) → SameFile (load_inode (put_dinode x off r) off q) r
  unfolding load_inode put_dinode write_addrs heads
  load_inode-put_dinode q = record {
    kind =
        read16_at (put_dinode x off r) off (off + 0) (omega arith)
        ∙ first_field 0 (omega arith)
        ∙ read16_at shorts (off + 0) off (omega arith)
        ∙ shorts_fields.0;
    major = first_field 2 (omega arith) ∙ shorts_fields.1;
    minor = first_field 4 (omega arith) ∙ shorts_fields.2;
    nlink = first_field 6 (omega arith) ∙ shorts_fields.3;
    size =
        read32_same (put_dinode x off r) heads (off + 8)
          (λ i le lt. write_addrs_outside 13 heads (off + 12) r.addrs i (inl (omega arith)))
        ∙ read32-write32 shorts (off + 8) r.size fits.size;
    addrs = λ i lt. read_addrs-write_addrs 13 heads (off + 12) r.addrs i lt (fits.addrs i lt);
  }
