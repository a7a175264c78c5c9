-- ===== src/Fs/Roundtrip.antt =====
-- fs.c: `writei` and then `readi`, on a file whose blocks are all allocated.
use Prim.Native.Nat.{min, max}
use homework.Prelude.{
  ℕ, suc, ◌+◌, ◌-◌, ◌*◌, ◌/◌, ◌%◌, ◌^◌, ◌≤◌, ◌<◌, ◌≡◌, ◌≢◌, refl, ◌∙◌, ap, ap₂, sym, subst, ◌⊎◌,
  inl, inr, ◌==◌, ltb, leb, ◌||◌, ◌&&◌, update, update_self, false, some, List, [], ◌∷◌, length,
  get_or, Bool-cases, arith,
}
use homework.Disk.{fssize}
use homework.Fs.Machine.{
  State, ok, ndirect, bsize, maxfile, t_dev, bind_ok, ◌>>◌, pure, iblock, set_inode, read32,
}
use homework.Fs.Inodes.{iupdate}
use homework.Fs.Update.{updated, updated-blocks, iupdate-eq}
use homework.Fs.Content.{Device, write_blocks, set_size, grow, readi, writei}
use homework.Fs.Mapped.{addr_at, byte_at, IsMapped, bytes_from}
use homework.Fs.Reading.{readi_lem}
use homework.Fs.Writing.{Written, Written-IsMapped}
use homework.Fs.Overwrite.{write_blocks_lem}

-- The block of the inode is on the disk, and no block of its file.
pub record IsApart (s : State) (ip n : ℕ) : Type 0 where
  pub on_disk : iblock (s.icache ip).inum s.sb < fssize
  pub contents : (bn : ℕ) → bn < n → addr_at s ip bn ≢ iblock (s.icache ip).inum s.sb
  pub table : ndirect < n → (s.icache ip).addrs ndirect ≢ iblock (s.icache ip).inum s.sb

-- The state after the size has grown.
grown : State → ℕ → ℕ → State
grown s ip size =
    updated ip (record s { icache = update s.icache ip (record (s.icache ip) { size = size }) })

-- The file's addresses, bytes and kind are the same, and its size is `size`.
record SameBytes (s : State) (ip n new_size : ℕ) (t : State) : Type 0 where
  addrs : (bn : ℕ) → bn < n → addr_at t ip bn ≡ addr_at s ip bn
  bytes : (i : ℕ) → i < n * bsize → byte_at t ip i ≡ byte_at s ip i
  table : (t.icache ip).addrs ≡ (s.icache ip).addrs
  kind : (t.icache ip).kind ≡ (s.icache ip).kind
  size : (t.icache ip).size ≡ new_size

module _ (s : State) (ip n : ℕ) (m : IsMapped s ip n) (a : IsApart s ip n) (size : ℕ) where
  grown-icache : (grown s ip size).icache ip ≡ record (s.icache ip) { size = size }
  unfolding grown updated
  grown-icache = update_self s.icache ip (record (s.icache ip) { size = size })

  grown-blocks :
      (c : ℕ) → c ≢ iblock (s.icache ip).inum s.sb → (grown s ip size).blocks c ≡ s.blocks c
  unfolding grown
  grown-blocks c ne =
      let r = record (s.icache ip) { size = size } in
      updated-blocks ip (record s { icache = update s.icache ip r }) c
        (λ e. ne (e ∙ ap (λ q. iblock q.inum s.sb) (update_self s.icache ip r)))

  grown-addrs : (bn : ℕ) → bn < n → addr_at (grown s ip size) ip bn ≡ addr_at s ip bn
  unfolding addr_at
  grown-addrs bn lt = elim (Bool-cases (ltb bn ndirect)) [
    | inl d ↦ rw d (ap (λ r. r.addrs bn) grown-icache)
    | inr i ↦
        let big : ndirect < n = ground arith in
        rw i (
          ap (λ r. read32 ((grown s ip size).blocks (r.addrs ndirect)) ((bn - ndirect) * 4))
            grown-icache
          ∙ ap (λ x. read32 x ((bn - ndirect) * 4))
              (grown-blocks ((s.icache ip).addrs ndirect) (a.table big)))
  ]

  grown-SameBytes : SameBytes s ip n size (grown s ip size)
  grown-SameBytes = record {
    addrs = grown-addrs;
    bytes = λ i lt.
        unfold byte_at in
        ap (λ b. (grown s ip size).blocks b (i % bsize)) (grown-addrs (i / bsize) (omega arith))
        ∙ ap (λ x. x (i % bsize))
            (grown-blocks (addr_at s ip (i / bsize)) (a.contents (i / bsize) (omega arith)));
    table = ap (λ r. r.addrs) grown-icache;
    kind = ap (λ r. r.kind) grown-icache;
    size = ap (λ r. r.size) grown-icache;
  }

  grow-eq : (set_size ip size >> iupdate ip) s ≡ ok tt (grown s ip size)
  unfolding grown set_size set_inode
  grow-eq =
      let r = record (s.icache ip) { size = size } in
      iupdate-eq ip (record s { icache = update s.icache ip r })
        (subst (λ q. iblock q.inum s.sb < fssize) (sym (update_self s.icache ip r)) a.on_disk)

SameBytes-IsMapped :
    {s t : State} {ip n size : ℕ} → IsMapped s ip n → SameBytes s ip n size t → IsMapped t ip n
SameBytes-IsMapped m e = record {
  few = m.few;
  there = λ bn lt. rw (e.addrs bn lt) (m.there bn lt);
  on_disk = λ bn lt. rw (e.addrs bn lt) (m.on_disk bn lt);
  distinct =
      λ bn bn' lt lt' q. m.distinct bn bn' lt lt' (sym (e.addrs bn lt) ∙ q ∙ e.addrs bn' lt');
  table_there = λ lt. subst (λ f. f ndirect ≢ 0) (sym e.table) (m.table_there lt);
  table_on_disk = λ lt. subst (λ f. f ndirect < fssize) (sym e.table) (m.table_on_disk lt);
  table_apart = λ lt bn lt' q.
      m.table_apart lt bn lt' (sym (e.addrs bn lt') ∙ q ∙ ap (λ f. f ndirect) e.table);
}

-- The bytes are in the file from `off` on, its other bytes are as before, and it ends behind them at least.
pub record Overwritten (s : State) (ip n off : ℕ) (src : List ℕ) (t : State) : Type 0 where
  pub mapped : IsMapped t ip n
  pub inside : (i : ℕ) → i < length src → byte_at t ip (off + i) ≡ get_or src i 0
  pub outside :
      (i : ℕ) → i < n * bsize → (i < off) ⊎ (off + length src ≤ i) → byte_at t ip i ≡ byte_at s ip i
  pub size : (t.icache ip).size ≡ max (s.icache ip).size (off + length src)
  pub kind : (t.icache ip).kind ≡ (s.icache ip).kind

module _ (s : State) (ip n : ℕ) (m : IsMapped s ip n) (a : IsApart s ip n) (off : ℕ) (src : List ℕ)
    (at : off ≤ (s.icache ip).size) (fits : off + length src ≤ n * bsize) where
  Written-IsApart : {t : State} → Written s ip n off src t → IsApart t ip n
  Written-IsApart w = record {
    on_disk = rw (w.icache, w.sb) a.on_disk;
    contents = λ bn lt e.
        a.contents bn lt
          (sym (w.addrs bn lt) ∙ e ∙ ap₂ (λ f q. iblock (f ip).inum q) w.icache w.sb);
    table = λ lt. rw (w.icache, w.sb) (a.table lt);
  }

  grow_lem :
      (t : State)
      → Written s ip n off src t
      → (u : State) × (grow ip (length src) (off + length src) t ≡ ok tt u)
        × Overwritten s ip n off src u
  unfolding grow
  grow_lem t w =
      let same : (t.icache ip).size ≡ (s.icache ip).size = ap (λ f. (f ip).size) w.icache in
      let kind : (t.icache ip).kind ≡ (s.icache ip).kind = ap (λ f. (f ip).kind) w.icache in
      let end = off + length src in
      let mt = Written-IsMapped m w in
      elim (Bool-cases (ltb 0 (length src) && ltb (t.icache ip).size end)) [
        | inl more ↦
            let e = grown-SameBytes t ip n mt (Written-IsApart w) end in
            (
              grown t ip end,
              rw more (grow-eq t ip n mt (Written-IsApart w) end),
              record {
                mapped = SameBytes-IsMapped mt e;
                inside = λ i lt. e.bytes (off + i) (omega arith) ∙ w.inside i lt;
                outside = λ i lt h. e.bytes i lt ∙ w.outside i lt h;
                size = e.size ∙ ground arith;
                kind = e.kind ∙ kind;
              },
            )
        | inr less ↦ (
          t,
          rw less,
          record {
            mapped = mt;
            inside = w.inside;
            outside = w.outside;
            size = same ∙ ground arith;
            kind = kind;
          },
        )
      ]

  -- `writei` at an offset in a file that is no device puts the bytes there, where all the blocks that they need
  -- are allocated: it returns their number, changes no other byte of the file, and the size becomes the
  -- offset behind them, or stays if it was larger.
  pub writei_lem :
      (devsw : ℕ → Device)
      → (s.icache ip).kind ≢ t_dev
      → (t : State) × (writei devsw ip off src s ≡ ok (some (length src)) t)
        × Overwritten s ip n off src t
  unfolding writei
  writei_lem devsw file =
      let (t, e, w) = write_blocks_lem (length src) s ip n src off m (omega arith) fits in
      let (u, e', o) = grow_lem t w in
      let few = m.few in
      let no_device : ((s.icache ip).kind == t_dev) ≡ false = ground arith in
      let good : (ltb (s.icache ip).size off || ltb ((off + length src) % 2 ^ 32) off) ≡ false =
        ground arith in
      let small : ltb (maxfile * bsize) (off + length src) ≡ false = ground arith in
      (
        u,
        rw (no_device, good, small)
            (bind_ok (write_blocks ip (length src) src off)
                (λ end. grow ip (length src) end >> pure (some (length src))) s e
              ∙ bind_ok (grow ip (length src) (off + length src)) (λ _. pure (some (length src))) t
                  e'),
        o,
      )

bytes_from-eq :
    (t : State) (ip : ℕ) (src : List ℕ) (off : ℕ)
    → ((i : ℕ) → i < length src → byte_at t ip (off + i) ≡ get_or src i 0)
    → bytes_from t ip off (length src) ≡ src
bytes_from-eq t ip [] off h = refl
bytes_from-eq t ip (c ∷ src) off h =
    ap₂ (λ (x : ℕ) (xs : List ℕ). x ∷ xs) (ap (byte_at t ip) (omega arith) ∙ h 0 (omega arith))
      (bytes_from-eq t ip src (off + 1)
        (λ i lt. ap (byte_at t ip) (omega arith) ∙ h (suc i) (omega arith)))

-- What `writei` has put into a file that is no device, at an offset in the file and where all the blocks are
-- allocated, `readi` gives back.
pub readi-writei :
    (devsw : ℕ → Device) (s : State) (ip n off : ℕ) (src : List ℕ)
    → IsMapped s ip n
    → IsApart s ip n
    → (s.icache ip).kind ≢ t_dev
    → (s.icache ip).size ≤ n * bsize
    → off ≤ (s.icache ip).size
    → off + length src ≤ n * bsize
    → (t : State) × (writei devsw ip off src s ≡ ok (some (length src)) t)
      × (readi devsw ip off (length src) t ≡ ok (some src) t)
readi-writei devsw s ip n off src m a file whole at fits =
    let (t, e, o) = writei_lem s ip n m a off src at fits devsw file in
    let few = m.few in
    let size = o.size in
    let no_device : (t.icache ip).kind ≢ t_dev = rw o.kind file in
    let good : (ltb (t.icache ip).size off || leb (2 ^ 32) (off + length src)) ≡ false =
      ground arith in
    let all : min (length src) ((t.icache ip).size - off) ≡ length src = ground arith in
    (
      t,
      e,
      readi_lem devsw t ip n o.mapped no_device (omega arith) off (length src) (omega arith)
            (omega arith)
          ∙ rw (good, all) (ap (λ l. ok (some l) t) (bytes_from-eq t ip src off o.inside)),
    )
