-- ===== src/Fs/Writing.antt =====
-- fs.c: the loop of `writei` on a file whose blocks are all allocated.
use homework.Prelude.{
  ℕ, zero, suc, ◌+◌, ◌*◌, ◌/◌, ◌%◌, ◌≤◌, ◌<◌, ◌≡◌, ◌≢◌, refl, ◌∙◌, ap, sym, ◌⊎◌, inl, inr, ltb,
  update, update_self, update_ne, List, [], ◌∷◌, length, get_or, ℕ_discrete, Bool-cases, arith,
}
use homework.Fs.Machine.{Block, State, ndirect, bsize}
use homework.Fs.Content.{patch}
use homework.Fs.Mapped.{addr_at, byte_at, IsMapped}

patch_outside :
    (x : Block) (start : ℕ) (bs : List ℕ) (i : ℕ)
    → (i < start) ⊎ (start + length bs ≤ i)
    → patch x start bs i ≡ x i
unfolding patch
patch_outside x start [] i h = refl
patch_outside x start (b ∷ bs) i h =
    patch_outside (update x start b) (start + 1) bs i
      (elim h [ inl l ↦ inl (omega arith) | inr l ↦ inr (omega arith) ])
    ∙ update_ne x start b i (λ e. elim h [ inl l ↦ omega arith | inr l ↦ omega arith ])

patch_inside :
    (x : Block) (start : ℕ) (bs : List ℕ) (i : ℕ)
    → i < length bs
    → patch x start bs (start + i) ≡ get_or bs i 0
unfolding patch
patch_inside x start [] i lt = absurd (omega arith)
patch_inside x start (b ∷ bs) zero lt =
    ap (patch (update x start b) (start + 1) bs) (omega arith)
    ∙ patch_outside (update x start b) (start + 1) bs start (inl (omega arith))
    ∙ update_self x start b
patch_inside x start (b ∷ bs) (suc i) lt =
    ap (patch (update x start b) (start + 1) bs) (omega arith)
    ∙ patch_inside (update x start b) (start + 1) bs i (omega arith)

-- The bytes are in the file from `off` on, and nothing else has changed.
pub record Written (s : State) (ip n off : ℕ) (src : List ℕ) (t : State) : Type 0 where
  pub addrs : (bn : ℕ) → bn < n → addr_at t ip bn ≡ addr_at s ip bn
  pub inside : (i : ℕ) → i < length src → byte_at t ip (off + i) ≡ get_or src i 0
  pub outside :
      (i : ℕ) → i < n * bsize → (i < off) ⊎ (off + length src ≤ i) → byte_at t ip i ≡ byte_at s ip i
  pub others : (c : ℕ) → ((bn : ℕ) → bn < n → addr_at s ip bn ≢ c) → t.blocks c ≡ s.blocks c
  pub icache : t.icache ≡ s.icache
  pub sb : t.sb ≡ s.sb

-- The blocks of the file are where they were.
pub Written-IsMapped :
    {s t : State} {ip n off : ℕ} {src : List ℕ}
    → IsMapped s ip n
    → Written s ip n off src t
    → IsMapped t ip n
Written-IsMapped {ip} m w = record {
  few = m.few;
  there = λ bn lt. rw (w.addrs bn lt) (m.there bn lt);
  on_disk = λ bn lt. rw (w.addrs bn lt) (m.on_disk bn lt);
  distinct =
      λ bn bn' lt lt' e. m.distinct bn bn' lt lt' (sym (w.addrs bn lt) ∙ e ∙ w.addrs bn' lt');
  table_there = λ lt. rw w.icache (m.table_there lt);
  table_on_disk = λ lt. rw w.icache (m.table_on_disk lt);
  table_apart = λ lt bn lt' e.
      m.table_apart lt bn lt' (sym (w.addrs bn lt') ∙ e ∙ ap (λ f. (f ip).addrs ndirect) w.icache);
}

-- The state after one round of the loop.
unfoldable pub patched : State → ℕ → ℕ → List ℕ → State
patched s ip off bs =
    let b = addr_at s ip (off / bsize) in
    record s {
      blocks = update s.blocks b (patch (s.blocks b) (off % bsize) bs);
      logged = b ∷ s.logged;
    }

module _ (s : State) (ip n : ℕ) (m : IsMapped s ip n) (off : ℕ) (bs : List ℕ)
    (small : off % bsize + length bs ≤ bsize) (here : off / bsize < n) where
  patched-addrs : (bn : ℕ) → bn < n → addr_at (patched s ip off bs) ip bn ≡ addr_at s ip bn
  unfolding addr_at patched
  patched-addrs bn lt = elim (Bool-cases (ltb bn ndirect)) [
    | inl d ↦ rw d
    | inr i ↦
        let big : ndirect < n = ground arith in
        let apart = m.table_apart big (off / bsize) here in
        let b = addr_at s ip (off / bsize) in
        rw (
          i,
          update_ne s.blocks b (patch (s.blocks b) (off % bsize) bs) ((s.icache ip).addrs ndirect)
              apart,
        )
  ]

  -- A byte in the block that changes, and in another one.
  patched_same :
      (i : ℕ)
      → i / bsize ≡ off / bsize
      → byte_at (patched s ip off bs) ip i
        ≡ patch (s.blocks (addr_at s ip (off / bsize))) (off % bsize) bs (i % bsize)
  unfolding byte_at
  patched_same i e =
      ap (λ a. (patched s ip off bs).blocks a (i % bsize))
        (ap (addr_at (patched s ip off bs) ip) e ∙ patched-addrs (off / bsize) here)
      ∙ (unfold patched in
          let b = addr_at s ip (off / bsize) in
          ap (λ x. x (i % bsize)) (update_self s.blocks b (patch (s.blocks b) (off % bsize) bs)))

  patched_other :
      (i : ℕ)
      → i / bsize < n
      → i / bsize ≢ off / bsize
      → byte_at (patched s ip off bs) ip i ≡ byte_at s ip i
  unfolding byte_at
  patched_other i lt ne =
      ap (λ a. (patched s ip off bs).blocks a (i % bsize)) (patched-addrs (i / bsize) lt)
      ∙ (unfold patched in
          let b = addr_at s ip (off / bsize) in
          ap (λ x. x (i % bsize))
            (update_ne s.blocks b (patch (s.blocks b) (off % bsize) bs) (addr_at s ip (i / bsize))
              (λ e. ne (sym (m.distinct (off / bsize) (i / bsize) here lt e)))))

  pub patched-Written : Written s ip n off bs (patched s ip off bs)
  patched-Written = record {
    addrs = patched-addrs;
    inside = λ i lt.
        let q : (off + i) / bsize ≡ off / bsize = omega arith in
        let r : (off + i) % bsize ≡ off % bsize + i = omega arith in
        patched_same (off + i) q
        ∙ ap (patch (s.blocks (addr_at s ip (off / bsize))) (off % bsize) bs) r
        ∙ patch_inside (s.blocks (addr_at s ip (off / bsize))) (off % bsize) bs i lt;
    outside = λ i lt h. elim (ℕ_discrete (i / bsize) (off / bsize)) [
      | yes e ↦
          patched_same i e
          ∙ patch_outside (s.blocks (addr_at s ip (off / bsize))) (off % bsize) bs (i % bsize)
              (elim h [ inl l ↦ inl (omega arith) | inr l ↦ inr (omega arith) ])
          ∙ (unfold byte_at in ap (λ q. s.blocks (addr_at s ip q) (i % bsize)) (sym e))
      | no ne ↦ patched_other i (omega arith) ne
    ];
    others = λ c apart.
        unfold patched in
        let b = addr_at s ip (off / bsize) in
        update_ne s.blocks b (patch (s.blocks b) (off % bsize) bs) c (apart (off / bsize) here);
    icache = unfold patched in refl;
    sb = unfold patched in refl;
  }
