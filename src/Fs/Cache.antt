-- ===== src/Fs/Cache.antt =====
-- fs.c: the references to entries of the inode cache.
use homework.Prelude.{
  ℕ, zero, suc, ◌+◌, ◌<◌, ◌≡◌, ◌≢◌, refl, ◌∙◌, ap, sym, subst, inl, inr, ◌==◌, ltb, ◌&&◌, update,
  update_self, update_ne, false, Option, none, some, List, ◌∷◌, count, ℕ_discrete, Bool-cases,
  arith,
}
use homework.Fs.Machine.{Inode, State, ok, panic, ninode, set_inode}
use homework.Fs.Inodes.{Scan, cached, empty_slot, remember, iget_scan, iget, idup}

module _ (inode : ℕ → Inode) (dev inum : ℕ) where
  -- No entry below `n` is in use for the inode.
  abbrev pub NoMatch : ℕ → Type 0
  NoMatch n = (j : ℕ) → j < n → 0 < (inode j).ref → (inode j).dev ≡ dev → (inode j).inum ≡ inum → ⊥

  -- The free entry that the scan remembers.
  abbrev pub Remembers : ℕ → Option ℕ → Type 0
  Remembers n none = (j : ℕ) → j < n → 0 < (inode j).ref
  Remembers n (some e) = (e < n) × ((inode e).ref ≡ 0)

  abbrev pub Scanned : ℕ → Scan → Type 0
  Scanned n (cached j) =
      (j < n) × (0 < (inode j).ref) × ((inode j).dev ≡ dev) × ((inode j).inum ≡ inum)
  Scanned n (empty_slot e) = NoMatch n × Remembers n e

  Remembers-next :
      (i : ℕ) (e : Option ℕ) → Remembers i e → Remembers (i + 1) (remember i (inode i).ref e)
  unfolding remember
  Remembers-next i none r = elim (Bool-cases ((inode i).ref == 0)) [
    | inl z ↦ rw z (omega arith, ground arith)
    | inr z ↦ rw z (λ j lt. elim (ℕ_discrete j i) [
      | yes q ↦ subst (λ x. 0 < (inode x).ref) (sym q) (ground arith)
      | no ne ↦ r j (omega arith)
    ])
  ]
  Remembers-next i (some e) r = (omega arith, r.1)

  NoMatch-next :
      (i : ℕ)
      → NoMatch i
      → (ltb 0 (inode i).ref && ((inode i).dev == dev && (inode i).inum == inum)) ≡ false
      → NoMatch (i + 1)
  NoMatch-next i nm f j lt p q r = elim (ℕ_discrete j i) [
    | yes e ↦
        let p' = subst (λ x. 0 < (inode x).ref) e p in
        let q' = subst (λ x. (inode x).dev ≡ dev) e q in
        let r' = subst (λ x. (inode x).inum ≡ inum) e r in ground arith
    | no ne ↦ nm j (omega arith) p q r
  ]

  iget_scan_lem :
      (k i : ℕ) (e : Option ℕ)
      → NoMatch i
      → Remembers i e
      → Scanned (i + k) (iget_scan inode dev inum k i e)
  unfolding iget_scan
  iget_scan_lem zero i e nm r = subst (λ n. NoMatch n × Remembers n e) (omega arith) (nm, r)
  iget_scan_lem (suc k) i e nm r =
      elim (Bool-cases (ltb 0 (inode i).ref && ((inode i).dev == dev && (inode i).inum == inum))) [
        | inl t ↦ rw (iget_scan, t) (omega arith, ground arith, ground arith, ground arith)
        | inr f ↦
            let e' = remember i (inode i).ref e in
            let rest = iget_scan_lem k (i + 1) e' (NoMatch-next i nm f) (Remembers-next i e r) in
            let bound : i + 1 + k ≡ i + suc k = omega arith in
            rw (iget_scan, f)
              (subst (λ n. Scanned n (iget_scan inode dev inum k (i + 1) e')) bound rest)
      ]

-- The counters are the numbers of references held, and no inode has two entries in use.
pub record IsCache (inode : ℕ → Inode) (held : List ℕ) : Type 0 where
  pub counted : (i : ℕ) → i < ninode → (inode i).ref ≡ count i held
  pub unique :
      (i j : ℕ)
      → i < ninode
      → j < ninode
      → 0 < (inode i).ref
      → 0 < (inode j).ref
      → (inode i).dev ≡ (inode j).dev
      → (inode i).inum ≡ (inode j).inum
      → i ≡ j

module _ {inode : ℕ → Inode} {held : List ℕ} (c : IsCache inode held) where
  -- A change of one entry.
  replace-IsCache :
      (i : ℕ) (r : Inode) (held' : List ℕ)
      → r.ref ≡ count i held'
      → ((j : ℕ) → i ≢ j → count j held' ≡ count j held)
      → ((j : ℕ)
          → i ≢ j
          → j < ninode
          → 0 < (inode j).ref
          → (inode j).dev ≡ r.dev
          → (inode j).inum ≡ r.inum
          → ⊥)
      → IsCache (update inode i r) held'
  replace-IsCache i r held' e others alone =
      let self : update inode i r i ≡ r = update_self inode i r in
      let other = update_ne inode i r in
      record {
        counted = λ j lt. elim (ℕ_discrete i j) [
          | yes d ↦
              subst (λ x. (update inode i r x).ref ≡ count x held') d (ap (λ x. x.ref) self ∙ e)
          | no ne ↦ ap (λ x. x.ref) (other j ne) ∙ c.counted j lt ∙ sym (others j ne)
        ];
        unique = λ j k lj lk pj pk ed ei. elim (ℕ_discrete i j) [
          | yes d ↦ elim (ℕ_discrete i k) [
            | yes d' ↦ sym d ∙ d'
            | no ne ↦ absurd (
                alone k ne lk (rw (other k ne) at pk) (sym (rw (← d, self, other k ne) at ed))
                  (sym (rw (← d, self, other k ne) at ei)))
          ]
          | no ne ↦ elim (ℕ_discrete i k) [
            | yes d' ↦ absurd (
                alone j ne lj (rw (other j ne) at pj) (rw (← d', self, other j ne) at ed)
                  (rw (← d', self, other j ne) at ei))
            | no ne' ↦
                c.unique j k lj lk (rw (other j ne) at pj) (rw (other k ne') at pk)
                  (rw (other j ne, other k ne') at ed) (rw (other j ne, other k ne') at ei)
          ]
        ];
      }

  -- One more reference to an entry in use.
  bump-IsCache :
      (i : ℕ)
      → i < ninode
      → 0 < (inode i).ref
      → IsCache (update inode i (record (inode i) { ref = (inode i).ref + 1 })) (i ∷ held)
  bump-IsCache i lt used =
      let e = c.counted i lt in
      replace-IsCache i (record (inode i) { ref = (inode i).ref + 1 }) (i ∷ held) (ground arith)
        (λ j ne. ground arith) (λ j ne lj p d m. ne (sym (c.unique j i lj lt p used d m)))

-- What `iget` does: an entry for the inode, with one more reference, or a panic when every entry is in use
-- and none is for the inode.
pub data Got (dev inum : ℕ) (held : List ℕ) (s : State) : Type 0 where
  entry :
      (i : ℕ) (t : State)
      → iget dev inum s ≡ ok i t
      → i < ninode
      → (t.icache i).dev ≡ dev
      → (t.icache i).inum ≡ inum
      → IsCache t.icache (i ∷ held)
      → t.blocks ≡ s.blocks
      → Got dev inum held s
  full :
      iget dev inum s ≡ panic
      → ((j : ℕ) → j < ninode → 0 < count j held)
      → NoMatch s.icache dev inum ninode
      → Got dev inum held s

module _ (dev inum : ℕ) (held : List ℕ) (s : State) (c : IsCache s.icache held) where
  iget-cached :
      (i : ℕ)
      → iget_scan s.icache dev inum ninode 0 none ≡ cached i
      → Scanned s.icache dev inum ninode (cached i)
      → Got dev inum held s
  unfolding iget set_inode
  iget-cached i e (lt, used, d, m) =
      let r = record (s.icache i) { ref = (s.icache i).ref + 1 } in
      let self = update_self s.icache i r in
      entry i (record s { icache = update s.icache i r }) (rw (iget, e)) lt
        (ap (λ x. x.dev) self ∙ d) (ap (λ x. x.inum) self ∙ m) (bump-IsCache c i lt used) refl

  iget-recycled :
      (i : ℕ)
      → iget_scan s.icache dev inum ninode 0 none ≡ empty_slot (some i)
      → Scanned s.icache dev inum ninode (empty_slot (some i))
      → Got dev inum held s
  unfolding iget set_inode
  iget-recycled i e (nm, (lt, z)) =
      let r = record (s.icache i) { dev = dev; inum = inum; ref = 1; valid = false } in
      let self = update_self s.icache i r in
      let counted = c.counted i lt in
      entry i (record s { icache = update s.icache i r }) (rw (iget, e)) lt (ap (λ x. x.dev) self)
        (ap (λ x. x.inum) self)
        (replace-IsCache c i r (i ∷ held) (ground arith) (λ j ne. ground arith)
          (λ j ne lj p d m. nm j lj p d m))
        refl

  iget_of :
      (r : Scan)
      → iget_scan s.icache dev inum ninode 0 none ≡ r
      → Scanned s.icache dev inum ninode r
      → Got dev inum held s
  unfolding iget
  iget_of (cached i) e f = iget-cached i e f
  iget_of (empty_slot (some i)) e f = iget-recycled i e f
  iget_of (empty_slot none) e (nm, all) =
      full (rw (iget, e)) (λ j lt. omega (arith, c.counted j lt, all j lt)) nm

  -- In a cache whose counters are the numbers of references held, and with one entry at most for an inode,
  -- `iget` returns an entry for the inode, with one more reference, and both stay true; or it panics, when
  -- every entry has a reference and none is for the inode. No block changes.
  pub iget_lem : Got dev inum held s
  iget_lem = iget_of (iget_scan s.icache dev inum ninode 0 none) refl (
      iget_scan_lem s.icache dev inum ninode 0 none (λ j lt p d m. absurd (omega arith))
        (λ j lt. absurd (omega arith)))

  -- A reference to an entry in use can be copied.
  pub idup_lem :
      (i : ℕ)
      → i < ninode
      → 0 < count i held
      → (t : State) × (idup i s ≡ ok i t) × IsCache t.icache (i ∷ held) × (t.blocks ≡ s.blocks)
  unfolding idup set_inode
  idup_lem i lt h = (
    record s { icache = update s.icache i (record (s.icache i) { ref = (s.icache i).ref + 1 }) },
    refl,
    bump-IsCache c i lt (omega (arith, c.counted i lt)),
    refl,
  )
