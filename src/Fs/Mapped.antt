-- ===== src/Fs/Mapped.antt =====
-- fs.c: `bmap` on a file whose blocks are all allocated, and the bytes of such a file.
use homework.Prelude.{
  ℕ, zero, suc, ◌+◌, ◌-◌, ◌*◌, ◌/◌, ◌%◌, ◌≤◌, ◌<◌, ◌≡◌, ◌≢◌, refl, ◌∙◌, ap, ap₂, sym, inl, inr,
  ◌==◌, ltb, leb, if◌then◌else◌, true, false, List, [], ◌∷◌, ◌++◌, Bool-cases, arith,
}
use homework.Disk.{fssize}
use homework.Fs.Machine.{State, ok, ndirect, nindirect, maxfile, bsize, bread, bind_ok, read32}
use homework.Fs.Content.{bmap, addr_of, indirect_of, slice}

-- The address of block `bn` of the file.
unfoldable pub addr_at : State → ℕ → ℕ → ℕ
addr_at s ip bn =
    if ltb bn ndirect
    then (s.icache ip).addrs bn
    else read32 (s.blocks ((s.icache ip).addrs ndirect)) ((bn - ndirect) * 4)

-- Byte `i` of the file.
unfoldable pub byte_at : State → ℕ → ℕ → ℕ
byte_at s ip i = s.blocks (addr_at s ip (i / bsize)) (i % bsize)

-- The first `n` blocks of the file are different blocks of the disk, and none is the table of addresses.
pub record IsMapped (s : State) (ip n : ℕ) : Type 0 where
  pub few : n ≤ maxfile
  pub there : (bn : ℕ) → bn < n → addr_at s ip bn ≢ 0
  pub on_disk : (bn : ℕ) → bn < n → addr_at s ip bn < fssize
  pub distinct : (bn bn' : ℕ) → bn < n → bn' < n → addr_at s ip bn ≡ addr_at s ip bn' → bn ≡ bn'
  pub table_there : ndirect < n → (s.icache ip).addrs ndirect ≢ 0
  pub table_on_disk : ndirect < n → (s.icache ip).addrs ndirect < fssize
  pub table_apart : ndirect < n → (bn : ℕ) → bn < n → addr_at s ip bn ≢ (s.icache ip).addrs ndirect

pub bread_ok : (b : ℕ) (s : State) → b < fssize → bread b s ≡ ok (s.blocks b) s
unfolding bread
bread_ok b s lt = let readable : leb fssize b ≡ false = ground arith in rw readable

addr_of-there :
    (ip i : ℕ) (s : State)
    → (s.icache ip).addrs i ≢ 0
    → addr_of ip i s ≡ ok ((s.icache ip).addrs i) s
unfolding addr_of
addr_of-there ip i s ne = let test : ((s.icache ip).addrs i == 0) ≡ false = ground arith in rw test

indirect_of-there :
    (b i : ℕ) (s : State)
    → b < fssize
    → read32 (s.blocks b) (i * 4) ≢ 0
    → indirect_of b i s ≡ ok (read32 (s.blocks b) (i * 4)) s
unfolding indirect_of bread
indirect_of-there b i s lt ne =
    let readable : leb fssize b ≡ false = ground arith in
    let test : (read32 (s.blocks b) (i * 4) == 0) ≡ false = ground arith in rw readable (rw test)

module _ (s : State) (ip n : ℕ) (m : IsMapped s ip n) where
  -- `bmap` finds the address and changes nothing.
  pub bmap_lem : (bn : ℕ) → bn < n → bmap ip bn s ≡ ok (addr_at s ip bn) s
  bmap_lem bn lt = elim (Bool-cases (ltb bn ndirect)) [
    | inl d ↦
        let here : (s.icache ip).addrs bn ≢ 0 = unfold addr_at in (rw d at (m.there bn lt)) in
        unfold bmap addr_at in rw d (addr_of-there ip bn s here)
    | inr i ↦
        let few = m.few in
        let big : ndirect < n = ground arith in
        let inner : ltb (bn - ndirect) nindirect ≡ true = ground arith in
        let table = (s.icache ip).addrs ndirect in
        let there : read32 (s.blocks table) ((bn - ndirect) * 4) ≢ 0 =
          unfold addr_at in (rw i at (m.there bn lt)) in
        unfold bmap addr_at in
        rw (i, inner)
          (bind_ok (addr_of ip ndirect) (λ b. indirect_of b (bn - ndirect)) s
              (addr_of-there ip ndirect s (m.table_there big))
            ∙ indirect_of-there table (bn - ndirect) s (m.table_on_disk big) there)
  ]

-- `n` bytes of the file from `off` on.
abbrev pub bytes_from : State → ℕ → ℕ → ℕ → List ℕ
bytes_from s ip off zero = []
bytes_from s ip off (suc n) = byte_at s ip off ∷ bytes_from s ip (off + 1) n

pub bytes_at :
    (s : State) (ip a b n k : ℕ) → a ≡ b → n ≡ k → bytes_from s ip a n ≡ bytes_from s ip b k
bytes_at s ip a b n k e f = ap₂ (bytes_from s ip) e f

byte_in_block :
    (s : State) (ip q r : ℕ)
    → r < bsize
    → byte_at s ip (q * bsize + r) ≡ s.blocks (addr_at s ip q) r
unfolding byte_at
byte_in_block s ip q r lt =
    let e : (q * bsize + r) / bsize ≡ q = omega arith in
    let f : (q * bsize + r) % bsize ≡ r = omega arith in
    ap₂ (λ a b. s.blocks (addr_at s ip a) b) e f

-- Those bytes that one block holds, and the others.
slice-append-bytes :
    (s : State) (ip q rest m r : ℕ)
    → r + m ≤ bsize
    → slice (s.blocks (addr_at s ip q)) r m ++ bytes_from s ip (q * bsize + r + m) rest
      ≡ bytes_from s ip (q * bsize + r) (m + rest)
unfolding slice
slice-append-bytes s ip q rest zero r le =
    bytes_at s ip (q * bsize + r + 0) (q * bsize + r) rest (0 + rest) (omega arith) (omega arith)
slice-append-bytes s ip q rest (suc m) r le =
    ap₂ (λ (x : ℕ) (xs : List ℕ). x ∷ xs) (sym (byte_in_block s ip q r (omega arith)))
      (ap (λ (xs : List ℕ). slice (s.blocks (addr_at s ip q)) (r + 1) m ++ xs)
          (bytes_at s ip (q * bsize + r + suc m) (q * bsize + (r + 1) + m) rest rest (omega arith)
            refl)
        ∙ slice-append-bytes s ip q rest m (r + 1) (omega arith)
        ∙ bytes_at s ip (q * bsize + (r + 1)) (q * bsize + r + 1) (m + rest) (m + rest)
            (omega arith) refl)
    ∙ bytes_at s ip (q * bsize + r) (q * bsize + r) (suc (m + rest)) (suc m + rest) refl
        (omega arith)

pub slice-append-bytes_from :
    (s : State) (ip off m rest : ℕ)
    → off % bsize + m ≤ bsize
    → slice (s.blocks (addr_at s ip (off / bsize))) (off % bsize) m
        ++ bytes_from s ip (off + m) rest
      ≡ bytes_from s ip off (m + rest)
slice-append-bytes_from s ip off m rest le =
    ap (λ xs. slice (s.blocks (addr_at s ip (off / bsize))) (off % bsize) m ++ xs)
      (bytes_at s ip (off + m) (off / bsize * bsize + off % bsize + m) rest rest (omega arith) refl)
    ∙ slice-append-bytes s ip (off / bsize) rest m (off % bsize) le
    ∙ bytes_at s ip (off / bsize * bsize + off % bsize) off (m + rest) (m + rest) (omega arith) refl
