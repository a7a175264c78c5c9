-- ===== src/Fs/Inodes.antt =====
-- fs.c: inodes on the disk and their cache. The block of an inode is read and changed as a whole.
use homework.Prelude.{
  ℕ, zero, suc, ◌+◌, ◌-◌, ◌*◌, true, false, not, ◌&&◌, ◌||◌, Option, none, some, ltb, leb, ◌==◌,
  if◌then◌else◌,
}
use homework.Fs.Machine.{
  Block, Inode, panic, waits, M, ◌>>=◌, ◌>>◌, pure, ninode, read16, read32, write16, write32, bread,
  log_write, set_inode, iblock, dinode_at,
}

-- `addrs`, the 13 words from `off` on.
unfoldable pub read_addrs : Block → ℕ → ℕ → ℕ
unfolding read32
read_addrs x off i = read32 x (off + i * 4)

unfoldable pub write_addrs : ℕ → Block → ℕ → (ℕ → ℕ) → Block
unfolding write32
write_addrs zero x off addrs = x
write_addrs (suc n) x off addrs = write32 (write_addrs n x off addrs) (off + n * 4) (addrs n)

-- The dinode at `off` with the fields of an inode.
unfoldable pub put_dinode : Block → ℕ → Inode → Block
unfolding write16 write32 write_addrs
put_dinode x off ip =
    write_addrs 13
      (write32
        (write16 (write16 (write16 (write16 x off ip.kind) (off + 2) ip.major) (off + 4) ip.minor)
          (off + 6) ip.nlink)
        (off + 8) ip.size)
      (off + 12) ip.addrs

unfoldable pub iupdate : ℕ → M (Unit {0})
unfolding bread put_dinode log_write iblock dinode_at
iupdate ip s =
    let r = s.icache ip in
    let b = iblock r.inum s.sb in
    (do x ← bread b; log_write b (put_dinode x (dinode_at r.inum) r)) s

-- Where the scan of `iget` ends: at the entry of the inode, or with the first free entry.
pub data Scan : Type 0 where
  cached : ℕ → Scan
  empty_slot : Option ℕ → Scan

-- `if (empty == 0 && ip->ref == 0) empty = ip`
unfoldable pub remember : (i ref : ℕ) → Option ℕ → Option ℕ
remember i ref none = if ref == 0 then some i else none
remember i ref (some e) = some e

unfoldable pub iget_scan : (ℕ → Inode) → (dev inum : ℕ) → ℕ → ℕ → Option ℕ → Scan
unfolding remember
iget_scan inode dev inum zero i empty = empty_slot empty
iget_scan inode dev inum (suc k) i empty =
    elim (ltb 0 (inode i).ref && ((inode i).dev == dev && (inode i).inum == inum)) [
      | true ↦ cached i
      | false ↦ iget_scan inode dev inum k (i + 1) (remember i (inode i).ref empty)
    ]

unfoldable pub iget : (dev inum : ℕ) → M ℕ
unfolding iget_scan set_inode
iget dev inum s = elim (iget_scan s.icache dev inum ninode 0 none) [
  | cached i ↦ (do set_inode i (record (s.icache i) { ref = (s.icache i).ref + 1 }); pure i) s
  | empty_slot none ↦ panic
  | empty_slot (some i) ↦
      (do
        set_inode i (record (s.icache i) { dev = dev; inum = inum; ref = 1; valid = false })
        pure i)
        s
]

unfoldable pub idup : ℕ → M ℕ
unfolding set_inode
idup ip s = (do set_inode ip (record (s.icache ip) { ref = (s.icache ip).ref + 1 }); pure ip) s

-- The fields of the dinode, read into a cached inode.
unfoldable pub load_inode : Block → ℕ → Inode → Inode
unfolding read16 read32 read_addrs
load_inode x off r = record r {
  kind = read16 x off;
  major = read16 x (off + 2);
  minor = read16 x (off + 4);
  nlink = read16 x (off + 6);
  size = read32 x (off + 8);
  addrs = read_addrs x (off + 12);
  valid = true;
}

unfoldable pub ilock : ℕ → M (Unit {0})
unfolding bread iblock dinode_at load_inode set_inode
ilock ip s =
    let r = s.icache ip in
    if r.ref == 0
    then panic
    else (if r.locked
        then waits
        else (if r.valid
            then set_inode ip (record r { locked = true }) s
            else (do
              x ← bread (iblock r.inum s.sb)
              let loaded = load_inode x (dinode_at r.inum) (record r { locked = true })
              set_inode ip loaded
              if loaded.kind == 0 then (λ t. panic) else pure tt)
                s))

unfoldable pub iunlock : ℕ → M (Unit {0})
unfolding set_inode
iunlock ip s =
    let r = s.icache ip in
    if not r.locked || r.ref == 0 then panic else set_inode ip (record r { locked = false }) s

-- The loop of `ialloc` from inode `inum` on.
unfoldable pub ialloc_from : ℕ → ℕ → ℕ → ℕ → M ℕ
unfolding bread iblock dinode_at read16 write16 log_write iget
ialloc_from dev kind zero inum s = panic
ialloc_from dev kind (suc k) inum s =
    let b = iblock inum s.sb in
    let off = dinode_at inum in
    (do
      x ← bread b
      (λ t. elim (read16 x off == 0) [
        | true ↦
            (do
              log_write b (write16 (λ i. if leb off i && ltb i (off + 64) then 0 else x i) off kind)
              iget dev inum)
              t
        | false ↦ ialloc_from dev kind k (inum + 1) t
      ]))
      s

unfoldable pub ialloc : (dev kind : ℕ) → M ℕ
unfolding ialloc_from
ialloc dev kind s = ialloc_from dev kind (s.sb.ninodes - 1) 1 s
