-- ===== src/Fs/Content.antt =====
-- fs.c: the contents of inodes. A device's functions are a parameter.
use Prim.Native.Nat.{min}
use homework.Prelude.{
  ℕ, zero, suc, ◌+◌, ◌-◌, ◌*◌, ◌/◌, ◌%◌, ◌^◌, true, false, ◌&&◌, ◌||◌, Option, none, some, ltb, leb,
  ◌==◌, if◌then◌else◌, update, List, [], ◌∷◌, ◌++◌, length, take, drop,
}
use homework.Fs.Machine.{
  Block, ok, panic, waits, M, ◌>>=◌, ◌>>◌, pure, ndirect, nindirect, maxfile, bsize, t_dev, read32,
  write32, bread, log_write, set_inode,
}
use homework.Fs.Blocks.{balloc, bfree}
use homework.Fs.Inodes.{iupdate, iunlock}

-- Entry `i` of `ip->addrs`, set.
unfoldable pub set_addr : ℕ → ℕ → ℕ → M (Unit {0})
unfolding set_inode
set_addr ip i a s = set_inode ip (record (s.icache ip) { addrs = update (s.icache ip).addrs i a }) s

-- `ip->addrs[i]`, allocated if there is none.
unfoldable pub addr_of : ℕ → ℕ → M ℕ
unfolding balloc set_addr
addr_of ip i s =
    let a = (s.icache ip).addrs i in
    if a == 0 then (do b ← balloc; set_addr ip i b; pure b) s else ok a s

-- After `balloc` the buffer is looked at again: `a` points into it.
unfoldable pub indirect_of : ℕ → ℕ → M ℕ
unfolding bread read32 balloc write32 log_write
indirect_of block bn = do
  x ← bread block
  if read32 x (bn * 4) == 0
      then (do b ← balloc; y ← bread block; log_write block (write32 y (bn * 4) b); pure b)
      else pure (read32 x (bn * 4))

unfoldable pub bmap : ℕ → ℕ → M ℕ
unfolding addr_of indirect_of
bmap ip bn s =
    if ltb bn ndirect
    then addr_of ip bn s
    else (if ltb (bn - ndirect) nindirect
        then (do block ← addr_of ip ndirect; indirect_of block (bn - ndirect)) s
        else panic)

-- `if (addr) bfree(addr)`
unfoldable pub free_if : ℕ → M (Unit {0})
unfolding bfree
free_if a = if a == 0 then pure tt else bfree a

unfoldable pub trunc_direct : ℕ → ℕ → ℕ → M (Unit {0})
unfolding free_if set_addr
trunc_direct ip zero i s = ok tt s
trunc_direct ip (suc k) i s =
    (do free_if ((s.icache ip).addrs i); set_addr ip i 0; trunc_direct ip k (i + 1)) s

-- `a[j]` is read from the buffer, which `bfree` leaves alone unless it is a block of the bitmap.
unfoldable pub trunc_indirect : ℕ → ℕ → ℕ → M (Unit {0})
unfolding free_if bread read32
trunc_indirect block zero j s = ok tt s
trunc_indirect block (suc k) j s =
    (do x ← bread block; free_if (read32 x (j * 4)); trunc_indirect block k (j + 1)) s

unfoldable pub set_size : ℕ → ℕ → M (Unit {0})
unfolding set_inode
set_size ip n s = set_inode ip (record (s.icache ip) { size = n }) s

unfoldable pub itrunc : ℕ → M (Unit {0})
unfolding trunc_direct trunc_indirect set_addr set_size iupdate bfree
itrunc ip = do
  trunc_direct ip ndirect 0
  (λ s.
      let a = (s.icache ip).addrs ndirect in
      (if a == 0
          then pure tt
          else (do trunc_indirect a nindirect 0; bfree a; set_addr ip ndirect 0))
        s)
  set_size ip 0
  iupdate ip

-- `ip->type = 0; iupdate(ip); ip->valid = 0`, after `itrunc`.
unfoldable pub free_inode : ℕ → M (Unit {0})
unfolding itrunc set_inode iupdate
free_inode ip = do
  itrunc ip
  (λ s. set_inode ip (record (s.icache ip) { kind = 0 }) s)
  iupdate ip
  (λ s. set_inode ip (record (s.icache ip) { valid = false }) s)

-- The sleep lock is free, or the call waits.
unfoldable pub iput : ℕ → M (Unit {0})
unfolding free_inode set_inode
iput ip s =
    let r = s.icache ip in
    if r.locked
    then waits
    else (do
      set_inode ip (record r { locked = true })
      if r.valid && (r.nlink == 0 && r.ref == 1) then free_inode ip else pure tt
      (λ t. let q = t.icache ip in set_inode ip (record q { locked = false; ref = q.ref - 1 }) t))
        s

unfoldable pub iunlockput : ℕ → M (Unit {0})
unfolding iunlock iput
iunlockput ip = do iunlock ip; iput ip

-- `n` bytes of a block from `start` on; and the block with bytes put there.
unfoldable pub slice : Block → ℕ → ℕ → List ℕ
slice x start zero = []
slice x start (suc n) = x start ∷ slice x (start + 1) n

unfoldable pub patch : Block → ℕ → List ℕ → Block
patch x start [] = x
patch x start (b ∷ bs) = patch (update x start b) (start + 1) bs

-- The loop of `readi` with `left` bytes to read; each round reads at least one.
unfoldable pub read_blocks : ℕ → ℕ → ℕ → ℕ → M (List ℕ)
unfolding bmap bread slice
read_blocks ip zero left off s = ok [] s
read_blocks ip (suc fuel) left off s = elim (left == 0) [
  | true ↦ ok [] s
  | false ↦
      (do
        a ← bmap ip (off / bsize)
        x ← bread a
        let m = min left (bsize - off % bsize)
        rest ← read_blocks ip fuel (left - m) (off + m)
        pure (slice x (off % bsize) m ++ rest))
        s
]

-- The loop of `writei`; the result is the offset after it.
unfoldable pub write_blocks : ℕ → ℕ → List ℕ → ℕ → M ℕ
unfolding bmap bread patch log_write
write_blocks ip zero src off s = ok off s
write_blocks ip (suc fuel) src off s = elim (length src == 0) [
  | true ↦ ok off s
  | false ↦
      (do
        a ← bmap ip (off / bsize)
        x ← bread a
        let m = min (length src) (bsize - off % bsize)
        log_write a (patch x (off % bsize) (take m src))
        write_blocks ip fuel (drop m src) (off + m))
        s
]

-- An entry of `devsw`, with null functions as `none`. They return the bytes read, or how many were
-- written, and `none` for -1.
pub record Device : Type 0 where
  pub read : Option (ℕ → ℕ → M (Option (List ℕ)))
  pub write : Option (ℕ → List ℕ → M (Option ℕ))

abbrev pub ndev : ℕ
ndev = 10

-- `if (n > 0 && off > ip->size) { ip->size = off; iupdate(ip); }`
unfoldable pub grow : ℕ → ℕ → ℕ → M (Unit {0})
unfolding set_size iupdate
grow ip n off s =
    (if ltb 0 n && ltb (s.icache ip).size off then (do set_size ip off; iupdate ip) else pure tt) s

-- A negative `major` is at least 2^15 here.
module _ (devsw : ℕ → Device) where
  unfoldable pub read_device : ℕ → ℕ → ℕ → M (Option (List ℕ))
  read_device ip major n s =
      if leb ndev major
      then ok none s
      else (elim ((devsw major).read) [ none ↦ ok none s | some read ↦ read ip n s ])

  -- The result stands for what is written to `dst`; the C result is its length, or -1.
  unfoldable pub readi : (ip off n : ℕ) → M (Option (List ℕ))
  unfolding read_device read_blocks
  readi ip off n s =
      let r = s.icache ip in
      if r.kind == t_dev
      then read_device ip r.major n s
      else (if ltb r.size off || ltb ((off + n) % 2 ^ 32) off
          then ok none s
          else (let m = if ltb r.size (off + n) then r.size - off else n in
              (do bs ← read_blocks ip m m off; pure (some bs)) s))

  unfoldable pub write_device : ℕ → ℕ → List ℕ → M (Option ℕ)
  write_device ip major src s =
      if leb ndev major
      then ok none s
      else (elim ((devsw major).write) [ none ↦ ok none s | some write ↦ write ip src s ])

  unfoldable pub writei : (ip off : ℕ) → List ℕ → M (Option ℕ)
  unfolding write_device write_blocks grow
  writei ip off src s =
      let r = s.icache ip in
      let n = length src in
      if r.kind == t_dev
      then write_device ip r.major src s
      else (if ltb r.size off || ltb ((off + n) % 2 ^ 32) off
          then ok none s
          else (if ltb (maxfile * bsize) (off + n)
              then ok none s
              else (do end ← write_blocks ip n src off; grow ip n end; pure (some n)) s))
