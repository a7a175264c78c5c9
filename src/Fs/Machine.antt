-- ===== src/Fs/Machine.antt =====
-- fs.h, and what fs.c works on: blocks of bytes, the cache of inodes, the superblock.
use homework.Prelude.{ℕ, ◌+◌, ◌*◌, ◌/◌, ◌%◌, ◌≡◌, Bool, leb, ◌==◌, if◌then◌else◌, update, List, ◌∷◌}
use homework.Disk.{fssize}

-- The bytes of a block.
abbrev pub Block : Type 0
Block = ℕ → ℕ

abbrev pub bsize : ℕ
bsize = 512

abbrev pub ndirect : ℕ
ndirect = 12

abbrev pub nindirect : ℕ
nindirect = 128

abbrev pub maxfile : ℕ
maxfile = 140

-- Inodes per block, of 64 bytes each.
abbrev pub ipb : ℕ
ipb = 8

abbrev pub bpb : ℕ
bpb = 4096

abbrev pub dirsiz : ℕ
dirsiz = 14

abbrev pub ninode : ℕ
ninode = 50

abbrev pub t_dir : ℕ
t_dir = 1

abbrev pub t_dev : ℕ
t_dev = 3

pub record Superblock : Type 0 where
  pub size : ℕ
  pub nblocks : ℕ
  pub ninodes : ℕ
  pub nlog : ℕ
  pub logstart : ℕ
  pub inodestart : ℕ
  pub bmapstart : ℕ

-- The 16-bit fields are the values of the C `short`s modulo 2^16.
pub record Inode : Type 0 where
  pub dev : ℕ
  pub inum : ℕ
  pub ref : ℕ
  pub locked : Bool
  pub valid : Bool
  pub kind : ℕ
  pub major : ℕ
  pub minor : ℕ
  pub nlink : ℕ
  pub size : ℕ
  pub addrs : ℕ → ℕ

-- `blocks` is what `bread` returns, `logged` the block numbers given to `log_write`, the last first.
pub record State : Type 0 where
  pub blocks : ℕ → Block
  pub logged : List ℕ
  pub sb : Superblock
  pub icache : ℕ → Inode

-- A run ends with a value, with a panic, or waits for a sleep lock that is held.
pub data Ran (A : Type 0) : Type 0 where
  ok : A → State → Ran A
  panic waits : Ran A

abbrev pub M : Type 0 → Type 0
M A = State → Ran A

module _ {A B : Type 0} where
  abbrev pub and_then : Ran A → (A → M B) → Ran B
  and_then (ok a s) k = k a s
  and_then panic k = panic
  and_then waits k = waits

  infixl 5 ◌>>=◌ ◌>>◌
  abbrev pub ◌>>=◌ : M A → (A → M B) → M B
  m >>= k = λ s. and_then (m s) k

  abbrev pub ◌>>◌ : M A → M B → M B
  m >> k = m >>= λ _. k

pub bind_ok :
    {A B : Type 0} (m : M A) (k : A → M B) (s : State) {a : A} {t : State}
    → m s ≡ ok a t
    → (m >>= k) s ≡ k a t
bind_ok m k s e = rw e

abbrev pub pure : {A : Type 0} → A → M A
pure = ok

-- Little-endian fields of a block.
unfoldable pub read16 : Block → ℕ → ℕ
read16 x off = x off + 256 * x (off + 1)

unfoldable pub read32 : Block → ℕ → ℕ
read32 x off = x off + 256 * x (off + 1) + 65536 * x (off + 2) + 16777216 * x (off + 3)

unfoldable pub write16 : Block → ℕ → ℕ → Block
write16 x off v i = if i == off then v % 256 else (if i == off + 1 then v / 256 % 256 else x i)

unfoldable pub write32 : Block → ℕ → ℕ → Block
unfolding write16
write32 x off v = write16 (write16 x off (v % 65536)) (off + 2) (v / 65536)

-- No block past the end of the disk is read.
unfoldable pub bread : ℕ → M Block
bread b s = if leb fssize b then panic else ok (s.blocks b) s

-- The change of `bp->data` and `log_write(bp)`.
unfoldable pub log_write : ℕ → Block → M (Unit {0})
log_write b x s = ok tt (record s { blocks = update s.blocks b x; logged = b ∷ s.logged })

unfoldable pub set_inode : ℕ → Inode → M (Unit {0})
set_inode ip r s = ok tt (record s { icache = update s.icache ip r })

unfoldable pub iblock : ℕ → Superblock → ℕ
iblock i sb = i / ipb + sb.inodestart

unfoldable pub bblock : ℕ → Superblock → ℕ
bblock b sb = b / bpb + sb.bmapstart

-- Where the dinode of an inode starts in its block.
unfoldable pub dinode_at : ℕ → ℕ
dinode_at inum = inum % ipb * 64

unfoldable pub superblock_of : Block → Superblock
unfolding read32
superblock_of x = record {
  size = read32 x 0;
  nblocks = read32 x 4;
  ninodes = read32 x 8;
  nlog = read32 x 12;
  logstart = read32 x 16;
  inodestart = read32 x 20;
  bmapstart = read32 x 24;
}

-- `readsb(dev, &sb)` into the global `sb`.
unfoldable pub readsb : M (Unit {0})
unfolding bread superblock_of
readsb = do x ← bread 1; (λ s. ok tt (record s { sb = superblock_of x }))
