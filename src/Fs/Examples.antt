-- ===== src/Fs/Examples.antt =====
-- Runs of the file system on a small disk, and its theorems at concrete inputs.
use homework.Prelude.{
  ℕ, ◌+◌, ◌<◌, ◌≡◌, refl, true, false, Option, none, some, List, [], ◌∷◌, ◌==◌, if◌then◌else◌,
  arith, ltb,
}
use homework.Fs.Machine.{
  Block, Superblock, Inode, State, Ran, ok, panic, waits, write16, ◌>>=◌, ◌>>◌,
}
use homework.Fs.Content.{Device, readi, writei, iput}
use homework.Fs.Directory.{Name, dirlink}
use homework.Fs.Inodes.{ilock, iget, iunlock, ialloc}
use homework.Fs.Path.{namei}
use homework.Fs.Machine.{iblock, bblock}
use homework.Fs.Inodes.{iupdate}
use homework.Fs.Blocks.{balloc}
use homework.Fs.Elements.{Walks, skipelem-join}
use homework.Fs.Cache.{IsCache, Got, iget_lem}
use homework.Fs.Bitmap.{is_used, IsBitmap}
use homework.Fs.Balloc.{Balloc, balloc_lem}
use homework.Fs.Mapped.{addr_at, IsMapped, bytes_from}
use homework.Fs.Reading.{readi_lem}
use homework.Fs.Roundtrip.{IsApart, Overwritten, writei_lem, readi-writei}

abbrev no_devices : ℕ → Device
no_devices i = record { read = none; write = none }

-- The inodes are from block 32 on, the bitmap is block 58; blocks up to 58 are in use.
abbrev small_sb : Superblock
small_sb = record {
  size = 100;
  nblocks = 41;
  ninodes = 16;
  nlog = 30;
  logstart = 2;
  inodestart = 32;
  bmapstart = 58;
}

abbrev no_inode : Inode
no_inode = record {
  dev = 0;
  inum = 0;
  ref = 0;
  locked = false;
  valid = false;
  kind = 0;
  major = 0;
  minor = 0;
  nlink = 0;
  size = 0;
  addrs = λ i. 0;
}

-- Inode 1 is an empty directory.
abbrev bitmap : Block
bitmap i = if ltb i 7 then 255 else (if i == 7 then 7 else 0)

abbrev start : State
start = record {
  blocks = λ b. if b == 58 then bitmap else (if b == 32 then write16 (λ i. 0) 64 1 else (λ i. 0));
  logged = [];
  sb = small_sb;
  icache = λ i. no_inode;
}

abbrev name_a : Name
name_a i = if i == 0 then 97 else 0

abbrev outcome : {A : Type 0} → A → Ran A → A × List ℕ
outcome d (ok a s) = (a, s.logged)
outcome d panic = (d, [])
outcome d waits = (d, [])

-- A new file `a` with three bytes, found by its path and read again.
make_a : Ran (Option (List ℕ))
make_a =
    (do
      root ← iget 1 1
      ilock root
      ip ← ialloc 1 2
      ilock ip
      writei no_devices ip 0 (7 ∷ 8 ∷ 9 ∷ [])
      iunlock ip
      b ← dirlink no_devices root name_a 2
      iunlock root
      r ← namei no_devices root (47 ∷ 97 ∷ [])
      ilock 1
      readi no_devices 1 1 100)
      start

make_a_result : Option (List ℕ) × List ℕ
make_a_result = outcome none make_a

make_a-test : make_a_result ≡ (some (8 ∷ 9 ∷ []), 32 ∷ 60 ∷ 60 ∷ 58 ∷ 32 ∷ 59 ∷ 59 ∷ 58 ∷ 32 ∷ [])
unfolding make_a_result make_a iget ilock ialloc writei iunlock dirlink namei readi write16
make_a-test = refl

-- A file of 600 bytes in blocks 60 and 61, locked in entry 0 of the cache.
abbrev file : Inode
file = record {
  dev = 1;
  inum = 2;
  ref = 1;
  locked = true;
  valid = true;
  kind = 2;
  major = 0;
  minor = 0;
  nlink = 1;
  size = 600;
  addrs = λ i. 60 + i;
}

abbrev opened : State
opened = record {
  blocks = start.blocks;
  logged = [];
  sb = small_sb;
  icache = λ i. if i == 0 then file else no_inode;
}

opened-IsMapped : IsMapped opened 0 2
unfolding addr_at
opened-IsMapped = record {
  few = omega arith;
  there = λ bn lt. ground arith;
  on_disk = λ bn lt. ground arith;
  distinct = λ bn bn' lt lt' e. ground arith;
  table_there = λ lt. omega arith;
  table_on_disk = λ lt. omega arith;
  table_apart = λ lt bn lt'. absurd (omega arith);
}

opened-IsApart : IsApart opened 0 2
unfolding addr_at iblock
opened-IsApart = record {
  on_disk = omega arith;
  contents = λ bn lt. ground arith;
  table = λ lt. absurd (omega arith);
}

readi-writei_example :
    (t : State) × (writei no_devices 0 599 (1 ∷ 2 ∷ 3 ∷ []) opened ≡ ok (some 3) t)
    × (readi no_devices 0 599 3 t ≡ ok (some (1 ∷ 2 ∷ 3 ∷ [])) t)
readi-writei_example =
    readi-writei no_devices opened 0 2 599 (1 ∷ 2 ∷ 3 ∷ []) opened-IsMapped opened-IsApart
      (omega arith) (omega arith) (omega arith) (omega arith)

writei_lem_example :
    (t : State) × (writei no_devices 0 599 (1 ∷ 2 ∷ 3 ∷ []) opened ≡ ok (some 3) t)
    × Overwritten opened 0 2 599 (1 ∷ 2 ∷ 3 ∷ []) t
writei_lem_example =
    writei_lem opened 0 2 opened-IsMapped opened-IsApart 599 (1 ∷ 2 ∷ 3 ∷ []) (omega arith)
      (omega arith) no_devices (omega arith)

readi_lem_example :
    readi no_devices 0 510 1000 opened ≡ ok (some (bytes_from opened 0 510 90)) opened
readi_lem_example =
    readi_lem no_devices opened 0 2 opened-IsMapped (omega arith) (omega arith) 510 1000
      (omega arith) (omega arith)

-- The inode is written, unlocked and put, and got again.
abbrev state_of : {A : Type 0} → Ran A → State
state_of (ok a s) = s
state_of panic = start
state_of waits = start

abbrev got_again : State
got_again = state_of ((do iupdate 0; iunlock 0; iput 0; iget 1 2) opened)

only_block : (b : ℕ) → b < 100 → bblock b small_sb ≡ 58
unfolding bblock
only_block b lt = omega arith

start-IsBitmap : IsBitmap start
unfolding is_used
start-IsBitmap = record {
  fits = omega arith;
  bytes = λ b lt i. rw (only_block b lt) (ground arith);
  on_disk = λ b lt. rw (only_block b lt) (omega arith);
  own = λ b lt. rw (only_block b lt);
}

balloc_lem_example : Balloc start (balloc start)
balloc_lem_example = balloc_lem start start-IsBitmap

-- `//a/bb/`
skipelem-join_example :
    Walks ((97 ∷ []) ∷ (98 ∷ 98 ∷ []) ∷ []) (47 ∷ 47 ∷ 97 ∷ 47 ∷ 98 ∷ 98 ∷ 47 ∷ []) name_a
skipelem-join_example = skipelem-join ((0, 97 ∷ []) ∷ (0, 98 ∷ 98 ∷ []) ∷ []) 2 1 name_a (
  record { nonempty = omega arith; plain = omega arith },
  (record { nonempty = omega arith; plain = omega arith }, tt),
)

opened-IsCache : IsCache start.icache []
opened-IsCache = record {
  counted = λ i lt. refl;
  unique = λ i j li lj pi pj d m. absurd (omega arith);
}

iget_lem_example : Got 1 2 [] start
iget_lem_example = iget_lem 1 2 [] start opened-IsCache
