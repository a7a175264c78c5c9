-- ===== src/Fs/Update.antt =====
-- fs.c: `iupdate` of an entry of the inode cache, and `ilock` of an entry got later for the same inode.
use homework.Prelude.{ℕ, ◌<◌, ◌≡◌, ◌≢◌, sym, leb, update, update_ne, true, false, arith, ◌∷◌}
use homework.Disk.{fssize}
use homework.Fs.Machine.{Inode, State, ok, bread, log_write, iblock, dinode_at}
use homework.Fs.Inodes.{iupdate, put_dinode, load_inode}

-- The state after `iupdate`.
unfoldable pub updated : ℕ → State → State
updated ip s =
    let r = s.icache ip in
    let b = iblock r.inum s.sb in
    record s {
      blocks = update s.blocks b (put_dinode (s.blocks b) (dinode_at r.inum) r);
      logged = b ∷ s.logged;
    }

-- The entry with the fields that its block has.
loaded : ℕ → State → Inode
loaded jp t =
    load_inode (t.blocks (iblock (t.icache jp).inum t.sb)) (dinode_at (t.icache jp).inum)
      (record (t.icache jp) { locked = true })

pub updated-blocks :
    (ip : ℕ) (s : State) (c : ℕ)
    → c ≢ iblock (s.icache ip).inum s.sb
    → (updated ip s).blocks c ≡ s.blocks c
unfolding updated
updated-blocks ip s c ne =
    let b = iblock (s.icache ip).inum s.sb in
    update_ne s.blocks b (put_dinode (s.blocks b) (dinode_at (s.icache ip).inum) (s.icache ip)) c
      (λ e. ne (sym e))

module _ (ip : ℕ) (s : State) (on_disk : iblock (s.icache ip).inum s.sb < fssize) where
  pub iupdate-eq : iupdate ip s ≡ ok tt (updated ip s)
  unfolding iupdate bread log_write updated
  iupdate-eq =
      let test : leb fssize (iblock (s.icache ip).inum s.sb) ≡ false = ground arith in rw test
