-- ===== src/Sysfile/Links.antt =====
-- sysfile.c: `sys_link` and `sys_unlink` behind the fetch of their arguments, and `create`. `begin_op` and
-- `end_op` are parameters, which Log describes; `cwd` is `myproc()->cwd`, and `buf` what the array
-- `name` holds before it is written. `true` stands for 0 and `false` for -1.
use homework.Prelude.{
  ℕ, zero, suc, ◌+◌, ◌-◌, ◌/◌, ◌%◌, ◌^◌, Bool, true, false, not, ◌&&◌, ◌||◌, Option, none, some,
  ltb, leb, ◌==◌, if◌then◌else◌, List, [], ◌∷◌,
}
use homework.Fs.{Device, ok, panic, M, ◌>>=◌, ◌>>◌, pure, t_dir, Name}
use homework.Fs.{
  set_inode, iupdate, ilock, iunlock, ialloc, iput, iunlockput, writei, namecmp, is_zero, de_inum,
  read_entry, dirlookup, dirlink, namei, nameiparent,
}

abbrev pub t_file : ℕ
t_file = 2

-- `"."` and `".."`
abbrev pub dot : Name
dot i = if i == 0 then 46 else 0

abbrev pub dotdot : Name
dotdot i = if ltb i 2 then 46 else 0

unfoldable pub is_dots : Name → Bool
unfolding namecmp is_zero
is_dots name = is_zero (namecmp name dot) || is_zero (namecmp name dotdot)

-- `ip->nlink` is a `short`, by its value modulo 2^16.
unfoldable pub set_nlink : ℕ → ℕ → M (Unit {0})
unfolding set_inode
set_nlink ip n s = set_inode ip (record (s.icache ip) { nlink = n % 2 ^ 16 }) s

-- `ip->nlink++` and `iupdate(ip)`; `ip->nlink--` and `iupdate(ip)`.
unfoldable pub more_links : ℕ → M (Unit {0})
unfolding set_nlink iupdate
more_links ip s = (do set_nlink ip ((s.icache ip).nlink + 1); iupdate ip) s

unfoldable pub fewer_links : ℕ → M (Unit {0})
unfolding set_nlink iupdate
fewer_links ip s = (do set_nlink ip ((s.icache ip).nlink + (2 ^ 16 - 1)); iupdate ip) s

abbrev pub sixteen_zeros : List ℕ
sixteen_zeros = 0 ∷ 0 ∷ 0 ∷ 0 ∷ 0 ∷ 0 ∷ 0 ∷ 0 ∷ 0 ∷ 0 ∷ 0 ∷ 0 ∷ 0 ∷ 0 ∷ 0 ∷ 0 ∷ []

-- A call that the source follows by a panic when it fails.
abbrev pub must : M Bool → M (Unit {0})
must m = do worked ← m; if worked then pure tt else (λ s. panic)

module _ (devsw : ℕ → Device) (begin_op end_op : M (Unit {0})) (cwd : ℕ) (buf : Name) where
  -- `bad:` of `sys_link`
  unfoldable pub link_failed : ℕ → M Bool
  unfolding ilock fewer_links iunlockput
  link_failed ip = do ilock ip; fewer_links ip; iunlockput ip; end_op; pure false

  -- `dp->dev != ip->dev || dirlink(...) < 0`, negated.
  unfoldable pub enter_link : (dp ip : ℕ) → Name → M Bool
  unfolding dirlink
  enter_link dp ip name s =
      if (s.icache dp).dev == (s.icache ip).dev
      then dirlink devsw dp name (s.icache ip).inum s
      else ok false s

  unfoldable pub link_into : (ip : ℕ) → Option (ℕ × Name) → M Bool
  unfolding link_failed ilock enter_link iunlockput iput
  link_into ip none = link_failed ip
  link_into ip (some (dp, name)) = do
    ilock dp
    linked ← enter_link dp ip name
    iunlockput dp
    if linked then (do iput ip; end_op; pure true) else link_failed ip

  unfoldable pub link_inode : (ip : ℕ) → List ℕ → M Bool
  unfolding ilock iunlockput more_links iunlock nameiparent link_into
  link_inode ip new = do
    ilock ip
    (λ s. elim ((s.icache ip).kind == t_dir) [
      | true ↦ (do iunlockput ip; end_op; pure false) s
      | false ↦ (do more_links ip; iunlock ip; d ← nameiparent devsw cwd new buf; link_into ip d) s
    ])

  unfoldable pub link_paths : (old new : List ℕ) → M Bool
  unfolding namei link_inode
  link_paths old new = do
    begin_op
    r ← namei devsw cwd old
    elim r as (λ _. M Bool) [ none ↦ (do end_op; pure false) | some (ip, name) ↦ link_inode ip new ]

  -- The loop of `isdirempty` from offset `off` on.
  unfoldable pub empty_from : (dp rounds off : ℕ) → M Bool
  unfolding read_entry de_inum
  empty_from dp zero off s = ok true s
  empty_from dp (suc rounds) off s = elim (ltb off (s.icache dp).size) [
    | false ↦ ok true s
    | true ↦
        (do
          de ← read_entry devsw dp off
          (λ t. elim (de_inum de == 0) [
            | true ↦ empty_from dp rounds (off + 16) t
            | false ↦ ok false t
          ]))
          s
  ]

  unfoldable pub isdirempty : ℕ → M Bool
  unfolding empty_from
  isdirempty dp s = empty_from dp ((s.icache dp).size / 16 + 1) 32 s

  -- `bad:` of `sys_unlink`
  unfoldable pub unlink_failed : ℕ → M Bool
  unfolding iunlockput
  unlink_failed dp = do iunlockput dp; end_op; pure false

  -- `ip->type == T_DIR && !isdirempty(ip)`
  unfoldable pub is_full_dir : ℕ → M Bool
  unfolding isdirempty
  is_full_dir ip s =
      if (s.icache ip).kind == t_dir then (do e ← isdirempty ip; pure (not e)) s else ok false s

  unfoldable pub clear_entry : (dp off : ℕ) → M Bool
  unfolding writei
  clear_entry dp off = do
    r ← writei devsw dp off sixteen_zeros
    pure (elim r [ none ↦ false | some n ↦ n == 16 ])

  -- From the check of `nlink` on, with both inodes locked.
  unfoldable pub unlink_locked : (dp ip off : ℕ) → M Bool
  unfolding is_full_dir iunlockput unlink_failed clear_entry fewer_links
  unlink_locked dp ip off s = elim ((s.icache ip).nlink == 0 || leb (2 ^ 15) (s.icache ip).nlink) [
    | true ↦ panic
    | false ↦
        (do
          full ← is_full_dir ip
          elim full as (λ _. M Bool) [
            | true ↦ (do iunlockput ip; unlink_failed dp)
            | false ↦ (do
              must (clear_entry dp off)
              (λ t. if (t.icache ip).kind == t_dir then fewer_links dp t else ok tt t)
              iunlockput dp
              fewer_links ip
              iunlockput ip
              end_op
              pure true)
          ])
          s
  ]

  unfoldable pub unlink_in : (dp : ℕ) → Name → M Bool
  unfolding ilock is_dots unlink_failed dirlookup unlink_locked
  unlink_in dp name = do
    ilock dp
    elim (is_dots name) as (λ _. M Bool) [
      | true ↦ unlink_failed dp
      | false ↦ (do
        found ← dirlookup devsw dp name
        elim found as (λ _. M Bool) [
          | none ↦ unlink_failed dp
          | some (ip, off) ↦ (do ilock ip; unlink_locked dp ip off)
        ])
    ]

  unfoldable pub unlink_path : List ℕ → M Bool
  unfolding nameiparent unlink_in
  unlink_path path = do
    begin_op
    d ← nameiparent devsw cwd path buf
    elim d as (λ _. M Bool) [ none ↦ (do end_op; pure false) | some (dp, name) ↦ unlink_in dp name ]

  -- `create` where the name is there already.
  unfoldable pub create_found : (dp ip kind : ℕ) → M (Option ℕ)
  unfolding iunlockput ilock
  create_found dp ip kind = do
    iunlockput dp
    ilock ip
    (λ s.
        if kind == t_file && (s.icache ip).kind == t_file
        then ok (some ip) s
        else (do iunlockput ip; pure none) s)

  unfoldable pub set_device : (ip major minor : ℕ) → M (Unit {0})
  unfolding set_inode
  set_device ip major minor s =
      set_inode ip
        (record (s.icache ip) { major = major % 2 ^ 16; minor = minor % 2 ^ 16; nlink = 1 }) s

  -- The entries `.` and `..` of the directory `ip` in `dp`.
  unfoldable pub add_dots : (dp ip : ℕ) → M (Unit {0})
  unfolding more_links dirlink
  add_dots dp ip = do
    more_links dp
    must (λ s. dirlink devsw ip dot (s.icache ip).inum s)
    must (λ s. dirlink devsw ip dotdot (s.icache dp).inum s)

  unfoldable pub create_new : (dp : ℕ) → Name → (kind major minor : ℕ) → M (Option ℕ)
  unfolding ialloc ilock set_device iupdate add_dots dirlink iunlockput
  create_new dp name kind major minor = do
    ip ← (λ s. ialloc (s.icache dp).dev kind s)
    ilock ip
    set_device ip major minor
    iupdate ip
    if kind == t_dir then add_dots dp ip else pure tt
    must (λ s. dirlink devsw dp name (s.icache ip).inum s)
    iunlockput dp
    pure (some ip)

  unfoldable pub create : List ℕ → (kind major minor : ℕ) → M (Option ℕ)
  unfolding nameiparent ilock dirlookup create_found create_new
  create path kind major minor = do
    d ← nameiparent devsw cwd path buf
    elim d as (λ _. M (Option ℕ)) [
      | none ↦ pure none
      | some (dp, name) ↦ (do
        ilock dp
        found ← dirlookup devsw dp name
        elim found as (λ _. M (Option ℕ)) [
          | some (ip, off) ↦ create_found dp ip kind
          | none ↦ create_new dp name kind major minor
        ])
    ]
