-- ===== src/Sysfile/Paths.antt =====
-- sysfile.c: the calls that take a path. Parameters are as in Links and Descriptors; `true` stands for
-- 0, and `false` or `none` for -1.
use homework.Prelude.{
  ℕ, zero, suc, ◌+◌, ◌*◌, ◌/◌, ◌%◌, ◌^◌, Bool, true, false, not, ◌&&◌, ◌||◌, Option, none, some,
  ◌==◌, if◌then◌else◌, List, [], ◌∷◌,
}
use homework.Fs
use homework.Fs.{Device, Name, t_dir, t_dev, ilock, iunlock, iput, iunlockput, namei}
use homework.File.{FileType, File, filealloc}
use homework.Syscall.Args.{fetchint, fetchstr, argint, argstr}
use homework.Sysfile.Machine.{ok, M, ◌>>=◌, ◌>>◌, pure, on_fs, set_file}
use homework.Sysfile.Links.{t_file, link_paths, unlink_path, create}
use homework.Sysfile.Descriptors.{fdalloc, close_file, user_bytes}

-- `omode & O_CREATE`, `omode & O_WRONLY` and `omode & O_RDWR`
unfoldable pub creates : ℕ → Bool
creates omode = omode / 512 % 2 == 1

unfoldable pub write_only : ℕ → Bool
write_only omode = omode % 2 == 1

unfoldable pub read_write : ℕ → Bool
read_write omode = omode / 2 % 2 == 1

-- `filealloc` on the table: the file.
unfoldable pub new_file : M (Option ℕ)
unfolding filealloc
new_file s = ok (filealloc s.file).0 (record s { file = (filealloc s.file).1 })

-- The file of an inode that is opened.
unfoldable pub opened_file : File → (ip omode : ℕ) → File
unfolding write_only read_write
opened_file f ip omode = record f {
  kind = FileType.fd_inode;
  ip = ip;
  off = 0;
  readable = not (write_only omode);
  writable = write_only omode || read_write omode;
}

-- The process's memory and stack pointer.
module _ (sz : ℕ) (mem : ℕ → ℕ) (esp : ℕ) where
  -- The string that `argstr` finds, without its 0.
  unfoldable pub path_arg : ℕ → Option (List ℕ)
  unfolding argstr user_bytes
  path_arg n = elim (argstr sz mem esp n) [
    | none ↦ none
    | some (a, len) ↦ some (user_bytes mem a len)
  ]

  -- The loop of `sys_exec` from argument `i` on, with room for `left` more: the strings.
  unfoldable pub exec_args : (left uargv i : ℕ) → Option (List (List ℕ))
  unfolding fetchint fetchstr user_bytes
  exec_args zero uargv i = none
  exec_args (suc left) uargv i = elim (fetchint sz mem ((uargv + 4 * i) % 2 ^ 32)) [
    | none ↦ none
    | some zero ↦ some []
    | some (suc a) ↦ elim (fetchstr sz mem (suc a)) [
      | none ↦ none
      | some len ↦ elim (exec_args left uargv (i + 1)) [
        | none ↦ none
        | some rest ↦ some (user_bytes mem (suc a) len ∷ rest)
      ]
    ]
  ]

  abbrev pub maxarg : ℕ
  maxarg = 32

  -- `exec` itself is a parameter.
  module _ (exec : List ℕ → List (List ℕ) → M (Option ℕ)) where
    unfoldable pub sys_exec : M (Option ℕ)
    unfolding path_arg argint exec_args
    sys_exec = elim (path_arg 0) [
      | none ↦ pure none
      | some path ↦ elim (argint sz mem esp 1) [
        | none ↦ pure none
        | some uargv ↦ elim (exec_args maxarg uargv 0) [
          | none ↦ pure none
          | some argv ↦ exec path argv
        ]
      ]
    ]

  module _ (devsw : ℕ → Device) (pipeclose : ℕ → Bool → Fs.M (Unit {0}))
      (begin_op end_op : Fs.M (Unit {0})) (buf : Name) where
    unfoldable pub sys_link : M Bool
    unfolding path_arg link_paths
    sys_link = elim (path_arg 0) [
      | none ↦ pure false
      | some old ↦ elim (path_arg 1) [
        | none ↦ pure false
        | some new ↦ λ s. on_fs (link_paths devsw begin_op end_op s.cwd buf old new) s
      ]
    ]

    unfoldable pub sys_unlink : M Bool
    unfolding path_arg unlink_path
    sys_unlink = elim (path_arg 0) [
      | none ↦ pure false
      | some path ↦ λ s. on_fs (unlink_path devsw begin_op end_op s.cwd buf path) s
    ]

    -- The locked inode of `sys_open`.
    unfoldable pub open_found : Option (ℕ × Name) → ℕ → Fs.M (Option ℕ)
    unfolding ilock iunlockput
    open_found none omode s = Fs.ok none s
    open_found (some (ip, name)) omode s = Fs.and_then (ilock ip s) (λ _ t.
        if (t.icache ip).kind == t_dir && not (omode == 0)
        then Fs.and_then (iunlockput ip t) (λ _. Fs.ok none)
        else Fs.ok (some ip) t)

    unfoldable pub open_inode : (cwd : ℕ) → List ℕ → (omode : ℕ) → Fs.M (Option ℕ)
    unfolding creates create namei open_found
    open_inode cwd path omode s =
        if creates omode
        then create devsw begin_op end_op cwd buf path t_file 0 0 s
        else Fs.and_then (namei devsw cwd path s) (λ r. open_found r omode)

    -- The inode is let go of, and the operation ends.
    unfoldable pub give_up : ℕ → M (Option ℕ)
    unfolding iunlockput
    give_up ip = do on_fs (iunlockput ip); on_fs end_op; pure none

    unfoldable pub open_as : (ip omode : ℕ) → Option ℕ → M (Option ℕ)
    unfolding give_up fdalloc close_file iunlock opened_file set_file
    open_as ip omode none = give_up ip
    open_as ip omode (some f) = do
      fd ← fdalloc f
      elim fd as (λ _. M (Option ℕ)) [
        | none ↦ do close_file pipeclose begin_op end_op f; give_up ip
        | some d ↦ do
          on_fs (iunlock ip)
          on_fs end_op
          (λ s. set_file f (opened_file (s.file f) ip omode) s)
          pure (some d)
      ]

    unfoldable pub open_path : List ℕ → ℕ → M (Option ℕ)
    unfolding open_inode new_file open_as
    open_path path omode = do
      on_fs begin_op
      r ← (λ s. on_fs (open_inode s.cwd path omode) s)
      elim r as (λ _. M (Option ℕ)) [
        | none ↦ do on_fs end_op; pure none
        | some ip ↦ do f ← new_file; open_as ip omode f
      ]

    unfoldable pub sys_open : M (Option ℕ)
    unfolding path_arg argint open_path
    sys_open = elim (path_arg 0) [
      | none ↦ pure none
      | some path ↦ elim (argint sz mem esp 1) [
        | none ↦ pure none
        | some omode ↦ open_path path omode
      ]
    ]

    -- The end of `sys_mkdir` and `sys_mknod`, where `create` has given an inode or 0.
    unfoldable pub created : Option ℕ → M Bool
    unfolding iunlockput
    created none = do on_fs end_op; pure false
    created (some ip) = do on_fs (iunlockput ip); on_fs end_op; pure true

    unfoldable pub create_path : Option (List ℕ) → (kind major minor : ℕ) → M (Option ℕ)
    unfolding create
    create_path none kind major minor s = ok none s
    create_path (some path) kind major minor s =
        on_fs (create devsw begin_op end_op s.cwd buf path kind major minor) s

    unfoldable pub sys_mkdir : M Bool
    unfolding path_arg create_path created
    sys_mkdir = do on_fs begin_op; ip ← create_path (path_arg 0) t_dir 0 0; created ip

    unfoldable pub sys_mknod : M Bool
    unfolding path_arg argint create_path created
    sys_mknod = do
      on_fs begin_op
      ip ← elim (argint sz mem esp 1) as (λ _. M (Option ℕ)) [
        | none ↦ pure none
        | some major ↦ elim (argint sz mem esp 2) as (λ _. M (Option ℕ)) [
          | none ↦ pure none
          | some minor ↦ create_path (path_arg 0) t_dev major minor
        ]
      ]
      created ip

    -- The locked inode, if it is a directory, becomes `cwd`.
    unfoldable pub enter_dir : ℕ → M Bool
    unfolding iunlockput iunlock iput
    enter_dir ip s =
        if (s.fs.icache ip).kind == t_dir
        then (do
          on_fs (iunlock ip)
          (λ t. on_fs (iput t.cwd) t)
          on_fs end_op
          (λ t. ok true (record t { cwd = ip })))
            s
        else (do on_fs (iunlockput ip); on_fs end_op; pure false) s

    unfoldable pub chdir_path : Option (List ℕ) → M Bool
    unfolding namei ilock enter_dir
    chdir_path none = do on_fs end_op; pure false
    chdir_path (some path) = do
      r ← (λ s. on_fs (namei devsw s.cwd path) s)
      elim r as (λ _. M Bool) [
        | none ↦ do on_fs end_op; pure false
        | some (ip, name) ↦ do on_fs (ilock ip); enter_dir ip
      ]

    unfoldable pub sys_chdir : M Bool
    unfolding path_arg chdir_path
    sys_chdir = do on_fs begin_op; chdir_path (path_arg 0)
