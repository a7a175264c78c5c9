-- ===== src/File/Io.antt =====
-- file.c: `filestat`, `fileread` and `filewrite`, and `stati` of fs.c. The work on an inode is that of
-- fs.c; what a pipe does with a read or a write, and `begin_op` and `end_op` of the log, are parameters,
-- which Pipe and Log describe section by section.
mod Examples
use homework.Prelude.{
  ℕ, zero, suc, ◌+◌, ◌-◌, ◌%◌, ◌^◌, Bool, true, false, Option, none, some, ltb, ◌==◌, if◌then◌else◌,
  List, [], ◌∷◌, length, take, drop,
}
use homework.File.Defs.{FileType, File}
use homework.Fs.{Device, State, Ran, ok, panic, M, ◌>>=◌, ◌>>◌, pure}
use homework.Fs.{ilock, iunlock, readi, writei}

pub record Stat : Type 0 where
  pub dev : ℕ
  pub ino : ℕ
  pub kind : ℕ
  pub nlink : ℕ
  pub size : ℕ

unfoldable pub stati : ℕ → M Stat
stati ip s =
    let r = s.icache ip in
    ok (record { dev = r.dev; ino = r.inum; kind = r.kind; nlink = r.nlink; size = r.size }) s

-- `none` for -1.
unfoldable pub filestat : File → M (Option Stat)
unfolding ilock stati iunlock
filestat f = elim f.kind [
  | FileType.fd_inode ↦ do ilock f.ip; st ← stati f.ip; iunlock f.ip; pure (some st)
  | _ ↦ pure none
]

abbrev pub moved : File → ℕ → File
moved f r = record f { off = (f.off + r) % 2 ^ 32 }

-- The file after a call of `readi`.
unfoldable pub after_read : File → Option (List ℕ) → File
after_read f none = f
after_read f (some bytes) = moved f (length bytes)

module _ (devsw : ℕ → Device) (piperead : ℕ → ℕ → M (Option (List ℕ)))
    (pipewrite : ℕ → List ℕ → M (Option ℕ)) (begin_op end_op : M (Unit {0})) where
  unfoldable pub fileread : File → ℕ → M (Option (List ℕ) × File)
  unfolding ilock readi iunlock after_read
  fileread f n =
      if f.readable
      then elim f.kind [
        | FileType.fd_pipe ↦ do r ← piperead f.pipe n; pure (r, f)
        | FileType.fd_inode ↦ do
          ilock f.ip
          r ← readi devsw f.ip f.off n
          iunlock f.ip
          pure (r, after_read f r)
        | FileType.fd_none ↦ (λ s. panic)
      ]
      else pure (none, f)

  -- One operation of the log in `filewrite`: what `writei` gives, -1 as `none`.
  unfoldable pub write_chunk : File → List ℕ → M (Option ℕ)
  unfolding ilock writei iunlock
  write_chunk f chunk = do
    begin_op
    ilock f.ip
    r ← writei devsw f.ip f.off chunk
    iunlock f.ip
    end_op
    pure r

  -- `((MAXOPBLOCKS-1-1-2) / 2) * 512`
  abbrev pub max_chunk : ℕ
  max_chunk = 1536

  -- The loop, with `src` left to write; the flag says whether all has been written. A round writes a
  -- byte at least, so as many rounds as bytes are enough.
  unfoldable pub write_chunks : (rounds : ℕ) → File → List ℕ → M (Bool × File)
  unfolding write_chunk
  write_chunks zero f src = pure (true, f)
  write_chunks (suc rounds) f [] = pure (true, f)
  write_chunks (suc rounds) f (b ∷ src) = do
    let chunk = take max_chunk (b ∷ src)
    r ← write_chunk f chunk
    elim r [
      | none ↦ pure (false, f)
      | some n ↦ elim (n == length chunk) [
        | true ↦ write_chunks rounds (moved f n) (drop max_chunk (b ∷ src))
        | false ↦ (λ s. panic)
      ]
    ]

  unfoldable pub filewrite : File → List ℕ → M (Option ℕ × File)
  unfolding write_chunks
  filewrite f src =
      if f.writable
      then elim f.kind [
        | FileType.fd_pipe ↦ do r ← pipewrite f.pipe src; pure (r, f)
        | FileType.fd_inode ↦ do
          r ← write_chunks (length src) f src
          let (all, f') = r
          pure (if all then some (length src) else none, f')
        | FileType.fd_none ↦ (λ s. panic)
      ]
      else pure (none, f)
