-- ===== src/Fs/Path.antt =====
-- fs.c: path names. A path is the list of its characters before the 0.
use Prim.Native.Nat.{min}
use homework.Prelude.{
  ℕ, zero, suc, ◌+◌, Bool, true, false, not, ◌&&◌, Option, none, some, ltb, ◌==◌, if◌then◌else◌,
  List, [], ◌∷◌, length, get_or,
}
use homework.Fs.Machine.{panic, M, ◌>>=◌, ◌>>◌, pure, dirsiz, t_dir}
use homework.Fs.Inodes.{iget, idup, ilock, iunlock}
use homework.Fs.Content.{Device, iput, iunlockput}
use homework.Fs.Directory.{Name, dirlookup}

abbrev pub slash : ℕ
slash = 47

-- `while (*path == '/') path++`
unfoldable pub skip_slashes : List ℕ → List ℕ
skip_slashes [] = []
skip_slashes (c ∷ path) = elim (c == slash) [ true ↦ skip_slashes path | false ↦ c ∷ path ]

-- `while (*path != '/' && *path != 0) path++`: the characters passed, and the path then.
unfoldable pub span_elem : List ℕ → List ℕ × List ℕ
span_elem [] = ([], [])
span_elem (c ∷ path) = elim (c == slash) [
  | true ↦ ([], c ∷ path)
  | false ↦ (c ∷ (span_elem path).0, (span_elem path).1)
]

-- The buffer `name` after the element `s` has been copied to it.
unfoldable pub copy_elem : List ℕ → Name → Name
copy_elem s name i =
    if ltb i (min (length s) dirsiz)
    then get_or s i 0
    else (if ltb (length s) dirsiz && i == length s then 0 else name i)

-- The path behind the element and the buffer with the element; `none` for 0.
unfoldable pub skipelem : List ℕ → Name → Option (List ℕ × Name)
unfolding skip_slashes span_elem copy_elem
skipelem path name = elim (skip_slashes path) [
  | [] ↦ none
  | c ∷ rest ↦ let s = span_elem (c ∷ rest) in some (skip_slashes s.1, copy_elem s.0 name)
]

abbrev pub rootdev : ℕ
rootdev = 1

abbrev pub rootino : ℕ
rootino = 1

unfoldable pub is_nil : List ℕ → Bool
is_nil [] = true
is_nil (c ∷ path) = false

module _ (devsw : ℕ → Device) where
  -- The loop of `namex` at inode `ip`, and what follows it. A result comes with the buffer `name`.
  unfoldable pub walk : ℕ → Bool → List ℕ → ℕ → Name → M (Option (ℕ × Name))
  unfolding skipelem ilock iunlock iunlockput dirlookup iput
  walk zero parent path ip name s = panic
  walk (suc fuel) parent path ip name s = elim (skipelem path name) [
    | none ↦ (if parent then (do iput ip; pure none) else pure (some (ip, name))) s
    | some (path', name') ↦
        (do
          ilock ip
          (λ t. elim (not ((t.icache ip).kind == t_dir)) [
            | true ↦ (do iunlockput ip; pure none) t
            | false ↦ elim (parent && is_nil path') [
              | true ↦ (do iunlock ip; pure (some (ip, name'))) t
              | false ↦
                  (do
                    next ← dirlookup devsw ip name'
                    (λ u. elim next [
                      | none ↦ (do iunlockput ip; pure none) u
                      | some (np, off) ↦ (do iunlockput ip; walk fuel parent path' np name') u
                    ]))
                    t
            ]
          ]))
          s
  ]

  -- `cwd` is `myproc()->cwd`. A round takes a character of the path at least, so the fuel is enough.
  unfoldable pub namex : (cwd : ℕ) → List ℕ → Bool → Name → M (Option (ℕ × Name))
  unfolding iget idup walk
  namex cwd path parent name = do
    ip ← (if get_or path 0 0 == slash then iget rootdev rootino else idup cwd)
    walk (length path + 1) parent path ip name

  unfoldable pub namei : ℕ → List ℕ → M (Option (ℕ × Name))
  unfolding namex
  namei cwd path = namex cwd path false (λ i. 0)

  unfoldable pub nameiparent : ℕ → List ℕ → Name → M (Option (ℕ × Name))
  unfolding namex
  nameiparent cwd path name = namex cwd path true name
