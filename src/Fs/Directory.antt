-- ===== src/Fs/Directory.antt =====
-- fs.c: directories, files of 16-byte entries with an inode number and a name of up to 14 bytes.
use homework.Prelude.{
  ℕ, zero, suc, ◌+◌, ◌*◌, ◌/◌, ◌%◌, Bool, true, false, not, Option, none, some, ltb, ◌==◌,
  if◌then◌else◌, List, ◌∷◌, length, get_or, ℤ, pos, negsuc,
}
use homework.Strings.{strncmp, strncpy}
use homework.Fs.Machine.{ok, panic, M, ◌>>=◌, ◌>>◌, pure, dirsiz, t_dir}
use homework.Fs.Inodes.{iget}
use homework.Fs.Content.{Device, readi, writei, iput, slice}

-- The bytes from a name's first on. A name of `dirsiz` bytes has no 0.
abbrev pub Name : Type 0
Name = ℕ → ℕ

unfoldable pub is_zero : ℤ → Bool
is_zero (pos n) = n == 0
is_zero (negsuc n) = false

unfoldable pub namecmp : Name → Name → ℤ
unfolding strncmp
namecmp s t = strncmp s t dirsiz

-- `de.inum` and `de.name`, in the bytes that `readi` gives.
unfoldable pub de_inum : List ℕ → ℕ
de_inum de = get_or de 0 0 + 256 * get_or de 1 0

unfoldable pub de_name : List ℕ → Name
de_name de i = get_or de (i + 2) 0

-- The bytes of an entry whose name `strncpy` has filled in.
unfoldable pub new_entry : Name → ℕ → List ℕ
unfolding strncpy slice
new_entry name inum = inum % 256 ∷ inum / 256 % 256 ∷ slice (strncpy (λ i. 0) name dirsiz) 0 dirsiz

module _ (devsw : ℕ → Device) where
  -- `readi(dp, &de, off, sizeof(de))`, which panics when the entry is cut off.
  unfoldable pub read_entry : ℕ → ℕ → M (List ℕ)
  unfolding readi
  read_entry dp off = do
    r ← readi devsw dp off 16
    elim r as (λ _. M (List ℕ)) [
      | none ↦ λ s. panic
      | some de ↦ if length de == 16 then pure de else (λ s. panic)
    ]

  -- The loop of `dirlookup` from offset `off` on: the offset and the inode number of the entry.
  unfoldable pub find_entry : (dp : ℕ) → Name → ℕ → ℕ → M (Option (ℕ × ℕ))
  unfolding read_entry de_inum de_name namecmp is_zero
  find_entry dp name zero off s = ok none s
  find_entry dp name (suc k) off s = elim (ltb off (s.icache dp).size) [
    | false ↦ ok none s
    | true ↦
        (do
          de ← read_entry dp off
          (λ t. elim (not (de_inum de == 0)) [
            | false ↦ find_entry dp name k (off + 16) t
            | true ↦ elim (is_zero (namecmp name (de_name de))) [
              | true ↦ ok (some (off, de_inum de)) t
              | false ↦ find_entry dp name k (off + 16) t
            ]
          ]))
          s
  ]

  -- The inode, and what is written to `*poff`.
  unfoldable pub dirlookup : (dp : ℕ) → Name → M (Option (ℕ × ℕ))
  unfolding find_entry iget
  dirlookup dp name s =
      if not ((s.icache dp).kind == t_dir)
      then panic
      else (do
        r ← find_entry dp name ((s.icache dp).size / 16 + 1) 0
        (λ t. elim r [
          | none ↦ ok none t
          | some (off, inum) ↦ (do ip ← iget (t.icache dp).dev inum; pure (some (ip, off))) t
        ]))
          s

  -- The loop of `dirlink`: the first entry with no inode, or the end of the directory.
  unfoldable pub find_hole : ℕ → ℕ → ℕ → M ℕ
  unfolding read_entry de_inum
  find_hole dp zero off s = ok off s
  find_hole dp (suc k) off s = elim (ltb off (s.icache dp).size) [
    | false ↦ ok off s
    | true ↦
        (do
          de ← read_entry dp off
          (λ t. elim (de_inum de == 0) [ true ↦ ok off t | false ↦ find_hole dp k (off + 16) t ]))
          s
  ]

  -- `true` for 0, `false` for -1.
  unfoldable pub dirlink : ℕ → Name → ℕ → M Bool
  unfolding dirlookup iput find_hole new_entry writei
  dirlink dp name inum = do
    found ← dirlookup dp name
    elim found as (λ _. M Bool) [
      | some (ip, off) ↦ (do iput ip; pure false)
      | none ↦ λ s.
          (do
            off ← find_hole dp ((s.icache dp).size / 16 + 1) 0
            r ← writei devsw dp off (new_entry name inum)
            elim r as (λ _. M Bool) [
              | none ↦ λ t. panic
              | some n ↦ if n == 16 then pure true else (λ t. panic)
            ])
            s
    ]
