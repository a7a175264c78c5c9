-- ===== src/Sysfile/Counted.antt =====
-- sysfile.c: the counters of open files against the descriptors of a process and other holders.
use homework.Prelude.{
  Option-cases, ℕ, zero, suc, ◌+◌, ◌<◌, ◌≤◌, ◌≡◌, ◌≢◌, refl, sym, ap, ◌∙◌, ◌⊎◌, inl, inr, Option,
  none, some, ◌==◌, if◌then◌else◌, update, update_self, update_ne, List, [], ◌∷◌, ◌++◌, count,
  count-append, ℕ_discrete, arith,
}
use homework.File.{File, nfile}
use homework.File.Holders.{IsCounted}
use homework.Sysfile.Machine.{Sys}
use homework.Sysfile.Descriptors.{nofile, free_fd}

abbrev add_held : Option ℕ → List ℕ → List ℕ
add_held none held = held
add_held (some f) held = f ∷ held

-- The files of the first `k` descriptors.
abbrev pub held_by : (ℕ → Option ℕ) → ℕ → List ℕ
held_by ofile zero = []
held_by ofile (suc k) = add_held (ofile k) (held_by ofile k)

-- How often a descriptor is one of file `g`.
abbrev pub one : ℕ → Option ℕ → ℕ
one g none = 0
one g (some f) = if g == f then 1 else 0

-- The counters of open files are the numbers of descriptors, of this process and of `others`.
pub record IsOpen (s : Sys) (others : List ℕ) : Type 0 where
  pub counted : IsCounted s.file (held_by s.ofile nofile ++ others)
  pub valid : (fd f : ℕ) → fd < nofile → s.ofile fd ≡ some f → f < nfile

count-add_held :
    (g : ℕ) (x : Option ℕ) (held : List ℕ) → count g (add_held x held) ≡ one g x + count g held
count-add_held g none held = omega arith
count-add_held g (some f) held = refl

held_same :
    (g k : ℕ) (o o' : ℕ → Option ℕ)
    → ((j : ℕ) → j < k → o j ≡ o' j)
    → count g (held_by o k) ≡ count g (held_by o' k)
held_same g zero o o' same = refl
held_same g (suc k) o o' same = omega (
  arith,
  count-add_held g (o k) (held_by o k),
  count-add_held g (o' k) (held_by o' k),
  ap (one g) (same k (omega arith)),
  held_same g k o o' (λ j lt. same j (omega arith)),
)

-- Tables that differ in one descriptor differ in its file.
pub held_differ :
    (g fd k : ℕ) (o o' : ℕ → Option ℕ)
    → ((j : ℕ) → fd ≢ j → o j ≡ o' j)
    → fd < k
    → count g (held_by o k) + one g (o' fd) ≡ count g (held_by o' k) + one g (o fd)
held_differ g fd zero o o' same lt = absurd (omega arith)
held_differ g fd (suc k) o o' same lt = elim (ℕ_discrete fd k) [
  | yes e ↦ omega (
    arith,
    count-add_held g (o k) (held_by o k),
    count-add_held g (o' k) (held_by o' k),
    ap (λ j. one g (o j)) e,
    ap (λ j. one g (o' j)) e,
    held_same g k o o' (λ j l. same j (omega arith)),
  )
  | no ne ↦ omega (
    arith,
    count-add_held g (o k) (held_by o k),
    count-add_held g (o' k) (held_by o' k),
    ap (one g) (same k ne),
    held_differ g fd k o o' same (omega arith),
  )
]

-- An open descriptor holds its file.
pub held_one : (fd f k : ℕ) (o : ℕ → Option ℕ) → fd < k → o fd ≡ some f → 1 ≤ count f (held_by o k)
held_one fd f k o lt e =
    let d = held_differ f fd k o (update o fd none) (λ j ne. sym (update_ne o fd none j ne)) lt in
    let a = ap (one f) e in let b = ap (one f) (update_self o fd none) in ground arith

-- Counters go with how often each file is held, in whatever order.
pub IsCounted-same :
    (file : ℕ → File) (held held' : List ℕ)
    → ((g : ℕ) → count g held ≡ count g held')
    → IsCounted file held
    → IsCounted file held'
IsCounted-same file held held' same h f lt = h f lt ∙ same f

-- One more descriptor.
pub count-opened :
    (g fd f : ℕ) (o : ℕ → Option ℕ) (others : List ℕ)
    → fd < nofile
    → o fd ≡ none
    → count g (f ∷ (held_by o nofile ++ others))
      ≡ count g (held_by (update o fd (some f)) nofile ++ others)
count-opened g fd f o others lt e =
    let o' = update o fd (some f) in
    omega (
      arith,
      held_differ g fd nofile o o' (λ j ne. sym (update_ne o fd (some f) j ne)) lt,
      ap (one g) e,
      ap (one g) (update_self o fd (some f)),
      count-append g (held_by o nofile) others,
      count-append g (held_by o' nofile) others,
    )

-- One descriptor less.
pub count-closed :
    (g fd f : ℕ) (o : ℕ → Option ℕ) (others : List ℕ)
    → fd < nofile
    → o fd ≡ some f
    → count g (held_by o nofile ++ others)
      ≡ count g (f ∷ (held_by (update o fd none) nofile ++ others))
count-closed g fd f o others lt e =
    let o' = update o fd none in
    omega (
      arith,
      held_differ g fd nofile o o' (λ j ne. sym (update_ne o fd none j ne)) lt,
      ap (one g) e,
      ap (one g) (update_self o fd none),
      count-append g (held_by o nofile) others,
      count-append g (held_by o' nofile) others,
    )

-- The loop of `fdalloc` finds a free descriptor if there is one.
pub free_fd_lem :
    (o : ℕ → Option ℕ) (k fd : ℕ)
    → ((free_fd o k fd ≡ none) × ((j : ℕ) → fd ≤ j → j < fd + k → o j ≢ none))
      ⊎ ((d : ℕ) × (free_fd o k fd ≡ some d) × (d < fd + k) × (o d ≡ none))
unfolding free_fd
free_fd_lem o zero fd = inl (refl, λ j le lt. absurd (omega arith))
free_fd_lem o (suc k) fd = elim (Option-cases (o fd)) [
  | inl e ↦ inr (fd, rw (free_fd, e), omega arith, e)
  | inr (f, e) ↦ elim (free_fd_lem o k (fd + 1)) [
    | inl (q, h) ↦ inl (
      rw (free_fd, e, q),
      λ j le lt. elim (ℕ_discrete fd j) [
        | yes d ↦ λ z. absurd (cc (e, z, ap o d))
        | no ne ↦ h j (omega arith) (omega arith)
      ],
    )
    | inr (d, q, l, z) ↦ inr (d, rw (free_fd, e, q), omega arith, z)
  ]
]
