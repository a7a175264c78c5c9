-- ===== src/File/Holders.antt =====
-- file.c: the references that descriptors hold to open files.
use homework.Prelude.{
  ℕ, zero, suc, ◌+◌, ◌-◌, ◌≤◌, ◌<◌, ◌≡◌, refl, sym, ap, subst, ◌∙◌, ◌≢◌, ◌⊎◌, inl, inr, true, false,
  none, some, List, ◌∷◌, ◌++◌, count, count-append, ltb, ◌==◌, if◌then◌else◌, update, update_self,
  update_ne, ℕ_discrete, Bool-cases, arith,
}
use homework.File.Defs.{
  FileType, File, still_open, nfile, find_free, filealloc, filedup, close_kind, fileclose,
}

-- Every reference counter is the number of descriptors for the file.
abbrev pub IsCounted : (ℕ → File) → List ℕ → Type 0
IsCounted file held = (f : ℕ) → f < nfile → (file f).ref ≡ count f held

-- A change of one counter.
count_update :
    (file : ℕ → File) (f : ℕ) (r : File) (held held' : List ℕ)
    → IsCounted file held
    → r.ref ≡ count f held'
    → ((g : ℕ) → f ≢ g → count g held' ≡ count g held)
    → IsCounted (update file f r) held'
count_update file f r held held' h e others g lt = elim (ℕ_discrete f g) [
  | yes d ↦
      subst (λ x. (update file f r x).ref ≡ count x held') d
        (ap (λ x. x.ref) (update_self file f r) ∙ e)
  | no ne ↦ ap (λ x. x.ref) (update_ne file f r g ne) ∙ h g lt ∙ sym (others g ne)
]

count-middle :
    (before after : List ℕ) (f g : ℕ)
    → count g (before ++ f ∷ after) ≡ (if g == f then 1 else 0) + count g (before ++ after)
count-middle before after f g =
    omega (arith, count-append g before (f ∷ after), count-append g before after)

count-middle_self :
    (before after : List ℕ) (f : ℕ)
    → count f (before ++ f ∷ after) ≡ suc (count f (before ++ after))
count-middle_self before after f = let e = count-middle before after f f in ground arith

count-middle_ne :
    (before after : List ℕ) (f g : ℕ)
    → f ≢ g
    → count g (before ++ after) ≡ count g (before ++ f ∷ after)
count-middle_ne before after f g ne = let e = count-middle before after f g in ground arith

-- A descriptor of a counted table is duplicated without a panic, and the counters are right after it.
pub filedup_lem :
    (file : ℕ → File) (held : List ℕ) (f : ℕ)
    → f < nfile
    → 1 ≤ count f held
    → IsCounted file held
    → (file' : ℕ → File) × (filedup f file ≡ some file') × IsCounted file' (f ∷ held)
unfolding filedup
filedup_lem file held f lt has h =
    let r = record (file f) { ref = (file f).ref + 1 } in
    let c = h f lt in
    let test : ltb (file f).ref 1 ≡ false = ground arith in
    (
      update file f r,
      rw test,
      count_update file f r held (f ∷ held) h (ground arith) (λ g ne. ground arith),
    )

-- Closing a descriptor of a counted table does not panic, and the counters are right after it. What
-- is behind the file is closed exactly if it was the last descriptor.
pub fileclose_lem :
    (file : ℕ → File) (before after : List ℕ) (f : ℕ)
    → f < nfile
    → IsCounted file (before ++ f ∷ after)
    → (file' : ℕ → File) × (fileclose f file
        ≡ some
            ((if count f (before ++ after) == 0 then close_kind (file f) else still_open), file'))
      × IsCounted file' (before ++ after)
unfolding fileclose
fileclose_lem file before after f lt h =
    let c : (file f).ref ≡ suc (count f (before ++ after)) =
      h f lt ∙ count-middle_self before after f in
    let held : ltb (file f).ref 1 ≡ false = ground arith in
    elim (Bool-cases (count f (before ++ after) == 0)) [
      | inl last ↦
          let gone : ltb 0 ((file f).ref - 1) ≡ false = ground arith in
          (
            update file f (record (file f) { ref = 0; kind = FileType.fd_none }),
            rw (held, gone, last),
            count_update file f (record (file f) { ref = 0; kind = FileType.fd_none })
                (before ++ f ∷ after) (before ++ after) h (ground arith)
                (λ g ne. count-middle_ne before after f g ne),
          )
      | inr more ↦
          let others : ltb 0 ((file f).ref - 1) ≡ true = ground arith in
          (
            update file f (record (file f) { ref = (file f).ref - 1 }),
            rw (held, others, more),
            count_update file f (record (file f) { ref = (file f).ref - 1 }) (before ++ f ∷ after)
                (before ++ after) h (ground arith) (λ g ne. count-middle_ne before after f g ne),
          )
    ]

-- A table with every entry in use, or its first free entry.
find_free_lem :
    (file : ℕ → File) (k i : ℕ)
    → ((find_free file k i ≡ none) × ((g : ℕ) → i ≤ g → g < i + k → 1 ≤ (file g).ref))
      ⊎ ((f : ℕ) × (find_free file k i ≡ some f) × (i ≤ f) × (f < i + k) × ((file f).ref ≡ 0))
unfolding find_free
find_free_lem file zero i = inl (refl, λ g le lt. absurd (omega arith))
find_free_lem file (suc k) i = elim (Bool-cases ((file i).ref == 0)) [
  | inl free ↦ inr (i, rw (find_free, free), omega arith, omega arith, ground arith)
  | inr used ↦ elim (find_free_lem file k (i + 1)) [
    | inl (e, all) ↦ inl (
      rw (find_free, used, e),
      λ g le lt. elim (ℕ_discrete i g) [
        | yes d ↦ subst (λ x. 1 ≤ (file x).ref) d (ground arith)
        | no ne ↦ all g (omega arith) (omega arith)
      ],
    )
    | inr (f, e, le, lt, z) ↦ inr (f, rw (find_free, used, e), omega arith, omega arith, z)
  ]
]

-- `filealloc` of a counted table changes nothing and returns 0 if each file has a descriptor, and
-- otherwise returns a file that has none, with the counters right when it has one.
filealloc_lem :
    (file : ℕ → File) (held : List ℕ)
    → IsCounted file held
    → ((filealloc file ≡ (none, file)) × ((g : ℕ) → g < nfile → 1 ≤ count g held))
      ⊎ ((f : ℕ) × (file' : ℕ → File) × (filealloc file ≡ (some f, file'))
          × (f < nfile)
          × (count f held ≡ 0)
          × IsCounted file' (f ∷ held))
unfolding filealloc
filealloc_lem file held h = elim (find_free_lem file nfile 0) [
  | inl (e, all) ↦
      inl (rw (filealloc, e), λ g lt. omega (arith, h g lt, all g (omega arith) (omega arith)))
  | inr (f, e, le, lt, z) ↦
      let none_held : count f held ≡ 0 = omega (arith, h f (omega arith)) in
      inr (
        f,
        update file f (record (file f) { ref = 1 }),
        rw (filealloc, e),
        omega arith,
        none_held,
        count_update file f (record (file f) { ref = 1 }) held (f ∷ held) h (ground arith)
            (λ g ne. ground arith),
      )
]
