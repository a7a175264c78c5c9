-- ===== src/Sysfile/Opened.antt =====
-- sysfile.c: the descriptors that calls accept, and the counters after one is made or closed.
use homework.Prelude.{
  Option-cases, ℕ, ◌<◌, ◌≡◌, sym, ap, ◌∙◌, inl, inr, false, Option, none, some, leb, update,
  update_self, update_ne, List, ◌∷◌, ◌++◌, ℕ_discrete, Bool-cases, arith,
}
use mathlib.Core.Option.{some-injective}
use homework.File.{File, nfile}
use homework.File.Holders.{IsCounted}
use homework.Sysfile.Machine.{Sys}
use homework.Sysfile.Descriptors.{nofile, open_fd}
use homework.Sysfile.Counted.{held_by, IsOpen, IsCounted-same, count-opened}

opened_fd :
    (o : ℕ → Option ℕ) (d fd f : ℕ)
    → elim (o d) as (λ x. Option (ℕ × ℕ)) [ none ↦ none | some g ↦ some (d, g) ] ≡ some (fd, f)
    → (d ≡ fd) × (o fd ≡ some f)
opened_fd o d fd f e = elim (Option-cases (o d)) [
  | inl n ↦ absurd (cc (rw (n) at e))
  | inr (g, q) ↦
      let p : (d, g) ≡ (fd, f) = some-injective (d, g) (fd, f) (rw (q) at e) in
      let same = ap (λ x. x.0) p in (same, sym (ap o same) ∙ q ∙ ap (λ x. some x.1) p)
]

-- What `argfd` accepts is an open descriptor.
pub open_fd_lem :
    (o : ℕ → Option ℕ) (r : Option ℕ) (fd f : ℕ)
    → open_fd o r ≡ some (fd, f)
    → (r ≡ some fd) × (fd < nofile) × (o fd ≡ some f)
unfolding open_fd
open_fd_lem o none fd f e = absurd (cc e)
open_fd_lem o (some d) fd f e = elim (Bool-cases (leb nofile d)) [
  | inl big ↦ absurd (cc (rw (big) at e))
  | inr small ↦
      let below : d < nofile = ground arith in
      let (same, q) = opened_fd o d fd f (rw (small) at e) in (ap some same, omega arith, q)
]

-- The word that is fetched, if any, is no open descriptor.
abbrev pub NoneOpen : (ℕ → Option ℕ) → Option ℕ → Type 0
NoneOpen o r = (fd : ℕ) → r ≡ some fd → fd < nofile → o fd ≡ none

pub open_fd-NoneOpen : (o : ℕ → Option ℕ) (r : Option ℕ) → open_fd o r ≡ none → NoneOpen o r
unfolding open_fd
open_fd-NoneOpen o none e fd is lt = absurd (cc is)
open_fd-NoneOpen o (some d) e fd is lt = elim (Option-cases (o d)) [
  | inl closed ↦ ap o (sym (some-injective d fd is)) ∙ closed
  | inr (g, q) ↦
      let small : leb nofile d ≡ false = ground (arith, lt, some-injective d fd is) in
      absurd (cc (rw (small, q) at e))
]

-- The state after the duplicate `new` of a descriptor of `f`.
abbrev pub duplicated : Sys → (new f : ℕ) → (ℕ → File) → Sys
duplicated s new f file = record s { ofile = update s.ofile new (some f); file = file }

-- The state after descriptor `fd` is closed.
abbrev pub closed : Sys → (fd : ℕ) → (ℕ → File) → Sys
closed s fd file = record s { ofile = update s.ofile fd none; file = file }

still_valid :
    (o : ℕ → Option ℕ) (new : ℕ) (x : Option ℕ)
    → ((fd f : ℕ) → fd < nofile → o fd ≡ some f → f < nfile)
    → ((f : ℕ) → x ≡ some f → f < nfile)
    → (fd g : ℕ) → fd < nofile
    → update o new x fd ≡ some g
    → g < nfile
still_valid o new x old fresh fd g l e = elim (ℕ_discrete new fd) [
  | yes d ↦ fresh g (sym (update_self o new x) ∙ ap (update o new x) d ∙ e)
  | no ne ↦ old fd g l (sym (update_ne o new x fd ne) ∙ e)
]

module _ (s : Sys) (others : List ℕ) (h : IsOpen s others) where
  -- The counters after a duplicate.
  pub dup-IsOpen :
      (new f : ℕ) (file : ℕ → File)
      → new < nofile
      → s.ofile new ≡ none
      → f < nfile
      → IsCounted file (f ∷ (held_by s.ofile nofile ++ others))
      → IsOpen (duplicated s new f file) others
  dup-IsOpen new f file lt free small c = record {
    counted =
        IsCounted-same file (f ∷ (held_by s.ofile nofile ++ others))
          (held_by (update s.ofile new (some f)) nofile ++ others)
          (λ g. count-opened g new f s.ofile others lt free) c;
    valid =
        still_valid s.ofile new (some f) h.valid
          (λ g e. omega (arith, some-injective f g e, small));
  }

  -- The counters after a close.
  pub close-IsOpen :
      (fd f : ℕ) (file : ℕ → File)
      → IsCounted file (held_by (update s.ofile fd none) nofile ++ others)
      → IsOpen (closed s fd file) others
  close-IsOpen fd f file c = record {
    counted = c;
    valid = still_valid s.ofile fd none h.valid (λ g e. absurd (cc e));
  }
