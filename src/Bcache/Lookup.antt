-- ===== src/Bcache/Lookup.antt =====
-- bio.c: what `bget` finds.
use mathlib.Core.List.{reverse, reverse-cons, reverse-append, reverse-reverse}
use homework.Prelude.{
  ℕ, zero, suc, ◌≤◌, ◌≡◌, refl, sym, ap, ◌∙◌, subst, ◌⊎◌, inl, inr, true, false, Bool, Bool-cases,
  Option, none, some, List, [], ◌∷◌, ◌++◌, append_assoc, count, count-append, length, length-append,
  ◌==◌, ℕ_discrete, arith,
}
use homework.Bcache.Defs.{head, scan}
use homework.Bcache.Links.{PathOf, end_of, Path-join}

-- Where a test first holds in a list.
pub data First (test : ℕ → Bool) (xs : List ℕ) : Option ℕ → Type 0 where
  found :
      {b : ℕ} (before after : List ℕ)
      → xs ≡ before ++ b ∷ after
      → test b ≡ true
      → ((j : ℕ) → 1 ≤ count j before → test j ≡ false)
      → First test xs (some b)
  nowhere : ((j : ℕ) → 1 ≤ count j xs → test j ≡ false) → First test xs none

count-member : (j x : ℕ) (xs : List ℕ) → 1 ≤ count j (x ∷ xs) → (x ≡ j) ⊎ (1 ≤ count j xs)
count-member j x xs m = elim (ℕ_discrete x j) [ yes e ↦ inl e | no ne ↦ inr (ground arith) ]

First-later :
    (test : ℕ → Bool) (x : ℕ) (xs : List ℕ) (r : Option ℕ)
    → test x ≡ false
    → First test xs r
    → First test (x ∷ xs) r
First-later test x xs (some b) f (found before after e t h) =
    found (x ∷ before) after (ap (λ ys. x ∷ ys) e) t
      (λ j m. elim (count-member j x before m) [ inl d ↦ sym (ap test d) ∙ f | inr l ↦ h j l ])
First-later test x xs none f (nowhere h) =
    nowhere (λ j m. elim (count-member j x xs m) [ inl d ↦ sym (ap test d) ∙ f | inr l ↦ h j l ])

-- A loop of `bget` finds the first buffer of the list in its direction.
pub scan_lem :
    (next prev : ℕ → ℕ) (test : ℕ → Bool) (fuel a : ℕ) (xs : List ℕ)
    → PathOf next prev a (xs ++ head ∷ [])
    → count head xs ≡ 0
    → length xs ≤ fuel
    → First test xs (scan next test fuel (next a))
unfolding scan
scan_lem next prev test zero a [] p z le = nowhere (λ j m. absurd (omega arith))
scan_lem next prev test zero a (x ∷ xs) p z le = absurd (omega arith)
scan_lem next prev test (suc fuel) a [] (e, e', t) z le =
    rw (e) (nowhere (λ j m. absurd (omega arith)))
scan_lem next prev test (suc fuel) a (x ∷ xs) (e, e', t) z le =
    let other : (x == head) ≡ false = ground arith in
    let rest = scan_lem next prev test fuel x xs t (ground arith) (omega arith) in
    subst (λ y. First test (x ∷ xs) (scan next test (suc fuel) y)) (sym e)
      (elim (Bool-cases (test x)) [
        | inl y ↦ rw (scan, other, y) (found [] xs refl y (λ j m. absurd (omega arith)))
        | inr n ↦ rw (scan, other, n) (First-later test x xs (scan next test fuel (next x)) n rest)
      ])

end_of-snoc : (a x : ℕ) (xs : List ℕ) → end_of a (xs ++ x ∷ []) ≡ x
end_of-snoc a x [] = refl
end_of-snoc a x (y ∷ xs) = end_of-snoc y x xs

-- The pointers lead back along the reversed list.
pub Path-reverse :
    (next prev : ℕ → ℕ) (a z : ℕ) (xs : List ℕ)
    → PathOf next prev a (xs ++ z ∷ [])
    → PathOf prev next z (reverse xs ++ a ∷ [])
Path-reverse next prev a z [] (e, e', t) = (e', e, tt)
Path-reverse next prev a z (x ∷ xs) (e, e', t) =
    subst (λ ys. PathOf prev next z (ys ++ a ∷ [])) (sym (reverse-cons x xs))
      (Path-join prev next z (reverse xs ++ x ∷ []) (a ∷ []) (Path-reverse next prev x z xs t)
        (subst (λ w. PathOf prev next w (a ∷ [])) (sym (end_of-snoc z x (reverse xs))) (e', e, tt)))

pub count-reverse : (j : ℕ) (xs : List ℕ) → count j (reverse xs) ≡ count j xs
count-reverse j [] = refl
count-reverse j (x ∷ xs) =
    ap (count j) (reverse-cons x xs)
    ∙ omega (arith, count-append j (reverse xs) (x ∷ []), count-reverse j xs)

pub length-reverse : (xs : List ℕ) → length (reverse xs) ≡ length xs
length-reverse [] = refl
length-reverse (x ∷ xs) =
    ap length (reverse-cons x xs)
    ∙ omega (arith, length-append (reverse xs) (x ∷ []), length-reverse xs)

-- Where a test last holds in a list.
pub data Last (test : ℕ → Bool) (xs : List ℕ) : Option ℕ → Type 0 where
  found :
      {b : ℕ} (before after : List ℕ)
      → xs ≡ before ++ b ∷ after
      → test b ≡ true
      → ((j : ℕ) → 1 ≤ count j after → test j ≡ false)
      → Last test xs (some b)
  nowhere : ((j : ℕ) → 1 ≤ count j xs → test j ≡ false) → Last test xs none

turned :
    (b : ℕ) (xs before after : List ℕ)
    → reverse xs ≡ before ++ b ∷ after
    → xs ≡ reverse after ++ b ∷ reverse before
turned b xs before after e =
    sym (reverse-reverse xs)
    ∙ ap reverse e
    ∙ reverse-append before (b ∷ after)
    ∙ ap (λ ys. ys ++ reverse before) (reverse-cons b after)
    ∙ append_assoc (reverse after) (b ∷ []) (reverse before)

pub First-reverse :
    (test : ℕ → Bool) (xs : List ℕ) (r : Option ℕ) → First test (reverse xs) r → Last test xs r
First-reverse test xs (some b) (First.found before after e t h) =
    Last.found (reverse after) (reverse before) (turned b xs before after e) t
      (λ j m. h j (omega (arith, m, count-reverse j before)))
First-reverse test xs none (First.nowhere h) =
    Last.nowhere (λ j m. h j (omega (arith, m, count-reverse j xs)))
