-- ===== src/Strings/Examples.antt =====
-- Runs of the string functions, and their theorems at concrete inputs.
use homework.Prelude.{ℕ, ◌≡◌, refl, inl, some, if◌then◌else◌, arith, ltb, leb, ◌&&◌}
use homework.Strings.Defs.{memmove, safestrcpy, strlen_from}
use homework.Strings.Move.{IsMoved, memmove_lem}
use homework.Strings.Safe.{IsString, IsCopied, safestrcpy_lem}

-- The string of five bytes 7 at 100.
abbrev sevens : ℕ → ℕ
sevens a = if leb 100 a && ltb a 105 then 7 else 0

sevens-IsString : IsString 100 5 sevens
sevens-IsString = record { nonzero = λ i l e. ground arith; ended = refl }

-- Two bytes up, with three bytes in both ranges.
memmove_lem_example : IsMoved 102 100 5 sevens (memmove 102 100 5 sevens)
memmove_lem_example = memmove_lem 102 100 5 sevens

memmove_test : memmove 102 100 5 (λ a. a) 106 ≡ 104
unfolding memmove
memmove_test = refl

-- A buffer of four bytes holds three of them.
safestrcpy_lem_example :
    IsCopied 200 100 3 4 sevens (safestrcpy 200 100 4 sevens)
    × (strlen_from 4 200 (safestrcpy 200 100 4 sevens) ≡ some 3)
safestrcpy_lem_example = safestrcpy_lem 5 200 100 3 sevens sevens-IsString (inl (omega arith))
