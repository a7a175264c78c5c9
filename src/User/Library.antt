-- ===== src/User/Library.antt =====
-- ulib.c: string functions of user programs. A pointer is the bytes from it on.
use homework.Prelude.{
  ℕ, zero, suc, ◌+◌, ◌-◌, ◌*◌, ◌%◌, ◌^◌, true, false, not, ◌&&◌, ◌||◌, Option, none, some, leb,
  ◌==◌, if◌then◌else◌, update, List, [], ◌∷◌, ℤ, sub_ℕ,
}

-- Among the first `fuel` bytes; with enough fuel for the 0 of the string, as C assumes it.
unfoldable pub strcpy : (fuel i : ℕ) → (s t : ℕ → ℕ) → ℕ → ℕ
strcpy zero i s t = s
strcpy (suc fuel) i s t = elim (t i == 0) [
  | true ↦ update s i 0
  | false ↦ strcpy fuel (i + 1) (update s i (t i)) t
]

unfoldable pub strcmp : (fuel i : ℕ) → (p q : ℕ → ℕ) → ℤ
strcmp zero i p q = sub_ℕ (p i) (q i)
strcmp (suc fuel) i p q = elim (p i == 0 || not (p i == q i)) [
  | true ↦ sub_ℕ (p i) (q i)
  | false ↦ strcmp fuel (i + 1) p q
]

-- The offset of the character, `none` for 0.
unfoldable pub strchr : (fuel i : ℕ) → (ℕ → ℕ) → ℕ → Option ℕ
strchr zero i s c = none
strchr (suc fuel) i s c = elim (s i == 0) [
  | true ↦ none
  | false ↦ elim (s i == c) [ true ↦ some i | false ↦ strchr fuel (i + 1) s c ]
]

-- What `read(0, &c, 1)` gives, call by call, until it gives less than one byte; the result is what is
-- put into `buf` before the 0, and the input that is left.
unfoldable pub gets_from : ℕ → ℕ → List ℕ → List ℕ × List ℕ
gets_from zero i input = ([], input)
gets_from (suc room) i [] = ([], [])
gets_from (suc room) i (c ∷ input) = elim (c == 10 || c == 13) [
  | true ↦ (c ∷ [], input)
  | false ↦ (c ∷ (gets_from room (i + 1) input).0, (gets_from room (i + 1) input).1)
]

-- `i + 1 < max`
unfoldable pub gets : ℕ → List ℕ → List ℕ × List ℕ
unfolding gets_from
gets max input = gets_from (max - 1) 0 input

-- The loop of `atoi`, on `int`s that wrap.
unfoldable pub atoi_from : ℕ → List ℕ → ℕ
atoi_from n [] = n
atoi_from n (c ∷ s) =
    let rest = atoi_from ((n * 10 + (c - 48)) % 2 ^ 32) s in
    if leb 48 c && leb c 57 then rest else n

unfoldable pub atoi : List ℕ → ℕ
unfolding atoi_from
atoi s = atoi_from 0 s
