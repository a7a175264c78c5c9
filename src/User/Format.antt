-- ===== src/User/Format.antt =====
-- printf.c: numbers and formats, as the characters that are written.
mod Examples
pub mod Numbers
use homework.Prelude.{
  ℕ, zero, suc, ◌+◌, ◌-◌, ◌/◌, ◌%◌, ◌^◌, Bool, true, false, ◌&&◌, ◌||◌, leb, ltb, ◌==◌,
  if◌then◌else◌, List, [], ◌∷◌, ◌++◌,
}

-- `"0123456789ABCDEF"[d]`
unfoldable pub digit : ℕ → ℕ
digit d = if ltb d 10 then 48 + d else 55 + d

-- What the `do` loop of `printint` puts into `buf`. A `uint` has 32 digits at most in any base from 2 on.
unfoldable pub digits_of : (fuel base x : ℕ) → List ℕ
unfolding digit
digits_of zero base x = []
digits_of (suc fuel) base x =
    digit (x % base) ∷ elim (x / base == 0) [ true ↦ [] | false ↦ digits_of fuel base (x / base) ]

unfoldable pub is_negative : ℕ → Bool → Bool
is_negative xx sgn = sgn && leb (2 ^ 31) xx

-- `buf` before it is written.
unfoldable pub int_buf : ℕ → ℕ → Bool → List ℕ
unfolding digits_of is_negative
int_buf xx base sgn =
    if is_negative xx sgn then digits_of 32 base (2 ^ 32 - xx) ++ 45 ∷ [] else digits_of 32 base xx

-- `while (--i >= 0) putc(fd, buf[i])`, and then `rest` is written.
unfoldable pub backwards : List ℕ → List ℕ → List ℕ
backwards [] rest = rest
backwards (b ∷ buf) rest = backwards buf (b ∷ rest)

-- The `int` is its word, below 2^32.
unfoldable pub printint : ℕ → ℕ → Bool → List ℕ → List ℕ
unfolding int_buf backwards
printint xx base sgn rest = backwards (int_buf xx base sgn) rest

-- What `printf` writes for the character after a `%`, and whether that takes an argument. `string` gives
-- the characters of the string at an address.
module _ (string : ℕ → List ℕ) where
  unfoldable pub conversion : ℕ → ℕ → List ℕ → List ℕ
  unfolding printint
  conversion c arg rest =
      if c == 100
      then printint arg 10 true rest
      else (if c == 120 || c == 112
          then printint arg 16 false rest
          else (if c == 115
              then (if arg == 0 then 40 ∷ 110 ∷ 117 ∷ 108 ∷ 108 ∷ 41 ∷ rest else string arg ++ rest)
              else (if c == 99
                  then arg % 256 ∷ rest
                  else (if c == 37 then c ∷ rest else 37 ∷ c ∷ rest))))

  unfoldable pub takes_arg : ℕ → Bool
  takes_arg c = c == 100 || (c == 120 || (c == 112 || (c == 115 || c == 99)))

  -- `ap` counts the arguments taken; the flag is `state`.
  unfoldable pub printf_from : Bool → ℕ → (ℕ → ℕ) → List ℕ → List ℕ
  unfolding conversion takes_arg
  printf_from state ap args [] = []
  printf_from false ap args (c ∷ fmt) = elim (c == 37) [
    | true ↦ printf_from true ap args fmt
    | false ↦ c ∷ printf_from false ap args fmt
  ]
  printf_from true ap args (c ∷ fmt) =
      conversion c (args ap) (printf_from false (if takes_arg c then ap + 1 else ap) args fmt)

  unfoldable pub printf : List ℕ → (ℕ → ℕ) → List ℕ
  unfolding printf_from
  printf fmt args = printf_from false 0 args fmt
