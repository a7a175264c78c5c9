-- ===== src/User/Format/Numbers.antt =====
-- printf.c, ulib.c: what `printint` writes, and `atoi` of it.
use homework.Prelude.{
  ℕ, zero, suc, ◌+◌, ◌-◌, ◌*◌, ◌/◌, ◌%◌, ◌^◌, ◌<◌, ◌≡◌, refl, ap, ◌∙◌, inl, inr, true, false, ◌&&◌,
  leb, ◌==◌, List, [], ◌∷◌, Bool-cases, arith,
}
use homework.User.Library.{atoi_from, atoi}
use homework.User.Format.{digit, digits_of, is_negative, int_buf, backwards, printint}

-- No digit follows.
abbrev pub Stops : List ℕ → Type 0
Stops [] = Unit {0}
Stops (c ∷ rest) = (leb 48 c && leb c 57) ≡ false

-- 10 to the power.
unfoldable ten_pow : ℕ → ℕ
ten_pow zero = 1
ten_pow (suc k) = 10 * ten_pow k

digit-IsDecimal : (d : ℕ) → d < 10 → digit d ≡ 48 + d
unfolding digit
digit-IsDecimal d lt = ground arith

is_digit_lem : (d : ℕ) → d < 10 → (leb 48 (48 + d) && leb (48 + d) 57) ≡ true
is_digit_lem d lt = ground arith

word_of_digit : (n d : ℕ) → n * 10 + d < 2 ^ 32 → (n * 10 + (48 + d - 48)) % 2 ^ 32 ≡ n * 10 + d
word_of_digit n d small = omega arith

atoi_from-digit :
    (n d : ℕ) (rest : List ℕ)
    → d < 10
    → n * 10 + d < 2 ^ 32
    → atoi_from n (digit d ∷ rest) ≡ atoi_from (n * 10 + d) rest
unfolding atoi_from
atoi_from-digit n d rest lt small =
    rw (digit-IsDecimal d lt, is_digit_lem d lt, word_of_digit n d small) refl

quotient_small : (x k : ℕ) → x < 10 * k → x / 10 < k
quotient_small x k lt = omega arith

rejoin : (x : ℕ) → x / 10 * 10 + x % 10 ≡ x
rejoin x = omega arith

remainder_small : (x : ℕ) → x % 10 < 10
remainder_small x = omega arith

last_digit : (x : ℕ) → (x / 10 == 0) ≡ true → 0 * 10 + x % 10 ≡ x
last_digit x z = grind arith

bounded : (x : ℕ) → x < 2 ^ 32 → 0 * 10 + x % 10 < 2 ^ 32
bounded x lt = omega arith

quotient_bounded : (x : ℕ) → x < 2 ^ 32 → x / 10 < 2 ^ 32
quotient_bounded x lt = omega arith

rejoin_bounded : (x : ℕ) → x < 2 ^ 32 → x / 10 * 10 + x % 10 < 2 ^ 32
rejoin_bounded x lt = omega arith

not_negative : (x : ℕ) → x < 2 ^ 31 → leb (2 ^ 31) x ≡ false
not_negative x lt = ground arith

-- `atoi` reads the digits of a number and goes on with it.
atoi_from-backwards :
    (fuel x : ℕ) (rest : List ℕ)
    → x < ten_pow fuel
    → x < 2 ^ 32
    → atoi_from 0 (backwards (digits_of fuel 10 x) rest) ≡ atoi_from x rest
unfolding backwards digits_of ten_pow
atoi_from-backwards zero x rest lt small = ap (λ n. atoi_from n rest) (omega arith)
atoi_from-backwards (suc fuel) x rest lt small = elim (Bool-cases (x / 10 == 0)) [
  | inl z ↦ rw (z) (
      atoi_from-digit 0 (x % 10) rest (remainder_small x) (bounded x small)
      ∙ ap (λ n. atoi_from n rest) (last_digit x z))
  | inr more ↦ rw (more) (
      atoi_from-backwards fuel (x / 10) (digit (x % 10) ∷ rest) (quotient_small x (ten_pow fuel) lt)
        (quotient_bounded x small)
      ∙ atoi_from-digit (x / 10) (x % 10) rest (remainder_small x) (rejoin_bounded x small)
      ∙ ap (λ n. atoi_from n rest) (rejoin x))
]

-- A number that is not negative as an `int`.
printint_decimal :
    (x : ℕ) (rest : List ℕ)
    → x < 2 ^ 31
    → printint x 10 true rest ≡ backwards (digits_of 32 10 x) rest
unfolding printint int_buf is_negative
printint_decimal x rest lt = rw (not_negative x lt) refl

atoi_from-Stops : (x : ℕ) (rest : List ℕ) → Stops rest → atoi_from x rest ≡ x
unfolding atoi_from
atoi_from-Stops x [] s = refl
atoi_from-Stops x (c ∷ rest) s = rw (s) refl

room : ten_pow 32 ≡ 100000000000000000000000000000000
unfolding ten_pow
room = refl

enough : (x : ℕ) → x < 2 ^ 31 → x < ten_pow 32
enough x lt = rw (room) (omega arith)

-- What `printint` writes of an `int` that is not negative, in base 10 and before anything but a digit, is
-- read back by `atoi` as that `int`.
pub atoi-printint :
    (x : ℕ) (rest : List ℕ) → x < 2 ^ 31 → Stops rest → atoi (printint x 10 true rest) ≡ x
unfolding atoi
atoi-printint x rest lt s =
    ap atoi (printint_decimal x rest lt)
    ∙ atoi_from-backwards 32 x rest (enough x lt) (omega arith)
    ∙ atoi_from-Stops x rest s
