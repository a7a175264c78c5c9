-- ===== src/Strings/Compare.antt =====
-- string.c: `memcmp`, `strncmp` and `strncpy`. A pointer is the bytes from it on, a number for each
-- offset; what a function writes stands apart from what it reads.
use homework.Prelude.{ℕ, zero, suc, ◌+◌, true, false, not, ◌||◌, ◌==◌, update, ℤ, pos, sub_ℕ}

-- Both from offset `i` on, with `n` bytes left.
unfoldable pub memcmp_from : ℕ → ℕ → (p q : ℕ → ℕ) → ℤ
memcmp_from zero i p q = pos 0
memcmp_from (suc n) i p q = elim (p i == q i) [
  | true ↦ memcmp_from n (i + 1) p q
  | false ↦ sub_ℕ (p i) (q i)
]

unfoldable pub memcmp : (p q : ℕ → ℕ) → ℕ → ℤ
unfolding memcmp_from
memcmp p q n = memcmp_from n 0 p q

unfoldable pub strncmp_from : ℕ → ℕ → (p q : ℕ → ℕ) → ℤ
strncmp_from zero i p q = pos 0
strncmp_from (suc n) i p q = elim (p i == 0 || not (p i == q i)) [
  | true ↦ sub_ℕ (p i) (q i)
  | false ↦ strncmp_from n (i + 1) p q
]

unfoldable pub strncmp : (p q : ℕ → ℕ) → ℕ → ℤ
unfolding strncmp_from
strncmp p q n = strncmp_from n 0 p q

-- `while (n-- > 0) *s++ = 0`
unfoldable pub fill_zero : ℕ → ℕ → (ℕ → ℕ) → ℕ → ℕ
fill_zero zero i s = s
fill_zero (suc n) i s = fill_zero n (i + 1) (update s i 0)

unfoldable pub strncpy_from : ℕ → ℕ → (s t : ℕ → ℕ) → ℕ → ℕ
unfolding fill_zero
strncpy_from zero i s t = s
strncpy_from (suc n) i s t = elim (t i == 0) [
  | true ↦ fill_zero n (i + 1) (update s i (t i))
  | false ↦ strncpy_from n (i + 1) (update s i (t i)) t
]

unfoldable pub strncpy : (s t : ℕ → ℕ) → ℕ → ℕ → ℕ
unfolding strncpy_from
strncpy s t n = strncpy_from n 0 s t
