-- ===== src/Strings/Defs.antt =====
-- string.c: `memmove`, `memcpy`, `safestrcpy` and `strlen`. The memory is the byte at each address; a
-- function that writes returns the memory after it. Lengths are not negative, and no range of bytes
-- goes past the top of the memory.
use homework.Prelude.{
  ℕ, zero, suc, ◌+◌, true, false, ◌&&◌, Option, none, some, ltb, ◌==◌, if◌then◌else◌, update,
}

-- `while (n-- > 0) *d++ = *s++`
unfoldable pub copy_up : (n d s : ℕ) → (ℕ → ℕ) → ℕ → ℕ
copy_up zero d s mem = mem
copy_up (suc n) d s mem = copy_up n (d + 1) (s + 1) (update mem d (mem s))

-- `while (n-- > 0) *--d = *--s`, where `d` and `s` are the first bytes, to which the loop goes down.
unfoldable pub copy_down : (n d s : ℕ) → (ℕ → ℕ) → ℕ → ℕ
copy_down zero d s mem = mem
copy_down (suc n) d s mem = copy_down n d s (update mem (d + n) (mem (s + n)))

unfoldable pub memmove : (dst src n : ℕ) → (ℕ → ℕ) → ℕ → ℕ
unfolding copy_up copy_down
memmove dst src n mem =
    if ltb src dst && ltb dst (src + n) then copy_down n dst src mem else copy_up n dst src mem

unfoldable pub memcpy : (dst src n : ℕ) → (ℕ → ℕ) → ℕ → ℕ
unfolding memmove
memcpy dst src n mem = memmove dst src n mem

-- The loop of `safestrcpy` and the `*s = 0` behind it; `left` is `n` once `--n` is done.
unfoldable pub safe_copy : (left s t : ℕ) → (ℕ → ℕ) → ℕ → ℕ
safe_copy zero s t mem = update mem s 0
safe_copy (suc n) s t mem = elim (mem t == 0) [
  | true ↦ update (update mem s (mem t)) (s + 1) 0
  | false ↦ safe_copy n (s + 1) (t + 1) (update mem s (mem t))
]

unfoldable pub safestrcpy : (s t n : ℕ) → (ℕ → ℕ) → ℕ → ℕ
unfolding safe_copy
safestrcpy s t zero mem = mem
safestrcpy s t (suc n) mem = safe_copy n s t mem

-- `strlen` among the first `fuel` bytes; `none` where none of them is 0.
unfoldable pub strlen_from : (fuel s : ℕ) → (ℕ → ℕ) → Option ℕ
strlen_from zero s mem = none
strlen_from (suc fuel) s mem = elim (mem s == 0) [
  | true ↦ some 0
  | false ↦ elim (strlen_from fuel (s + 1) mem) [ none ↦ none | some n ↦ some (suc n) ]
]
