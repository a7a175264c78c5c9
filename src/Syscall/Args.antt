-- ===== src/Syscall/Args.antt =====
-- syscall.c: arguments. The process has `sz` bytes of memory, of which `mem` gives each; an `int` is its
-- word, below 2^32, and `none` stands for -1.
use homework.Prelude.{
  ℕ, zero, suc, ◌+◌, ◌-◌, ◌*◌, ◌%◌, ◌^◌, Bool, true, false, ◌||◌, Option, none, some, leb, ltb,
  ◌==◌, if◌then◌else◌,
}

-- The tests of `argptr` on the pointer `i`.
unfoldable pub out_of_space : (sz i size : ℕ) → Bool
out_of_space sz i size = leb (2 ^ 31) size || (leb sz i || ltb sz ((i + size) % 2 ^ 32))

unfoldable pub check_block : (sz size : ℕ) → Option ℕ → Option ℕ
unfolding out_of_space
check_block sz size none = none
check_block sz size (some i) = if out_of_space sz i size then none else some i

module _ (sz : ℕ) (mem : ℕ → ℕ) where
  unfoldable pub user_word : ℕ → ℕ
  user_word a = mem a + 256 * mem (a + 1) + 65536 * mem (a + 2) + 16777216 * mem (a + 3)

  unfoldable pub fetchint : ℕ → Option ℕ
  unfolding user_word
  fetchint addr =
      if leb sz addr || ltb sz ((addr + 4) % 2 ^ 32) then none else some (user_word addr)

  -- The loop of `fetchstr`, with `left` bytes up to `ep`; `passed` is `s - *pp`.
  unfoldable pub str_end : (left s passed : ℕ) → Option ℕ
  str_end zero s passed = none
  str_end (suc left) s passed = elim (mem s == 0) [
    | true ↦ some passed
    | false ↦ str_end left (s + 1) (passed + 1)
  ]

  -- The length; the pointer is the address.
  unfoldable pub fetchstr : ℕ → Option ℕ
  unfolding str_end
  fetchstr addr = if leb sz addr then none else str_end (sz - addr) addr 0

  -- `esp` is the user's stack pointer.
  module _ (esp : ℕ) where
    unfoldable pub argint : ℕ → Option ℕ
    unfolding fetchint
    argint n = fetchint ((esp + 4 + 4 * n) % 2 ^ 32)

    unfoldable pub argptr : (n size : ℕ) → Option ℕ
    unfolding argint check_block
    argptr n size = check_block sz size (argint n)

    unfoldable pub argstr : ℕ → Option (ℕ × ℕ)
    unfolding argint fetchstr
    argstr n = elim (argint n) [
      | none ↦ none
      | some addr ↦ elim (fetchstr addr) [ none ↦ none | some len ↦ some (addr, len) ]
    ]
