-- ===== src/Syscall/Pointers.antt =====
-- syscall.c: pointers that a system call takes stay in the process.
use homework.Prelude.{
  ℕ, ◌+◌, ◌^◌, ◌<◌, ◌≤◌, ◌≡◌, ◌↔◌, inl, inr, false, Bool-cases, Option, none, some, arith,
}
use mathlib.Core.Option.{some-injective}
use homework.Syscall.Args.{argint, argptr, out_of_space, check_block}

-- The tests let through the blocks in the process, also where the sum would wrap.
in_space :
    (sz i size : ℕ)
    → sz < 2 ^ 31
    → (out_of_space sz i size ≡ false) ↔ ((i < sz) × (size < 2 ^ 31) × (i + size ≤ sz))
unfolding out_of_space
in_space sz i size lt = (λ e. (ground arith, ground arith, ground arith), λ h. ground arith)

passed :
    (sz size i p : ℕ)
    → check_block sz size (some i) ≡ some p
    → (some i ≡ some p) × (out_of_space sz i size ≡ false)
unfolding check_block
passed sz size i p e = elim (Bool-cases (out_of_space sz i size)) [
  | inl t ↦ absurd (cc (rw (t) at e))
  | inr f ↦ (rw (f) at e, f)
]

block_lem :
    (sz size p : ℕ) (r : Option ℕ)
    → sz < 2 ^ 31
    → (check_block sz size r ≡ some p)
      ↔ ((r ≡ some p) × (p < sz) × (size < 2 ^ 31) × (p + size ≤ sz))
unfolding check_block
block_lem sz size p none lt = (λ e. absurd (cc e), λ h. h.0)
block_lem sz size p (some i) lt = (
  λ e.
      let (same, f) = passed sz size i p e in
      let j = some-injective i p same in
      let (below, positive, inside) = (in_space sz i size lt).0 f in
      (same, omega arith, positive, omega arith),
  λ h.
      let (same, below, positive, inside) = h in
      let j = some-injective i p same in
      rw ((in_space sz i size lt).1 (omega arith, positive, omega arith)) same,
)

-- In a process with less than 2^31 bytes of memory, `argptr` takes exactly the pointers that `argint` fetches
-- and whose block, of a size that is not negative, lies in the memory.
pub argptr_lem :
    (sz : ℕ) (mem : ℕ → ℕ) (esp n size p : ℕ)
    → sz < 2 ^ 31
    → (argptr sz mem esp n size ≡ some p)
      ↔ ((argint sz mem esp n ≡ some p) × (p < sz) × (size < 2 ^ 31) × (p + size ≤ sz))
unfolding argptr
argptr_lem sz mem esp n size p lt = block_lem sz size p (argint sz mem esp n) lt
