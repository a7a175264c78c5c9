-- ===== src/Vm/Bits.antt =====
-- vm.c: the bits of a page table entry.
use homework.Prelude.{
  ℕ, zero, suc, ◌+◌, ◌-◌, ◌*◌, ◌/◌, ◌%◌, ◌^◌, ◌≤◌, ◌<◌, ◌≡◌, refl, ap, ◌∙◌, subst, true, ◌==◌,
  if◌then◌else◌, arith,
}
use homework.Kalloc.{kernbase, phystop}
use homework.Kalloc.{v2p}
use homework.Vm.Machine.{pte_addr, present, p2v, bit_or}

unfoldable two_pow : ℕ → ℕ
two_pow zero = 1
two_pow (suc n) = 2 * two_pow n

-- `c << m`
unfoldable shift : ℕ → ℕ → ℕ
shift zero c = c
shift (suc m) c = 2 * shift m c

halves : (a : ℕ) → (if a % 2 == 1 then 1 else 0) + 2 * (a / 2) ≡ a
halves a = ground arith

-- An even number is no hindrance.
join_even : (c b : ℕ) → (if 2 * c % 2 == 1 then 1 else b % 2) + 2 * (c + b / 2) ≡ 2 * c + b
join_even c b = ground arith

half : (c : ℕ) → 2 * c / 2 ≡ c
half c = omega arith

bit_or-zero : (n a : ℕ) → a < two_pow n → bit_or n a 0 ≡ a
unfolding bit_or two_pow
bit_or-zero zero a lt = omega arith
bit_or-zero (suc n) a lt = rw (bit_or-zero n (a / 2) (omega arith)) (halves a)

below_one : (b : ℕ) → b < 1 → b ≡ 0
below_one b lt = omega arith

bit_or-shift :
    (m n c b : ℕ)
    → m ≤ n
    → b < two_pow m
    → shift m c < two_pow n
    → bit_or n (shift m c) b ≡ shift m c + b
unfolding bit_or two_pow shift
bit_or-shift zero n c b le lt small =
    ap (bit_or n c) (below_one b lt) ∙ bit_or-zero n c small ∙ omega arith
bit_or-shift (suc m) zero c b le lt small = absurd (omega arith)
bit_or-shift (suc m) (suc n) c b le lt small =
    rw (half (shift m c), bit_or-shift m n c (b / 2) (omega arith) (omega arith) (omega arith))
      (join_even (shift m c) b)

two_pow-32 : two_pow 32 ≡ 2 ^ 32
unfolding two_pow
two_pow-32 = refl

shift-12 : (a : ℕ) → a % 4096 ≡ 0 → shift 12 (a / 4096) ≡ a
unfolding shift
shift-12 a e = omega arith

-- The flags go below an aligned address.
pub bit_or-aligned : (a b : ℕ) → a % 4096 ≡ 0 → a < 2 ^ 32 → b < 4096 → bit_or 32 a b ≡ a + b
unfolding shift two_pow
bit_or-aligned a b e lt small =
    let same = shift-12 a e in
    subst (λ x. bit_or 32 x b ≡ x + b) same
      (bit_or-shift 12 32 (a / 4096) b (omega arith) small (omega (arith, same, two_pow-32)))

set_lowest : (n perm : ℕ) → perm / 2 < two_pow n → bit_or (suc n) perm 1 ≡ perm / 2 * 2 + 1
unfolding bit_or
set_lowest n perm lt = rw (bit_or-zero n (perm / 2) lt) (ground arith)

pub bit_or-present : (perm : ℕ) → perm < 4096 → bit_or 32 perm 1 ≡ perm / 2 * 2 + 1
unfolding two_pow
bit_or-present perm lt = set_lowest 31 perm (omega arith)

-- What `walkpgdir` puts into the directory for a page of `kalloc`.
pub entered-present :
    (v : ℕ)
    → v % 4096 ≡ 0
    → kernbase ≤ v
    → v < kernbase + phystop
    → present (bit_or 32 (v2p v) 7) ≡ true
unfolding v2p present
entered-present v e lo hi =
    rw
      (bit_or-aligned ((v + (2 ^ 32 - kernbase)) % 2 ^ 32) 7 (omega arith) (omega arith)
        (omega arith))
      (ground arith)

pub entered-p2v :
    (v : ℕ)
    → v % 4096 ≡ 0
    → kernbase ≤ v
    → v < kernbase + phystop
    → p2v (pte_addr (bit_or 32 (v2p v) 7)) ≡ v
unfolding v2p pte_addr p2v
entered-p2v v e lo hi =
    rw
      (bit_or-aligned ((v + (2 ^ 32 - kernbase)) % 2 ^ 32) 7 (omega arith) (omega arith)
        (omega arith))
      (omega arith)
