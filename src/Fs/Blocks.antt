-- ===== src/Fs/Blocks.antt =====
-- fs.c: the bitmap of blocks.
use Prim.Native.Nat.{bit_and, bit_or, min}
use homework.Prelude.{
  ℕ, zero, suc, ◌+◌, ◌-◌, ◌/◌, ◌%◌, ◌^◌, Bool, true, false, not, Option, none, some, ltb, ◌==◌,
  if◌then◌else◌, update,
}
use homework.Fs.Machine.{Block, panic, M, ◌>>=◌, ◌>>◌, pure, bpb, bread, log_write, bblock, readsb}

-- Whether bit `bi` of the block is set; the block with it set, and cleared.
unfoldable pub used : Block → ℕ → Bool
used x bi = not (bit_and (x (bi / 8)) (2 ^ (bi % 8)) == 0)

unfoldable pub mark : Block → ℕ → Block
mark x bi = update x (bi / 8) (bit_or (x (bi / 8)) (2 ^ (bi % 8)))

unfoldable pub unmark : Block → ℕ → Block
unmark x bi = update x (bi / 8) (bit_and (x (bi / 8)) (255 - 2 ^ (bi % 8)))

-- The inner loop of `balloc`: the first of `k` bits from `bi` on that is clear.
unfoldable pub find_clear : Block → ℕ → ℕ → Option ℕ
unfolding used
find_clear x zero bi = none
find_clear x (suc k) bi = elim (used x bi) [ true ↦ find_clear x k (bi + 1) | false ↦ some bi ]

unfoldable pub bzero : ℕ → M (Unit {0})
unfolding bread log_write
bzero bno = do bread bno; log_write bno (λ i. 0)

-- What `balloc` does with the clear bit that it finds in block `w` of the bitmap, whose bits are those of
-- the blocks from `b` on: `next` is the rest of the outer loop.
unfoldable pub balloc_bit : (next : M ℕ) (b w : ℕ) → Block → Option ℕ → M ℕ
unfolding mark bzero log_write
balloc_bit next b w x none = next
balloc_bit next b w x (some bi) = do log_write w (mark x bi); bzero (b + bi); pure (b + bi)

-- The outer loop of `balloc` from block `b` on; there are at most `rounds` blocks of the bitmap left.
unfoldable pub balloc_from : ℕ → ℕ → M ℕ
unfolding bread bblock find_clear balloc_bit
balloc_from zero b s = panic
balloc_from (suc rounds) b s = elim (ltb b s.sb.size) [
  | true ↦
      (do
        x ← bread (bblock b s.sb)
        balloc_bit (balloc_from rounds (b + bpb)) b (bblock b s.sb) x
            (find_clear x (min bpb (s.sb.size - b)) 0))
        s
  | false ↦ panic
]

unfoldable pub balloc : M ℕ
unfolding balloc_from
balloc s = balloc_from (s.sb.size / bpb + 1) 0 s

-- `bfree` after `readsb`.
unfoldable pub clear_bit : ℕ → M (Unit {0})
unfolding bread bblock used unmark log_write
clear_bit b s =
    (do
      x ← bread (bblock b s.sb)
      if used x (b % bpb) then log_write (bblock b s.sb) (unmark x (b % bpb)) else (λ t. panic))
      s

unfoldable pub bfree : ℕ → M (Unit {0})
unfolding readsb clear_bit
bfree b = do readsb; clear_bit b
