-- ===== src/Fs/Reading.antt =====
-- fs.c: `readi` of a file whose blocks are all allocated.
use Prim.Native.Nat.{min}
use homework.Prelude.{
  ℕ, zero, suc, ◌+◌, ◌-◌, ◌*◌, ◌/◌, ◌%◌, ◌^◌, ◌≤◌, ◌<◌, ◌≡◌, ◌≢◌, refl, ◌∙◌, ap, inl, inr, ◌==◌,
  ltb, leb, ◌||◌, if◌then◌else◌, false, none, some, ◌++◌, Bool-cases, arith,
}
use homework.Fs.Machine.{State, ok, bsize, t_dev, bread, bind_ok, ◌>>=◌, pure}
use homework.Fs.Content.{Device, bmap, slice, read_blocks, readi}
use homework.Fs.Mapped.{
  addr_at, IsMapped, bmap_lem, bread_ok, bytes_from, slice-append-bytes_from, bytes_at,
}

module _ (s : State) (ip n : ℕ) (m : IsMapped s ip n) where
  -- The loop collects the bytes and changes nothing.
  pub read_blocks_lem :
      (fuel left off : ℕ)
      → left ≤ fuel
      → off + left ≤ n * bsize
      → read_blocks ip fuel left off s ≡ ok (bytes_from s ip off left) s
  unfolding read_blocks
  read_blocks_lem zero left off le fits =
      ap (λ l. ok l s) (bytes_at s ip off off 0 left refl (omega arith))
  read_blocks_lem (suc fuel) left off le fits = elim (Bool-cases (left == 0)) [
    | inl z ↦
        let none_left : 0 ≡ left = ground arith in
        rw (read_blocks, z) (ap (λ l. ok l s) (bytes_at s ip off off 0 left refl none_left))
    | inr more ↦
        let k = min left (bsize - off % bsize) in
        let some_left : 0 < left = ground arith in
        let b = addr_at s ip (off / bsize) in
        let there = m.on_disk (off / bsize) (omega arith) in
        rw (read_blocks, more)
          (bind_ok (bmap ip (off / bsize))
              (λ a. bread a >>= λ x. read_blocks ip fuel (left - k) (off + k) >>= λ rest.
                pure (slice x (off % bsize) k ++ rest))
              s (bmap_lem s ip n m (off / bsize) (omega arith))
            ∙ bind_ok (bread b)
                (λ x. read_blocks ip fuel (left - k) (off + k) >>= λ rest.
                  pure (slice x (off % bsize) k ++ rest))
                s (bread_ok b s there)
            ∙ bind_ok (read_blocks ip fuel (left - k) (off + k))
                (λ rest. pure (slice (s.blocks b) (off % bsize) k ++ rest)) s
                (read_blocks_lem fuel (left - k) (off + k) (omega arith) (omega arith))
            ∙ ap (λ l. ok l s)
                (slice-append-bytes_from s ip off k (left - k) (omega arith)
                  ∙ bytes_at s ip off off (k + (left - k)) left refl (omega arith)))
  ]

wraps :
    (size off len : ℕ)
    → off < 2 ^ 32
    → len < 2 ^ 32
    → (ltb size off || ltb ((off + len) % 2 ^ 32) off) ≡ (ltb size off || leb (2 ^ 32) (off + len))
wraps size off len h k = ground arith

-- `readi` of a file that is no device, with all its blocks allocated, changes nothing. It fails for an offset
-- behind the end or past 2^32, and otherwise reads the bytes from the offset on, as many as are asked
-- for and there.
pub readi_lem :
    (devsw : ℕ → Device) (s : State) (ip n : ℕ)
    → IsMapped s ip n
    → (s.icache ip).kind ≢ t_dev
    → (s.icache ip).size ≤ n * bsize
    → (off len : ℕ) → off < 2 ^ 32
    → len < 2 ^ 32
    → readi devsw ip off len s
      ≡ ok
          (if ltb (s.icache ip).size off || leb (2 ^ 32) (off + len)
            then none
            else some (bytes_from s ip off (min len ((s.icache ip).size - off))))
          s
unfolding readi
readi_lem devsw s ip n m file fits off len small small' =
    let size = (s.icache ip).size in
    let no_device : ((s.icache ip).kind == t_dev) ≡ false = ground arith in
    let bad : (ltb size off || ltb ((off + len) % 2 ^ 32) off)
        ≡ (ltb size off || leb (2 ^ 32) (off + len)) =
      wraps size off len small small' in
    elim (Bool-cases (ltb size off || leb (2 ^ 32) (off + len))) [
      | inl no_bytes ↦ rw (no_device, bad, no_bytes)
      | inr good ↦
          let k = if ltb size (off + len) then size - off else len in
          let count : k ≡ min len (size - off) = ground arith in
          rw (no_device, bad, good)
            (bind_ok (read_blocks ip k k off) (λ bs. pure (some bs)) s
                (read_blocks_lem s ip n m k k off (omega arith) (ground arith))
              ∙ ap (λ l. ok (some (bytes_from s ip off l)) s) count)
    ]
