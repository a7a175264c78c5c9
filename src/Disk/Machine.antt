-- ===== src/Disk/Machine.antt =====
-- bio.c: bread, bwrite; memide.c: iderw; as state passing, with panics and power failures.
use homework.Prelude.{ℕ, zero, suc, Bool, true, false, not, ◌&&◌, leb, if◌then◌else◌, update}

abbrev pub Block : Type 0
Block = ℕ → ℕ

-- FSSIZE
abbrev pub fssize : ℕ
fssize = 1000

-- The data and the flags B_VALID and B_DIRTY of the buffer of a block.
pub record Buf : Type 0 where
  pub contents : Block
  pub valid : Bool
  pub dirty : Bool

pub record Disk : Type 0 where
  pub disk : ℕ → Block
  pub buf : ℕ → Buf
  pub writes_left : ℕ

-- A power failure leaves the contents of the disk only.
pub data Outcome (A : Type 0) : Type 0 where
  ok : A → Disk → Outcome A
  crash : (ℕ → Block) → Outcome A
  panic : Outcome A

abbrev pub M : Type 0 → Type 0
M A = Disk → Outcome A

module _ {A B : Type 0} where
  abbrev pub and_then : Outcome A → (A → M B) → Outcome B
  and_then (ok a s) k = k a s
  and_then (crash d) k = crash d
  and_then panic k = panic

  infixl 5 ◌>>=◌ ◌>>◌
  abbrev pub ◌>>=◌ : M A → (A → M B) → M B
  m >>= k = λ s. and_then (m s) k

  abbrev pub ◌>>◌ : M A → M B → M B
  m >> k = m >>= λ _. k

abbrev pub pure : {A : Type 0} → A → M A
pure = ok

-- The write of `iderw`: the power may fail first.
unfoldable pub write_out : ℕ → ℕ → M (Unit {0})
write_out zero b s = crash s.disk
write_out (suc left) b s = ok tt (record s {
  disk = update s.disk b (s.buf b).contents;
  buf = update s.buf b (record { contents = (s.buf b).contents; valid = true; dirty = false });
  writes_left = left;
})

unfoldable pub read_in : ℕ → M (Unit {0})
read_in b s = ok tt (record s {
  buf = update s.buf b (record { contents = s.disk b; valid = true; dirty = false });
})

unfoldable pub iderw : ℕ → M (Unit {0})
unfolding write_out read_in
iderw b s =
    if (s.buf b).valid && not (s.buf b).dirty
    then panic
    else (if leb fssize b
        then panic
        else (if (s.buf b).dirty then write_out s.writes_left b s else read_in b s))

abbrev pub get_data : ℕ → M Block
get_data b s = ok (s.buf b).contents s

-- The result is the data of the buffer that `bread` returns.
unfoldable pub bread : ℕ → M Block
unfolding iderw
bread b s = (if (s.buf b).valid then get_data b s else (iderw b >> get_data b) s)

-- Changes to the data and the flag of a buffer in memory.
unfoldable pub set_data : ℕ → Block → M (Unit {0})
set_data b x s = ok tt (record s { buf = update s.buf b (record (s.buf b) { contents = x }) })

unfoldable pub set_dirty : ℕ → M (Unit {0})
set_dirty b s = ok tt (record s { buf = update s.buf b (record (s.buf b) { dirty = true }) })

unfoldable pub bwrite : ℕ → M (Unit {0})
unfolding iderw set_dirty
bwrite b = do set_dirty b; iderw b

-- The machine after a power failure: no buffer is valid.
unfoldable pub power_on : (ℕ → Block) → ℕ → Disk
power_on d left = record {
  disk = d;
  buf = λ b. record { contents = λ w. 0; valid = false; dirty = false };
  writes_left = left;
}
