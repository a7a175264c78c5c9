-- ===== src/Log/Defs.antt =====
-- log.c: the log in memory, and what commits and recovers it.
use homework.Prelude.{
  ℕ, zero, suc, ◌+◌, ◌-◌, ◌*◌, Bool, true, false, ◌||◌, Option, none, some, leb, ◌==◌, ltb,
  if◌then◌else◌, update,
}
use homework.Disk.{Block, panic, M, ◌>>=◌, ◌>>◌, pure, bread, bwrite, set_data, set_dirty}

abbrev pub maxopblocks : ℕ
maxopblocks = 10

abbrev pub logsize : ℕ
logsize = maxopblocks * 3

-- `struct logheader` in memory.
pub record Header : Type 0 where
  pub n : ℕ
  pub block : ℕ → ℕ

-- `struct log`, without its lock and device: every section here runs under `log.lock` or with
-- `committing` set.
pub record Log : Type 0 where
  pub start : ℕ
  pub size : ℕ
  pub outstanding : ℕ
  pub committing : Bool
  pub lh : Header

-- `for (tail = i; tail < i + k; tail++) body(tail)`
unfoldable pub for_blocks : (ℕ → M (Unit {0})) → ℕ → ℕ → M (Unit {0})
for_blocks body zero tail = pure tt
for_blocks body (suc k) tail = body tail >> for_blocks body k (tail + 1)

unfoldable pub install_block : Log → ℕ → M (Unit {0})
install_block l tail = do
  lbuf ← bread (l.start + tail + 1)
  dbuf ← bread (l.lh.block tail)
  set_data (l.lh.block tail) lbuf
  bwrite (l.lh.block tail)

unfoldable pub install_trans : Log → M (Unit {0})
unfolding for_blocks install_block
install_trans l = for_blocks (install_block l) l.lh.n 0

-- The header words of `buf`, copied.
unfoldable pub read_head : Log → M Log
read_head l = do
  buf ← bread l.start
  pure (record l { lh = record { n = buf 0; block = λ i. buf (i + 1) } })

-- `for (i = 0; i < k; i++) hb->block[i] = block[i]`
unfoldable pub fill_header : (ℕ → ℕ) → ℕ → Block → Block
fill_header block zero hb = hb
fill_header block (suc k) hb = update (fill_header block k hb) (k + 1) (block k)

unfoldable pub write_head : Log → M (Unit {0})
unfolding fill_header
write_head l = do
  buf ← bread l.start
  set_data l.start (fill_header l.lh.block l.lh.n (update buf 0 l.lh.n))
  bwrite l.start

abbrev pub cleared : Log → Log
cleared l = record l { lh = record { n = 0; block = l.lh.block } }

unfoldable pub recover_from_log : Log → M Log
unfolding read_head install_trans write_head
recover_from_log l = do
  l' ← read_head l
  install_trans l'
  write_head (cleared l')
  pure (cleared l')

unfoldable pub log_block : Log → ℕ → M (Unit {0})
log_block l tail = do
  to ← bread (l.start + tail + 1)
  from ← bread (l.lh.block tail)
  set_data (l.start + tail + 1) from
  bwrite (l.start + tail + 1)

unfoldable pub write_log : Log → M (Unit {0})
unfolding for_blocks log_block
write_log l = for_blocks (log_block l) l.lh.n 0

unfoldable pub commit : Log → M Log
unfolding write_log write_head install_trans
commit l =
    if ltb 0 l.lh.n
    then (do write_log l; write_head l; install_trans l; write_head (cleared l); pure (cleared l))
    else pure l

-- `for (i = 0; i < n; i++) if (block[i] == b) break;` from `i` on, with `k` rounds left.
unfoldable pub find_entry : (ℕ → ℕ) → ℕ → ℕ → ℕ → ℕ
find_entry block b zero i = i
find_entry block b (suc k) i =
    let rest = find_entry block b k (i + 1) in if block i == b then i else rest

-- The part of `log_write` that changes the log; `none` is a panic.
unfoldable pub log_entry : Log → ℕ → Option Log
unfolding find_entry
log_entry l b =
    let i = find_entry l.lh.block b l.lh.n 0 in
    if leb logsize l.lh.n || leb (l.size - 1) l.lh.n
    then none
    else (if ltb l.outstanding 1
        then none
        else some (record l {
          lh = record {
            n = if i == l.lh.n then l.lh.n + 1 else l.lh.n;
            block = update l.lh.block i b;
          };
        }))

unfoldable pub log_write : Log → ℕ → M Log
log_write l b s = elim (log_entry l b) [ none ↦ panic | some l' ↦ (set_dirty b >> pure l') s ]

-- One round of the loop of `begin_op`; `none` is `sleep(&log, &log.lock)`, after which it is made
-- again.
unfoldable pub begin_op : Log → Option Log
begin_op l =
    if l.committing
    then none
    else (if ltb logsize (l.lh.n + (l.outstanding + 1) * maxopblocks)
        then none
        else some (record l { outstanding = l.outstanding + 1 }))

-- The first critical section of `end_op`: the log and `do_commit`; `none` is a panic.
unfoldable pub end_op_start : Log → Option (Log × Bool)
end_op_start l =
    if l.committing
    then none
    else (if l.outstanding - 1 == 0
        then some (record l { outstanding = l.outstanding - 1; committing = true }, true)
        else some (record l { outstanding = l.outstanding - 1 }, false))

-- The last one.
unfoldable pub end_op_finish : Log → Log
end_op_finish l = record l { committing = false }

unfoldable pub end_op : Log → M Log
unfolding end_op_start commit end_op_finish
end_op l s = elim (end_op_start l) [
  | none ↦ panic
  | some (l', do_commit) ↦
      (if do_commit then (do l'' ← commit l'; pure (end_op_finish l'')) else pure l') s
]
