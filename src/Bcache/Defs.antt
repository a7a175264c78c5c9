-- ===== src/Bcache/Defs.antt =====
-- bio.c: `binit`, `bget` and `brelse`. Pointers to buffers are indices, and `bcache.head` is NBUF. A
-- function is one critical section of `bcache.lock`, with the sleep lock taken at the end of `bget`.
use homework.Prelude.{
  ℕ, zero, suc, ◌+◌, ◌-◌, ◌%◌, ◌^◌, Bool, true, false, not, ◌&&◌, Option, none, some, ◌==◌,
  if◌then◌else◌, update,
}

-- `MAXOPBLOCKS*3`
abbrev pub nbuf : ℕ
nbuf = 30

abbrev pub head : ℕ
head = 30

-- `valid` and `dirty` are B_VALID and B_DIRTY of `flags`; the data are in Disk.
pub record Slot : Type 0 where
  pub dev : ℕ
  pub blockno : ℕ
  pub refcnt : ℕ
  pub valid : Bool
  pub dirty : Bool
  pub locked : Bool

pub record Bcache : Type 0 where
  pub buf : ℕ → Slot
  pub next : ℕ → ℕ
  pub prev : ℕ → ℕ

-- The four assignments that put `b` behind `head`.
unfoldable pub push_front : ℕ → Bcache → Bcache
push_front b c =
    let first = c.next head in
    record c {
      next = update (update c.next b first) head b;
      prev = update (update c.prev b head) first b;
    }

-- `b->next->prev = b->prev` and `b->prev->next = b->next`
unfoldable pub unlink : ℕ → Bcache → Bcache
unlink b c =
    let prev = update c.prev (c.next b) (c.prev b) in
    record c { prev = prev; next = update c.next (prev b) (c.next b) }

-- The loop of `binit` over the `k` buffers from `b` on.
unfoldable pub link_bufs : (k b : ℕ) → Bcache → Bcache
unfolding push_front
link_bufs zero b c = c
link_bufs (suc k) b c = link_bufs k (b + 1) (push_front b c)

-- Static memory is 0.
abbrev pub zero_slot : Slot
zero_slot = record {
  dev = 0;
  blockno = 0;
  refcnt = 0;
  valid = false;
  dirty = false;
  locked = false;
}

unfoldable pub binit : Bcache
unfolding link_bufs
binit = link_bufs nbuf 0 (record { buf = λ b. zero_slot; next = λ b. head; prev = λ b. head })

unfoldable pub matches : (dev blockno : ℕ) → Slot → Bool
matches dev blockno b = b.dev == dev && b.blockno == blockno

unfoldable pub is_free : Slot → Bool
is_free b = b.refcnt == 0 && not b.dirty

-- The loops of `bget` from buffer `b` on, along `step`: the first buffer that passes the test.
unfoldable pub scan : (step : ℕ → ℕ) → (ℕ → Bool) → (fuel b : ℕ) → Option ℕ
scan step test zero b = none
scan step test (suc fuel) b = elim (b == head) [
  | true ↦ none
  | false ↦ elim (test b) [ true ↦ some b | false ↦ scan step test fuel (step b) ]
]

-- With the buffer locked, or waiting for its lock.
pub data Got : Type 0 where
  got : ℕ → Bcache → Got
  waits : ℕ → Bcache → Got
  panic : Got

abbrev pub set_slot : ℕ → Slot → Bcache → Bcache
set_slot b v c = record c { buf = update c.buf b v }

unfoldable pub acquiresleep : ℕ → Bcache → Got
acquiresleep b c =
    if (c.buf b).locked
    then waits b c
    else got b (set_slot b (record (c.buf b) { locked = true }) c)

unfoldable pub hit : ℕ → Bcache → Bcache
hit b c = set_slot b (record (c.buf b) { refcnt = ((c.buf b).refcnt + 1) % 2 ^ 32 }) c

unfoldable pub recycled : (dev blockno : ℕ) → Slot → Slot
recycled dev blockno b = record b {
  dev = dev;
  blockno = blockno;
  valid = false;
  dirty = false;
  refcnt = 1;
}

-- The first loop has found `r`, or else the second one `r'`.
unfoldable pub bget_found : (dev blockno : ℕ) → (r r' : Option ℕ) → Bcache → Got
unfolding acquiresleep hit recycled
bget_found dev blockno (some b) r' c = acquiresleep b (hit b c)
bget_found dev blockno none none c = panic
bget_found dev blockno none (some b) c =
    acquiresleep b (set_slot b (recycled dev blockno (c.buf b)) c)

-- A list of NBUF buffers is passed in NBUF rounds.
unfoldable pub bget : (dev blockno : ℕ) → Bcache → Got
bget dev blockno c =
    bget_found dev blockno (scan c.next (λ b. matches dev blockno (c.buf b)) nbuf (c.next head))
      (scan c.prev (λ b. is_free (c.buf b)) nbuf (c.prev head)) c

-- `b->refcnt--`, on a `uint`
unfoldable pub drop_ref : ℕ → Bcache → Bcache
drop_ref b c =
    set_slot b
      (record (c.buf b) { locked = false; refcnt = ((c.buf b).refcnt + (2 ^ 32 - 1)) % 2 ^ 32 }) c

-- With no reference left, the buffer moves to the front.
unfoldable pub settle : ℕ → Bcache → Bcache
unfolding unlink push_front
settle b c = if (c.buf b).refcnt == 0 then push_front b (unlink b c) else c

-- `none` is a panic.
unfoldable pub brelse : ℕ → Bcache → Option Bcache
brelse b c = if (c.buf b).locked then some (settle b (drop_ref b c)) else none
