-- ===== src/Pipe.antt =====
-- pipe.c: the ring buffer of a pipe, its reader and its writer.
-- One call of `pipewrite` or `piperead` here is one critical section under `p->lock`: from the lock's
-- acquisition (or the return from `sleep`) up to the next `sleep` or the return of the function.
-- `sleep` gives the lock up, and the `while` tests again after it, so what is left to do is the same
-- function at the bytes that are left. `killed` is the flag that `myproc()` has in that section.
mod Ring
pub mod Transfer
pub mod History
pub mod Wakeups
mod Examples
use homework.Prelude.{
  ℕ, zero, suc, ◌+◌, ◌-◌, ◌%◌, ◌^◌, Bool, true, false, not, ◌&&◌, ◌||◌, Option, none, some, List,
  [], ◌∷◌, ◌++◌, ◌==◌, if◌then◌else◌, length,
}
pub use Ring.{Pipe, pipesize, u32, used, IsValid}
unfoldable pub use Ring.{contents, is_full, is_empty, store, fetch}

-- What a process sleeps on: the addresses `&p->nread` and `&p->nwrite`.
pub data Chan : Type 0 where
  nread_chan nwrite_chan : Chan

-- How a critical section ends: `returned` with the result (`none` is -1), or `asleep` on a channel
-- with what is left to do; then the pipe, and the channels that were woken, in order.
pub data Outcome (R W : Type 0) : Type 0 where
  returned : Option R → Pipe → List Chan → Outcome R W
  asleep : Chan → W → Pipe → List Chan → Outcome R W

-- The `for` loop from byte `i` on; `total` is the argument `n`, `bytes` are `addr[i..n]`.
unfoldable pub write_from : Bool → ℕ → List ℕ → Pipe → Outcome ℕ (List ℕ)
unfolding is_full store
write_from killed total [] p = returned (some total) p (nread_chan ∷ [])
write_from killed total (b ∷ bytes) p =
    let rest = write_from killed total bytes (store b p) in
    if is_full p
    then (if not p.readopen || killed
        then returned none p []
        else asleep nwrite_chan (b ∷ bytes) p (nread_chan ∷ []))
    else rest

unfoldable pub pipewrite : Bool → List ℕ → Pipe → Outcome ℕ (List ℕ)
unfolding write_from
pipewrite killed addr p = write_from killed (length addr) addr p

-- The copying loop of `piperead`: at most `n` bytes, and the pipe after them.
unfoldable pub read_upto : ℕ → Pipe → List ℕ × Pipe
unfolding is_empty fetch
read_upto zero p = ([], p)
read_upto (suc n) p =
    let rest = read_upto n (fetch p).1 in
    if is_empty p then ([], p) else ((fetch p).0 ∷ rest.0, rest.1)

-- The bytes stand for what is written to `addr`; the C result is their number.
unfoldable pub piperead : Bool → ℕ → Pipe → Outcome (List ℕ) ℕ
unfolding read_upto
piperead killed n p =
    let r = read_upto n p in
    if is_empty p && p.writeopen
    then (if killed then returned none p [] else asleep nread_chan n p [])
    else returned (some r.0) r.1 (nwrite_chan ∷ [])

-- The pipe after closing one end, the channel woken, and whether its page is given to `kfree`.
unfoldable pub pipeclose : Pipe → Bool → Pipe × Chan × Bool
pipeclose p writable =
    if writable
    then (record p { writeopen = false }, nread_chan, not p.readopen)
    else (record p { readopen = false }, nwrite_chan, not p.writeopen)
