-- ===== src/Spinlock/Sleep.antt =====
-- sleeplock.c: each function is a critical section of `lk->lk`.
use homework.Prelude.{ℕ, Bool, true, false, if◌then◌else◌}

pub record Sleeplock : Type 0 where
  pub locked : Bool
  pub pid : ℕ

unfoldable pub initsleeplock : Sleeplock
initsleeplock = record { locked = false; pid = 0 }

-- Whether the lock is taken, or the process sleeps and tries again when it is woken.
unfoldable pub acquiresleep : ℕ → Sleeplock → Bool × Sleeplock
acquiresleep pid lk = if lk.locked then (false, lk) else (true, record { locked = true; pid = pid })

-- Then `lk` is woken.
unfoldable pub releasesleep : Sleeplock → Sleeplock
releasesleep lk = record { locked = false; pid = 0 }

unfoldable pub holdingsleep : Sleeplock → Bool
holdingsleep lk = lk.locked
