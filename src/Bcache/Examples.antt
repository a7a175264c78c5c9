-- ===== src/Bcache/Examples.antt =====
-- Runs of the buffer cache, and its theorems at concrete inputs.
use homework.Prelude.{
  ℕ, zero, suc, ◌<◌, ◌≤◌, ◌≡◌, refl, true, false, none, some, [], ◌∷◌, count, ◌==◌, if◌then◌else◌,
  arith,
}
use homework.Bcache.Defs.{
  Bcache, nbuf, head, Got, got, waits, panic, binit, bget, bget_found, brelse, drop_ref, scan,
  matches, is_free, settle,
}
use homework.Bcache.Links.{IsRing}
use homework.Bcache.Recent.{down, binit_lem, Released, brelse_lem}
use homework.Bcache.Contents.{IsCache}
use homework.Bcache.Caching.{Bget, bget_lem}

down-mem : (b k : ℕ) → b < k → 1 ≤ count b (down k)
down-mem b zero lt = absurd (omega arith)
down-mem b (suc k) lt = let ih = down-mem b k in ground arith

down-only : (b k : ℕ) → 1 ≤ count b (down k) → b < k
down-only b zero m = absurd (omega arith)
down-only b (suc k) m = let ih = down-only b k in ground arith

no_device : (b : ℕ) → (binit.buf b).dev ≡ 0
unfolding binit
no_device b = refl

binit-IsCache : IsCache binit (down nbuf)
binit-IsCache = record {
  ring = binit_lem;
  few = omega arith;
  all = λ b lt. down-mem b nbuf lt;
  only = λ b m. down-only b nbuf m;
  unique = λ b b' l l' nz ed eb. absurd (nz (no_device b));
}

-- The first block that is read gets buffer 0, the last of the list.
bget_lem_example : Bget binit (down nbuf) 1 5 (bget 1 5 binit)
bget_lem_example = bget_lem binit (down nbuf) 1 5 binit-IsCache

-- Block 5, block 6, and block 5 again.
abbrev after_got : Got → (Bcache → Got) → Got
after_got (got b c) k = k c
after_got (waits b c) k = panic
after_got panic k = panic

abbrev after_release : ℕ → (Bcache → Got) → Bcache → Got
after_release b k c = elim (brelse b c) [ none ↦ panic | some c' ↦ k c' ]

reads-test :
    elim (after_got
      (bget 1 5 binit)
      (after_release 0 (λ c. after_got (bget 1 6 c) (after_release 1 (bget 1 5))))) [
        | got b c ↦ b ∷ (c.buf b).refcnt ∷ c.next head ∷ c.next 1 ∷ c.prev head ∷ []
        | _ ↦ []
      ]
    ≡ 0 ∷ 1 ∷ 1 ∷ 0 ∷ 2 ∷ []
unfolding binit bget bget_found brelse scan matches is_free drop_ref settle
reads-test = refl

abbrev one_read : Bcache
one_read = record binit {
  buf = λ b.
      if b == 3
      then record { dev = 1; blockno = 5; refcnt = 1; valid = true; dirty = false; locked = true }
      else binit.buf b;
}

one_read-IsRing : IsRing one_read (down nbuf)
one_read-IsRing = record { path = binit_lem.path; once = binit_lem.once }

-- Buffer 3 is released.
brelse_lem_example :
    (c : Bcache) × (brelse 3 one_read ≡ some c)
    × Released 3 0
        (29 ∷ 28 ∷ 27 ∷ 26 ∷ 25 ∷ 24 ∷ 23 ∷ 22 ∷ 21 ∷ 20 ∷ 19 ∷ 18 ∷ 17 ∷ 16 ∷ 15 ∷ 14 ∷ 13 ∷ 12
          ∷ 11 ∷ 10 ∷ 9 ∷ 8 ∷ 7 ∷ 6 ∷ 5 ∷ 4 ∷ [])
        (2 ∷ 1 ∷ 0 ∷ [])
        one_read
        c
brelse_lem_example =
    brelse_lem 3 0
      (29 ∷ 28 ∷ 27 ∷ 26 ∷ 25 ∷ 24 ∷ 23 ∷ 22 ∷ 21 ∷ 20 ∷ 19 ∷ 18 ∷ 17 ∷ 16 ∷ 15 ∷ 14 ∷ 13 ∷ 12 ∷ 11
        ∷ 10 ∷ 9 ∷ 8 ∷ 7 ∷ 6 ∷ 5 ∷ 4 ∷ [])
      (2 ∷ 1 ∷ 0 ∷ []) one_read one_read-IsRing refl refl (omega arith)
