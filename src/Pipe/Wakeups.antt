-- ===== src/Pipe/Wakeups.antt =====
-- Who is woken when a writer gives up.
use homework.Prelude.{
  ℕ, ◌+◌, ◌<◌, ◌≡◌, true, none, List, [], ◌∷◌, arith, length, Bool-cases, inl, inr,
}
use homework.Pipe.{Pipe, pipesize, used, IsValid, is_full, store, returned, write_from, pipewrite}
use homework.Pipe.Ring.{store-IsValid, is_full-iff_used, used-store}

write_from_killed :
    (total : ℕ) (addr : List ℕ) (p : Pipe)
    → IsValid p
    → pipesize < used p + length addr
    → (q : Pipe) × (write_from true total addr p ≡ returned none q []) × (used q ≡ pipesize)
unfolding write_from
write_from_killed total [] p v h = absurd (omega (arith, v.fits))
write_from_killed total (b ∷ addr) p v h = elim (Bool-cases (is_full p)) [
  | inl full ↦ (p, ground arith, (is_full-iff_used p v).0 full)
  | inr room ↦
      let (q, e, f) =
        write_from_killed total addr (store b p) (store-IsValid p v b room)
          (omega (arith, used-store p v b room)) in
      (q, rw (room, write_from) e, f)
]

-- A killed process that writes more than there is room for fills the pipe and then fails without
-- waking anyone: also a reader that has slept since the pipe was empty sleeps on beside 512 bytes.
pub pipewrite_killed_silent :
    (addr : List ℕ) (p : Pipe)
    → IsValid p
    → pipesize < used p + length addr
    → (q : Pipe) × (pipewrite true addr p ≡ returned none q []) × (used q ≡ pipesize)
unfolding pipewrite
pipewrite_killed_silent addr p v h = write_from_killed (length addr) addr p v h
