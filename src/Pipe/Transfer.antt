-- ===== src/Pipe/Transfer.antt =====
-- What one critical section of the writer, and of the reader, does to the queue.
use Prim.Native.Nat.{min}
use homework.Prelude.{
  ℕ, zero, suc, ◌%◌, ◌≡◌, ◌≢◌, ◌⊎◌, inl, inr, refl, ap, sym, ◌∙◌, Bool, true, false, not, ◌||◌,
  none, some, List, [], ◌∷◌, ◌++◌, append-nil, append_assoc, arith, length, Bool-cases,
  if◌then◌else◌,
}
use homework.Pipe.{
  Pipe, pipesize, used, contents, IsValid, is_full, is_empty, store, fetch, nread_chan, nwrite_chan,
  Outcome, returned, asleep, write_from, pipewrite, read_upto, piperead,
}
use homework.Pipe.Ring.{
  is_empty-iff_used, store-IsValid, fetch-IsValid, contents-store, contents-fetch, contents_empty,
  length-contents,
}

-- Only the writer's counter and the bytes differ: the reader's side is untouched.
pub record SameEnds (p q : Pipe) : Type 0 where
  pub readopen : q.readopen ≡ p.readopen
  pub writeopen : q.writeopen ≡ p.writeopen

-- The bytes `taken` of `addr` went to the end of the queue, and `rest` is left.
pub record Sent (p q : Pipe) (addr rest : List ℕ) : Type 0 where
  pub valid : IsValid q
  pub ends : SameEnds p q
  pub taken : List ℕ
  pub split : addr ≡ taken ++ rest
  pub queue : contents q ≡ contents p ++ taken

abbrev pub WriteOutcome : Bool → ℕ → List ℕ → Pipe → Outcome ℕ (List ℕ) → Type 0
WriteOutcome killed total addr p (returned (some n) q wakes) =
    Sent p q addr [] × (n ≡ total) × (wakes ≡ nread_chan ∷ [])
WriteOutcome killed total addr p (returned none q wakes) =
    ((rest : List ℕ) × (rest ≢ []) × Sent p q addr rest)
    × (is_full q ≡ true)
    × ((p.readopen ≡ false) ⊎ (killed ≡ true))
    × (wakes ≡ [])
WriteOutcome killed total addr p (asleep c rest q wakes) =
    Sent p q addr rest
    × (rest ≢ [])
    × (c ≡ nwrite_chan)
    × (is_full q ≡ true)
    × (p.readopen ≡ true)
    × (killed ≡ false)
    × (wakes ≡ nread_chan ∷ [])

Sent-none : (p : Pipe) (addr : List ℕ) → IsValid p → Sent p p addr addr
Sent-none p addr v = record {
  valid = v;
  ends = record { readopen = refl; writeopen = refl };
  taken = [];
  split = refl;
  queue = sym (append-nil (contents p));
}

Sent-store :
    {p q : Pipe} {b : ℕ} {addr rest : List ℕ}
    → IsValid p
    → is_full p ≡ false
    → Sent (store b p) q addr rest
    → Sent p q (b ∷ addr) rest
unfolding store
Sent-store {p} {b} v room s = record {
  valid = s.valid;
  ends = record { readopen = s.ends.readopen; writeopen = s.ends.writeopen };
  taken = b ∷ s.taken;
  split = ap (λ l. b ∷ l) s.split;
  queue =
      s.queue
      ∙ ap (λ l. l ++ s.taken) (contents-store p v b room)
      ∙ append_assoc (contents p) (b ∷ []) s.taken;
}

WriteOutcome-store :
    (killed : Bool) (total : ℕ) (b : ℕ) (addr : List ℕ) (p : Pipe) (o : Outcome ℕ (List ℕ))
    → IsValid p
    → is_full p ≡ false
    → WriteOutcome killed total addr (store b p) o
    → WriteOutcome killed total (b ∷ addr) p o
unfolding store
WriteOutcome-store killed total b addr p (returned (some n) q wakes) v room (s, k, e) =
    (Sent-store v room s, k, e)
WriteOutcome-store killed total b addr p (returned none q wakes) v room
      ((rest, ne, s), full, why, e) =
    ((rest, ne, Sent-store v room s), full, why, e)
WriteOutcome-store killed total b addr p (asleep c rest q wakes) v room (s, ne, a, b', c', d, e) =
    (Sent-store v room s, ne, a, b', c', d, e)

write_from_lem :
    (killed : Bool) (total : ℕ) (addr : List ℕ) (p : Pipe)
    → IsValid p
    → WriteOutcome killed total addr p (write_from killed total addr p)
unfolding write_from
write_from_lem killed total [] p v = (Sent-none p [] v, refl, refl)
write_from_lem killed total (b ∷ addr) p v = elim (Bool-cases (is_full p)) [
  | inl full ↦ rw (full, write_from) (stopped (Bool-cases (not p.readopen || killed)) full)
  | inr room ↦
      rw (room, write_from)
        (WriteOutcome-store killed total b addr p _ v room
          (write_from_lem killed total addr (store b p) (store-IsValid p v b room)))
]
  where
    stopped :
        ((not p.readopen || killed) ≡ true) ⊎ ((not p.readopen || killed) ≡ false)
        → is_full p ≡ true
        → WriteOutcome killed total (b ∷ addr) p (
            if not p.readopen || killed
            then returned none p []
            else asleep nwrite_chan (b ∷ addr) p (nread_chan ∷ []))
    stopped (inl e) full =
        rw e (((b ∷ addr, λ q. cc, Sent-none p (b ∷ addr) v), full, ground arith, refl))
    stopped (inr e) full =
        rw e (Sent-none p (b ∷ addr) v, λ q. cc, refl, full, ground arith, ground arith, refl)

-- One section of `pipewrite` on a valid pipe puts a prefix of the bytes at the end of the queue and
-- keeps the pipe valid and its ends as they are. It returns the count when the prefix is everything,
-- and has then woken the readers; it sleeps with the rest, on `nwrite`, only when the pipe is full,
-- its read end open and the process not killed, and has then woken the readers too; it fails only
-- when the pipe is full with bytes left and the read end is closed or the process killed.
pub pipewrite_lem :
    (killed : Bool) (addr : List ℕ) (p : Pipe)
    → IsValid p
    → WriteOutcome killed (length addr) addr p (pipewrite killed addr p)
unfolding pipewrite
pipewrite_lem killed addr p v = write_from_lem killed (length addr) addr p v

-- What the reader takes leaves the front of the queue, as many bytes as asked for and there.
pub record Received (p : Pipe) (n : ℕ) (got : List ℕ) (q : Pipe) : Type 0 where
  pub valid : IsValid q
  pub ends : SameEnds p q
  pub queue : contents p ≡ got ++ contents q
  pub count : length got ≡ min n (used p)

Received-fetch :
    (p : Pipe) (n : ℕ) (got : List ℕ) (q : Pipe)
    → IsValid p
    → is_empty p ≡ false
    → Received (fetch p).1 n got q
    → Received p (suc n) ((fetch p).0 ∷ got) q
unfolding fetch
Received-fetch p n got q v some_used r = record {
  valid = r.valid;
  ends = record { readopen = r.ends.readopen; writeopen = r.ends.writeopen };
  queue = contents-fetch p v some_used ∙ ap (λ l. p.bytes (p.nread % pipesize) ∷ l) r.queue;
  count = omega (arith, r.count, used_before, length-contents p, length-contents (fetch p).1);
}
  where
    used_before : length (contents p) ≡ suc (length (contents (fetch p).1))
    used_before = ap length (contents-fetch p v some_used)

read_upto_lem : (n : ℕ) (p : Pipe) → IsValid p → Received p n (read_upto n p).0 (read_upto n p).1
unfolding read_upto
read_upto_lem zero p v = record {
  valid = v;
  ends = record { readopen = refl; writeopen = refl };
  queue = refl;
  count = omega arith;
}
read_upto_lem (suc n) p v = elim (Bool-cases (is_empty p)) [
  | inl empty ↦
      rw (empty, read_upto)
        (record {
          valid = v;
          ends = record { readopen = refl; writeopen = refl };
          queue = refl;
          count = omega (arith, (is_empty-iff_used p v).0 empty);
        })
  | inr some_used ↦
      rw (some_used, read_upto)
        (Received-fetch p n _ _ v some_used
          (read_upto_lem n (fetch p).1 (fetch-IsValid p v some_used)))
]

abbrev pub ReadOutcome : Bool → ℕ → Pipe → Outcome (List ℕ) ℕ → Type 0
ReadOutcome killed n p (returned (some got) q wakes) =
    Received p n got q × ((is_empty p ≡ false) ⊎ (p.writeopen ≡ false)) × (wakes ≡ nwrite_chan ∷ [])
ReadOutcome killed n p (returned none q wakes) =
    (q ≡ p) × (contents p ≡ []) × (p.writeopen ≡ true) × (killed ≡ true) × (wakes ≡ [])
ReadOutcome killed n p (asleep c left q wakes) =
    (q ≡ p)
    × (contents p ≡ [])
    × (p.writeopen ≡ true)
    × (killed ≡ false)
    × (c ≡ nread_chan)
    × (left ≡ n)
    × (wakes ≡ [])

-- One section of `piperead` on a valid pipe returns with the first bytes of the queue, as many as
-- asked for and there (none at the end of file), leaves the others, and wakes the writers. It sleeps
-- on `nread`, or fails, only when the queue is empty and the write end open, and then changes
-- nothing: it fails if the process is killed, and sleeps if not.
pub piperead_lem :
    (killed : Bool) (n : ℕ) (p : Pipe) → IsValid p → ReadOutcome killed n p (piperead killed n p)
unfolding piperead
piperead_lem killed n p v = elim (Bool-cases (is_empty p)) [
  | inl empty ↦ elim (Bool-cases p.writeopen) [
    | inl open_end ↦ simp (empty, open_end) (waits killed empty open_end)
    | inr closed ↦ simp (empty, closed) (read_upto_lem n p v, inr refl, refl)
  ]
  | inr some_used ↦ rw (some_used) (read_upto_lem n p v, inl some_used, refl)
]
  where
    waits :
        (killed : Bool)
        → is_empty p ≡ true
        → p.writeopen ≡ true
        → ReadOutcome killed n p (if killed then returned none p [] else asleep nread_chan n p [])
    waits true empty open_end = (refl, contents_empty p v empty, open_end, refl, refl)
    waits false empty open_end = (refl, contents_empty p v empty, open_end, refl, refl, refl, refl)
