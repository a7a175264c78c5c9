-- ===== src/Console/Reading.antt =====
-- console.c: `consoleread` against the queue of typed bytes.
use homework.Prelude.{
  ℕ, zero, suc, ◌+◌, ◌%◌, ◌≡◌, refl, ap, ◌∙◌, true, false, Bool, Bool-cases, inl, inr, ◌==◌,
  if◌then◌else◌, List, [], ◌∷◌, arith,
}
use homework.Console.Defs.{
  Input, input_buf, u32, ctrl_d, newline, Read, returns, sleeps, fails, consoleread,
}
use homework.Console.Editing.{Shows}
use homework.Console.Keys.{Holds, test_true, test_false}

-- What a reader gets of a queue: bytes, the last one first, and what is left for others.
pub data Taken : Type 0 where
  takes : (got rest : List ℕ) → Taken
  waits : (n : ℕ) (got : List ℕ) → Taken
  gives_up : Taken

-- As many as `n` bytes, up to a newline, or to a ^D, which is left for a later read when bytes are before it.
unfoldable pub take_line : (killed : Bool) → (n : ℕ) → (got queue : List ℕ) → Taken
take_line killed zero got queue = takes got queue
take_line killed (suc n) got [] = if killed then gives_up else waits (suc n) got
take_line killed (suc n) got (x ∷ queue) = elim (x == ctrl_d) [
  | true ↦ elim got [ [] ↦ takes [] queue | b ∷ bs ↦ takes (b ∷ bs) (x ∷ queue) ]
  | false ↦ elim (x == newline) [
    | true ↦ takes (x ∷ got) queue
    | false ↦ take_line killed n (x ∷ got) queue
  ]
]

-- The ring holds a queue and the line `line`, after any number of bytes.
abbrev pub Left : List ℕ → List ℕ → Input → Type 0
Left queue line i = (k : ℕ) × Holds i k (record { queue = queue; line = line; woken = i.woken })

-- The code's outcome is the outcome on the queue, and the ring holds what is left of it.
pub data Agrees (line : List ℕ) : Read → Taken → Type 0 where
  took :
      (got rest : List ℕ) (i : Input)
      → Left rest line i
      → Agrees line (returns got i) (takes got rest)
  slept :
      (n : ℕ) (got : List ℕ) (i : Input)
      → Left [] line i
      → Agrees line (sleeps n got i) (waits n got)
  failed : (i : Input) → Left [] line i → Agrees line (fails i) gives_up

nothing_queued : (i : Input) (k : ℕ) (line : List ℕ) → Shows i k [] line → (i.r == i.w) ≡ true
nothing_queued i k line h = test_true i.r i.w (omega (arith, h.r, h.w))

some_queued :
    (i : Input) (k x : ℕ) (queue line : List ℕ) → Shows i k (x ∷ queue) line → (i.r == i.w) ≡ false
some_queued i k x queue line h = test_false i.r i.w (λ q. absurd (omega (arith, h.r, h.w, h.room)))

-- `input.buf[input.r++ % INPUT_BUF]` is the first byte of the queue.
first_byte :
    (i : Input) (k x : ℕ) (queue line : List ℕ)
    → Shows i k (x ∷ queue) line
    → i.buf (i.r % input_buf) ≡ x
first_byte i k x queue line h = ap i.buf (omega (arith, h.r)) ∙ h.bytes.0

fetched :
    (i : Input) (k x : ℕ) (queue line : List ℕ)
    → Holds i k (record { queue = x ∷ queue; line = line; woken = i.woken })
    → Holds
        (record i { r = u32 (i.r + 1) })
        (suc k)
        (record { queue = queue; line = line; woken = i.woken })
fetched i k x queue line h = record {
  shows = record {
    r = omega (arith, h.shows.r);
    w = omega (arith, h.shows.w);
    e = omega (arith, h.shows.e);
    room = omega (arith, h.shows.room);
    bytes = h.shows.bytes.1;
  };
  plain = h.plain;
  wakes = refl;
}

-- From a ring that holds a queue and a line, one section of `consoleread` takes what the queue has: bytes up
-- to the number asked for, a newline or a ^D, which stays when bytes are before it; or, when the queue ends
-- first, it sleeps, or fails if the process is killed. The ring then holds the rest of the queue, and the
-- same line.
pub consoleread_lem :
    (killed : Bool) (n : ℕ) (got : List ℕ) (i : Input) (queue line : List ℕ)
    → Left queue line i
    → Agrees line (consoleread killed n got i) (take_line killed n got queue)
unfolding consoleread take_line
consoleread_lem killed zero got i queue line h = took got queue i h
consoleread_lem true (suc n) got i [] line (k, h) =
    rw (nothing_queued i k line h.shows, consoleread) (failed i (k, h))
consoleread_lem false (suc n) got i [] line (k, h) =
    rw (nothing_queued i k line h.shows, consoleread) (slept (suc n) got i (k, h))
consoleread_lem killed (suc n) got i (x ∷ queue) line (k, h) =
    rw (some_queued i k x queue line h.shows, first, consoleread)
      elim (Bool-cases (x == ctrl_d)) [
        | inl end ↦ rw (end, take_line) (at_end got)
        | inr e₁ ↦
            rw (e₁, first, take_line)
              elim (Bool-cases (x == newline)) [
                | inl last ↦
                    rw (last, first) (took (x ∷ got) queue (record i { r = u32 (i.r + 1) }) left)
                | inr e₂ ↦
                    rw (e₂, first)
                      (consoleread_lem killed n (x ∷ got) (record i { r = u32 (i.r + 1) }) queue
                        line left)
              ]
      ]
  where
    first : i.buf (i.r % input_buf) ≡ x
    first = first_byte i k x queue line h.shows

    left : Left queue line (record i { r = u32 (i.r + 1) })
    left = (suc k, fetched i k x queue line h)

    at_end :
        (got : List ℕ)
        → Agrees line
            (elim got [
              | [] ↦ returns [] (record i { r = u32 (i.r + 1) })
              | b ∷ bs ↦ returns (b ∷ bs) i
            ])
            (elim got [ [] ↦ takes [] queue | b ∷ bs ↦ takes (b ∷ bs) (x ∷ queue) ])
    at_end [] = took [] queue (record i { r = u32 (i.r + 1) }) left
    at_end (b ∷ bs) = took (b ∷ bs) (x ∷ queue) i (k, h)
