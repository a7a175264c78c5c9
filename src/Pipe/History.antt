-- ===== src/Pipe/History.antt =====
-- Any interleaving of readers and writers of one pipe, section by section, and closings of its ends.
use homework.Prelude.{
  ℕ, ◌≡◌, refl, ap, sym, ◌∙◌, Bool, some, none, List, [], ◌∷◌, ◌++◌, append-nil, append_assoc,
  arith, true, false, ◌-◌, take, length, length-append,
}
use homework.Pipe.{
  Pipe, used, contents, IsValid, Outcome, returned, asleep, pipewrite, piperead, pipeclose,
}
use homework.Pipe.Ring.{length-contents, slice}
use homework.Pipe.Transfer.{Sent, pipewrite_lem, piperead_lem, WriteOutcome, ReadOutcome}

-- A pipe with all bytes that writers have handed over so far, and all that readers have got.
pub record Trace : Type 0 where
  pub pipe : Pipe
  pub sent : List ℕ
  pub got : List ℕ

-- `pipealloc`: both ends open, nothing written or read; the page's bytes are what `kalloc` left.
unfoldable pub fresh : (ℕ → ℕ) → Pipe
fresh page = record { bytes = page; nread = 0; nwrite = 0; readopen = true; writeopen = true }

abbrev pub pipe_after : {R W : Type 0} → Outcome R W → Pipe
pipe_after (returned r q wakes) = q
pipe_after (asleep c w q wakes) = q

-- What a reader's section delivered.
abbrev pub delivered : Outcome (List ℕ) ℕ → List ℕ
delivered (returned (some bytes) q wakes) = bytes
delivered (returned none q wakes) = []
delivered (asleep c w q wakes) = []

-- What a writer's section stored: as many of its bytes as the queue has grown.
unfoldable pub stored : Pipe → Pipe → List ℕ → List ℕ
stored p q addr = take (used q - used p) addr

pub data Step (t : Trace) : Trace → Type 0 where
  writes :
      (killed : Bool) (addr : List ℕ)
      → Step t (record t {
        pipe = pipe_after (pipewrite killed addr t.pipe);
        sent = t.sent ++ stored t.pipe (pipe_after (pipewrite killed addr t.pipe)) addr;
      })
  reads :
      (killed : Bool) (n : ℕ)
      → Step t (record t {
        pipe = pipe_after (piperead killed n t.pipe);
        got = t.got ++ delivered (piperead killed n t.pipe);
      })
  closes : (writable : Bool) → Step t (record t { pipe = (pipeclose t.pipe writable).0 })

abbrev pub start : (ℕ → ℕ) → Trace
start page = record { pipe = fresh page; sent = []; got = [] }

pub data Reach (page : ℕ → ℕ) : Trace → Type 0 where
  begin : Reach page (start page)
  later : {s t : Trace} → Reach page s → Step s t → Reach page t

-- The bytes handed over are those received and those still queued, in order.
pub record IsFifo (t : Trace) : Type 0 where
  pub valid : IsValid t.pipe
  pub order : t.sent ≡ t.got ++ contents t.pipe

take-append_length {ℓ} : {A : Type ℓ} (xs ys : List A) → take (length xs) (xs ++ ys) ≡ xs
take-append_length [] ys = refl
take-append_length (x ∷ xs) ys = ap (λ l. x ∷ l) (take-append_length xs ys)

stored_of_Sent :
    {p q : Pipe} {addr rest : List ℕ} → (s : Sent p q addr rest) → stored p q addr ≡ s.taken
unfolding stored
stored_of_Sent {p} {q} {addr} {rest} s =
    let grown : used q - used p ≡ length s.taken = omega (
      arith,
      ap length s.queue,
      length-append (contents p) s.taken,
      length-contents p,
      length-contents q,
    ) in
    rw (grown, s.split) (take-append_length s.taken rest)

IsFifo-Sent :
    (t : Trace) (q : Pipe) (addr rest : List ℕ)
    → IsFifo t
    → Sent t.pipe q addr rest
    → IsFifo (record t { pipe = q; sent = t.sent ++ stored t.pipe q addr })
IsFifo-Sent t q addr rest f s = record {
  valid = s.valid;
  order = rw (stored_of_Sent s, f.order, s.queue) (append_assoc t.got (contents t.pipe) s.taken);
}

IsFifo-write :
    (t : Trace) (killed : Bool) (total : ℕ) (addr : List ℕ) (o : Outcome ℕ (List ℕ))
    → IsFifo t
    → WriteOutcome killed total addr t.pipe o
    → IsFifo (record t { pipe = pipe_after o; sent = t.sent ++ stored t.pipe (pipe_after o) addr })
IsFifo-write t killed total addr (returned (some n) q w) f (s, _, _) = IsFifo-Sent t q addr [] f s
IsFifo-write t killed total addr (returned none q w) f ((rest, _, s), _, _, _) =
    IsFifo-Sent t q addr rest f s
IsFifo-write t killed total addr (asleep c rest q w) f (s, _, _, _, _, _, _) =
    IsFifo-Sent t q addr rest f s

IsFifo-read :
    (t : Trace) (killed : Bool) (n : ℕ) (o : Outcome (List ℕ) ℕ)
    → IsFifo t
    → ReadOutcome killed n t.pipe o
    → IsFifo (record t { pipe = pipe_after o; got = t.got ++ delivered o })
IsFifo-read t killed n (returned (some bytes) q w) f (r, _, _) = record {
  valid = r.valid;
  order = f.order ∙ ap (λ l. t.got ++ l) r.queue ∙ sym (append_assoc t.got bytes (contents q));
}
IsFifo-read t killed n (returned none q w) f (e, _, _, _, _) = rw (e, append-nil t.got) f
IsFifo-read t killed n (asleep c left q w) f (e, _, _, _, _, _, _) = rw (e, append-nil t.got) f

IsFifo-close :
    (t : Trace) (writable : Bool)
    → IsFifo t
    → IsFifo (record t { pipe = (pipeclose t.pipe writable).0 })
unfolding pipeclose contents
IsFifo-close t true f = record {
  valid = record {
    read_range = f.valid.read_range;
    write_range = f.valid.write_range;
    fits = f.valid.fits;
  };
  order = f.order;
}
IsFifo-close t false f = record {
  valid = record {
    read_range = f.valid.read_range;
    write_range = f.valid.write_range;
    fits = f.valid.fits;
  };
  order = f.order;
}

Step-IsFifo : {s t : Trace} → Step s t → IsFifo s → IsFifo t
Step-IsFifo {s} (writes killed addr) f =
    IsFifo-write s killed (length addr) addr _ f (pipewrite_lem killed addr s.pipe f.valid)
Step-IsFifo {s} (reads killed n) f =
    IsFifo-read s killed n _ f (piperead_lem killed n s.pipe f.valid)
Step-IsFifo {s} (closes writable) f = IsFifo-close s writable f

-- In any interleaving of sections of readers and writers, and of closings, from a new pipe on, the
-- bytes that readers have received, followed by those in the pipe, are the bytes that writers have
-- stored, in order, none lost, doubled or made up; and the pipe never holds more than 512.
pub Reach-IsFifo : {page : ℕ → ℕ} {t : Trace} → Reach page t → IsFifo t
unfolding fresh contents slice
Reach-IsFifo begin = record {
  valid = record { read_range = omega arith; write_range = omega arith; fits = omega arith };
  order = refl;
}
Reach-IsFifo (later r st) = Step-IsFifo st (Reach-IsFifo r)
