-- ===== src/Console/Keys.antt =====
-- console.c: the keys against an editor of one line before a queue of lines that are typed.
use homework.Prelude.{
  ℕ, zero, suc, ◌+◌, ◌-◌, ◌%◌, ◌^◌, ◌≤◌, ◌<◌, ◌≡◌, ◌≢◌, refl, sym, ap, ◌∙◌, subst, inl, inr, true,
  false, Bool, Bool-cases, not, ◌&&◌, ◌||◌, ltb, ◌==◌, if◌then◌else◌, List, [], ◌∷◌, ◌++◌,
  append-nil, length, length-append, count, count-append, arith,
}
use homework.Console.Defs.{
  Input, input_buf, u32, ctrl_d, ctrl_h, ctrl_p, ctrl_u, newline, to_newline, erase, kill_line, put,
  commit_line, has_room, key, consoleintr,
}
use homework.Console.Editing.{Shows, Spells, snoc_view, last_byte, erase-Shows, put-Shows}

-- `queue` waits for readers, who are `woken` when it grows; the keys still edit `line`.
pub record Typed : Type 0 where
  pub queue : List ℕ
  pub line : List ℕ
  pub woken : Bool

unfoldable pub drop_last : List ℕ → List ℕ
drop_last [] = []
drop_last (x ∷ []) = []
drop_last (x ∷ y ∷ xs) = x ∷ drop_last (y ∷ xs)

-- What a key does when it is no control key: it is typed, and may end the line.
unfoldable pub enter : ℕ → Typed → Typed
enter c t =
    if c == newline || (c == ctrl_d || length t.queue + length (t.line ++ c ∷ []) == input_buf)
    then record { queue = t.queue ++ (t.line ++ c ∷ []); line = []; woken = true }
    else record t { line = t.line ++ c ∷ [] }

unfoldable pub press : ℕ → Typed → Typed
unfolding drop_last enter
press c t =
    if c == ctrl_p
    then t
    else (if c == ctrl_u
        then record t { line = [] }
        else (if c == ctrl_h || c == 127
            then record t { line = drop_last t.line }
            else (if not (c == 0) && ltb (length t.queue + length t.line) input_buf
                then enter (to_newline c) t
                else t)))

-- The ring after `k` bytes are read holds `t`, and no newline is in the line that is edited.
pub record Holds (i : Input) (k : ℕ) (t : Typed) : Type 0 where
  pub shows : Shows i k t.queue t.line
  pub plain : count newline t.line ≡ 0
  pub wakes : i.woken ≡ t.woken

drop_last-append : (xs : List ℕ) (x : ℕ) → drop_last (xs ++ x ∷ []) ≡ xs
unfolding drop_last
drop_last-append [] x = refl
drop_last-append (y ∷ []) x = refl
drop_last-append (y ∷ z ∷ xs) x = ap (λ ys. y ∷ ys) (drop_last-append (z ∷ xs) x)

pub test_true : (a b : ℕ) → a ≡ b → (a == b) ≡ true
test_true a b e = ground (arith, e)

pub test_false : (a b : ℕ) → a ≢ b → (a == b) ≡ false
test_false a b ne = ground (arith, ne)

-- The edit index is the write index when the line is empty.
at_start : (i : Input) (k : ℕ) (queue : List ℕ) → Shows i k queue [] → (i.e == i.w) ≡ true
at_start i k queue h = test_true i.e i.w (omega (arith, h.e, h.w))

past_start :
    (i : Input) (k x : ℕ) (queue line : List ℕ)
    → Shows i k queue (line ++ x ∷ [])
    → (i.e == i.w) ≡ false
past_start i k x queue line h =
    test_false i.e i.w (λ q. absurd (omega (arith, h.e, h.w, h.room, length-append line (x ∷ []))))

plain_front : (line : List ℕ) (x : ℕ) → count newline (line ++ x ∷ []) ≡ 0 → count newline line ≡ 0
plain_front line x e = omega (arith, e, count-append newline line (x ∷ []))

-- Backspace.
erase_lem :
    (i : Input) (k : ℕ) (queue line : List ℕ)
    → Shows i k queue line
    → count newline line ≡ 0
    → Holds
        (if i.e == i.w then i else erase i)
        k
        (record { queue = queue; line = drop_last line; woken = i.woken })
unfolding drop_last erase
erase_lem i k queue line = elim (snoc_view line) [
  | inl e ↦
      subst
        (λ l.
          Shows i k queue l
          → count newline l ≡ 0
          → Holds (if i.e == i.w then i else erase i) k
              (record { queue = queue; line = drop_last l; woken = i.woken }))
        (sym e) empty
  | inr (front, x, e) ↦
      subst
        (λ l.
          Shows i k queue l
          → count newline l ≡ 0
          → Holds (if i.e == i.w then i else erase i) k
              (record { queue = queue; line = drop_last l; woken = i.woken }))
        (sym e) (last front x)
]
  where
    empty :
        Shows i k queue []
        → count newline [] ≡ 0
        → Holds
            (if i.e == i.w then i else erase i)
            k
            (record { queue = queue; line = drop_last []; woken = i.woken })
    empty s p = rw (at_start i k queue s) (record { shows = s; plain = p; wakes = refl })

    last :
        (front : List ℕ) (x : ℕ)
        → Shows i k queue (front ++ x ∷ [])
        → count newline (front ++ x ∷ []) ≡ 0
        → Holds
            (if i.e == i.w then i else erase i)
            k
            (record { queue = queue; line = drop_last (front ++ x ∷ []); woken = i.woken })
    last front x s p =
        rw (past_start i k x queue front s, drop_last-append front x)
          (record {
            shows = erase-Shows i k x queue front s;
            plain = plain_front front x p;
            wakes = refl;
          })

-- ^U stops at the write index, for no newline is before.
kill_line_lem :
    (rounds : ℕ) (i : Input) (k : ℕ) (queue line : List ℕ)
    → length line ≤ rounds
    → Shows i k queue line
    → count newline line ≡ 0
    → Shows (kill_line rounds i) k queue []
unfolding kill_line
kill_line_lem zero i k queue [] le s p = s
kill_line_lem zero i k queue (x ∷ line) le s p = absurd (omega arith)
kill_line_lem (suc rounds) i k queue line le s p = elim (snoc_view line) [
  | inl e ↦ let s' = subst (Shows i k queue) e s in rw (at_start i k queue s', kill_line) s'
  | inr (front, x, e) ↦
      let s' = subst (Shows i k queue) e s in
      let p' = subst (λ l. count newline l ≡ 0) e p in
      rw (past_start i k x queue front s', not_newline x front s' p', kill_line)
        (kill_line_lem rounds (erase i) k queue front
          (omega (arith, le, ap length e, length-append front (x ∷ [])))
          (erase-Shows i k x queue front s') (plain_front front x p'))
]
  where
    not_newline :
        (x : ℕ) (front : List ℕ)
        → Shows i k queue (front ++ x ∷ [])
        → count newline (front ++ x ∷ []) ≡ 0
        → (i.buf (u32 (i.e + (2 ^ 32 - 1)) % input_buf) == newline) ≡ false
    not_newline x front s' p' =
        test_false (i.buf (u32 (i.e + (2 ^ 32 - 1)) % input_buf)) newline (λ q. absurd (
          ground
            (arith, count-append newline front (x ∷ []), last_byte i k x queue front s', q, p')))

kill_line-woken : (rounds : ℕ) (i : Input) → (kill_line rounds i).woken ≡ i.woken
unfolding kill_line erase
kill_line-woken zero i = refl
kill_line-woken (suc rounds) i =
    elim (Bool-cases (i.e == i.w || i.buf (u32 (i.e + (2 ^ 32 - 1)) % input_buf) == newline)) [
      | inl stops ↦ rw (stops, kill_line) refl
      | inr goes_on ↦ rw (goes_on, kill_line) (kill_line-woken rounds (erase i))
    ]

-- `input.e-input.r` is the length of what is in the ring.
room_lem :
    (i : Input) (k : ℕ) (queue line : List ℕ)
    → Shows i k queue line
    → has_room i ≡ ltb (length queue + length line) input_buf
unfolding has_room
room_lem i k queue line h = ap (λ n. ltb n input_buf) (omega (arith, h.e, h.r, h.room))

-- `input.e == input.r+INPUT_BUF`
full_lem :
    (i : Input) (k : ℕ) (queue line : List ℕ)
    → Shows i k queue line
    → (i.e == u32 (i.r + input_buf)) ≡ (length queue + length line == input_buf)
full_lem i k queue line h = ground (arith, h.e, h.r, h.room)

commit_lem :
    (i : Input) (k : ℕ) (queue line : List ℕ)
    → Shows i k queue line
    → Shows (record i { w = i.e; woken = true }) k (queue ++ line) []
commit_lem i k queue line h = record {
  r = h.r;
  w = omega (arith, h.e, length-append queue line);
  e = omega (arith, h.e, length-append queue line);
  room = omega (arith, h.room, length-append queue line);
  bytes = subst (Spells i.buf k) (sym (append-nil (queue ++ line))) h.bytes;
}

-- A typed character.
enter_lem :
    (i : Input) (k c : ℕ) (t : Typed)
    → length t.queue + length t.line < input_buf
    → Holds i k t
    → Holds (commit_line c (put c i)) k (enter c t)
unfolding commit_line enter put
enter_lem i k c t lt h = elim (Bool-cases (c == newline)) [
  | inl ends ↦ rw ends committed
  | inr other ↦
      rw (other, full_lem (put c i) k t.queue (t.line ++ c ∷ []) typed)
        elim (Bool-cases (c == ctrl_d || length t.queue + length (t.line ++ c ∷ []) == input_buf)) [
          | inl ends ↦ rw ends committed
          | inr goes_on ↦ rw goes_on (record {
            shows = typed;
            plain = ground (arith, h.plain, other, count-append newline t.line (c ∷ []));
            wakes = h.wakes;
          })
        ]
]
  where
    typed : Shows (put c i) k t.queue (t.line ++ c ∷ [])
    typed = put-Shows i k c t.queue t.line lt h.shows

    committed :
        Holds
          (record (put c i) { w = (put c i).e; woken = true })
          k
          (record { queue = t.queue ++ (t.line ++ c ∷ []); line = []; woken = true })
    committed = record {
      shows = commit_lem (put c i) k t.queue (t.line ++ c ∷ []) typed;
      plain = refl;
      wakes = refl;
    }

pub key_lem : (c : ℕ) (i : Input) (k : ℕ) (t : Typed) → Holds i k t → Holds (key c i) k (press c t)
unfolding key press
key_lem c i k t h = elim (Bool-cases (c == ctrl_p)) [
  | inl listing ↦ rw listing h
  | inr e₁ ↦ rw e₁ elim (Bool-cases (c == ctrl_u)) [
    | inl kill ↦
        rw kill
          (record { shows = killed; plain = refl; wakes = kill_line-woken input_buf i ∙ h.wakes })
    | inr e₂ ↦ rw e₂ elim (Bool-cases (c == ctrl_h || c == 127)) [
      | inl back ↦ rw back (
          subst
            (λ b.
              Holds (if i.e == i.w then i else erase i) k
                (record t { line = drop_last t.line; woken = b }))
            h.wakes (erase_lem i k t.queue t.line h.shows h.plain))
      | inr e₃ ↦
          rw (e₃, room_lem i k t.queue t.line h.shows)
            elim (Bool-cases (not (c == 0) && ltb (length t.queue + length t.line) input_buf)) [
              | inl fits ↦ rw fits (enter_lem i k (to_newline c) t (ground (arith, fits)) h)
              | inr none ↦ rw none h
            ]
    ]
  ]
]
  where
    killed : Shows (kill_line input_buf i) k t.queue []
    killed =
        kill_line_lem input_buf i k t.queue t.line (omega (arith, h.shows.room)) h.shows h.plain

-- The keys of one interrupt, by the abstract editor.
unfoldable pub presses : List ℕ → Typed → Typed
unfolding press
presses [] t = t
presses (c ∷ cs) t = presses cs (press c t)

-- From a ring that holds a queue and a line without newlines, `consoleintr` does to the ring, however its
-- counters wrap, what the keys do to the queue and the line: ^P does nothing, ^U drops the line, backspace
-- drops its last byte, and any other key but 0 is put behind the line, if there is room; a newline, a ^D
-- or a full ring moves the line to the queue and wakes the readers.
pub consoleintr_lem :
    (keys : List ℕ) (i : Input) (k : ℕ) (t : Typed)
    → Holds i k t
    → Holds (consoleintr keys i) k (presses keys t)
unfolding consoleintr presses
consoleintr_lem [] i k t h = h
consoleintr_lem (c ∷ cs) i k t h = consoleintr_lem cs (key c i) k (press c t) (key_lem c i k t h)
