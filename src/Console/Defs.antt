-- ===== src/Console/Defs.antt =====
-- console.c: the input line and its readers. Each function is a critical section of `cons.lock`, up to
-- the next `sleep`. The indices are `uint` and run on, so they wrap at 2^32.
use homework.Prelude.{
  ℕ, zero, suc, ◌+◌, ◌-◌, ◌%◌, ◌^◌, Bool, true, false, not, ◌&&◌, ◌||◌, ltb, ◌==◌, if◌then◌else◌,
  update, List, [], ◌∷◌,
}

abbrev pub input_buf : ℕ
input_buf = 128

abbrev pub u32 : ℕ → ℕ
u32 n = n % 2 ^ 32

pub record Input : Type 0 where
  pub buf : ℕ → ℕ  -- read at indices below INPUT_BUF only
  pub r : ℕ
  pub w : ℕ
  pub e : ℕ
  pub woken : Bool  -- `wakeup(&input.r)` was called

-- `C(x)`, for the letters that are used, and `'\n'`.
abbrev pub ctrl_d : ℕ
ctrl_d = 4

abbrev pub ctrl_h : ℕ
ctrl_h = 8

abbrev pub newline : ℕ
newline = 10

abbrev pub ctrl_p : ℕ
ctrl_p = 16

abbrev pub ctrl_u : ℕ
ctrl_u = 21

-- `input.e--`
unfoldable pub erase : Input → Input
erase i = record i { e = u32 (i.e + (2 ^ 32 - 1)) }

-- The loop for ^U. The line is shorter than the buffer, so INPUT_BUF rounds are enough.
unfoldable pub kill_line : (rounds : ℕ) → Input → Input
unfolding erase
kill_line zero i = i
kill_line (suc rounds) i =
    elim (i.e == i.w || i.buf (u32 (i.e + (2 ^ 32 - 1)) % input_buf) == newline) [
      | true ↦ i
      | false ↦ kill_line rounds (erase i)
    ]

-- `input.buf[input.e++ % INPUT_BUF] = c`
unfoldable pub put : ℕ → Input → Input
put c i = record i { buf = update i.buf (i.e % input_buf) c; e = u32 (i.e + 1) }

-- A line, or all that there is room for, is given to readers.
unfoldable pub commit_line : ℕ → Input → Input
commit_line c i =
    if c == newline || (c == ctrl_d || i.e == u32 (i.r + input_buf))
    then record i { w = i.e; woken = true }
    else i

abbrev pub to_newline : ℕ → ℕ
to_newline c = if c == 13 then newline else c

-- The room left: `input.e - input.r < INPUT_BUF`
unfoldable pub has_room : Input → Bool
has_room i = ltb (u32 (i.e + (2 ^ 32 - i.r))) input_buf

-- One round of `consoleintr`. What goes to the screen, the echo and the listing for ^P, is left out.
unfoldable pub key : ℕ → Input → Input
unfolding kill_line erase put commit_line has_room
key c i =
    if c == ctrl_p
    then i
    else (if c == ctrl_u
        then kill_line input_buf i
        else (if c == ctrl_h || c == 127
            then (if i.e == i.w then i else erase i)
            else (if not (c == 0) && has_room i
                then commit_line (to_newline c) (put (to_newline c) i)
                else i)))

-- The characters that `getc` gives until there are none.
unfoldable pub consoleintr : List ℕ → Input → Input
unfolding key
consoleintr [] i = i
consoleintr (c ∷ cs) i = consoleintr cs (key c i)

-- Bytes read so far are `got`, the last one first; the section ends with all that is returned, or it
-- sleeps with `n` left to read, or it fails as the process is killed.
pub data Read : Type 0 where
  returns : List ℕ → Input → Read
  sleeps : (n : ℕ) → List ℕ → Input → Read
  fails : Input → Read

-- A character `c` that is no ^D: it is stored, and a newline is the last one.
unfoldable pub consoleread : (killed : Bool) → (n : ℕ) → List ℕ → Input → Read
consoleread killed zero got i = returns got i
consoleread killed (suc n) got i = elim (i.r == i.w) [
  | true ↦ if killed then fails i else sleeps (suc n) got i
  | false ↦
      let c = i.buf (i.r % input_buf) in
      let i' = record i { r = u32 (i.r + 1) } in
      elim (c == ctrl_d) [
        | true ↦ elim got [ [] ↦ returns [] i' | b ∷ bs ↦ returns (b ∷ bs) i ]
        | false ↦ elim (c == newline) [
          | true ↦ returns (c ∷ got) i'
          | false ↦ consoleread killed n (c ∷ got) i'
        ]
      ]
]
