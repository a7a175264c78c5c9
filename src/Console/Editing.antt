-- ===== src/Console/Editing.antt =====
-- console.c: what the keys do to the line that is typed.
use homework.Prelude.{
  ℕ, suc, ◌+◌, ◌-◌, ◌%◌, ◌^◌, ◌≤◌, ◌<◌, ◌≡◌, refl, sym, ap, ◌∙◌, subst, ◌⊎◌, inl, inr, List, [],
  ◌∷◌, ◌++◌, append_assoc, length, length-append, update, update_self, update_ne, arith,
}
use homework.Console.Defs.{Input, input_buf, u32, erase, put}

-- The bytes of the ring from index `k` on.
abbrev pub Spells : (ℕ → ℕ) → ℕ → List ℕ → Type 0
Spells buf k [] = Unit {0}
Spells buf k (x ∷ xs) = (buf (k % input_buf) ≡ x) × Spells buf (suc k) xs

-- `k` bytes have been read; `queue` waits for readers, and `line` can still be edited.
pub record Shows (i : Input) (k : ℕ) (queue line : List ℕ) : Type 0 where
  pub r : i.r ≡ k % 2 ^ 32
  pub w : i.w ≡ (k + length queue) % 2 ^ 32
  pub e : i.e ≡ (k + length queue + length line) % 2 ^ 32
  pub room : length queue + length line ≤ input_buf
  pub bytes : Spells i.buf k (queue ++ line)

pub Spells-left : (buf : ℕ → ℕ) (k : ℕ) (xs ys : List ℕ) → Spells buf k (xs ++ ys) → Spells buf k xs
Spells-left buf k [] ys s = tt
Spells-left buf k (x ∷ xs) ys (e, s) = (e, Spells-left buf (suc k) xs ys s)

index_last : (k n : ℕ) → suc k + n ≡ k + suc n
index_last k n = omega arith

Spells-last :
    (buf : ℕ → ℕ) (k x : ℕ) (xs : List ℕ)
    → Spells buf k (xs ++ x ∷ [])
    → buf ((k + length xs) % input_buf) ≡ x
Spells-last buf k x [] (e, s) = ap (λ j. buf (j % input_buf)) (omega arith) ∙ e
Spells-last buf k x (y ∷ xs) (e, s) =
    ap (λ j. buf (j % input_buf)) (sym (index_last k (length xs))) ∙ Spells-last buf (suc k) x xs s

-- A byte behind others that leave room for it.
Spells-snoc :
    (buf : ℕ → ℕ) (k n x : ℕ) (xs : List ℕ)
    → n ≡ k + length xs
    → length xs < input_buf
    → Spells buf k xs
    → Spells (update buf (n % input_buf) x) k (xs ++ x ∷ [])
Spells-snoc buf k n x [] e lt s = (
  ap (λ j. update buf (n % input_buf) x (j % input_buf)) (omega arith)
      ∙ update_self buf (n % input_buf) x,
  tt,
)
Spells-snoc buf k n x (y ∷ xs) e lt (b, s) = (
  update_ne buf (n % input_buf) x (k % input_buf) (λ q. absurd (omega arith)) ∙ b,
  Spells-snoc buf (suc k) n x xs (omega arith) (omega arith) s,
)

-- A list is empty or has a last item.
pub snoc_view : (xs : List ℕ) → (xs ≡ []) ⊎ ((front : List ℕ) × (x : ℕ) × (xs ≡ front ++ x ∷ []))
snoc_view [] = inl refl
snoc_view (x ∷ xs) = elim (snoc_view xs) [
  | inl e ↦ inr ([], x, ap (λ ys. x ∷ ys) e)
  | inr (front, y, e) ↦ inr (x ∷ front, y, ap (λ ys. x ∷ ys) e)
]

-- One more byte in the line, on the counters.
longer :
    (k : ℕ) (queue line : List ℕ) (x : ℕ)
    → k + length queue + length (line ++ x ∷ []) ≡ suc (k + length queue + length line)
longer k queue line x = omega (arith, length-append line (x ∷ []))

index_back : (e n : ℕ) → e ≡ suc n % 2 ^ 32 → u32 (e + (2 ^ 32 - 1)) ≡ n % 2 ^ 32
index_back e n h = omega arith

index_on : (e n : ℕ) → e ≡ n % 2 ^ 32 → u32 (e + 1) ≡ suc n % 2 ^ 32
index_on e n h = omega arith

-- 2^32 is a multiple of INPUT_BUF: the slot does not see the wrap.
same_slot : (e n : ℕ) → e ≡ n % 2 ^ 32 → n % input_buf ≡ e % input_buf
same_slot e n h = omega arith

-- `input.e--` takes back the last byte of the line.
pub erase-Shows :
    (i : Input) (k x : ℕ) (queue line : List ℕ)
    → Shows i k queue (line ++ x ∷ [])
    → Shows (erase i) k queue line
unfolding erase
erase-Shows i k x queue line h = record {
  r = h.r;
  w = h.w;
  e =
      index_back i.e (k + length queue + length line)
        (h.e ∙ ap (λ n. n % 2 ^ 32) (longer k queue line x));
  room = omega (arith, h.room, length-append line (x ∷ []));
  bytes =
      Spells-left i.buf k (queue ++ line) (x ∷ [])
        (subst (Spells i.buf k) (sym (append_assoc queue line (x ∷ []))) h.bytes);
}

-- `input.buf[(input.e-1) % INPUT_BUF]` is the last byte of the line.
pub last_byte :
    (i : Input) (k x : ℕ) (queue line : List ℕ)
    → Shows i k queue (line ++ x ∷ [])
    → i.buf (u32 (i.e + (2 ^ 32 - 1)) % input_buf) ≡ x
last_byte i k x queue line h =
    ap i.buf (omega (arith, slot, length-append queue line))
    ∙ Spells-last i.buf k x (queue ++ line)
        (subst (Spells i.buf k) (sym (append_assoc queue line (x ∷ []))) h.bytes)
  where
    slot : (k + length queue + length line) % input_buf ≡ u32 (i.e + (2 ^ 32 - 1)) % input_buf
    slot = same_slot (u32 (i.e + (2 ^ 32 - 1))) (k + length queue + length line) (
        index_back i.e (k + length queue + length line)
          (h.e ∙ ap (λ n. n % 2 ^ 32) (longer k queue line x)))

-- `input.buf[input.e++ % INPUT_BUF] = c` puts a byte behind the line.
pub put-Shows :
    (i : Input) (k c : ℕ) (queue line : List ℕ)
    → length queue + length line < input_buf
    → Shows i k queue line
    → Shows (put c i) k queue (line ++ c ∷ [])
unfolding put
put-Shows i k c queue line lt h = record {
  r = h.r;
  w = h.w;
  e =
      index_on i.e (k + length queue + length line) h.e
      ∙ ap (λ n. n % 2 ^ 32) (sym (longer k queue line c));
  room = omega (arith, lt, length-append line (c ∷ []));
  bytes = subst (Spells (put c i).buf k) (append_assoc queue line (c ∷ [])) (
      subst (λ n. Spells (update i.buf n c) k ((queue ++ line) ++ c ∷ []))
        (same_slot i.e (k + length queue + length line) h.e)
        (Spells-snoc i.buf k (k + length queue + length line) c (queue ++ line)
          (omega (arith, length-append queue line)) (omega (arith, lt, length-append queue line))
          h.bytes));
}
