-- ===== src/Strings/Safe.antt =====
-- string.c: `safestrcpy`, with `strlen` of what it leaves.
use homework.Prelude.{
  ℕ, zero, suc, ◌+◌, ◌-◌, ◌≤◌, ◌<◌, ◌≡◌, ◌≢◌, sym, subst, ap, ◌∙◌, ◌⊎◌, inl, inr, true, false, some,
  ◌==◌, update, update_self, update_ne, ℕ_discrete, arith,
}
use Prim.Native.Nat.{min}
use homework.Strings.Defs.{safe_copy, safestrcpy, strlen_from}

-- A string of `len` bytes before its 0 at `t`.
pub record IsString (t len : ℕ) (mem : ℕ → ℕ) : Type 0 where
  pub nonzero : (i : ℕ) → i < len → mem (t + i) ≢ 0
  pub ended : mem (t + len) ≡ 0

-- The first `len` bytes from `s` on are those that were at `t`, and a 0 follows; bytes outside the `room` bytes from `s` on are as before.
pub record IsCopied (s t len room : ℕ) (mem mem' : ℕ → ℕ) : Type 0 where
  pub same : (i : ℕ) → i < len → mem' (s + i) ≡ mem (t + i)
  pub ended : mem' (s + len) ≡ 0
  pub outside : (a : ℕ) → (a < s) ⊎ (s + room ≤ a) → mem' a ≡ mem a

-- `strlen` finds the length.
pub strlen_lem :
    (fuel len s : ℕ) (mem : ℕ → ℕ)
    → IsString s len mem
    → len < fuel
    → strlen_from fuel s mem ≡ some len
unfolding strlen_from
strlen_lem zero len s mem st lt = absurd (omega arith)
strlen_lem (suc fuel) zero s mem st lt =
    let z : mem s ≡ 0 = ap mem (omega arith) ∙ st.ended in rw (strlen_from, z)
strlen_lem (suc fuel) (suc len) s mem st lt =
    let nz : mem s ≢ 0 = λ e. st.nonzero 0 (omega arith) (ap mem (omega arith) ∙ e) in
    let test : (mem s == 0) ≡ false = ground arith in
    let rest =
      strlen_lem fuel len (s + 1) mem
        (record {
          nonzero = λ i l e. st.nonzero (suc i) (omega arith) (ap mem (omega arith) ∙ e);
          ended = ap mem (omega arith) ∙ st.ended;
        })
        (omega arith) in
    rw (strlen_from, test, rest)

at : (mem : ℕ → ℕ) (a b : ℕ) → a ≡ b → mem a ≡ mem b
at mem a b e = ap mem e

-- The string behind its first byte, after a write elsewhere.
tail-IsString :
    (t len s v : ℕ) (mem : ℕ → ℕ)
    → IsString t (suc len) mem
    → (t + suc len < s) ⊎ (s ≤ t)
    → IsString (t + 1) len (update mem s v)
tail-IsString t len s v mem st apart = record {
  nonzero = λ i l e. st.nonzero (suc i) (omega arith) (
      at mem (t + suc i) (t + 1 + i) (omega arith)
      ∙ sym (
          update_ne mem s v (t + 1 + i)
            (λ d. elim apart [ inl x ↦ omega arith | inr x ↦ omega arith ]))
      ∙ e);
  ended =
      update_ne mem s v (t + 1 + len)
        (λ d. elim apart [ inl x ↦ omega arith | inr x ↦ omega arith ])
      ∙ at mem (t + 1 + len) (t + suc len) (omega arith)
      ∙ st.ended;
}

safe_copy_done :
    (left s t : ℕ) (mem : ℕ → ℕ)
    → mem t ≡ 0
    → safe_copy (suc left) s t mem ≡ update (update mem s (mem t)) (s + 1) 0
unfolding safe_copy
safe_copy_done left s t mem e =
    let test : (mem t == 0) ≡ true = ground arith in rw (safe_copy, test)

safe_copy_more :
    (left s t : ℕ) (mem : ℕ → ℕ)
    → mem t ≢ 0
    → safe_copy (suc left) s t mem ≡ safe_copy left (s + 1) (t + 1) (update mem s (mem t))
unfolding safe_copy
safe_copy_more left s t mem ne =
    let test : (mem t == 0) ≡ false = ground arith in rw (safe_copy, test)

-- The 0 of the string and another behind it: what is left of a copy whose string has ended.
ended-IsCopied :
    (left s t : ℕ) (mem : ℕ → ℕ)
    → mem t ≡ 0
    → IsCopied s t (min 0 (suc left)) (suc (suc left)) mem (update (update mem s (mem t)) (s + 1) 0)
ended-IsCopied left s t mem z =
    let mem1 = update mem s (mem t) in
    record {
      same = λ i l. absurd (omega arith);
      ended =
          update_ne mem1 (s + 1) 0 (s + min 0 (suc left)) (λ d. omega arith)
          ∙ at mem1 (s + min 0 (suc left)) s (omega arith)
          ∙ update_self mem s (mem t)
          ∙ z;
      outside = λ a o.
          update_ne mem1 (s + 1) 0 a (λ d. elim o [ inl x ↦ omega arith | inr x ↦ omega arith ])
          ∙ update_ne mem s (mem t) a (λ d. elim o [ inl x ↦ omega arith | inr x ↦ omega arith ]);
    }

-- A byte copied, and then the rest of the string.
first-IsCopied :
    (left len s t : ℕ) (mem mem' : ℕ → ℕ)
    → (t + suc len < s) ⊎ (s + suc left < t)
    → IsCopied (s + 1) (t + 1) (min len left) (suc left) (update mem s (mem t)) mem'
    → IsCopied s t (min (suc len) (suc left)) (suc (suc left)) mem mem'
first-IsCopied left len s t mem mem' apart r = record {
  same = λ i l. elim (ℕ_discrete i 0) [
    | yes e ↦
        at mem' (s + i) s (omega arith)
        ∙ r.outside s (inl (omega arith))
        ∙ update_self mem s (mem t)
        ∙ at mem t (t + i) (omega arith)
    | no ne ↦
        at mem' (s + i) (s + 1 + (i - 1)) (omega arith)
        ∙ r.same (i - 1) (omega arith)
        ∙ update_ne mem s (mem t) (t + 1 + (i - 1))
            (λ d. elim apart [ inl x ↦ omega arith | inr x ↦ omega arith ])
        ∙ at mem (t + 1 + (i - 1)) (t + i) (omega arith)
  ];
  ended = at mem' (s + min (suc len) (suc left)) (s + 1 + min len left) (omega arith) ∙ r.ended;
  outside = λ a o.
      r.outside a (elim o [ inl x ↦ inl (omega arith) | inr x ↦ inr (omega arith) ])
      ∙ update_ne mem s (mem t) a (λ d. elim o [ inl x ↦ omega arith | inr x ↦ omega arith ]);
}

safe_copy_lem :
    (left len s t : ℕ) (mem : ℕ → ℕ)
    → IsString t len mem
    → (t + len < s) ⊎ (s + left < t)
    → IsCopied s t (min len left) (suc left) mem (safe_copy left s t mem)
unfolding safe_copy
safe_copy_lem zero len s t mem st apart = record {
  same = λ i l. absurd (omega arith);
  ended = at (update mem s 0) (s + min len 0) s (omega arith) ∙ update_self mem s 0;
  outside = λ a o. update_ne mem s 0 a (λ d. elim o [ inl x ↦ omega arith | inr x ↦ omega arith ]);
}
safe_copy_lem (suc left) zero s t mem st apart =
    let z : mem t ≡ 0 = at mem t (t + 0) (omega arith) ∙ st.ended in
    subst (IsCopied s t (min 0 (suc left)) (suc (suc left)) mem)
      (sym (safe_copy_done left s t mem z)) (ended-IsCopied left s t mem z)
safe_copy_lem (suc left) (suc len) s t mem st apart =
    let nz : mem t ≢ 0 = λ e. st.nonzero 0 (omega arith) (at mem (t + 0) t (omega arith) ∙ e) in
    let rest =
      safe_copy_lem left len (s + 1) (t + 1) (update mem s (mem t))
        (tail-IsString t len s (mem t) mem st
          (elim apart [ inl x ↦ inl x | inr x ↦ inr (omega arith) ]))
        (elim apart [ inl x ↦ inl (omega arith) | inr x ↦ inr (omega arith) ]) in
    subst (IsCopied s t (min (suc len) (suc left)) (suc (suc left)) mem)
      (sym (safe_copy_more left s t mem nz))
      (first-IsCopied left len s t mem (safe_copy left (s + 1) (t + 1) (update mem s (mem t))) apart
        rest)

-- A string of `len` bytes, copied to a buffer of `left + 1` bytes that is apart from it: `safestrcpy`
-- leaves its first bytes, as many as there are and as leave room for the 0 behind them, whose `strlen`
-- is their number, and writes no byte outside the buffer.
pub safestrcpy_lem :
    (len s t left : ℕ) (mem : ℕ → ℕ)
    → IsString t len mem
    → (t + len < s) ⊎ (s + left < t)
    → IsCopied s t (min len left) (suc left) mem (safestrcpy s t (suc left) mem)
      × (strlen_from (suc left) s (safestrcpy s t (suc left) mem) ≡ some (min len left))
unfolding safestrcpy
safestrcpy_lem len s t left mem st apart =
    let c = safe_copy_lem left len s t mem st apart in
    (
      c,
      strlen_lem (suc left) (min len left) s (safe_copy left s t mem)
          (record {
            nonzero = λ i l e. st.nonzero i (omega arith) (sym (c.same i l) ∙ e);
            ended = c.ended;
          })
          (omega arith),
    )
