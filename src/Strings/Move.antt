-- ===== src/Strings/Move.antt =====
-- string.c: `memmove` on ranges that may overlap.
use homework.Prelude.{
  ℕ, zero, suc, ◌+◌, ◌-◌, ◌≤◌, ◌<◌, ◌≡◌, refl, ap, ◌∙◌, ◌⊎◌, inl, inr, ◌&&◌, ltb, update,
  update_self, update_ne, Bool-cases, ℕ_discrete, arith,
}
use homework.Strings.Defs.{copy_up, copy_down, memmove}

-- The `n` bytes from `dst` on are those that were at `src`, and all others are as before.
pub record IsMoved (dst src n : ℕ) (mem mem' : ℕ → ℕ) : Type 0 where
  pub inside : (i : ℕ) → i < n → mem' (dst + i) ≡ mem (src + i)
  pub outside : (a : ℕ) → (a < dst) ⊎ (dst + n ≤ a) → mem' a ≡ mem a

-- A memory at an address that is written in two ways.
at : (mem : ℕ → ℕ) (a b : ℕ) → a ≡ b → mem a ≡ mem b
at mem a b e = ap mem e

copy_up_lem :
    (n d s : ℕ) (mem : ℕ → ℕ) → (d ≤ s) ⊎ (s + n ≤ d) → IsMoved d s n mem (copy_up n d s mem)
unfolding copy_up
copy_up_lem zero d s mem h = record { inside = λ i lt. absurd (omega arith); outside = λ a o. refl }
copy_up_lem (suc n) d s mem h =
    let mem1 = update mem d (mem s) in
    let r =
      copy_up_lem n (d + 1) (s + 1) mem1
        (elim h [ inl le ↦ inl (omega arith) | inr le ↦ inr (omega arith) ]) in
    record {
      inside = λ i lt. elim (ℕ_discrete i 0) [
        | yes e ↦
            at (copy_up n (d + 1) (s + 1) mem1) (d + i) (d) (omega arith)
            ∙ r.outside d (inl (omega arith))
            ∙ update_self mem d (mem s)
            ∙ at mem (s) (s + i) (omega arith)
        | no ne ↦
            at (copy_up n (d + 1) (s + 1) mem1) (d + i) (d + 1 + (i - 1)) (omega arith)
            ∙ r.inside (i - 1) (omega arith)
            ∙ update_ne mem d (mem s) (s + 1 + (i - 1))
                (λ e. elim h [ inl le ↦ omega arith | inr le ↦ omega arith ])
            ∙ at mem (s + 1 + (i - 1)) (s + i) (omega arith)
      ];
      outside = λ a o.
          r.outside a (elim o [ inl l ↦ inl (omega arith) | inr l ↦ inr (omega arith) ])
          ∙ update_ne mem d (mem s) a (λ e. elim o [ inl l ↦ omega arith | inr l ↦ omega arith ]);
    }

copy_down_lem : (n d s : ℕ) (mem : ℕ → ℕ) → s ≤ d → IsMoved d s n mem (copy_down n d s mem)
unfolding copy_down
copy_down_lem zero d s mem h = record {
  inside = λ i lt. absurd (omega arith);
  outside = λ a o. refl;
}
copy_down_lem (suc n) d s mem h =
    let mem1 = update mem (d + n) (mem (s + n)) in
    let r = copy_down_lem n d s mem1 h in
    record {
      inside = λ i lt. elim (ℕ_discrete i n) [
        | yes e ↦
            r.outside (d + i) (inr (omega arith))
            ∙ at mem1 (d + i) (d + n) (omega arith)
            ∙ update_self mem (d + n) (mem (s + n))
            ∙ at mem (s + n) (s + i) (omega arith)
        | no ne ↦
            r.inside i (omega arith)
            ∙ update_ne mem (d + n) (mem (s + n)) (s + i) (λ e. omega arith)
      ];
      outside = λ a o.
          r.outside a (elim o [ inl l ↦ inl l | inr l ↦ inr (omega arith) ])
          ∙ update_ne mem (d + n) (mem (s + n)) a
              (λ e. elim o [ inl l ↦ omega arith | inr l ↦ omega arith ]);
    }

-- Whether or not the ranges overlap, `memmove` puts at `dst` the `n` bytes that were at `src`, and
-- changes no byte outside the range from `dst` on.
pub memmove_lem : (dst src n : ℕ) (mem : ℕ → ℕ) → IsMoved dst src n mem (memmove dst src n mem)
unfolding memmove
memmove_lem dst src n mem = elim (Bool-cases (ltb src dst && ltb dst (src + n))) [
  | inl down ↦ rw down (copy_down_lem n dst src mem (ground arith))
  | inr up ↦ rw up (copy_up_lem n dst src mem (ground arith))
]
