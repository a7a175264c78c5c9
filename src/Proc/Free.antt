-- ===== src/Proc/Free.antt =====
-- allocproc: the first free slot.
use homework.Prelude.{ℕ, ◌<◌, false, ◌≡◌, ◌≢◌, ap, none, some, arith}
use homework.Proc.{unused, nproc, is_state, state_eq, Proc, Ptable, find_unused}
use homework.Proc.Table.{state_eq_iff}
use homework.Proc.Scan.{find_slot-some, find_slot-none}

-- Slot `i` is free, and no slot before it is.
pub record FirstFree (t : Ptable) (i : ℕ) : Type 0 where
  pub in_table : i < nproc
  pub is_free : (t.proc i).state ≡ unused
  pub first : (j : ℕ) → j < i → (t.proc j).state ≢ unused

abbrev pub NoneFree : Ptable → Type 0
NoneFree t = (j : ℕ) → j < nproc → (t.proc j).state ≢ unused

not-is_state : (p : Proc) → is_state unused p ≡ false → p.state ≢ unused
unfolding is_state state_eq
not-is_state p e same = absurd (cc (e, ap (λ s. state_eq s unused) same))

pub find_unused-FirstFree : (t : Ptable) (i : ℕ) → find_unused t ≡ some i → FirstFree t i
unfolding find_unused is_state
find_unused-FirstFree t i e =
    let f = find_slot-some (is_state unused) t.proc nproc 0 i e in
    record {
      in_table = omega (arith, f.bounds);
      is_free = state_eq_iff (t.proc i).state unused f.passes;
      first = λ j lt. not-is_state (t.proc j) (f.first j (omega arith) lt);
    }

pub find_unused-NoneFree : (t : Ptable) → find_unused t ≡ none → NoneFree t
unfolding find_unused
find_unused-NoneFree t e j lt =
    not-is_state (t.proc j)
      (find_slot-none (is_state unused) t.proc nproc 0 e j (omega arith) (omega arith))
