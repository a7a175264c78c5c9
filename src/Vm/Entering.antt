-- ===== src/Vm/Entering.antt =====
-- vm.c: a new page table that is entered into a directory.
use homework.Prelude.{
  ℕ, ◌+◌, ◌*◌, ◌%◌, ◌<◌, ◌≡◌, ◌≢◌, refl, sym, ap, ◌∙◌, ◌⊎◌, inl, inr, true, false, arith, update,
  update_self, update_ne, ℕ_discrete,
}
use homework.Kalloc.{Kmem}
use homework.Kalloc.{v2p}
use homework.Vm.Machine.{pdx, ptx, pte_addr, present, p2v, bit_or, zero_page}
use homework.Vm.Bits.{entered-present, entered-p2v}
use homework.Vm.Entries.{
  table, entry, IsTables, IsUnused, pdx_small, ptx_small, words_apart, table-aligned,
  zero_page_outside, zero_page_inside, entry_same,
}

-- What `walkpgdir` leaves when it has found or made a table: the entry's place, and all entries as before.
pub record Walked (s : Kmem) (pgdir a pte : ℕ) (t : Kmem) : Type 0 where
  pub there : present (t.mem (pgdir + 4 * pdx a)) ≡ true
  pub place : pte ≡ table t.mem pgdir (pdx a) + 4 * ptx a
  pub tables : IsTables t.mem pgdir
  pub same : (b : ℕ) → entry t.mem pgdir b ≡ entry s.mem pgdir b

-- A table is made in an unused page.
module _ (s : Kmem) (pgdir a v : ℕ) (h : IsTables s.mem pgdir) (u : IsUnused s.mem pgdir v)
    (absent : present (s.mem (pgdir + 4 * pdx a)) ≡ false) where
  abbrev pde : ℕ
  pde = pgdir + 4 * pdx a

  abbrev entered : ℕ → ℕ
  entered = update (zero_page v s.mem) pde (bit_or 32 (v2p v) 7)

  pub entered_present : present (entered pde) ≡ true
  entered_present =
      ap present (update_self (zero_page v s.mem) pde (bit_or 32 (v2p v) 7))
      ∙ entered-present v u.is_page u.above u.below

  pub entered_table : table entered pgdir (pdx a) ≡ v
  unfolding table
  entered_table =
      ap (λ w. p2v (pte_addr w)) (update_self (zero_page v s.mem) pde (bit_or 32 (v2p v) 7))
      ∙ entered-p2v v u.is_page u.above u.below

  entered_other : (i : ℕ) → i < 1024 → pdx a ≢ i → entered (pgdir + 4 * i) ≡ s.mem (pgdir + 4 * i)
  entered_other i lt ne =
      update_ne (zero_page v s.mem) pde (bit_or 32 (v2p v) 7) (pgdir + 4 * i)
        (λ e. ne (omega arith))
      ∙ zero_page_outside v pgdir i s.mem u.is_page h.aligned u.not_pgdir lt

  entered_table_other : (i : ℕ) → i < 1024 → pdx a ≢ i → table entered pgdir i ≡ table s.mem pgdir i
  unfolding table
  entered_table_other i lt ne = ap (λ w. p2v (pte_addr w)) (entered_other i lt ne)

  -- A word outside the page and the directory.
  entered_word :
      (q k : ℕ)
      → q % 4096 ≡ 0
      → v ≢ q
      → q ≢ pgdir
      → k < 1024
      → entered (q + 4 * k) ≡ s.mem (q + 4 * k)
  entered_word q k e nv np lt =
      update_ne (zero_page v s.mem) pde (bit_or 32 (v2p v) 7) (q + 4 * k)
        (words_apart pgdir q (pdx a) k h.aligned e (λ e'. np (sym e')) (pdx_small a) lt)
      ∙ zero_page_outside v q k s.mem u.is_page e nv lt

  -- A word of the page.
  entered_zero : (k : ℕ) → k < 1024 → entered (v + 4 * k) ≡ 0
  entered_zero k lt =
      update_ne (zero_page v s.mem) pde (bit_or 32 (v2p v) 7) (v + 4 * k) (
        words_apart pgdir v (pdx a) k h.aligned u.is_page (λ e'. u.not_pgdir (sym e')) (pdx_small a)
          lt)
      ∙ zero_page_inside v k s.mem lt

  -- The entries of the new table are 0.
  entered_empty : (b : ℕ) → pdx a ≡ pdx b → entry entered pgdir b ≡ 0
  unfolding entry
  entered_empty b e =
      rw
        (
          sym (ap (λ i. present (entered (pgdir + 4 * i))) e) ∙ entered_present,
          sym (ap (table entered pgdir) e) ∙ entered_table,
        )
        (entered_zero (ptx b) (ptx_small b))

  absent_empty : (b : ℕ) → pdx a ≡ pdx b → entry s.mem pgdir b ≡ 0
  unfolding entry
  absent_empty b e = rw (sym (ap (λ i. present (s.mem (pgdir + 4 * i))) e) ∙ absent) refl

  present_before :
      (i : ℕ)
      → i < 1024
      → pdx a ≢ i
      → present (entered (pgdir + 4 * i)) ≡ true
      → present (s.mem (pgdir + 4 * i)) ≡ true
  present_before i lt ne p = sym (ap present (entered_other i lt ne)) ∙ p

  -- A table of the directory that now has one more is the new page, or was there.
  table_cases :
      (i : ℕ)
      → i < 1024
      → present (entered (pgdir + 4 * i)) ≡ true
      → ((pdx a ≡ i) × (table entered pgdir i ≡ v))
        ⊎ ((pdx a ≢ i)
            × (present (s.mem (pgdir + 4 * i)) ≡ true)
            × (table entered pgdir i ≡ table s.mem pgdir i))
  table_cases i lt p = elim (ℕ_discrete (pdx a) i) [
    | yes e ↦ inl (e, sym (ap (table entered pgdir) e) ∙ entered_table)
    | no n ↦ inr (n, present_before i lt n p, entered_table_other i lt n)
  ]

  pub entered-IsTables : IsTables entered pgdir
  entered-IsTables = record {
    aligned = h.aligned;
    apart = λ i lt p. elim (table_cases i lt p) [
      | inl (e, t) ↦ λ x. u.not_pgdir (sym t ∙ x)
      | inr (n, q, t) ↦ λ x. h.apart i lt q (sym t ∙ x)
    ];
    somewhere = λ i lt p. elim (table_cases i lt p) [
      | inl (e, t) ↦ λ x. let above = u.above in absurd (omega arith)
      | inr (n, q, t) ↦ λ x. h.somewhere i lt q (sym t ∙ x)
    ];
    distinct = λ i j li lj ne p q. elim (table_cases i li p) [
      | inl (e, t) ↦ elim (table_cases j lj q) [
        | inl (e', t') ↦ absurd (ne (sym e ∙ e'))
        | inr (n', q', t') ↦ λ x. u.not_table j lj q' (sym t' ∙ sym x ∙ t)
      ]
      | inr (n, p', t) ↦ elim (table_cases j lj q) [
        | inl (e', t') ↦ λ x. u.not_table i li p' (sym t ∙ x ∙ t')
        | inr (n', q', t') ↦ λ x. h.distinct i j li lj ne p' q' (sym t ∙ x ∙ t')
      ]
    ];
  }

  pub entered_same : (b : ℕ) → entry entered pgdir b ≡ entry s.mem pgdir b
  entered_same b = elim (ℕ_discrete (pdx a) (pdx b)) [
    | yes e ↦ entered_empty b e ∙ sym (absent_empty b e)
    | no n ↦ entry_same s.mem entered pgdir b (entered_other (pdx b) (pdx_small b) n) (λ p.
        entered_word (table s.mem pgdir (pdx b)) (ptx b) (table-aligned s.mem pgdir (pdx b))
          (λ x. u.not_table (pdx b) (pdx_small b) p (sym x)) (h.apart (pdx b) (pdx_small b) p)
          (ptx_small b))
  ]
