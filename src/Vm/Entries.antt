-- ===== src/Vm/Entries.antt =====
-- vm.c: the entries of a page table, and a write to one of them.
use homework.Prelude.{
  ℕ, ◌+◌, ◌*◌, ◌/◌, ◌%◌, ◌≤◌, ◌<◌, ◌≡◌, ◌≢◌, refl, ap, inl, inr, true, if◌then◌else◌, arith,
  Bool-cases, update, update_self, update_ne, ℕ_discrete, dec_lt,
}
use homework.Kalloc.{kernbase, phystop}
use homework.Vm.Machine.{pdx, ptx, pte_addr, present, p2v, zero_page}

-- The page table behind entry `i` of a directory.
unfoldable pub table : (mem : ℕ → ℕ) → (pgdir i : ℕ) → ℕ
unfolding p2v pte_addr
table mem pgdir i = p2v (pte_addr (mem (pgdir + 4 * i)))

-- The entry for the page of an address as the processor finds it, 0 where there is no table.
unfoldable pub entry : (mem : ℕ → ℕ) → (pgdir va : ℕ) → ℕ
unfolding table present pdx ptx
entry mem pgdir va =
    if present (mem (pgdir + 4 * pdx va)) then mem (table mem pgdir (pdx va) + 4 * ptx va) else 0

-- The tables of a directory are pages apart from it and from each other.
pub record IsTables (mem : ℕ → ℕ) (pgdir : ℕ) : Type 0 where
  pub aligned : pgdir % 4096 ≡ 0
  pub apart : (i : ℕ) → i < 1024 → present (mem (pgdir + 4 * i)) ≡ true → table mem pgdir i ≢ pgdir
  pub somewhere : (i : ℕ) → i < 1024 → present (mem (pgdir + 4 * i)) ≡ true → table mem pgdir i ≢ 0
  pub distinct :
      (i j : ℕ)
      → i < 1024
      → j < 1024
      → i ≢ j
      → present (mem (pgdir + 4 * i)) ≡ true
      → present (mem (pgdir + 4 * j)) ≡ true
      → table mem pgdir i ≢ table mem pgdir j

-- A page that is neither the directory nor one of its tables.
pub record IsUnused (mem : ℕ → ℕ) (pgdir v : ℕ) : Type 0 where
  pub is_page : v % 4096 ≡ 0
  pub above : kernbase ≤ v
  pub below : v < kernbase + phystop
  pub not_pgdir : v ≢ pgdir
  pub not_table : (i : ℕ) → i < 1024 → present (mem (pgdir + 4 * i)) ≡ true → table mem pgdir i ≢ v

pub pdx_small : (va : ℕ) → pdx va < 1024
unfolding pdx
pdx_small va = omega arith

pub ptx_small : (va : ℕ) → ptx va < 1024
unfolding ptx
ptx_small va = omega arith

parts_differ : (a b : ℕ) → pdx a ≡ pdx b → b / 4096 % 1048576 ≢ a / 4096 % 1048576 → ptx a ≢ ptx b
unfolding pdx ptx
parts_differ a b e ne e' = ne (omega arith)

pub words_apart :
    (p q k l : ℕ)
    → p % 4096 ≡ 0
    → q % 4096 ≡ 0
    → p ≢ q
    → k < 1024
    → l < 1024
    → p + 4 * k ≢ q + 4 * l
words_apart p q k l ep eq ne lk ll e = ne (omega arith)

pub table-aligned : (mem : ℕ → ℕ) (pgdir i : ℕ) → table mem pgdir i % 4096 ≡ 0
unfolding table p2v pte_addr
table-aligned mem pgdir i = omega arith

pub zero_page_outside :
    (v q k : ℕ) (mem : ℕ → ℕ)
    → v % 4096 ≡ 0
    → q % 4096 ≡ 0
    → v ≢ q
    → k < 1024
    → zero_page v mem (q + 4 * k) ≡ mem (q + 4 * k)
unfolding zero_page
zero_page_outside v q k mem ev eq ne lt = elim (dec_lt (q + 4 * k) v) [
  | yes l ↦ ground arith
  | no l ↦ let far : v + 4096 ≤ q + 4 * k = omega arith in ground arith
]

pub zero_page_inside : (v k : ℕ) (mem : ℕ → ℕ) → k < 1024 → zero_page v mem (v + 4 * k) ≡ 0
unfolding zero_page
zero_page_inside v k mem lt = ground arith

-- An entry depends on two words.
pub entry_same :
    (mem mem' : ℕ → ℕ) (pgdir va : ℕ)
    → mem' (pgdir + 4 * pdx va) ≡ mem (pgdir + 4 * pdx va)
    → (present (mem (pgdir + 4 * pdx va)) ≡ true
        → mem' (table mem pgdir (pdx va) + 4 * ptx va)
          ≡ mem (table mem pgdir (pdx va) + 4 * ptx va))
    → entry mem' pgdir va ≡ entry mem pgdir va
unfolding entry table
entry_same mem mem' pgdir va e f = elim (Bool-cases (present (mem (pgdir + 4 * pdx va)))) [
  | inl p ↦ rw (e, p) (f p)
  | inr p ↦ rw (e, p) refl
]

-- A table in which the words of the directory stay has the same tables.
pub IsTables-same :
    (mem mem' : ℕ → ℕ) (pgdir : ℕ)
    → ((i : ℕ) → i < 1024 → mem' (pgdir + 4 * i) ≡ mem (pgdir + 4 * i))
    → IsTables mem pgdir
    → IsTables mem' pgdir
unfolding table
IsTables-same mem mem' pgdir same h = record {
  aligned = h.aligned;
  apart = λ i lt. rw (same i lt) (h.apart i lt);
  somewhere = λ i lt. rw (same i lt) (h.somewhere i lt);
  distinct = λ i j li lj. rw (same i li, same j lj) (h.distinct i j li lj);
}

-- The words of the directory after a write into one of its tables.
module _ (mem : ℕ → ℕ) (pgdir a w : ℕ) (h : IsTables mem pgdir)
    (there : present (mem (pgdir + 4 * pdx a)) ≡ true) where
  abbrev pub slot : ℕ
  slot = table mem pgdir (pdx a) + 4 * ptx a

  pub directory_kept : (i : ℕ) → i < 1024 → update mem slot w (pgdir + 4 * i) ≡ mem (pgdir + 4 * i)
  directory_kept i lt = update_ne mem slot w (pgdir + 4 * i) (
      words_apart (table mem pgdir (pdx a)) pgdir (ptx a) i (table-aligned mem pgdir (pdx a))
        h.aligned (h.apart (pdx a) (pdx_small a) there) (ptx_small a) lt)

  pub entry_written : entry (update mem slot w) pgdir a ≡ w
  unfolding entry table
  entry_written = rw (directory_kept (pdx a) (pdx_small a), there) (update_self mem slot w)

  slots_apart :
      (b : ℕ)
      → b / 4096 % 1048576 ≢ a / 4096 % 1048576
      → present (mem (pgdir + 4 * pdx b)) ≡ true
      → slot ≢ table mem pgdir (pdx b) + 4 * ptx b
  slots_apart b ne p = elim (ℕ_discrete (pdx a) (pdx b)) [
    | yes e ↦ λ e'. parts_differ a b e ne (omega (arith, e', ap (table mem pgdir) e))
    | no n ↦
        words_apart (table mem pgdir (pdx a)) (table mem pgdir (pdx b)) (ptx a) (ptx b)
          (table-aligned mem pgdir (pdx a)) (table-aligned mem pgdir (pdx b))
          (h.distinct (pdx a) (pdx b) (pdx_small a) (pdx_small b) n there p) (ptx_small a)
          (ptx_small b)
  ]

  pub entry_kept :
      (b : ℕ)
      → b / 4096 % 1048576 ≢ a / 4096 % 1048576
      → entry (update mem slot w) pgdir b ≡ entry mem pgdir b
  entry_kept b ne =
      entry_same mem (update mem slot w) pgdir b (directory_kept (pdx b) (pdx_small b))
        (λ p. update_ne mem slot w (table mem pgdir (pdx b) + 4 * ptx b) (slots_apart b ne p))
