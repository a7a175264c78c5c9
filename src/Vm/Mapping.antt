-- ===== src/Vm/Mapping.antt =====
-- vm.c: what `walkpgdir` and `mappages` do to the mappings of a page table.
use homework.Prelude.{
  ℕ, ◌+◌, ◌-◌, ◌*◌, ◌/◌, ◌%◌, ◌^◌, ◌<◌, ◌≡◌, ◌≢◌, refl, sym, ap, ◌∙◌, subst, ◌⊎◌, inl, inr, Bool,
  true, false, ◌==◌, arith, Bool-cases, update, ℕ_discrete,
}
use homework.Kalloc.{Kmem, pgsize}
use homework.Kalloc.{kalloc}
use homework.Vm.Machine.{M, pure, ok, pdx, ptx, present, page_round_down, bit_or}
use homework.Vm.Tables.{enter_table, new_table, walkpgdir, map_page, map_from, mappages}
use homework.Vm.Bits.{bit_or-aligned, bit_or-present}
use homework.Vm.Entries.{
  table, entry, IsTables, IsUnused, pdx_small, IsTables-same, directory_kept, entry_written,
  entry_kept, slot,
}
use homework.Vm.Entering.{Walked, entered_present, entered_table, entered-IsTables, entered_same}

zero_test : (v : ℕ) → v ≡ 0 → (v == 0) ≡ true
zero_test v e = ground arith

nonzero_test : (v : ℕ) → v ≢ 0 → (v == 0) ≡ false
nonzero_test v ne = ground arith

self_test : (a : ℕ) → (a == a) ≡ true
self_test a = ground arith

-- The walk for a mapping.
module _ (s : Kmem) (pgdir a : ℕ) (h : IsTables s.mem pgdir)
    (free : s.freelist ≢ 0 → IsUnused s.mem pgdir s.freelist) where
  abbrev Walks : Type 0
  Walks =
      ((walkpgdir pgdir a true s ≡ (0, s)) × (s.freelist ≡ 0))
      ⊎ ((pte : ℕ) × (t : Kmem) × (walkpgdir pgdir a true s ≡ (pte, t)) × Walked s pgdir a pte t)

  none_left : s.freelist ≡ 0 → new_table (pgdir + 4 * pdx a) a (kalloc s) ≡ (0, s)
  unfolding new_table kalloc
  none_left e = rw (zero_test s.freelist e) refl

  given : s.freelist ≢ 0 → kalloc s ≡ (s.freelist, record s { freelist = s.mem s.freelist })
  unfolding kalloc
  given ne = rw (nonzero_test s.freelist ne) refl

  one_given :
      s.freelist ≢ 0
      → new_table (pgdir + 4 * pdx a) a (kalloc s) ≡ (
        s.freelist + 4 * ptx a,
        enter_table (pgdir + 4 * pdx a) s.freelist (record s { freelist = s.mem s.freelist }),
      )
  unfolding new_table
  one_given ne = rw (given ne, nonzero_test s.freelist ne) refl

  walk_new : present (s.mem (pgdir + 4 * pdx a)) ≡ false → Walks
  unfolding walkpgdir enter_table
  walk_new absent = elim (ℕ_discrete s.freelist 0) [
    | yes e ↦ inl (rw (absent) (none_left e), e)
    | no ne ↦ inr (
      s.freelist + 4 * ptx a,
      enter_table (pgdir + 4 * pdx a) s.freelist (record s { freelist = s.mem s.freelist }),
      rw (absent) (one_given ne),
      record {
        there = entered_present s pgdir a s.freelist h (free ne) absent;
        place =
            ap (λ q. q + 4 * ptx a) (sym (entered_table s pgdir a s.freelist h (free ne) absent));
        tables = entered-IsTables s pgdir a s.freelist h (free ne) absent;
        same = entered_same s pgdir a s.freelist h (free ne) absent;
      },
    )
  ]

  walkpgdir_lem : Walks
  unfolding walkpgdir table
  walkpgdir_lem = elim (Bool-cases (present (s.mem (pgdir + 4 * pdx a)))) [
    | inl p ↦ inr (
      table s.mem pgdir (pdx a) + 4 * ptx a,
      s,
      rw (p) refl,
      record { there = p; place = refl; tables = h; same = λ b. refl },
    )
    | inr absent ↦ walk_new absent
  ]

-- The page of `a` is mapped as given, the pages of other addresses as before.
pub record Mapped (s : Kmem) (pgdir a pa perm : ℕ) (t : Kmem) : Type 0 where
  pub tables : IsTables t.mem pgdir
  pub mapped : entry t.mem pgdir a ≡ pa + (perm / 2 * 2 + 1)
  pub others :
      (b : ℕ) → b / 4096 % 1048576 ≢ a / 4096 % 1048576 → entry t.mem pgdir b ≡ entry s.mem pgdir b

entry-there :
    (mem : ℕ → ℕ) (pgdir a : ℕ)
    → present (mem (pgdir + 4 * pdx a)) ≡ true
    → entry mem pgdir a ≡ mem (table mem pgdir (pdx a) + 4 * ptx a)
unfolding entry
entry-there mem pgdir a there = rw (there) refl

flags_word :
    (pa perm : ℕ)
    → pa % 4096 ≡ 0
    → pa < 2 ^ 32
    → perm < 4096
    → bit_or 32 pa (bit_or 32 perm 1) ≡ pa + (perm / 2 * 2 + 1)
flags_word pa perm e lt small =
    ap (bit_or 32 pa) (bit_or-present perm small)
    ∙ bit_or-aligned pa (perm / 2 * 2 + 1) e lt (omega arith)

page_self : (a : ℕ) → a % 4096 ≡ 0 → page_round_down a ≡ a
unfolding page_round_down
page_self a e = omega arith

last_page :
    (a : ℕ) → a % 4096 ≡ 0 → a < 2 ^ 32 → page_round_down ((a + pgsize + (2 ^ 32 - 1)) % 2 ^ 32) ≡ a
unfolding page_round_down
last_page a e lt = omega arith

one_round : (a : ℕ) → (a + 2 ^ 32 - a) % 2 ^ 32 / pgsize + 1 ≡ 1
one_round a = omega arith

mappages_one :
    (s : Kmem) (pgdir a pa perm : ℕ)
    → a % 4096 ≡ 0
    → a < 2 ^ 32
    → mappages pgdir a pgsize pa perm s ≡ map_from pgdir 1 a a pa perm s
unfolding mappages
mappages_one s pgdir a pa perm e lt = rw (page_self a e, last_page a e lt, one_round a) refl

last_branch :
    (b : Bool) (m : M Bool) (t : Kmem)
    → b ≡ true
    → (elim b as (λ x. M Bool) [ true ↦ pure true | false ↦ m ]) t ≡ ok true t
last_branch true m t e = refl
last_branch false m t e = absurd (ground arith)

-- `mappages` of one page.
module _ (s : Kmem) (pgdir a pa perm : ℕ) (h : IsTables s.mem pgdir)
    (free : s.freelist ≢ 0 → IsUnused s.mem pgdir s.freelist) where
  map_none : walkpgdir pgdir a true s ≡ (0, s) → map_from pgdir 1 a a pa perm s ≡ ok false s
  unfolding map_from map_page
  map_none e = rw (e) refl

  map_last :
      (t : Kmem)
      → map_page pgdir a pa perm s ≡ ok true t
      → map_from pgdir 1 a a pa perm s ≡ ok true t
  unfolding map_from
  map_last t e = rw (e) (last_branch (a == a) (pure true) t (self_test a))

  map_one :
      (pte : ℕ) (t : Kmem)
      → walkpgdir pgdir a true s ≡ (pte, t)
      → Walked s pgdir a pte t
      → present (entry s.mem pgdir a) ≡ false
      → map_page pgdir a pa perm s
        ≡ ok true (record t { mem = update t.mem pte (bit_or 32 pa (bit_or 32 perm 1)) })
  unfolding map_page
  map_one pte t e w absent =
      rw
        (
          e,
          nonzero_test pte
              (λ z. w.tables.somewhere (pdx a) (pdx_small a) w.there (omega (arith, z, w.place))),
          ap present (ap t.mem w.place ∙ sym (entry-there t.mem pgdir a w.there) ∙ w.same a)
              ∙ absent,
        )
        refl

  Mapped-written :
      (pte : ℕ) (t : Kmem)
      → Walked s pgdir a pte t
      → pa % 4096 ≡ 0
      → pa < 2 ^ 32
      → perm < 4096
      → Mapped s pgdir a pa perm
          (record t { mem = update t.mem pte (bit_or 32 pa (bit_or 32 perm 1)) })
  Mapped-written pte t w e lt small =
      let word = bit_or 32 pa (bit_or 32 perm 1) in
      subst (λ p. Mapped s pgdir a pa perm (record t { mem = update t.mem p word })) (sym w.place)
        (record {
          tables =
              IsTables-same t.mem (update t.mem (slot t.mem pgdir a word w.tables w.there) word)
                pgdir (directory_kept t.mem pgdir a word w.tables w.there) w.tables;
          mapped =
              entry_written t.mem pgdir a word w.tables w.there ∙ flags_word pa perm e lt small;
          others = λ b ne. entry_kept t.mem pgdir a word w.tables w.there b ne ∙ w.same b;
        })

-- `mappages` of one page that has no mapping, in a table whose pages are apart from each other and from
-- the free page that `kalloc` would give. It maps that page to `pa` with the flags and PTE_P, and keeps
-- the mappings of all other pages, also where it makes a page table; or it fails and changes
-- nothing, when no page is free.
pub mappages_lem :
    (s : Kmem) (pgdir a pa perm : ℕ)
    → IsTables s.mem pgdir
    → (s.freelist ≢ 0 → IsUnused s.mem pgdir s.freelist)
    → a % 4096 ≡ 0
    → a < 2 ^ 32
    → pa % 4096 ≡ 0
    → pa < 2 ^ 32
    → perm < 4096
    → present (entry s.mem pgdir a) ≡ false
    → ((mappages pgdir a pgsize pa perm s ≡ ok false s) × (s.freelist ≡ 0))
      ⊎ ((t : Kmem) × (mappages pgdir a pgsize pa perm s ≡ ok true t) × Mapped s pgdir a pa perm t)
mappages_lem s pgdir a pa perm h free ea la ep lp small absent =
    elim (walkpgdir_lem s pgdir a h free) [
      | inl (e, none) ↦
          inl (mappages_one s pgdir a pa perm ea la ∙ map_none s pgdir a pa perm h free e, none)
      | inr (pte, t, e, w) ↦ inr (
        record t { mem = update t.mem pte (bit_or 32 pa (bit_or 32 perm 1)) },
        mappages_one s pgdir a pa perm ea la
            ∙ map_last s pgdir a pa perm h free
                (record t { mem = update t.mem pte (bit_or 32 pa (bit_or 32 perm 1)) })
                (map_one s pgdir a pa perm h free pte t e w absent),
        Mapped-written s pgdir a pa perm h free pte t w ep lp small,
      )
    ]
