-- ===== src/Vm/Examples.antt =====
-- Runs on page tables.
use homework.Prelude.{ℕ, ◌≡◌, refl, true, false, ◌⊎◌, ◌==◌, if◌then◌else◌, arith, ◌+◌}
use homework.Kalloc.{Kmem, pgsize}
use homework.Kalloc.{v2p}
use homework.Vm.Machine.{ok, panic, present, bit_or, page_round_down}
use homework.Vm.Tables.{mappages}
use homework.Vm.Copy.{uva2ka}
use homework.Vm.Space.{allocuvm}
use homework.Vm.Entries.{IsTables, IsUnused, entry}
use homework.Vm.Mapping.{Mapped, mappages_lem}

-- A directory without entries, and one free page.
abbrev pgdir : ℕ
pgdir = 2148536320

abbrev bare : Kmem
bare = record { freelist = 2148540416; mem = λ a. 0 }

bare-IsTables : IsTables bare.mem pgdir
unfolding present
bare-IsTables = record {
  aligned = refl;
  apart = λ i lt p. absurd (ground arith);
  somewhere = λ i lt p. absurd (ground arith);
  distinct = λ i j li lj ne p q. absurd (ground arith);
}

bare-IsUnused : IsUnused bare.mem pgdir bare.freelist
unfolding present
bare-IsUnused = record {
  is_page = refl;
  above = omega arith;
  below = omega arith;
  not_pgdir = omega arith;
  not_table = λ i lt p. absurd (ground arith);
}

nothing_mapped : present (entry bare.mem pgdir 8192) ≡ false
unfolding present entry
nothing_mapped = refl

mappages_lem_example :
    ((mappages pgdir 8192 pgsize 20480 6 bare ≡ ok false bare) × (bare.freelist ≡ 0))
    ⊎ ((t : Kmem) × (mappages pgdir 8192 pgsize 20480 6 bare ≡ ok true t)
        × Mapped bare pgdir 8192 20480 6 t)
mappages_lem_example =
    mappages_lem bare pgdir 8192 20480 6 bare-IsTables (λ ne. bare-IsUnused) refl (omega arith) refl
      (omega arith) (omega arith) nothing_mapped

-- The page that has been mapped is found, and one without a table is looked for at address 0.
uva2ka-test :
    elim (mappages pgdir 8192 pgsize 20480 6 bare) [
      | panic ↦ 0
      | ok b t ↦ elim (uva2ka pgdir 8192 t) [ panic ↦ 1 | ok ka u ↦ ka ]
    ]
    ≡ 2147504128
unfolding mappages uva2ka bit_or page_round_down present v2p
uva2ka-test = refl

uva2ka_null-test :
    uva2ka pgdir 8192 (record { freelist = 0; mem = λ a. if a == 0 then 4103 else 0 })
    ≡ ok 2147487744 (record { freelist = 0; mem = λ a. if a == 0 then 4103 else 0 })
unfolding uva2ka
uva2ka_null-test = refl

-- Growth into the second page fails for want of a page and frees what it took.
allocuvm-test :
    elim (allocuvm 2148532224 pgdir 0 5000 bare) [ panic ↦ 0 | ok sz t ↦ sz + t.freelist ]
    ≡ 2148540416
unfolding allocuvm bit_or page_round_down
allocuvm-test = refl
