-- ===== src/Kalloc/Defs.antt =====
-- kalloc.c: `kfree`, `kalloc` and `freerange`. A free page holds the address of the next free page in
-- its first word; `mem` is the word at each address that is a multiple of 4. `first` is `end`, the
-- address behind the kernel's image, which the linker sets. `none` is a panic. The lock and its
-- `use_lock` are not in it: each function is one critical section.
use homework.Prelude.{
  ℕ, zero, suc, ◌+◌, ◌-◌, ◌*◌, ◌/◌, ◌%◌, ◌^◌, Bool, true, false, not, ◌||◌, ◌&&◌, Option, none,
  some, ltb, leb, ◌==◌, if◌then◌else◌, update,
}

abbrev pub pgsize : ℕ
pgsize = 4096

abbrev pub kernbase : ℕ
kernbase = 2147483648

abbrev pub phystop : ℕ
phystop = 234881024

pub record Kmem : Type 0 where
  pub freelist : ℕ
  pub mem : ℕ → ℕ

-- On `uint`, so the subtraction wraps.
unfoldable pub v2p : ℕ → ℕ
v2p a = (a + (2 ^ 32 - kernbase)) % 2 ^ 32

unfoldable pub page_round_up : ℕ → ℕ
page_round_up sz = (sz + pgsize - 1) / pgsize * pgsize

unfoldable pub bad_page : ℕ → ℕ → Bool
unfolding v2p
bad_page first v = not (v % pgsize == 0) || (ltb v first || leb phystop (v2p v))

-- `memset(v, 1, PGSIZE)`, word by word.
unfoldable pub junk : ℕ → (ℕ → ℕ) → ℕ → ℕ
junk v mem a = if leb v a && ltb a (v + pgsize) then 16843009 else mem a

unfoldable pub kfree : ℕ → ℕ → Kmem → Option Kmem
unfolding bad_page junk
kfree first v k =
    if bad_page first v
    then none
    else some (record { freelist = v; mem = update (junk v k.mem) v k.freelist })

unfoldable pub kalloc : Kmem → ℕ × Kmem
kalloc k = (k.freelist, if k.freelist == 0 then k else record k { freelist = k.mem k.freelist })

-- The loop of `freerange` from `p` on, for at most `rounds` pages.
unfoldable pub free_pages : (first rounds p vend : ℕ) → Kmem → Option Kmem
unfolding kfree
free_pages first zero p vend k = some k
free_pages first (suc n) p vend k = elim (leb (p + pgsize) vend) [
  | true ↦ elim (kfree first p k) [
    | none ↦ none
    | some k' ↦ free_pages first n (p + pgsize) vend k'
  ]
  | false ↦ some k
]

-- A range that ends at `vend` has at most `vend / pgsize` pages.
unfoldable pub freerange : (first vstart vend : ℕ) → Kmem → Option Kmem
unfolding free_pages page_round_up
freerange first vstart vend k = free_pages first (vend / pgsize) (page_round_up vstart) vend k
