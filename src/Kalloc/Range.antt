-- ===== src/Kalloc/Range.antt =====
-- kalloc.c: `freerange`, with which `kinit1` and `kinit2` fill the allocator.
use homework.Prelude.{
  count, ℕ, zero, suc, ◌+◌, ◌-◌, ◌*◌, ◌/◌, ◌%◌, ◌≤◌, ◌<◌, ◌≡◌, refl, sym, subst, ◌⊎◌, inl, inr,
  true, false, some, List, ◌∷◌, leb, dec_lt, ℕ_discrete, arith,
}
use homework.Kalloc.Defs.{Kmem, pgsize, kernbase, phystop, free_pages, freerange, page_round_up}
use homework.Kalloc.Chain.{Chain, IsPage, kfree_lem}

-- The `n` pages from `p` on, the last one first, before `free`.
abbrev pub pages_from : ℕ → ℕ → List ℕ → List ℕ
pages_from zero p free = free
pages_from (suc n) p free = pages_from n (p + pgsize) (p ∷ free)

module _ (first vend : ℕ) (top : vend ≤ kernbase + phystop) where
  free_pages_lem :
      (rounds n p : ℕ) (k : Kmem) (free : List ℕ)
      → Chain k.mem k.freelist free
      → p % pgsize ≡ 0
      → first ≤ p
      → kernbase ≤ p
      → p + n * pgsize ≤ vend
      → vend < p + n * pgsize + pgsize
      → n ≤ rounds
      → ((q : ℕ) → 1 ≤ count q free → IsPage first q × ((q < p) ⊎ (vend ≤ q)))
      → (k' : Kmem) × (free_pages first rounds p vend k ≡ some k')
        × Chain k'.mem k'.freelist (pages_from n p free)
  unfolding free_pages
  free_pages_lem zero zero p k free c al f b le lt fuel pages = (k, refl, c)
  free_pages_lem zero (suc n) p k free c al f b le lt fuel pages = absurd (omega arith)
  free_pages_lem (suc rounds) zero p k free c al f b le lt fuel pages =
      let stop : leb (p + pgsize) vend ≡ false = ground arith in (k, rw (free_pages, stop), c)
  free_pages_lem (suc rounds) (suc n) p k free c al f b le lt fuel pages =
      let go : leb (p + pgsize) vend ≡ true = ground arith in
      let here : IsPage first p = record {
        aligned = al;
        behind = f;
        above = b;
        below = omega arith;
      } in
      let fresh : count p free ≡ 0 = elim (dec_lt 0 (count p free)) [
        | yes h ↦ elim (pages p h).1 [ inl l ↦ absurd (omega arith) | inr l ↦ absurd (omega arith) ]
        | no h ↦ omega arith
      ] in
      let (k1, e1, fr) = kfree_lem first p free k c here fresh (λ q h. (pages q h).0) in
      let (k2, e2, c2) =
        free_pages_lem rounds n (p + pgsize) k1 (p ∷ free) fr.chain (omega arith) (omega arith)
          (omega arith) (omega arith) (omega arith) (omega arith)
          (λ q h. elim (ℕ_discrete q p) [
            | yes e ↦ (subst (IsPage first) (sym e) here, inl (omega arith))
            | no ne ↦
                let old = pages q (ground arith) in
                (old.0, elim old.1 [ inl l ↦ inl (omega arith) | inr l ↦ inr l ])
          ]) in
      (k2, rw (free_pages, go, e1, e2), c2)

  -- Where the range lies in the memory that `kfree` takes and no page in it is free yet,
  -- `freerange` does not panic, and frees the whole pages of the range, the last one first.
  freerange_lem :
      (vstart : ℕ) (k : Kmem) (free : List ℕ)
      → first ≤ vstart
      → kernbase ≤ vstart
      → page_round_up vstart ≤ vend
      → Chain k.mem k.freelist free
      → ((q : ℕ) → 1 ≤ count q free → IsPage first q × ((q < vstart) ⊎ (vend ≤ q)))
      → (k' : Kmem) × (freerange first vstart vend k ≡ some k')
        × Chain k'.mem k'.freelist
            (pages_from ((vend - page_round_up vstart) / pgsize) (page_round_up vstart) free)
  unfolding freerange page_round_up
  freerange_lem vstart k free f b le c pages =
      free_pages_lem (vend / pgsize) ((vend - page_round_up vstart) / pgsize) (page_round_up vstart)
        k free c (omega arith) (omega arith) (omega arith) (omega arith) (omega arith) (omega arith)
        (λ q h.
          let old = pages q h in (old.0, elim old.1 [ inl l ↦ inl (omega arith) | inr l ↦ inr l ]))
