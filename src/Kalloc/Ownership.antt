-- ===== src/Kalloc/Ownership.antt =====
-- kalloc.c: the allocator with its users, in any order of calls and of writes to pages.
use homework.Prelude.{
  count, count-append, ℕ, ◌+◌, ◌≤◌, ◌<◌, ◌≡◌, refl, sym, ap, ◌∙◌, subst, ◌≢◌, inl, inr, some, List,
  [], ◌∷◌, ◌++◌, update, update_ne, arith,
}
use mathlib.Core.Option.{some_inj}
use homework.Kalloc.Defs.{Kmem, pgsize, kfree, kalloc}
use homework.Kalloc.Chain.{
  Chain, Chain-frame, IsPage, Freed, kfree_lem, Allocated, exhausted, page, kalloc_lem, pages_apart,
}

-- The allocator with the pages that its users hold.
pub record Machine : Type 0 where
  pub kmem : Kmem
  pub held : List ℕ

-- A user asks for a page, gives back one that it holds, or writes a word of one that it holds.
pub data Step (first : ℕ) (s : Machine) : Machine → Type 0 where
  refused : {k : Kmem} → kalloc s.kmem ≡ (0, k) → Step first s (record { kmem = k; held = s.held })
  gets :
      {v : ℕ} {k : Kmem}
      → kalloc s.kmem ≡ (v, k)
      → v ≢ 0
      → Step first s (record { kmem = k; held = v ∷ s.held })
  frees :
      (v : ℕ) (before after : List ℕ) {k : Kmem}
      → s.held ≡ before ++ v ∷ after
      → kfree first v s.kmem ≡ some k
      → Step first s (record { kmem = k; held = before ++ after })
  writes :
      (v a w : ℕ)
      → 1 ≤ count v s.held
      → v ≤ a
      → a < v + pgsize
      → Step first s
          (record { kmem = record s.kmem { mem = update s.kmem.mem a w }; held = s.held })

pub data Reach (first : ℕ) (s : Machine) : Machine → Type 0 where
  here : Reach first s s
  later : {t u : Machine} → Reach first s t → Step first t u → Reach first s u

-- Each of the pages `all` is either free or held by one user, and no other page is.
pub record IsOwned (all : List ℕ) (s : Machine) : Type 0 where
  pub free : List ℕ
  pub chain : Chain s.kmem.mem s.kmem.freelist free
  pub split : (v : ℕ) → count v s.held + count v free ≡ count v all

-- Different pages of the memory that `kfree` takes.
pub record IsPages (first : ℕ) (all : List ℕ) : Type 0 where
  pub once : (v : ℕ) → count v all ≤ 1
  pub pages : (v : ℕ) → 1 ≤ count v all → IsPage first v

-- What a successful and a failed `kalloc` say of the free pages.
allocated_page :
    {k k' : Kmem} {v : ℕ} {free : List ℕ}
    → Allocated k free
    → kalloc k ≡ (v, k')
    → v ≢ 0
    → (rest : List ℕ) × (free ≡ v ∷ rest) × Chain k'.mem k'.freelist rest
allocated_page (exhausted e) e' ne = absurd (ne (ap (λ r. r.0) (sym e' ∙ e)))
allocated_page {k' = k'} {v = v} (page {v = u} {free = rest} {k' = l} e c m) e' ne = (
  rest,
  ap (λ x. x ∷ rest) (ap (λ r. r.0) (sym e ∙ e')),
  subst (λ j. Chain j.mem j.freelist rest) (ap (λ r. r.1) (sym e ∙ e')) c,
)

allocated_none :
    {k k' : Kmem} {free : List ℕ}
    → Allocated k free
    → ((q : ℕ) → 1 ≤ count q free → q ≢ 0)
    → kalloc k ≡ (0, k')
    → (free ≡ []) × (k' ≡ k)
allocated_none (exhausted e) nz e' = (refl, ap (λ r. r.1) (sym e' ∙ e))
allocated_none (page {v = u} e c m) nz e' =
    absurd (nz u (ground arith) (ap (λ r. r.0) (sym e ∙ e')))

self : (v : ℕ) (after : List ℕ) → 1 ≤ count v (v ∷ after)
self v after = ground arith

module _ {first : ℕ} {all : List ℕ} (good : IsPages first all) where
  free-IsPage : {s : Machine} (o : IsOwned all s) (v : ℕ) → 1 ≤ count v o.free → IsPage first v
  free-IsPage o v h = good.pages v (omega (arith, o.split v))

  free_nonzero : {s : Machine} (o : IsOwned all s) (v : ℕ) → 1 ≤ count v o.free → v ≢ 0
  free_nonzero o v h = let p = free-IsPage o v h in let b = p.above in λ e. omega arith

  -- A user that holds a page can give it back: `kfree` does not panic, and the page is free then.
  kfree_held :
      {s : Machine} (o : IsOwned all s) (v : ℕ)
      → 1 ≤ count v s.held
      → (k : Kmem) × (kfree first v s.kmem ≡ some k) × Freed v o.free s.kmem k
  kfree_held {s} o v h =
      kfree_lem first v o.free s.kmem o.chain (good.pages v (omega (arith, o.split v)))
        (omega (arith, o.split v, good.once v)) (free-IsPage o)

  step-IsOwned : {s t : Machine} → IsOwned all s → Step first s t → IsOwned all t
  step-IsOwned {s} o (refused e) =
      let (none_free, same) =
        allocated_none (kalloc_lem s.kmem o.free o.chain (free_nonzero o)) (free_nonzero o) e in
      record {
        free = o.free;
        chain = subst (λ k. Chain k.mem k.freelist o.free) (sym same) o.chain;
        split = o.split;
      }
  step-IsOwned {s} o (gets {v = v} e ne) =
      let (rest, eq, c) = allocated_page (kalloc_lem s.kmem o.free o.chain (free_nonzero o)) e ne in
      record { free = rest; chain = c; split = λ q. omega (arith, o.split q, ap (count q) eq) }
  step-IsOwned {s} o (frees v before after {k} eq e) =
      let held_v : (q : ℕ) → count q s.held ≡ count q before + count q (v ∷ after) =
        λ q. ap (count q) eq ∙ count-append q before (v ∷ after) in
      let (k', e', f) = kfree_held o v (omega (arith, held_v v, self v after)) in
      record {
        free = v ∷ o.free;
        chain = subst (λ j. Chain j.mem j.freelist (v ∷ o.free)) (some_inj.0 (sym e' ∙ e)) f.chain;
        split = λ q. omega (arith, o.split q, held_v q, count-append q before after);
      }
  step-IsOwned {s} o (writes v a w h le lt) = record {
    free = o.free;
    chain =
        Chain-frame s.kmem.mem (update s.kmem.mem a w) s.kmem.freelist o.free
          (λ q hq. update_ne s.kmem.mem a w q (λ e.
            elim (pages_apart first v q (good.pages v (omega (arith, o.split v)))
              (free-IsPage o q hq)
              (λ d. absurd (omega (arith, o.split q, good.once q, ap (λ x. count x s.held) d)))) [
                | inl l ↦ omega arith
                | inr l ↦ omega arith
              ]))
          o.chain;
    split = o.split;
  }

  -- Whatever the users do with the pages that they hold, each page stays free or held by one user.
  pub Reach-IsOwned : {s t : Machine} → IsOwned all s → Reach first s t → IsOwned all t
  Reach-IsOwned o here = o
  Reach-IsOwned o (later r st) = step-IsOwned (Reach-IsOwned o r) st
