-- ===== src/Kalloc/Chain.antt =====
-- kalloc.c: the free list that is threaded through the free pages, as a list of pages.
use homework.Prelude.{
  count, ℕ, ◌+◌, ◌%◌, ◌≤◌, ◌<◌, ◌≡◌, refl, sym, ap, ◌∙◌, subst, ◌≢◌, ◌⊎◌, inl, inr, false, some,
  List, [], ◌∷◌, ◌==◌, update, update_self, update_ne, dec_lt, arith,
}
use homework.Kalloc.Defs.{Kmem, pgsize, kernbase, phystop, v2p, bad_page, junk, kfree, kalloc}

-- `head` and the first words of the pages spell the list.
abbrev pub Chain : (ℕ → ℕ) → ℕ → List ℕ → Type 0
Chain mem head [] = head ≡ 0
Chain mem head (q ∷ qs) = (head ≡ q) × Chain mem (mem q) qs

-- What `kfree` takes: an aligned address behind the kernel's image, in the memory that is mapped.
pub record IsPage (first v : ℕ) : Type 0 where
  pub aligned : v % pgsize ≡ 0
  pub behind : first ≤ v
  pub above : kernbase ≤ v
  pub below : v < kernbase + phystop

pub Chain-frame :
    (mem mem' : ℕ → ℕ) (head : ℕ) (qs : List ℕ)
    → ((q : ℕ) → 1 ≤ count q qs → mem' q ≡ mem q)
    → Chain mem head qs
    → Chain mem' head qs
Chain-frame mem mem' head [] same c = c
Chain-frame mem mem' head (q ∷ qs) same c = (
  c.0,
  subst (λ h. Chain mem' h qs) (sym (same q (ground arith)))
      (Chain-frame mem mem' (mem q) qs (λ p h. same p (ground arith)) c.1),
)

pub bad_page-IsPage : (first v : ℕ) → IsPage first v → bad_page first v ≡ false
unfolding bad_page v2p
bad_page-IsPage first v p =
    let a = p.aligned in let b = p.behind in let c = p.above in let d = p.below in ground arith

-- Two different pages do not overlap: the junk in one is not in the other.
junk_outside : (v a : ℕ) (mem : ℕ → ℕ) → (a < v) ⊎ (v + pgsize ≤ a) → junk v mem a ≡ mem a
unfolding junk
junk_outside v a mem h = elim h [ inl l ↦ ground arith | inr l ↦ ground arith ]

pub pages_apart :
    (first v q : ℕ) → IsPage first v → IsPage first q → v ≢ q → (q < v) ⊎ (v + pgsize ≤ q)
pages_apart first v q pv pq ne =
    let a = pv.aligned in
    let b = pq.aligned in elim (dec_lt q v) [ yes l ↦ inl l | no l ↦ inr (omega arith) ]

-- What `kfree` leaves of an allocator whose free pages are `free`: the page in front of them, and all
-- words outside the page as they were.
pub record Freed (v : ℕ) (free : List ℕ) (k k' : Kmem) : Type 0 where
  pub chain : Chain k'.mem k'.freelist (v ∷ free)
  pub outside : (a : ℕ) → (a < v) ⊎ (v + pgsize ≤ a) → k'.mem a ≡ k.mem a

-- `kfree` of a page that is not free, in an allocator whose free pages are `free`, does not panic: it
-- puts the page in front of the free pages, and changes no word outside it.
pub kfree_lem :
    (first v : ℕ) (free : List ℕ) (k : Kmem)
    → Chain k.mem k.freelist free
    → IsPage first v
    → count v free ≡ 0
    → ((q : ℕ) → 1 ≤ count q free → IsPage first q)
    → (k' : Kmem) × (kfree first v k ≡ some k') × Freed v free k k'
unfolding kfree
kfree_lem first v free k c pv fresh pages = (
  record { freelist = v; mem = update (junk v k.mem) v k.freelist },
  rw (bad_page-IsPage first v pv),
  record {
    chain = (
      refl,
      subst (λ h. Chain (update (junk v k.mem) v k.freelist) h free)
          (sym (update_self (junk v k.mem) v k.freelist))
          (Chain-frame k.mem (update (junk v k.mem) v k.freelist) k.freelist free
            (λ q h.
              let ne : v ≢ q = λ e. absurd (omega (arith, ap (λ x. count x free) e)) in
              update_ne (junk v k.mem) v k.freelist q ne
              ∙ junk_outside v q k.mem (pages_apart first v q pv (pages q h) ne))
            c),
    );
    outside = λ a h.
        update_ne (junk v k.mem) v k.freelist a
          (λ e. elim h [ inl l ↦ omega arith | inr l ↦ omega arith ])
        ∙ junk_outside v a k.mem h;
  },
)

-- What `kalloc` does where the free pages are the list.
pub data Allocated (k : Kmem) : List ℕ → Type 0 where
  exhausted : kalloc k ≡ (0, k) → Allocated k []
  page :
      {v : ℕ} {free : List ℕ} {k' : Kmem}
      → kalloc k ≡ (v, k')
      → Chain k'.mem k'.freelist free
      → k'.mem ≡ k.mem
      → Allocated k (v ∷ free)

-- `kalloc` of an allocator whose free pages are `free`, none of them 0: it returns 0 and changes
-- nothing if there is none, and otherwise the first, with the others free and the memory unchanged.
pub kalloc_lem :
    (k : Kmem) (free : List ℕ)
    → Chain k.mem k.freelist free
    → ((q : ℕ) → 1 ≤ count q free → q ≢ 0)
    → Allocated k free
unfolding kalloc
kalloc_lem k [] c pages = exhausted (rw c)
kalloc_lem k (v ∷ free) c pages =
    let ne : v ≢ 0 = pages v (ground arith) in
    let test : (v == 0) ≡ false = ground arith in
    page {k' = record { freelist = k.mem v; mem = k.mem }} (rw (c.0, test)) c.1 refl
