-- ===== src/Bcache/Links.antt =====
-- bio.c: the list of buffers as a list, and what the assignments do to it.
use homework.Prelude.{
  ℕ, suc, ◌+◌, ◌≤◌, ◌≡◌, ◌≢◌, refl, sym, ap, ◌∙◌, subst, List, [], ◌∷◌, ◌++◌, count, count-append,
  update, update_self, update_ne, ℕ_discrete, arith,
}
use homework.Bcache.Defs.{Bcache, head, push_front}

-- The pointers lead from `a` through the list, and back.
abbrev pub PathOf : (next prev : ℕ → ℕ) → ℕ → List ℕ → Type 0
PathOf next prev a [] = Unit {0}
PathOf next prev a (x ∷ xs) = (next a ≡ x) × (prev x ≡ a) × PathOf next prev x xs

-- The end of a path, and what is in front of its end.
abbrev pub end_of : ℕ → List ℕ → ℕ
end_of a [] = a
end_of a (x ∷ xs) = end_of x xs

abbrev pub front : ℕ → List ℕ → List ℕ
front a [] = []
front a (x ∷ xs) = a ∷ front x xs

-- The list of the cache, the most recently used buffer first, with no buffer twice.
pub record IsRing (c : Bcache) (order : List ℕ) : Type 0 where
  pub path : PathOf c.next c.prev head (order ++ head ∷ [])
  pub once : (j : ℕ) → count j (head ∷ order) ≤ 1

pub Path-frame :
    (next prev next' prev' : ℕ → ℕ) (a : ℕ) (xs : List ℕ)
    → ((j : ℕ) → 1 ≤ count j (front a xs) → next' j ≡ next j)
    → ((j : ℕ) → 1 ≤ count j xs → prev' j ≡ prev j)
    → PathOf next prev a xs
    → PathOf next' prev' a xs
Path-frame next prev next' prev' a [] hn hp t = tt
Path-frame next prev next' prev' a (x ∷ xs) hn hp (e, e', t) = (
  hn a (ground arith) ∙ e,
  hp x (ground arith) ∙ e',
  Path-frame next prev next' prev' x xs (λ j h. hn j (ground arith)) (λ j h. hp j (ground arith)) t,
)

pub Path-left :
    (next prev : ℕ → ℕ) (a : ℕ) (xs ys : List ℕ)
    → PathOf next prev a (xs ++ ys)
    → PathOf next prev a xs
Path-left next prev a [] ys t = tt
Path-left next prev a (x ∷ xs) ys (e, e', t) = (e, e', Path-left next prev x xs ys t)

pub Path-right :
    (next prev : ℕ → ℕ) (a : ℕ) (xs ys : List ℕ)
    → PathOf next prev a (xs ++ ys)
    → PathOf next prev (end_of a xs) ys
Path-right next prev a [] ys t = t
Path-right next prev a (x ∷ xs) ys (e, e', t) = Path-right next prev x xs ys t

pub Path-join :
    (next prev : ℕ → ℕ) (a : ℕ) (xs ys : List ℕ)
    → PathOf next prev a xs
    → PathOf next prev (end_of a xs) ys
    → PathOf next prev a (xs ++ ys)
Path-join next prev a [] ys t u = u
Path-join next prev a (x ∷ xs) ys (e, e', t) u = (e, e', Path-join next prev x xs ys t u)

pub count-front :
    (j a : ℕ) (xs : List ℕ) → count j (front a xs) + count j (end_of a xs ∷ []) ≡ count j (a ∷ xs)
count-front j a [] = omega arith
count-front j a (x ∷ xs) = omega (arith, count-front j x xs)

count_self : (a : ℕ) → count a (a ∷ []) ≡ 1
count_self a = ground arith

pub end_of-mem : (a : ℕ) (xs : List ℕ) → 1 ≤ count (end_of a xs) (a ∷ xs)
end_of-mem a xs = omega (arith, count-front (end_of a xs) a xs, count_self (end_of a xs))

front-snoc : (a h : ℕ) (xs : List ℕ) → front a (xs ++ h ∷ []) ≡ a ∷ xs
front-snoc a h [] = refl
front-snoc a h (x ∷ xs) = ap (λ ys. a ∷ ys) (front-snoc x h xs)

-- The rest of the ring behind a buffer, up to `head`.
pub record Rest (ys : List ℕ) : Type 0 where
  pub first : ℕ
  pub later : List ℕ
  pub same : ys ++ head ∷ [] ≡ first ∷ later
  pub fronts : (j : ℕ) → count j (front first later) ≡ count j ys
  pub counts : (j : ℕ) → count j (first ∷ later) ≡ count j ys + count j (head ∷ [])

pub rest_of : (ys : List ℕ) → Rest ys
rest_of [] = record {
  first = head;
  later = [];
  same = refl;
  fronts = λ j. refl;
  counts = λ j. omega arith;
}
rest_of (y ∷ ys) = record {
  first = y;
  later = ys ++ head ∷ [];
  same = refl;
  fronts = λ j. ap (count j) (front-snoc y head ys);
  counts = λ j. count-append j (y ∷ ys) (head ∷ []);
}

pub absent_ne : (j b : ℕ) (xs : List ℕ) → count b xs ≡ 0 → 1 ≤ count j xs → b ≢ j
absent_ne j b xs z h e = absurd (omega (arith, ap (λ k. count k xs) e))

pub count-here : (a : ℕ) (xs : List ℕ) → count a (a ∷ xs) ≡ suc (count a xs)
count-here a xs = ground arith

count-cons_ne : (j b : ℕ) (xs : List ℕ) → b ≢ j → count j (b ∷ xs) ≡ count j xs
count-cons_ne j b xs ne = ground arith

-- A buffer that is nowhere stays out, and comes in once.
once_more :
    (b : ℕ) (xs : List ℕ)
    → count b xs ≡ 0
    → ((j : ℕ) → count j xs ≤ 1)
    → (j : ℕ) → count j (b ∷ xs) ≤ 1
once_more b xs z once j = elim (ℕ_discrete b j) [
  | yes d ↦ subst (λ k. count k (b ∷ xs) ≤ 1) d (omega (arith, count-here b xs, z))
  | no ne ↦ omega (arith, count-cons_ne j b xs ne, once j)
]

-- What is behind `head` in the ring.
module _ (order : List ℕ) (once : (j : ℕ) → count j (head ∷ order) ≤ 1) where
  abbrev r : Rest order
  r = rest_of order

  count-ring : (j : ℕ) → count j (r.first ∷ r.later) ≡ count j (head ∷ order)
  count-ring j = omega (arith, r.counts j)

  head-absent : count head order ≡ 0
  head-absent = omega (arith, count-here head order, once head)

  first-mem : 1 ≤ count r.first (head ∷ order)
  first-mem = omega (arith, count-ring r.first, count-here r.first r.later)

  first-absent : count r.first r.later ≡ 0
  first-absent = omega (arith, count-ring r.first, count-here r.first r.later, once r.first)

  later_le : (j : ℕ) → count j r.later ≤ count j (head ∷ order)
  later_le j = omega (arith, count-ring j)

module _ (c : Bcache) (b : ℕ) (order : List ℕ) (h : IsRing c order)
    (new : count b (head ∷ order) ≡ 0) where
  -- `push_front` puts a buffer in front of the list.
  pub push_front-IsRing : IsRing (push_front b c) (b ∷ order)
  unfolding push_front
  push_front-IsRing =
      let rest = r order h.once in
      let z = head-absent order h.once in
      let zb : count b order ≡ 0 = omega (arith, new) in
      let (e, e', t) : PathOf c.next c.prev head (rest.first ∷ rest.later) =
        subst (PathOf c.next c.prev head) rest.same h.path in
      let other : head ≢ b = λ q.
        absurd (omega (arith, ap (λ k. count k (head ∷ order)) q, new, count-here head order)) in
      record {
        path = (
          update_self (update c.next b (c.next head)) head b,
          update_ne (update c.prev b head) (c.next head) b b (λ q.
                absent_ne rest.first b (head ∷ order) new (first-mem order h.once) (sym q ∙ e))
              ∙ update_self c.prev b head,
          subst (PathOf (push_front b c).next (push_front b c).prev b) (sym rest.same) (
            update_ne (update c.next b (c.next head)) head b b other
                ∙ update_self c.next b (c.next head)
                ∙ e,
            ap (push_front b c).prev (sym e) ∙ update_self (update c.prev b head) (c.next head) b,
            Path-frame c.next c.prev (push_front b c).next (push_front b c).prev rest.first
                rest.later
                (λ j m.
                  let k : 1 ≤ count j order = omega (arith, m, rest.fronts j) in
                  update_ne (update c.next b (c.next head)) head b j (absent_ne j head order z k)
                  ∙ update_ne c.next b (c.next head) j (absent_ne j b order zb k))
                (λ j m.
                  update_ne (update c.prev b head) (c.next head) b j (λ q.
                    absent_ne j rest.first rest.later (first-absent order h.once) m (sym e ∙ q))
                  ∙ update_ne c.prev b head j
                      (absent_ne j b rest.later (omega (arith, later_le order h.once b, new)) m))
                t,
          ),
        );
        once = λ j. omega (arith, once_more b (head ∷ order) new h.once j);
      }
