-- ===== src/Bcache/Contents.antt =====
-- bio.c: a cache in which no block has two buffers, and changes of one buffer.
use homework.Prelude.{
  ℕ, ◌≤◌, ◌<◌, ◌≡◌, ◌≢◌, ◌↔◌, refl, sym, ap, ◌∙◌, subst, true, false, List, count, length, update,
  update_self, update_ne, ℕ_discrete, arith,
}
use homework.Bcache.Defs.{Slot, Bcache, nbuf, matches, is_free, set_slot}
use homework.Bcache.Links.{IsRing}

-- The list has every buffer, and no block of a device has two.
pub record IsCache (c : Bcache) (order : List ℕ) : Type 0 where
  pub ring : IsRing c order
  pub few : length order ≤ nbuf
  pub all : (b : ℕ) → b < nbuf → 1 ≤ count b order
  pub only : (b : ℕ) → 1 ≤ count b order → b < nbuf
  pub unique :
      (b b' : ℕ)
      → b < nbuf
      → b' < nbuf
      → (c.buf b).dev ≢ 0
      → (c.buf b).dev ≡ (c.buf b').dev
      → (c.buf b).blockno ≡ (c.buf b').blockno
      → b ≡ b'

abbrev pub IsFor : (dev blockno : ℕ) → Slot → Type 0
IsFor dev blockno v = (v.dev ≡ dev) × (v.blockno ≡ blockno)

-- A buffer that may be recycled.
abbrev pub IsIdle : Slot → Type 0
IsIdle v = (v.refcnt ≡ 0) × (v.dirty ≡ false)

-- No buffer is for the block.
abbrev pub Missing : Bcache → (dev blockno : ℕ) → Type 0
Missing c dev blockno = (j : ℕ) → j < nbuf → ¬ IsFor dev blockno (c.buf j)

pub matches_iff :
    (dev blockno : ℕ) (v : Slot) → (matches dev blockno v ≡ true) ↔ IsFor dev blockno v
unfolding matches
matches_iff dev blockno v = ground arith

pub not-matches :
    (dev blockno : ℕ) (v : Slot) → matches dev blockno v ≡ false → ¬ IsFor dev blockno v
not-matches dev blockno v e is = absurd (cc (e, (matches_iff dev blockno v).1 is))

pub is_free_iff : (v : Slot) → (is_free v ≡ true) ↔ IsIdle v
unfolding is_free
is_free_iff v = ground arith

pub not-is_free : (v : Slot) → is_free v ≡ false → ¬ IsIdle v
not-is_free v e is = absurd (cc (e, (is_free_iff v).1 is))

-- Buffer `b` has become `v`, and nothing else has changed.
pub record Becomes (b : ℕ) (v : Slot) (c c' : Bcache) : Type 0 where
  pub slot : c'.buf b ≡ v
  pub others : (j : ℕ) → b ≢ j → c'.buf j ≡ c.buf j
  pub same_next : c'.next ≡ c.next
  pub same_prev : c'.prev ≡ c.prev

pub set_slot-Becomes : (b : ℕ) (v : Slot) (c : Bcache) → Becomes b v c (set_slot b v c)
set_slot-Becomes b v c = record {
  slot = update_self c.buf b v;
  others = λ j ne. update_ne c.buf b v j ne;
  same_next = refl;
  same_prev = refl;
}

-- Another slot for a buffer keeps the cache, if no other buffer has its block.
pub IsCache-set_slot :
    (c : Bcache) (order : List ℕ) (b : ℕ) (v : Slot)
    → IsCache c order
    → ((j : ℕ)
        → j < nbuf
        → b ≢ j
        → v.dev ≢ 0
        → v.dev ≡ (c.buf j).dev
        → v.blockno ≢ (c.buf j).blockno)
    → IsCache (set_slot b v c) order
IsCache-set_slot c order b v h other =
    let slots = update c.buf b v in
    let here : (j : ℕ) → b ≡ j → slots j ≡ v =
      λ j d. subst (λ i. slots i ≡ v) d (update_self c.buf b v) in
    let there : (j : ℕ) → b ≢ j → slots j ≡ c.buf j = λ j n. update_ne c.buf b v j n in
    record {
      ring = record { path = h.ring.path; once = h.ring.once };
      few = h.few;
      all = h.all;
      only = h.only;
      unique = λ j k lj lk nz ed eb. elim (ℕ_discrete b j) [
        | yes dj ↦ elim (ℕ_discrete b k) [
          | yes dk ↦ sym dj ∙ dk
          | no nk ↦
              let p = here j dj in
              let q = there k nk in
              absurd (
                other k lk nk (λ z. nz (ap (λ x. x.dev) p ∙ z))
                  (sym (ap (λ x. x.dev) p) ∙ ed ∙ ap (λ x. x.dev) q)
                  (sym (ap (λ x. x.blockno) p) ∙ eb ∙ ap (λ x. x.blockno) q))
        ]
        | no nj ↦ elim (ℕ_discrete b k) [
          | yes dk ↦
              let p = there j nj in
              let q = here k dk in
              absurd (
                other j lj nj (λ z. nz (ed ∙ ap (λ x. x.dev) q ∙ z))
                  (sym (ap (λ x. x.dev) q) ∙ sym ed ∙ ap (λ x. x.dev) p)
                  (sym (ap (λ x. x.blockno) q) ∙ sym eb ∙ ap (λ x. x.blockno) p))
          | no nk ↦
              let p = there j nj in
              let q = there k nk in
              h.unique j k lj lk (λ z. nz (ap (λ x. x.dev) p ∙ z))
                (sym (ap (λ x. x.dev) p) ∙ ed ∙ ap (λ x. x.dev) q)
                (sym (ap (λ x. x.blockno) p) ∙ eb ∙ ap (λ x. x.blockno) q)
        ]
      ];
    }
