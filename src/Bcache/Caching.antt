-- ===== src/Bcache/Caching.antt =====
-- bio.c: `bget` on a cache in which no block has two buffers.
use mathlib.Core.List.{reverse}
use homework.Prelude.{
  ℕ, ◌+◌, ◌%◌, ◌^◌, ◌≤◌, ◌<◌, ◌≡◌, ◌≢◌, refl, if◌then◌else◌, Bool, sym, ap, ◌∙◌, subst, true, false,
  Option, none, some, List, ◌∷◌, ◌++◌, count, count-append, update, update_self, update_ne, arith,
}
use homework.Bcache.Defs.{
  Slot, Bcache, nbuf, head, matches, is_free, scan, Got, got, waits, panic, set_slot, acquiresleep,
  hit, recycled, bget_found, bget,
}
use homework.Bcache.Links.{count-here}
use homework.Bcache.Lookup.{
  First, Last, scan_lem, Path-reverse, count-reverse, length-reverse, First-reverse,
}
use homework.Bcache.Contents.{
  IsCache, IsFor, IsIdle, Missing, matches_iff, not-matches, is_free_iff, not-is_free, Becomes,
  set_slot-Becomes, IsCache-set_slot,
}

-- `bget` ends with buffer `b`, which has become `v`: locked now, or locked by another process, for which
-- the caller waits.
pub data Gets (b : ℕ) (v : Slot) (c : Bcache) (order : List ℕ) : Got → Type 0 where
  at_once :
      (c' : Bcache)
      → v.locked ≡ false
      → Becomes b (record v { locked = true }) c c'
      → IsCache c' order
      → Gets b v c order (got b c')
  in_turn :
      (c' : Bcache)
      → v.locked ≡ true
      → Becomes b v c c'
      → IsCache c' order
      → Gets b v c order (waits b c')

pub data Bget (c : Bcache) (order : List ℕ) (dev blockno : ℕ) : Got → Type 0 where
  shares :
      {r : Got} (b : ℕ)
      → b < nbuf
      → IsFor dev blockno (c.buf b)
      → Gets b (record (c.buf b) { refcnt = ((c.buf b).refcnt + 1) % 2 ^ 32 }) c order r
      → Bget c order dev blockno r
  recycles :
      {r : Got} (b : ℕ) (before after : List ℕ)
      → Missing c dev blockno
      → order ≡ before ++ b ∷ after
      → IsIdle (c.buf b)
      → ((j : ℕ) → 1 ≤ count j after → ¬ IsIdle (c.buf j))
      → Gets b
          (record {
            dev = dev;
            blockno = blockno;
            refcnt = 1;
            valid = false;
            dirty = false;
            locked = (c.buf b).locked;
          })
          c
          order
          r
      → Bget c order dev blockno r
  fails :
      Missing c dev blockno
      → ((j : ℕ) → j < nbuf → ¬ IsIdle (c.buf j))
      → Bget c order dev blockno panic

module _ (c : Bcache) (order : List ℕ) (dev blockno : ℕ) (h : IsCache c order) where
  -- The buffer with its new contents, and then its lock.
  locking :
      (b : ℕ) (v : Slot) (k : Bool)
      → v.locked ≡ k
      → ((j : ℕ)
          → j < nbuf
          → b ≢ j
          → v.dev ≢ 0
          → v.dev ≡ (c.buf j).dev
          → v.blockno ≢ (c.buf j).blockno)
      → Gets b v c order (
          if k
          then waits b (set_slot b v c)
          else got b (set_slot b (record v { locked = true }) (set_slot b v c)))
  locking b v true taken other =
      in_turn (set_slot b v c) taken (set_slot-Becomes b v c) (IsCache-set_slot c order b v h other)
  locking b v false free other =
      let w : Slot = record v { locked = true } in
      at_once (set_slot b w (set_slot b v c)) free
        (record {
          slot = update_self (update c.buf b v) b w;
          others = λ j ne. update_ne (update c.buf b v) b w j ne ∙ update_ne c.buf b v j ne;
          same_next = refl;
          same_prev = refl;
        })
        (IsCache-set_slot (set_slot b v c) order b w (IsCache-set_slot c order b v h other)
          (λ j l n nz ed eb.
            let keeps = update_ne c.buf b v j n in
            other j l n nz (ed ∙ ap (λ x. x.dev) keeps) (eb ∙ ap (λ x. x.blockno) keeps)))

  acquired :
      (b : ℕ) (v : Slot)
      → ((j : ℕ)
          → j < nbuf
          → b ≢ j
          → v.dev ≢ 0
          → v.dev ≡ (c.buf j).dev
          → v.blockno ≢ (c.buf j).blockno)
      → Gets b v c order (acquiresleep b (set_slot b v c))
  unfolding acquiresleep
  acquired b v other =
      subst
        (λ (x : Slot). Gets b v c order (
          if x.locked
          then waits b (set_slot b v c)
          else got b (set_slot b (record x { locked = true }) (set_slot b v c))))
        (sym (update_self c.buf b v)) (locking b v v.locked refl other)

  shared :
      (b : ℕ)
      → b < nbuf
      → IsFor dev blockno (c.buf b)
      → Bget c order dev blockno (acquiresleep b (hit b c))
  unfolding hit
  shared b lt is = shares b lt is (
      acquired b (record (c.buf b) { refcnt = ((c.buf b).refcnt + 1) % 2 ^ 32 })
        (λ j l n nz ed eb. n (h.unique b j lt l nz ed eb)))

  recycled_lem :
      (b : ℕ) (before after : List ℕ)
      → Missing c dev blockno
      → order ≡ before ++ b ∷ after
      → IsIdle (c.buf b)
      → ((j : ℕ) → 1 ≤ count j after → ¬ IsIdle (c.buf j))
      → Bget c order dev blockno (acquiresleep b (set_slot b (recycled dev blockno (c.buf b)) c))
  unfolding recycled
  recycled_lem b before after missing e idle last = recycles b before after missing e idle last (
      acquired b (recycled dev blockno (c.buf b))
        (λ j l n nz ed eb. absurd (missing j l (sym ed, sym eb))))

  not_head : count head order ≡ 0
  not_head = omega (arith, h.ring.once head, count-here head order)

  forward :
      First
        (λ b. matches dev blockno (c.buf b))
        order
        (scan c.next (λ b. matches dev blockno (c.buf b)) nbuf (c.next head))
  forward =
      scan_lem c.next c.prev (λ b. matches dev blockno (c.buf b)) nbuf head order h.ring.path
        not_head h.few

  backward :
      Last (λ b. is_free (c.buf b)) order (scan c.prev (λ b. is_free (c.buf b)) nbuf (c.prev head))
  backward =
      First-reverse (λ b. is_free (c.buf b)) order
        (scan c.prev (λ b. is_free (c.buf b)) nbuf (c.prev head))
        (scan_lem c.prev c.next (λ b. is_free (c.buf b)) nbuf head (reverse order)
          (Path-reverse c.next c.prev head head order h.ring.path)
          (omega (arith, count-reverse head order, not_head))
          (omega (arith, length-reverse order, h.few)))

  in_list : (b : ℕ) (before after : List ℕ) → order ≡ before ++ b ∷ after → b < nbuf
  in_list b before after e =
      h.only b
        (omega (arith, ap (count b) e, count-append b before (b ∷ after), count-here b after))

  found_lem :
      (r r' : Option ℕ)
      → First (λ b. matches dev blockno (c.buf b)) order r
      → Last (λ b. is_free (c.buf b)) order r'
      → Bget c order dev blockno (bget_found dev blockno r r' c)
  unfolding bget_found
  found_lem (some b) r' (First.found before after e t first) l =
      shared b (in_list b before after e) ((matches_iff dev blockno (c.buf b)).0 t)
  found_lem none (some b) (First.nowhere m) (Last.found before after e t last) =
      recycled_lem b before after (λ j lt. not-matches dev blockno (c.buf j) (m j (h.all j lt))) e
        ((is_free_iff (c.buf b)).0 t) (λ j in_after. not-is_free (c.buf j) (last j in_after))
  found_lem none none (First.nowhere m) (Last.nowhere n) =
      fails (λ j lt. not-matches dev blockno (c.buf j) (m j (h.all j lt)))
        (λ j lt. not-is_free (c.buf j) (n j (h.all j lt)))

  -- In a cache whose list has every buffer, and in which no block of a device has two, `bget` takes the
  -- buffer that is for the block, whose count of references goes up by one; or, when there is none, the
  -- last buffer of the list that has no reference and is not dirty, which is then for the block, with one
  -- reference and no data; or, when there is none either, it panics. It locks the buffer, or waits when
  -- that is locked. All other buffers and the list are as before, and no block has two buffers.
  pub bget_lem : Bget c order dev blockno (bget dev blockno c)
  unfolding bget
  bget_lem =
      found_lem (scan c.next (λ b. matches dev blockno (c.buf b)) nbuf (c.next head))
        (scan c.prev (λ b. is_free (c.buf b)) nbuf (c.prev head)) forward backward
