-- ===== src/Bcache/Recent.antt =====
-- bio.c: the cache keeps its buffers in the order of their last release.
use homework.Prelude.{
  ℕ, zero, suc, ◌+◌, ◌≤◌, ◌<◌, ◌≡◌, ◌≢◌, ◌-◌, ◌%◌, ◌^◌, false, ap, ◌∙◌, update_self, update_ne,
  refl, subst, inl, inr, true, Bool-cases, some, List, [], ◌∷◌, ◌++◌, count, ◌==◌, if◌then◌else◌,
  arith,
}
use homework.Bcache.Defs.{
  Slot, zero_slot, Bcache, nbuf, head, push_front, unlink, link_bufs, binit, drop_ref, settle,
  brelse,
}
use homework.Bcache.Links.{IsRing, push_front-IsRing}
use homework.Bcache.Unlink.{unlink-IsRing, unlinked-absent}

-- Pointers alone make the ring.
IsRing-same :
    (c d : Bcache) (order : List ℕ)
    → d.next ≡ c.next
    → d.prev ≡ c.prev
    → IsRing c order
    → IsRing d order
IsRing-same c d order en ep h = record { path = rw (en, ep) h.path; once = h.once }

-- The numbers below `b`, the largest first.
abbrev pub down : ℕ → List ℕ
down zero = []
down (suc b) = b ∷ down b

count-down : (j b : ℕ) → b ≤ j → count j (down b) ≡ 0
count-down j zero le = refl
count-down j (suc b) le = let ih = count-down j b (omega arith) in ground arith

new_number : (b : ℕ) → b < nbuf → count b (head ∷ down b) ≡ 0
new_number b lt = let z = count-down b b (omega arith) in ground arith

plus_one : (b : ℕ) → suc b ≡ b + 1
plus_one b = omega arith

plus_suc : (b k : ℕ) → b + 1 + k ≡ b + suc k
plus_suc b k = omega arith

plus_zero : (b : ℕ) → b ≡ b + 0
plus_zero b = omega arith

link_bufs-IsRing :
    (k b : ℕ) (c : Bcache)
    → b + k ≤ nbuf
    → IsRing c (down b)
    → IsRing (link_bufs k b c) (down (b + k))
unfolding link_bufs
link_bufs-IsRing zero b c le h = subst (λ n. IsRing c (down n)) (plus_zero b) h
link_bufs-IsRing (suc k) b c le h =
    subst (λ n. IsRing (link_bufs k (b + 1) (push_front b c)) (down n)) (plus_suc b k)
      (link_bufs-IsRing k (b + 1) (push_front b c) (omega arith) (
        subst (λ n. IsRing (push_front b c) (down n)) (plus_one b)
          (push_front-IsRing c b (down b) h (new_number b (omega arith)))))

-- After `binit` the list has every buffer, the last one first.
pub binit_lem : IsRing binit (down nbuf)
unfolding binit
binit_lem =
    link_bufs-IsRing nbuf 0 (record { buf = λ b. zero_slot; next = λ b. head; prev = λ b. head })
      (omega arith) (record { path = (refl, refl, tt); once = λ j. ground arith })

-- The buffer is unlocked and has `n` references left, and with none it is the first of the list. The other
-- buffers are as they were.
pub record Released (b n : ℕ) (before after : List ℕ) (c c' : Bcache) : Type 0 where
  pub slot : c'.buf b ≡ record (c.buf b) { locked = false; refcnt = n }
  pub others : (j : ℕ) → b ≢ j → c'.buf j ≡ c.buf j
  pub order : IsRing c' (if n == 0 then b ∷ before ++ after else before ++ b ∷ after)

dropped-slot :
    (b n : ℕ) (c : Bcache)
    → (c.buf b).refcnt ≡ n + 1
    → n + 1 < 2 ^ 32
    → (drop_ref b c).buf b ≡ record (c.buf b) { locked = false; refcnt = n }
unfolding drop_ref
dropped-slot b n c e lt =
    update_self c.buf b
      (record (c.buf b) { locked = false; refcnt = ((c.buf b).refcnt + (2 ^ 32 - 1)) % 2 ^ 32 })
    ∙ ap (λ k. let v : Slot = record (c.buf b) { locked = false; refcnt = k } in v)
        (omega (arith, e))

dropped-others : (b : ℕ) (c : Bcache) (j : ℕ) → b ≢ j → (drop_ref b c).buf j ≡ c.buf j
unfolding drop_ref
dropped-others b c j ne = update_ne c.buf b _ j ne

IsRing-drop_ref :
    (c : Bcache) (b : ℕ) (order : List ℕ) → IsRing c order → IsRing (drop_ref b c) order
unfolding drop_ref
IsRing-drop_ref c b order h = IsRing-same c (drop_ref b c) order refl refl h

slots-moved : (b : ℕ) (d : Bcache) → (push_front b (unlink b d)).buf ≡ d.buf
unfolding push_front unlink
slots-moved b d = refl

settle_lem :
    (b : ℕ) (before after : List ℕ) (d : Bcache)
    → IsRing d (before ++ b ∷ after)
    → ((settle b d).buf ≡ d.buf)
      × IsRing
          (settle b d)
          (if (d.buf b).refcnt == 0 then b ∷ before ++ after else before ++ b ∷ after)
unfolding settle
settle_lem b before after d h = elim (Bool-cases ((d.buf b).refcnt == 0)) [
  | inl last ↦ rw (last) (
    slots-moved b d,
    push_front-IsRing (unlink b d) b (before ++ after) (unlink-IsRing d b before after h)
        (unlinked-absent d b before after h),
  )
  | inr more ↦ rw (more) (refl, h)
]

-- `brelse` of a locked buffer in the list, with `n + 1` references, does not panic. It unlocks the buffer
-- and leaves it `n` references and all else that it had; with none left it moves the buffer to the front.
-- The order of the others stays, in the pointers both ways, and so do their contents.
pub brelse_lem :
    (b n : ℕ) (before after : List ℕ) (c : Bcache)
    → IsRing c (before ++ b ∷ after)
    → (c.buf b).locked ≡ true
    → (c.buf b).refcnt ≡ n + 1
    → n + 1 < 2 ^ 32
    → (c' : Bcache) × (brelse b c ≡ some c') × Released b n before after c c'
unfolding brelse
brelse_lem b n before after c h l e lt =
    let slot = dropped-slot b n c e lt in
    let (slots, order) =
      settle_lem b before after (drop_ref b c) (IsRing-drop_ref c b (before ++ b ∷ after) h) in
    (
      settle b (drop_ref b c),
      rw (l) refl,
      record {
        slot = ap (λ f. f b) slots ∙ slot;
        others = λ j ne. ap (λ f. f j) slots ∙ dropped-others b c j ne;
        order =
            subst
              (λ k.
                IsRing (settle b (drop_ref b c))
                  (if k == 0 then b ∷ before ++ after else before ++ b ∷ after))
              (ap (λ v. v.refcnt) slot) order;
      },
    )
