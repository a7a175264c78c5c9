-- ===== src/Bcache/Unlink.antt =====
-- bio.c: a buffer taken out of the list.
use homework.Prelude.{
  ℕ, ◌+◌, ◌≤◌, ◌≡◌, ◌≢◌, sym, ap, ◌∙◌, subst, List, [], ◌∷◌, ◌++◌, append_assoc, count,
  count-append, update, update_self, update_ne, arith,
}
use homework.Bcache.Defs.{Bcache, head, unlink}
use homework.Bcache.Links.{
  PathOf, end_of, front, IsRing, Path-frame, Path-left, Path-right, Path-join, Rest, rest_of,
  absent_ne, count-here, count-front, end_of-mem,
}

module _ (c : Bcache) (b : ℕ) (before after : List ℕ) (h : IsRing c (before ++ b ∷ after)) where
  abbrev rest : Rest after
  rest = rest_of after

  -- The buffer in front of `b`.
  abbrev last : ℕ
  last = end_of head before

  whole : PathOf c.next c.prev head (before ++ b ∷ rest.first ∷ rest.later)
  whole =
      subst (λ ys. PathOf c.next c.prev head (before ++ b ∷ ys)) rest.same
        (subst (PathOf c.next c.prev head) (append_assoc before (b ∷ after) (head ∷ [])) h.path)

  around : PathOf c.next c.prev last (b ∷ rest.first ∷ rest.later)
  around = Path-right c.next c.prev head before (b ∷ rest.first ∷ rest.later) whole

  -- No number is there twice.
  total : (j : ℕ) → count j (head ∷ before) + count j (b ∷ after) ≤ 1
  total j = omega (arith, h.once j, count-append j before (b ∷ after))

  in_ring :
      (j : ℕ)
      → count j (rest.first ∷ rest.later) + count j before ≤ count j (head ∷ before) + count j after
  in_ring j = omega (arith, rest.counts j)

  last-absent : count last (front head before) ≡ 0
  last-absent = omega (arith, count-front last head before, count-here last [], total last)

  last_not_after : count last after ≡ 0
  last_not_after = omega (arith, end_of-mem head before, total last)

  last-ne : last ≢ b
  last-ne q = absurd (
      omega (
        arith,
        end_of-mem head before,
        total b,
        count-here b after,
        ap (λ k. count k (head ∷ before)) q,
      ))

  first-ne : rest.first ≢ b
  first-ne q = absurd (
      omega (
        arith,
        count-here rest.first rest.later,
        in_ring rest.first,
        total b,
        count-here b after,
        ap (λ k. count k (head ∷ before)) q,
        ap (λ k. count k after) q,
      ))

  first_not_before : count rest.first before ≡ 0
  first_not_before =
      omega (arith, in_ring rest.first, total rest.first, count-here rest.first rest.later)

  first_not_later : count rest.first rest.later ≡ 0
  first_not_later =
      omega (arith, in_ring rest.first, total rest.first, count-here rest.first rest.later)

  -- The pointers after the two assignments.
  abbrev prev_now : ℕ → ℕ
  prev_now = update c.prev (c.next b) (c.prev b)

  abbrev next_now : ℕ → ℕ
  next_now = update c.next (prev_now b) (c.next b)

  at_last : prev_now b ≡ last
  at_last =
      let (e, e', (f, f', t)) = around in
      update_ne c.prev (c.next b) (c.prev b) b (λ q. first-ne (sym f ∙ q)) ∙ e'

  unlinked_path : PathOf next_now prev_now head (before ++ rest.first ∷ rest.later)
  unlinked_path =
      let (e, e', (f, f', t)) = around in
      Path-join next_now prev_now head before (rest.first ∷ rest.later)
        (Path-frame c.next c.prev next_now prev_now head before
          (λ j m.
            update_ne c.next (prev_now b) (c.next b) j
              (λ q. absent_ne j last (front head before) last-absent m (sym at_last ∙ q)))
          (λ j m.
            update_ne c.prev (c.next b) (c.prev b) j
              (λ q. absent_ne j rest.first before first_not_before m (sym f ∙ q)))
          (Path-left c.next c.prev head before (b ∷ rest.first ∷ rest.later) whole))
        (
          ap next_now (sym at_last) ∙ update_self c.next (prev_now b) (c.next b) ∙ f,
          ap prev_now (sym f) ∙ update_self c.prev (c.next b) (c.prev b) ∙ e',
          Path-frame c.next c.prev next_now prev_now rest.first rest.later
              (λ j m. update_ne c.next (prev_now b) (c.next b) j (λ q.
                absent_ne j last after last_not_after (omega (arith, m, rest.fronts j))
                  (sym at_last ∙ q)))
              (λ j m.
                update_ne c.prev (c.next b) (c.prev b) j
                  (λ q. absent_ne j rest.first rest.later first_not_later m (sym f ∙ q)))
              t,
        )

  -- `unlink` takes the buffer out of the list.
  pub unlink-IsRing : IsRing (unlink b c) (before ++ after)
  unfolding unlink
  unlink-IsRing = record {
    path =
        subst (PathOf next_now prev_now head) (sym (append_assoc before after (head ∷ []))) (
          subst (λ ys. PathOf next_now prev_now head (before ++ ys)) (sym rest.same) unlinked_path);
    once = λ j. omega (arith, total j, count-append j before after);
  }

  -- It is then nowhere in it.
  pub unlinked-absent : count b (head ∷ before ++ after) ≡ 0
  unlinked-absent = omega (arith, total b, count-here b after, count-append b before after)
