-- ===== src/Proc/Children.antt =====
-- fork and wait keep the family.
use homework.Prelude.{
  ℕ, ◌≤◌, ◌<◌, ◌≡◌, ◌≢◌, sym, ap, subst, ◌∙◌, arith, true, Option, none, some, ℕ_discrete,
}
use homework.Proc.{
  Proc, Ptable, Services, nproc, is_state, state_eq, unused, fork, wait, on_proc, Waited,
}
use homework.Proc.Kin.{Kind, free, alive, kind_of, Kin, kin, sleep_on-SameKin}
use homework.Proc.Forking.{OneNew, Forked, no_slot, no_memory, made, fork_lem}
use homework.Proc.Reaping.{WaitOutcome, reaps, gives_up, waits, wait_lem}
use homework.Proc.Family.{at, HasParent, IsFamily, SameKin-IsFamily}

not_both : (k : Kind) → k ≡ free → k ≡ alive → ⊥
not_both k e e' = cc

unused_free : (p : Proc) → is_state unused p ≡ true → kind_of p.state ≡ free
unfolding is_state state_eq
unused_free p h = ground arith

module _ (t : Ptable) (f : IsFamily t) (i : ℕ) (h : i < nproc) where
  -- A slot of which nobody is the child changes, the others do not.
  HasParent-others :
      {u : Ptable}
      → ((j : ℕ) → i ≢ j → u.proc j ≡ t.proc j)
      → (at t i).kind ≢ alive
      → (j : ℕ) → i ≢ j
      → HasParent t j
      → HasParent u j
  HasParent-others others dying j ne p = record {
    parent = p.parent;
    is_parent = ap (λ q. (kin q).parent) (others j ne) ∙ p.is_parent;
    in_table = p.in_table;
    lives =
        ap (λ q. (kin q).kind) (others p.parent (λ e. dying (ap (λ m. (at t m).kind) e ∙ p.lives)))
        ∙ p.lives;
  }

  -- The slot becomes free.
  freed-IsFamily :
      (u : Ptable)
      → ((j : ℕ) → i ≢ j → u.proc j ≡ t.proc j)
      → (at t i).kind ≢ alive
      → (at u i).kind ≡ free
      → (at u i).parent ≡ none
      → t.nextpid ≤ u.nextpid
      → u.initproc ≡ t.initproc
      → IsFamily u
  freed-IsFamily u others dying now_free no_parent grows same_init =
      let other_than = (λ (j : ℕ) (l : (at u j).kind ≢ free) (e : i ≡ j).
        l (subst (λ m. (at u m).kind ≡ free) e now_free)) in
      let kept = (λ (j : ℕ) (l : (at u j).kind ≢ free). ap kin (others j (other_than j l))) in
      let used = (λ (j : ℕ) (l : (at u j).kind ≢ free) (e : (at t j).kind ≡ free).
        l (ap (λ (k : Kin). k.kind) (kept j l) ∙ e)) in
      let not_init = (λ (e : i ≡ t.initproc). dying (ap (λ m. (at t m).kind) e ∙ f.init_lives)) in
      record {
        init_in = omega (arith, f.init_in);
        init_lives =
            ap (λ m. (at u m).kind) same_init
            ∙ ap (λ q. (kin q).kind) (others t.initproc not_init)
            ∙ f.init_lives;
        pids = λ j hj l. omega (arith, ap (λ (k : Kin). k.pid) (kept j l), f.pids j hj (used j l));
        distinct = λ j m hj hm l l' e.
            f.distinct j m hj hm (used j l) (used m l')
              (sym (ap (λ (k : Kin). k.pid) (kept j l)) ∙ e ∙ ap (λ (k : Kin). k.pid) (kept m l'));
        parents = λ j hj l ne.
            HasParent-others others dying j (other_than j l)
              (f.parents j hj (used j l) (λ e. ne (e ∙ sym same_init)));
        no_parent = λ j hj e. elim (ℕ_discrete i j) [
          | yes same ↦ subst (λ m. (at u m).parent ≡ none) same no_parent
          | no other ↦
              ap (λ q. (kin q).parent) (others j other)
              ∙ f.no_parent j hj (sym (ap (λ q. (kin q).kind) (others j other)) ∙ e)
        ];
      }

  -- The slot becomes a child of the living process `cur`, under the next pid.
  born-IsFamily :
      (cur : ℕ) (u : Ptable)
      → cur < nproc
      → (at t cur).kind ≡ alive
      → (at t i).kind ≡ free
      → OneNew i (record { kind = alive; pid = t.nextpid; parent = some cur }) t u
      → IsFamily u
  born-IsFamily cur u hc lives was_free n =
      let not_alive = not_both (at t i).kind was_free in
      let not_cur = (λ (e : i ≡ cur). not_alive (ap (λ m. (at t m).kind) e ∙ lives)) in
      let not_init =
        (λ (e : i ≡ t.initproc). not_alive (ap (λ m. (at t m).kind) e ∙ f.init_lives)) in
      let used = (λ (j : ℕ) (ne : i ≢ j) (l : (at u j).kind ≢ free) (e : (at t j).kind ≡ free).
        l (ap (λ q. (kin q).kind) (n.others j ne) ∙ e)) in
      let new_pid = (λ (j : ℕ) (e : i ≡ j).
        subst (λ m. (at u m).pid ≡ t.nextpid) e (ap (λ (k : Kin). k.pid) n.slot)) in
      let old_pid = (λ (j : ℕ) (hj : j < nproc) (ne : i ≢ j) (l : (at u j).kind ≢ free).
        let z : (at u j).pid < t.nextpid =
          subst (λ q. (kin q).pid < t.nextpid) (sym (n.others j ne)) (f.pids j hj (used j ne l)) in
        z) in
      record {
        init_in = omega (arith, f.init_in, n.initproc);
        init_lives =
            ap (λ m. (at u m).kind) n.initproc
            ∙ ap (λ q. (kin q).kind) (n.others t.initproc not_init)
            ∙ f.init_lives;
        pids = λ j hj l. elim (ℕ_discrete i j) [
          | yes same ↦ omega (arith, new_pid j same, n.nextpid)
          | no other ↦ omega (arith, old_pid j hj other l, n.nextpid)
        ];
        distinct = λ j m hj hm l l' e. elim (ℕ_discrete i j) [
          | yes same ↦ elim (ℕ_discrete i m) [
            | yes too ↦ sym same ∙ too
            | no other ↦ absurd (omega (arith, new_pid j same, old_pid m hm other l'))
          ]
          | no other ↦ elim (ℕ_discrete i m) [
            | yes same ↦ absurd (omega (arith, new_pid m same, old_pid j hj other l))
            | no too ↦ f.distinct j m hj hm (used j other l) (used m too l') (
                sym (ap (λ q. (kin q).pid) (n.others j other))
                ∙ e
                ∙ ap (λ q. (kin q).pid) (n.others m too))
          ]
        ];
        parents = λ j hj l ne. elim (ℕ_discrete i j) [
          | yes same ↦ record {
            parent = cur;
            is_parent =
                subst (λ m. (at u m).parent ≡ some cur) same (ap (λ (k : Kin). k.parent) n.slot);
            in_table = hc;
            lives = ap (λ q. (kin q).kind) (n.others cur not_cur) ∙ lives;
          }
          | no other ↦
              HasParent-others n.others not_alive j other
                (f.parents j hj (used j other l) (λ e. ne (e ∙ sym n.initproc)))
        ];
        no_parent = λ j hj e. elim (ℕ_discrete i j) [
          | yes same ↦ absurd (
              not_both (at u j).kind e
                (subst (λ m. (at u m).kind ≡ alive) same (ap (λ (k : Kin). k.kind) n.slot)))
          | no other ↦
              ap (λ q. (kin q).parent) (n.others j other)
              ∙ f.no_parent j hj (sym (ap (λ q. (kin q).kind) (n.others j other)) ∙ e)
        ];
      }

module _ (services : Services) (cur : ℕ) (t : Ptable) (w : services.World) (f : IsFamily t)
    (in_table : cur < nproc) (lives : (at t cur).kind ≡ alive) where
  Forked-IsFamily : (r : Option ℕ) (u : Ptable) → Forked services cur t w r u → IsFamily u
  Forked-IsFamily r u (no_slot e e' same) = subst IsFamily (sym same) f
  Forked-IsFamily r u (no_memory i found short e n) =
      let h = found.in_table in
      let was_free = ap kind_of found.is_free in
      freed-IsFamily t f i h u n.others (λ q. ground arith) (ap (λ (k : Kin). k.kind) n.slot)
        (ap (λ (k : Kin). k.parent) n.slot ∙ f.no_parent i h was_free) (omega (arith, n.nextpid))
        n.initproc
  Forked-IsFamily r u (made i found enough e n) =
      let h = found.in_table in
      let was_free = ap kind_of found.is_free in
      born-IsFamily t f i h cur u in_table lives was_free n

  -- A living process may fork, whether the call succeeds or fails: the table stays a family.
  pub fork-IsFamily : (forkret ticks : ℕ) → IsFamily (fork services forkret ticks cur t w).1
  fork-IsFamily forkret ticks = Forked-IsFamily _ _ (fork_lem services forkret ticks cur t w)

  waited-IsFamily : (r : Waited) (u : Ptable) → WaitOutcome cur t u r → IsFamily u
  waited-IsFamily r u (reaps i h is_dead parent e n) =
      freed-IsFamily t f i h u n.others (λ q. ground arith) (ap (λ (k : Kin). k.kind) n.slot)
        (ap (λ (k : Kin). k.parent) n.slot) (omega (arith, n.nextpid)) n.initproc
  waited-IsFamily r u (gives_up why same) = subst IsFamily (sym same) f
  waited-IsFamily r u (waits kids not_killed none_dead same) =
      subst IsFamily (sym same)
        (SameKin-IsFamily (sleep_on-SameKin cur t (some (on_proc cur)) lives) f)

  -- A living process may wait, whether it gets a child, fails or goes to sleep: the table stays a
  -- family.
  wait-IsFamily : IsFamily (wait services cur t w).1
  wait-IsFamily = waited-IsFamily _ _ (wait_lem services cur t w)
