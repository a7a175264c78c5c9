-- ===== src/Spinlock/Exclusion.antt =====
-- spinlock.c: at most one processor has the lock, and no call panics.
use homework.Prelude.{
  ℕ, ◌≡◌, ◌≢◌, refl, sym, ap, ◌∙◌, true, false, Bool-cases, inl, inr, Option, none, some, update,
  List, [], ◌∷◌, arith,
}
use homework.Spinlock.Defs.{
  pushcli, initlock, is_cpu, Stage, outside, entering, entering_locked, spinning, taken, inside,
  releasing, leaving, unlocking, popping, System, at_stage, step_from, step, run,
}
use homework.Spinlock.Held.{
  has_lock, owns, in_cli, is_some, IsHeld, IsQuiet-changed, IsQuiet-same, after_step, is_cpu_iff,
  is_cpu_self, is_cpu_ne, is_cpu-none, is_none, owns-has_lock, pushcli-IsQuiet, popcli-quiet,
}

module _ (holder : Option ℕ) (s : System) (i : ℕ) (h : IsHeld holder s) where
  -- A step that leaves the lock as it is.
  abbrev Kept : Stage → Type 0
  Kept x = IsHeld holder (at_stage i x s)

  kept :
      (x y : Stage)
      → s.stage i ≡ x
      → in_cli x ≡ true
      → has_lock y ≡ has_lock x
      → owns y ≡ owns x
      → Kept y
  kept x y e c l o =
      after_step holder holder s i y s.lock s.cpus h (l ∙ sym (ap has_lock e) ∙ h.held i)
        (λ j ne. refl) h.locked (o ∙ sym (ap owns e) ∙ h.owned i) (λ j ne. refl)
        (IsQuiet-same i y s.stage s.cpus h.quiet (ap in_cli e ∙ c))

  -- The processor that has the lock is the holder.
  holder_is : has_lock (s.stage i) ≡ true → holder ≡ some i
  holder_is e = is_cpu_iff holder i (sym (h.held i) ∙ e)

  owner_is : owns (s.stage i) ≡ true → s.lock.cpu ≡ some i
  owner_is e = is_cpu_iff s.lock.cpu i (sym (h.owned i) ∙ e)

  not_owner : has_lock (s.stage i) ≡ true → (j : ℕ) → i ≢ j → is_cpu s.lock.cpu j ≡ false
  not_owner e j ne = elim (Bool-cases (owns (s.stage j))) [
    | inl o ↦
        let has = sym (h.held j) ∙ owns-has_lock (s.stage j) o in
        absurd (cc (has, ap (λ o. is_cpu o j) (holder_is e), is_cpu_ne i j ne))
    | inr o ↦ sym (h.owned j) ∙ o
  ]

  abbrev Goes : Option System → Type 0
  Goes r = (holder' : Option ℕ) × (t : System) × (r ≡ some t) × IsHeld holder' t

  step_lem : (x : Stage) → s.stage i ≡ x → Goes (step_from x i s)
  unfolding step_from
  step_lem outside e = (
    holder,
    at_stage i entering (record s { cpus = update s.cpus i (pushcli (s.cpus i)) }),
    refl,
    after_step holder holder s i entering s.lock (update s.cpus i (pushcli (s.cpus i))) h
        (sym (ap has_lock e) ∙ h.held i) (λ j ne. refl) h.locked (sym (ap owns e) ∙ h.owned i)
        (λ j ne. refl)
        (IsQuiet-changed i entering (pushcli (s.cpus i)) s.stage s.cpus h.quiet
          (λ q. pushcli-IsQuiet (s.cpus i))),
  )
  step_lem entering e = elim (Bool-cases s.lock.locked) [
    | inl l ↦ (
      holder,
      at_stage i entering_locked s,
      rw (l) refl,
      kept entering entering_locked e refl refl refl,
    )
    | inr l ↦ (holder, at_stage i spinning s, rw (l) refl, kept entering spinning e refl refl refl)
  ]
  step_lem entering_locked e = (
    holder,
    at_stage i spinning s,
    rw (sym (h.owned i) ∙ ap owns e) refl,
    kept entering_locked spinning e refl refl refl,
  )
  step_lem spinning e = elim (Bool-cases s.lock.locked) [
    | inl l ↦ (holder, at_stage i spinning s, rw (l) refl, kept spinning spinning e refl refl refl)
    | inr l ↦ (
      some i,
      at_stage i taken (record s { lock = record (s.lock) { locked = true } }),
      rw (l) refl,
      after_step holder (some i) s i taken (record (s.lock) { locked = true }) s.cpus h
          (sym (is_cpu_self i))
          (λ j ne.
            ap (λ o. is_cpu o j) (is_none holder (sym h.locked ∙ l))
            ∙ is_cpu-none j
            ∙ is_cpu_ne i j ne)
          refl (sym (ap owns e) ∙ h.owned i) (λ j ne. refl)
          (IsQuiet-same i taken s.stage s.cpus h.quiet (ap in_cli e)),
    )
  ]
  step_lem taken e = (
    holder,
    at_stage i inside (record s { lock = record (s.lock) { cpu = some i } }),
    refl,
    after_step holder holder s i inside (record (s.lock) { cpu = some i }) s.cpus h
        (sym (ap has_lock e) ∙ h.held i) (λ j ne. refl) h.locked (sym (is_cpu_self i))
        (λ j ne. not_owner (ap has_lock e) j ne ∙ is_cpu_ne i j ne)
        (IsQuiet-same i inside s.stage s.cpus h.quiet (ap in_cli e)),
  )
  step_lem inside e = (
    holder,
    at_stage i releasing s,
    rw (h.locked ∙ ap is_some (holder_is (ap has_lock e))) refl,
    kept inside releasing e refl refl refl,
  )
  step_lem releasing e = (
    holder,
    at_stage i leaving s,
    rw (sym (h.owned i) ∙ ap owns e) refl,
    kept releasing leaving e refl refl refl,
  )
  step_lem leaving e = (
    holder,
    at_stage i unlocking (record s { lock = record (s.lock) { cpu = none } }),
    refl,
    after_step holder holder s i unlocking (record (s.lock) { cpu = none }) s.cpus h
        (sym (ap has_lock e) ∙ h.held i) (λ j ne. refl) h.locked (sym (is_cpu-none i))
        (λ j ne.
          ap (λ o. is_cpu o j) (owner_is (ap owns e))
          ∙ sym (is_cpu_ne i j ne)
          ∙ sym (is_cpu-none j))
        (IsQuiet-same i unlocking s.stage s.cpus h.quiet (ap in_cli e)),
  )
  step_lem unlocking e = (
    none,
    at_stage i popping (record s { lock = record (s.lock) { locked = false } }),
    refl,
    after_step holder none s i popping (record (s.lock) { locked = false }) s.cpus h
        (sym (is_cpu-none i))
        (λ j ne.
          ap (λ o. is_cpu o j) (holder_is (ap has_lock e))
          ∙ sym (is_cpu_ne i j ne)
          ∙ sym (is_cpu-none j))
        refl (sym (ap owns e) ∙ h.owned i) (λ j ne. refl)
        (IsQuiet-same i popping s.stage s.cpus h.quiet (ap in_cli e)),
  )
  step_lem popping e =
      let (c, pe) = popcli-quiet (s.cpus i) (h.quiet i (ap in_cli e)) in
      (
        holder,
        at_stage i outside (record s { cpus = update s.cpus i c }),
        rw (step_from, pe),
        after_step holder holder s i outside s.lock (update s.cpus i c) h
            (sym (ap has_lock e) ∙ h.held i) (λ j ne. refl) h.locked (sym (ap owns e) ∙ h.owned i)
            (λ j ne. refl)
            (IsQuiet-changed i outside c s.stage s.cpus h.quiet (λ q. absurd (cc q))),
      )

-- Any steps in any order.
run_lem :
    (is : List ℕ) (holder : Option ℕ) (s : System)
    → IsHeld holder s
    → (holder' : Option ℕ) × (t : System) × (run is s ≡ some t) × IsHeld holder' t
unfolding run
run_lem [] holder s h = (holder, s, refl, h)
run_lem (i ∷ is) holder s h =
    let (held, t, e, k) = step_lem holder s i h (s.stage i) refl in
    let (held', u, e', k') = run_lem is held t k in (held', u, rw (run, step, e) e', k')

-- Nobody has the lock, as after `initlock`.
pub record IsIdle (s : System) : Type 0 where
  pub lock : s.lock ≡ initlock
  pub stage : (j : ℕ) → s.stage j ≡ outside

idle-IsHeld : (s : System) → IsIdle s → IsHeld none s
unfolding initlock
idle-IsHeld s idle = record {
  held = λ j. ap has_lock (idle.stage j) ∙ sym (is_cpu-none j);
  locked = ap (λ l. l.locked) idle.lock;
  owned =
      λ j. ap owns (idle.stage j) ∙ sym (is_cpu-none j) ∙ sym (ap (λ l. is_cpu l.cpu j) idle.lock);
  quiet = λ j e. absurd (cc (sym (ap in_cli (idle.stage j)) ∙ e));
}

same_cpu : (o : Option ℕ) (i j : ℕ) → is_cpu o i ≡ true → is_cpu o j ≡ true → i ≡ j
unfolding is_cpu
same_cpu none i j e e' = absurd (cc e)
same_cpu (some k) i j e e' = ground arith

-- From a lock that nobody has, whatever the order in which processors take their steps in `acquire` and
-- `release`, none of them panics, and no two have the lock.
pub run-exclusive :
    (s : System) (is : List ℕ)
    → IsIdle s
    → (t : System) × (run is s ≡ some t)
      × ((i j : ℕ) → has_lock (t.stage i) ≡ true → has_lock (t.stage j) ≡ true → i ≡ j)
run-exclusive s is idle =
    let (holder, t, e, h) = run_lem is none s (idle-IsHeld s idle) in
    (t, e, λ i j p q. same_cpu holder i j (sym (h.held i) ∙ p) (sym (h.held j) ∙ q))
