-- ===== src/Spinlock/Held.antt =====
-- spinlock.c: who has the lock, and how that stays true.
use homework.Prelude.{
  ℕ, ◌-◌, ◌≤◌, ◌≡◌, ◌≢◌, refl, sym, ap, ◌∙◌, subst, true, false, Bool, ◌&&◌, Option, none, some,
  ◌==◌, update, update_self, update_ne, ℕ_discrete, arith,
}
use homework.Spinlock.Defs.{
  Cpu, pushcli, popcli, Spinlock, is_cpu, Stage, outside, entering, entering_locked, spinning,
  taken, inside, releasing, leaving, unlocking, popping, System,
}

-- From the `xchg` that got the lock to the write that gives it back.
abbrev pub has_lock : Stage → Bool
has_lock outside = false
has_lock entering = false
has_lock entering_locked = false
has_lock spinning = false
has_lock taken = true
has_lock inside = true
has_lock releasing = true
has_lock leaving = true
has_lock unlocking = true
has_lock popping = false

-- While `cpu` is set.
abbrev pub owns : Stage → Bool
owns outside = false
owns entering = false
owns entering_locked = false
owns spinning = false
owns taken = false
owns inside = true
owns releasing = true
owns leaving = true
owns unlocking = false
owns popping = false

-- Between `pushcli` and `popcli`.
abbrev pub in_cli : Stage → Bool
in_cli outside = false
in_cli _ = true

abbrev pub is_some : Option ℕ → Bool
is_some none = false
is_some (some i) = true

abbrev pub IsQuiet : Cpu → Type 0
IsQuiet c = (c.flag ≡ false) × (1 ≤ c.ncli)

-- The lock is held by `holder` and by nobody else.
pub record IsHeld (holder : Option ℕ) (s : System) : Type 0 where
  pub held : (j : ℕ) → has_lock (s.stage j) ≡ is_cpu holder j
  pub locked : s.lock.locked ≡ is_some holder
  pub owned : (j : ℕ) → owns (s.stage j) ≡ is_cpu s.lock.cpu j
  pub quiet : (j : ℕ) → in_cli (s.stage j) ≡ true → IsQuiet (s.cpus j)

-- A test of all stages, after one has changed.
pub stages_changed :
    (test : Stage → Bool) (f g : ℕ → Bool) (i : ℕ) (x : Stage) (stage : ℕ → Stage)
    → ((j : ℕ) → test (stage j) ≡ f j)
    → test x ≡ g i
    → ((j : ℕ) → i ≢ j → f j ≡ g j)
    → (j : ℕ) → test (update stage i x j) ≡ g j
stages_changed test f g i x stage old new same j = elim (ℕ_discrete i j) [
  | yes d ↦ subst (λ k. test (update stage i x k) ≡ g k) d (ap test (update_self stage i x) ∙ new)
  | no ne ↦ ap test (update_ne stage i x j ne) ∙ old j ∙ same j ne
]

pub IsQuiet-changed :
    (i : ℕ) (x : Stage) (c : Cpu) (stage : ℕ → Stage) (cpus : ℕ → Cpu)
    → ((j : ℕ) → in_cli (stage j) ≡ true → IsQuiet (cpus j))
    → (in_cli x ≡ true → IsQuiet c)
    → (j : ℕ) → in_cli (update stage i x j) ≡ true
    → IsQuiet (update cpus i c j)
IsQuiet-changed i x c stage cpus old new j = elim (ℕ_discrete i j) [
  | yes d ↦
      subst (λ k. in_cli (update stage i x k) ≡ true → IsQuiet (update cpus i c k)) d
        (λ e.
          subst IsQuiet (sym (update_self cpus i c))
            (new (sym (ap in_cli (update_self stage i x)) ∙ e)))
  | no ne ↦ λ e.
      subst IsQuiet (sym (update_ne cpus i c j ne))
        (old j (sym (ap in_cli (update_ne stage i x j ne)) ∙ e))
]

pub IsQuiet-same :
    (i : ℕ) (x : Stage) (stage : ℕ → Stage) (cpus : ℕ → Cpu)
    → ((j : ℕ) → in_cli (stage j) ≡ true → IsQuiet (cpus j))
    → in_cli (stage i) ≡ true
    → (j : ℕ) → in_cli (update stage i x j) ≡ true
    → IsQuiet (cpus j)
IsQuiet-same i x stage cpus old e j = elim (ℕ_discrete i j) [
  | yes d ↦ λ q. old j (subst (λ k. in_cli (stage k) ≡ true) d e)
  | no ne ↦ λ q. old j (sym (ap in_cli (update_ne stage i x j ne)) ∙ q)
]

-- What a step of processor `i` to stage `x` leaves.
pub after_step :
    (holder holder' : Option ℕ) (s : System) (i : ℕ) (x : Stage) (lock : Spinlock) (cpus : ℕ → Cpu)
    → IsHeld holder s
    → has_lock x ≡ is_cpu holder' i
    → ((j : ℕ) → i ≢ j → is_cpu holder j ≡ is_cpu holder' j)
    → lock.locked ≡ is_some holder'
    → owns x ≡ is_cpu lock.cpu i
    → ((j : ℕ) → i ≢ j → is_cpu s.lock.cpu j ≡ is_cpu lock.cpu j)
    → ((j : ℕ) → in_cli (update s.stage i x j) ≡ true → IsQuiet (cpus j))
    → IsHeld holder' (record { lock = lock; cpus = cpus; stage = update s.stage i x })
after_step holder holder' s i x lock cpus h e others l o owners q = record {
  held = stages_changed has_lock (is_cpu holder) (is_cpu holder') i x s.stage h.held e others;
  locked = l;
  owned = stages_changed owns (is_cpu s.lock.cpu) (is_cpu lock.cpu) i x s.stage h.owned o owners;
  quiet = q;
}

pub is_cpu_iff : (o : Option ℕ) (i : ℕ) → is_cpu o i ≡ true → o ≡ some i
unfolding is_cpu
is_cpu_iff none i e = absurd (cc e)
is_cpu_iff (some j) i e = ap some (ground arith)

pub is_cpu_self : (i : ℕ) → is_cpu (some i) i ≡ true
unfolding is_cpu
is_cpu_self i = ground arith

pub is_cpu_ne : (i j : ℕ) → i ≢ j → false ≡ is_cpu (some i) j
unfolding is_cpu
is_cpu_ne i j ne = ground arith

pub is_cpu-none : (j : ℕ) → is_cpu none j ≡ false
unfolding is_cpu
is_cpu-none j = refl

pub is_none : (o : Option ℕ) → is_some o ≡ false → o ≡ none
is_none none e = refl
is_none (some i) e = absurd (cc e)

pub owns-has_lock : (x : Stage) → owns x ≡ true → has_lock x ≡ true
owns-has_lock inside e = refl
owns-has_lock releasing e = refl
owns-has_lock leaving e = refl
owns-has_lock outside e = absurd (cc e)
owns-has_lock entering e = absurd (cc e)
owns-has_lock entering_locked e = absurd (cc e)
owns-has_lock spinning e = absurd (cc e)
owns-has_lock taken e = refl
owns-has_lock unlocking e = refl
owns-has_lock popping e = absurd (cc e)

pub pushcli-IsQuiet : (c : Cpu) → IsQuiet (pushcli c)
unfolding pushcli
pushcli-IsQuiet c = (refl, omega arith)

pub popcli-quiet : (c : Cpu) → IsQuiet c → (c' : Cpu) × (popcli c ≡ some c')
unfolding popcli
popcli-quiet c (f, n) =
    let test : (c.ncli == 0) ≡ false = ground arith in
    (record c { ncli = c.ncli - 1; flag = c.ncli - 1 == 0 && c.intena }, rw (f, test) refl)
