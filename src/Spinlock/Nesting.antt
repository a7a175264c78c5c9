-- ===== src/Spinlock/Nesting.antt =====
-- spinlock.c: `pushcli` and `popcli` are matched.
use homework.Prelude.{
  ℕ, ◌-◌, ◌≡◌, ◌≢◌, refl, sym, ◌∙◌, true, false, Bool, ◌&&◌, Option, none, some, ◌==◌,
  if◌then◌else◌, arith,
}
use homework.Spinlock.Defs.{Cpu, pushcli, popcli}

-- Matched calls: none; or a `pushcli`, matched calls, its `popcli`, and matched calls.
pub data Calls : Type 0 where
  nothing : Calls
  pair : Calls → Calls → Calls

unfoldable pub run_calls : Calls → Cpu → Option Cpu
run_calls nothing c = some c
run_calls (pair inner later) c = elim (run_calls inner (pushcli c)) [
  | none ↦ none
  | some d ↦ elim (popcli d) [ none ↦ none | some e ↦ run_calls later e ]
]

-- The interrupt flag and the depth are as before, and so is `intena` where it is in use.
pub record Restored (c d : Cpu) : Type 0 where
  pub flag : d.flag ≡ c.flag
  pub ncli : d.ncli ≡ c.ncli
  pub intena : c.ncli ≢ 0 → d.intena ≡ c.intena

flag_back : (n : ℕ) (f i : Bool) → (f ≡ true → n ≡ 0) → (n == 0 && (if n == 0 then f else i)) ≡ f
flag_back n true i h = let z = h refl in ground arith
flag_back n false i h = ground arith

intena_back : (n : ℕ) (f i : Bool) → n ≢ 0 → (if n == 0 then f else i) ≡ i
intena_back n f i ne = ground arith

popped :
    (c d : Cpu)
    → (c.flag ≡ true → c.ncli ≡ 0)
    → Restored (pushcli c) d
    → (e : Cpu) × (popcli d ≡ some e) × Restored c e
unfolding pushcli popcli
popped c d h r =
    let some_left : (d.ncli == 0) ≡ false = ground arith in
    let one_less : d.ncli - 1 ≡ c.ncli = omega arith in
    let kept : d.intena ≡ (if c.ncli == 0 then c.flag else c.intena) = r.intena (omega arith) in
    (
      record d { ncli = d.ncli - 1; flag = d.ncli - 1 == 0 && d.intena },
      rw (r.flag, some_left) refl,
      record {
        flag = rw (one_less, kept) (flag_back c.ncli c.flag c.intena h);
        ncli = one_less;
        intena = λ ne. kept ∙ intena_back c.ncli c.flag c.intena ne;
      },
    )

pushcli-off : (c : Cpu) → (pushcli c).flag ≡ false
unfolding pushcli
pushcli-off c = refl

Restored-join : (c d e : Cpu) → Restored c d → Restored d e → Restored c e
Restored-join c d e p q = record {
  flag = q.flag ∙ p.flag;
  ncli = q.ncli ∙ p.ncli;
  intena = λ ne. q.intena (λ z. ne (sym p.ncli ∙ z)) ∙ p.intena ne;
}

-- Where interrupts are off while calls are open, matched calls of `pushcli` and `popcli` never panic, and
-- leave the interrupt flag and the depth as they were.
pub run_calls_lem :
    (k : Calls) (c : Cpu)
    → (c.flag ≡ true → c.ncli ≡ 0)
    → (d : Cpu) × (run_calls k c ≡ some d) × Restored c d
unfolding run_calls
run_calls_lem nothing c h = (c, refl, record { flag = refl; ncli = refl; intena = λ ne. refl })
run_calls_lem (pair inner later) c h =
    let (d, ed, rd) = run_calls_lem inner (pushcli c) (λ e. absurd (cc (pushcli-off c, e))) in
    let (e, ee, re) = popped c d h rd in
    let (f, ef, rf) = run_calls_lem later e (λ t. re.ncli ∙ h (sym re.flag ∙ t)) in
    (f, rw (run_calls, ed, ee) ef, Restored-join c e f re rf)
