-- ===== src/Spinlock/Defs.antt =====
-- spinlock.c: `pushcli` and `popcli` of a processor, and `acquire` and `release` of one lock by any
-- processors, one access to memory at a time.
use homework.Prelude.{
  ℕ, ◌+◌, ◌-◌, Bool, true, false, ◌&&◌, ◌||◌, Option, none, some, ◌==◌, if◌then◌else◌, update, List,
  [], ◌∷◌,
}

-- `flag` is FL_IF of `eflags`: interrupts are enabled.
pub record Cpu : Type 0 where
  pub ncli : ℕ
  pub intena : Bool
  pub flag : Bool

unfoldable pub pushcli : Cpu → Cpu
pushcli c = record c {
  flag = false;
  intena = if c.ncli == 0 then c.flag else c.intena;
  ncli = c.ncli + 1;
}

-- `none` is a panic.
unfoldable pub popcli : Cpu → Option Cpu
popcli c =
    if c.flag || c.ncli == 0
    then none
    else some (record c { ncli = c.ncli - 1; flag = c.ncli - 1 == 0 && c.intena })

-- `cpu` is the processor that holds the lock; `name` and `pcs` are for debugging only.
pub record Spinlock : Type 0 where
  pub locked : Bool
  pub cpu : Option ℕ

unfoldable pub initlock : Spinlock
initlock = record { locked = false; cpu = none }

unfoldable pub is_cpu : Option ℕ → ℕ → Bool
is_cpu none i = false
is_cpu (some j) i = i == j

-- Where a processor is: in front of `acquire`; in it, where `holding` reads `locked` and then `cpu`, at
-- the `xchg`, and where `cpu` is set; with the lock; in `release`, where `holding` reads `cpu`, where
-- `cpu` is cleared and then `locked`, and at `popcli`.
pub data Stage : Type 0 where
  outside entering entering_locked spinning taken inside releasing leaving unlocking popping : Stage

pub record System : Type 0 where
  pub lock : Spinlock
  pub cpus : ℕ → Cpu
  pub stage : ℕ → Stage

abbrev pub at_stage : ℕ → Stage → System → System
at_stage i x s = record s { stage = update s.stage i x }

-- The next access of processor `i`; `none` is a panic.
unfoldable pub step_from : Stage → ℕ → System → Option System
unfolding pushcli is_cpu
step_from outside i s =
    some (at_stage i entering (record s { cpus = update s.cpus i (pushcli (s.cpus i)) }))
step_from entering i s = some (at_stage i (if s.lock.locked then entering_locked else spinning) s)
step_from entering_locked i s = if is_cpu s.lock.cpu i then none else some (at_stage i spinning s)
step_from spinning i s =
    if s.lock.locked
    then some (at_stage i spinning s)
    else some (at_stage i taken (record s { lock = record (s.lock) { locked = true } }))
step_from taken i s =
    some (at_stage i inside (record s { lock = record (s.lock) { cpu = some i } }))
step_from inside i s = if s.lock.locked then some (at_stage i releasing s) else none
step_from releasing i s = if is_cpu s.lock.cpu i then some (at_stage i leaving s) else none
step_from leaving i s =
    some (at_stage i unlocking (record s { lock = record (s.lock) { cpu = none } }))
step_from unlocking i s =
    some (at_stage i popping (record s { lock = record (s.lock) { locked = false } }))
step_from popping i s = elim (popcli (s.cpus i)) [
  | none ↦ none
  | some c ↦ some (at_stage i outside (record s { cpus = update s.cpus i c }))
]

unfoldable pub step : ℕ → System → Option System
unfolding step_from
step i s = step_from (s.stage i) i s

-- Accesses of the processors in the order given.
unfoldable pub run : List ℕ → System → Option System
unfolding step
run [] s = some s
run (i ∷ is) s = elim (step i s) [ none ↦ none | some t ↦ run is t ]
