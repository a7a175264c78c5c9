-- ===== src/Proc/Table.antt =====
-- proc.h: `struct proc` and the process table.
use homework.Prelude.{
  ℕ, zero, suc, ◌+◌, ◌≡◌, Bool, true, false, Option, none, some, List, ◌==◌, if◌then◌else◌, update,
  arith,
}

abbrev pub nproc : ℕ
nproc = 64

abbrev pub nofile : ℕ
nofile = 16

pub data ProcState : Type 0 where
  unused embryo sleeping runnable running zombie : ProcState

-- What a process sleeps on: the address of a slot of the table, or another address.
pub data Chan : Type 0 where
  on_proc on_addr : ℕ → Chan

-- Pointers into the table are indices; a null pointer is `none`, or 0 where the pointer is an address.
-- `tf` and `context` are the words of the trap frame and of the saved registers.
pub record Proc : Type 0 where
  pub sz : ℕ
  pub pgdir : ℕ
  pub kstack : ℕ
  pub state : ProcState
  pub pid : ℕ
  pub parent : Option ℕ
  pub tf : ℕ → ℕ
  pub context : ℕ → ℕ
  pub chan : Option Chan
  pub killed : Bool
  pub ofile : ℕ → Option ℕ
  pub cwd : Option ℕ
  pub name : List ℕ
  pub priority : ℕ
  pub start_ticks : ℕ

-- `ptable.proc`, of which the first `nproc` entries are meant, with `nextpid` and `initproc`.
pub record Ptable : Type 0 where
  pub proc : ℕ → Proc
  pub nextpid : ℕ
  pub initproc : ℕ

-- What the process code calls of the memory and file layers, over their state: `kalloc` and `copyuvm`
-- return 0 when memory runs out.
pub record Services : Type 1 where
  pub World : Type 0
  pub kalloc : World → ℕ × World
  pub kfree : ℕ → World → World
  pub copyuvm : ℕ → ℕ → World → ℕ × World
  pub freevm : ℕ → World → World
  pub filedup : ℕ → World → World
  pub fileclose : ℕ → World → World
  pub idup : Option ℕ → World → World
  pub iput_in_op : Option ℕ → World → World  -- begin_op(); iput(ip); end_op()
  pub allocuvm : ℕ → ℕ → ℕ → World → ℕ × World
  pub deallocuvm : ℕ → ℕ → ℕ → World → ℕ × World

unfoldable pub state_eq : ProcState → ProcState → Bool
state_eq unused unused = true
state_eq embryo embryo = true
state_eq sleeping sleeping = true
state_eq runnable runnable = true
state_eq running running = true
state_eq zombie zombie = true
state_eq _ _ = false

unfoldable pub chan_eq : Chan → Chan → Bool
chan_eq (on_proc a) (on_proc b) = a == b
chan_eq (on_addr a) (on_addr b) = a == b
chan_eq (on_proc a) (on_addr b) = false
chan_eq (on_addr a) (on_proc b) = false

unfoldable pub option_eq : {A : Type 0} → (A → A → Bool) → Option A → Option A → Bool
option_eq e none none = true
option_eq e none (some b) = false
option_eq e (some a) none = false
option_eq e (some a) (some b) = e a b

-- `p == q` for pointers into the table that may be null.
unfoldable pub proc_eq : Option ℕ → Option ℕ → Bool
unfolding option_eq
proc_eq = option_eq (λ a b. a == b)

unfoldable pub is_state : ProcState → Proc → Bool
unfolding state_eq
is_state s p = state_eq p.state s

unfoldable pub set_proc : Ptable → ℕ → Proc → Ptable
set_proc t i p = record t { proc = update t.proc i p }

-- The first of the `k` slots from `i` on that passes the test: the loops that look for a process.
unfoldable pub find_slot : (Proc → Bool) → (ℕ → Proc) → ℕ → ℕ → Option ℕ
find_slot test proc zero i = none
find_slot test proc (suc k) i =
    let rest = find_slot test proc k (i + 1) in if test (proc i) then some i else rest

pub state_eq_iff : (s u : ProcState) → (state_eq s u ≡ true) → s ≡ u
unfolding state_eq
state_eq_iff s u h = ground arith

-- `for (p = &proc[i]; p < &proc[i + k]; p++)` with a body that works on the table.
unfoldable pub for_procs : (ℕ → Ptable → Ptable) → ℕ → ℕ → Ptable → Ptable
for_procs body zero i t = t
for_procs body (suc k) i t = for_procs body k (i + 1) (body i t)
