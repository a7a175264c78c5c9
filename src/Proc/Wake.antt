-- ===== src/Proc/Wake.antt =====
-- proc.c: sleep, wakeup, yield, kill.
use homework.Prelude.{ℕ, Bool, true, false, ◌&&◌, Option, none, some, ◌==◌, if◌then◌else◌}
use homework.Proc.Table.{
  sleeping, runnable, Chan, Proc, Ptable, nproc, find_slot, is_state, set_proc, for_procs,
  option_eq, chan_eq,
}

unfoldable pub sleeps_on : Option Chan → Proc → Bool
unfolding is_state option_eq chan_eq
sleeps_on c p = is_state sleeping p && option_eq chan_eq p.chan c

-- The body of the loop of `wakeup1`.
unfoldable pub wake_slot : Option Chan → ℕ → Ptable → Ptable
unfolding sleeps_on set_proc
wake_slot c i t =
    if sleeps_on c (t.proc i) then set_proc t i (record (t.proc i) { state = runnable }) else t

unfoldable pub wakeup1 : Option Chan → Ptable → Ptable
unfolding for_procs wake_slot
wakeup1 c t = for_procs (wake_slot c) nproc 0 t

-- `sleep` up to `sched()`, and after it.
unfoldable pub sleep_on : ℕ → Option Chan → Ptable → Ptable
unfolding set_proc
sleep_on i c t = set_proc t i (record (t.proc i) { chan = c; state = sleeping })

unfoldable pub tidy_up : ℕ → Ptable → Ptable
unfolding set_proc
tidy_up i t = set_proc t i (record (t.proc i) { chan = none })

unfoldable pub yield_cpu : ℕ → Ptable → Ptable
unfolding set_proc
yield_cpu i t = set_proc t i (record (t.proc i) { state = runnable })

-- The result is true for 0 and false for -1.
unfoldable pub kill : ℕ → Ptable → Bool × Ptable
unfolding find_slot set_proc is_state
kill pid t = elim (find_slot (λ p. p.pid == pid) t.proc nproc 0) [
  | none ↦ (false, t)
  | some i ↦ (
    true,
    set_proc t i (record (t.proc i) {
      killed = true;
      state = if is_state sleeping (t.proc i) then runnable else (t.proc i).state;
    }),
  )
]
