-- ===== src/Proc.antt =====
-- proc.c: the process table and what fork, exit, wait, sleep, wakeup, kill and the scheduler do to it.
-- Each function below is a critical section under `ptable.lock`, with the code around it that works on
-- the caller's own process or on an embryo, which no other process touches.
mod Table
mod Alloc
mod Wake
mod Exit
mod Schedule
pub mod Scan
pub mod Kin
pub mod Free
pub mod Forking
pub mod Family
pub mod Reaping
pub mod Children
pub mod Killing
mod Growing
pub mod Choice
mod Examples
pub use Table.{
  ProcState, unused, embryo, sleeping, runnable, running, zombie, Chan, on_proc, on_addr, Proc,
  Ptable, nproc, nofile, Services,
}
unfoldable pub use Table.{
  find_slot, for_procs, is_state, set_proc, state_eq, option_eq, chan_eq, proc_eq,
}
unfoldable pub use Alloc.{
  allocproc, allocproc_at, take_slot, find_unused, dup_files, fork, fork_after, fork_into,
}
unfoldable pub use Wake.{wakeup1, wake_slot, sleeps_on, kill, sleep_on, tidy_up, yield_cpu}
pub use Exit.{Waited, returned, failed, sleeps}
unfoldable pub use Exit.{
  close_files, reparent, reparent_slot, parent_chan, exit_table, is_child, exit, reap, wait,
  find_zombie, has_kids,
}
unfoldable pub use Growing.{resize, growproc}
unfoldable pub use Schedule.{
  better, highest, choose, scheduler_round, scheduler, dispatch, cps_line, cps_from, cps,
}
