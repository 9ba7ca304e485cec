-- ===== src/Sched/Cores.antt =====
-- The cores of kernel/src/smp.rs over the one table of kernel/src/sched/task.rs: each step is a scheduling
-- point of one core, run under the scheduler's lock, or a change of a task that runs on no core.
pub mod Apart
pub mod Picked
pub mod Switches
pub mod Ticks
pub mod Points
pub mod Reach
mod Tests
use tanix.Ipc.Syscall.{Answer, Call, change_at, switch_away, sys_sleep, slept}
use tanix.Sched.{TaskState, Task, Scheduler, idle_slot}
use tanix.Sched.Pick.{may_run}
use tanix.Sched.Switch.{
  Switch, yield_cpu, tick_preempt, reschedule, exit_current, enter, schedule, secondary_round,
  killed, kill_task,
}
use tanix.Sched.Table.{task_at, set_state}
use tanix.Prelude.{ℕ, ◌<◌, ◌≡◌, ◌≢◌, Bool, true, false, Option, none, some, ◌==◌, if◌then◌else◌}

-- The table, and the current slot of each core.
pub record System : Type 0 where
  pub sched : Scheduler
  pub cur : ℕ → ℕ

-- `set_current` of core `c`.
abbrev pub set_current : (c slot : ℕ) → (ℕ → ℕ) → ℕ → ℕ
set_current c slot cur = λ d. if d == c then slot else cur d

-- After a scheduling point of core `c`.
abbrev pub moved : ℕ → System → Switch → System
moved c y r = record { sched = r.1; cur = set_current c r.2 y.cur }

-- After a call of core `c`.
abbrev pub called : ℕ → System → Call → System
called c y k = record { sched = k.sched; cur = set_current c k.cur y.cur }

-- A change of the table that leaves the current slots alone.
abbrev pub changed : System → Scheduler → System
changed y s = record y { sched = s }

-- A system of `n` cores, step by step from `start`. The tail of a call is taken with a record that is
-- true: the woken task may run on that core.
pub data Run (n : ℕ) (start : System) : System → Type 0 where
  starts : Run n start start
  yields :
      (c : ℕ)
      → c < n
      → {y : System} → Run n start y
      → Run n start (moved c y (yield_cpu c (y.cur c) y.sched))
  ticks :
      (c : ℕ) (from_el0 : Bool) (now : ℕ)
      → c < n
      → {y : System} → Run n start y
      → Run n start (moved c y (tick_preempt from_el0 now c (y.cur c) y.sched))
  exits :
      (c : ℕ)
      → c < n
      → {y : System} → Run n start y
      → Run n start (moved c y (exit_current c (y.cur c) y.sched))
  schedules :
      (c : ℕ)
      → c < n
      → {y : System} → Run n start y
      → Run n start (moved c y (schedule c (y.cur c) y.sched))
  enters :
      (c : ℕ)
      → c < n
      → {y : System} → Run n start y
      → Run n start (moved c y (enter c (y.cur c) y.sched))
  rounds :
      (c : ℕ)
      → c < n
      → {y : System} → Run n start y
      → y.cur c ≡ idle_slot c
      → Run n start (moved c y (secondary_round c (y.cur c) y.sched))
  blocks :
      (c : ℕ) (answer : Answer)
      → c < n
      → {y : System} → Run n start y
      → Run n start (
          called c y
            (switch_away c (y.cur c) answer (set_state (y.cur c) TaskState.blocked y.sched)))
  sleeps :
      (c now ms : ℕ)
      → c < n
      → {y : System} → Run n start y
      → y.cur c ≢ idle_slot c
      → Run n start (called c y (sys_sleep now c (y.cur c) ms y.sched))
  resumes :
      (c : ℕ)
      → c < n
      → {y : System} → Run n start y
      → Run n start (changed y (slept (y.cur c) y.sched))
  tails :
      (c : ℕ)
      → c < n
      → {y : System} → Run n start y
      → ((w : ℕ)
          → y.sched.woken ≡ some w
          → (t : Task) × (task_at w y.sched ≡ some t) × (may_run c t ≡ true))
      → Run n start (moved c y (reschedule c (y.cur c) y.sched))
  wakes :
      (x : ℕ) (t : Task)
      → {y : System} → Run n start y
      → ((c : ℕ) → c < n → y.cur c ≢ x)
      → task_at x y.sched ≡ some t
      → t.sleep_deadline ≡ 0
      → Run n start (changed y (set_state x TaskState.ready y.sched))
  kills :
      (c id : ℕ)
      → {y : System} → Run n start y
      → Run n start (changed y (kill_task id (y.cur c) y.sched).1)
