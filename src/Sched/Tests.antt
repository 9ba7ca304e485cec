-- ===== src/Sched/Tests.antt =====
-- The scheduler of kernel/src/sched/task.rs on small tables.
use tanix.Sched.{TaskState, TaskRegion, Task, Scheduler, idle_task, new_task, idle_slot, no_region}
use tanix.Sched.Pick.{pick_next, pick_next_rr, forward, is_ready, may_run, scan}
use tanix.Sched.Pick.Best.{Picks, pick_next-Picks}
use tanix.Sched.Regions.{push_region_for}
use tanix.Sched.Regions.Disjoint.{AreAllApart, push_region_for-AreAllApart}
use tanix.Sched.Switch.{is_due, kill_task, wake_sleepers, switch_best, runs}
use tanix.Sched.Switch.Rotate.{Rotates, switch_best-Rotates}
use tanix.Sched.Switch.Wake.{wake_sleepers-kill_task}
use tanix.Sched.Table.{task_by_id, has_id}
use tanix.Slots.{find}
use tanix.Prelude.{
  ℕ, ◌≡◌, refl, sym, ap, Bool, false, Option, none, some, [], ◌∷◌, arith, inl, inr, replicate, ◌++◌,
}

abbrev plain : ℕ → Task
plain id = new_task 0x1000 id [] 0x2000 0x3000

abbrev prioritised : ℕ → ℕ → Task
prioritised id priority = record (plain id) { priority = priority }

-- Slot 0 of CPU 0, and three ready tasks.
abbrev three : Scheduler
three = record {
  tasks =
      some idle_task
      ∷ some (prioritised 1 128)
      ∷ some (prioritised 2 32)
      ∷ some (prioritised 3 32)
      ∷ [];
  next_id = 4;
  woken = none;
}

pick_next-Picks_example : Picks 0 2 three (pick_next 0 2 three)
pick_next-Picks_example = pick_next-Picks 0 2 three (omega arith)

-- From slot 2 the pick rotates to slot 3, of the same priority.
pick_next_test : pick_next 0 2 three ≡ 3
unfolding pick_next scan forward may_run is_ready
pick_next_test = refl

abbrev sleeping : Task
sleeping = record (plain 7) { state = TaskState.blocked; sleep_deadline = 50; ttbr0 = 4096 }

abbrev is_seven : Option Task → Bool
is_seven none = false
is_seven (some t) = has_id 7 t

wake_sleepers-kill_task_example :
    let s : Scheduler = record {
      tasks = some idle_task ∷ some (plain 1) ∷ some sleeping ∷ [];
      next_id = 8;
      woken = none;
    } in
    (t' : Task) × (task_by_id 7 (wake_sleepers 60 (kill_task 7 1 s).1).1 ≡ some t')
    × (t'.state ≡ TaskState.ready)
unfolding find is_due
wake_sleepers-kill_task_example =
    wake_sleepers-kill_task (some idle_task) (some (plain 1) ∷ some sleeping ∷ []) 8 none 7 1 60
      sleeping (λ i e. ap (λ (o : Option Task). is_seven o) (sym e)) refl refl

abbrev window : TaskRegion
window = record { kind = 2; base = 8192; pages = 4 }

abbrev with_window : Scheduler
with_window = record {
  tasks = none ∷ some (record (plain 1) { regions = window ∷ no_region ∷ [] }) ∷ [];
  next_id = 2;
  woken = none;
}

with_window_lem : AreAllApart with_window.tasks
with_window_lem = ((inr (omega arith), (inr (inl refl), tt), (inl refl, tt, tt)), tt)

push_region_for-AreAllApart_example :
    AreAllApart
      (push_region_for 1 (record { kind = 2; base = 4096; pages = 1 }) with_window).1.tasks
push_region_for-AreAllApart_example =
    push_region_for-AreAllApart 1 (record { kind = 2; base = 4096; pages = 1 }) with_window
      (omega arith) with_window_lem

-- A tick on CPU 1, whose idle task has been left ready: the round robin leaves a task that runs, with
-- another one ready, for the idle task.
abbrev secondary : Scheduler
secondary = record {
  tasks =
      some idle_task
      ∷ some (prioritised 1 128)
      ∷ some (record (plain 2) { state = TaskState.running })
      ∷ (replicate 13 none
          ++ (some (record idle_task {
            id = 0x40000001;
            state = TaskState.ready;
            cpu_affinity = some 1;
          })
              ∷ replicate 15 none));
  next_id = 3;
  woken = none;
}

pick_next_rr_test : pick_next_rr 1 2 2 secondary ≡ idle_slot 1
unfolding pick_next_rr idle_slot scan forward may_run is_ready
pick_next_rr_test = refl

-- So the tick takes the running task of slot 2 off the core.
switch_best-Rotates_example : Rotates false 2 secondary (switch_best false 1 2 secondary)
switch_best-Rotates_example = switch_best-Rotates false 1 2 secondary

switch_best_test : (switch_best false 1 2 secondary).2 ≡ idle_slot 1
unfolding switch_best pick_next_rr idle_slot scan forward may_run is_ready runs
switch_best_test = refl
