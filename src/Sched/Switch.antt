-- ===== src/Sched/Switch.antt =====
-- kernel/src/sched/task.rs: the scheduling points. Each is given the CPU and its current slot, and says
-- whether it switched, with the table and the current slot behind it; the switch of the registers, and
-- the lock around it, are left out. A slot that a point switches to holds a task in the source.
pub mod Wake
pub mod Rotate
use tanix.Sched.{TaskState, Task, Scheduler, idle_slot}
use tanix.Sched.Pick.{pick_next, pick_next_rr}
use tanix.Sched.Table.{task_at, task_by_id, change_by_id, set_state, prio_or_least, current_id}
use tanix.Prelude.{
  ℕ, zero, suc, ◌+◌, Bool, true, false, not, ◌&&◌, ◌||◌, Option, none, some, List, [], ◌∷◌, leb,
  ◌==◌, if◌then◌else◌,
}

abbrev pub Switch : Type 0
Switch = Bool × Scheduler × ℕ

unfoldable pub runs : TaskState → Bool
runs TaskState.ready = false
runs TaskState.running = true
runs TaskState.blocked = false
runs TaskState.zombie = false

abbrev pub is_running : Option Task → Bool
is_running none = false
is_running (some t) = runs t.state

unfoldable pub is_dead : TaskState → Bool
is_dead TaskState.ready = false
is_dead TaskState.running = false
is_dead TaskState.blocked = false
is_dead TaskState.zombie = true

abbrev pub is_zombie : Option Task → Bool
is_zombie none = false
is_zombie (some t) = is_dead t.state

-- The current task goes back into the queue and `next` runs.
abbrev pub rotate : (cur next : ℕ) → Scheduler → Switch
rotate cur next s = (true, set_state next TaskState.running (set_state cur TaskState.ready s), next)

-- `next` runs, and the current slot keeps its state.
abbrev pub leave_for : ℕ → Scheduler → Switch
leave_for next s = (true, set_state next TaskState.running s, next)

unfoldable pub switch_best : (strict : Bool) (cpu cur : ℕ) → Scheduler → Switch
switch_best strict cpu cur s =
    let next = if strict then pick_next cpu cur s else pick_next_rr cpu cur cur s in
    let worse = leb (prio_or_least (task_at cur s)) (prio_or_least (task_at next s)) in
    if cur == 0 || not (is_running (task_at cur s))
    then (false, s, cur)
    else (if next == cur || next == 0 || strict && worse
        then (false, s, cur)
        else rotate cur next s)

-- `sleep_deadline != 0 && sleep_deadline <= now`
unfoldable pub is_due : ℕ → Task → Bool
is_due now t = not (t.sleep_deadline == 0) && leb t.sleep_deadline now

abbrev pub awake : Task → Task
awake t = record t { sleep_deadline = 0; state = TaskState.ready }

-- The sleepers of the slots behind slot 0.
unfoldable pub wake : ℕ → List (Option Task) → List (Option Task)
wake now [] = []
wake now (none ∷ rest) = none ∷ wake now rest
wake now (some t ∷ rest) = (if is_due now t then some (awake t) else some t) ∷ wake now rest

unfoldable pub any_due : ℕ → List (Option Task) → Bool
any_due now [] = false
any_due now (none ∷ rest) = any_due now rest
any_due now (some t ∷ rest) = is_due now t || any_due now rest

abbrev pub wake_behind : ℕ → List (Option Task) → Bool × List (Option Task)
wake_behind now [] = (false, [])
wake_behind now (idle ∷ rest) = (any_due now rest, idle ∷ wake now rest)

-- Whether a sleeper was woken, and the table. The interrupts to idle cores are `poked`.
unfoldable pub wake_sleepers : ℕ → Scheduler → Bool × Scheduler
wake_sleepers now s = let r = wake_behind now s.tasks in (r.0, record s { tasks = r.1 })

-- The secondary cores of 1, 2 and 3 that are online and in their idle slot.
unfoldable pub poked : (online : ℕ → Bool) → Scheduler → List ℕ
poked online s =
    let idles = λ (cpu : ℕ). online cpu && is_running (task_at (idle_slot cpu) s) in
    let last = if idles 3 then 3 ∷ [] else [] in
    let later = if idles 2 then 2 ∷ last else last in if idles 1 then 1 ∷ later else later

-- The timer tick.
unfoldable pub tick_preempt : (from_el0 : Bool) (now cpu cur : ℕ) → Scheduler → Switch
tick_preempt from_el0 now cpu cur s =
    let r = wake_sleepers now s in
    let idle = idle_slot cpu in
    let next = pick_next cpu cur r.1 in
    let stay : Switch = (false, r.1, cur) in
    let best = switch_best false cpu cur r.1 in
    if is_zombie (task_at cur r.1)
    then (if next == cur || next == idle then stay else leave_for next r.1)
    else (if cur == idle
        then (if r.0 && not (next == idle) then leave_for next r.1 else stay)
        else (if from_el0 then best else stay))

unfoldable pub yield_cpu : (cpu cur : ℕ) → Scheduler → Switch
yield_cpu cpu cur s = switch_best true cpu cur s

-- The end of a system call that woke the task in `wslot`, if any.
abbrev pub rescheduled : (cpu cur : ℕ) → Scheduler → Option ℕ → Switch
rescheduled cpu cur s none = (false, s, cur)
rescheduled cpu cur s (some wslot) =
    if cur == idle_slot cpu || leb (prio_or_least (task_at cur s)) (prio_or_least (task_at wslot s))
    then (false, s, cur)
    else rotate cur wslot s

unfoldable pub reschedule : (cpu cur : ℕ) → Scheduler → Switch
reschedule cpu cur s = rescheduled cpu cur (record s { woken = none }) s.woken

-- A killed task, and one whose address space is freed.
abbrev pub killed : Bool → Task → Task
killed free t = record t {
  state = TaskState.zombie;
  recv_blocked = false;
  ttbr0 = if free then 0 else t.ttbr0;
}

-- Whether there was such a task, the table, and the page tables to free.
abbrev pub kill_found : (id cur : ℕ) → Scheduler → Option Task → Bool × Scheduler × Option ℕ
kill_found id cur s none = (false, s, none)
kill_found id cur s (some t) =
    let free = not (t.ttbr0 == 0) && not (id == current_id cur s) in
    (true, change_by_id id (killed free) s, if free then some t.ttbr0 else none)

unfoldable pub kill_task : (id cur : ℕ) → Scheduler → Bool × Scheduler × Option ℕ
kill_task id cur s = kill_found id cur s (task_by_id id s)

unfoldable pub exit_current : (cpu cur : ℕ) → Scheduler → Switch
exit_current cpu cur s =
    let s' = set_state cur TaskState.zombie s in leave_for (pick_next cpu cur s') s'

-- From the boot context.
unfoldable pub enter : (cpu cur : ℕ) → Scheduler → Switch
enter cpu cur s =
    let next = pick_next cpu cur s in
    if next == idle_slot cpu then (false, s, cur) else leave_for next s

abbrev pub is_empty_slot : Option Task → Bool
is_empty_slot none = true
is_empty_slot (some t) = false

unfoldable pub schedule : (cpu cur : ℕ) → Scheduler → Switch
schedule cpu cur s =
    let next = pick_next cpu cur s in
    let nowhere = is_empty_slot (task_at cur s) || is_empty_slot (task_at next s) in
    if cur == next || nowhere
    then (false, s, cur)
    else (if is_running (task_at cur s) then rotate cur next s else leave_for next s)

-- One round of the loop of a secondary core in its idle slot.
unfoldable pub secondary_round : (cpu cur : ℕ) → Scheduler → Switch
secondary_round cpu cur s =
    let next = pick_next cpu cur s in
    if next == idle_slot cpu then (false, s, cur) else rotate (idle_slot cpu) next s
