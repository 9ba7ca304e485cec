-- ===== src/Sched/Switch/Wake.antt =====
-- What the waking of sleepers in kernel/src/sched/task.rs does to a killed task.
use mathlib.Core.Option
use tanix.Sched.{TaskState, Task, Scheduler}
use tanix.Sched.Switch.{is_due, awake, wake, wake_sleepers, killed, kill_task}
use tanix.Sched.Table.{has_id, task_by_id, change_by_id, current_id}
use tanix.Slots.{find, update, find-update}
use tanix.Prelude.{
  ℕ, ◌≡◌, refl, ap, ◌∙◌, Bool, true, false, not, ◌&&◌, Option, none, some, List, [], ◌∷◌, ◌==◌, inl,
  inr, Bool-cases, if◌then◌else◌,
}

abbrev pub woken_as : ℕ → Task → Task
woken_as now t = if is_due now t then awake t else t

-- A search by id behind the waking finds the same task, woken if it is due.
find-wake :
    (now id : ℕ) (slots : List (Option Task))
    → find (has_id id) (wake now slots) ≡ Option.map (woken_as now) (find (has_id id) slots)
unfolding find wake
find-wake now id [] = refl
find-wake now id (none ∷ rest) = find-wake now id rest
find-wake now id (some t ∷ rest) = elim (Bool-cases (is_due now t)) [
  | inl due ↦ rw due (elim (Bool-cases (t.id == id)) [
    | inl hit ↦ rw hit (rw due refl)
    | inr miss ↦ rw miss (find-wake now id rest)
  ])
  | inr rests ↦ rw rests (elim (Bool-cases (t.id == id)) [
    | inl hit ↦ rw hit (rw rests refl)
    | inr miss ↦ rw miss (find-wake now id rest)
  ])
]

-- The search behind a kill and a wake, in the slots that are woken.
find-wake-update :
    (now id : ℕ) (free : Bool) (slots : List (Option Task)) (t : Task)
    → find (has_id id) slots ≡ some t
    → is_due now t ≡ true
    → find (has_id id) (wake now (update (has_id id) (killed free) slots))
      ≡ some (awake (killed free t))
unfolding is_due
find-wake-update now id free slots t e due =
    find-wake now id (update (has_id id) (killed free) slots)
    ∙ (ap (Option.map (woken_as now))
          (find-update (has_id id) (killed free) (λ a h. h) slots ∙ ap (Option.map (killed free)) e)
        ∙ ap (λ (b : Bool). some (if b then awake (killed free t) else killed free t)) due)

-- Of a table whose slot 0 holds no task of that id: killing a sleeping task and waking the sleepers that
-- are due, with it among them, leaves the killed task ready to run.
pub wake_sleepers-kill_task :
    (idle : Option Task) (rest : List (Option Task)) (next_id : ℕ) (woken : Option ℕ)
    (id cur now : ℕ) (t : Task)
    → ((i : Task) → idle ≡ some i → has_id id i ≡ false)
    → find (has_id id) rest ≡ some t
    → is_due now t ≡ true
    → let s : Scheduler = record { tasks = idle ∷ rest; next_id = next_id; woken = woken } in
      (t' : Task) × (task_by_id id (wake_sleepers now (kill_task id cur s).1).1 ≡ some t')
      × (t'.state ≡ TaskState.ready)
unfolding wake_sleepers kill_task task_by_id change_by_id find update
wake_sleepers-kill_task none rest next_id woken id cur now t apart e due =
    let s : Scheduler = record { tasks = none ∷ rest; next_id = next_id; woken = woken } in
    let free = not (t.ttbr0 == 0) && not (id == current_id cur s) in
    rw e (awake (killed free t), find-wake-update now id free rest t e due, refl)
wake_sleepers-kill_task (some i) rest next_id woken id cur now t apart e due =
    let s : Scheduler = record { tasks = some i ∷ rest; next_id = next_id; woken = woken } in
    let free = not (t.ttbr0 == 0) && not (id == current_id cur s) in
    let off = apart i refl in
    rw (off, e)
      (rw off (rw off (awake (killed free t), find-wake-update now id free rest t e due, refl)))
