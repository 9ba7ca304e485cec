-- ===== src/Sched/Cores/Reach.antt =====
-- The cores stay apart in every run.
use mathlib.Core.Option
use mathlib.Core.Path.{subst}
use native.Mathlib.Decide.{ℕ_discrete}
use tanix.Ipc.Syscall.{change_at, sleeping_until, slept}
use tanix.Ipc.Syscall.Slots.{task_at-change_at, task_at-change_at_ne}
use tanix.Sched.{TaskState, Task, Scheduler, idle_slot}
use tanix.Sched.Cores.{
  System, changed, Run, starts, yields, ticks, exits, schedules, enters, rounds, blocks, sleeps,
  resumes, tails, wakes, kills,
}
use tanix.Sched.Cores.Apart.{
  IsHeld, IsIdleOf, AreApart, Touches, Holds-change_at, Holds-change_at_ne, AreApart-Touches,
}
use tanix.Sched.Cores.Points.{
  exit_current-AreApart, blocks-AreApart, schedule-AreApart, enter-AreApart,
  secondary_round-AreApart, reschedule-AreApart, sys_sleep-AreApart,
}
use tanix.Sched.Cores.Switches.{switch_best-AreApart}
use tanix.Sched.Cores.Ticks.{tick_preempt-AreApart}
use tanix.Sched.Pick.{is_ready}
use tanix.Sched.Switch.{killed, kill_found, kill_task, yield_cpu}
use tanix.Sched.Table.{task_at, in_state, set_state, has_id, task_by_id, change_by_id, current_id}
use tanix.Slots.{update}
use tanix.Prelude.{
  ℕ, zero, suc, ◌<◌, ◌≡◌, ◌≢◌, ◌⊎◌, refl, sym, ap, ◌∙◌, Bool, true, not, ◌&&◌, Option, none, some,
  List, [], ◌∷◌, ◌==◌, get_or, Bool-cases, inl, inr,
}

get_or-update :
    (test : Task → Bool) (f : Task → Task) (slots : List (Option Task)) (x : ℕ)
    → (get_or (update test f slots) x none ≡ get_or slots x none)
      ⊎ (get_or (update test f slots) x none ≡ Option.map f (get_or slots x none))
unfolding update
get_or-update test f [] x = inl refl
get_or-update test f (none ∷ rest) zero = inl refl
get_or-update test f (none ∷ rest) (suc x) = get_or-update test f rest x
get_or-update test f (some t ∷ rest) zero = elim (Bool-cases (test t)) [
  | inl hit ↦ rw hit (inr refl)
  | inr miss ↦ rw miss (inl refl)
]
get_or-update test f (some t ∷ rest) (suc x) = elim (Bool-cases (test t)) [
  | inl hit ↦ rw hit (inl refl)
  | inr miss ↦ rw miss (get_or-update test f rest x)
]

change_at-Touches : (f : Task → Task) (k : ℕ) (s : Scheduler) → Touches f s (change_at k f s)
change_at-Touches f k s x = elim (ℕ_discrete x k) [
  | no m ↦ inl (task_at-change_at_ne k x f s m)
  | yes m ↦ inr (
      subst (λ (i : ℕ). task_at i (change_at k f s) ≡ Option.map f (task_at i s)) (sym m)
        (task_at-change_at k f s))
]

module _ (n : ℕ) (y : System) (a : AreApart n n y) where
  kill_found-AreApart :
      (id cur : ℕ) (o : Option Task) → AreApart n n (changed y ((kill_found id cur y.sched o).1))
  unfolding change_by_id is_ready
  kill_found-AreApart id cur none = a
  kill_found-AreApart id cur (some t) =
      let free = not (t.ttbr0 == 0) && not (id == current_id cur y.sched) in
      AreApart-Touches n n (killed free) y (change_by_id id (killed free) y.sched)
        (λ t' h. (refl, h.1)) (λ c t' h. h) (λ t' h r. cc)
        (get_or-update (has_id id) (killed free) y.sched.tasks) a

  kill_task-AreApart : (id cur : ℕ) → AreApart n n (changed y ((kill_task id cur y.sched).1))
  unfolding kill_task
  kill_task-AreApart id cur = kill_found-AreApart id cur (task_by_id id y.sched)

  slept-AreApart : (k : ℕ) → AreApart n n (changed y (slept k y.sched))
  unfolding slept
  slept-AreApart k =
      AreApart-Touches n n (sleeping_until 0) y (change_at k (sleeping_until 0) y.sched)
        (λ t h. (h.0, refl)) (λ c t h. (h.0, refl)) (λ t h r. refl)
        (change_at-Touches (sleeping_until 0) k y.sched) a

  woken-AreApart :
      (x : ℕ) (t : Task)
      → ((c : ℕ) → c < n → y.cur c ≢ x)
      → task_at x y.sched ≡ some t
      → t.sleep_deadline ≡ 0
      → AreApart n n (changed y (set_state x TaskState.ready y.sched))
  unfolding set_state change_at
  woken-AreApart x t off at asleep = record {
    idles = λ c lt.
        Holds-change_at (IsIdleOf c) (idle_slot c) x (in_state TaskState.ready) y.sched (λ u e h. h)
          (a.idles c lt);
    apart = a.apart;
    off_idle = a.off_idle;
    held = λ c lt ne.
        Holds-change_at_ne IsHeld (y.cur c) x (in_state TaskState.ready) y.sched (off c lt)
          (a.held c lt ne);
    awake = λ k u e. elim (ℕ_discrete k x) [
      | no m ↦ a.awake k u (sym (task_at-change_at_ne x k (in_state TaskState.ready) y.sched m) ∙ e)
      | yes m ↦ λ r.
          let here : Option.map (in_state TaskState.ready) (some t) ≡ some u =
            ap (Option.map (in_state TaskState.ready)) (sym at)
            ∙ (sym (task_at-change_at x (in_state TaskState.ready) y.sched)
                ∙ (ap (λ (i : ℕ). task_at i (change_at x (in_state TaskState.ready) y.sched))
                      (sym m)
                    ∙ e)) in
          let same : in_state TaskState.ready t ≡ u = cc here in
          ap (λ (v : Task). v.sleep_deadline) (sym same) ∙ asleep
    ];
  }

-- In every state that `n` cores come to, from one where they are apart, by any sequence of the steps of
-- `Run`: yields, ticks, exits, blocking and sleeping calls, kills, wakings of tasks that run nowhere, and
-- tails of calls with a true record, no two of the cores have the same slot, and no core is in the idle
-- slot of another; the task of each core's slot is neither in the queue nor asleep.
pub Run-AreApart :
    (n : ℕ) (start : System) → AreApart n n start → {y : System} → Run n start y → AreApart n n y
unfolding yield_cpu
Run-AreApart n start a starts = a
Run-AreApart n start a (yields c lt {y} r) =
    switch_best-AreApart n c lt y (Run-AreApart n start a r) true
Run-AreApart n start a (ticks c from_el0 now lt {y} r) =
    tick_preempt-AreApart n c from_el0 now lt y (Run-AreApart n start a r)
Run-AreApart n start a (exits c lt {y} r) =
    exit_current-AreApart n c lt y (Run-AreApart n start a r)
Run-AreApart n start a (schedules c lt {y} r) =
    schedule-AreApart n c lt y (Run-AreApart n start a r)
Run-AreApart n start a (enters c lt {y} r) = enter-AreApart n c lt y (Run-AreApart n start a r)
Run-AreApart n start a (rounds c lt {y} r idle) =
    secondary_round-AreApart n c lt y (Run-AreApart n start a r) idle
Run-AreApart n start a (blocks c answer lt {y} r) =
    blocks-AreApart n c lt y (Run-AreApart n start a r) answer
Run-AreApart n start a (sleeps c now ms lt {y} r busy) =
    sys_sleep-AreApart n c now ms lt y (Run-AreApart n start a r) busy
Run-AreApart n start a (resumes c lt {y} r) =
    slept-AreApart n y (Run-AreApart n start a r) (y.cur c)
Run-AreApart n start a (tails c lt {y} r fresh) =
    reschedule-AreApart n c lt y (Run-AreApart n start a r) fresh
Run-AreApart n start a (wakes x t {y} r off at asleep) =
    woken-AreApart n y (Run-AreApart n start a r) x t off at asleep
Run-AreApart n start a (kills c id {y} r) =
    kill_task-AreApart n y (Run-AreApart n start a r) id (y.cur c)
