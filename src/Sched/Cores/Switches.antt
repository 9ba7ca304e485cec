-- ===== src/Sched/Cores/Switches.antt =====
-- The switches of kernel/src/sched/task.rs to a picked task keep the cores apart.
use mathlib.Core.Path.{subst, fun_ext}
use native.Mathlib.Decide.{ℕ_discrete}
use tanix.Ipc.Syscall.{change_at}
use tanix.Sched.{TaskState, Task, idle_slot}
use tanix.Sched.Cores.{System, set_current, moved}
use tanix.Sched.Cores.Apart.{
  IsHeld, IsIdleOf, AreApart, IsAwake, Holds-change_at_ne, AreApart-release, AreApart-but,
  IsEligible, AreApart-take,
}
use tanix.Sched.Cores.Picked.{pick_next-IsEligible, pick_next_rr-IsEligible}
use tanix.Sched.Pick.{may_run, pick_next, pick_next_rr}
use tanix.Sched.Switch.{is_running, rotate, leave_for, switch_best}
use tanix.Sched.Table.{task_at, in_state, set_state, prio_or_least}
use tanix.Prelude.{
  ℕ, ◌<◌, ◌≡◌, ◌≢◌, refl, sym, ap, Bool, true, false, not, ◌&&◌, ◌||◌, ◌==◌, leb, arith,
  if◌then◌else◌, Bool-cases, inl, inr,
}

module _ (n c : ℕ) (lt : c < n) (y : System) (a : AreApart n n y) where
  abbrev cur : ℕ
  cur = y.cur c

  same_current : set_current c cur y.cur ≡ y.cur
  same_current = fun_ext (λ d. elim (ℕ_discrete d c) [
    | yes m ↦ let on : (d == c) ≡ true = ground (arith, m) in rw on (ap y.cur (sym m))
    | no m ↦ let off : (d == c) ≡ false = ground (arith, m) in rw off refl
  ])

  -- No switch.
  pub stays-AreApart : (b : Bool) → AreApart n n (moved c y (b, y.sched, cur))
  stays-AreApart b =
      subst (λ (f : ℕ → ℕ). AreApart n n (record { sched = y.sched; cur = f })) (sym same_current) a

  -- To a task that may run, the current one keeping its state.
  pub leave_for-AreApart :
      (next : ℕ) → IsEligible c next y.sched → AreApart n n (moved c y (leave_for next y.sched))
  unfolding set_state change_at
  leave_for-AreApart next ok = AreApart-take n c next y lt (AreApart-but n c y a) ok

  -- The current task changes so that it is asleep only where it is not in the queue, and a task that
  -- may run in the new table runs.
  pub release-AreApart :
      (f : Task → Task) (next : ℕ)
      → ((d : ℕ) → d < n → cur ≡ idle_slot d → (t : Task) → IsIdleOf d t → IsIdleOf d (f t))
      → ((t : Task) → IsHeld t → IsAwake (f t))
      → IsEligible c next (change_at cur f y.sched)
      → AreApart n n (moved c y (leave_for next (change_at cur f y.sched)))
  unfolding set_state change_at
  release-AreApart f next idle wakes ok =
      AreApart-take n c next (record y { sched = change_at cur f y.sched }) lt
        (AreApart-release n c f y lt idle wakes a) ok

  pub rotate-AreApart :
      (next : ℕ)
      → next ≢ cur
      → IsEligible c next y.sched
      → AreApart n n (moved c y (rotate cur next y.sched))
  unfolding set_state change_at
  rotate-AreApart next ne ok =
      release-AreApart (in_state TaskState.ready) next (λ d ld e t h. h) (λ t h r. h.1)
        (elim ok [
          | inl e ↦ inl e
          | inr h ↦ inr (
              Holds-change_at_ne (λ t. may_run c t ≡ true) next cur (in_state TaskState.ready)
                y.sched ne h)
        ])

  picked :
      (strict : Bool)
      → IsEligible c
          (if strict then pick_next c cur y.sched else pick_next_rr c cur cur y.sched)
          y.sched
  picked true = pick_next-IsEligible c cur y.sched
  picked false = pick_next_rr-IsEligible c cur y.sched cur

  pub switch_best-AreApart :
      (strict : Bool) → AreApart n n (moved c y (switch_best strict c cur y.sched))
  unfolding switch_best
  switch_best-AreApart strict =
      best (if strict then pick_next c cur y.sched else pick_next_rr c cur cur y.sched)
        (picked strict)
    where
      best :
          (next : ℕ)
          → IsEligible c next y.sched
          → AreApart n n (
              moved c y (
                if cur == 0 || not (is_running (task_at cur y.sched))
                then (false, y.sched, cur)
                else (if next == cur
                      || next == 0
                      || strict
                        && leb
                            (prio_or_least (task_at cur y.sched))
                            (prio_or_least (task_at next y.sched))
                    then (false, y.sched, cur)
                    else rotate cur next y.sched)))
      best next ok = elim (Bool-cases (cur == 0 || not (is_running (task_at cur y.sched)))) [
        | inl stay ↦ rw stay (stays-AreApart false)
        | inr go ↦
            elim (Bool-cases (
              next == cur
              || next == 0
              || strict
                && leb (prio_or_least (task_at cur y.sched))
                    (prio_or_least (task_at next y.sched)))) [
                      | inl stay ↦ rw (go, stay) (stays-AreApart false)
                      | inr go' ↦ rw (go, go') (rotate-AreApart next (ground (arith, go')) ok)
                    ]
      ]
