-- ===== src/Sched/Cores/Points.antt =====
-- The other scheduling points of kernel/src/sched/task.rs, and the calls that block, keep the cores apart.
use mathlib.Core.Option
use mathlib.Core.Path.{subst}
use native.Mathlib.Decide.{ℕ_discrete}
use tanix.Ipc.Syscall.{Answer, change_at, switch_away, sleeping_until, sys_sleep, clamp_ms}
use tanix.Sched.{TaskState, Task, Scheduler, idle_slot}
use tanix.Sched.Cores.{System, moved, called}
use tanix.Sched.Cores.Apart.{Holds, AreApart}
use tanix.Sched.Cores.Picked.{pick_next-IsEligible}
use tanix.Sched.Cores.Switches.{
  stays-AreApart, leave_for-AreApart, release-AreApart, rotate-AreApart,
}
use tanix.Sched.Pick.{is_ready, may_run, pick_next}
use tanix.Sched.Switch.{
  is_running, leave_for, rescheduled, reschedule, exit_current, enter, is_empty_slot, schedule,
  secondary_round,
}
use tanix.Sched.Table.{task_at, in_state, set_state, prio_or_least}
use tanix.Prelude.{
  ℕ, zero, suc, ◌+◌, ◌<◌, ◌≡◌, ◌≢◌, refl, sym, ap, ◌∙◌, true, false, ◌||◌, Option, none, some, List,
  [], ◌∷◌, ◌==◌, leb, min, get_or, set, ◌-◌, ◌^◌, arith, Bool-cases, inl, inr,
}

module _ (n c : ℕ) (lt : c < n) (y : System) (a : AreApart n n y) where
  pub exit_current-AreApart : AreApart n n (moved c y (exit_current c (y.cur c) y.sched))
  unfolding exit_current set_state change_at is_ready
  exit_current-AreApart =
      release-AreApart n c lt y a (in_state TaskState.zombie)
        (pick_next c (y.cur c) (change_at (y.cur c) (in_state TaskState.zombie) y.sched))
        (λ d ld e t h. h) (λ t h r. cc)
        (pick_next-IsEligible c (y.cur c) (change_at (y.cur c) (in_state TaskState.zombie) y.sched))

  pub blocks-AreApart :
      (answer : Answer)
      → AreApart n n (
          called c y
            (switch_away c (y.cur c) answer (set_state (y.cur c) TaskState.blocked y.sched)))
  unfolding switch_away set_state change_at is_ready
  blocks-AreApart answer =
      release-AreApart n c lt y a (in_state TaskState.blocked)
        (pick_next c (y.cur c) (change_at (y.cur c) (in_state TaskState.blocked) y.sched))
        (λ d ld e t h. h) (λ t h r. cc)
        (pick_next-IsEligible c (y.cur c)
          (change_at (y.cur c) (in_state TaskState.blocked) y.sched))

  pub schedule-AreApart : AreApart n n (moved c y (schedule c (y.cur c) y.sched))
  unfolding schedule
  schedule-AreApart =
      let here = y.cur c in
      let next = pick_next c here y.sched in
      let ok = pick_next-IsEligible c here y.sched in
      elim (Bool-cases (
        here == next
        || (is_empty_slot (task_at here y.sched) || is_empty_slot (task_at next y.sched)))) [
          | inl stay ↦ rw stay (stays-AreApart n c lt y a false)
          | inr go ↦ elim (Bool-cases (is_running (task_at here y.sched))) [
            | inl runs ↦
                let ne : next ≢ here = λ e. ground (arith, go, e) in
                rw (go, runs) (rotate-AreApart n c lt y a next ne ok)
            | inr rests ↦ rw (go, rests) (leave_for-AreApart n c lt y a next ok)
          ]
        ]

  pub enter-AreApart : AreApart n n (moved c y (enter c (y.cur c) y.sched))
  unfolding enter
  enter-AreApart =
      let next = pick_next c (y.cur c) y.sched in
      elim (Bool-cases (next == idle_slot c)) [
        | inl idle ↦ rw idle (stays-AreApart n c lt y a false)
        | inr go ↦
            rw go (leave_for-AreApart n c lt y a next (pick_next-IsEligible c (y.cur c) y.sched))
      ]

  pub secondary_round-AreApart :
      y.cur c ≡ idle_slot c → AreApart n n (moved c y (secondary_round c (y.cur c) y.sched))
  unfolding secondary_round
  secondary_round-AreApart at_idle =
      let next = pick_next c (y.cur c) y.sched in
      elim (Bool-cases (next == idle_slot c)) [
        | inl idle ↦ rw idle (stays-AreApart n c lt y a false)
        | inr go ↦
            let ne : next ≢ y.cur c = ground (arith, go, at_idle) in
            rw (go, sym at_idle)
              (rotate-AreApart n c lt y a next ne (pick_next-IsEligible c (y.cur c) y.sched))
      ]

  forgotten : AreApart n n (record y { sched = record y.sched { woken = none } })
  forgotten = record {
    idles = a.idles;
    apart = a.apart;
    off_idle = a.off_idle;
    held = a.held;
    awake = a.awake;
  }

  rescheduled-AreApart :
      (o : Option ℕ)
      → ((w : ℕ) → o ≡ some w → Holds (λ t. may_run c t ≡ true) w y.sched)
      → AreApart n n (moved c y (rescheduled c (y.cur c) (record y.sched { woken = none }) o))
  rescheduled-AreApart none fresh =
      stays-AreApart n c lt (record y { sched = record y.sched { woken = none } }) forgotten false
  rescheduled-AreApart (some w) fresh =
      let y' : System = record y { sched = record y.sched { woken = none } } in
      let here = y.cur c in
      elim (Bool-cases (
        here == idle_slot c
        || leb (prio_or_least (task_at here y.sched)) (prio_or_least (task_at w y.sched)))) [
          | inl stay ↦ rw stay (stays-AreApart n c lt y' forgotten false)
          | inr go ↦
              let ne : w ≢ here =
                λ e. ground (arith, go, ap (λ (k : ℕ). prio_or_least (task_at k y.sched)) e) in
              rw go (rotate-AreApart n c lt y' forgotten w ne (inr (fresh w refl)))
        ]

  -- The tail of a call, where the task that is recorded as woken may run on the core.
  pub reschedule-AreApart :
      ((w : ℕ) → y.sched.woken ≡ some w → Holds (λ t. may_run c t ≡ true) w y.sched)
      → AreApart n n (moved c y (reschedule c (y.cur c) y.sched))
  unfolding reschedule
  reschedule-AreApart fresh = rescheduled-AreApart y.sched.woken fresh

set-set_mapped :
    (f g : Task → Task) (slots : List (Option Task)) (i : ℕ)
    → set
        (set slots i (Option.map f (get_or slots i none)))
        i
        (Option.map g (get_or (set slots i (Option.map f (get_or slots i none))) i none))
      ≡ set slots i (Option.map (λ t. g (f t)) (get_or slots i none))
set-set_mapped f g [] i = refl
set-set_mapped f g (none ∷ rest) zero = refl
set-set_mapped f g (some t ∷ rest) zero = refl
set-set_mapped f g (o ∷ rest) (suc i) =
    ap (λ (l : List (Option Task)). o ∷ l) (set-set_mapped f g rest i)

change_at-change_at :
    (f g : Task → Task) (i : ℕ) (s : Scheduler)
    → change_at i g (change_at i f s) ≡ change_at i (λ t. g (f t)) s
unfolding change_at
change_at-change_at f g i s =
    ap (λ (l : List (Option Task)). record s { tasks = l }) (set-set_mapped f g s.tasks i)

abbrev asleep_until : ℕ → Task → Task
asleep_until deadline t = in_state TaskState.blocked (sleeping_until deadline t)

pub sys_sleep-AreApart :
    (n c now ms : ℕ) (lt : c < n) (y : System)
    → AreApart n n y
    → y.cur c ≢ idle_slot c
    → AreApart n n (called c y (sys_sleep now c (y.cur c) ms y.sched))
unfolding sys_sleep switch_away set_state change_at is_ready
sys_sleep-AreApart n c now ms lt y a busy =
    let deadline = min (now + clamp_ms ms) (2 ^ 64 - 1) in
    let here = y.cur c in
    let off : (d : ℕ) → d < n → here ≢ idle_slot d = λ d ld. elim (ℕ_discrete d c) [
      | yes m ↦ λ e. busy (e ∙ ap idle_slot m)
      | no m ↦ a.off_idle d c ld lt m (omega (arith, lt))
    ] in
    subst (λ (s : Scheduler). AreApart n n (moved c y (leave_for (pick_next c here s) s)))
      (sym
        (change_at-change_at (sleeping_until deadline) (in_state TaskState.blocked) here y.sched))
      (release-AreApart n c lt y a (asleep_until deadline)
        (pick_next c here (change_at here (asleep_until deadline) y.sched))
        (λ d ld e t h. absurd (off d ld e)) (λ t h r. cc)
        (pick_next-IsEligible c here (change_at here (asleep_until deadline) y.sched)))
