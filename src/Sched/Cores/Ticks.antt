-- ===== src/Sched/Cores/Ticks.antt =====
-- A tick of kernel/src/sched/task.rs, with the sleepers it wakes, keeps the cores apart.
use mathlib.Core.Option
use tanix.Sched.{Task, Scheduler, idle_slot}
use tanix.Sched.Cores.{System, moved}
use tanix.Sched.Cores.Apart.{IsHeld, IsIdleOf, AreApart, Touches, AreApart-Touches}
use tanix.Sched.Cores.Picked.{pick_next-IsEligible}
use tanix.Sched.Cores.Switches.{stays-AreApart, leave_for-AreApart, switch_best-AreApart}
use tanix.Sched.Pick.{pick_next}
use tanix.Sched.Switch.{is_zombie, is_due, wake, wake_behind, wake_sleepers, tick_preempt}
use tanix.Sched.Switch.Wake.{woken_as}
use tanix.Sched.Table.{task_at}
use tanix.Prelude.{
  ℕ, zero, suc, ◌<◌, ◌≡◌, ◌⊎◌, refl, Bool, false, not, ◌&&◌, ◌||◌, Option, none, some, List, [],
  ◌∷◌, ◌==◌, get_or, arith, Bool-cases, inl, inr,
}

get_or-wake :
    (now : ℕ) (slots : List (Option Task)) (x : ℕ)
    → get_or (wake now slots) x none ≡ Option.map (woken_as now) (get_or slots x none)
unfolding wake
get_or-wake now [] x = refl
get_or-wake now (none ∷ rest) zero = refl
get_or-wake now (none ∷ rest) (suc x) = get_or-wake now rest x
get_or-wake now (some t ∷ rest) zero = elim (Bool-cases (is_due now t)) [
  | inl due ↦ rw due refl
  | inr rests ↦ rw rests refl
]
get_or-wake now (some t ∷ rest) (suc x) = get_or-wake now rest x

wake_behind-Touches :
    (now : ℕ) (slots : List (Option Task)) (x : ℕ)
    → (get_or ((wake_behind now slots).1) x none ≡ get_or slots x none)
      ⊎ (get_or ((wake_behind now slots).1) x none
          ≡ Option.map (woken_as now) (get_or slots x none))
wake_behind-Touches now [] x = inl refl
wake_behind-Touches now (idle ∷ rest) zero = inl refl
wake_behind-Touches now (idle ∷ rest) (suc x) = inr (get_or-wake now rest x)

wake_sleepers-Touches :
    (now : ℕ) (s : Scheduler) → Touches (woken_as now) s ((wake_sleepers now s).1)
unfolding wake_sleepers
wake_sleepers-Touches now s = wake_behind-Touches now s.tasks

not_due : (now : ℕ) (t : Task) → t.sleep_deadline ≡ 0 → is_due now t ≡ false
unfolding is_due
not_due now t e = ground (arith, e)

woken_as_same :
    (P : Task → Type 0) (now : ℕ) (t : Task) → t.sleep_deadline ≡ 0 → P t → P (woken_as now t)
woken_as_same P now t e p = let rests = not_due now t e in rw rests p

-- The sleepers that are due join the queue.
pub wake_sleepers-AreApart :
    (n now : ℕ) (y : System)
    → AreApart n n y
    → AreApart n n (record y { sched = (wake_sleepers now y.sched).1 })
wake_sleepers-AreApart n now y a =
    AreApart-Touches n n (woken_as now) y ((wake_sleepers now y.sched).1)
      (λ t h. woken_as_same IsHeld now t (h.1) h)
      (λ c t h. woken_as_same (IsIdleOf c) now t (h.1) h)
      (λ t h. elim (Bool-cases (is_due now t)) [
        | inl due ↦ rw due (λ r. refl)
        | inr rests ↦ rw rests h
      ])
      (wake_sleepers-Touches now y.sched) a

pub tick_preempt-AreApart :
    (n c : ℕ) (from_el0 : Bool) (now : ℕ) (lt : c < n) (y : System)
    → AreApart n n y
    → AreApart n n (moved c y (tick_preempt from_el0 now c (y.cur c) y.sched))
unfolding tick_preempt
tick_preempt-AreApart n c from_el0 now lt y a =
    let r = wake_sleepers now y.sched in
    let y' : System = record y { sched = r.1 } in
    let a' = wake_sleepers-AreApart n now y a in
    let here = y.cur c in
    let next = pick_next c here r.1 in
    let stay = stays-AreApart n c lt y' a' false in
    let go = leave_for-AreApart n c lt y' a' next (pick_next-IsEligible c here r.1) in
    elim (Bool-cases (is_zombie (task_at here r.1))) [
      | inl dead ↦ elim (Bool-cases (next == here || next == idle_slot c)) [
        | inl nowhere ↦ rw (dead, nowhere) stay
        | inr some_next ↦ rw (dead, some_next) go
      ]
      | inr alive ↦ elim (Bool-cases (here == idle_slot c)) [
        | inl idle ↦ elim (Bool-cases (r.0 && not (next == idle_slot c))) [
          | inl woke ↦ rw (alive, idle, woke) go
          | inr none_woke ↦ rw (alive, idle, none_woke) stay
        ]
        | inr busy ↦ elim (Bool-cases from_el0) [
          | inl user ↦ rw (alive, busy, user) (switch_best-AreApart n c lt y' a' false)
          | inr kernel ↦ rw (alive, busy, kernel) stay
        ]
      ]
    ]
