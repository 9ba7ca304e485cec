-- ===== src/Sched/Cores/Tests.antt =====
-- Two cores that start in their idle slots: each takes one of the two tasks, and a tick of the first
-- finds nothing else to run.
use tanix.Sched.{Task, idle_task, new_task, idle_slot}
use tanix.Sched.Cores.{System, moved, starts, ticks, enters, rounds}
use tanix.Sched.Cores.Apart.{AreApart, idle_slot_apart}
use tanix.Sched.Cores.Reach.{Run-AreApart}
use tanix.Sched.Pick.{is_ready}
use tanix.Sched.Switch.{enter, secondary_round, tick_preempt}
use tanix.Sched.Table.{task_at}
use tanix.Prelude.{
  ℕ, zero, suc, ◌<◌, ◌≡◌, ◌≢◌, refl, sym, ap, true, false, Option, none, some, List, [], ◌∷◌, ◌++◌,
  get_or, replicate, arith,
}

abbrev plain : ℕ → Task
plain id = new_task 0x1000 id [] 0x2000 0x3000

-- Slot 16 is for the second core.
abbrev tasks_of_both : List (Option Task)
tasks_of_both =
    some idle_task
    ∷ some (plain 1)
    ∷ some (plain 2)
    ∷ (replicate 13 none
        ++ (some (record idle_task { id = 0x40000001; cpu_affinity = some 1 }) ∷ []))

abbrev both : System
both = record {
  sched = record { tasks = tasks_of_both; next_id = 3; woken = none };
  cur = idle_slot;
}

behind_none :
    (k x : ℕ) (slots : List (Option Task)) (t : Task)
    → get_or (replicate k none ++ slots) x none ≡ some t
    → (i : ℕ) × (get_or slots i none ≡ some t)
behind_none zero x slots t e = (x, e)
behind_none (suc k) zero slots t e = cc e
behind_none (suc k) (suc x) slots t e = behind_none k x slots t e

awake_in_both : (x : ℕ) (t : Task) → get_or tasks_of_both x none ≡ some t → t.sleep_deadline ≡ 0
awake_in_both zero t e =
    let same : idle_task ≡ t = cc e in ap (λ (u : Task). u.sleep_deadline) (sym same)
awake_in_both (suc zero) t e =
    let same : plain 1 ≡ t = cc e in ap (λ (u : Task). u.sleep_deadline) (sym same)
awake_in_both (suc (suc zero)) t e =
    let same : plain 2 ≡ t = cc e in ap (λ (u : Task). u.sleep_deadline) (sym same)
awake_in_both (suc (suc (suc x))) t e =
    last (
      behind_none 13 x (some (record idle_task { id = 0x40000001; cpu_affinity = some 1 }) ∷ []) t
        e)
  where
    last :
        (i : ℕ) × (get_or
              (some (record idle_task { id = 0x40000001; cpu_affinity = some 1 }) ∷ [])
              i
              none
            ≡ some t)
        → t.sleep_deadline ≡ 0
    last (zero, h) =
        let same : record idle_task { id = 0x40000001; cpu_affinity = some 1 } ≡ t = cc h in
        ap (λ (u : Task). u.sleep_deadline) (sym same)
    last (suc i, h) = cc h

both-AreApart : AreApart 2 2 both
unfolding idle_slot is_ready
both-AreApart = record {
  idles = idle_of;
  apart = λ c d lc ld ne nc nd. idle_slot_apart c d ne;
  off_idle = λ c d lc ld ne nd. idle_slot_apart d c (λ e. ne (sym e));
  held = held_by;
  awake = λ x t e r. awake_in_both x t e;
}
  where
    idle_of :
        (c : ℕ)
        → c < 2
        → (t : Task) × (task_at (idle_slot c) both.sched ≡ some t)
          × ((t.cpu_affinity ≡ some c) × (t.sleep_deadline ≡ 0))
    idle_of zero lt = (idle_task, refl, (refl, refl))
    idle_of (suc zero) lt =
        (record idle_task { id = 0x40000001; cpu_affinity = some 1 }, refl, (refl, refl))
    idle_of (suc (suc c)) lt = absurd (omega (arith, lt))

    held_by :
        (c : ℕ)
        → c < 2
        → c ≢ 2
        → (t : Task) × (task_at (idle_slot c) both.sched ≡ some t)
          × ((is_ready t.state ≡ false) × (t.sleep_deadline ≡ 0))
    held_by zero lt ne = (idle_task, refl, (refl, refl))
    held_by (suc zero) lt ne =
        (record idle_task { id = 0x40000001; cpu_affinity = some 1 }, refl, (refl, refl))
    held_by (suc (suc c)) lt ne = absurd (omega (arith, lt))

abbrev entered : System
entered = moved 0 both (enter 0 (both.cur 0) both.sched)

abbrev taken : System
taken = moved 1 entered (secondary_round 1 (entered.cur 1) entered.sched)

at_idle : entered.cur 1 ≡ idle_slot 1
at_idle = refl

Run-AreApart_example :
    AreApart 2 2 (moved 0 taken (tick_preempt true 5 0 (taken.cur 0) taken.sched))
Run-AreApart_example =
    Run-AreApart 2 both both-AreApart (
      ticks 0 true 5 (omega arith) (rounds 1 (omega arith) (enters 0 (omega arith) starts) at_idle))
