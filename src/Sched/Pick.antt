-- ===== src/Sched/Pick.antt =====
-- `Scheduler::pick_next` and `Scheduler::pick_next_rr` in kernel/src/sched/task.rs.
pub mod Best
use tanix.Sched.{TaskState, Task, Scheduler, idle_slot}
use tanix.Prelude.{
  ℕ, zero, suc, ◌+◌, ◌-◌, ◌%◌, Bool, true, false, ◌&&◌, ◌||◌, Option, none, some, ltb, ◌==◌, length,
  get_or, if◌then◌else◌,
}

unfoldable pub is_ready : TaskState → Bool
is_ready TaskState.ready = true
is_ready TaskState.running = false
is_ready TaskState.blocked = false
is_ready TaskState.zombie = false

-- Neither bound to another core nor anything but ready.
unfoldable pub may_run : ℕ → Task → Bool
may_run cpu t = bound t.cpu_affinity && is_ready t.state
  where
    bound : Option ℕ → Bool
    bound none = true
    bound (some aff) = aff == cpu

-- How far the slot `idx` is ahead of the current slot.
unfoldable pub forward : (n cur idx : ℕ) → ℕ
forward n cur idx = (idx + n - cur - 1) % n

module _ {A : Type 0} (candidate : ℕ → Option A) (better : A → A → Bool) where
  -- One round: the candidate, if any, replaces a best one that it is better than.
  abbrev pub keep_best : Option A → Option A → Option A
  keep_best none best = best
  keep_best (some a) none = some a
  keep_best (some a) (some b) = if better a b then some a else some b

  -- The loop over the slots, `rounds` of them from `idx` on.
  unfoldable pub scan : ℕ → ℕ → Option A → Option A
  scan zero idx best = best
  scan (suc rounds) idx best = scan rounds (idx + 1) (keep_best (candidate idx) best)

-- What a slot offers to `pick_next`: its priority and its index.
abbrev pub ranked : ℕ → ℕ → Option Task → Option (ℕ × ℕ)
ranked cpu idx none = none
ranked cpu idx (some t) = if may_run cpu t then some (t.priority, idx) else none

abbrev pub outranks : (n cur : ℕ) → ℕ × ℕ → ℕ × ℕ → Bool
outranks n cur (p, idx) (bp, bi) =
    ltb p bp || (p == bp && ltb (forward n cur idx) (forward n cur bi))

abbrev pub slot_of : ℕ → Option (ℕ × ℕ) → ℕ
slot_of cpu none = idle_slot cpu
slot_of cpu (some (p, idx)) = idx

-- `cur` is the current slot of the CPU.
unfoldable pub pick_next : (cpu cur : ℕ) → Scheduler → ℕ
pick_next cpu cur s =
    let n = length s.tasks in
    slot_of cpu
      (scan (λ idx. ranked cpu idx (get_or s.tasks idx none)) (outranks n cur) (n - 1) 1 none)

-- What a slot offers to `pick_next_rr`.
abbrev pub offered : (cpu exclude : ℕ) → ℕ → Option Task → Option ℕ
offered cpu exclude idx none = none
offered cpu exclude idx (some t) =
    if idx == exclude then none else (if may_run cpu t then some idx else none)

abbrev pub nearer : (n cur : ℕ) → ℕ → ℕ → Bool
nearer n cur idx bi = ltb (forward n cur idx) (forward n cur bi)

abbrev pub slot_or_idle : ℕ → Option ℕ → ℕ
slot_or_idle cpu none = idle_slot cpu
slot_or_idle cpu (some idx) = idx

unfoldable pub pick_next_rr : (cpu cur exclude : ℕ) → Scheduler → ℕ
pick_next_rr cpu cur exclude s =
    let n = length s.tasks in
    slot_or_idle cpu (
      scan (λ idx. offered cpu exclude idx (get_or s.tasks idx none)) (nearer n cur) (n - 1) 1 none)
