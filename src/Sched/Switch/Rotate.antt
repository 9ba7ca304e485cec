-- ===== src/Sched/Switch/Rotate.antt =====
-- What `switch_best` in kernel/src/sched/task.rs does to the table.
use mathlib.Core.Option
use tanix.Sched.{TaskState, Task, Scheduler}
use tanix.Sched.Pick.{pick_next, pick_next_rr}
use tanix.Sched.Switch.{Switch, is_running, rotate, switch_best}
use tanix.Sched.Table.{task_at, in_state, set_state, prio_or_least}
use tanix.Prelude.{
  ℕ, zero, suc, ◌<◌, ◌≡◌, ◌≢◌, ◌⊎◌, inl, inr, refl, sym, ap, ◌∙◌, Bool, true, false, not, ◌&&◌,
  ◌||◌, Option, none, List, [], ◌∷◌, arith, leb, ◌==◌, get_or, set, get_or-set_ne, Bool-cases,
  if◌then◌else◌,
}

set_mapped :
    (f : Task → Task) (slots : List (Option Task)) (i : ℕ)
    → get_or (set slots i (Option.map f (get_or slots i none))) i none
      ≡ Option.map f (get_or slots i none)
set_mapped f [] i = refl
set_mapped f (o ∷ rest) zero = refl
set_mapped f (o ∷ rest) (suc i) = set_mapped f rest i

task_at-set_state :
    (idx : ℕ) (state : TaskState) (s : Scheduler)
    → task_at idx (set_state idx state s) ≡ Option.map (in_state state) (task_at idx s)
unfolding set_state
task_at-set_state idx state s = set_mapped (in_state state) s.tasks idx

task_at-set_state_ne :
    (idx j : ℕ) (state : TaskState) (s : Scheduler)
    → j ≢ idx
    → task_at j (set_state idx state s) ≡ task_at j s
unfolding set_state
task_at-set_state_ne idx j state s ne =
    get_or-set_ne s.tasks idx j (Option.map (in_state state) (task_at idx s)) none (λ e. ne (sym e))

-- Nothing changes, or the running task of the current slot and the one of another slot change roles.
abbrev pub Rotates : (strict : Bool) (cur : ℕ) → Scheduler → Switch → Type 0
Rotates strict cur s r =
    (r ≡ (false, s, cur))
    ⊎ ((r.0 ≡ true)
        × (r.2 ≢ cur)
        × (r.2 ≢ 0)
        × (is_running (task_at cur s) ≡ true)
        × (strict ≡ true → prio_or_least (task_at r.2 s) < prio_or_least (task_at cur s))
        × (task_at cur r.1 ≡ Option.map (in_state TaskState.ready) (task_at cur s))
        × (task_at r.2 r.1 ≡ Option.map (in_state TaskState.running) (task_at r.2 s))
        × ((j : ℕ) → j ≢ cur → j ≢ r.2 → task_at j r.1 ≡ task_at j s))

rotate-Rotates :
    (strict : Bool) (cur next : ℕ) (s : Scheduler)
    → next ≢ cur
    → next ≢ 0
    → is_running (task_at cur s) ≡ true
    → (strict ≡ true → prio_or_least (task_at next s) < prio_or_least (task_at cur s))
    → Rotates strict cur s (rotate cur next s)
rotate-Rotates strict cur next s ne nonzero run better =
    let s' = set_state cur TaskState.ready s in
    inr (
      refl,
      ne,
      nonzero,
      run,
      better,
      task_at-set_state_ne next cur TaskState.running s' (λ e. ne (sym e))
          ∙ task_at-set_state cur TaskState.ready s,
      task_at-set_state next TaskState.running s'
          ∙ ap (Option.map (in_state TaskState.running))
              (task_at-set_state_ne cur next TaskState.ready s ne),
      λ j off off'.
          task_at-set_state_ne next j TaskState.running s' off'
          ∙ task_at-set_state_ne cur j TaskState.ready s off,
    )

-- `switch_best` changes nothing, or, where the current task runs, it makes that task ready and the task
-- of another slot but 0 running, and leaves all other slots alone; a strict switch is to a task of a
-- better priority.
pub switch_best-Rotates :
    (strict : Bool) (cpu cur : ℕ) (s : Scheduler)
    → Rotates strict cur s (switch_best strict cpu cur s)
unfolding switch_best
switch_best-Rotates strict cpu cur s =
    from_next (if strict then pick_next cpu cur s else pick_next_rr cpu cur cur s)
  where
    from_next :
        (next : ℕ)
        → Rotates strict cur s (
            if cur == 0 || not (is_running (task_at cur s))
            then (false, s, cur)
            else (if next == cur
                  || next == 0
                  || strict && leb (prio_or_least (task_at cur s)) (prio_or_least (task_at next s))
                then (false, s, cur)
                else rotate cur next s))
    from_next next = elim (Bool-cases (cur == 0 || not (is_running (task_at cur s)))) [
      | inl stays ↦ rw stays (inl refl)
      | inr may ↦
          elim (Bool-cases (
            next == cur
            || next == 0
            || strict && leb (prio_or_least (task_at cur s)) (prio_or_least (task_at next s)))) [
              | inl nowhere ↦ rw (may, nowhere) (inl refl)
              | inr go ↦
                  rw (may, go)
                    (rotate-Rotates strict cur next s (ground arith) (ground arith) (ground arith)
                      (λ e. ground (arith, e)))
            ]
    ]
