-- ===== src/Ipc/Syscall/Slots.antt =====
-- The table of tasks under the changes that the calls of kernel/src/ipc/syscall.rs make.
use mathlib.Core.Option
use tanix.Ipc.Syscall.{
  position, task_idx, change_at, accepts, kept_before, take_pending, is_hit, find_staged,
}
use tanix.Sched.{TaskState, Task, PendingSend, StagedSend, Scheduler}
use tanix.Sched.Switch.{is_dead}
use tanix.Sched.Table.{task_at, has_id, in_state, set_state}
use tanix.Slots.{fill}
use tanix.Prelude.{
  ℕ, zero, suc, ◌+◌, ◌<◌, ◌≡◌, ◌≢◌, refl, sym, ap, ◌∙◌, true, false, Option, none, some, List, [],
  ◌∷◌, arith, get_or, set, get_or-set_ne, if◌then◌else◌, Bool-cases, inl, inr,
}

set_mapped :
    (f : Task → Task) (slots : List (Option Task)) (i : ℕ)
    → get_or (set slots i (Option.map f (get_or slots i none))) i none
      ≡ Option.map f (get_or slots i none)
set_mapped f [] i = refl
set_mapped f (o ∷ rest) zero = refl
set_mapped f (o ∷ rest) (suc i) = set_mapped f rest i

pub task_at-change_at :
    (idx : ℕ) (f : Task → Task) (s : Scheduler)
    → task_at idx (change_at idx f s) ≡ Option.map f (task_at idx s)
unfolding change_at
task_at-change_at idx f s = set_mapped f s.tasks idx

pub task_at-change_at_ne :
    (idx j : ℕ) (f : Task → Task) (s : Scheduler)
    → j ≢ idx
    → task_at j (change_at idx f s) ≡ task_at j s
unfolding change_at
task_at-change_at_ne idx j f s ne =
    get_or-set_ne s.tasks idx j (Option.map f (task_at idx s)) none (λ e. ne (sym e))

pub set_state-change_at :
    (idx : ℕ) (state : TaskState) (s : Scheduler)
    → set_state idx state s ≡ change_at idx (in_state state) s
unfolding set_state change_at
set_state-change_at idx state s = refl

position-set :
    (f : Task → Task)
    → ((t : Task) → (f t).id ≡ t.id)
    → (id n k : ℕ) (slots : List (Option Task))
    → position id n (set slots k (Option.map f (get_or slots k none))) ≡ position id n slots
unfolding position
position-set f keeps id n k [] = refl
position-set f keeps id n zero (none ∷ rest) = refl
position-set f keeps id n zero (some t ∷ rest) = rw (keeps t) refl
position-set f keeps id n (suc k) (none ∷ rest) = position-set f keeps id (n + 1) k rest
position-set f keeps id n (suc k) (some t ∷ rest) =
    ap (λ (o : Option ℕ). if has_id id t then some n else o)
      (position-set f keeps id (n + 1) k rest)

-- A change that keeps the id of a task keeps all indices.
pub task_idx-change_at :
    (id idx : ℕ) (f : Task → Task) (s : Scheduler)
    → ((t : Task) → (f t).id ≡ t.id)
    → task_idx id (change_at idx f s) ≡ task_idx id s
unfolding task_idx change_at
task_idx-change_at id idx f s keeps = position-set f keeps id 0 idx s.tasks

kept_before-none :
    (o : Option PendingSend) (r : Option (PendingSend × List (Option PendingSend)))
    → kept_before o r ≡ none
    → r ≡ none
kept_before-none o none e = refl
kept_before-none o (some x) e = cc e

take_pending_miss :
    (filter : ℕ) (p : PendingSend) (rest : List (Option PendingSend))
    → take_pending filter (some p ∷ rest) ≡ none
    → (accepts filter p.src ≡ false) × (take_pending filter rest ≡ none)
unfolding take_pending
take_pending_miss filter p rest e = elim (Bool-cases (accepts filter p.src)) [
  | inl ok ↦ let never : some (p, none ∷ rest) ≡ none = (rw ok at e) in cc never
  | inr no_match ↦
      (no_match, kept_before-none (some p) (take_pending filter rest) (rw no_match at e))
]

-- The entries with `p` in the first free one, `p` being what the next receive takes.
abbrev pub TakesBack :
    ℕ → PendingSend → List (Option PendingSend) → Option (ℕ × List (Option PendingSend)) → Type 0
TakesBack filter p slots none = Unit
TakesBack filter p slots (some r) = take_pending filter (r.1) ≡ some (p, slots)

-- What is parked in the first free entry, with no other that is accepted, is what a receive takes, and
-- the entries are again as they were.
pub fill-TakesBack :
    (filter : ℕ) (p : PendingSend) (slots : List (Option PendingSend))
    → accepts filter p.src ≡ true
    → take_pending filter slots ≡ none
    → TakesBack filter p slots (fill p slots)
unfolding take_pending fill
fill-TakesBack filter p [] ok miss = tt
fill-TakesBack filter p (none ∷ rest) ok miss = rw ok refl
fill-TakesBack filter p (some p' ∷ rest) ok miss =
    let (no_match, miss') = take_pending_miss filter p' rest miss in
    behind no_match (fill p rest) (fill-TakesBack filter p rest ok miss')
  where
    behind :
        accepts filter p'.src ≡ false
        → (r : Option (ℕ × List (Option PendingSend))) → TakesBack filter p rest r
        → TakesBack filter p
            (some p' ∷ rest)
            (Option.map (λ (r : ℕ × List (Option PendingSend)). (suc r.0, some p' ∷ r.1)) r)
    behind no_match none h = tt
    behind no_match (some r) h = rw no_match (ap (kept_before (some p')) h)

-- The staged message of the task in slot `k` is found where none of the slots before it has a hit.
pub find_staged-first :
    (me filter n k : ℕ) (t : Task) (staged : StagedSend) (slots : List (Option Task))
    → get_or slots k none ≡ some t
    → t.send_full_wait ≡ some staged
    → is_hit me filter (some staged) ≡ true
    → is_dead t.state ≡ false
    → ((x : ℕ) (t' : Task)
        → x < k
        → get_or slots x none ≡ some t'
        → is_hit me filter t'.send_full_wait ≡ false)
    → find_staged me filter n slots ≡ some (n + k, some staged)
unfolding find_staged
find_staged-first me filter n k t staged [] at w hit alive before = cc at
find_staged-first me filter n zero t staged (none ∷ rest) at w hit alive before = cc at
find_staged-first me filter n zero t staged (some t' ∷ rest) at w hit alive before =
    let same : t' ≡ t = cc at in
    let w' : t'.send_full_wait ≡ some staged = ap (λ (x : Task). x.send_full_wait) same ∙ w in
    let alive' : is_dead t'.state ≡ false = ap (λ (x : Task). is_dead x.state) same ∙ alive in
    rw (w', hit, alive') (ap (λ (m : ℕ). some (m, some staged)) (omega arith))
find_staged-first me filter n (suc k) t staged (none ∷ rest) at w hit alive before =
    find_staged-first me filter (n + 1) k t staged rest at w hit alive
      (λ x t' lt. before (suc x) t' (omega (arith, lt)))
    ∙ ap (λ (m : ℕ). some (m, some staged)) (omega arith)
find_staged-first me filter n (suc k) t staged (some t' ∷ rest) at w hit alive before =
    rw (before 0 t' (omega arith) refl) (
      find_staged-first me filter (n + 1) k t staged rest at w hit alive
        (λ x t'' lt. before (suc x) t'' (omega (arith, lt)))
      ∙ ap (λ (m : ℕ). some (m, some staged)) (omega arith))
