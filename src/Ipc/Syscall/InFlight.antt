-- ===== src/Ipc/Syscall/InFlight.antt =====
-- The messages on their way in the table of tasks: parked with a receiver or staged with a sender of
-- kernel/src/ipc/syscall.rs.
use mathlib.Core.Option
use tanix.Ipc.Syscall.{
  Answer, Written, position, change_at, switch_away, accepts, kept_before, take_pending, is_hit,
  find_staged,
}
use tanix.Ipc.Syscall.Slots.{set_state-change_at}
use tanix.Sched.{TaskState, Task, PendingSend, StagedSend, Scheduler}
use tanix.Sched.Pick.{pick_next}
use tanix.Sched.Switch.{is_dead}
use tanix.Sched.Table.{task_at, has_id, in_state, set_state}
use tanix.Slots.{fill}
use tanix.Prelude.{
  ℕ, zero, suc, ◌+◌, ◌≡◌, refl, ap, ◌∙◌, true, not, ◌&&◌, Option, none, some, List, [], ◌∷◌, arith,
  get_or, set, Bool-cases, inl, inr,
}

unfoldable pub parked : List (Option PendingSend) → ℕ
parked [] = 0
parked (none ∷ rest) = parked rest
parked (some p ∷ rest) = parked rest + 1

abbrev pub staged : Option StagedSend → ℕ
staged none = 0
staged (some m) = 1

abbrev pub load : Task → ℕ
load t = parked t.pending_senders + staged t.send_full_wait

abbrev pub load_at : Option Task → ℕ
load_at none = 0
load_at (some t) = load t

unfoldable pub load_all : List (Option Task) → ℕ
load_all [] = 0
load_all (o ∷ rest) = load_at o + load_all rest

-- How many messages are on their way.
abbrev pub in_flight : Scheduler → ℕ
in_flight s = load_all s.tasks

abbrev pub written_count : Option Written → ℕ
written_count none = 0
written_count (some w) = 1

load_all-set :
    (f : Task → Task) (t : Task) (k : ℕ) (slots : List (Option Task))
    → get_or slots k none ≡ some t
    → load_all (set slots k (Option.map f (get_or slots k none))) + load t
      ≡ load_all slots + load (f t)
unfolding load_all
load_all-set f t k [] e = cc e
load_all-set f t zero (o ∷ rest) e = rw e (omega arith)
load_all-set f t (suc k) (o ∷ rest) e = omega (arith, load_all-set f t k rest e)

load_all-set_same :
    (f : Task → Task)
    → ((t : Task) → load (f t) ≡ load t)
    → (k : ℕ) (slots : List (Option Task))
    → load_all (set slots k (Option.map f (get_or slots k none))) ≡ load_all slots
unfolding load_all
load_all-set_same f same k [] = refl
load_all-set_same f same zero (none ∷ rest) = refl
load_all-set_same f same zero (some t ∷ rest) = ap (λ (n : ℕ). n + load_all rest) (same t)
load_all-set_same f same (suc k) (o ∷ rest) =
    ap (λ (n : ℕ). load_at o + n) (load_all-set_same f same k rest)

pub in_flight-change_at :
    (f : Task → Task) (t : Task) (k : ℕ) (s : Scheduler)
    → task_at k s ≡ some t
    → in_flight (change_at k f s) + load t ≡ in_flight s + load (f t)
unfolding change_at
in_flight-change_at f t k s e = load_all-set f t k s.tasks e

pub in_flight-change_at_same :
    (f : Task → Task)
    → ((t : Task) → load (f t) ≡ load t)
    → (k : ℕ) (s : Scheduler) → in_flight (change_at k f s) ≡ in_flight s
unfolding change_at
in_flight-change_at_same f same k s = load_all-set_same f same k s.tasks

pub in_flight-set_state :
    (k : ℕ) (st : TaskState) (s : Scheduler) → in_flight (set_state k st s) ≡ in_flight s
in_flight-set_state k st s =
    ap in_flight (set_state-change_at k st s)
    ∙ in_flight-change_at_same (in_state st) (λ t. refl) k s

pub in_flight-switch_away :
    (cpu cur : ℕ) (a : Answer) (s : Scheduler)
    → in_flight ((switch_away cpu cur a s).sched) ≡ in_flight s
unfolding switch_away
in_flight-switch_away cpu cur a s = in_flight-set_state (pick_next cpu cur s) TaskState.running s

-- One more is parked, or one less.
abbrev pub OneMore : List (Option PendingSend) → Option (ℕ × List (Option PendingSend)) → Type 0
OneMore slots none = Unit
OneMore slots (some r) = parked (r.1) ≡ parked slots + 1

pub fill-OneMore :
    (p : PendingSend) (slots : List (Option PendingSend)) → OneMore slots (fill p slots)
unfolding fill parked
fill-OneMore p [] = tt
fill-OneMore p (none ∷ rest) = refl
fill-OneMore p (some p' ∷ rest) = behind (fill p rest) (fill-OneMore p rest)
  where
    behind :
        (r : Option (ℕ × List (Option PendingSend)))
        → OneMore rest r
        → OneMore
            (some p' ∷ rest)
            (Option.map (λ (r : ℕ × List (Option PendingSend)). (suc r.0, some p' ∷ r.1)) r)
    behind none h = tt
    behind (some r) h = ap (λ (n : ℕ). n + 1) h

abbrev pub OneLess :
    List (Option PendingSend) → Option (PendingSend × List (Option PendingSend)) → Type 0
OneLess slots none = Unit
OneLess slots (some r) = parked (r.1) + 1 ≡ parked slots

OneLess-kept_before :
    (o : Option PendingSend) (rest : List (Option PendingSend))
    (r : Option (PendingSend × List (Option PendingSend)))
    → OneLess rest r
    → OneLess (o ∷ rest) (kept_before o r)
unfolding parked
OneLess-kept_before o rest none h = tt
OneLess-kept_before none rest (some r) h = h
OneLess-kept_before (some p) rest (some r) h = ap (λ (n : ℕ). n + 1) h

pub take_pending-OneLess :
    (filter : ℕ) (slots : List (Option PendingSend)) → OneLess slots (take_pending filter slots)
unfolding take_pending parked
take_pending-OneLess filter [] = tt
take_pending-OneLess filter (none ∷ rest) =
    OneLess-kept_before none rest (take_pending filter rest) (take_pending-OneLess filter rest)
take_pending-OneLess filter (some p ∷ rest) = elim (Bool-cases (accepts filter p.src)) [
  | inl ok ↦ rw ok refl
  | inr off ↦ rw off (
      OneLess-kept_before (some p) rest (take_pending filter rest)
        (take_pending-OneLess filter rest))
]

-- What a search for a task, or for a staged message, finds, in the slots from `n` on.
abbrev pub Locates : ℕ → List (Option Task) → Option ℕ → Type 0
Locates n slots none = Unit
Locates n slots (some m) = (k : ℕ) × (m ≡ n + k) × ((t : Task) × (get_or slots k none ≡ some t))

Locates-later :
    (n : ℕ) (o : Option Task) (rest : List (Option Task)) (r : Option ℕ)
    → Locates (n + 1) rest r
    → Locates n (o ∷ rest) r
Locates-later n o rest none h = tt
Locates-later n o rest (some m) (k, e, at) = (suc k, omega (arith, e), at)

pub position-Locates :
    (id n : ℕ) (slots : List (Option Task)) → Locates n slots (position id n slots)
unfolding position
position-Locates id n [] = tt
position-Locates id n (none ∷ rest) =
    Locates-later n none rest (position id (n + 1) rest) (position-Locates id (n + 1) rest)
position-Locates id n (some t ∷ rest) = elim (Bool-cases (has_id id t)) [
  | inl hit ↦ rw hit (0, omega arith, (t, refl))
  | inr miss ↦
      rw miss (
        Locates-later n (some t) rest (position id (n + 1) rest) (position-Locates id (n + 1) rest))
]

abbrev pub HasStaged : ℕ → List (Option Task) → Option (ℕ × Option StagedSend) → Type 0
HasStaged n slots none = Unit
HasStaged n slots (some r) =
    (k : ℕ) × (r.0 ≡ n + k)
    × ((t : Task) × (get_or slots k none ≡ some t) × (t.send_full_wait ≡ r.1) × (staged (r.1) ≡ 1))

staged_hit : (me filter : ℕ) (o : Option StagedSend) → is_hit me filter o ≡ true → staged o ≡ 1
staged_hit me filter none h = cc h
staged_hit me filter (some m) h = refl

HasStaged-later :
    (n : ℕ) (o : Option Task) (rest : List (Option Task)) (r : Option (ℕ × Option StagedSend))
    → HasStaged (n + 1) rest r
    → HasStaged n (o ∷ rest) r
HasStaged-later n o rest none h = tt
HasStaged-later n o rest (some r) (k, e, at) = (suc k, omega (arith, e), at)

pub find_staged-HasStaged :
    (me filter n : ℕ) (slots : List (Option Task))
    → HasStaged n slots (find_staged me filter n slots)
unfolding find_staged
find_staged-HasStaged me filter n [] = tt
find_staged-HasStaged me filter n (none ∷ rest) =
    HasStaged-later n none rest (find_staged me filter (n + 1) rest)
      (find_staged-HasStaged me filter (n + 1) rest)
find_staged-HasStaged me filter n (some t ∷ rest) =
    elim (Bool-cases (is_hit me filter t.send_full_wait && not (is_dead t.state))) [
      | inl hit ↦
          let here : is_hit me filter t.send_full_wait ≡ true = ground (arith, hit) in
          rw hit (0, omega arith, (t, refl, refl, staged_hit me filter t.send_full_wait here))
      | inr miss ↦ rw miss (
          HasStaged-later n (some t) rest (find_staged me filter (n + 1) rest)
            (find_staged-HasStaged me filter (n + 1) rest))
    ]
