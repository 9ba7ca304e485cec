-- ===== src/Sched/Regions/Disjoint.antt =====
-- The regions of a task in kernel/src/sched/task.rs do not overlap.
use mathlib.Core.Path.{subst}
use tanix.Mem.{page_size}
use tanix.Sched.{TaskRegion, Task, Scheduler, region_none}
use tanix.Sched.Regions.{
  overlaps, any_overlap, put_region, push_region, with_region, is_invalid, pushed_for,
  push_region_for, pushed_current, push_current_region,
}
use tanix.Sched.Table.{has_id, task_at, task_by_id, change_by_id}
use tanix.Slots.{update}
use tanix.Prelude.{
  ℕ, zero, suc, ◌+◌, ◌*◌, ◌^◌, ◌<◌, ◌≤◌, ◌≡◌, ◌⊎◌, inl, inr, refl, false, Option, none, some, List,
  [], ◌∷◌, arith, All, ◌==◌, get_or, set, Bool-cases,
}

-- The address behind a region, without a wrap-around.
abbrev stop : TaskRegion → ℕ
stop r = r.base + r.pages * page_size

-- The region ends before the last address of the address space.
abbrev pub IsInside : TaskRegion → Type 0
IsInside r = stop r < 2 ^ 64

-- One of the entries is free, or they are of ranges one behind the other.
abbrev pub IsApart : TaskRegion → TaskRegion → Type 0
IsApart r r' =
    (r.kind ≡ region_none) ⊎ ((r'.kind ≡ region_none) ⊎ ((stop r ≤ r'.base) ⊎ (stop r' ≤ r.base)))

-- The regions of a table lie in the address space, where the entry is not free, and apart from each other.
abbrev pub AreApart : List TaskRegion → Type 0
AreApart [] = Unit
AreApart (r ∷ rest) = ((r.kind ≡ region_none) ⊎ IsInside r) × All (IsApart r) rest × AreApart rest

-- The tables of all tasks.
abbrev pub AreAllApart : List (Option Task) → Type 0
AreAllApart [] = Unit
AreAllApart (none ∷ rest) = AreAllApart rest
AreAllApart (some t ∷ rest) = AreApart t.regions × AreAllApart rest

IsApart-sym : (r r' : TaskRegion) → IsApart r r' → IsApart r' r
IsApart-sym r r' h = ground (arith, h)

any_overlap-All :
    (new : TaskRegion) (regions : List TaskRegion)
    → IsInside new
    → AreApart regions
    → any_overlap new regions ≡ false
    → All (IsApart new) regions
unfolding any_overlap overlaps
any_overlap-All new [] fits a h = tt
any_overlap-All new (r ∷ rest) fits (inside, _, behind) h =
    (ground (arith, fits, inside), any_overlap-All new rest fits behind (ground (arith, h)))

put_region-All :
    (P : TaskRegion → Type 0)
    → (new : TaskRegion) (regions : List TaskRegion) → P new
    → All P regions
    → All P (put_region new regions).1
unfolding put_region
put_region-All P new [] p h = tt
put_region-All P new (r ∷ rest) p (here, behind) = elim (Bool-cases (r.kind == region_none)) [
  | inl free ↦ rw free (p, behind)
  | inr used ↦ rw used (here, put_region-All P new rest p behind)
]

put_region-AreApart :
    (new : TaskRegion) (regions : List TaskRegion)
    → IsInside new
    → All (IsApart new) regions
    → AreApart regions
    → AreApart (put_region new regions).1
unfolding put_region
put_region-AreApart new [] fits a h = tt
put_region-AreApart new (r ∷ rest) fits (a, as') (inside, here, behind) =
    elim (Bool-cases (r.kind == region_none)) [
      | inl free ↦ rw free (inr fits, as', behind)
      | inr used ↦ rw used (
        inside,
        put_region-All (IsApart r) new rest (IsApart-sym new r a) here,
        put_region-AreApart new rest fits as' behind,
      )
    ]

push_region-AreApart :
    (new : TaskRegion) (regions : List TaskRegion)
    → IsInside new
    → AreApart regions
    → AreApart (push_region new regions).1
unfolding push_region
push_region-AreApart new regions fits h = elim (Bool-cases (any_overlap new regions)) [
  | inl hit ↦ rw hit h
  | inr clear ↦
      rw clear (put_region-AreApart new regions fits (any_overlap-All new regions fits h clear) h)
]

update-AreAllApart :
    (new : TaskRegion) (id : ℕ) (tasks : List (Option Task))
    → IsInside new
    → AreAllApart tasks
    → AreAllApart (update (has_id id) (with_region new) tasks)
unfolding update
update-AreAllApart new id [] fits h = tt
update-AreAllApart new id (none ∷ rest) fits h = update-AreAllApart new id rest fits h
update-AreAllApart new id (some t ∷ rest) fits (here, behind) = elim (Bool-cases (t.id == id)) [
  | inl hit ↦ rw hit (push_region-AreApart new t.regions fits here, behind)
  | inr miss ↦ rw miss (here, update-AreAllApart new id rest fits behind)
]

set-AreAllApart :
    (new : TaskRegion) (idx : ℕ) (tasks : List (Option Task)) (t : Task)
    → IsInside new
    → get_or tasks idx none ≡ some t
    → AreAllApart tasks
    → AreAllApart (set tasks idx (some (with_region new t)))
set-AreAllApart new idx [] t fits e h = tt
set-AreAllApart new zero (o ∷ rest) t fits e h = at_front o e h
  where
    at_front :
        (o : Option Task)
        → o ≡ some t
        → AreAllApart (o ∷ rest)
        → AreApart (push_region new t.regions).1 × AreAllApart rest
    at_front none e h = cc e
    at_front (some u) e (here, behind) =
        let same : u ≡ t = cc e in
        (
          push_region-AreApart new t.regions fits
              (subst (λ (x : Task). AreApart x.regions) same here),
          behind,
        )
set-AreAllApart new (suc idx) (none ∷ rest) t fits e h = set-AreAllApart new idx rest t fits e h
set-AreAllApart new (suc idx) (some u ∷ rest) t fits e (here, behind) =
    (here, set-AreAllApart new idx rest t fits e behind)

-- Where the regions of each task end before 2^64 and do not overlap, and the new region ends before 2^64,
-- that holds after `push_region_for` as well, whatever the task.
pub push_region_for-AreAllApart :
    (id : ℕ) (new : TaskRegion) (s : Scheduler)
    → IsInside new
    → AreAllApart s.tasks
    → AreAllApart (push_region_for id new s).1.tasks
unfolding push_region_for change_by_id
push_region_for-AreAllApart id new s fits h = elim (Bool-cases (is_invalid new)) [
  | inl bad ↦ rw bad h
  | inr valid ↦ rw valid (pushed (task_by_id id s))
]
  where
    pushed : (o : Option Task) → AreAllApart (pushed_for new id s o).1.tasks
    pushed none = h
    pushed (some t) = update-AreAllApart new id s.tasks fits h

pub push_current_region-AreAllApart :
    (cur : ℕ) (new : TaskRegion) (s : Scheduler)
    → IsInside new
    → AreAllApart s.tasks
    → AreAllApart (push_current_region cur new s).1.tasks
unfolding push_current_region
push_current_region-AreAllApart cur new s fits h = elim (Bool-cases (is_invalid new)) [
  | inl bad ↦ rw bad h
  | inr valid ↦ rw valid (pushed (task_at cur s) refl)
]
  where
    pushed :
        (o : Option Task) → task_at cur s ≡ o → AreAllApart (pushed_current new cur s o).1.tasks
    pushed none e = h
    pushed (some t) e = set-AreAllApart new cur s.tasks t fits e h
