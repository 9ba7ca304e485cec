-- ===== src/Sched/Regions.antt =====
-- `push_region_for` and `push_current_region` in kernel/src/sched/task.rs.
pub mod Disjoint
use tanix.Mem.{page_size}
use tanix.Sched.{TaskRegion, Task, Scheduler, region_none}
use tanix.Sched.Table.{has_id, task_at, task_by_id, change_by_id}
use tanix.Prelude.{
  ℕ, ◌+◌, ◌*◌, ◌%◌, ◌^◌, Bool, true, false, not, ◌&&◌, ◌||◌, Option, none, some, List, [], ◌∷◌, ltb,
  ◌==◌, set, if◌then◌else◌,
}

-- `base + pages * PAGE_SIZE` of a `usize`: a region that reaches the end of the address space wraps around.
abbrev pub end_of : TaskRegion → ℕ
end_of r = (r.base + r.pages * page_size) % 2 ^ 64

unfoldable pub overlaps : TaskRegion → TaskRegion → Bool
overlaps new r = not (r.kind == region_none) && (ltb r.base (end_of new) && ltb new.base (end_of r))

unfoldable pub any_overlap : TaskRegion → List TaskRegion → Bool
any_overlap new [] = false
any_overlap new (r ∷ rest) = overlaps new r || any_overlap new rest

-- The first free entry takes the region.
unfoldable pub put_region : TaskRegion → List TaskRegion → Bool × List TaskRegion
put_region new [] = (false, [])
put_region new (r ∷ rest) =
    let later = put_region new rest in
    if r.kind == region_none then (true, new ∷ rest) else (later.0, r ∷ later.1)

-- What becomes of the table of a task.
unfoldable pub push_region : TaskRegion → List TaskRegion → Bool × List TaskRegion
push_region new regions =
    if any_overlap new regions then (false, regions) else put_region new regions

abbrev pub with_region : TaskRegion → Task → Task
with_region new t = record t { regions = (push_region new t.regions).1 }

-- The range is invalid.
abbrev pub is_invalid : TaskRegion → Bool
is_invalid new = new.pages == 0 || not (new.base % page_size == 0)

abbrev pub pushed_for : TaskRegion → ℕ → Scheduler → Option Task → Bool × Scheduler
pushed_for new id s none = (false, s)
pushed_for new id s (some t) = ((push_region new t.regions).0, change_by_id id (with_region new) s)

unfoldable pub push_region_for : (id : ℕ) → TaskRegion → Scheduler → Bool × Scheduler
push_region_for id new s =
    if is_invalid new then (false, s) else pushed_for new id s (task_by_id id s)

abbrev pub pushed_current : TaskRegion → ℕ → Scheduler → Option Task → Bool × Scheduler
pushed_current new cur s none = (false, s)
pushed_current new cur s (some t) =
    ((push_region new t.regions).0, record s { tasks = set s.tasks cur (some (with_region new t)) })

-- The task in the current slot.
unfoldable pub push_current_region : (cur : ℕ) → TaskRegion → Scheduler → Bool × Scheduler
push_current_region cur new s =
    if is_invalid new then (false, s) else pushed_current new cur s (task_at cur s)
