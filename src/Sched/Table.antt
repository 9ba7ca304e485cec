-- ===== src/Sched/Table.antt =====
-- kernel/src/sched/task.rs, `Scheduler`: the table of tasks.
use mathlib.Core.Option
use tanix.Bytes.{Bytes}
use tanix.Sched.{
  TaskState, Task, Scheduler, BootInfo, with_boot, new_user, idle_task, new_task, idle_slot_base,
}
use tanix.Slots.{find, update}
use tanix.Prelude.{
  ℕ, ◌+◌, ◌-◌, ◌%◌, ◌^◌, Bool, Option, none, some, List, [], ◌∷◌, ◌==◌, get_or, set, replicate,
}

-- `self.tasks[idx]`
abbrev pub task_at : ℕ → Scheduler → Option Task
task_at idx s = get_or s.tasks idx none

abbrev pub has_id : ℕ → Task → Bool
has_id id t = t.id == id

unfoldable pub task_by_id : ℕ → Scheduler → Option Task
task_by_id id s = find (has_id id) s.tasks

-- `task_by_id_mut`, and a change of the task.
unfoldable pub change_by_id : ℕ → (Task → Task) → Scheduler → Scheduler
change_by_id id f s = record s { tasks = update (has_id id) f s.tasks }

-- The first empty slot, the list starting at slot `idx`.
unfoldable pub empty_slot : ℕ → List (Option Task) → Option ℕ
empty_slot idx [] = none
empty_slot idx (none ∷ rest) = some idx
empty_slot idx (some t ∷ rest) = empty_slot (idx + 1) rest

abbrev pub behind_idle : List (Option Task) → List (Option Task)
behind_idle [] = []
behind_idle (t ∷ rest) = rest

abbrev pub next_id_of : Scheduler → ℕ
next_id_of s = (s.next_id + 1) % 2 ^ 32

-- The table with a task of the next id in a slot, and the id.
abbrev pub seated : Scheduler → ℕ → Task → Option ℕ × Scheduler
seated s slot t =
    (some s.next_id, record s { tasks = set s.tasks slot (some t); next_id = next_id_of s })

-- What an empty slot, if there is one, is filled with; without one nothing changes.
abbrev pub in_empty_slot : Scheduler → (ℕ → Task) → Option ℕ → Option ℕ × Scheduler
in_empty_slot s t none = (none, s)
in_empty_slot s t (some slot) = seated s slot (t slot)

-- The new task's id, `none` where the table is full.
unfoldable pub spawn :
    (kernel_l0 : ℕ) (name : Bytes) (entry stack_top : ℕ) → Scheduler → Option ℕ × Scheduler
spawn kernel_l0 name entry stack_top s =
    in_empty_slot s (λ slot. new_task kernel_l0 s.next_id name entry stack_top)
      (empty_slot 1 (behind_idle s.tasks))

-- `boot_addr` gives the address of the boot info of the task in a slot.
unfoldable pub spawn_with_boot :
    (kernel_l0 : ℕ) (boot_addr : ℕ → ℕ) (name : Bytes) (entry stack_top : ℕ)
    → BootInfo
    → Scheduler
    → Option ℕ × Scheduler
spawn_with_boot kernel_l0 boot_addr name entry stack_top boot s =
    in_empty_slot s
      (λ slot. record (new_task kernel_l0 s.next_id name entry stack_top) {
        boot = record boot { task_id = s.next_id };
        ctx = with_boot kernel_l0 entry stack_top (boot_addr slot);
      })
      (empty_slot 1 (behind_idle s.tasks))

-- The slot of a task that was spawned counts as woken.
abbrev pub waking : Option ℕ → Option ℕ × Scheduler → Option ℕ × Scheduler
waking none r = r
waking (some slot) r = (r.0, record r.1 { woken = some slot })

-- The task starts in an address space of its own. Its boot info is also written to `boot_info`.
unfoldable pub spawn_user :
    (kernel_l0 : ℕ) (name : Bytes) (entry ttbr0 sp_el0 kernel_stack_top boot_info : ℕ)
    → BootInfo
    → (image_base image_end : ℕ) → Scheduler
    → Option ℕ × Scheduler
spawn_user kernel_l0 name entry ttbr0 sp_el0 kernel_stack_top boot_info boot image_base image_end
      s =
    let found = empty_slot 1 (behind_idle s.tasks) in
    waking found (
      in_empty_slot s
        (λ slot. record (new_task kernel_l0 s.next_id name 0 0) {
          boot = record boot { task_id = s.next_id };
          ttbr0 = ttbr0;
          image_base = image_base;
          image_end = image_end;
          ctx = new_user entry sp_el0 ttbr0 kernel_stack_top boot_info;
        })
        found)

-- The idle task of a secondary CPU, and its slot.
unfoldable pub add_idle : ℕ → Scheduler → ℕ × Scheduler
add_idle cpu s =
    let idx = idle_slot_base + cpu - 1 in
    let t = record idle_task {
      id = (0x40000000 + cpu) % 2 ^ 32;
      cpu_affinity = some cpu;
      name = 105 ∷ 100 ∷ 108 ∷ 101 ∷ 45 ∷ 99 ∷ 112 ∷ 117 ∷ ((48 + cpu) % 2 ^ 8) ∷ replicate 7 0;
    } in
    (idx, record s { tasks = set s.tasks idx (some t) })

abbrev pub in_state : TaskState → Task → Task
in_state state t = record t { state = state }

unfoldable pub set_state : ℕ → TaskState → Scheduler → Scheduler
set_state idx state s = record s {
  tasks = set s.tasks idx (Option.map (in_state state) (task_at idx s));
}

unfoldable pub set_priority : ℕ → ℕ → Scheduler → Scheduler
set_priority id priority s = change_by_id id (λ t. record t { priority = priority }) s

-- `priority_and_name(idx)`, with 255 for an empty slot.
abbrev pub prio_or_least : Option Task → ℕ
prio_or_least none = 255
prio_or_least (some t) = t.priority

abbrev pub id_or_zero : Option Task → ℕ
id_or_zero none = 0
id_or_zero (some t) = t.id

-- The id of the task in the current slot.
unfoldable pub current_id : ℕ → Scheduler → ℕ
current_id cur s = id_or_zero (task_at cur s)
