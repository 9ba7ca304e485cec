-- ===== src/Sched.antt =====
-- kernel/src/sched/mod.rs and kernel/src/sched/task.rs: tasks and the table of tasks.
pub mod Pick
pub mod Table
pub mod Switch
pub mod Regions
pub mod Cores
mod Tests
use tanix.Bytes.{Bytes, copy_at}
use tanix.Prelude.{
  ℕ, zero, suc, ◌+◌, ◌-◌, ◌*◌, ◌%◌, ◌^◌, Bool, true, false, Option, none, some, List, [], ◌∷◌, ◌==◌,
  replicate, take, if◌then◌else◌,
}

pub data TaskState : Type 0 where
  ready : TaskState
  running : TaskState
  blocked : TaskState
  zombie : TaskState

abbrev pub prio_idle : ℕ
prio_idle = 255

abbrev pub prio_normal : ℕ
prio_normal = 128

abbrev pub max_tasks : ℕ
max_tasks = 32

abbrev pub idle_slot_base : ℕ
idle_slot_base = 16

abbrev pub task_regions : ℕ
task_regions = 6

abbrev pub region_none : ℕ
region_none = 0

-- The slot a CPU falls back to.
unfoldable pub idle_slot : ℕ → ℕ
idle_slot cpu = if cpu == 0 then 0 else idle_slot_base + cpu - 1

pub record TaskRegion : Type 0 where
  pub kind : ℕ
  pub base : ℕ
  pub pages : ℕ

abbrev pub no_region : TaskRegion
no_region = record { kind = region_none; base = 0; pages = 0 }

-- The registers that a switch saves.
pub record Context : Type 0 where
  pub x19_to_x28 : List ℕ
  pub fp : ℕ
  pub lr : ℕ
  pub sp : ℕ
  pub sp_el0 : ℕ
  pub spsr : ℕ
  pub ttbr0 : ℕ

abbrev pub zeroed : Context
zeroed = record {
  x19_to_x28 = replicate 10 0;
  fp = 0;
  lr = 0;
  sp = 0;
  sp_el0 = 0;
  spsr = 0;
  ttbr0 = 0;
}

abbrev pub spsr_kernel : ℕ
spsr_kernel = 0x3C5

abbrev pub spsr_user : ℕ
spsr_user = 0

-- `kernel_l0` is the kernel's page table, in this and the next.
unfoldable pub kernel_context : (kernel_l0 entry_fn stack_top : ℕ) → Context
kernel_context kernel_l0 entry_fn stack_top = record zeroed {
  lr = entry_fn;
  sp = stack_top;
  spsr = spsr_kernel;
  ttbr0 = kernel_l0;
}

unfoldable pub with_boot : (kernel_l0 entry_fn stack_top boot_info : ℕ) → Context
with_boot kernel_l0 entry_fn stack_top boot_info =
    record (kernel_context kernel_l0 entry_fn stack_top) { x19_to_x28 = boot_info ∷ replicate 9 0 }

unfoldable pub new_user : (entry_fn sp_el0 ttbr0 kernel_stack_top boot_info : ℕ) → Context
new_user entry_fn sp_el0 ttbr0 kernel_stack_top boot_info = record {
  x19_to_x28 = boot_info ∷ replicate 9 0;
  fp = 0;
  lr = entry_fn;
  sp = kernel_stack_top;
  sp_el0 = sp_el0;
  spsr = spsr_user;
  ttbr0 = ttbr0;
}

pub record BootInfo : Type 0 where
  pub task_id : ℕ
  pub machine : ℕ

pub record Message : Type 0 where
  pub src : ℕ
  pub mtype : ℕ
  pub words : List ℕ

pub record PendingSend : Type 0 where
  pub src : ℕ
  pub msg : Message

pub record StagedSend : Type 0 where
  pub dst : ℕ
  pub src : ℕ
  pub msg : Message

-- -1 as a word of 32 bits.
abbrev pub m_any : ℕ
m_any = 2 ^ 32 - 1

abbrev pub task_name_len : ℕ
task_name_len = 16

-- The null pointer is 0.
pub record Task : Type 0 where
  pub id : ℕ
  pub state : TaskState
  pub ctx : Context
  pub name : Bytes
  pub ttbr0 : ℕ
  pub priority : ℕ
  pub cpu_affinity : Option ℕ
  pub recv_blocked : Bool
  pub recv_filter : ℕ
  pub recv_buf : ℕ
  pub pending_senders : List (Option PendingSend)
  pub send_full_wait : Option StagedSend
  pub boot : BootInfo
  pub irq_wait : Option ℕ
  pub sleep_deadline : ℕ
  pub image_base : ℕ
  pub image_end : ℕ
  pub regions : List TaskRegion

abbrev pub idle_task : Task
idle_task = record {
  id = 0;
  state = running;
  ctx = zeroed;
  name = 105 ∷ 100 ∷ 108 ∷ 101 ∷ replicate 12 0;
  ttbr0 = 0;
  priority = prio_idle;
  cpu_affinity = some 0;
  recv_blocked = false;
  recv_filter = m_any;
  recv_buf = 0;
  pending_senders = replicate 2 none;
  send_full_wait = none;
  boot = record { task_id = 0; machine = 0 };
  irq_wait = none;
  sleep_deadline = 0;
  image_base = 0;
  image_end = 0;
  regions = replicate task_regions no_region;
}

abbrev pub new_task : (kernel_l0 id : ℕ) (name : Bytes) (entry stack_top : ℕ) → Task
new_task kernel_l0 id name entry stack_top = record {
  id = id;
  state = ready;
  ctx = kernel_context kernel_l0 entry stack_top;
  name = copy_at (replicate task_name_len 0) 0 (take task_name_len name);
  ttbr0 = 0;
  priority = prio_normal;
  cpu_affinity = none;
  recv_blocked = false;
  recv_filter = m_any;
  recv_buf = 0;
  pending_senders = replicate 2 none;
  send_full_wait = none;
  boot = record { task_id = 0; machine = 0 };
  irq_wait = none;
  sleep_deadline = 0;
  image_base = 0;
  image_end = 0;
  regions = replicate task_regions no_region;
}

pub record Scheduler : Type 0 where
  pub tasks : List (Option Task)
  pub next_id : ℕ
  pub woken : Option ℕ

abbrev pub new_scheduler : Scheduler
new_scheduler = record { tasks = some idle_task ∷ replicate 31 none; next_id = 1; woken = none }
