-- ===== src/Ipc/Syscall.antt =====
-- kernel/src/ipc/syscall.rs: the system calls on messages and on tasks. Each is given the CPU, its
-- current slot and the table of tasks, and `none` is the panic of an `unwrap`. A message is given by
-- its value, as the caller's buffer holds it; what a call writes to a buffer is part of its result. The
-- switch of the registers and of the address space, and the lock, are left out.
pub mod Slots
pub mod Received
pub mod Handover
pub mod Rendezvous
pub mod InFlight
pub mod Kept
pub mod Stale
mod Tests
use mathlib.Core.Option
use tanix.Bytes.{Bytes, eq_bytes}
use tanix.Sched.{TaskState, Task, Message, PendingSend, StagedSend, Scheduler, m_any}
use tanix.Sched.Pick.{pick_next}
use tanix.Sched.Switch.{Switch, is_dead, leave_for, kill_task, reschedule}
use tanix.Sched.Table.{task_at, has_id, set_state, current_id}
use tanix.Slots.{fill}
use tanix.Prelude.{
  ℕ, zero, suc, ◌+◌, ◌-◌, ◌^◌, min, Bool, true, false, not, ◌&&◌, ◌||◌, Option, none, some, List,
  [], ◌∷◌, ◌==◌, leb, set, if◌then◌else◌,
}

-- A result of 32 bits, below zero.
abbrev pub errno : ℕ → ℕ
errno n = 2 ^ 32 - n

-- What a call returns: a word, or, once the task runs again, the `src` of the message in its buffer.
pub data Answer : Type 0 where
  returns : ℕ → Answer
  source_at : ℕ → Answer

-- A message in the buffer at `buf` of the address space `ttbr0`.
pub record Written : Type 0 where
  pub ttbr0 : ℕ
  pub buf : ℕ
  pub msg : Message

-- `pokes` says whether the idle cores are interrupted.
pub record Call : Type 0 where
  pub answer : Answer
  pub written : Option Written
  pub pokes : Bool
  pub switched : Bool
  pub sched : Scheduler
  pub cur : ℕ

-- The index of the task in a slot of the list, which starts at slot `idx`.
unfoldable pub position : (id idx : ℕ) → List (Option Task) → Option ℕ
position id idx [] = none
position id idx (none ∷ rest) = position id (idx + 1) rest
position id idx (some t ∷ rest) =
    let later = position id (idx + 1) rest in if has_id id t then some idx else later

unfoldable pub task_idx : ℕ → Scheduler → Option ℕ
task_idx id s = position id 0 s.tasks

-- A change through `task_at_mut` of the task in a slot.
unfoldable pub change_at : ℕ → (Task → Task) → Scheduler → Scheduler
change_at idx f s = record s { tasks = set s.tasks idx (Option.map f (task_at idx s)) }

unfoldable pub set_woken : ℕ → Scheduler → Scheduler
set_woken slot s = record s { woken = some slot }

abbrev pub stamped : ℕ → Message → Message
stamped src m = record m { src = src }

abbrev pub stays : (cur : ℕ) → Answer → Scheduler → Call
stays cur answer s = record {
  answer = answer;
  written = none;
  pokes = false;
  switched = false;
  sched = s;
  cur = cur;
}

-- The current task is parked, and the next one runs.
unfoldable pub switch_away : (cpu cur : ℕ) → Answer → Scheduler → Call
switch_away cpu cur answer s =
    let r = leave_for (pick_next cpu cur s) s in
    record (stays (r.2) answer (r.1)) { switched = true }

abbrev pub received : Task → Task
received t = record t { recv_blocked = false; state = TaskState.ready }

-- `deliver` and the rest of the rendezvous: the message goes into the buffer of task `t` in slot `idx`.
abbrev pub deliver : (cur idx src : ℕ) → Message → Task → Scheduler → Call
deliver cur idx src msg t s =
    record (stays cur (returns 0) (set_woken idx (change_at idx received s))) {
      written = some (record { ttbr0 = t.ttbr0; buf = t.recv_buf; msg = stamped src msg });
      pokes = true;
    }

abbrev pub with_pending : List (Option PendingSend) → Task → Task
with_pending slots t = record t { pending_senders = slots }

abbrev pub staging : StagedSend → Task → Task
staging staged t = record t { send_full_wait = some staged; state = TaskState.blocked }

-- The message is parked with the receiver in slot `idx`, where it has a free entry, and otherwise with
-- the sender.
abbrev pub park :
    (cpu cur idx dst src : ℕ) → Message → Scheduler → Option (ℕ × List (Option PendingSend)) → Call
park cpu cur idx dst src msg s none =
    switch_away cpu cur (returns 0)
      (change_at cur (staging (record { dst = dst; src = src; msg = msg })) s)
park cpu cur idx dst src msg s (some r) =
    switch_away cpu cur (returns 0)
      (set_state cur TaskState.blocked (change_at idx (with_pending (r.1)) s))

-- `filter == M_ANY || filter == src`
unfoldable pub accepts : (filter src : ℕ) → Bool
accepts filter src = filter == m_any || filter == src

abbrev pub send_to : (cpu cur dst idx : ℕ) → Message → Scheduler → Option Task → Option Call
send_to cpu cur dst idx msg s none = none
send_to cpu cur dst idx msg s (some t) =
    let me = current_id cur s in
    some (
      if t.recv_blocked && accepts t.recv_filter me
      then deliver cur idx me msg t s
      else park cpu cur idx dst me msg s (fill (record { src = me; msg = msg }) t.pending_senders))

abbrev pub send_at : (cpu cur dst : ℕ) → Message → Scheduler → Option ℕ → Option Call
send_at cpu cur dst msg s none = some (stays cur (returns (errno 3)) s)
send_at cpu cur dst msg s (some idx) = send_to cpu cur dst idx msg s (task_at idx s)

unfoldable pub sys_send : (cpu cur dst : ℕ) → Message → Scheduler → Option Call
sys_send cpu cur dst msg s =
    if dst == current_id cur s
    then some (stays cur (returns (errno 2)) s)
    else send_at cpu cur dst msg s (task_idx dst s)

abbrev pub kept_before :
    Option PendingSend
    → Option (PendingSend × List (Option PendingSend))
    → Option (PendingSend × List (Option PendingSend))
kept_before o r = Option.map (λ (x : PendingSend × List (Option PendingSend)). (x.0, o ∷ x.1)) r

-- The first parked message from an accepted sender, and the entries without it.
unfoldable pub take_pending :
    ℕ → List (Option PendingSend) → Option (PendingSend × List (Option PendingSend))
take_pending filter [] = none
take_pending filter (none ∷ rest) = kept_before none (take_pending filter rest)
take_pending filter (some p ∷ rest) =
    let later = kept_before (some p) (take_pending filter rest) in
    if accepts filter p.src then some (p, none ∷ rest) else later

abbrev pub is_hit : (me filter : ℕ) → Option StagedSend → Bool
is_hit me filter none = false
is_hit me filter (some staged) = staged.dst == me && accepts filter staged.src

-- The first task of the slots from `idx` on with a message staged for `me`, and the message.
unfoldable pub find_staged :
    (me filter idx : ℕ) → List (Option Task) → Option (ℕ × Option StagedSend)
find_staged me filter idx [] = none
find_staged me filter idx (none ∷ rest) = find_staged me filter (idx + 1) rest
find_staged me filter idx (some t ∷ rest) =
    let later = find_staged me filter (idx + 1) rest in
    if is_hit me filter t.send_full_wait && not (is_dead t.state)
    then some (idx, t.send_full_wait)
    else later

abbrev pub behind_first : List (Option Task) → List (Option Task)
behind_first [] = []
behind_first (t ∷ rest) = rest

abbrev pub released : Task → Task
released t = record t { state = TaskState.ready }

-- A sender that was killed while its message was parked stays as it is.
abbrev pub wake_sender : ℕ → Scheduler → Option Task → Bool × Scheduler
wake_sender idx s none = (false, s)
wake_sender idx s (some t) =
    if is_dead t.state then (false, s) else (true, set_woken idx (change_at idx released s))

abbrev pub wake_sender_at : Scheduler → Option ℕ → Bool × Scheduler
wake_sender_at s none = (false, s)
wake_sender_at s (some idx) = wake_sender idx s (task_at idx s)

-- The parked message `p` is received; `slots` are the entries without it.
abbrev pub receive_parked :
    (cur out : ℕ) → Task → Scheduler → PendingSend × List (Option PendingSend) → Call
receive_parked cur out t s r =
    let woken =
      wake_sender_at (change_at cur (with_pending (r.1)) s)
        (task_idx (r.0.src) (change_at cur (with_pending (r.1)) s)) in
    record (stays cur (returns (r.0.src)) (woken.1)) {
      written = some (record { ttbr0 = t.ttbr0; buf = out; msg = stamped (r.0.src) (r.0.msg) });
      pokes = woken.0;
    }

abbrev pub unstaged : Task → Task
unstaged t = record t { send_full_wait = none; state = TaskState.ready }

abbrev pub waiting : (filter out : ℕ) → Task → Task
waiting filter out t = record t {
  recv_blocked = true;
  recv_filter = filter;
  recv_buf = out;
  state = TaskState.blocked;
}

-- A message staged by the task in another slot is received, or the task blocks.
abbrev pub receive_staged :
    (cpu cur filter out : ℕ) → Task → Scheduler → Option (ℕ × Option StagedSend) → Option Call
receive_staged cpu cur filter out t s none =
    some (switch_away cpu cur (source_at out) (change_at cur (waiting filter out) s))
receive_staged cpu cur filter out t s (some (idx, none)) = none
receive_staged cpu cur filter out t s (some (idx, some staged)) =
    some (record (stays cur (returns (staged.src)) (set_woken idx (change_at idx unstaged s))) {
      written =
          some (record { ttbr0 = t.ttbr0; buf = out; msg = stamped (staged.src) (staged.msg) });
      pokes = true;
    })

abbrev pub receive_for :
    (cpu cur filter out : ℕ)
    → Task
    → Scheduler
    → Option (PendingSend × List (Option PendingSend))
    → Option Call
receive_for cpu cur filter out t s none =
    receive_staged cpu cur filter out t s (find_staged (t.id) filter 1 (behind_first s.tasks))
receive_for cpu cur filter out t s (some r) = some (receive_parked cur out t s r)

abbrev pub receive_as : (cpu cur filter out : ℕ) → Scheduler → Option Task → Option Call
receive_as cpu cur filter out s none = none
receive_as cpu cur filter out s (some t) =
    receive_for cpu cur filter out t s (take_pending filter t.pending_senders)

unfoldable pub sys_receive : (cpu cur filter out : ℕ) → Scheduler → Option Call
sys_receive cpu cur filter out s = receive_as cpu cur filter out s (task_at cur s)

-- `sys_exit_task`; the page tables to free are those that `kill_task` gives.
unfoldable pub sys_exit_task : (cur pid : ℕ) → Scheduler → Call
sys_exit_task cur pid s =
    let r = kill_task pid cur s in stays cur (returns (if r.0 then 0 else errno 3)) (r.1)

abbrev pub sleeping_until : ℕ → Task → Task
sleeping_until deadline t = record t { sleep_deadline = deadline }

-- `ms.clamp(1, 60_000)`
unfoldable pub clamp_ms : ℕ → ℕ
clamp_ms ms = if ms == 0 then 1 else min ms 60000

-- `sys_sleep` up to the switch, and what it does when the task runs again.
unfoldable pub sys_sleep : (now cpu cur ms : ℕ) → Scheduler → Call
sys_sleep now cpu cur ms s = switch_away cpu cur (returns 0) (
    set_state cur TaskState.blocked
      (change_at cur (sleeping_until (min (now + clamp_ms ms) (2 ^ 64 - 1))) s))

unfoldable pub slept : ℕ → Scheduler → Scheduler
slept cur s = change_at cur (sleeping_until 0) s

-- The tail of `tanix_syscall`: where the call did not switch, a task that it woke may run at once.
unfoldable pub syscall_tail : ℕ → Call → Switch
syscall_tail cpu c = if c.switched then (true, c.sched, c.cur) else reschedule cpu c.cur c.sched
