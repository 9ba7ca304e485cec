-- ===== src/Ipc/Syscall/Stale.antt =====
-- A record of a woken task that outlives the call it belongs to, in kernel/src/ipc/syscall.rs and
-- kernel/src/sched/task.rs.
use tanix.Ipc.Syscall.{
  Answer, Call, change_at, switch_away, take_pending, find_staged, behind_first, waiting,
  sys_receive, syscall_tail,
}
use tanix.Ipc.Syscall.Handover.{after_switch}
use tanix.Ipc.Syscall.Received.{some_task}
use tanix.Ipc.Syscall.Slots.{task_at-change_at_ne, set_state-change_at}
use tanix.Sched.{TaskState, Task, Scheduler, idle_slot}
use tanix.Sched.Pick.{pick_next}
use tanix.Sched.Switch.{Switch, rotate, reschedule}
use tanix.Sched.Table.{task_at, in_state, set_state}
use tanix.Prelude.{ℕ, ◌<◌, ◌≡◌, ◌≢◌, refl, sym, ap, ◌∙◌, true, false, none, some, arith, ◌==◌, leb}

-- The tail runs the task in slot `j`, which still waits for a message.
pub record RunsWaiting (j : ℕ) (r : Switch) : Type 0 where
  pub switched : r.0 ≡ true
  pub runs : r.2 ≡ j
  pub waits :
      (t : Task) × (task_at j r.1 ≡ some t)
      × (t.state ≡ TaskState.running)
      × (t.recv_blocked ≡ true)

rotate-RunsWaiting :
    (s : Scheduler) (u j : ℕ) (b : Task)
    → u ≢ j
    → task_at j s ≡ some b
    → b.recv_blocked ≡ true
    → RunsWaiting j (rotate u j s)
rotate-RunsWaiting s u j b ne at_j blocked =
    let s' = set_state u TaskState.ready s in
    let at_j' : task_at j s' ≡ some b =
      ap (task_at j) (set_state-change_at u TaskState.ready s)
      ∙ (task_at-change_at_ne u j (in_state TaskState.ready) s (λ e. ne (sym e)) ∙ at_j) in
    record {
      switched = refl;
      runs = refl;
      waits = (
        in_state TaskState.running b,
        ap (task_at j) (set_state-change_at j TaskState.running s')
            ∙ some_task s' (in_state TaskState.running) j b at_j',
        refl,
        blocked,
      );
    }

tail-RunsWaiting :
    (c : Call) (cpu j : ℕ) (a b : Task)
    → c.switched ≡ false
    → c.cur ≢ j
    → task_at c.cur c.sched ≡ some a
    → task_at j c.sched ≡ some b
    → c.sched.woken ≡ some j
    → c.cur ≢ idle_slot cpu
    → b.priority < a.priority
    → b.recv_blocked ≡ true
    → RunsWaiting j (syscall_tail cpu c)
unfolding syscall_tail reschedule
tail-RunsWaiting c cpu j a b goes_on ne at_u at_j stale busy better blocked =
    let not_idle : (c.cur == idle_slot cpu) ≡ false = ground (arith, busy) in
    let worse : leb a.priority b.priority ≡ false = ground (arith, better) in
    let runs = rotate-RunsWaiting (record c.sched { woken = none }) c.cur j b ne at_j blocked in
    rw (goes_on, stale, not_idle, at_u, at_j, worse) runs

woken-switched :
    (s : Scheduler) (f : Task → Task) (j next : ℕ)
    → (set_state next TaskState.running (change_at j f s)).woken ≡ s.woken
unfolding set_state change_at
woken-switched s f j next = refl

-- A receive in slot `j` that blocks, as a call.
abbrev pub blocked_receive : (cpu j filter out : ℕ) → Scheduler → Call
blocked_receive cpu j filter out s =
    switch_away cpu j (Answer.source_at out) (change_at j (waiting filter out) s)

-- Where the table still records the task `b` in slot `j` as woken, as after a spawn outside of a call,
-- `b` has no message parked that `filter` accepts and no task has one staged for it, and the task `a` in
-- another slot, not the idle one, is of a worse priority: the receive of `b` blocks, and the tail of any
-- later call `later` of `a` that does not switch, and has left the record of the woken task, `a` and `b` as
-- they were after the receive, whatever else it changed, runs `b`, which still waits for a message.
pub syscall_tail-RunsWaiting :
    (s : Scheduler) (cpu cpu' j filter out : ℕ) (later : Call) (a b : Task)
    → later.cur ≢ j
    → task_at later.cur s ≡ some a
    → task_at j s ≡ some b
    → s.woken ≡ some j
    → take_pending filter b.pending_senders ≡ none
    → find_staged b.id filter 1 (behind_first s.tasks) ≡ none
    → later.cur ≢ idle_slot cpu'
    → b.priority < a.priority
    → later.switched ≡ false
    → later.sched.woken ≡ (blocked_receive cpu j filter out s).sched.woken
    → task_at later.cur later.sched ≡ task_at later.cur (blocked_receive cpu j filter out s).sched
    → task_at j later.sched ≡ task_at j (blocked_receive cpu j filter out s).sched
    → (sys_receive cpu j filter out s ≡ some (blocked_receive cpu j filter out s))
      × ((blocked_receive cpu j filter out s).written ≡ none)
      × RunsWaiting j (syscall_tail cpu' later)
unfolding sys_receive switch_away
syscall_tail-RunsWaiting s cpu cpu' j filter out later a b ne at_u at_j stale empty no_staged busy
      better goes_on record_kept u_kept j_kept =
    let u = later.cur in
    let s2 = change_at j (waiting filter out) s in
    let next = pick_next cpu j s2 in
    let (st, at_j3, _) =
      after_switch s2 next j (waiting filter out b) (some_task s (waiting filter out) j b at_j) in
    let (st', at_u3, _) =
      after_switch s2 next u a (task_at-change_at_ne j u (waiting filter out) s ne ∙ at_u) in
    (
      rw (at_j, empty, no_staged) refl,
      refl,
      tail-RunsWaiting later cpu' j (in_state st' a) (in_state st (waiting filter out b)) goes_on ne
          (u_kept ∙ at_u3) (j_kept ∙ at_j3)
          (record_kept ∙ (woken-switched s (waiting filter out) j next ∙ stale)) busy better refl,
    )
