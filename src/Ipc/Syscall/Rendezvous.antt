-- ===== src/Ipc/Syscall/Rendezvous.antt =====
-- A receive of kernel/src/ipc/syscall.rs that blocks, and the send that ends it.
use tanix.Ipc.Syscall.{
  Answer, Call, task_idx, change_at, set_woken, stamped, switch_away, received, deliver, accepts,
  sys_send, take_pending, find_staged, behind_first, waiting, sys_receive,
}
use tanix.Ipc.Syscall.Handover.{after_switch}
use tanix.Ipc.Syscall.Received.{some_task}
use tanix.Ipc.Syscall.Slots.{task_at-change_at_ne, set_state-change_at, task_idx-change_at}
use tanix.Sched.{TaskState, Task, Message, Scheduler}
use tanix.Sched.Pick.{pick_next}
use tanix.Sched.Table.{task_at, in_state, set_state, current_id, id_or_zero}
use tanix.Prelude.{ℕ, ◌≡◌, ◌≢◌, refl, sym, ap, ◌∙◌, true, false, none, some, arith, ◌==◌}

-- The call of the sender `src`, after which the receiver in slot `j` is ready with the message in its
-- buffer, and the sender goes on; the other slots are as in `s`.
pub record Meets (s : Scheduler) (j src ttbr0 out : ℕ) (msg : Message) (c : Call) : Type 0 where
  pub answer : c.answer ≡ Answer.returns 0
  pub written : c.written ≡ some (record { ttbr0 = ttbr0; buf = out; msg = stamped src msg })
  pub stays : c.switched ≡ false
  pub receiver :
      (t : Task) × (task_at j c.sched ≡ some t)
      × (t.state ≡ TaskState.ready)
      × (t.recv_blocked ≡ false)
  pub woken : c.sched.woken ≡ some j
  pub rest : (x : ℕ) → x ≢ j → task_at x c.sched ≡ task_at x s

delivers :
    (s : Scheduler) (cpu i j : ℕ) (msg : Message) (a b : Task)
    → task_at i s ≡ some a
    → task_at j s ≡ some b
    → task_idx b.id s ≡ some j
    → b.id ≢ a.id
    → b.recv_blocked ≡ true
    → accepts b.recv_filter a.id ≡ true
    → (c : Call) × (sys_send cpu i b.id msg s ≡ some c) × Meets s j a.id b.ttbr0 b.recv_buf msg c
unfolding sys_send current_id set_woken
delivers s cpu i j msg a b at_i at_j idx_b apart blocked ok =
    let me : current_id i s ≡ a.id = ap id_or_zero at_i in
    let other : (b.id == a.id) ≡ false = ground (arith, apart) in
    (
      deliver i j a.id msg b s,
      rw (me, other, idx_b, at_j, me, blocked, ok) refl,
      record {
        answer = refl;
        written = refl;
        stays = refl;
        receiver = (received b, some_task s received j b at_j, refl, refl);
        woken = refl;
        rest = λ x off. task_at-change_at_ne j x received s off;
      },
    )

-- Where the receiver `b` in slot `j` has no message parked that `filter` accepts, no task has one staged
-- for it, `filter` accepts the sender `a` in another slot `i`, and the ids of the two lead to their
-- slots: the receive of `b` blocks, and the next send of `a` to `b` puts the message into the buffer of
-- that receive, with the id of `a` as its source, makes `b` ready, and does not block.
pub sys_send-sys_receive :
    (s : Scheduler) (cpu cpu' i j filter out : ℕ) (msg : Message) (a b : Task)
    → i ≢ j
    → task_at i s ≡ some a
    → task_at j s ≡ some b
    → task_idx a.id s ≡ some i
    → task_idx b.id s ≡ some j
    → accepts filter a.id ≡ true
    → take_pending filter b.pending_senders ≡ none
    → find_staged b.id filter 1 (behind_first s.tasks) ≡ none
    → (c : Call) × (sys_receive cpu j filter out s ≡ some c)
      × (c.answer ≡ Answer.source_at out)
      × (c.written ≡ none)
      × (c.switched ≡ true)
      × ((c' : Call) × (sys_send cpu' i b.id msg c.sched ≡ some c')
          × Meets c.sched j a.id b.ttbr0 out msg c')
unfolding sys_receive switch_away
sys_send-sys_receive s cpu cpu' i j filter out msg a b ne at_i at_j idx_a idx_b ok empty no_staged =
    let s2 = change_at j (waiting filter out) s in
    let next = pick_next cpu j s2 in
    let (st, at_j3, _) =
      after_switch s2 next j (waiting filter out b) (some_task s (waiting filter out) j b at_j) in
    let (st', at_i3, _) =
      after_switch s2 next i a (task_at-change_at_ne j i (waiting filter out) s ne ∙ at_i) in
    let idx : task_idx b.id (set_state next TaskState.running s2) ≡ some j =
      ap (task_idx b.id) (set_state-change_at next TaskState.running s2)
      ∙ (task_idx-change_at b.id next (in_state TaskState.running) s2 (λ t. refl)
          ∙ (task_idx-change_at b.id j (waiting filter out) s (λ t. refl) ∙ idx_b)) in
    let apart : b.id ≢ a.id = λ e.
      let same : some j ≡ some i = sym idx_b ∙ (ap (λ (n : ℕ). task_idx n s) e ∙ idx_a) in
      ne (sym (cc same)) in
    (
      switch_away cpu j (Answer.source_at out) s2,
      rw (at_j, empty, no_staged) refl,
      refl,
      refl,
      refl,
      delivers (set_state next TaskState.running s2) cpu' i j msg (in_state st' a)
          (in_state st (waiting filter out b)) at_i3 at_j3 idx apart refl ok,
    )
