-- ===== src/Ipc/Syscall/Kept.antt =====
-- No message is lost or doubled by `sys_send` and `sys_receive` of kernel/src/ipc/syscall.rs.
use tanix.Ipc.Syscall.{
  Answer, Call, errno, position, task_idx, change_at, set_woken, switch_away, received,
  with_pending, staging, park, accepts, send_to, send_at, sys_send, take_pending, find_staged,
  behind_first, released, wake_sender, wake_sender_at, unstaged, waiting, receive_staged,
  receive_for, sys_receive,
}
use tanix.Ipc.Syscall.InFlight.{
  staged, in_flight, written_count, in_flight-change_at, in_flight-change_at_same,
  in_flight-set_state, in_flight-switch_away, OneMore, fill-OneMore, OneLess, take_pending-OneLess,
  Locates, position-Locates, HasStaged, find_staged-HasStaged,
}
use tanix.Ipc.Syscall.Handover.{get_or-behind_first}
use tanix.Sched.{TaskState, Task, Message, PendingSend, StagedSend, Scheduler}
use tanix.Sched.Switch.{is_dead}
use tanix.Sched.Table.{task_at, set_state, current_id}
use tanix.Slots.{fill}
use tanix.Prelude.{
  ℕ, ◌+◌, ◌≡◌, ◌⊎◌, refl, sym, ap, ◌∙◌, true, false, ◌&&◌, Option, none, some, List, arith, ◌==◌,
  Bool-cases, inl, inr,
}

-- A send that is refused changes nothing; any other adds its message to those on their way or written.
abbrev pub Adds : Scheduler → Option Call → Type 0
Adds s none = ¬ Unit
Adds s (some c) =
    (c.sched ≡ s)
      × (c.written ≡ none)
      × ((c.answer ≡ Answer.returns (errno 2)) ⊎ (c.answer ≡ Answer.returns (errno 3)))
    ⊎ ((c.answer ≡ Answer.returns 0)
        × (in_flight c.sched + written_count c.written ≡ in_flight s + 1))

park-Adds :
    (s : Scheduler) (cpu cur idx dst src : ℕ) (msg : Message) (a t : Task)
    → task_at cur s ≡ some a
    → a.send_full_wait ≡ none
    → task_at idx s ≡ some t
    → (o : Option (ℕ × List (Option PendingSend))) → OneMore t.pending_senders o
    → Adds s (some (park cpu cur idx dst src msg s o))
unfolding switch_away
park-Adds s cpu cur idx dst src msg a t at free at_t none h =
    let m : StagedSend = record { dst = dst; src = src; msg = msg } in
    let stage : staged a.send_full_wait ≡ 0 = ap staged free in
    inr (
      refl,
      omega (
        arith,
        in_flight-switch_away cpu cur (Answer.returns 0) (change_at cur (staging m) s),
        in_flight-change_at (staging m) a cur s at,
        stage,
      ),
    )
park-Adds s cpu cur idx dst src msg a t at free at_t (some r) h =
    let s1 = change_at idx (with_pending (r.1)) s in
    inr (
      refl,
      omega (
        arith,
        in_flight-switch_away cpu cur (Answer.returns 0) (set_state cur TaskState.blocked s1),
        in_flight-set_state cur TaskState.blocked s1,
        in_flight-change_at (with_pending (r.1)) t idx s at_t,
        h,
      ),
    )

send_to-Adds :
    (s : Scheduler) (cpu cur dst idx : ℕ) (msg : Message) (a t : Task)
    → task_at cur s ≡ some a
    → a.send_full_wait ≡ none
    → task_at idx s ≡ some t
    → Adds s (send_to cpu cur dst idx msg s (some t))
unfolding set_woken
send_to-Adds s cpu cur dst idx msg a t at free at_t =
    let me = current_id cur s in
    elim (Bool-cases (t.recv_blocked && accepts t.recv_filter me)) [
      | inl meets ↦
          rw meets (
            inr (refl, ap (λ (n : ℕ). n + 1) (in_flight-change_at_same received (λ x. refl) idx s)))
      | inr waits ↦ rw waits (
          park-Adds s cpu cur idx dst me msg a t at free at_t
            (fill (record { src = me; msg = msg }) t.pending_senders)
            (fill-OneMore (record { src = me; msg = msg }) t.pending_senders))
    ]

send_at-Adds :
    (s : Scheduler) (cpu cur dst : ℕ) (msg : Message) (a : Task)
    → task_at cur s ≡ some a
    → a.send_full_wait ≡ none
    → (o : Option ℕ) → Locates 0 s.tasks o
    → Adds s (send_at cpu cur dst msg s o)
send_at-Adds s cpu cur dst msg a at free none h = inl (refl, refl, inr refl)
send_at-Adds s cpu cur dst msg a at free (some idx) (k, e, (t, at_k)) =
    let at_t : task_at idx s ≡ some t = ap (λ (n : ℕ). task_at n s) (omega (arith, e)) ∙ at_k in
    rw at_t (send_to-Adds s cpu cur dst idx msg a t at free at_t)

-- Where the current slot holds a task with no message staged: a send does not panic; it is refused,
-- with an error and the table as it was, or it returns 0, and with what it wrote there is one message
-- more than there was on its way.
pub sys_send-Adds :
    (s : Scheduler) (cpu cur dst : ℕ) (msg : Message) (a : Task)
    → task_at cur s ≡ some a
    → a.send_full_wait ≡ none
    → Adds s (sys_send cpu cur dst msg s)
unfolding sys_send task_idx
sys_send-Adds s cpu cur dst msg a at free = elim (Bool-cases (dst == current_id cur s)) [
  | inl self ↦ rw self (inl (refl, refl, inl refl))
  | inr other ↦ rw other (
      send_at-Adds s cpu cur dst msg a at free (position dst 0 s.tasks)
        (position-Locates dst 0 s.tasks))
]

-- A receive writes one message less to come, or none and blocks.
abbrev pub Takes : Scheduler → Option Call → Type 0
Takes s none = ¬ Unit
Takes s (some c) =
    (in_flight c.sched + written_count c.written ≡ in_flight s)
    × ((c.switched ≡ false) × (written_count c.written ≡ 1)
        ⊎ (c.switched ≡ true) × (written_count c.written ≡ 0))

wake_sender-in_flight :
    (s : Scheduler) (idx : ℕ) (o : Option Task) → in_flight ((wake_sender idx s o).1) ≡ in_flight s
unfolding set_woken
wake_sender-in_flight s idx none = refl
wake_sender-in_flight s idx (some t) = elim (Bool-cases (is_dead t.state)) [
  | inl dead ↦ rw dead refl
  | inr alive ↦ rw alive (in_flight-change_at_same released (λ x. refl) idx s)
]

wake_sender_at-in_flight :
    (s : Scheduler) (o : Option ℕ) → in_flight ((wake_sender_at s o).1) ≡ in_flight s
wake_sender_at-in_flight s none = refl
wake_sender_at-in_flight s (some idx) = wake_sender-in_flight s idx (task_at idx s)

receive_staged-Takes :
    (s : Scheduler) (cpu cur filter out : ℕ) (t : Task)
    → (o : Option (ℕ × Option StagedSend)) → HasStaged 1 (behind_first s.tasks) o
    → Takes s (receive_staged cpu cur filter out t s o)
unfolding switch_away set_woken
receive_staged-Takes s cpu cur filter out t none h =
    let s1 = change_at cur (waiting filter out) s in
    (
      omega (
        arith,
        in_flight-switch_away cpu cur (Answer.source_at out) s1,
        in_flight-change_at_same (waiting filter out) (λ x. refl) cur s,
      ),
      inr (refl, refl),
    )
receive_staged-Takes s cpu cur filter out t (some (idx, none)) (k, e, (t', at, same, one)) =
    absurd (omega (arith, one))
receive_staged-Takes s cpu cur filter out t (some (idx, some m)) (k, e, (t', at, same, one)) =
    let at' : task_at idx s ≡ some t' =
      ap (λ (n : ℕ). task_at n s) (omega (arith, e)) ∙ (sym (get_or-behind_first s.tasks k) ∙ at) in
    let stage : staged t'.send_full_wait ≡ 1 = ap staged same in
    (omega (arith, in_flight-change_at unstaged t' idx s at', stage), inl (refl, refl))

receive_for-Takes :
    (s : Scheduler) (cpu cur filter out : ℕ) (t : Task)
    → task_at cur s ≡ some t
    → (o : Option (PendingSend × List (Option PendingSend))) → OneLess t.pending_senders o
    → Takes s (receive_for cpu cur filter out t s o)
receive_for-Takes s cpu cur filter out t at none h =
    receive_staged-Takes s cpu cur filter out t (find_staged t.id filter 1 (behind_first s.tasks))
      (find_staged-HasStaged t.id filter 1 (behind_first s.tasks))
receive_for-Takes s cpu cur filter out t at (some r) h =
    let s1 = change_at cur (with_pending (r.1)) s in
    (
      omega (
        arith,
        wake_sender_at-in_flight s1 (task_idx (r.0.src) s1),
        in_flight-change_at (with_pending (r.1)) t cur s at,
        h,
      ),
      inl (refl, refl),
    )

-- Where the current slot holds a task: a receive does not panic; it writes one message, which is then no
-- longer on its way, and goes on, or it writes none, blocks, and leaves all on their way.
pub sys_receive-Takes :
    (s : Scheduler) (cpu cur filter out : ℕ) (t : Task)
    → task_at cur s ≡ some t
    → Takes s (sys_receive cpu cur filter out s)
unfolding sys_receive
sys_receive-Takes s cpu cur filter out t at = rw at (
    receive_for-Takes s cpu cur filter out t at (take_pending filter t.pending_senders)
      (take_pending-OneLess filter t.pending_senders))
