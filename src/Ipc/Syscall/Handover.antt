-- ===== src/Ipc/Syscall/Handover.antt =====
-- The way of one message through `sys_send` and `sys_receive` of kernel/src/ipc/syscall.rs.
use mathlib.Core.Option
use mathlib.Core.Path.{subst}
use native.Mathlib.Decide.{ℕ_discrete}
use tanix.Ipc.Syscall.{
  Answer, Call, task_idx, change_at, switch_away, with_pending, staging, park, accepts, sys_send,
  take_pending, is_hit, find_staged, behind_first, sys_receive,
}
use tanix.Ipc.Syscall.Slots.{
  task_at-change_at, task_at-change_at_ne, set_state-change_at, task_idx-change_at, TakesBack,
  fill-TakesBack, find_staged-first,
}
use tanix.Sched.{TaskState, Task, Message, PendingSend, StagedSend, Scheduler}
use tanix.Sched.Pick.{pick_next}
use tanix.Sched.Switch.{is_dead}
use tanix.Sched.Table.{task_at, in_state, set_state, current_id, id_or_zero}
use tanix.Slots.{fill}
use tanix.Prelude.{
  ℕ, suc, ◌≡◌, ◌≢◌, refl, sym, ap, ◌∙◌, true, false, ◌&&◌, Option, none, some, List, [], ◌∷◌, arith,
  ◌==◌, get_or,
}
use tanix.Ipc.Syscall.Received.{HandedOver, some_task, receives_parked, receives_staged}

dead_running : is_dead TaskState.running ≡ false
unfolding is_dead
dead_running = refl

dead_blocked : is_dead TaskState.blocked ≡ false
unfolding is_dead
dead_blocked = refl

-- A task that a switch to another slot, or to its own, leaves as it was but for its state.
pub after_switch :
    (s : Scheduler) (next x : ℕ) (t : Task)
    → task_at x s ≡ some t
    → (st : TaskState) × (task_at x (set_state next TaskState.running s) ≡ some (in_state st t))
      × (is_dead t.state ≡ false → is_dead st ≡ false)
after_switch s next x t at = elim (ℕ_discrete x next) [
  | yes m ↦ (
    TaskState.running,
    ap (λ (n : ℕ). task_at x (set_state n TaskState.running s)) (sym m)
        ∙ (ap (task_at x) (set_state-change_at x TaskState.running s)
            ∙ some_task s (in_state TaskState.running) x t at),
    λ alive. dead_running,
  )
  | no m ↦ (
    t.state,
    ap (task_at x) (set_state-change_at next TaskState.running s)
        ∙ (task_at-change_at_ne next x (in_state TaskState.running) s m ∙ at),
    λ alive. alive,
  )
]

mapped_some :
    (f : Task → Task) (o : Option Task) (t' : Task)
    → Option.map f o ≡ some t'
    → (t : Task) × (o ≡ some t) × (f t ≡ t')
mapped_some f none t' e = cc e
mapped_some f (some t) t' e = (t, refl, cc e)

waits_after_switch :
    (s : Scheduler) (next x : ℕ) (t' : Task)
    → task_at x (set_state next TaskState.running s) ≡ some t'
    → (t : Task) × (task_at x s ≡ some t) × (t.send_full_wait ≡ t'.send_full_wait)
waits_after_switch s next x t' at =
    let at' : task_at x (change_at next (in_state TaskState.running) s) ≡ some t' =
      ap (task_at x) (sym (set_state-change_at next TaskState.running s)) ∙ at in
    elim (ℕ_discrete x next) [
      | yes m ↦
          let (t, old, new) = mapped_some (in_state TaskState.running) (task_at next s) t' (
            sym (task_at-change_at next (in_state TaskState.running) s)
            ∙ (ap (λ (n : ℕ). task_at n (change_at next (in_state TaskState.running) s)) (sym m)
                ∙ at')) in
          (t, ap (λ (n : ℕ). task_at n s) m ∙ old, ap (λ (x : Task). x.send_full_wait) new)
      | no m ↦ (t', sym (task_at-change_at_ne next x (in_state TaskState.running) s m) ∙ at', refl)
    ]

pub get_or-behind_first :
    (slots : List (Option Task)) (k : ℕ)
    → get_or (behind_first slots) k none ≡ get_or slots (suc k) none
get_or-behind_first [] k = refl
get_or-behind_first (t ∷ rest) k = refl

-- What the call of the sender `a` in slot `i`, and then that of the receiver `b` in slot `j`, come to.
abbrev pub Passes : (cpu i j filter out : ℕ) → Message → (a b : Task) → Option Call → Type 0
Passes cpu i j filter out msg a b none = ¬ Unit
Passes cpu i j filter out msg a b (some c) =
    (c.answer ≡ Answer.returns 0)
    × (c.written ≡ none)
    × (c.switched ≡ true)
    × ((c' : Call) × (sys_receive cpu j filter out c.sched ≡ some c')
        × HandedOver c.sched i j a.id b.ttbr0 out msg b.pending_senders c')

-- A send that does not meet a waiting receiver.
sys_send-park :
    (s : Scheduler) (cpu i j : ℕ) (msg : Message) (a b : Task)
    → i ≢ j
    → task_at i s ≡ some a
    → task_at j s ≡ some b
    → task_idx a.id s ≡ some i
    → task_idx b.id s ≡ some j
    → b.recv_blocked && accepts b.recv_filter a.id ≡ false
    → sys_send cpu i b.id msg s
      ≡ some
          (park cpu i j b.id a.id msg s (fill (record { src = a.id; msg = msg }) b.pending_senders))
unfolding sys_send current_id
sys_send-park s cpu i j msg a b ne at_i at_j idx_a idx_b busy =
    let me : current_id i s ≡ a.id = ap id_or_zero at_i in
    let apart : b.id ≢ a.id = λ e.
      let same : some j ≡ some i = sym idx_b ∙ (ap (λ (n : ℕ). task_idx n s) e ∙ idx_a) in
      ne (sym (cc same)) in
    let other : (b.id == a.id) ≡ false = ground (arith, apart) in
    rw (me, other, idx_b, at_j, me, busy) refl

-- The sender `a` in slot `i` and the receiver `b` in slot `j`, which does not wait for it.
module _ (s : Scheduler) (cpu cpu' i j filter out : ℕ) (msg : Message) (a b : Task) (ne : i ≢ j)
    (at_i : task_at i s ≡ some a) (at_j : task_at j s ≡ some b) (idx_a : task_idx a.id s ≡ some i)
    (ok : accepts filter a.id ≡ true) (no_wait : a.send_full_wait ≡ none)
    (empty : take_pending filter b.pending_senders ≡ none) where
  abbrev parked : List (Option PendingSend) → Scheduler
  parked slots = set_state i TaskState.blocked (change_at j (with_pending slots) s)

  parked-HandedOver :
      (slots : List (Option PendingSend)) (next : ℕ)
      → take_pending filter slots ≡ some (record { src = a.id; msg = msg }, b.pending_senders)
      → (c : Call) × (sys_receive cpu' j filter out
            (set_state next TaskState.running (parked slots))
          ≡ some c)
        × HandedOver
            (set_state next TaskState.running (parked slots))
            i
            j
            a.id
            b.ttbr0
            out
            msg
            b.pending_senders
            c
  parked-HandedOver slots next take =
      let s1 = change_at j (with_pending slots) s in
      let s2 = parked slots in
      let same = set_state-change_at i TaskState.blocked s1 in
      let at_i2 : task_at i s2 ≡ some (in_state TaskState.blocked a) =
        ap (task_at i) same
        ∙ some_task s1 (in_state TaskState.blocked) i a
            (task_at-change_at_ne j i (with_pending slots) s ne ∙ at_i) in
      let at_j2 : task_at j s2 ≡ some (with_pending slots b) =
        ap (task_at j) same
        ∙ (task_at-change_at_ne i j (in_state TaskState.blocked) s1 (λ e. ne (sym e))
            ∙ some_task s (with_pending slots) j b at_j) in
      let (st, at_i3, alive) = after_switch s2 next i (in_state TaskState.blocked a) at_i2 in
      let (st', at_j3, _) = after_switch s2 next j (with_pending slots b) at_j2 in
      let idx : task_idx a.id (set_state next TaskState.running s2) ≡ some i =
        ap (task_idx a.id) (set_state-change_at next TaskState.running s2)
        ∙ (task_idx-change_at a.id next (in_state TaskState.running) s2 (λ t. refl)
            ∙ (ap (task_idx a.id) same
                ∙ (task_idx-change_at a.id i (in_state TaskState.blocked) s1 (λ t. refl)
                    ∙ (task_idx-change_at a.id j (with_pending slots) s (λ t. refl) ∙ idx_a)))) in
      receives_parked (set_state next TaskState.running s2) cpu' i j filter out
        (in_state st (in_state TaskState.blocked a)) (in_state st' (with_pending slots b)) ne at_i3
        at_j3 (alive dead_blocked) (record { src = a.id; msg = msg }) b.pending_senders idx no_wait
        take

  abbrev staged_for : StagedSend
  staged_for = record { dst = b.id; src = a.id; msg = msg }

  module _ (k : ℕ) (behind : i ≡ suc k)
      (alone : (x : ℕ) (t : Task)
        → x ≢ i
        → task_at x s ≡ some t
        → is_hit b.id filter t.send_full_wait ≡ false) where
    staged-HandedOver :
        (next : ℕ)
        → (c : Call) × (sys_receive cpu' j filter out
              (set_state next TaskState.running (change_at i (staging staged_for) s))
            ≡ some c)
          × HandedOver
              (set_state next TaskState.running (change_at i (staging staged_for) s))
              i
              j
              a.id
              b.ttbr0
              out
              msg
              b.pending_senders
              c
    staged-HandedOver next =
        let s2 = change_at i (staging staged_for) s in
        let s3 = set_state next TaskState.running s2 in
        let (st, at_i3, alive) =
          after_switch s2 next i (staging staged_for a)
            (some_task s (staging staged_for) i a at_i) in
        let (st', at_j3, _) =
          after_switch s2 next j b
            (task_at-change_at_ne i j (staging staged_for) s (λ e. ne (sym e)) ∙ at_j) in
        let found : find_staged b.id filter 1 (behind_first s3.tasks) ≡ some (i, some staged_for) =
          find_staged-first b.id filter 1 k (in_state st (staging staged_for a)) staged_for
            (behind_first s3.tasks)
            (get_or-behind_first s3.tasks k ∙ (ap (λ (n : ℕ). task_at n s3) (sym behind) ∙ at_i3))
            refl (ground (arith, ok)) (alive dead_blocked)
            (λ x t' lt e.
              let off : suc x ≢ i = omega (arith, lt, behind) in
              let (t, at, wait) =
                waits_after_switch s2 next (suc x) t' (sym (get_or-behind_first s3.tasks x) ∙ e) in
              ap (is_hit b.id filter) (sym wait)
              ∙ alone (suc x) t off
                  (sym (task_at-change_at_ne i (suc x) (staging staged_for) s off) ∙ at))
          ∙ ap (λ (n : ℕ). some (n, some staged_for)) (omega (arith, behind)) in
        receives_staged s3 cpu' i j filter out (in_state st (staging staged_for a)) (in_state st' b)
          ne at_i3 at_j3 (alive dead_blocked) staged_for refl empty found

    park-Passes :
        (o : Option (ℕ × List (Option PendingSend)))
        → TakesBack filter (record { src = a.id; msg = msg }) b.pending_senders o
        → Passes cpu' i j filter out msg a b (some (park cpu i j b.id a.id msg s o))
    unfolding switch_away
    park-Passes none h =
        (refl, refl, refl, staged-HandedOver (pick_next cpu i (change_at i (staging staged_for) s)))
    park-Passes (some r) h =
        (refl, refl, refl, parked-HandedOver (r.1) (pick_next cpu i (parked (r.1))) h)

-- Where the sender `a`, in a slot `i` other than 0 and `j`, has no message staged, the receiver `b` in slot
-- `j` does not wait for a message of `a` and has none parked that `filter` accepts, no task but `a` has
-- one staged for `b` that it accepts, `filter` accepts `a`, and the ids of the two lead to their slots:
-- the send of `msg` to `b` parks it, with the receiver or with the sender, and blocks the sender, and the
-- next receive of `b` gets `msg` with the id of `a` as its source, leaves the entries of `b` as they were
-- before the send, and makes `a` ready.
pub sys_receive-sys_send :
    (s : Scheduler) (cpu cpu' i j k filter out : ℕ) (msg : Message) (a b : Task) (ne : i ≢ j)
    (at_i : task_at i s ≡ some a) (at_j : task_at j s ≡ some b) (idx_a : task_idx a.id s ≡ some i)
    (idx_b : task_idx b.id s ≡ some j) (ok : accepts filter a.id ≡ true)
    (no_wait : a.send_full_wait ≡ none) (empty : take_pending filter b.pending_senders ≡ none)
    (busy : b.recv_blocked && accepts b.recv_filter a.id ≡ false) (behind : i ≡ suc k)
    (alone : (x : ℕ) (t : Task)
      → x ≢ i
      → task_at x s ≡ some t
      → is_hit b.id filter t.send_full_wait ≡ false)
    → Passes cpu' i j filter out msg a b (sys_send cpu i b.id msg s)
sys_receive-sys_send s cpu cpu' i j k filter out msg a b ne at_i at_j idx_a idx_b ok no_wait empty
      busy behind alone =
    subst (Passes cpu' i j filter out msg a b)
      (sym (sys_send-park s cpu i j msg a b ne at_i at_j idx_a idx_b busy))
      (park-Passes s cpu cpu' i j filter out msg a b ne at_i at_j idx_a ok no_wait empty k behind
        alone (fill (record { src = a.id; msg = msg }) b.pending_senders)
        (fill-TakesBack filter (record { src = a.id; msg = msg }) b.pending_senders ok empty))
