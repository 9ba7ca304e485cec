-- ===== src/Hypervisor/Backend/Messages.antt =====
-- A message that goes through the table of queues of kernel/src/hypervisor/backend.rs.
use mathlib.Core.Option
use tanix.Bytes.{Bytes}
use tanix.Hypervisor.{HvResult, ok, err, panics}
use tanix.Hypervisor.Backend.{BareMetalBackend, find_msgq, is_msgq}
use tanix.Hypervisor.Backend.Queues.{msgq_send, msgq_recv}
use tanix.Hypervisor.Msgq.{MsgqRecord, enqueue, dequeue}
use tanix.Hypervisor.Msgq.Fifo.{
  IsRing, LeavesRing, abstracted, contents, receive, enqueue-refines, dequeue-refines,
  length-contents, send_room, receive_some,
}
use tanix.Slots
use tanix.Slots.{find-update, find-update_ne, find_sound}
use tanix.Prelude.{
  ℕ, ◌+◌, ◌<◌, ◌≤◌, ◌≡◌, ◌≢◌, refl, ap, ◌∙◌, Bool, some, List, [], ◌∷◌, ◌++◌, arith, length, take,
  ltb, ==_iff,
}

-- An operation that is abstracted to a success succeeds.
ok_of_abstracted :
    {A : Type 0} (r : HvResult (A × MsgqRecord)) (a : A) (queue : List Bytes)
    → abstracted r ≡ ok (a, queue)
    → LeavesRing r
    → (q : MsgqRecord) × (r ≡ ok (a, q)) × (contents q ≡ queue) × IsRing q
ok_of_abstracted (ok (b, q)) a queue e v = (q, ap (λ (c : _). ok (c, q)) (cc e), cc e, v)
ok_of_abstracted (err x) a queue e v = cc e
ok_of_abstracted panics a queue e v = cc e

handle-enqueue :
    (msg : Bytes) (q : MsgqRecord) {a : Bool} {q' : MsgqRecord}
    → enqueue msg q ≡ ok (a, q')
    → q'.handle ≡ q.handle
unfolding enqueue
handle-enqueue msg q e = ground arith

-- The table with the queue `q'` in the place of `q`.
put : ℕ → MsgqRecord → BareMetalBackend → BareMetalBackend
put mq q' b = record b { msgqs = Slots.update (is_msgq mq) (λ (_ : MsgqRecord). q') b.msgqs }

-- A receive from a queue of the table answers as the queue does.
msgq_recv_found :
    (mq : ℕ) (b : BareMetalBackend) {q q' : MsgqRecord}
    → find_msgq mq b ≡ some q
    → (cap : ℕ) {a : Bytes × Bool} → dequeue cap q ≡ ok (a, q')
    → (msgq_recv mq cap b).0 ≡ ok a
unfolding msgq_recv
msgq_recv_found mq b there cap e = rw there (rw e refl)

module _ (mq : ℕ) (b : BareMetalBackend) {q : MsgqRecord} (there : find_msgq mq b ≡ some q) where
  handle-find_msgq : q.handle ≡ mq
  unfolding find_msgq
  handle-find_msgq = (==_iff q.handle mq).0 (find_sound (is_msgq mq) b.msgqs there)

  module _ (q' : MsgqRecord) (same : q'.handle ≡ q.handle) where
    find_msgq-put : find_msgq mq (put mq q' b) ≡ some q'
    unfolding find_msgq put
    find_msgq-put =
        find-update (is_msgq mq) (λ (_ : MsgqRecord). q')
          (λ a e. (==_iff q'.handle mq).1 (same ∙ handle-find_msgq)) b.msgqs
        ∙ ap (Option.map (λ (_ : MsgqRecord). q')) there

    find_msgq-put_ne : (k : ℕ) → k ≢ mq → find_msgq k (put mq q' b) ≡ find_msgq k b
    unfolding find_msgq put
    find_msgq-put_ne k ne =
        find-update_ne (is_msgq mq) (λ (_ : MsgqRecord). q') (is_msgq k)
          (λ a e. (ground (arith, ==_iff a.handle mq), ground (arith, same, handle-find_msgq)))
          b.msgqs

  -- A send that the queue accepts is answered so, and the queue is put back.
  msgq_send_accepted :
      (msg : Bytes) {a : Bool} {q' : MsgqRecord}
      → enqueue msg q ≡ ok (a, q')
      → msgq_send mq msg b ≡ (ok a, put mq q' b)
  unfolding msgq_send put
  msgq_send_accepted msg e = rw there (rw e refl)

  -- Through the table: a message of at most 96 bytes, sent to a queue of the table with room, is
  -- accepted; the next receive returns the oldest message, at most `cap` bytes of it, and tells whether
  -- more are there; every other queue of the table is as it was.
  pub msgq_recv-msgq_send :
      IsRing q
      → (msg : Bytes) → length msg ≤ 96
      → q.count < q.depth
      → (cap : ℕ) (oldest : Bytes) (rest : List Bytes) → contents q ++ (msg ∷ []) ≡ oldest ∷ rest
      → let (sent, b') = msgq_send mq msg b in
        (sent ≡ ok (ltb (q.count + 1) q.depth))
        × ((msgq_recv mq cap b').0 ≡ ok (take cap oldest, ltb 0 (length rest)))
        × ((k : ℕ) → k ≢ mq → find_msgq k b' ≡ find_msgq k b)
  msgq_recv-msgq_send v msg small room cap oldest rest split =
      let r = enqueue-refines q v msg in
      let queued = send_room q.depth msg (contents q) small (rw (length-contents q) room) in
      let (q', e, c, v') =
        ok_of_abstracted (enqueue msg q) (ltb (length (contents q) + 1) q.depth)
          (contents q ++ (msg ∷ [])) (r.0 ∙ queued) r.1 in
      let same = handle-enqueue msg q e in
      let r' = dequeue-refines q' v' cap in
      let (q'', e', _, _) =
        ok_of_abstracted (dequeue cap q') (take cap oldest, ltb 0 (length rest)) rest
          (r'.0 ∙ ap (receive cap) (c ∙ split) ∙ receive_some cap oldest rest) r'.1 in
      rw (msgq_send_accepted msg e) (
        ap (λ (n : ℕ). ok (ltb (n + 1) q.depth)) (length-contents q),
        msgq_recv_found mq (put mq q' b) (find_msgq-put q' same) cap e',
        find_msgq-put_ne q' same,
      )
