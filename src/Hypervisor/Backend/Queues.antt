-- ===== src/Hypervisor/Backend/Queues.antt =====
-- kernel/src/hypervisor/backend.rs, `BareMetalBackend`: the calls on message queues.
use tanix.Bytes.{Bytes}
use tanix.Hypervisor.{HvError, HvResult, ok, err, panics}
use tanix.Hypervisor.Backend.{
  BareMetalBackend, VmRecord, Answer, find_vm, find_msgq, is_msgq, next_u32,
}
use tanix.Hypervisor.Msgq.{MsgqRecord, msgq_slots, enqueue, dequeue}
use tanix.Slots
use tanix.Prelude.{ℕ, Bool, Option, none, some, List, replicate, ltb, if◌then◌else◌}

-- `depth.clamp(1, MSGQ_SLOTS)`
abbrev pub clamp_depth : ℕ → ℕ
clamp_depth depth = if ltb depth 1 then 1 else if ltb msgq_slots depth then msgq_slots else depth

abbrev pub fresh_msgq : ℕ → ℕ → ℕ → MsgqRecord
fresh_msgq handle owner depth = record {
  handle = handle;
  owner = owner;
  head = 0;
  count = 0;
  depth = clamp_depth depth;
  slots = replicate msgq_slots none;
}

abbrev pub msgq_created : BareMetalBackend → Option (ℕ × List (Option MsgqRecord)) → Answer ℕ
msgq_created b none = (err HvError.no_memory, b)
msgq_created b (some r) =
    (ok b.next_handle, record b { msgqs = r.1; next_handle = next_u32 b.next_handle })

abbrev pub msgq_for : ℕ → BareMetalBackend → ℕ → Option VmRecord → Answer ℕ
msgq_for vm b depth none = (err HvError.invalid_handle, b)
msgq_for vm b depth (some v) =
    msgq_created b (Slots.fill (fresh_msgq b.next_handle vm depth) b.msgqs)

unfoldable pub msgq_create : ℕ → ℕ → BareMetalBackend → Answer ℕ
msgq_create vm depth b = msgq_for vm b depth (find_vm vm b)

module _ {A : Type 0} where
  -- The queue that an operation leaves is put back in its place.
  abbrev pub put_back : ℕ → BareMetalBackend → HvResult (A × MsgqRecord) → Answer A
  put_back mq b (ok r) =
      (ok r.0, record b { msgqs = Slots.update (is_msgq mq) (λ (_ : MsgqRecord). r.1) b.msgqs })
  put_back mq b (err e) = (err e, b)
  put_back mq b panics = (panics, b)

  abbrev pub on_msgq :
      (MsgqRecord → HvResult (A × MsgqRecord)) → ℕ → BareMetalBackend → Option MsgqRecord → Answer A
  on_msgq op mq b none = (err HvError.invalid_handle, b)
  on_msgq op mq b (some q) = put_back mq b (op q)

unfoldable pub msgq_send : ℕ → Bytes → BareMetalBackend → Answer Bool
msgq_send mq msg b = on_msgq (enqueue msg) mq b (find_msgq mq b)

unfoldable pub msgq_recv : ℕ → ℕ → BareMetalBackend → Answer (Bytes × Bool)
msgq_recv mq cap b = on_msgq (dequeue cap) mq b (find_msgq mq b)
