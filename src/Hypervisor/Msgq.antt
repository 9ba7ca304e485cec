-- ===== src/Hypervisor/Msgq.antt =====
-- kernel/src/hypervisor/backend.rs, `MsgqRecord`: a message queue as a ring of 16 slots.
pub mod Fifo
mod Tests
use tanix.Bytes.{Bytes, copy_at, slice}
use tanix.Hypervisor.{HvError, HvResult, ok, err, panics, msgq_max_msg_size}
use tanix.Prelude.{
  ℕ, ◌+◌, ◌-◌, ◌%◌, ◌^◌, min, Bool, true, false, Option, none, some, List, length, get_or, set,
  replicate, ltb, leb, ◌==◌, if◌then◌else◌,
}

abbrev pub msgq_slots : ℕ
msgq_slots = 16

-- The bytes of a slot, and how many of them are the message.
pub record MsgqSlot : Type 0 where
  pub payload : Bytes
  pub len : ℕ

pub record MsgqRecord : Type 0 where
  pub handle : ℕ
  pub owner : ℕ
  pub head : ℕ
  pub count : ℕ
  pub depth : ℕ
  pub slots : List (Option MsgqSlot)

-- The message in a slot of its own.
abbrev pub stored : Bytes → MsgqSlot
stored msg = record {
  payload = copy_at (replicate msgq_max_msg_size 0) 0 msg;
  len = length msg % 2 ^ 16;
}

-- Whether there is room for another message, and the queue.
unfoldable pub enqueue : Bytes → MsgqRecord → HvResult (Bool × MsgqRecord)
enqueue msg q =
    if ltb msgq_max_msg_size (length msg)
    then err HvError.bad_message
    else if leb q.depth q.count
    then err HvError.full
    else ok (
      ltb (q.count + 1) q.depth,
      record q {
        slots = set q.slots ((q.head + q.count) % msgq_slots) (some (stored msg));
        count = q.count + 1;
      },
    )

-- The slot at the head is emptied; at most `cap` bytes of its message are copied out.
abbrev pub take_slot : ℕ → MsgqRecord → Option MsgqSlot → HvResult ((Bytes × Bool) × MsgqRecord)
take_slot cap q none = panics
take_slot cap q (some slot) = ok (
  (slice slot.payload 0 (min slot.len cap), ltb 0 (q.count - 1)),
  record q {
    slots = set q.slots q.head none;
    head = (q.head + 1) % msgq_slots;
    count = q.count - 1;
  },
)

-- The bytes that were copied, whether more messages wait, and the queue.
unfoldable pub dequeue : ℕ → MsgqRecord → HvResult ((Bytes × Bool) × MsgqRecord)
dequeue cap q =
    if q.count == 0 then err HvError.empty else take_slot cap q (get_or q.slots q.head none)
