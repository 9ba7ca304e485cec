-- ===== src/Hypervisor/Msgq/Fifo.antt =====
-- The ring of `MsgqRecord` in kernel/src/hypervisor/backend.rs implements a bounded queue of messages.
use mathlib.Core.Path.{ap₂}
use native.Mathlib.Decide.{ℕ_discrete}
use tanix.Bytes.{Bytes}
use tanix.Bytes.Copy.{take-copy_at, take-take}
use tanix.Hypervisor.{HvError, HvResult, ok, err, panics, map_ok, msgq_max_msg_size}
use tanix.Hypervisor.Msgq.{MsgqSlot, MsgqRecord, stored, enqueue, take_slot, dequeue}
use tanix.Prelude.{
  ℕ, zero, suc, ◌+◌, ◌-◌, ◌%◌, ◌^◌, ◌<◌, ◌≤◌, min, ◌≡◌, ◌≢◌, refl, sym, ap, ◌∙◌, Bool, Option, none,
  some, List, [], ◌∷◌, ◌++◌, arith, length, get_or, set, take, replicate, ltb, leb, ◌==◌,
  if◌then◌else◌, length-set, get_or-set_self, get_or-set_ne, length-replicate, inl, inr, Bool-cases,
}

-- A queue of at most `depth` messages, by its contents.
unfoldable pub send : ℕ → Bytes → List Bytes → HvResult (Bool × List Bytes)
send depth msg queue =
    if ltb msgq_max_msg_size (length msg)
    then err HvError.bad_message
    else if leb depth (length queue)
    then err HvError.full
    else ok (ltb (length queue + 1) depth, queue ++ (msg ∷ []))

unfoldable pub receive : ℕ → List Bytes → HvResult ((Bytes × Bool) × List Bytes)
receive cap [] = err HvError.empty
receive cap (msg ∷ queue) = ok ((take cap msg, ltb 0 (length queue)), queue)

-- The message of a slot.
abbrev pub message : Option MsgqSlot → Bytes
message none = []
message (some slot) = take slot.len slot.payload

-- The messages of `n` slots from index `i` on, round the ring.
unfoldable pub messages_from : List (Option MsgqSlot) → ℕ → ℕ → List Bytes
messages_from slots i zero = []
messages_from slots i (suc n) = message (get_or slots (i % 16) none) ∷ messages_from slots (i + 1) n

abbrev pub contents : MsgqRecord → List Bytes
contents q = messages_from q.slots q.head q.count

-- `n` slots from index `i` on are in use.
abbrev pub AreUsed : List (Option MsgqSlot) → ℕ → ℕ → Type 0
AreUsed slots i n = (k : ℕ) → k < n → get_or slots ((i + k) % 16) none ≢ none

pub record IsRing (q : MsgqRecord) : Type 0 where
  pub ring : length q.slots ≡ 16
  pub start : q.head < 16
  pub bounded : q.count ≤ q.depth
  pub capacity : q.depth ≤ 16
  pub used : AreUsed q.slots q.head q.count

length-messages_from :
    (slots : List (Option MsgqSlot)) (i n : ℕ) → length (messages_from slots i n) ≡ n
unfolding messages_from
length-messages_from slots i zero = refl
length-messages_from slots i (suc n) = omega (arith, length-messages_from slots (i + 1) n)

-- The index counts modulo 16.
messages_from_mod :
    (slots : List (Option MsgqSlot)) (i j n : ℕ)
    → i % 16 ≡ j % 16
    → messages_from slots i n ≡ messages_from slots j n
unfolding messages_from
messages_from_mod slots i j zero e = refl
messages_from_mod slots i j (suc n) e = rw e (
    ap (λ (t : List Bytes). message (get_or slots (j % 16) none) ∷ t)
      (messages_from_mod slots (i + 1) (j + 1) n (omega arith)))

-- A write behind the slots, before they come round again.
messages_from-set :
    (slots : List (Option MsgqSlot)) (i d n : ℕ) (v : Option MsgqSlot)
    → n ≤ d
    → d < 16
    → messages_from (set slots ((i + d) % 16) v) i n ≡ messages_from slots i n
unfolding messages_from
messages_from-set slots i d zero v le lt = refl
messages_from-set slots i d (suc n) v le lt =
    let same : (i + d) % 16 ≡ (i + 1 + (d - 1)) % 16 = omega arith in
    ap (λ (o : Option MsgqSlot). message o ∷ messages_from (set slots ((i + d) % 16) v) (i + 1) n)
      (get_or-set_ne slots ((i + d) % 16) (i % 16) v none (omega arith))
    ∙ ap (λ (t : List Bytes). message (get_or slots (i % 16) none) ∷ t)
        (ap (λ (k : ℕ). messages_from (set slots k v) (i + 1) n) same
          ∙ messages_from-set slots (i + 1) (d - 1) n v (omega arith) (omega arith))

messages_from-snoc :
    (slots : List (Option MsgqSlot)) (i n : ℕ)
    → messages_from slots i (suc n)
      ≡ messages_from slots i n ++ (message (get_or slots ((i + n) % 16) none) ∷ [])
unfolding messages_from
messages_from-snoc slots i zero = let e : i + 0 ≡ i = omega arith in rw e refl
messages_from-snoc slots i (suc n) =
    let e : i + suc n ≡ i + 1 + n = omega arith in
    rw e (
      ap (λ (t : List Bytes). message (get_or slots (i % 16) none) ∷ t)
        (messages_from-snoc slots (i + 1) n))

message-stored : (msg : Bytes) → length msg ≤ 96 → message (some (stored msg)) ≡ msg
message-stored msg small =
    let e : length msg % 2 ^ 16 ≡ 0 + length msg = omega arith in
    rw e (take-copy_at (replicate 96 0) 0 msg (omega (arith, length-replicate {A = ℕ} 96 0)))

module _ (q : MsgqRecord) (v : IsRing q) where
  count-eq : length (contents q) ≡ q.count
  count-eq = length-messages_from q.slots q.head q.count

  -- The queue after an accepted message.
  enqueued : Bytes → MsgqRecord
  enqueued msg = record q {
    slots = set q.slots ((q.head + q.count) % 16) (some (stored msg));
    count = q.count + 1;
  }

  contents-enqueued :
      (msg : Bytes)
      → length msg ≤ 96
      → q.count < q.depth
      → contents (enqueued msg) ≡ contents q ++ (msg ∷ [])
  unfolding enqueued
  contents-enqueued msg small room =
      let slots' = set q.slots ((q.head + q.count) % 16) (some (stored msg)) in
      let n : q.count + 1 ≡ suc q.count = omega arith in
      let at : get_or slots' ((q.head + q.count) % 16) none ≡ some (stored msg) =
        get_or-set_self q.slots ((q.head + q.count) % 16) (some (stored msg)) none
          (omega (arith, v.ring)) in
      ap (λ (k : ℕ). messages_from slots' q.head k) n
      ∙ messages_from-snoc slots' q.head q.count
      ∙ ap₂ (λ (a : List Bytes) (b : Bytes). a ++ (b ∷ []))
          (messages_from-set q.slots q.head q.count q.count (some (stored msg)) (omega arith)
            (omega (arith, v.capacity)))
          (ap message at ∙ message-stored msg small)

  enqueued-IsRing : (msg : Bytes) → q.count < q.depth → IsRing (enqueued msg)
  unfolding enqueued
  enqueued-IsRing msg room = record {
    ring = length-set q.slots ((q.head + q.count) % 16) (some (stored msg)) ∙ v.ring;
    start = v.start;
    bounded = omega arith;
    capacity = v.capacity;
    used = λ k lt. elim (ℕ_discrete ((q.head + q.count) % 16) ((q.head + k) % 16)) [
      | yes e ↦ λ h. cc (
          sym (
            get_or-set_self q.slots ((q.head + q.count) % 16) (some (stored msg)) none
              (omega (arith, v.ring)))
          ∙ ap (λ (j : ℕ). get_or (enqueued msg).slots j none) e
          ∙ h)
      | no ne ↦ λ h. v.used k (omega (arith, v.capacity)) (
          sym (
            get_or-set_ne q.slots ((q.head + q.count) % 16) ((q.head + k) % 16) (some (stored msg))
              none ne)
          ∙ h)
    ];
  }

  -- The queue after the message at its head was taken.
  dequeued : MsgqRecord
  dequeued = record q {
    slots = set q.slots q.head none;
    head = (q.head + 1) % 16;
    count = q.count - 1;
  }

  contents-dequeued :
      0 < q.count → contents q ≡ message (get_or q.slots q.head none) ∷ contents dequeued
  unfolding dequeued messages_from
  contents-dequeued some_left =
      let rest = q.count - 1 in
      let n : q.count ≡ suc rest = omega arith in
      let at_head : q.head % 16 ≡ q.head = omega (arith, v.start) in
      let back : (q.head + 1 + 15) % 16 ≡ q.head = omega (arith, v.start) in
      ap (λ (k : ℕ). messages_from q.slots q.head k) n
      ∙ ap (λ (j : ℕ). message (get_or q.slots j none) ∷ messages_from q.slots (q.head + 1) rest)
          at_head
      ∙ ap (λ (t : List Bytes). message (get_or q.slots q.head none) ∷ t)
          (sym (
              messages_from-set q.slots (q.head + 1) 15 rest none
                (omega (arith, v.bounded, v.capacity)) (omega arith))
            ∙ ap (λ (j : ℕ). messages_from (set q.slots j none) (q.head + 1) rest) back
            ∙ messages_from_mod (set q.slots q.head none) (q.head + 1) ((q.head + 1) % 16) rest
                (omega arith))

  dequeued-IsRing : 0 < q.count → IsRing dequeued
  unfolding dequeued
  dequeued-IsRing some_left = record {
    ring = length-set q.slots q.head none ∙ v.ring;
    start = omega arith;
    bounded = omega (arith, v.bounded);
    capacity = v.capacity;
    used = λ k lt h.
        let turn : (q.head + (k + 1)) % 16 ≡ ((q.head + 1) % 16 + k) % 16 = omega arith in
        v.used (k + 1) (omega arith) (
          sym (
            get_or-set_ne q.slots q.head ((q.head + (k + 1)) % 16) none none
              (omega (arith, v.start, v.bounded, v.capacity)))
          ∙ ap (λ (j : ℕ). get_or (set q.slots q.head none) j none) turn
          ∙ h);
  }

-- The abstract queue that a result leaves.
abbrev pub abstracted : {A : Type 0} → HvResult (A × MsgqRecord) → HvResult (A × List Bytes)
abstracted {A} r = map_ok (λ (x : A × MsgqRecord). (x.0, contents x.1)) r

-- The ring that a result leaves, where there is one.
abbrev pub LeavesRing : {A : Type 0} → HvResult (A × MsgqRecord) → Type 0
LeavesRing (ok r) = IsRing r.1
LeavesRing (err e) = Unit
LeavesRing panics = Unit

-- On a ring, `enqueue` answers and acts as `send` does on a bounded queue with the messages of the
-- ring, and leaves a ring.
pub enqueue-refines :
    (q : MsgqRecord)
    → IsRing q
    → (msg : Bytes)
    → (abstracted (enqueue msg q) ≡ send q.depth msg (contents q)) × LeavesRing (enqueue msg q)
unfolding enqueue send enqueued
enqueue-refines q v msg = elim (Bool-cases (ltb 96 (length msg))) [
  | inl long ↦ rw long (refl, tt)
  | inr fits ↦ rw fits (elim (Bool-cases (leb q.depth q.count)) [
    | inl full ↦ rw (count-eq q v) (rw full (refl, tt))
    | inr room ↦ rw (count-eq q v) (
        rw room (
          ap (λ (c : List Bytes). ok (ltb (q.count + 1) q.depth, c))
              (contents-enqueued q v msg (ground arith) (ground arith)),
          enqueued-IsRing q v msg (ground arith),
        ))
  ])
]

-- The answer for the slot at the head.
take_slot-refines :
    (q : MsgqRecord) (v : IsRing q) (cap : ℕ) (slot : Option MsgqSlot)
    → 0 < q.count
    → slot ≢ none
    → (abstracted (take_slot cap q slot)
        ≡ ok (
          (take cap (message slot), ltb 0 (length (contents (dequeued q v)))),
          contents (dequeued q v),
        ))
      × LeavesRing (take_slot cap q slot)
unfolding dequeued
take_slot-refines q v cap none some_left used = absurd (used refl)
take_slot-refines q v cap (some slot) some_left used =
    let whole : min slot.len cap - 0 ≡ min slot.len cap = omega arith in
    (
      ap₂ (λ (b : Bytes) (n : ℕ). ok ((b, ltb 0 n), contents (dequeued q v)))
          (ap (λ (n : ℕ). take n slot.payload) whole ∙ sym (take-take cap slot.len slot.payload))
          (sym (length-messages_from (set q.slots q.head none) ((q.head + 1) % 16) (q.count - 1))),
      dequeued-IsRing q v some_left,
    )

-- On a ring, `dequeue` answers and acts as `receive` does on the queue of its messages, and leaves a
-- ring: it does not panic.
pub dequeue-refines :
    (q : MsgqRecord)
    → IsRing q
    → (cap : ℕ)
    → (abstracted (dequeue cap q) ≡ receive cap (contents q)) × LeavesRing (dequeue cap q)
unfolding dequeue receive messages_from
dequeue-refines q v cap = elim (Bool-cases (q.count == 0)) [
  | inl empty ↦
      let none_left : contents q ≡ [] =
        ap (λ (n : ℕ). messages_from q.slots q.head n) (let z : q.count ≡ 0 = ground arith in z) in
      rw empty (rw none_left (refl, tt))
  | inr full ↦
      let some_left : 0 < q.count = ground arith in
      let here : (q.head + 0) % 16 ≡ q.head = omega (arith, v.start) in
      rw full (
        rw (contents-dequeued q v some_left) (
          take_slot-refines q v cap (get_or q.slots q.head none) some_left
            (λ e. v.used 0 some_left (ap (λ (j : ℕ). get_or q.slots j none) here ∙ e))))
]

pub length-contents : (q : MsgqRecord) → length (contents q) ≡ q.count
length-contents q = length-messages_from q.slots q.head q.count

-- What the bounded queue answers where there is room, and where there is a message.
pub send_room :
    (depth : ℕ) (msg : Bytes) (queue : List Bytes)
    → length msg ≤ 96
    → length queue < depth
    → send depth msg queue ≡ ok (ltb (length queue + 1) depth, queue ++ (msg ∷ []))
unfolding send
send_room depth msg queue small room = ground arith

pub receive_some :
    (cap : ℕ) (msg : Bytes) (queue : List Bytes)
    → receive cap (msg ∷ queue) ≡ ok ((take cap msg, ltb 0 (length queue)), queue)
unfolding receive
receive_some cap msg queue = refl
