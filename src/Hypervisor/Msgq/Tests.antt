-- ===== src/Hypervisor/Msgq/Tests.antt =====
-- A message queue of kernel/src/hypervisor/backend.rs at concrete messages.
use tanix.Hypervisor.Msgq.{MsgqRecord, stored, enqueue, dequeue}
use tanix.Hypervisor.Msgq.Fifo.{
  IsRing, abstracted, LeavesRing, contents, send, receive, enqueue-refines, dequeue-refines,
}
use tanix.Prelude.{
  ℕ, ◌+◌, ◌%◌, ◌<◌, ◌≢◌, get_or, ◌≡◌, refl, zero, suc, none, some, [], ◌∷◌, arith, replicate, set,
}

-- One message in the last slot of the ring; the next one goes to the first.
abbrev at_end : MsgqRecord
at_end = record {
  handle = 3;
  owner = 1;
  head = 15;
  count = 1;
  depth = 2;
  slots = set (replicate 16 none) 15 (some (stored (7 ∷ 8 ∷ [])));
}

at_end-IsRing : IsRing at_end
at_end-IsRing = record {
  ring = refl;
  start = omega arith;
  bounded = omega arith;
  capacity = omega arith;
  used = λ k lt. one k lt;
}
  where
    one : (k : ℕ) → k < 1 → get_or at_end.slots ((15 + k) % 16) none ≢ none
    one zero lt e = cc e
    one (suc k) lt e = absurd (omega arith)

enqueue-refines_example :
    (abstracted (enqueue (9 ∷ []) at_end) ≡ send 2 (9 ∷ []) (contents at_end))
    × LeavesRing (enqueue (9 ∷ []) at_end)
enqueue-refines_example = enqueue-refines at_end at_end-IsRing (9 ∷ [])

dequeue-refines_example :
    (abstracted (dequeue 1 at_end) ≡ receive 1 (contents at_end)) × LeavesRing (dequeue 1 at_end)
dequeue-refines_example = dequeue-refines at_end at_end-IsRing 1
