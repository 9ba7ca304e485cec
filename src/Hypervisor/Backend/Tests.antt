-- ===== src/Hypervisor/Backend/Tests.antt =====
-- The backend of kernel/src/hypervisor/backend.rs with one virtual machine and two queues.
use tanix.Hypervisor.{ok}
use tanix.Hypervisor.Backend.{
  BareMetalBackend, VmConfig, new_backend, vm_create, find_vm, find_msgq,
}
use tanix.Hypervisor.Backend.Messages.{msgq_recv-msgq_send}
use tanix.Hypervisor.Backend.Queues.{fresh_msgq, msgq_create, msgq_send, msgq_recv}
use tanix.Hypervisor.Msgq.Fifo.{IsRing, messages_from}
use tanix.Slots
use tanix.Prelude.{ℕ, ◌≡◌, ◌≢◌, refl, true, false, some, [], ◌∷◌, arith}

abbrev guest_config : VmConfig
guest_config = record {
  ram_base = 0x4800_0000;
  ram_size = 0x10_0000;
  entry = 0x4800_0000;
  boot = (0, 0);
}

abbrev two_queues : BareMetalBackend
two_queues = (msgq_create 1 2 (msgq_create 1 4 (vm_create guest_config new_backend).1).1).1

second : find_msgq 3 two_queues ≡ some (fresh_msgq 3 1 2)
unfolding find_msgq msgq_create vm_create new_backend find_vm Slots.find Slots.fill
second = refl

second-IsRing : IsRing (fresh_msgq 3 1 2)
second-IsRing = record {
  ring = refl;
  start = omega arith;
  bounded = omega arith;
  capacity = omega arith;
  used = λ k lt. absurd (omega arith);
}

msgq_recv-msgq_send_example :
    let (sent, b') = msgq_send 3 (5 ∷ 6 ∷ []) two_queues in
    (sent ≡ ok true)
    × ((msgq_recv 3 8 b').0 ≡ ok (5 ∷ 6 ∷ [], false))
    × ((k : ℕ) → k ≢ 3 → find_msgq k b' ≡ find_msgq k two_queues)
unfolding messages_from
msgq_recv-msgq_send_example =
    msgq_recv-msgq_send 3 two_queues second second-IsRing (5 ∷ 6 ∷ []) (omega arith) (omega arith) 8
      (5 ∷ 6 ∷ []) [] refl
