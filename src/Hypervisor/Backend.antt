-- ===== src/Hypervisor/Backend.antt =====
-- kernel/src/hypervisor/backend.rs, `BareMetalBackend`: the tables of virtual machines and of message
-- queues. Entering the guest, which is assembly, is an argument of `vcpu_run`.
pub mod Queues
pub mod Messages
mod Tests
use tanix.Bytes.{Bytes}
use tanix.Hypervisor.{HvError, HvResult, ok, err, panics}
use tanix.Hypervisor.Msgq.{MsgqRecord, msgq_slots, enqueue, dequeue}
use tanix.Sched.{Context, zeroed, kernel_context}
use tanix.Slots
use tanix.Prelude.{
  ℕ, zero, suc, ◌+◌, ◌%◌, ◌^◌, min, Bool, true, false, ◌&&◌, Option, none, some, List, [], ◌∷◌,
  replicate, ltb, ◌==◌, if◌then◌else◌,
}

abbrev pub max_vms : ℕ
max_vms = 4

abbrev pub max_msgq : ℕ
max_msgq = 8

abbrev pub spsr_guest : ℕ
spsr_guest = 0x345

pub record VmRecord : Type 0 where
  pub handle : ℕ
  pub ram_base : ℕ
  pub ram_size : ℕ
  pub entry : ℕ
  pub boot : ℕ × ℕ
  pub started : Bool
  pub running : Bool
  pub in_guest : Bool
  pub preempted : Bool
  pub budget_ticks : ℕ
  pub kernel_ctx : Context
  pub guest_ctx : Context

pub record VmConfig : Type 0 where
  pub ram_base : ℕ
  pub ram_size : ℕ
  pub entry : ℕ
  pub boot : ℕ × ℕ

pub data VcpuExit : Type 0 where
  yielded preempted : VcpuExit

pub record BareMetalBackend : Type 0 where
  pub vms : List (Option VmRecord)
  pub msgqs : List (Option MsgqRecord)
  pub next_handle : ℕ

unfoldable pub new_backend : BareMetalBackend
new_backend = record {
  vms = replicate max_vms none;
  msgqs = replicate max_msgq none;
  next_handle = 1;
}

abbrev pub is_vm : ℕ → VmRecord → Bool
is_vm handle v = v.handle == handle

abbrev pub is_msgq : ℕ → MsgqRecord → Bool
is_msgq handle q = q.handle == handle

unfoldable pub find_vm : ℕ → BareMetalBackend → Option VmRecord
find_vm handle b = Slots.find (is_vm handle) b.vms

unfoldable pub find_msgq : ℕ → BareMetalBackend → Option MsgqRecord
find_msgq handle b = Slots.find (is_msgq handle) b.msgqs

abbrev pub next_u32 : ℕ → ℕ
next_u32 v = (v + 1) % 2 ^ 32

abbrev pub fresh_vm : ℕ → VmConfig → VmRecord
fresh_vm handle config = record {
  handle = handle;
  ram_base = config.ram_base;
  ram_size = config.ram_size;
  entry = config.entry;
  boot = config.boot;
  started = false;
  running = false;
  in_guest = false;
  preempted = false;
  budget_ticks = 0;
  kernel_ctx = zeroed;
  guest_ctx = zeroed;
}

-- An answer and the backend behind it.
abbrev pub Answer {ℓ} : Type ℓ → Type ℓ
Answer A = HvResult A × BareMetalBackend

abbrev pub vm_created : ℕ → BareMetalBackend → Option (ℕ × List (Option VmRecord)) → Answer ℕ
vm_created handle b none = (err HvError.no_memory, b)
vm_created handle b (some r) = (ok handle, record b { vms = r.1 })

-- The handle is used up whether or not there is a slot.
unfoldable pub vm_create : VmConfig → BareMetalBackend → Answer ℕ
vm_create config b =
    vm_created b.next_handle (record b { next_handle = next_u32 b.next_handle })
      (Slots.fill (fresh_vm b.next_handle config) b.vms)

-- The slot of the virtual machine becomes free.
unfoldable pub remove_vm : ℕ → List (Option VmRecord) → List (Option VmRecord)
remove_vm handle [] = []
remove_vm handle (none ∷ rest) = none ∷ remove_vm handle rest
remove_vm handle (some v ∷ rest) =
    let later = some v ∷ remove_vm handle rest in if v.handle == handle then none ∷ rest else later

abbrev pub vm_destroyed : ℕ → BareMetalBackend → Option VmRecord → Answer (Unit {0})
vm_destroyed handle b none = (err HvError.invalid_handle, b)
vm_destroyed handle b (some v) =
    if v.running
    then (err HvError.bad_state, b)
    else (ok tt, record b { vms = remove_vm handle b.vms })

unfoldable pub vm_destroy : ℕ → BareMetalBackend → Answer (Unit {0})
vm_destroy handle b = vm_destroyed handle b (find_vm handle b)

abbrev pub on_vm : ℕ → (VmRecord → VmRecord) → BareMetalBackend → BareMetalBackend
on_vm handle f b = record b { vms = Slots.update (is_vm handle) f b.vms }

-- The context of the first run, the status register of a run that does not resume through
-- `restore_preempted_guest` at the address `restore`, and a fresh time slice. `kernel_l0` is the kernel's
-- page table.
unfoldable pub prime : (kernel_l0 restore quantum : ℕ) → VmRecord → VmRecord
prime kernel_l0 restore quantum v =
    let ctx =
      (if v.started
        then v.guest_ctx
        else kernel_context kernel_l0 v.entry (v.ram_base + v.ram_size)) in
    record v {
      started = true;
      guest_ctx = (if ctx.lr == restore then ctx else record ctx { spsr = spsr_guest });
      budget_ticks = quantum;
    }

abbrev pub exit_reason : Option VmRecord → VcpuExit
exit_reason none = VcpuExit.yielded
exit_reason (some v) = if v.preempted then VcpuExit.preempted else VcpuExit.yielded

-- `guest` is what happens between the entry and the return. The globals that name the running vCPU for
-- the tick are left out.
abbrev pub vcpu_entered :
    (kernel_l0 restore quantum : ℕ)
    → (BareMetalBackend → BareMetalBackend)
    → ℕ
    → BareMetalBackend
    → Option VmRecord
    → Answer VcpuExit
vcpu_entered kernel_l0 restore quantum guest handle b none = (err HvError.invalid_handle, b)
vcpu_entered kernel_l0 restore quantum guest handle b (some v) =
    let enter = λ (w : VmRecord). record (prime kernel_l0 restore quantum w) {
      running = true;
      in_guest = true;
    } in
    let leave = λ (w : VmRecord). record w { running = false; in_guest = false } in
    let b' = on_vm handle leave (guest (on_vm handle enter b)) in
    if v.running then (err HvError.bad_state, b) else (
      ok (exit_reason (find_vm handle b')),
      on_vm handle (λ (w : VmRecord). record w { preempted = false }) b',
    )

unfoldable pub vcpu_run :
    (kernel_l0 restore quantum : ℕ)
    → (BareMetalBackend → BareMetalBackend)
    → ℕ
    → ℕ
    → BareMetalBackend
    → Answer VcpuExit
vcpu_run kernel_l0 restore quantum guest handle vcpu b =
    if vcpu == 0
    then vcpu_entered kernel_l0 restore quantum guest handle b (find_vm handle b)
    else (err HvError.not_supported, b)

abbrev pub vcpu_stopped : ℕ → BareMetalBackend → Option VmRecord → Answer (Unit {0})
vcpu_stopped handle b none = (err HvError.invalid_handle, b)
vcpu_stopped handle b (some v) =
    if v.running
    then (err HvError.bad_state, b)
    else (ok tt, on_vm handle (λ (w : VmRecord). record w { started = false }) b)

unfoldable pub vcpu_stop : ℕ → BareMetalBackend → Answer (Unit {0})
vcpu_stop handle b = vcpu_stopped handle b (find_vm handle b)
