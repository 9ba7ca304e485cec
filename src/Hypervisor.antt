-- ===== src/Hypervisor.antt =====
-- kernel/src/hypervisor: what a virtual machine is offered, its results and its limits.
pub mod Doorbell
pub mod Msgq
pub mod Backend
use tanix.Prelude.{ℕ}

pub data HvError : Type 0 where
  not_supported no_memory invalid_handle bad_state empty full bad_message : HvError
  hypercall_failed : ℕ → HvError

-- `Result<A, HvError>`, and the panic of an `unwrap`.
pub data HvResult {ℓ} (A : Type ℓ) : Type ℓ where
  ok : A → HvResult A
  err : HvError → HvResult A
  panics : HvResult A

abbrev pub map_ok {ℓ κ} : {A : Type ℓ} {B : Type κ} → (A → B) → HvResult A → HvResult B
map_ok f (ok a) = ok (f a)
map_ok f (err e) = err e
map_ok f panics = panics

abbrev pub msgq_max_msg_size : ℕ
msgq_max_msg_size = 96
