-- ===== src/Ipc.antt =====
-- kernel/src/ipc: messages and the channels that carry them.
pub mod Channel
pub mod Syscall
use tanix.Prelude.{ℕ, List, replicate}

abbrev pub msg_max_bytes : ℕ
msg_max_bytes = 64

pub record Message : Type 0 where
  pub sender : ℕ
  pub opcode : ℕ
  pub payload : List ℕ
