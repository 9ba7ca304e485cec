-- ===== src/Mem.antt =====
-- kernel/src/mem/mod.rs: physical addresses, and the page size that the allocator shares.
pub mod Frame
pub mod PageTable
pub mod Fault
use tanix.Prelude.{ℕ}

-- `PhysAddr`, a `usize`.
abbrev pub PhysAddr : Type 0
PhysAddr = ℕ

abbrev pub page_size : ℕ
page_size = 4096
