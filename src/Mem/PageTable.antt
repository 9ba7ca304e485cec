-- ===== src/Mem/PageTable.antt =====
-- kernel/src/mem/page_table.rs: page tables of four levels in physical memory. `none` is the panic of
-- `expect` or of an assertion. The table writes are plain stores; the flushes of the translation
-- buffer behind them, and the start of the MMU, are left out.
pub mod Descriptor
pub mod Tree
pub mod Opened
pub mod Ensure
pub mod Map
pub mod Rewrite
mod Tests
use Prim.Native.Nat.{bit_or}
use tanix.Mem.{PhysAddr, page_size}
use tanix.Mem.Frame.{FrameAllocator, alloc, free, reserve_region}
use tanix.Prelude.{
  ℕ, zero, suc, ◌+◌, ◌-◌, ◌*◌, ◌/◌, ◌%◌, ◌^◌, Bool, true, false, not, ◌&&◌, ◌||◌, Option, none,
  some, ltb, leb, ◌==◌, if◌then◌else◌,
}

-- The flags are distinct bits, so that `+` is `|` here.
abbrev pub desc_valid : ℕ
desc_valid = 1

abbrev pub desc_table : ℕ
desc_table = 2

abbrev pub desc_page : ℕ
desc_page = 2

abbrev pub desc_af : ℕ
desc_af = 2 ^ 10

abbrev pub desc_sh_inner : ℕ
desc_sh_inner = 3 * 2 ^ 8

abbrev pub desc_ap_rw_el0 : ℕ
desc_ap_rw_el0 = 2 ^ 6

abbrev pub desc_uxn : ℕ
desc_uxn = 2 ^ 54

abbrev pub desc_pxn : ℕ
desc_pxn = 2 ^ 53

abbrev pub attr_device : ℕ
attr_device = 2 ^ 2

abbrev pub desc_cow_tag : ℕ
desc_cow_tag = 2 ^ 11

abbrev pub flags_kernel_rwx : ℕ
flags_kernel_rwx = desc_valid + desc_page + desc_af + desc_sh_inner

abbrev pub flags_user_rwx : ℕ
flags_user_rwx = desc_valid + desc_page + desc_af + desc_sh_inner + desc_ap_rw_el0

abbrev pub flags_user_cow : ℕ
flags_user_cow = desc_valid + desc_page + desc_af + desc_sh_inner + 3 * 2 ^ 6 + desc_cow_tag

-- The frame allocator, and the 64-bit words of each frame by its address and their index.
pub record Memory : Type 0 where
  pub frames : FrameAllocator
  pub word : PhysAddr → ℕ → ℕ

infixl 5 ◌>>=◌
abbrev pub ◌>>=◌ {ℓ κ} : {A : Type ℓ} {B : Type κ} → Option A → (A → Option B) → Option B
none >>= f = none
some a >>= f = f a

-- `e & DESC_VALID != 0`
abbrev pub is_valid : ℕ → Bool
is_valid e = e % 2 == 1

-- `e & DESC_TABLE != 0`
abbrev pub has_table_bit : ℕ → Bool
has_table_bit e = e / 2 % 2 == 1

-- `e & 0x0000_FFFF_FFFF_F000`
abbrev pub address_of : ℕ → PhysAddr
address_of e = e / 2 ^ 12 % 2 ^ 36 * 2 ^ 12

-- `child | DESC_VALID | DESC_TABLE`
abbrev pub table_entry : PhysAddr → ℕ
table_entry child = bit_or (bit_or child desc_valid) desc_table

unfoldable pub l0_idx : ℕ → ℕ
l0_idx va = va / 2 ^ 39 % 512

unfoldable pub l1_idx : ℕ → ℕ
l1_idx va = va / 2 ^ 30 % 512

unfoldable pub l2_idx : ℕ → ℕ
l2_idx va = va / 2 ^ 21 % 512

unfoldable pub l3_idx : ℕ → ℕ
l3_idx va = va / 2 ^ 12 % 512

abbrev pub entry : PhysAddr → ℕ → Memory → ℕ
entry t idx s = s.word t idx

unfoldable pub set_entry : PhysAddr → ℕ → ℕ → Memory → Memory
set_entry t idx val s = record s {
  word = λ t' idx'. if t' == t && idx' == idx then val else s.word t' idx';
}

-- `PageTable::zero`
unfoldable pub clear_table : PhysAddr → Memory → Memory
clear_table t s = record s { word = λ t' idx'. if t' == t then 0 else s.word t' idx' }

abbrev pub with_frames : Memory → Option PhysAddr × FrameAllocator → Option (PhysAddr × Memory)
with_frames s (none, frames) = none
with_frames s (some phys, frames) = some (phys, record s { frames = frames })

-- `alloc_frame().expect(...)`
unfoldable pub expect_frame : Memory → Option (PhysAddr × Memory)
expect_frame s = with_frames s (alloc s.frames)

unfoldable pub alloc_table : Memory → Option (PhysAddr × Memory)
alloc_table s = expect_frame s >>= λ r. some (r.0, clear_table r.0 r.1)

-- The table that an entry points to, a new one where the entry is empty.
unfoldable pub ensure_table : PhysAddr → ℕ → Memory → Option (PhysAddr × Memory)
ensure_table t idx s =
    let e = entry t idx s in
    let fresh = alloc_table s >>= λ r. some (r.0, set_entry t idx (table_entry r.0) r.1) in
    if is_valid e then some (address_of e, s) else fresh

-- The frame is also reserved, which changes nothing of a frame that is allocated.
unfoldable pub alloc_table_frame : Memory → Option (PhysAddr × Memory)
alloc_table_frame s = expect_frame s >>= λ r.
    some (r.0, record r.1 { frames = reserve_region r.0 page_size r.1.frames })

-- One page of a task's table, `root`.
unfoldable pub map_user_frame :
    (root : PhysAddr) (va : ℕ) (pa : PhysAddr) (flags : ℕ) → Memory → Option Memory
map_user_frame root va pa flags s = ensure_table root (l0_idx va) s >>= λ r1.
    ensure_table r1.0 (l1_idx va) r1.1 >>= λ r2. ensure_table r2.0 (l2_idx va) r2.1 >>= λ r3.
    some (set_entry r3.0 (l3_idx va) (bit_or pa flags) r3.1)

-- The descriptor of a page, 0 where there is no table for it.
unfoldable pub read_user_page : (root : PhysAddr) (va : ℕ) → Memory → ℕ
read_user_page root va s =
    let l0e = entry root (l0_idx va) s in
    let l1e = entry (address_of l0e) (l1_idx va) s in
    let l2e = entry (address_of l1e) (l2_idx va) s in
    if not (is_valid l0e)
    then 0
    else (if not (is_valid l1e)
        then 0
        else (if not (is_valid l2e) || not (has_table_bit l2e)
            then 0
            else entry (address_of l2e) (l3_idx va) s))

unfoldable pub write_user_page : (root : PhysAddr) (va val : ℕ) → Memory → Memory
write_user_page root va val s =
    let l1 = address_of (entry root (l0_idx va) s) in
    let l2 = address_of (entry l1 (l1_idx va) s) in
    let l3 = address_of (entry l2 (l2_idx va) s) in set_entry l3 (l3_idx va) val s

-- `e & DESC_VALID != 0 && e & DESC_TABLE == 0`
abbrev pub is_block : ℕ → Bool
is_block e = is_valid e && not (has_table_bit e)

-- In the kernel's own table, `root`. Nothing changes below a block.
unfoldable pub map_page :
    (root : PhysAddr) (va : ℕ) (pa : PhysAddr) (flags : ℕ) → Memory → Option Memory
map_page root va pa flags s = ensure_table root (l0_idx va) s >>= λ r1.
    ensure_table r1.0 (l1_idx va) r1.1 >>= λ r2.
    let opened = ensure_table r2.0 (l2_idx va) r2.1 >>= λ r3.
    some (set_entry r3.0 (l3_idx va) (bit_or (bit_or pa flags) desc_page) r3.1) in
    if is_block (entry r2.0 (l2_idx va) r2.1) then some r2.1 else opened

-- `pages` pages from `pa` on, to themselves.
unfoldable pub map_pages : ℕ → (root pa : PhysAddr) (flags : ℕ) → Memory → Option Memory
map_pages zero root pa flags s = some s
map_pages (suc pages) root pa flags s =
    map_page root pa pa flags s >>= map_pages pages root (pa + page_size) flags

unfoldable pub map_range : (root pa : PhysAddr) (size flags : ℕ) → Memory → Option Memory
map_range root pa size flags s = map_pages ((size + (page_size - 1)) / page_size) root pa flags s

abbrev pub block_size : ℕ
block_size = 2 * 1024 * 1024

-- `blocks` blocks from `va` and `pa` on, all in the table `l2`.
unfoldable pub set_blocks :
    ℕ → (l2 : PhysAddr) (va : ℕ) (pa : PhysAddr) (flags : ℕ) → Memory → Memory
set_blocks zero l2 va pa flags s = s
set_blocks (suc blocks) l2 va pa flags s =
    set_blocks blocks l2 (va + block_size) (pa + block_size) flags
      (set_entry l2 (l2_idx va) (bit_or pa flags) s)

unfoldable pub map_block :
    (root : PhysAddr) (va : ℕ) (pa : PhysAddr) (size flags : ℕ) → Memory → Option Memory
map_block root va pa size flags s =
    let mapped = ensure_table root (l0_idx va) s >>= λ r1.
    ensure_table r1.0 (l1_idx va) r1.1 >>= λ r2.
    some (set_blocks ((size + (block_size - 1)) / block_size) r2.0 va pa flags r2.1) in
    if va % block_size == 0 && pa % block_size == 0 then mapped else none
