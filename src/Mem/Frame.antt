-- ===== src/Mem/Frame.antt =====
-- kernel/src/mem/frame.rs: the physical frame allocator, a bitmap over the DRAM window.
-- A method that panics returns `none`. The global instance and its spin lock are left out: each
-- of its functions is one method, run under the lock.
pub mod Words
pub mod Bits
pub mod Invariant
pub mod Range
pub mod Alloc
pub mod Free
pub mod Contiguous
pub mod Init
mod Tests
use tanix.Mem.{PhysAddr, page_size}
use tanix.Mem.Frame.Words.{Word, ones, zeros, test, clear, raise, is_zero, trailing_zeros}
use mathlib.Core.Option
use tanix.Prelude.{
  ℕ, zero, suc, ◌+◌, ◌-◌, ◌*◌, ◌/◌, ◌%◌, ◌^◌, min, Bool, true, false, ◌&&◌, Option, none, some,
  List, [], ◌∷◌, leb, ltb, ◌==◌, if◌then◌else◌, get_or, set, replicate, map,
}

-- 1 GiB
abbrev pub max_ram_size : ℕ
max_ram_size = 1024 * 1024 * 1024

abbrev pub max_frames : ℕ
max_frames = max_ram_size / page_size

abbrev pub bitmap_words : ℕ
bitmap_words = max_frames / 64

-- `usize` addition.
abbrev pub add_usize : ℕ → ℕ → ℕ
add_usize a b = (a + b) % 2 ^ 64

-- `x & !(PAGE_SIZE - 1)`
abbrev pub page_floor : ℕ → ℕ
page_floor x = x / page_size * page_size

-- `(x + PAGE_SIZE - 1) & !(PAGE_SIZE - 1)`
abbrev pub page_ceil : ℕ → ℕ
page_ceil x = page_floor ((x + page_size + (2 ^ 64 - 1)) % 2 ^ 64)

-- A bit that is set means that the frame is free.
pub record FrameAllocator : Type 0 where
  pub ram_start : PhysAddr
  pub ram_size : ℕ
  pub total_frames : ℕ
  pub bitmap : List Word
  pub free_frames : ℕ

unfoldable pub new_zeroed : FrameAllocator
new_zeroed = record {
  ram_start = 0;
  ram_size = 0;
  total_frames = 0;
  bitmap = replicate bitmap_words zeros;
  free_frames = 0;
}

-- `self.bitmap[frame_idx / 64] & (1u64 << (frame_idx % 64)) != 0`. An index past the bitmap
-- panics in the source; `Invariant.in_bitmap` rules it out.
abbrev pub is_free : FrameAllocator → ℕ → Bool
is_free fa idx = test (get_or fa.bitmap (idx / 64) []) (idx % 64)

unfoldable pub set_used : ℕ → FrameAllocator → FrameAllocator
set_used idx fa =
    if is_free fa idx
    then record fa {
      bitmap = set fa.bitmap (idx / 64) (clear (get_or fa.bitmap (idx / 64) []) (idx % 64));
      free_frames = fa.free_frames - 1;
    }
    else fa

unfoldable pub set_free : ℕ → FrameAllocator → FrameAllocator
set_free idx fa = if is_free fa idx then fa else record fa {
  bitmap = set fa.bitmap (idx / 64) (raise (get_or fa.bitmap (idx / 64) []) (idx % 64));
  free_frames = fa.free_frames + 1;
}

-- `for i in first..first + count { self.set_used(i); }`
unfoldable pub use_range : ℕ → ℕ → FrameAllocator → FrameAllocator
use_range zero first fa = fa
use_range (suc count) first fa = use_range count (first + 1) (set_used first fa)

-- `addr.saturating_sub(ram_start) / PAGE_SIZE`, at most `total_frames`
abbrev pub reserved_frames : PhysAddr → PhysAddr → ℕ → ℕ
reserved_frames kernel_end ram_start total =
    min ((page_ceil kernel_end - ram_start) / page_size) total

-- `init`, which asserts that the window fits the bitmap and starts on a page.
unfoldable pub init : PhysAddr → PhysAddr → ℕ → FrameAllocator → Option FrameAllocator
init kernel_end ram_start ram_size fa =
    if leb ram_size max_ram_size && ram_start % page_size == 0
    then some (
        use_range (reserved_frames kernel_end ram_start (ram_size / page_size)) 0 (record fa {
          ram_start = ram_start;
          ram_size = ram_size;
          total_frames = ram_size / page_size;
          bitmap = map (λ _. ones) fa.bitmap;
          free_frames = ram_size / page_size;
        }))
    else none

unfoldable pub phys_to_idx : PhysAddr → PhysAddr → ℕ → Option ℕ
phys_to_idx addr ram_start ram_size =
    if leb ram_start addr && ltb addr (add_usize ram_start ram_size)
    then some ((addr - ram_start) / page_size)
    else none

-- `Option::unwrap_or`
abbrev pub unwrap_or : Option ℕ → ℕ → ℕ
unwrap_or none d = d
unwrap_or (some a) d = a

unfoldable pub reserve_region : PhysAddr → ℕ → FrameAllocator → FrameAllocator
reserve_region start size fa =
    let begin_addr : ℕ = page_ceil start in
    let end_addr : ℕ = page_floor (add_usize start size) in
    let begin_idx : ℕ = unwrap_or (phys_to_idx begin_addr fa.ram_start fa.ram_size) 0 in
    let end_idx : ℕ = unwrap_or (phys_to_idx end_addr fa.ram_start fa.ram_size) fa.total_frames in
    if leb end_addr begin_addr
    then fa
    else use_range (min end_idx fa.total_frames - begin_idx) begin_idx fa

-- The body of `alloc`'s loop at the first word that is not zero.
unfoldable pub take_frame : ℕ → FrameAllocator → Option PhysAddr × FrameAllocator
take_frame idx fa =
    if leb fa.total_frames idx
    then (none, fa)
    else (some (add_usize fa.ram_start (idx * page_size)), set_used idx fa)

unfoldable pub alloc_from : List Word → ℕ → FrameAllocator → Option PhysAddr × FrameAllocator
alloc_from [] word_idx fa = (none, fa)
alloc_from (word ∷ words) word_idx fa =
    let rest = alloc_from words (word_idx + 1) fa in
    if is_zero word then rest else take_frame (word_idx * 64 + trailing_zeros word) fa

unfoldable pub alloc : FrameAllocator → Option PhysAddr × FrameAllocator
alloc fa = alloc_from fa.bitmap 0 fa

-- The loop of `alloc_contiguous`: `rounds` indices are left, from `i` on.
unfoldable pub contiguous_from :
    ℕ → ℕ → ℕ → ℕ → ℕ → FrameAllocator → Option PhysAddr × FrameAllocator
contiguous_from zero i run_start run_len n fa = (none, fa)
contiguous_from (suc rounds) i run_start run_len n fa =
    let run_start' : ℕ = (if run_len == 0 then i else run_start) in
    let longer = contiguous_from rounds (i + 1) run_start' (run_len + 1) n fa in
    let broken = contiguous_from rounds (i + 1) run_start 0 n fa in
    if is_free fa i
    then if run_len + 1 == n
      then (some (add_usize fa.ram_start (run_start' * page_size)), use_range n run_start' fa)
      else longer
    else broken

unfoldable pub alloc_contiguous : ℕ → FrameAllocator → Option PhysAddr × FrameAllocator
alloc_contiguous n fa = if n == 0 then (none, fa) else contiguous_from fa.total_frames 0 0 0 n fa

-- `free`, which panics on an address that is not aligned or out of range.
unfoldable pub free : PhysAddr → FrameAllocator → Option FrameAllocator
free addr fa =
    if addr % page_size == 0
    then Option.map (λ idx. set_free idx fa) (phys_to_idx addr fa.ram_start fa.ram_size)
    else none
