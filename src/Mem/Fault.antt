-- ===== src/Mem/Fault.antt =====
-- kernel/src/mem/vm_fault.rs: the repair of page faults of tasks. The current task's table and regions
-- and the address of the shared zero page are arguments.
pub mod Split
pub mod Regions
pub mod Repairs
mod Tests
use Prim.Native.Nat.{bit_or}
use tanix.Mem.{PhysAddr, page_size}
use tanix.Mem.Frame.{FrameAllocator, alloc}
use tanix.Mem.PageTable.{
  Memory, is_valid, address_of, flags_user_rwx, flags_user_cow, desc_af, ◌>>=◌, map_user_frame,
  read_user_page, write_user_page,
}
use tanix.Sched.Regions.{end_of}
use tanix.Sched.{TaskRegion}
use tanix.Prelude.{
  ℕ, ◌+◌, ◌*◌, ◌/◌, ◌%◌, ◌^◌, Bool, true, false, not, ◌&&◌, ◌||◌, Option, none, some, List, [], ◌∷◌,
  leb, ltb, ◌==◌, if◌then◌else◌,
}

abbrev pub region_stack : ℕ
region_stack = 1

abbrev pub region_demand : ℕ
region_demand = 2

-- The classes of faults: translation, access flag and permission.
abbrev pub dfsc_tt_first : ℕ
dfsc_tt_first = 4

abbrev pub dfsc_af_first : ℕ
dfsc_af_first = 8

abbrev pub dfsc_perm_first : ℕ
dfsc_perm_first = 12

unfoldable pub in_class : (dfsc first : ℕ) → Bool
in_class dfsc first = leb first dfsc && leb dfsc (first + 3)

-- `entry & DESC_COW_TAG != 0`, `entry & DESC_AF == 0`
abbrev pub is_cow : ℕ → Bool
is_cow e = is_valid e && e / 2 ^ 11 % 2 == 1

abbrev pub needs_af : ℕ → Bool
needs_af e = is_valid e && e / 2 ^ 10 % 2 == 0

unfoldable pub covers : ℕ → TaskRegion → Bool
covers page r = leb r.base page && ltb page (end_of r)

abbrev pub is_growable : TaskRegion → Bool
is_growable r = r.kind == region_stack || r.kind == region_demand

-- The first region that passes a test.
unfoldable pub find_region : (TaskRegion → Bool) → List TaskRegion → Option TaskRegion
find_region test [] = none
find_region test (r ∷ rest) = if test r then some r else find_region test rest

-- Whether the fault is repaired, and the memory.
abbrev pub Outcome : Type 0
Outcome = Option (Bool × Memory)

abbrev pub repaired : Option Memory → Outcome
repaired s = s >>= λ s'. some (true, s')

-- A page of a stack is mapped to itself, a page of a demand window to the zero page.
unfoldable pub open_page : (root page zero_page : PhysAddr) → TaskRegion → Memory → Outcome
open_page root page zero_page r s =
    if r.kind == region_stack
    then repaired (map_user_frame root page page flags_user_rwx s)
    else (if r.kind == region_demand
        then repaired (map_user_frame root page zero_page flags_user_cow s)
        else some (false, s))

abbrev pub open_in : (root page zero_page : PhysAddr) → Memory → Option TaskRegion → Outcome
open_in root page zero_page s none = some (false, s)
open_in root page zero_page s (some r) = open_page root page zero_page r s

-- `copy_nonoverlapping` of a frame
unfoldable pub copy_frame : (from to : PhysAddr) → Memory → Memory
copy_frame from to s = record s { word = λ t i. if t == to then s.word from i else s.word t i }

abbrev pub split_onto : (root va e : ℕ) → Memory → Option PhysAddr × FrameAllocator → Bool × Memory
split_onto root va e s (none, frames) = (false, record s { frames = frames })
split_onto root va e s (some fresh, frames) = (
  true,
  write_user_page root va (bit_or fresh flags_user_rwx)
      (copy_frame (address_of e) fresh (record s { frames = frames })),
)

-- The page becomes a private copy.
unfoldable pub cow_split : (root va e : ℕ) → Memory → Bool × Memory
cow_split root va e s = split_onto root va e s (alloc s.frames)

unfoldable pub on_translation :
    (root page zero_page : PhysAddr) → List TaskRegion → Memory → Outcome
on_translation root page zero_page regions s =
    open_in root page zero_page s (find_region (λ r. is_growable r && covers page r) regions)

unfoldable pub on_permission : (root page zero_page : PhysAddr) → List TaskRegion → Memory → Outcome
on_permission root page zero_page regions s =
    let e = read_user_page root page s in
    if is_cow e
    then some (cow_split root page e s)
    else open_in root page zero_page s (find_region (covers page) regions)

unfoldable pub on_access_flag : (root page : PhysAddr) → Memory → Outcome
on_access_flag root page s =
    let e = read_user_page root page s in
    if is_cow e
    then some (cow_split root page e s)
    else (if needs_af e
        then some (true, write_user_page root page (bit_or e desc_af) s)
        else some (false, s))

-- `root` is 0 for a kernel context.
unfoldable pub resolve_user_fault :
    (far esr : ℕ) (root zero_page : PhysAddr) → List TaskRegion → Memory → Outcome
resolve_user_fault far esr root zero_page regions s =
    let d = esr % 2 ^ 6 in
    let page = far / page_size * page_size in
    if root == 0
    then some (false, s)
    else (if in_class d dfsc_tt_first
        then on_translation root page zero_page regions s
        else (if in_class d dfsc_perm_first
            then on_permission root page zero_page regions s
            else (if in_class d dfsc_af_first
                then on_access_flag root page s
                else some (false, s))))
