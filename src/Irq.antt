-- ===== src/Irq.antt =====
-- kernel/src/irq.rs, the record of delivered interrupts, and `sys_irq_pending` and `sys_wait_irq` of
-- kernel/src/ipc/syscall.rs over it. The enabling of an interrupt at the controller and the field
-- `irq_wait` of the task, which nothing reads, are left out.
pub mod Wait
mod Tests
use tanix.Prelude.{
  ℕ, ◌-◌, ◌^◌, Bool, true, false, not, ◌&&◌, Option, none, some, List, [], ◌∷◌, ltb, leb, get_or,
  set, replicate, if◌then◌else◌,
}

abbrev pub irq_max : ℕ
irq_max = 96

abbrev pub Record : Type 0
Record = List Bool

abbrev pub no_irqs : Record
no_irqs = replicate irq_max false

unfoldable pub note_pending : ℕ → Record → Record
note_pending intid r = if ltb intid irq_max then set r intid true else r

unfoldable pub pending : ℕ → Record → Bool
pending intid r = if ltb intid irq_max then get_or r intid false else false

unfoldable pub clear_pending : ℕ → Record → Record
clear_pending intid r = if ltb intid irq_max then set r intid false else r

-- Test and clear.
unfoldable pub take_pending : ℕ → Record → Bool × Record
take_pending intid r = (pending intid r, clear_pending intid r)

-- `(16..=1019).contains(&irq)`
unfoldable pub is_device_irq : ℕ → Bool
is_device_irq irq = leb 16 irq && leb irq 1019

-- -10 as a word of 32 bits.
abbrev pub invalid_irq : ℕ
invalid_irq = 2 ^ 32 - 10

abbrev pub one_if : Bool → ℕ
one_if false = 0
one_if true = 1

unfoldable pub sys_irq_pending : ℕ → Record → ℕ × Record
sys_irq_pending irq r =
    let t = take_pending irq r in
    if is_device_irq irq then (one_if (t.0), t.1) else (invalid_irq, r)

-- The interrupts that arrive between two looks at the record.
unfoldable pub note_all : List ℕ → Record → Record
note_all [] r = r
note_all (intid ∷ rest) r = note_all rest (note_pending intid r)

-- The loop of `sys_wait_irq` against the interrupts of each round; `none` when it still waits behind the
-- last one.
unfoldable pub wait_loop : ℕ → List (List ℕ) → Record → Option Record
wait_loop irq [] r = if pending irq r then some (clear_pending irq r) else none
wait_loop irq (arrived ∷ rounds) r =
    let later = wait_loop irq rounds (note_all arrived r) in
    if pending irq r then some (clear_pending irq r) else later

abbrev pub woken_with_zero : Option Record → Option (ℕ × Record)
woken_with_zero none = none
woken_with_zero (some r) = some (0, r)

unfoldable pub sys_wait_irq : ℕ → List (List ℕ) → Record → Option (ℕ × Record)
sys_wait_irq irq rounds r =
    let t = take_pending irq r in
    let waited = woken_with_zero (wait_loop irq rounds (t.1)) in
    if not (is_device_irq irq)
    then some (invalid_irq, r)
    else (if t.0 then some (0, t.1) else waited)
