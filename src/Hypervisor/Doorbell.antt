-- ===== src/Hypervisor/Doorbell.antt =====
-- kernel/src/hypervisor/doorbell.rs: the table of doorbells and its counts. A handle is its number.
pub mod Counts
use mathlib.Core.Option
use tanix.Prelude.{
  ℕ, ◌+◌, ◌%◌, ◌^◌, Bool, true, false, Option, none, some, List, [], ◌∷◌, replicate, ◌==◌,
  if◌then◌else◌,
}

pub record DoorbellEntry : Type 0 where
  pub handle : ℕ
  pub owner_vm : ℕ
  pub irq : ℕ
  pub enable_mask : ℕ
  pub ack_mask : ℕ
  pub rings : ℕ
  pub deliveries : ℕ

abbrev pub max_doorbells : ℕ
max_doorbells = 8

pub record DoorbellTable : Type 0 where
  pub entries : List (Option DoorbellEntry)
  pub next_handle : ℕ

unfoldable pub new_doorbells : DoorbellTable
new_doorbells = record { entries = replicate max_doorbells none; next_handle = 1 }

-- `u64` and `u32` additions of one.
abbrev pub next_u64 : ℕ → ℕ
next_u64 v = (v + 1) % 2 ^ 64

abbrev pub next_u32 : ℕ → ℕ
next_u32 v = (v + 1) % 2 ^ 32

-- The first free slot takes the entry.
unfoldable pub fill_slot :
    DoorbellEntry → List (Option DoorbellEntry) → Option (List (Option DoorbellEntry))
fill_slot e [] = none
fill_slot e (none ∷ rest) = some (some e ∷ rest)
fill_slot e (some d ∷ rest) =
    Option.map (λ (t : List (Option DoorbellEntry)). some d ∷ t) (fill_slot e rest)

abbrev pub fresh_entry : ℕ → ℕ → ℕ → DoorbellEntry
fresh_entry handle owner_vm irq = record {
  handle = handle;
  owner_vm = owner_vm;
  irq = irq;
  enable_mask = 0;
  ack_mask = 0;
  rings = 0;
  deliveries = 0;
}

unfoldable pub register : ℕ → ℕ → DoorbellTable → Option ℕ × DoorbellTable
register owner_vm irq t = elim (fill_slot (fresh_entry t.next_handle owner_vm irq) t.entries) [
  | none ↦ (none, t)
  | some slots ↦
      (some t.next_handle, record t { entries = slots; next_handle = next_u32 t.next_handle })
]

-- The first entry that the test finds.
unfoldable pub find_by : (DoorbellEntry → Bool) → List (Option DoorbellEntry) → Option DoorbellEntry
find_by test [] = none
find_by test (none ∷ rest) = find_by test rest
find_by test (some e ∷ rest) = let later = find_by test rest in if test e then some e else later

-- A change of that entry: `none` where there is none.
unfoldable pub change :
    (DoorbellEntry → Bool)
    → (DoorbellEntry → DoorbellEntry)
    → List (Option DoorbellEntry)
    → Option (List (Option DoorbellEntry))
change test f [] = none
change test f (none ∷ rest) =
    Option.map (λ (t : List (Option DoorbellEntry)). none ∷ t) (change test f rest)
change test f (some e ∷ rest) =
    let later = Option.map (λ (t : List (Option DoorbellEntry)). some e ∷ t) (change test f rest) in
    if test e then some (some (f e) ∷ rest) else later

-- The entry of a handle, and the one of an interrupt.
abbrev pub has_handle : ℕ → DoorbellEntry → Bool
has_handle handle e = e.handle == handle

abbrev pub has_irq : ℕ → DoorbellEntry → Bool
has_irq intid e = e.irq == intid

-- `none` stands for `Err(HvError::InvalidHandle)`.
abbrev pub changed : DoorbellTable → Option (List (Option DoorbellEntry)) → Option DoorbellTable
changed t slots = Option.map (λ (s : List (Option DoorbellEntry)). record t { entries = s }) slots

unfoldable pub set_mask : ℕ → ℕ → ℕ → DoorbellTable → Option DoorbellTable
set_mask handle enable ack t = changed t (
    change (has_handle handle)
      (λ (e : DoorbellEntry). record e { enable_mask = enable; ack_mask = ack }) t.entries)

unfoldable pub find_doorbell : ℕ → DoorbellTable → Option DoorbellEntry
find_doorbell handle t = find_by (has_handle handle) t.entries

abbrev pub ring : DoorbellEntry → DoorbellEntry
ring e = record e { rings = next_u64 e.rings }

-- The interrupt to send and the table with the ring counted.
abbrev pub rung :
    DoorbellTable
    → Option DoorbellEntry
    → Option (List (Option DoorbellEntry))
    → Option (ℕ × DoorbellTable)
rung t none slots = none
rung t (some e) none = none
rung t (some e) (some slots) = some (e.irq, record t { entries = slots })

-- The ring is counted; the interrupt that it raises comes back, to be sent to CPU 0.
unfoldable pub ring_sgi : ℕ → DoorbellTable → Option (ℕ × DoorbellTable)
ring_sgi handle t =
    rung t (find_by (has_handle handle) t.entries) (change (has_handle handle) ring t.entries)

abbrev pub unwrap_slots :
    List (Option DoorbellEntry) → Option (List (Option DoorbellEntry)) → List (Option DoorbellEntry)
unwrap_slots slots none = slots
unwrap_slots slots (some slots') = slots'

-- An interrupt that no doorbell has is logged only.
unfoldable pub note_delivery : ℕ → DoorbellTable → DoorbellTable
note_delivery intid t = record t {
  entries = unwrap_slots t.entries (
      change (has_irq intid)
        (λ (e : DoorbellEntry). record e { deliveries = next_u64 e.deliveries }) t.entries);
}

unfoldable pub stats : ℕ → DoorbellTable → Option (ℕ × ℕ)
stats handle t =
    Option.map (λ (e : DoorbellEntry). (e.rings, e.deliveries)) (find_doorbell handle t)
