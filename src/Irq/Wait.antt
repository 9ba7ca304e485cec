-- ===== src/Irq/Wait.antt =====
-- For which interrupts the wait of kernel/src/ipc/syscall.rs ends.
use tanix.Irq.{
  irq_max, Record, note_pending, pending, clear_pending, take_pending, is_device_irq, note_all,
  wait_loop, woken_with_zero, sys_wait_irq,
}
use tanix.Prelude.{
  ℕ, ◌<◌, ◌≤◌, ◌≡◌, ◌≢◌, refl, sym, ap, ◌∙◌, true, false, Option, none, some, List, [], ◌∷◌, ltb,
  leb, length, length-set, get_or-set_self, get_or-set_ne, arith, Bool-cases, inl, inr,
}
use native.Mathlib.Decide.{ℕ_discrete}

pub data Arrives (irq : ℕ) : List ℕ → Type 0 where
  now : {rest : List ℕ} → Arrives irq (irq ∷ rest)
  later : {intid : ℕ} {rest : List ℕ} → Arrives irq rest → Arrives irq (intid ∷ rest)

-- The interrupt arrives in one of the rounds.
pub data Delivered (irq : ℕ) : List (List ℕ) → Type 0 where
  first :
      {arrived : List ℕ} {rounds : List (List ℕ)}
      → Arrives irq arrived
      → Delivered irq (arrived ∷ rounds)
  next :
      {arrived : List ℕ} {rounds : List (List ℕ)}
      → Delivered irq rounds
      → Delivered irq (arrived ∷ rounds)

note_pending-length : (intid : ℕ) (r : Record) → length (note_pending intid r) ≡ length r
unfolding note_pending
note_pending-length intid r = ground (arith, length-set r intid true)

clear_pending-length : (intid : ℕ) (r : Record) → length (clear_pending intid r) ≡ length r
unfolding clear_pending
clear_pending-length intid r = ground (arith, length-set r intid false)

note_all-length : (arrived : List ℕ) (r : Record) → length (note_all arrived r) ≡ length r
unfolding note_all
note_all-length [] r = refl
note_all-length (intid ∷ rest) r =
    note_all-length rest (note_pending intid r) ∙ note_pending-length intid r

pending-note_pending :
    (irq : ℕ) (r : Record)
    → irq < irq_max
    → length r ≡ irq_max
    → pending irq (note_pending irq r) ≡ true
unfolding pending note_pending
pending-note_pending irq r small len =
    let in_table : ltb irq irq_max ≡ true = ground (arith, small) in
    rw (in_table) (get_or-set_self r irq true false (omega (arith, small, len)))

pending-small : (irq : ℕ) (r : Record) → pending irq r ≡ true → irq < irq_max
unfolding pending
pending-small irq r p = ground (arith, p)

pending-note_pending_ne :
    (irq intid : ℕ) (r : Record) → irq ≢ intid → pending irq (note_pending intid r) ≡ pending irq r
unfolding pending note_pending
pending-note_pending_ne irq intid r ne =
    ground (arith, get_or-set_ne r intid irq true false (λ e. ne (sym e)))

-- What is recorded stays.
pending_kept :
    (irq intid : ℕ) (r : Record)
    → length r ≡ irq_max
    → pending irq r ≡ true
    → pending irq (note_pending intid r) ≡ true
pending_kept irq intid r len p = elim (ℕ_discrete irq intid) [
  | yes m ↦
      ap (λ (n : ℕ). pending irq (note_pending n r)) (sym m)
      ∙ pending-note_pending irq r (pending-small irq r p) len
  | no m ↦ pending-note_pending_ne irq intid r m ∙ p
]

pending-note_all :
    (irq : ℕ) (arrived : List ℕ) (r : Record)
    → length r ≡ irq_max
    → pending irq r ≡ true
    → pending irq (note_all arrived r) ≡ true
unfolding note_all
pending-note_all irq [] r len p = p
pending-note_all irq (intid ∷ rest) r len p =
    pending-note_all irq rest (note_pending intid r) (note_pending-length intid r ∙ len)
      (pending_kept irq intid r len p)

pending-Arrives :
    (irq : ℕ) (arrived : List ℕ) (r : Record)
    → irq < irq_max
    → length r ≡ irq_max
    → Arrives irq arrived
    → pending irq (note_all arrived r) ≡ true
unfolding note_all
pending-Arrives irq [] r small len a = elim a [ ]
pending-Arrives irq (intid ∷ rest) r small len now =
    pending-note_all irq rest (note_pending irq r) (note_pending-length irq r ∙ len)
      (pending-note_pending irq r small len)
pending-Arrives irq (intid ∷ rest) r small len (later a) =
    pending-Arrives irq rest (note_pending intid r) small (note_pending-length intid r ∙ len) a

cleared : (irq : ℕ) (r : Record) → length r ≡ irq_max → pending irq (clear_pending irq r) ≡ false
unfolding pending clear_pending
cleared irq r len = elim (Bool-cases (ltb irq irq_max)) [
  | inl small ↦ rw small (get_or-set_self r irq false false (ground (arith, small, len)))
  | inr large ↦ rw large refl
]

-- The loop ends, with the interrupt no longer recorded.
abbrev Ends : ℕ → Option Record → Type 0
Ends irq none = ¬ Unit
Ends irq (some r) = pending irq r ≡ false

wait_loop-now :
    (irq : ℕ) (rounds : List (List ℕ)) (r : Record)
    → length r ≡ irq_max
    → pending irq r ≡ true
    → Ends irq (wait_loop irq rounds r)
unfolding wait_loop
wait_loop-now irq [] r len p = rw p (cleared irq r len)
wait_loop-now irq (arrived ∷ rounds) r len p = rw p (cleared irq r len)

wait_loop-Ends :
    (irq : ℕ) (rounds : List (List ℕ)) (r : Record)
    → irq < irq_max
    → length r ≡ irq_max
    → Delivered irq rounds
    → Ends irq (wait_loop irq rounds r)
unfolding wait_loop
wait_loop-Ends irq [] r small len d = elim d [ ]
wait_loop-Ends irq (arrived ∷ rounds) r small len (first a) = elim (Bool-cases (pending irq r)) [
  | inl p ↦ rw p (cleared irq r len)
  | inr out ↦ rw out (
      wait_loop-now irq rounds (note_all arrived r) (note_all-length arrived r ∙ len)
        (pending-Arrives irq arrived r small len a))
]
wait_loop-Ends irq (arrived ∷ rounds) r small len (next d) = elim (Bool-cases (pending irq r)) [
  | inl p ↦ rw p (cleared irq r len)
  | inr out ↦
      rw out
        (wait_loop-Ends irq rounds (note_all arrived r) small (note_all-length arrived r ∙ len) d)
]

-- The call returns 0, with the interrupt no longer recorded.
abbrev pub Serves : ℕ → Option (ℕ × Record) → Type 0
Serves irq none = ¬ Unit
Serves irq (some x) = (x.0 ≡ 0) × (pending irq (x.1) ≡ false)

Ends-Serves : (irq : ℕ) (o : Option Record) → Ends irq o → Serves irq (woken_with_zero o)
Ends-Serves irq none h = h
Ends-Serves irq (some r) h = (refl, h)

-- For an interrupt from 16 to 95 and a record of full length: a wait in one of whose rounds the
-- interrupt arrives returns 0, and the interrupt is no longer recorded.
pub sys_wait_irq-Serves :
    (irq : ℕ) (rounds : List (List ℕ)) (r : Record)
    → 16 ≤ irq
    → irq < irq_max
    → length r ≡ irq_max
    → Delivered irq rounds
    → Serves irq (sys_wait_irq irq rounds r)
unfolding sys_wait_irq take_pending is_device_irq
sys_wait_irq-Serves irq rounds r from_device small len d =
    let low : leb 16 irq ≡ true = ground (arith, from_device) in
    let high : leb irq 1019 ≡ true = ground (arith, small) in
    elim (Bool-cases (pending irq r)) [
      | inl p ↦ rw (low, high, p) (refl, cleared irq r len)
      | inr out ↦
          rw (low, high, out)
            (Ends-Serves irq (wait_loop irq rounds (clear_pending irq r)) (
              wait_loop-Ends irq rounds (clear_pending irq r) small
                (clear_pending-length irq r ∙ len) d))
    ]

never_pending : (irq : ℕ) (r : Record) → irq_max ≤ irq → pending irq r ≡ false
unfolding pending
never_pending irq r large = ground (arith, large)

wait_loop-none :
    (irq : ℕ) (rounds : List (List ℕ)) (r : Record) → irq_max ≤ irq → wait_loop irq rounds r ≡ none
unfolding wait_loop
wait_loop-none irq [] r large = rw (never_pending irq r large) refl
wait_loop-none irq (arrived ∷ rounds) r large =
    rw (never_pending irq r large) (wait_loop-none irq rounds (note_all arrived r) large)

-- For an interrupt from 96 to 1019 the call is accepted, but whatever arrives, the wait does not end.
pub sys_wait_irq-none :
    (irq : ℕ) (rounds : List (List ℕ)) (r : Record)
    → irq_max ≤ irq
    → irq ≤ 1019
    → sys_wait_irq irq rounds r ≡ none
unfolding sys_wait_irq take_pending is_device_irq
sys_wait_irq-none irq rounds r large in_range =
    let low : leb 16 irq ≡ true = ground (arith, large) in
    let high : leb irq 1019 ≡ true = ground (arith, in_range) in
    rw (low, high, never_pending irq r large)
      (ap woken_with_zero (wait_loop-none irq rounds (clear_pending irq r) large))
