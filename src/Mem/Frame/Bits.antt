-- ===== src/Mem/Frame/Bits.antt =====
-- The bitmap of kernel/src/mem/frame.rs seen as one answer per frame: what `set_used` and
-- `set_free` change of it.
use tanix.Mem.Frame.{FrameAllocator, is_free, set_used, set_free}
use tanix.Mem.Frame.Words.{Word}
use tanix.Prelude.{
  ℕ, ◌/◌, ◌%◌, ◌*◌, ◌<◌, ◌≡◌, ◌≢◌, sym, ap, Bool, true, false, List, [], arith, length, get_or, set,
  ◌==◌, if◌then◌else◌, All, All-get_or, get_or-set_self, get_or-set_ne,
}
use native.Mathlib.Decide.{ℕ_discrete}

-- Every word has its 64 bits.
abbrev pub HasWidth : List Word → Type 0
HasWidth = All (λ w. length w ≡ 64)

abbrev pub bit_at : List Word → ℕ → Bool
bit_at bitmap i = get_or (get_or bitmap (i / 64) []) (i % 64) false

abbrev pub write_bit : List Word → ℕ → Bool → List Word
write_bit bitmap j b = set bitmap (j / 64) (set (get_or bitmap (j / 64) []) (j % 64) b)

module _ (bitmap : List Word) (width : HasWidth bitmap) (j : ℕ)
    (fits : j < length bitmap * 64) where
  pub bit_in_word : j % 64 < length (get_or bitmap (j / 64) [])
  bit_in_word =
      let w : length (get_or bitmap (j / 64) []) ≡ 64 =
        All-get_or (λ (w : Word). length w ≡ 64) bitmap (j / 64) [] (omega arith) width in
      omega arith

  pub bit_at-write_bit_self : (b : Bool) → bit_at (write_bit bitmap j b) j ≡ b
  bit_at-write_bit_self b =
      rw
        (get_or-set_self bitmap (j / 64) (set (get_or bitmap (j / 64) []) (j % 64) b) []
          (omega arith))
        (get_or-set_self (get_or bitmap (j / 64) []) (j % 64) b false bit_in_word)

  pub bit_at-write_bit_ne :
      (b : Bool) (i : ℕ) → i ≢ j → bit_at (write_bit bitmap j b) i ≡ bit_at bitmap i
  bit_at-write_bit_ne b i ne = elim (ℕ_discrete (i / 64) (j / 64)) [
    | yes e ↦ rw e (
        rw
          (get_or-set_self bitmap (j / 64) (set (get_or bitmap (j / 64) []) (j % 64) b) []
            (omega arith))
          (get_or-set_ne (get_or bitmap (j / 64) []) (j % 64) (i % 64) b false (omega arith)))
    | no far ↦
        ap (λ (w : Word). get_or w (i % 64) false)
          (get_or-set_ne bitmap (j / 64) (i / 64) (set (get_or bitmap (j / 64) []) (j % 64) b) []
            (λ h. far (sym h)))
  ]

-- The source's tests of a frame, after an update of it or of another.
pub is_free-set_used :
    (fa : FrameAllocator) (j i : ℕ)
    → HasWidth fa.bitmap
    → j < length fa.bitmap * 64
    → is_free (set_used j fa) i ≡ (if i == j then false else is_free fa i)
unfolding set_used
is_free-set_used fa j i w fits = elim (ℕ_discrete i j) [
  | yes e ↦ rw e (ground (arith, bit_at-write_bit_self fa.bitmap w j fits false))
  | no ne ↦ ground (arith, bit_at-write_bit_ne fa.bitmap w j fits false i ne)
]

pub is_free-set_free :
    (fa : FrameAllocator) (j i : ℕ)
    → HasWidth fa.bitmap
    → j < length fa.bitmap * 64
    → is_free (set_free j fa) i ≡ (if i == j then true else is_free fa i)
unfolding set_free
is_free-set_free fa j i w fits = elim (ℕ_discrete i j) [
  | yes e ↦ rw e (ground (arith, bit_at-write_bit_self fa.bitmap w j fits true))
  | no ne ↦ ground (arith, bit_at-write_bit_ne fa.bitmap w j fits true i ne)
]
