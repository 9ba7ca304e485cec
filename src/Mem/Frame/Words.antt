-- ===== src/Mem/Frame/Words.antt =====
-- The `u64` words of kernel/src/mem/frame.rs, as their bits from the lowest one.
use tanix.Prelude.{
  ℕ, zero, suc, ◌<◌, ◌≡◌, refl, Bool, true, false, not, ◌&&◌, List, [], ◌∷◌, arith, length, get_or,
  set, replicate, if◌then◌else◌,
}

abbrev pub Word : Type 0
Word = List Bool

-- `!0u64`
abbrev pub ones : Word
ones = replicate 64 true

-- `0u64`
abbrev pub zeros : Word
zeros = replicate 64 false

-- `word & (1u64 << bit) != 0`
abbrev pub test : Word → ℕ → Bool
test word bit = get_or word bit false

-- `word & !(1u64 << bit)`
abbrev pub clear : Word → ℕ → Word
clear word bit = set word bit false

-- `word | (1u64 << bit)`
abbrev pub raise : Word → ℕ → Word
raise word bit = set word bit true

-- `word == 0`
unfoldable pub is_zero : Word → Bool
is_zero [] = true
is_zero (b ∷ bs) = not b && is_zero bs

-- `word.trailing_zeros()`
unfoldable pub trailing_zeros : Word → ℕ
trailing_zeros [] = 0
trailing_zeros (b ∷ bs) = if b then 0 else suc (trailing_zeros bs)

pub test_of_is_zero : (w : Word) (i : ℕ) → is_zero w ≡ true → test w i ≡ false
unfolding is_zero
test_of_is_zero [] i h = refl
test_of_is_zero (b ∷ bs) zero h = ground arith
test_of_is_zero (b ∷ bs) (suc i) h = ground (arith, test_of_is_zero bs i)

-- A word that is not zero has its lowest one at `trailing_zeros`.
pub trailing_zeros_lem :
    (w : Word)
    → is_zero w ≡ false
    → (trailing_zeros w < length w) × (test w (trailing_zeros w) ≡ true)
unfolding is_zero trailing_zeros
trailing_zeros_lem [] h = absurd (cc)
trailing_zeros_lem (true ∷ bs) h = (omega arith, refl)
trailing_zeros_lem (false ∷ bs) h = let ih = trailing_zeros_lem bs h in (omega arith, ih.1)

pub test_below_trailing_zeros : (w : Word) (i : ℕ) → i < trailing_zeros w → test w i ≡ false
unfolding trailing_zeros
test_below_trailing_zeros [] i h = refl
test_below_trailing_zeros (true ∷ bs) i h = absurd (omega arith)
test_below_trailing_zeros (false ∷ bs) zero h = refl
test_below_trailing_zeros (false ∷ bs) (suc i) h = test_below_trailing_zeros bs i (omega arith)
