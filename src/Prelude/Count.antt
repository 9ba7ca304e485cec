-- ===== src/Prelude/Count.antt =====
-- How many numbers below a bound pass a test, and how one changed answer changes the count.
use Prim.Native.Nat.{ℕ, zero, suc, ◌+◌, ◌≤◌, ◌<◌}
use mathlib.Core.Path.{◌≡◌, refl}
use mathlib.Core.Logic.{◌≢◌}
use mathlib.Core.Bool.{Bool, true, false}
use native.Mathlib.Omega.{arith}
use native.Mathlib.Decide.{ℕ_discrete}
use tanix.Prelude.Tests.{if◌then◌else◌}

unfoldable pub count_below : (ℕ → Bool) → ℕ → ℕ
count_below f zero = 0
count_below f (suc n) = (if f n then 1 else 0) + count_below f n

pub count_below-le : (f : ℕ → Bool) (n : ℕ) → count_below f n ≤ n
unfolding count_below
count_below-le f zero = omega arith
count_below-le f (suc n) = ground (arith, count_below-le f n)

pub count_below_ext :
    (f g : ℕ → Bool) (n : ℕ) → ((i : ℕ) → i < n → f i ≡ g i) → count_below f n ≡ count_below g n
unfolding count_below
count_below_ext f g zero h = refl
count_below_ext f g (suc n) h =
    ground (arith, h n (omega arith), count_below_ext f g n (λ i p. h i (omega arith)))

-- Turning one answer below the bound from no to yes raises the count by one.
pub count_below_raise :
    (f g : ℕ → Bool) (n j : ℕ)
    → j < n
    → f j ≡ false
    → g j ≡ true
    → ((i : ℕ) → i < n → i ≢ j → f i ≡ g i)
    → count_below g n ≡ suc (count_below f n)
unfolding count_below
count_below_raise f g zero j lt ff gt same = absurd (omega arith)
count_below_raise f g (suc n) j lt ff gt same = elim (ℕ_discrete j n) [
  | yes e ↦ ground (
    arith,
    (rw e at ff),
    (rw e at gt),
    count_below_ext f g n (λ i p. same i (omega arith) (omega arith)),
  )
  | no ne ↦ ground (
    arith,
    same n (omega arith) (omega arith),
    count_below_raise f g n j (omega arith) ff gt (λ i p q. same i (omega arith) q),
  )
]

pub count_below-eq-zero :
    (f : ℕ → Bool) (n : ℕ) → ((i : ℕ) → i < n → f i ≡ false) → count_below f n ≡ 0
unfolding count_below
count_below-eq-zero f zero h = refl
count_below-eq-zero f (suc n) h =
    ground (arith, h n (omega arith), count_below-eq-zero f n (λ i p. h i (omega arith)))

pub count_below-all : (f : ℕ → Bool) (n : ℕ) → ((i : ℕ) → i < n → f i ≡ true) → count_below f n ≡ n
unfolding count_below
count_below-all f zero h = refl
count_below-all f (suc n) h =
    ground (arith, h n (omega arith), count_below-all f n (λ i p. h i (omega arith)))
