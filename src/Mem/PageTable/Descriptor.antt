-- ===== src/Mem/PageTable/Descriptor.antt =====
-- The descriptors that kernel/src/mem/page_table.rs builds and takes apart.
use Prim.Native.Nat.{bit_or, digits, bit_or-bitwise, max}
use tanix.Mem.PageTable.{is_valid, has_table_bit, address_of, table_entry}
use tanix.Prelude.{ℕ, zero, suc, ◌+◌, ◌*◌, ◌/◌, ◌%◌, ◌^◌, ◌<◌, ◌≤◌, ◌≡◌, refl, true, arith, ap, ◌∙◌}

abbrev or_digits : ℕ → ℕ → ℕ → ℕ
or_digits n a b = digits (λ b. b) max n a b

or_digits_fuel : (n m a b : ℕ) → a ≤ n → a ≤ m → or_digits n a b ≡ or_digits m a b
or_digits_fuel zero zero a b p q = refl
or_digits_fuel zero (suc m) zero b p q = refl
or_digits_fuel zero (suc m) (suc a) b p q = absurd (omega arith)
or_digits_fuel (suc n) zero zero b p q = refl
or_digits_fuel (suc n) zero (suc a) b p q = absurd (omega arith)
or_digits_fuel (suc n) (suc m) zero b p q = refl
or_digits_fuel (suc n) (suc m) (suc a) b p q =
    omega (arith, or_digits_fuel n m (suc a / 2) (b / 2) (omega arith) (omega arith))

zero-bit_or : (b : ℕ) → bit_or 0 b ≡ b
zero-bit_or b = bit_or-bitwise 0 b

bit_or_step : (a b : ℕ) → bit_or a b ≡ bit_or (a / 2) (b / 2) * 2 + max (a % 2) (b % 2)
bit_or_step zero b = omega (arith, zero-bit_or b, zero-bit_or (b / 2))
bit_or_step (suc a) b = omega (
  arith,
  bit_or-bitwise (suc a) b,
  bit_or-bitwise (suc a / 2) (b / 2),
  or_digits_fuel a (suc a / 2) (suc a / 2) (b / 2) (omega arith) (omega arith),
)

bit_or-zero_fuel : (n a : ℕ) → a ≤ n → bit_or a 0 ≡ a
bit_or-zero_fuel n zero h = zero-bit_or 0
bit_or-zero_fuel zero (suc a) h = absurd (omega arith)
bit_or-zero_fuel (suc n) (suc a) h =
    omega (arith, bit_or_step (suc a) 0, bit_or-zero_fuel n (suc a / 2) (omega arith))

bit_or-zero : (a : ℕ) → bit_or a 0 ≡ a
bit_or-zero a = bit_or-zero_fuel a a (omega arith)

bit_or-one : (a : ℕ) → a % 2 ≡ 0 → bit_or a 1 ≡ a + 1
bit_or-one a h = omega (arith, bit_or_step a 1, bit_or-zero (a / 2))

table_entry_sum : (c : ℕ) → c % 4096 ≡ 0 → table_entry c ≡ c + 3
table_entry_sum c h =
    let first : bit_or c 1 ≡ c + 1 = bit_or-one c (omega arith) in
    let half : (c + 1) / 2 ≡ c / 2 = omega arith in
    ap (λ (e : ℕ). bit_or e 2) first
    ∙ omega (
      arith,
      bit_or_step (c + 1) 2,
      ap (λ (k : ℕ). bit_or k 1) half,
      bit_or-one (c / 2) (omega arith),
    )

-- The descriptor of a table is valid, marked as a table, and gives its address back.
pub table_entry-points :
    (c : ℕ)
    → c % 4096 ≡ 0
    → c < 2 ^ 48
    → (is_valid (table_entry c) ≡ true)
      × (has_table_bit (table_entry c) ≡ true)
      × (address_of (table_entry c) ≡ c)
table_entry-points c h small = rw (table_entry_sum c h) (ground arith, ground arith, omega arith)
