-- ===== src/Net/Checksum.antt =====
-- servers/libtanix-net/src/checksum.rs: the Internet checksum of RFC 1071.
pub mod Sum
pub mod Verify
use tanix.Bytes.{Bytes, at}
use tanix.Prelude.{ℕ, zero, suc, ◌+◌, ◌-◌, ◌*◌, ◌/◌, ◌%◌, ◌^◌, true, false, List, [], ◌∷◌, ltb}

-- `u32` addition.
abbrev pub add_u32 : ℕ → ℕ → ℕ
add_u32 a b = (a + b) % 2 ^ 32

-- The loop over pairs of bytes, and the odd byte behind it.
unfoldable pub sum_words : Bytes → ℕ → ℕ
sum_words [] sum = sum
sum_words (hi ∷ []) sum = add_u32 sum (hi * 2 ^ 8)
sum_words (hi ∷ (lo ∷ rest)) sum = sum_words rest (add_u32 sum (hi * 2 ^ 8 + lo))

-- `while sum >> 16 != 0 { sum = (sum & 0xFFFF) + (sum >> 16); }` A `u32` takes two rounds at most
-- (`Sum.fold_carries-lt`).
unfoldable pub fold_carries : ℕ → ℕ → ℕ
fold_carries zero sum = sum
fold_carries (suc rounds) sum = elim (ltb sum (2 ^ 16)) [
  | true ↦ sum
  | false ↦ fold_carries rounds (sum % 2 ^ 16 + sum / 2 ^ 16)
]

unfoldable pub checksum_seed : Bytes → ℕ → ℕ
checksum_seed bytes seed = 2 ^ 16 - 1 - fold_carries 2 (sum_words bytes seed) % 2 ^ 16

unfoldable pub checksum : Bytes → ℕ
checksum bytes = checksum_seed bytes 0

unfoldable pub pseudo_seed : Bytes → Bytes → ℕ → ℕ → ℕ
pseudo_seed src dst proto len =
    add_u32 (add_u32 (pair (pair (pair (pair 0 src 0) src 1) dst 0) dst 1) proto) len
  where
    -- `sum += addr[2 * i] << 8 | addr[2 * i + 1]`
    pair : ℕ → Bytes → ℕ → ℕ
    pair sum addr i = add_u32 sum (at addr (2 * i) * 2 ^ 8 + at addr (2 * i + 1))
