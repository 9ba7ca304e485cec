-- ===== src/Net/Checksum/Verify.antt =====
-- What a receiver can rely on: a checksum of servers/libtanix-net/src/checksum.rs that was written
-- into its field makes the whole sum verify, and one changed word breaks that.
use tanix.Bytes.{Bytes, IsBytes, at}
use tanix.Net.Bytes.{get_u16, put_u16}
use tanix.Net.Checksum.{fold_carries, checksum_seed}
use tanix.Net.Checksum.Sum.{
  words_sum, words_sum-le, fold_carries-lt, fold_carries_mod, words_sum-put_u16, checksum_seed-eq,
}
use tanix.Prelude.{ℕ, ◌+◌, ◌*◌, ◌%◌, ◌^◌, ◌<◌, ◌≤◌, ◌≡◌, ◌≢◌, arith, length}

-- A checksum of zero is a folded sum of all ones.
verifies_iff :
    (s c : ℕ)
    → s < 2 ^ 32
    → c + fold_carries 2 s ≡ 65535
    → (c ≡ 0 → (q : ℕ) × (s ≡ q * 65535) × (s ≢ 0)) × ((q : ℕ) → s ≡ q * 65535 → s ≢ 0 → c ≡ 0)
verifies_iff s c h e =
    let (q, at, zero_only) = fold_carries_mod s in
    (λ z. (q + 1, omega arith, omega arith), λ q' e' ne. ground (arith, fold_carries-lt s h))

module _ (bs : Bytes) (k seed : ℕ) (bytes : IsBytes bs) (inside : 2 * k + 1 < length bs)
    (short : length bs ≤ 2 ^ 16) (low : seed < 2 ^ 30) where
  no_overflow : (v : ℕ) → v < 2 ^ 16 → seed + words_sum (put_u16 bs (2 * k) v) < 2 ^ 32
  no_overflow v small = omega (arith, words_sum-le bs bytes, words_sum-put_u16 k bs v inside small)

  no_overflow_before : seed + words_sum bs < 2 ^ 32
  no_overflow_before = omega (arith, words_sum-le bs bytes)

  -- The checksum after a write to the field.
  after : (v : ℕ) → ℕ
  after v = checksum_seed (put_u16 bs (2 * k) v) seed

  after_iff :
      (v : ℕ)
      → v < 2 ^ 16
      → let s = seed + words_sum (put_u16 bs (2 * k) v) in
        (after v ≡ 0 → (q : ℕ) × (s ≡ q * 65535) × (s ≢ 0))
        × ((q : ℕ) → s ≡ q * 65535 → s ≢ 0 → after v ≡ 0)
  unfolding after
  after_iff v small =
      verifies_iff (seed + words_sum (put_u16 bs (2 * k) v)) (after v) (no_overflow v small)
        (checksum_seed-eq (put_u16 bs (2 * k) v) seed (no_overflow v small))

  -- Over at most 2^16 bytes, with a seed below 2^30: writing the checksum into a field at the even
  -- offset `2 * k`, inside the bytes and zero before, makes the checksum zero.
  pub checksum_verifies :
      get_u16 bs (2 * k) ≡ 0 → checksum_seed (put_u16 bs (2 * k) (checksum_seed bs seed)) seed ≡ 0
  unfolding after
  checksum_verifies z =
      let c = checksum_seed bs seed in
      let e = checksum_seed-eq bs seed no_overflow_before in
      let (q, split, _) = fold_carries_mod (seed + words_sum bs) in
      let w = words_sum-put_u16 k bs c inside (omega arith) in
      (after_iff c (omega arith)).1 (q + 1) (omega arith) (omega arith)

  -- Over at most 2^16 bytes whose checksum is zero, with a seed below 2^30: giving the word at the
  -- even offset `2 * k`, inside the bytes, a 16-bit value that differs from the old one modulo 65535
  -- makes the checksum nonzero.
  checksum_detects :
      (v : ℕ)
      → v < 2 ^ 16
      → checksum_seed bs seed ≡ 0
      → v % 65535 ≢ get_u16 bs (2 * k) % 65535
      → checksum_seed (put_u16 bs (2 * k) v) seed ≢ 0
  unfolding after
  checksum_detects v small ok ne bad =
      let (q, split, _) = (after_iff v small).0 bad in
      let e = checksum_seed-eq bs seed no_overflow_before in
      let (q', split', _) = fold_carries_mod (seed + words_sum bs) in
      let w = words_sum-put_u16 k bs v inside small in absurd (ne (omega arith))

  -- Over at most 2^16 bytes, with a seed below 2^30: where the field at the even offset `2 * k`, inside
  -- the bytes, is not zero modulo 65535 when the checksum is taken, the checksum that is written over
  -- it does not verify.
  pub checksum_stale :
      get_u16 bs (2 * k) % 65535 ≢ 0
      → checksum_seed (put_u16 bs (2 * k) (checksum_seed bs seed)) seed ≢ 0
  unfolding after
  checksum_stale old bad =
      let c = checksum_seed bs seed in
      let e = checksum_seed-eq bs seed no_overflow_before in
      let (q, split, _) = fold_carries_mod (seed + words_sum bs) in
      let w = words_sum-put_u16 k bs c inside (omega arith) in
      let (q', split', _) = (after_iff c (omega arith)).0 bad in absurd (old (omega arith))
