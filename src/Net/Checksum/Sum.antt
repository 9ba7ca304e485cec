-- ===== src/Net/Checksum/Sum.antt =====
-- The sum behind the checksum of servers/libtanix-net/src/checksum.rs: without overflow it is the
-- plain sum of the words, and folding keeps it modulo 2^16 - 1.
use tanix.Bytes.{Bytes, IsBytes}
use tanix.Net.Bytes.{get_u16, put_u16}
use tanix.Net.Checksum.{sum_words, fold_carries, checksum_seed}
use tanix.Prelude.{
  ℕ, zero, suc, ◌+◌, ◌*◌, ◌/◌, ◌%◌, ◌^◌, ◌<◌, ◌≤◌, ◌≡◌, refl, ◌∙◌, [], ◌∷◌, arith, length, ltb,
  if◌then◌else◌,
}

-- The sum of the big-endian words.
pub words_sum : Bytes → ℕ
words_sum [] = 0
words_sum (hi ∷ []) = hi * 2 ^ 8
words_sum (hi ∷ (lo ∷ rest)) = hi * 2 ^ 8 + lo + words_sum rest

pub words_sum-le : (bs : Bytes) → IsBytes bs → 2 * words_sum bs ≤ 2 ^ 16 * length bs + 2 ^ 16
unfolding words_sum
words_sum-le [] h = omega arith
words_sum-le (hi ∷ []) h = omega arith
words_sum-le (hi ∷ (lo ∷ rest)) (p, (q, h)) = omega (arith, words_sum-le rest h)

pub sum_words-eq :
    (bs : Bytes) (seed : ℕ) → seed + words_sum bs < 2 ^ 32 → sum_words bs seed ≡ seed + words_sum bs
unfolding sum_words words_sum
sum_words-eq [] seed h = omega arith
sum_words-eq (hi ∷ []) seed h = omega arith
sum_words-eq (hi ∷ (lo ∷ rest)) seed h =
    sum_words-eq rest ((seed + (hi * 2 ^ 8 + lo)) % 2 ^ 32) (omega arith) ∙ omega arith

-- Two rounds are enough for a `u32`.
pub fold_carries-lt : (s : ℕ) → s < 2 ^ 32 → fold_carries 2 s < 2 ^ 16
unfolding fold_carries
fold_carries-lt s h = ground arith

-- Folding takes off a multiple of 2^16 - 1, and makes 0 of 0 only.
pub fold_carries_mod :
    (s : ℕ) → (q : ℕ) × (s ≡ q * 65535 + fold_carries 2 s) × (fold_carries 2 s ≡ 0 → s ≡ 0)
unfolding fold_carries
fold_carries_mod s = (quotient, ground arith, λ e. ground arith)
  where
    once : ℕ
    once = s % 2 ^ 16 + s / 2 ^ 16

    quotient : ℕ
    quotient =
        if ltb s (2 ^ 16)
        then 0
        else if ltb once (2 ^ 16)
        then s / 2 ^ 16
        else s / 2 ^ 16 + once / 2 ^ 16

-- The fields behind the first word.
put_u16-step :
    (hi lo : ℕ) (rest : Bytes) (k v : ℕ)
    → put_u16 (hi ∷ (lo ∷ rest)) (2 * suc k) v ≡ hi ∷ (lo ∷ put_u16 rest (2 * k) v)
unfolding put_u16
put_u16-step hi lo rest k v =
    let e : 2 * suc k ≡ suc (suc (2 * k)) = omega arith in
    let e' : suc (suc (2 * k)) + 1 ≡ suc (suc (2 * k + 1)) = omega arith in rw (e, e') refl

get_u16-step :
    (hi lo : ℕ) (rest : Bytes) (k : ℕ)
    → get_u16 (hi ∷ (lo ∷ rest)) (2 * suc k) ≡ get_u16 rest (2 * k)
unfolding get_u16
get_u16-step hi lo rest k =
    let e : 2 * suc k ≡ suc (suc (2 * k)) = omega arith in
    let e' : suc (suc (2 * k)) + 1 ≡ suc (suc (2 * k + 1)) = omega arith in rw (e, e') refl

-- A field of two bytes at an even offset is one word of the sum.
pub words_sum-put_u16 :
    (k : ℕ) (bs : Bytes) (v : ℕ)
    → 2 * k + 1 < length bs
    → v < 2 ^ 16
    → words_sum (put_u16 bs (2 * k) v) + get_u16 bs (2 * k) ≡ words_sum bs + v
unfolding words_sum
words_sum-put_u16 k [] v h small = absurd (omega arith)
words_sum-put_u16 k (hi ∷ []) v h small = absurd (omega arith)
words_sum-put_u16 zero (hi ∷ (lo ∷ rest)) v h small = unfold put_u16 get_u16 in omega arith
words_sum-put_u16 (suc k) (hi ∷ (lo ∷ rest)) v h small =
    rw (put_u16-step hi lo rest k v, get_u16-step hi lo rest k)
      (omega (arith, words_sum-put_u16 k rest v (omega arith) small))

-- The checksum of bytes whose sum does not overflow.
pub checksum_seed-eq :
    (bs : Bytes) (seed : ℕ)
    → seed + words_sum bs < 2 ^ 32
    → checksum_seed bs seed + fold_carries 2 (seed + words_sum bs) ≡ 65535
unfolding checksum_seed
checksum_seed-eq bs seed h =
    rw (sum_words-eq bs seed h) (omega (arith, fold_carries-lt (seed + words_sum bs) h))
