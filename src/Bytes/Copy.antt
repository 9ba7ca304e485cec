-- ===== src/Bytes/Copy.antt =====
-- What copies and slices of a buffer hold.
use tanix.Bytes.{Bytes, slice, copy_at}
use mathlib.Core.List.{append-nil, append_assoc}
use native.Mathlib.Decide.{dec_lt}
use tanix.Prelude.{
  ℕ, zero, suc, ◌+◌, ◌-◌, ◌<◌, ◌≤◌, ◌≡◌, min, refl, sym, ap, ◌∙◌, [], ◌∷◌, ◌++◌, arith, length, set,
  take, drop, length-set, length-take, length-drop,
}

pub length-copy_at : (b : Bytes) (off : ℕ) (src : Bytes) → length (copy_at b off src) ≡ length b
unfolding copy_at
length-copy_at b off [] = refl
length-copy_at b off (x ∷ src) = length-copy_at (set b off x) (off + 1) src ∙ length-set b off x

pub length-slice : (b : Bytes) (from to : ℕ) → to ≤ length b → length (slice b from to) ≡ to - from
length-slice b from to h = omega (arith, length-take (to - from) (drop from b), length-drop from b)

pub set_past : (b : Bytes) (i v : ℕ) → length b ≤ i → set b i v ≡ b
set_past [] i v h = refl
set_past (x ∷ b) zero v h = absurd (omega arith)
set_past (x ∷ b) (suc i) v h = ap (λ (c : Bytes). x ∷ c) (set_past b i v (omega arith))

pub take-set : (n : ℕ) (b : Bytes) (i v : ℕ) → take n (set b i v) ≡ set (take n b) i v
take-set zero b i v = refl
take-set (suc n) [] i v = refl
take-set (suc n) (x ∷ b) zero v = refl
take-set (suc n) (x ∷ b) (suc i) v = ap (λ (c : Bytes). x ∷ c) (take-set n b i v)

pub drop-set : (n : ℕ) (b : Bytes) (i v : ℕ) → drop n (set b (n + i) v) ≡ set (drop n b) i v
drop-set zero b i v = let e : 0 + i ≡ i = omega arith in rw e refl
drop-set (suc n) [] i v = refl
drop-set (suc n) (x ∷ b) i v =
    let e : suc n + i ≡ suc (n + i) = omega arith in rw e (drop-set n b i v)

pub drop-set_before : (n : ℕ) (b : Bytes) (i v : ℕ) → i < n → drop n (set b i v) ≡ drop n b
drop-set_before zero b i v h = absurd (omega arith)
drop-set_before (suc n) [] i v h = refl
drop-set_before (suc n) (x ∷ b) zero v h = refl
drop-set_before (suc n) (x ∷ b) (suc i) v h = drop-set_before n b i v (omega arith)

take-nil : (n : ℕ) → take {A = ℕ} n [] ≡ []
take-nil zero = refl
take-nil (suc n) = refl

pub take_exact : (n : ℕ) (b : Bytes) → length b ≤ n → take n b ≡ b
take_exact zero [] h = refl
take_exact zero (x ∷ b) h = absurd (omega arith)
take_exact (suc n) [] h = refl
take_exact (suc n) (x ∷ b) h = ap (λ (c : Bytes). x ∷ c) (take_exact n b (omega arith))

-- One more byte of a prefix.
take-set_end :
    (off : ℕ) (b : Bytes) (v : ℕ)
    → off < length b
    → take (suc off) (set b off v) ≡ take off b ++ (v ∷ [])
take-set_end off [] v h = absurd (omega arith)
take-set_end zero (x ∷ b) v h = refl
take-set_end (suc off) (x ∷ b) v h = ap (λ (c : Bytes). x ∷ c) (take-set_end off b v (omega arith))

-- A copy behind the first `off` bytes extends that prefix by what is copied.
pub take-copy_at :
    (b : Bytes) (off : ℕ) (src : Bytes)
    → off + length src ≤ length b
    → take (off + length src) (copy_at b off src) ≡ take off b ++ src
unfolding copy_at
take-copy_at b off [] h = let e : off + 0 ≡ off = omega arith in rw (e, append-nil) refl
take-copy_at b off (x ∷ src) h =
    let e : off + suc (length src) ≡ off + 1 + length src = omega arith in
    let e' : off + 1 ≡ suc off = omega arith in
    rw e (
      take-copy_at (set b off x) (off + 1) src (omega (arith, length-set b off x))
      ∙ (rw (e', take-set_end off b x (omega arith)) (append_assoc (take off b) (x ∷ []) src)))

-- `buf.copy_within(from..to, 0)` leaves what stood in the range as the new prefix.
pub take-copy_within :
    (b : Bytes) (from to : ℕ)
    → from ≤ to
    → to ≤ length b
    → take (to - from) (copy_at b 0 (slice b from to)) ≡ slice b from to
take-copy_within b from to le h =
    let e : to - from ≡ 0 + length (slice b from to) = omega (arith, length-slice b from to h) in
    ap (λ (n : ℕ). take n (copy_at b 0 (slice b from to))) e
    ∙ take-copy_at b 0 (slice b from to) (omega (arith, length-slice b from to h))

pub slice-eq-drop-take : (b : Bytes) (from to : ℕ) → slice b from to ≡ drop from (take to b)
slice-eq-drop-take b zero to = let e : to - 0 ≡ to = omega arith in rw e refl
slice-eq-drop-take [] (suc from) to = rw (take-nil (to - suc from), take-nil to) refl
slice-eq-drop-take (x ∷ b) (suc from) zero = let e : 0 - suc from ≡ 0 = omega arith in rw e refl
slice-eq-drop-take (x ∷ b) (suc from) (suc to) =
    let e : suc to - suc from ≡ to - from = omega arith in rw e (slice-eq-drop-take b from to)

pub take-take : (c r : ℕ) (b : Bytes) → take c (take r b) ≡ take (min r c) b
take-take c zero b = let e : min 0 c ≡ 0 = omega arith in rw (e, take-nil c) refl
take-take c (suc r) [] = rw (take-nil c, take-nil (min (suc r) c)) refl
take-take zero (suc r) (x ∷ b) = let e : min (suc r) 0 ≡ 0 = omega arith in rw e refl
take-take (suc c) (suc r) (x ∷ b) =
    let e : min (suc r) (suc c) ≡ suc (min r c) = omega arith in
    rw e (ap (λ (c' : Bytes). x ∷ c') (take-take c r b))

pub drop_past : (n : ℕ) (b : Bytes) → length b ≤ n → drop n b ≡ []
drop_past zero [] h = refl
drop_past zero (x ∷ b) h = absurd (omega arith)
drop_past (suc n) [] h = refl
drop_past (suc n) (x ∷ b) h = drop_past n b (omega arith)

-- What lies behind the first `c` bytes of a prefix of `r` bytes.
pub slice-min : (c r : ℕ) (b : Bytes) → slice b (min r c) r ≡ drop c (take r b)
slice-min c r b = elim (dec_lt r c) [
  | yes h ↦
      let e : min r c ≡ r = omega arith in
      rw e (
        slice-eq-drop-take b r r
        ∙ (drop_past r (take r b) (omega (arith, length-take r b))
            ∙ sym (drop_past c (take r b) (omega (arith, length-take r b)))))
  | no h ↦ let e : min r c ≡ c = omega arith in rw e (slice-eq-drop-take b c r)
]

pub take-min : (b : Bytes) (m : ℕ) → take (min (length b) m) b ≡ take m b
take-min b m =
    sym (take-take m (length b) b)
    ∙ ap (λ (c : Bytes). take m c) (take_exact (length b) b (omega arith))

-- A copy of a prefix behind the first `off` bytes.
pub take-copy_prefix :
    (b src : Bytes) (off n : ℕ)
    → off + n ≤ length b
    → n ≤ length src
    → take (off + n) (copy_at b off (slice src 0 n)) ≡ take off b ++ take n src
take-copy_prefix b src off n h le =
    let len : n ≡ length (slice src 0 n) = omega (arith, length-slice src 0 n le) in
    let same : n - 0 ≡ n = omega arith in
    ap (λ (k : ℕ). take (off + k) (copy_at b off (slice src 0 n))) len
    ∙ (take-copy_at b off (slice src 0 n) (omega arith)
        ∙ ap (λ (k : ℕ). take off b ++ take k src) same)
