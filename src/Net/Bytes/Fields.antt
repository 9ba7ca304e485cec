-- ===== src/Net/Bytes/Fields.antt =====
-- What the writes into a frame of servers/libtanix-net leave alone, and that they write bytes.
use tanix.Bytes.{Bytes, IsBytes, at, slice, copy_at}
use tanix.Net.Bytes.{put_u16, put_u32, get_u16, length-put_u16}
use tanix.Bytes.Copy.{take-set, drop-set, set_past}
use tanix.Prelude.{
  ℕ, zero, suc, ◌+◌, ◌-◌, ◌%◌, ◌/◌, ◌^◌, ◌<◌, ◌≤◌, ◌≡◌, refl, ap, ◌∙◌, [], ◌∷◌, arith, length, set,
  take, drop, All-set, length-take, get_or-set_ne,
}

abbrev IsByte : ℕ → Type 0
IsByte b = b < 256

pub set-IsBytes : (b : Bytes) (i v : ℕ) → IsBytes b → v < 256 → IsBytes (set b i v)
set-IsBytes b i v h p = All-set IsByte b i v h p

pub put_u16-IsBytes : (b : Bytes) (off v : ℕ) → IsBytes b → IsBytes (put_u16 b off v)
unfolding put_u16
put_u16-IsBytes b off v h =
    set-IsBytes (set b off (v / 2 ^ 8 % 2 ^ 8)) (off + 1) (v % 2 ^ 8)
      (set-IsBytes b off (v / 2 ^ 8 % 2 ^ 8) h (omega arith)) (omega arith)

pub put_u32-IsBytes : (b : Bytes) (off v : ℕ) → IsBytes b → IsBytes (put_u32 b off v)
unfolding put_u32
put_u32-IsBytes b off v h =
    put_u16-IsBytes (put_u16 b off (v / 2 ^ 16 % 2 ^ 16)) (off + 2) (v % 2 ^ 16)
      (put_u16-IsBytes b off (v / 2 ^ 16 % 2 ^ 16) h)

pub copy_at-IsBytes :
    (b : Bytes) (off : ℕ) (src : Bytes) → IsBytes b → IsBytes src → IsBytes (copy_at b off src)
unfolding copy_at
copy_at-IsBytes b off [] h k = h
copy_at-IsBytes b off (x ∷ src) h k =
    copy_at-IsBytes (set b off x) (off + 1) src (set-IsBytes b off x h k.0) k.1

pub take-IsBytes : (n : ℕ) (b : Bytes) → IsBytes b → IsBytes (take n b)
take-IsBytes zero b h = tt
take-IsBytes (suc n) [] h = tt
take-IsBytes (suc n) (x ∷ b) h = (h.0, take-IsBytes n b h.1)

pub drop-IsBytes : (n : ℕ) (b : Bytes) → IsBytes b → IsBytes (drop n b)
drop-IsBytes zero b h = h
drop-IsBytes (suc n) [] h = tt
drop-IsBytes (suc n) (x ∷ b) h = drop-IsBytes n b h.1

pub slice-IsBytes : (b : Bytes) (from to : ℕ) → IsBytes b → IsBytes (slice b from to)
slice-IsBytes b from to h = take-IsBytes (to - from) (drop from b) (drop-IsBytes from b h)

pub at-lt : (b : Bytes) (i : ℕ) → IsBytes b → at b i < 256
at-lt [] i h = omega arith
at-lt (x ∷ b) zero h = h.0
at-lt (x ∷ b) (suc i) h = at-lt b i h.1

pub length-put_u32 : (b : Bytes) (off v : ℕ) → length (put_u32 b off v) ≡ length b
unfolding put_u32
length-put_u32 b off v =
    length-put_u16 (put_u16 b off (v / 2 ^ 16 % 2 ^ 16)) (off + 2) (v % 2 ^ 16)
    ∙ length-put_u16 b off (v / 2 ^ 16 % 2 ^ 16)

-- A write inside a slice is a write to the slice; one before or behind it is none.
slice-set :
    (b : Bytes) (from to k v : ℕ) → slice (set b (from + k) v) from to ≡ set (slice b from to) k v
slice-set b from to k v =
    ap (λ (c : Bytes). take (to - from) c) (drop-set from b k v)
    ∙ take-set (to - from) (drop from b) k v

pub slice-put_u16 :
    (b : Bytes) (from to k v : ℕ)
    → slice (put_u16 b (from + k) v) from to ≡ put_u16 (slice b from to) k v
unfolding put_u16
slice-put_u16 b from to k v =
    let e : from + k + 1 ≡ from + (k + 1) = omega arith in
    rw
      (
        e,
        slice-set (set b (from + k) (v / 2 ^ 8 % 2 ^ 8)) from to (k + 1) (v % 2 ^ 8),
        slice-set b from to k (v / 2 ^ 8 % 2 ^ 8),
      )
      refl

pub slice-set_behind :
    (b : Bytes) (from to i v : ℕ) → from ≤ to → to ≤ i → slice (set b i v) from to ≡ slice b from to
slice-set_behind b from to i v le h =
    let e : i ≡ from + (i - from) = omega arith in
    ap (λ (j : ℕ). slice (set b j v) from to) e
    ∙ (slice-set b from to (i - from) v
        ∙ set_past (slice b from to) (i - from) v
            (omega (arith, length-take (to - from) (drop from b))))

pub slice-put_u16_behind :
    (b : Bytes) (from to i v : ℕ)
    → from ≤ to
    → to ≤ i
    → slice (put_u16 b i v) from to ≡ slice b from to
unfolding put_u16
slice-put_u16_behind b from to i v le h =
    slice-set_behind (set b i (v / 2 ^ 8 % 2 ^ 8)) from to (i + 1) (v % 2 ^ 8) le (omega arith)
    ∙ slice-set_behind b from to i (v / 2 ^ 8 % 2 ^ 8) le h

pub slice-put_u32_behind :
    (b : Bytes) (from to i v : ℕ)
    → from ≤ to
    → to ≤ i
    → slice (put_u32 b i v) from to ≡ slice b from to
unfolding put_u32
slice-put_u32_behind b from to i v le h =
    slice-put_u16_behind (put_u16 b i (v / 2 ^ 16 % 2 ^ 16)) from to (i + 2) (v % 2 ^ 16) le
      (omega arith)
    ∙ slice-put_u16_behind b from to i (v / 2 ^ 16 % 2 ^ 16) le h

pub slice-copy_at_behind :
    (b : Bytes) (from to i : ℕ) (src : Bytes)
    → from ≤ to
    → to ≤ i
    → slice (copy_at b i src) from to ≡ slice b from to
unfolding copy_at
slice-copy_at_behind b from to i [] le h = refl
slice-copy_at_behind b from to i (x ∷ src) le h =
    slice-copy_at_behind (set b i x) from to (i + 1) src le (omega arith)
    ∙ slice-set_behind b from to i x le h

pub at-copy_at_before :
    (b : Bytes) (off : ℕ) (src : Bytes) (i : ℕ) → i < off → at (copy_at b off src) i ≡ at b i
unfolding copy_at
at-copy_at_before b off [] i h = refl
at-copy_at_before b off (x ∷ src) i h =
    at-copy_at_before (set b off x) (off + 1) src i (omega arith)
    ∙ get_or-set_ne b off i x 0 (omega arith)

at-take : (n : ℕ) (b : Bytes) (j : ℕ) → j < n → at (take n b) j ≡ at b j
at-take zero b j h = absurd (omega arith)
at-take (suc n) [] j h = refl
at-take (suc n) (x ∷ b) zero h = refl
at-take (suc n) (x ∷ b) (suc j) h = at-take n b j (omega arith)

at-drop : (n : ℕ) (b : Bytes) (j : ℕ) → at (drop n b) j ≡ at b (n + j)
at-drop zero b j = let e : 0 + j ≡ j = omega arith in rw e refl
at-drop (suc n) [] j = refl
at-drop (suc n) (x ∷ b) j = let e : suc n + j ≡ suc (n + j) = omega arith in rw e (at-drop n b j)

-- A field of a slice is a field of the buffer.
pub at-slice :
    (b : Bytes) (from to k : ℕ) → from + k < to → at (slice b from to) k ≡ at b (from + k)
at-slice b from to k h = at-take (to - from) (drop from b) k (omega arith) ∙ at-drop from b k

pub get_u16-slice :
    (b : Bytes) (from to k : ℕ)
    → from + k + 1 < to
    → get_u16 (slice b from to) k ≡ get_u16 b (from + k)
unfolding get_u16
get_u16-slice b from to k h =
    let e : from + (k + 1) ≡ from + k + 1 = omega arith in
    rw (at-slice b from to k (omega arith), at-slice b from to (k + 1) (omega arith), e) refl

pub get_u16-copy_at_before :
    (b : Bytes) (off : ℕ) (src : Bytes) (i : ℕ)
    → i + 1 < off
    → get_u16 (copy_at b off src) i ≡ get_u16 b i
unfolding get_u16
get_u16-copy_at_before b off src i h =
    rw (at-copy_at_before b off src i (omega arith), at-copy_at_before b off src (i + 1) h) refl
