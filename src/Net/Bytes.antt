-- ===== src/Net/Bytes.antt =====
-- servers/libtanix-net/src/ip.rs: the big-endian fields of a buffer.
pub mod Fields
use tanix.Bytes.{Bytes, at}
use tanix.Prelude.{
  ℕ, zero, suc, ◌+◌, ◌-◌, ◌*◌, ◌/◌, ◌%◌, ◌^◌, ◌<◌, ◌≤◌, ◌≡◌, ◌≢◌, ◌⊎◌, inl, sym, ◌∙◌, refl, List,
  [], ◌∷◌, ◌++◌, arith, length, get_or, set, take, drop, Bool, true, false, ◌&&◌, ◌==◌, All,
  length-set, get_or-set_self, get_or-set_ne,
}

unfoldable pub put_u16 : Bytes → ℕ → ℕ → Bytes
put_u16 buf off v = set (set buf off (v / 2 ^ 8 % 2 ^ 8)) (off + 1) (v % 2 ^ 8)

unfoldable pub put_u32 : Bytes → ℕ → ℕ → Bytes
put_u32 buf off v = put_u16 (put_u16 buf off (v / 2 ^ 16 % 2 ^ 16)) (off + 2) (v % 2 ^ 16)

-- `hi << 8 | lo`, of bytes.
unfoldable pub get_u16 : Bytes → ℕ → ℕ
get_u16 buf off = at buf off * 2 ^ 8 + at buf (off + 1)

unfoldable pub get_u32 : Bytes → ℕ → ℕ
get_u32 buf off = get_u16 buf off * 2 ^ 16 + get_u16 buf (off + 2)

pub length-put_u16 : (buf : Bytes) (off v : ℕ) → length (put_u16 buf off v) ≡ length buf
unfolding put_u16
length-put_u16 buf off v =
    length-set (set buf off (v / 2 ^ 8 % 2 ^ 8)) (off + 1) (v % 2 ^ 8)
    ∙ length-set buf off (v / 2 ^ 8 % 2 ^ 8)

pub at-put_u16_ne :
    (buf : Bytes) (off v i : ℕ) → i ≢ off → i ≢ off + 1 → at (put_u16 buf off v) i ≡ at buf i
unfolding put_u16
at-put_u16_ne buf off v i p q =
    get_or-set_ne (set buf off (v / 2 ^ 8 % 2 ^ 8)) (off + 1) i (v % 2 ^ 8) 0 (λ e. q (sym e))
    ∙ get_or-set_ne buf off i (v / 2 ^ 8 % 2 ^ 8) 0 (λ e. p (sym e))

-- The two bytes that `put_u16` writes.
pub at-put_u16 :
    (buf : Bytes) (off v : ℕ)
    → off + 1 < length buf
    → (at (put_u16 buf off v) off ≡ v / 2 ^ 8 % 2 ^ 8)
      × (at (put_u16 buf off v) (off + 1) ≡ v % 2 ^ 8)
unfolding put_u16
at-put_u16 buf off v h = (
  get_or-set_ne (set buf off (v / 2 ^ 8 % 2 ^ 8)) (off + 1) off (v % 2 ^ 8) 0 (omega arith)
      ∙ get_or-set_self buf off (v / 2 ^ 8 % 2 ^ 8) 0 (omega arith),
  get_or-set_self (set buf off (v / 2 ^ 8 % 2 ^ 8)) (off + 1) (v % 2 ^ 8) 0
      (omega (arith, length-set buf off (v / 2 ^ 8 % 2 ^ 8))),
)

-- A 16-bit field is read back as written.
pub get_u16-put_u16 :
    (buf : Bytes) (off v : ℕ)
    → off + 1 < length buf
    → v < 2 ^ 16
    → get_u16 (put_u16 buf off v) off ≡ v
unfolding get_u16
get_u16-put_u16 buf off v h small = omega (arith, at-put_u16 buf off v h)

pub get_u16-put_u16_ne :
    (buf : Bytes) (off v i : ℕ)
    → (i + 1 < off) ⊎ (off + 1 < i)
    → get_u16 (put_u16 buf off v) i ≡ get_u16 buf i
unfolding get_u16
get_u16-put_u16_ne buf off v i h =
    rw (at-put_u16_ne buf off v i (omega arith) (omega arith))
      (rw (at-put_u16_ne buf off v (i + 1) (omega arith) (omega arith)))

-- A 32-bit value written inside the buffer is read back as written.
get_u32-put_u32 :
    (buf : Bytes) (off v : ℕ)
    → off + 3 < length buf
    → v < 2 ^ 32
    → get_u32 (put_u32 buf off v) off ≡ v
unfolding get_u32 put_u32
get_u32-put_u32 buf off v h small = omega (
  arith,
  get_u16-put_u16 (put_u16 buf off (v / 2 ^ 16 % 2 ^ 16)) (off + 2) (v % 2 ^ 16)
      (omega (arith, length-put_u16 buf off (v / 2 ^ 16 % 2 ^ 16))) (omega arith),
  get_u16-put_u16_ne (put_u16 buf off (v / 2 ^ 16 % 2 ^ 16)) (off + 2) (v % 2 ^ 16) off
      (inl (omega arith)),
  get_u16-put_u16 buf off (v / 2 ^ 16 % 2 ^ 16) (omega arith) (omega arith),
)

-- `a == b`, of byte arrays.
