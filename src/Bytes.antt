-- ===== src/Bytes.antt =====
-- Byte buffers, as lists of numbers below 256. A read or a write past the end, a panic in the source,
-- gives 0 or changes nothing; the theorems give the bounds under which that does not happen.
pub mod Copy
pub mod Split
use tanix.Prelude.{
  ℕ, ◌+◌, ◌-◌, ◌<◌, List, [], ◌∷◌, get_or, set, take, drop, Bool, true, false, ◌&&◌, ◌==◌, All,
}

abbrev pub Bytes : Type 0
Bytes = List ℕ

abbrev pub IsBytes : Bytes → Type 0
IsBytes = All (λ b. b < 256)

-- `buf[i]`
abbrev pub at : Bytes → ℕ → ℕ
at buf i = get_or buf i 0

-- `&buf[from..to]`
abbrev pub slice : Bytes → ℕ → ℕ → Bytes
slice buf from to = take (to - from) (drop from buf)

-- `buf[off..off + src.len()].copy_from_slice(src)`
unfoldable pub copy_at : Bytes → ℕ → Bytes → Bytes
copy_at buf off [] = buf
copy_at buf off (b ∷ src) = copy_at (set buf off b) (off + 1) src

unfoldable pub eq_bytes : Bytes → Bytes → Bool
eq_bytes [] [] = true
eq_bytes [] (_ ∷ _) = false
eq_bytes (_ ∷ _) [] = false
eq_bytes (a ∷ as') (b ∷ bs) = a == b && eq_bytes as' bs
