-- ===== src/Fs/Fat/Entries.antt =====
-- The entries of the cached table of servers/libtanix-fs/src/lib.rs.
use tanix.Fs.{get_le16, put_le16}
use tanix.Fs.Fat.{Fat16, fat_entry, set_fat_entry}
use tanix.Prelude.{
  ℕ, ◌+◌, ◌*◌, ◌/◌, ◌%◌, ◌^◌, ◌<◌, ◌≤◌, ◌≡◌, ◌≢◌, ◌∙◌, arith, length, set, length-set,
  get_or-set_self, get_or-set_ne,
}

-- The table covers its entries.
pub record IsTable (fs : Fat16) : Type 0 where
  pub covered : fs.fat_entries * 2 ≤ length fs.fat
  pub numbered : fs.fat_entries < 2 ^ 16

module _ (fs : Fat16) (c v : ℕ) where
  pub fat_entry-set_fat_entry :
      c * 2 + 1 < length fs.fat → v < 2 ^ 16 → fat_entry c (set_fat_entry c v fs) ≡ v
  unfolding fat_entry set_fat_entry get_le16 put_le16
  fat_entry-set_fat_entry inside small = omega (
    arith,
    get_or-set_ne (set fs.fat (c * 2) (v % 2 ^ 8)) (c * 2 + 1) (c * 2) (v / 2 ^ 8 % 2 ^ 8) 0
        (omega arith),
    get_or-set_self fs.fat (c * 2) (v % 2 ^ 8) 0 (omega arith),
    get_or-set_self (set fs.fat (c * 2) (v % 2 ^ 8)) (c * 2 + 1) (v / 2 ^ 8 % 2 ^ 8) 0
        (omega (arith, length-set fs.fat (c * 2) (v % 2 ^ 8))),
  )

  pub fat_entry-set_fat_entry_ne :
      (d : ℕ) → d ≢ c → fat_entry d (set_fat_entry c v fs) ≡ fat_entry d fs
  unfolding fat_entry set_fat_entry get_le16 put_le16
  fat_entry-set_fat_entry_ne d ne = omega (
    arith,
    get_or-set_ne (set fs.fat (c * 2) (v % 2 ^ 8)) (c * 2 + 1) (d * 2) (v / 2 ^ 8 % 2 ^ 8) 0
        (omega arith),
    get_or-set_ne (set fs.fat (c * 2) (v % 2 ^ 8)) (c * 2 + 1) (d * 2 + 1) (v / 2 ^ 8 % 2 ^ 8) 0
        (omega arith),
    get_or-set_ne fs.fat (c * 2) (d * 2) (v % 2 ^ 8) 0 (omega arith),
    get_or-set_ne fs.fat (c * 2) (d * 2 + 1) (v % 2 ^ 8) 0 (omega arith),
  )

  pub length-set_fat_entry : length (set_fat_entry c v fs).fat ≡ length fs.fat
  unfolding set_fat_entry put_le16
  length-set_fat_entry =
      length-set (set fs.fat (c * 2) (v % 2 ^ 8)) (c * 2 + 1) (v / 2 ^ 8 % 2 ^ 8)
      ∙ length-set fs.fat (c * 2) (v % 2 ^ 8)
