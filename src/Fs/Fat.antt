-- ===== src/Fs/Fat.antt =====
-- servers/libtanix-fs/src/lib.rs: the mounted volume and its cached file allocation table.
pub mod Entries
pub mod Alloc
pub mod Chain
mod Tests
use tanix.Bytes.{Bytes}
use tanix.Fs.{get_le16, put_le16}
use tanix.Prelude.{
  ℕ, zero, suc, ◌+◌, ◌-◌, ◌*◌, Bool, true, false, ◌||◌, Option, none, some, leb, ltb, ◌==◌, length,
  if◌then◌else◌,
}
use tanix.Prelude.Count.{count_below}

abbrev pub fat_eoc : ℕ
fat_eoc = 0xFFFF

abbrev pub fat_free : ℕ
fat_free = 0

pub record Fat16 : Type 0 where
  pub sector_size : ℕ
  pub sectors_per_cluster : ℕ
  pub fat_base : ℕ
  pub fat_sectors : ℕ
  pub root_base : ℕ
  pub root_entries : ℕ
  pub data_base : ℕ
  pub total_clusters : ℕ
  pub cluster_bytes : ℕ
  pub fat : Bytes
  pub fat_entries : ℕ

-- Outside of the table, where the source panics, a read gives 0, which `write_file` tests for by
-- `is_cached`, and a write changes nothing.
unfoldable pub fat_entry : ℕ → Fat16 → ℕ
fat_entry cluster fs = get_le16 fs.fat (cluster * 2)

unfoldable pub set_fat_entry : ℕ → ℕ → Fat16 → Fat16
set_fat_entry cluster value fs = record fs { fat = put_le16 fs.fat (cluster * 2) value }

-- Both bytes of the entry are in the table.
abbrev pub is_cached : ℕ → Fat16 → Bool
is_cached cluster fs = ltb (cluster * 2 + 1) (length fs.fat)

-- Callers have `2 ≤ cluster`.
unfoldable pub sector_of : ℕ → Fat16 → ℕ
sector_of cluster fs = fs.data_base + (cluster - 2) * fs.sectors_per_cluster

unfoldable pub free_clusters : Fat16 → ℕ
free_clusters fs = count_below (λ i. fat_entry (i + 2) fs == fat_free) (fs.fat_entries - 2)

-- `for c in 2..self.fat_entries`: the first free cluster of `rounds` from `c` on.
unfoldable pub first_free : ℕ → ℕ → Fat16 → Option ℕ
first_free zero c fs = none
first_free (suc rounds) c fs =
    let later = first_free rounds (c + 1) fs in if fat_entry c fs == fat_free then some c else later

-- The new cluster ends the chain, and `prev` leads to it.
unfoldable pub link : ℕ → ℕ → Fat16 → Fat16
link prev c fs =
    let ended = set_fat_entry c fat_eoc fs in
    if prev == 0 then ended else set_fat_entry prev c ended

abbrev pub linked : ℕ → Fat16 → Option ℕ → Option ℕ × Fat16
linked prev fs none = (none, fs)
linked prev fs (some c) = (some c, link prev c fs)

unfoldable pub alloc_cluster : ℕ → Fat16 → Option ℕ × Fat16
alloc_cluster prev fs = linked prev fs (first_free (fs.fat_entries - 2) 2 fs)

-- 0 where the chain ends.
unfoldable pub next_cluster : ℕ → Fat16 → ℕ
next_cluster cluster fs = let e = fat_entry cluster fs in if leb 0xFFF8 e || ltb e 2 then 0 else e
