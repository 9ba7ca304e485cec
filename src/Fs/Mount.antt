-- ===== src/Fs/Mount.antt =====
-- `Fat16::mount` and `Fat16::flush_fat` in servers/libtanix-fs/src/lib.rs.
pub mod Sound
mod Tests
use tanix.Bytes.{Bytes, at, slice, copy_at}
use tanix.Fs.{BlockIo, get_le16, max_cached_clusters, max_root_entries}
use tanix.Fs.Fat.{Fat16}
use tanix.Prelude.{
  ℕ, zero, suc, ◌+◌, ◌-◌, ◌*◌, ◌/◌, ◌%◌, ◌^◌, min, Bool, true, false, not, ◌&&◌, ◌||◌, Option, none,
  some, leb, ltb, ◌==◌, replicate, if◌then◌else◌,
}

-- `fs.fat.len()`
abbrev pub fat_len : ℕ
fat_len = max_cached_clusters * 2

-- `u8::is_power_of_two`
unfoldable pub is_power_of_two : ℕ → Bool
is_power_of_two n =
    n == 1 || n == 2 || n == 4 || n == 8 || n == 16 || n == 32 || n == 64 || n == 128

-- The fields of the boot sector.
unfoldable pub boot_data_base : Bytes → ℕ
boot_data_base bs =
    let root_sectors = (get_le16 bs 0x11 * 32 + 511) / 512 in
    get_le16 bs 0x0E + at bs 0x10 * get_le16 bs 0x16 + root_sectors

unfoldable pub boot_clusters : Bytes → ℕ
boot_clusters bs = (get_le16 bs 0x13 - boot_data_base bs) / at bs 0x0D % 2 ^ 16

-- The early returns of `mount` behind the read of the boot sector.
unfoldable pub is_rejected : Bytes → Bool
is_rejected bs =
    not (at bs 510 == 0x55)
    || not (at bs 511 == 0xAA)
    || not (get_le16 bs 0x0B == 512)
    || at bs 0x0D == 0
    || not (is_power_of_two (at bs 0x0D))
    || at bs 0x10 == 0
    || get_le16 bs 0x16 == 0
    || get_le16 bs 0x13 == 0
    || leb (get_le16 bs 0x13) (boot_data_base bs)
    || ltb (boot_clusters bs) 2
    || ltb max_cached_clusters (boot_clusters bs)

-- The volume with an empty table.
unfoldable pub boot_volume : Bytes → Fat16
boot_volume bs = record {
  sector_size = get_le16 bs 0x0B;
  sectors_per_cluster = at bs 0x0D;
  fat_base = get_le16 bs 0x0E;
  fat_sectors = get_le16 bs 0x16;
  root_base = get_le16 bs 0x0E + at bs 0x10 * get_le16 bs 0x16;
  root_entries = min (get_le16 bs 0x11) max_root_entries;
  data_base = boot_data_base bs;
  total_clusters = boot_clusters bs;
  cluster_bytes = 512 * at bs 0x0D;
  fat = replicate fat_len 0;
  fat_entries = boot_clusters bs;
}

-- `panics`: `fs.fat.len() - dst` is below 0.
pub data Mounting : Type 0 where
  mounted : Fat16 → Mounting
  rejected : Mounting
  panics : Mounting

module _ (B : BlockIo) where
  -- One sector of the table.
  abbrev pub with_sector : ℕ → Bytes → Fat16 → Fat16
  with_sector i sec fs = record fs {
    fat = copy_at fs.fat (i * 512) (slice sec 0 (min (fat_len - i * 512) 512));
  }

  abbrev pub loaded :
      (Bytes → B.Dev → Mounting × B.Dev) → ℕ → Option Bytes × B.Dev → Mounting × B.Dev
  loaded rest i (none, dev) = (rejected, dev)
  loaded rest i (some sec, dev) = if ltb fat_len (i * 512) then (panics, dev) else rest sec dev

  -- The loop that loads the table, `rounds` sectors from `i` on.
  unfoldable pub load_fat : ℕ → ℕ → Fat16 → B.Dev → Mounting × B.Dev
  load_fat zero i fs dev = (mounted fs, dev)
  load_fat (suc rounds) i fs dev =
      loaded (λ sec dev. load_fat rounds (i + 1) (with_sector i sec fs) dev) i
        (B.read_sector (fs.fat_base + i) dev)

  abbrev pub booted : Option Bytes × B.Dev → Mounting × B.Dev
  booted (none, dev) = (rejected, dev)
  booted (some bs, dev) =
      if is_rejected bs then (rejected, dev) else load_fat (get_le16 bs 0x16) 0 (boot_volume bs) dev

  unfoldable pub mount : B.Dev → Mounting × B.Dev
  mount dev = booted (B.read_sector 0 dev)

  -- A sector of the table as it is written back.
  unfoldable pub fat_sector : ℕ → Fat16 → Bytes
  fat_sector i fs =
      let n = fs.fat_entries * 2 in
      let src = i * 512 in
      let part = slice fs.fat src (src + min (n - src) 512) in
      if ltb src n then copy_at (replicate 512 0) 0 part else replicate 512 0

  -- The loop over the sectors of the table, `rounds` of them from `i` on.
  unfoldable pub flush_from : ℕ → ℕ → Fat16 → B.Dev → Bool × B.Dev
  flush_from zero i fs dev = (true, dev)
  flush_from (suc rounds) i fs dev =
      let r = B.write_sector (fs.fat_base + i) (fat_sector i fs) dev in
      let rest = flush_from rounds (i + 1) fs r.1 in if r.0 then rest else (false, r.1)

  unfoldable pub flush_fat : Fat16 → B.Dev → Bool × B.Dev
  flush_fat fs dev = flush_from fs.fat_sectors 0 fs dev
