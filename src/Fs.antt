-- ===== src/Fs.antt =====
-- servers/libtanix-fs/src/lib.rs: a FAT16 volume over a device of sectors. The device is a parameter.
pub mod Fat
pub mod File
pub mod Mount
pub mod Root
pub mod Write
mod Ram
use tanix.Bytes.{Bytes, at}
use tanix.Prelude.{ℕ, ◌+◌, ◌*◌, ◌/◌, ◌%◌, ◌^◌, Bool, Option, set}

-- `BlockIo`. `none` is a read that failed.
pub record BlockIo : Type 1 where
  pub Dev : Type 0
  pub read_sector : ℕ → Dev → Option Bytes × Dev
  pub write_sector : ℕ → Bytes → Dev → Bool × Dev

abbrev pub max_cached_clusters : ℕ
max_cached_clusters = 4096

abbrev pub max_root_entries : ℕ
max_root_entries = 512

-- `u16::from_le_bytes([buf[off], buf[off + 1]])`
unfoldable pub get_le16 : Bytes → ℕ → ℕ
get_le16 buf off = at buf off + at buf (off + 1) * 2 ^ 8

-- `buf[off] = (v & 0xFF) as u8; buf[off + 1] = (v >> 8) as u8;`
unfoldable pub put_le16 : Bytes → ℕ → ℕ → Bytes
put_le16 buf off v = set (set buf off (v % 2 ^ 8)) (off + 1) (v / 2 ^ 8 % 2 ^ 8)
