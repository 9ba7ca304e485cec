-- ===== src/Fs/File.antt =====
-- `Fat16::read_file` in servers/libtanix-fs/src/lib.rs. A cluster outside of the cached table, a panic in the
-- source, has an entry of 0 here.
pub mod Data
pub mod Read
pub mod Whole
mod Tests
use tanix.Bytes.{Bytes, slice, copy_at}
use tanix.Fs.{BlockIo}
use tanix.Fs.Fat.{Fat16, next_cluster, sector_of}
use tanix.Prelude.{
  ℕ, zero, suc, ◌+◌, ◌-◌, min, Bool, true, false, not, ◌&&◌, ◌||◌, Option, none, some, leb, ltb,
  ◌==◌, length, if◌then◌else◌, [],
}

-- `while cluster >= 2 && skip >= cb`: the covering cluster and what is left of `skip`; `none` where
-- the chain ends before it. With `cb` not 0, `skip + 1` rounds are enough.
unfoldable pub covering : ℕ → ℕ → ℕ → Fat16 → Option (ℕ × ℕ)
covering zero cluster skip fs = some (cluster, skip)
covering (suc rounds) cluster skip fs =
    let next = next_cluster cluster fs in
    let onward = covering rounds next (skip - fs.cluster_bytes) fs in
    if leb 2 cluster && leb fs.cluster_bytes skip
    then (if next == 0 then none else onward)
    else some (cluster, skip)

abbrev or_empty : Option Bytes → Bytes
or_empty none = []
or_empty (some b) = b

abbrev is_none : Option Bytes → Bool
is_none none = true
is_none (some b) = false

module _ (B : BlockIo) where
  -- `out`, the bytes written to it, the device, and whether every read succeeded.
  abbrev pub Progress : Type 0
  Progress = Bytes × ℕ × B.Dev × Bool

  -- The `for` loop over the sectors of a cluster, `rounds` of them from `sector` on.
  unfoldable pub read_sectors :
      ℕ → (sector sskip remain : ℕ) → (out : Bytes) (written : ℕ) (dev : B.Dev) → Progress
  read_sectors zero sector sskip remain out written dev = (out, written, dev, true)
  read_sectors (suc rounds) sector sskip remain out written dev =
      let got = B.read_sector sector dev in
      let s = min sskip 512 in
      let n = min (min (512 - s) (remain - written)) (length out - written) in
      let copied = copy_at out written (slice (or_empty got.0) s (s + n)) in
      let rest = read_sectors rounds (sector + 1) (sskip - 512) remain copied (written + n) got.1 in
      if leb remain written || leb (length out) written
      then (out, written, dev, true)
      else (if is_none got.0 then (out, written, got.1, false) else rest)

  -- The `while` loop over the clusters. A round copies a byte at least, so `remain + 1` rounds are enough.
  unfoldable pub read_clusters :
      ℕ → (cluster sskip remain : ℕ) → (out : Bytes) (written : ℕ) (dev : B.Dev) → Fat16 → Progress
  read_clusters zero cluster sskip remain out written dev fs = (out, written, dev, true)
  read_clusters (suc rounds) cluster sskip remain out written dev fs =
      let r =
        read_sectors fs.sectors_per_cluster (sector_of cluster fs) sskip remain out written dev in
      let rest = read_clusters rounds (next_cluster cluster fs) 0 remain r.0 r.1 r.2 fs in
      if leb 2 cluster && (ltb written remain && ltb written (length out))
      then (if r.3 then rest else r)
      else (out, written, dev, true)

  -- From the covering cluster on.
  abbrev pub read_covered : Option (ℕ × ℕ) → ℕ → Bytes → B.Dev → Fat16 → Bytes × ℕ × B.Dev
  read_covered none remain out dev fs = (out, 0, dev)
  read_covered (some (cluster, skip)) remain out dev fs =
      let r = read_clusters (remain + 1) cluster skip remain out 0 dev fs in
      if ltb cluster 2 then (out, 0, dev) else (r.0, r.1, r.2)

  -- `out` after the read, the number of bytes read, and the device.
  unfoldable pub read_file :
      (first_cluster size offset : ℕ) (out : Bytes) (dev : B.Dev) → Fat16 → Bytes × ℕ × B.Dev
  read_file first_cluster size offset out dev fs =
      if leb size offset || length out == 0
      then (out, 0, dev)
      else read_covered (covering (offset + 1) first_cluster offset fs) (size - offset) out dev fs
