-- ===== src/Fs/Mount/Sound.antt =====
-- What `Fat16::mount` in servers/libtanix-fs/src/lib.rs lets through.
use mathlib.Core.Path.{subst}
use tanix.Bytes.{Bytes, at, slice}
use tanix.Bytes.Copy.{length-copy_at}
use tanix.Fs.{BlockIo, get_le16, max_cached_clusters}
use tanix.Fs.Fat.{Fat16}
use tanix.Fs.Fat.Entries.{IsTable}
use tanix.Fs.File.Data.{IsSized}
use tanix.Fs.Mount.{
  fat_len, is_rejected, is_power_of_two, boot_data_base, boot_clusters, boot_volume, Mounting,
  mounted, rejected, panics, with_sector, load_fat, loaded, mount,
}
use tanix.Prelude.{
  ℕ, zero, suc, ◌+◌, ◌-◌, ◌*◌, ◌<◌, ◌≤◌, ◌≡◌, min, Bool, not, ◌||◌, ◌==◌, leb, replicate, false,
  Option, none, some, ltb, length, arith, length-replicate, inl, inr, Bool-cases, ltb→lt,
}

-- Clusters of at least one sector, a table that covers its entries, and 2 to 4096 of them.
pub record IsVolume (fs : Fat16) : Type 0 where
  pub sized : IsSized fs
  pub table : IsTable fs
  pub least : 2 ≤ fs.fat_entries
  pub most : fs.fat_entries ≤ max_cached_clusters
  pub cached : length fs.fat ≡ fat_len

-- A volume as above, a volume turned down, or a table of 18 sectors at least.
abbrev pub Mounts : ℕ → Mounting → Type 0
Mounts sectors (mounted fs) = IsVolume fs
Mounts sectors rejected = Unit
Mounts sectors panics = 18 ≤ sectors

-- What has passed the guards that bound the volume.
guards :
    (a b c d e f g h : Bool) (sectors clusters : ℕ)
    → (not a
        || not b
        || not c
        || sectors == 0
        || not d
        || e
        || f
        || g
        || h
        || ltb clusters 2
        || ltb max_cached_clusters clusters)
      ≡ false
    → (0 < sectors) × (2 ≤ clusters) × (clusters ≤ max_cached_clusters)
guards a b c d e f g h sectors clusters ok = ground arith

boot_volume-IsVolume : (bs : Bytes) → is_rejected bs ≡ false → IsVolume (boot_volume bs)
unfolding boot_volume is_rejected
boot_volume-IsVolume bs ok =
    let (some_sector, least, most) =
      guards (at bs 510 == 0x55) (at bs 511 == 0xAA) (get_le16 bs 0x0B == 512)
        (is_power_of_two (at bs 0x0D)) (at bs 0x10 == 0) (get_le16 bs 0x16 == 0)
        (get_le16 bs 0x13 == 0) (leb (get_le16 bs 0x13) (boot_data_base bs)) (at bs 0x0D)
        (boot_clusters bs) ok in
    let long : length (replicate {A = ℕ} fat_len 0) ≡ fat_len =
      length-replicate {A = ℕ} fat_len 0 in
    record {
      sized = record { bytes = omega arith; some_sector = some_sector };
      table = record { covered = omega (arith, most, long); numbered = omega (arith, most) };
      least = least;
      most = most;
      cached = long;
    }

module _ (B : BlockIo) where
  with_sector-IsVolume :
      (i : ℕ) (sec : Bytes) (fs : Fat16) → IsVolume fs → IsVolume (with_sector B i sec fs)
  with_sector-IsVolume i sec fs v =
      let same = length-copy_at fs.fat (i * 512) (slice sec 0 (min (fat_len - i * 512) 512)) in
      record {
        sized = record { bytes = v.sized.bytes; some_sector = v.sized.some_sector };
        table = record {
          covered = omega (arith, same, v.table.covered);
          numbered = v.table.numbered;
        };
        least = v.least;
        most = v.most;
        cached = omega (arith, same, v.cached);
      }

  load_fat-Mounts :
      (rounds i : ℕ) (fs : Fat16) (dev : B.Dev)
      → IsVolume fs
      → Mounts (i + rounds) (load_fat B rounds i fs dev).0
  unfolding load_fat
  load_fat-Mounts zero i fs dev v = v
  load_fat-Mounts (suc rounds) i fs dev v =
      after
        (λ sec dev'.
          load_fat-Mounts rounds (i + 1) (with_sector B i sec fs) dev'
            (with_sector-IsVolume i sec fs v))
        (B.read_sector (fs.fat_base + i) dev)
    where
      after :
          ((sec : Bytes) (dev' : B.Dev)
            → Mounts (i + 1 + rounds) (load_fat B rounds (i + 1) (with_sector B i sec fs) dev').0)
          → (r : Option Bytes × B.Dev)
          → Mounts
              (i + suc rounds)
              (loaded B (λ sec dev. load_fat B rounds (i + 1) (with_sector B i sec fs) dev) i r).0
      after ih (none, dev') = tt
      after ih (some sec, dev') =
          let e : i + 1 + rounds ≡ i + suc rounds = omega arith in
          elim (Bool-cases (ltb fat_len (i * 512))) [
            | inl past ↦ rw past (omega (arith, ltb→lt fat_len (i * 512) past))
            | inr inside ↦ rw inside (
                subst
                  (λ (n : ℕ). Mounts n (load_fat B rounds (i + 1) (with_sector B i sec fs) dev').0)
                  e (ih sec dev'))
          ]

  -- Where the boot sector can be read: `mount` gives a volume whose clusters are of at least one sector
  -- and whose table covers 2 to 4096 entries, or turns the device down, or panics, which it does only
  -- where the boot sector says that the table has at least 18 sectors.
  pub mount-Mounts :
      (dev : B.Dev) (bs : Bytes) (dev' : B.Dev)
      → B.read_sector 0 dev ≡ (some bs, dev')
      → Mounts (get_le16 bs 0x16) (mount B dev).0
  unfolding mount
  mount-Mounts dev bs dev' e = rw e (elim (Bool-cases (is_rejected bs)) [
    | inl bad ↦ rw bad tt
    | inr ok ↦
        let sectors = get_le16 bs 0x16 in
        let all : 0 + sectors ≡ sectors = omega arith in
        rw ok (
          subst (λ (n : ℕ). Mounts n (load_fat B sectors 0 (boot_volume bs) dev').0) all
            (load_fat-Mounts sectors 0 (boot_volume bs) dev' (boot_volume-IsVolume bs ok)))
  ])
