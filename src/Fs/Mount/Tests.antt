-- ===== src/Fs/Mount/Tests.antt =====
-- `Fat16::mount` of servers/libtanix-fs/src/lib.rs on the boot sector of its own tests.
use tanix.Bytes.{Bytes}
use tanix.Fs.{BlockIo, get_le16}
use tanix.Fs.Mount.{is_rejected, is_power_of_two, boot_data_base, boot_clusters, mount}
use tanix.Fs.Mount.Sound.{Mounts, mount-Mounts}
use tanix.Prelude.{◌≡◌, refl, true, false, some, [], ◌∷◌, ◌++◌, replicate}

-- 2048 sectors, 4 a cluster, 1 reserved, one table of 2 sectors, 16 root entries.
abbrev boot : Bytes
boot =
    replicate 11 0
    ++ (0 ∷ 2 ∷ 4 ∷ 1 ∷ 0 ∷ 1 ∷ 16 ∷ 0 ∷ 0 ∷ 8 ∷ 0xF8 ∷ 2 ∷ 0 ∷ [])
    ++ replicate 486 0
    ++ (0x55 ∷ 0xAA ∷ [])

abbrev device : BlockIo
device = record {
  Dev = Unit;
  read_sector = λ s dev. (some boot, dev);
  write_sector = λ s buf dev. (true, dev);
}

mount-Mounts_example : Mounts (get_le16 boot 0x16) (mount device tt).0
mount-Mounts_example = mount-Mounts device tt boot tt refl

boot_test : (is_rejected boot ≡ false) × (boot_data_base boot ≡ 4) × (boot_clusters boot ≡ 511)
unfolding is_rejected is_power_of_two boot_data_base boot_clusters get_le16
boot_test = (refl, refl, refl)
