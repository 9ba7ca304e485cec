-- ===== src/Fs/File/Tests.antt =====
-- A read of servers/libtanix-fs/src/lib.rs across two clusters of a small volume.
use tanix.Bytes.{Bytes, copy_at}
use tanix.Fs.{BlockIo, get_le16}
use tanix.Fs.Fat.{Fat16, fat_entry, next_cluster, sector_of}
use tanix.Fs.Fat.Chain.{IsChain}
use tanix.Fs.File.{covering, read_sectors, read_clusters, read_file}
use tanix.Fs.File.Data.{Reads, IsSized, chain_data}
use tanix.Fs.File.Whole.{IsRead, read_file-IsRead}
use tanix.Prelude.{replicate, length-replicate, ℕ, ◌-◌, ◌≡◌, refl, true, some, [], ◌∷◌, arith}

-- Clusters 2 and 4 hold a file, in the sectors 4 and 6.
abbrev volume : Fat16
volume = record {
  sector_size = 512;
  sectors_per_cluster = 1;
  fat_base = 1;
  fat_sectors = 1;
  root_base = 2;
  root_entries = 16;
  data_base = 4;
  total_clusters = 8;
  cluster_bytes = 512;
  fat = 0xF8 ∷ 0xFF ∷ 0xFF ∷ 0xFF ∷ 4 ∷ 0 ∷ 0 ∷ 0 ∷ 0xFF ∷ 0xFF ∷ 0 ∷ 0 ∷ 0 ∷ 0 ∷ 0 ∷ 0 ∷ [];
  fat_entries = 8;
}

-- Every byte of a sector is the sector's number.
abbrev disk : ℕ → Bytes
disk s = replicate 512 s

abbrev device : BlockIo
device = record {
  Dev = Unit;
  read_sector = λ s dev. (some (disk s), dev);
  write_sector = λ s buf dev. (true, dev);
}

device_lem : Reads device disk tt
device_lem = record { reads = λ s. refl; sized = length-replicate 512 }

volume_lem : IsSized volume
volume_lem = record { bytes = refl; some_sector = omega arith }

chain : IsChain volume (2 ∷ 4 ∷ [])
unfolding next_cluster fat_entry get_le16
chain = (omega arith, refl, (omega arith, refl, tt))

abbrev zeros : Bytes
zeros = 0 ∷ 0 ∷ 0 ∷ 0 ∷ []

read_file-IsRead_example :
    IsRead
      (1000 - 510)
      (chain_data disk volume (2 ∷ 4 ∷ []))
      510
      zeros
      tt
      (read_file device 2 1000 510 zeros tt volume)
read_file-IsRead_example =
    read_file-IsRead device disk tt device_lem volume volume_lem 2 (4 ∷ []) 1000 510 zeros chain
      (omega arith, (omega arith, tt))

read_file_test : read_file device 2 1000 510 zeros tt volume ≡ (4 ∷ 4 ∷ 6 ∷ 6 ∷ [], 4, tt)
unfolding read_file covering read_clusters read_sectors sector_of next_cluster fat_entry get_le16
    copy_at
read_file_test = refl
