-- ===== src/Fs/Write/Tests.antt =====
-- Writes to a volume in memory.
use tanix.Bytes.{Bytes, copy_at}
use tanix.Fs.{get_le16, put_le16}
use tanix.Fs.Fat.{
  Fat16, fat_entry, set_fat_entry, first_free, link, alloc_cluster, next_cluster, sector_of,
}
use tanix.Fs.File.Data.{IsSized}
use tanix.Fs.Mount.{fat_sector, flush_from, flush_fat}
use tanix.Fs.Ram.{ram, ram-IsReliable, ram-IsSteady}
use tanix.Fs.Root.{
  DirEntry, new_entry, encode, entry_place, root_sector, read_root_sector, write_root_entry,
}
use tanix.Fs.Root.Codec.{Fits}
use tanix.Fs.Write.Safe.{IsSafe}
use tanix.Fs.Write.{
  returns, panics, allocated, next_or_new, reach, write_sectors, write_clusters, write_file,
}
use tanix.Fs.Write.Steps.{Spares}
use tanix.Fs.Write.Outside.{IsOutside, write_file-Spares}
use tanix.Fs.Write.Writes.{Answers, write_file-Answers}
use tanix.Prelude.{
  ℕ, ◌*◌, ◌+◌, ◌<◌, get_or-replicate, ◌≡◌, ◌≢◌, refl, some, [], ◌∷◌, arith, replicate, inl,
}

-- 8 clusters of one sector.
abbrev volume : Fat16
volume = record {
  sector_size = 512;
  sectors_per_cluster = 1;
  fat_base = 1;
  fat_sectors = 1;
  root_base = 2;
  root_entries = 16;
  data_base = 3;
  total_clusters = 8;
  cluster_bytes = 512;
  fat = replicate 16 0;
  fat_entries = 8;
}

abbrev disk : ℕ → Bytes
disk s = []

abbrev new_file : DirEntry
new_file = new_entry (66 ∷ replicate 10 32)

volume-IsSized : IsSized volume
volume-IsSized = record { bytes = refl; some_sector = omega arith }

boot-IsOutside : IsOutside 0 1 volume
unfolding root_sector
boot-IsOutside = record {
  low = omega arith;
  off_fat = inl (omega arith);
  off_entry = λ e. absurd (omega (arith, e));
}

-- Three bytes that reach from the first cluster of a new file into its second.
abbrev bytes : Bytes
bytes = 7 ∷ 8 ∷ 9 ∷ []

starts_nowhere : new_file.start_cluster ≢ 1
starts_nowhere = λ e. absurd (omega (arith, e))

new_file-Fits : Fits new_file
new_file-Fits = record {
  name = refl;
  crt_time = omega arith;
  crt_date = omega arith;
  last_acc_date = omega arith;
  hi_start = omega arith;
  wrt_time = omega arith;
  wrt_date = omega arith;
  start_cluster = omega arith;
  size = omega arith;
}

next_of_volume : (c : ℕ) → c * 2 + 1 < 16 → next_cluster c volume ≡ 0
unfolding next_cluster fat_entry get_le16
next_of_volume c h =
    rw
      (
        get_or-replicate {A = ℕ} 16 (c * 2) 0 0 (omega (arith, h)),
        get_or-replicate {A = ℕ} 16 (c * 2 + 1) 0 0 h,
      )
      refl

volume-IsSafe : IsSafe volume
volume-IsSafe = record {
  covered = omega arith;
  sized = omega arith;
  closed = λ c at. let e = next_of_volume c at in omega (arith, e);
}

write_file-Answers_example :
    Answers ram ram-IsReliable bytes 1 new_file 511
      (write_file ram bytes 1 new_file 511 disk volume)
write_file-Answers_example =
    write_file-Answers ram ram-IsReliable bytes 1 ram-IsSteady new_file 511 disk volume
      new_file-Fits volume-IsSized volume-IsSafe (omega arith) (omega arith) starts_nowhere

write_file-Spares_example : Spares ram 0 disk (write_file ram bytes 1 new_file 511 disk volume).3
write_file-Spares_example =
    write_file-Spares ram ram-IsReliable bytes 1 0 new_file 511 disk volume volume-IsSized
      boot-IsOutside starts_nowhere

returns_size : (write_file ram bytes 1 new_file 511 disk volume).0 ≡ returns (some 514)
unfolding write_file reach next_or_new allocated alloc_cluster first_free link next_cluster
    fat_entry set_fat_entry get_le16 put_le16 write_clusters write_sectors sector_of flush_fat
    flush_from fat_sector write_root_entry read_root_sector root_sector encode entry_place copy_at
returns_size = refl

-- A file that starts outside of the table.
abbrev stray : DirEntry
stray = record new_file { start_cluster = 5000; size = 512 }

stray_panics : (write_file ram bytes 1 stray 511 disk volume).0 ≡ panics
unfolding write_file reach next_or_new allocated alloc_cluster next_cluster fat_entry get_le16
    write_clusters write_sectors sector_of copy_at
stray_panics = refl
