-- ===== src/Fs/Root/Tests.antt =====
-- A directory with one file and room for more, on a device that is a map of sectors.
use tanix.Bytes.{Bytes, copy_at, eq_bytes}
use tanix.Fs.Fat.{Fat16}
use tanix.Fs.Root.{
  ShortName, DirEntry, encode, decode, entry_place, entry_at, root_sector, new_entry, last_dot,
  short_name, read_root_sector, read_root_entry, write_root_entry, find_from, find_root,
  create_from, create_root_file,
}
use tanix.Fs.Root.Found.{find_root-create_root_file}
use tanix.Fs.Ram.{ram, ram-IsReliable}
use tanix.Prelude.{ℕ, ◌≡◌, refl, none, some, [], ◌∷◌, replicate}

-- "a.txt" and "B".
abbrev text : Bytes
text = 97 ∷ 46 ∷ 116 ∷ 120 ∷ 116 ∷ []

abbrev a_txt : ShortName
a_txt = 65 ∷ 32 ∷ 32 ∷ 32 ∷ 32 ∷ 32 ∷ 32 ∷ 32 ∷ 84 ∷ 88 ∷ 84 ∷ []

abbrev other : DirEntry
other = record (new_entry (66 ∷ replicate 10 32)) { start_cluster = 2; size = 70000 }

abbrev volume : Fat16
volume = record {
  sector_size = 512;
  sectors_per_cluster = 4;
  fat_base = 1;
  fat_sectors = 2;
  root_base = 3;
  root_entries = 16;
  data_base = 4;
  total_clusters = 511;
  cluster_bytes = 2048;
  fat = replicate 8192 0;
  fat_entries = 511;
}

abbrev disk : ℕ → Bytes
disk s = copy_at (replicate 512 0) 0 (encode other)

text-short_name : short_name text ≡ some a_txt
unfolding short_name last_dot copy_at
text-short_name = refl

not_there : (find_root ram a_txt volume disk).0 ≡ none
unfolding find_root find_from read_root_entry read_root_sector entry_at decode encode entry_place
    eq_bytes copy_at root_sector
not_there = refl

made_second : (create_root_file ram a_txt volume disk).0 ≡ some 1
unfolding create_root_file create_from read_root_entry read_root_sector write_root_entry entry_at
    decode encode entry_place copy_at root_sector
made_second = refl

find_root-create_root_file_example :
    (find_root ram a_txt volume (create_root_file ram a_txt volume disk).1).0
    ≡ some (1, new_entry a_txt)
find_root-create_root_file_example =
    find_root-create_root_file ram ram-IsReliable volume disk text a_txt 1 text-short_name not_there
      made_second
