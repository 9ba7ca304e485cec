-- ===== src/Fs/Fat/Tests.antt =====
-- The allocation of servers/libtanix-fs/src/lib.rs on a small volume.
use tanix.Fs.{get_le16}
use tanix.Fs.Fat.{Fat16, fat_entry, first_free, alloc_cluster, next_cluster}
use tanix.Fs.Fat.Alloc.{Allocates, alloc_cluster-Allocates}
use tanix.Fs.Fat.Chain.{IsChain, IsChain-alloc_cluster}
use tanix.Fs.Fat.Entries.{IsTable}
use tanix.Prelude.{◌≡◌, ◌≢◌, refl, inr, some, [], ◌∷◌, arith}

-- Clusters 2 and 4 hold a file; 3, 5, 6 and 7 are free.
abbrev volume : Fat16
volume = record {
  sector_size = 512;
  sectors_per_cluster = 1;
  fat_base = 1;
  fat_sectors = 1;
  root_base = 2;
  root_entries = 16;
  data_base = 3;
  total_clusters = 8;
  cluster_bytes = 512;
  fat = 0xF8 ∷ 0xFF ∷ 0xFF ∷ 0xFF ∷ 4 ∷ 0 ∷ 0 ∷ 0 ∷ 0xFF ∷ 0xFF ∷ 0 ∷ 0 ∷ 0 ∷ 0 ∷ 0 ∷ 0 ∷ [];
  fat_entries = 8;
}

table : IsTable volume
table = record { covered = omega arith; numbered = omega arith }

chain : IsChain volume (2 ∷ 4 ∷ [])
unfolding next_cluster fat_entry get_le16
chain = (omega arith, refl, (omega arith, refl, tt))

used : fat_entry 4 volume ≢ 0
unfolding fat_entry get_le16
used e = omega arith

alloc_cluster-Allocates_example : Allocates 4 volume (alloc_cluster 4 volume)
alloc_cluster-Allocates_example =
    alloc_cluster-Allocates volume 4 table (omega arith) (omega arith) (inr used)

alloc_cluster_test : (alloc_cluster 4 volume).0 ≡ some 3
unfolding alloc_cluster first_free fat_entry get_le16
alloc_cluster_test = refl

-- The file then has the clusters 2, 4 and 3.
IsChain-alloc_cluster_example : IsChain (alloc_cluster 4 volume).1 (2 ∷ 4 ∷ 3 ∷ [])
unfolding alloc_cluster first_free fat_entry get_le16
IsChain-alloc_cluster_example =
    IsChain-alloc_cluster volume 2 (4 ∷ []) table (omega arith) (omega arith) chain (omega arith)
      used
