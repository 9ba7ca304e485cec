-- ===== src/Fs/File/Data.antt =====
-- The data of a file on a device that reads without errors, for servers/libtanix-fs/src/lib.rs.
use tanix.Bytes.{Bytes}
use tanix.Bytes.Split.{length-append}
use tanix.Fs.{BlockIo}
use tanix.Fs.Fat.{Fat16, sector_of}
use tanix.Prelude.{ℕ, zero, suc, ◌+◌, ◌*◌, ◌<◌, ◌≡◌, some, List, [], ◌∷◌, ◌++◌, arith, length}

-- The device always reads the 512 bytes of `disk`, and stays as it is.
pub record Reads (B : BlockIo) (disk : ℕ → Bytes) (dev : B.Dev) : Type 0 where
  pub reads : (s : ℕ) → B.read_sector s dev ≡ (some (disk s), dev)
  pub sized : (s : ℕ) → length (disk s) ≡ 512

-- The clusters are `sectors_per_cluster` sectors, at least one.
pub record IsSized (fs : Fat16) : Type 0 where
  pub bytes : fs.cluster_bytes ≡ fs.sectors_per_cluster * 512
  pub some_sector : 0 < fs.sectors_per_cluster

unfoldable pub sectors_data : (ℕ → Bytes) → ℕ → ℕ → Bytes
sectors_data disk zero s = []
sectors_data disk (suc n) s = disk s ++ sectors_data disk n (s + 1)

-- The clusters of a chain one behind the other.
unfoldable pub chain_data : (ℕ → Bytes) → Fat16 → List ℕ → Bytes
chain_data disk fs [] = []
chain_data disk fs (c ∷ cs) =
    sectors_data disk fs.sectors_per_cluster (sector_of c fs) ++ chain_data disk fs cs

pub length-sectors_data :
    (disk : ℕ → Bytes)
    → ((s : ℕ) → length (disk s) ≡ 512)
    → (n s : ℕ) → length (sectors_data disk n s) ≡ n * 512
unfolding sectors_data
length-sectors_data disk h zero s = omega arith
length-sectors_data disk h (suc n) s = omega (
  arith,
  length-append (disk s) (sectors_data disk n (s + 1)),
  h s,
  length-sectors_data disk h n (s + 1),
)

pub length-chain_data :
    (disk : ℕ → Bytes) (fs : Fat16)
    → ((s : ℕ) → length (disk s) ≡ 512)
    → IsSized fs
    → (cs : List ℕ) → length (chain_data disk fs cs) ≡ length cs * fs.cluster_bytes
unfolding chain_data
length-chain_data disk fs h z [] = omega arith
length-chain_data disk fs h z (c ∷ cs) =
    let here = sectors_data disk fs.sectors_per_cluster (sector_of c fs) in
    ground (
      arith,
      length-append here (chain_data disk fs cs),
      z.bytes,
      length-sectors_data disk h fs.sectors_per_cluster (sector_of c fs),
      length-chain_data disk fs h z cs,
    )
