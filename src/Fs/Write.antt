-- ===== src/Fs/Write.antt =====
-- `Fat16::write_file` in servers/libtanix-fs/src/lib.rs.
pub mod Steps
pub mod Safe
pub mod Chains
pub mod Clusters
pub mod Stored
pub mod Writes
pub mod Outside
mod Tests
use tanix.Bytes.{Bytes, slice, copy_at}
use tanix.Fs.{BlockIo}
use tanix.Fs.Fat.{Fat16, is_cached, next_cluster, sector_of, alloc_cluster}
use tanix.Fs.Mount.{flush_fat}
use tanix.Fs.Root.{DirEntry, write_root_entry}
use tanix.Prelude.{
  ℕ, zero, suc, ◌+◌, ◌-◌, ◌%◌, ◌^◌, min, Bool, true, false, ◌&&◌, ◌||◌, Option, none, some, leb,
  ltb, ◌==◌, length, replicate, if◌then◌else◌,
}

-- What a step along the chain comes to, with the volume: a result, no free cluster, or an index outside of
-- the cached table, where the source panics.
pub data Step (A : Type 0) : Type 0 where
  goes : A → Fat16 → Step A
  full : Fat16 → Step A
  breaks : Fat16 → Step A

-- The search for a free cluster panics at the first entry that is not in the table.
abbrev pub checked : Fat16 → Option ℕ × Fat16 → Step ℕ
checked fs (none, fs') = full fs'
checked fs (some c, fs') = if is_cached c fs then goes c fs' else breaks fs

unfoldable pub allocated : ℕ → Fat16 → Step ℕ
allocated prev fs = checked fs (alloc_cluster prev fs)

-- The next cluster of the chain, or a new one behind its end.
unfoldable pub next_or_new : ℕ → Fat16 → Step ℕ
next_or_new cluster fs =
    let next = next_cluster cluster fs in
    let onto = if next == 0 then allocated cluster fs else goes next fs in
    if is_cached cluster fs then onto else breaks fs

-- With `rest` for the next cluster, if there is one.
abbrev pub onward {ℓ} : {A : Type ℓ} → (ℕ → Fat16 → A) → (Fat16 → A) → (Fat16 → A) → Step ℕ → A
onward rest fails stops (goes next fs) = rest next fs
onward rest fails stops (full fs) = fails fs
onward rest fails stops (breaks fs) = stops fs

-- `while cluster >= 2 && skip >= cb`: the covering cluster and what is left of `skip`. With `cb` not 0,
-- `skip + 1` rounds are enough.
unfoldable pub reach : ℕ → ℕ → ℕ → Fat16 → Step (ℕ × ℕ)
reach zero cluster skip fs = goes (cluster, skip) fs
reach (suc rounds) cluster skip fs =
    let further =
      onward (λ next fs'. reach rounds next (skip - fs.cluster_bytes) fs') (λ fs'. full fs')
        (λ fs'. breaks fs') (next_or_new cluster fs) in
    if leb 2 cluster && leb fs.cluster_bytes skip then further else goes (cluster, skip) fs

-- The new size, `None`, or a panic.
pub data WriteResult : Type 0 where
  returns : Option ℕ → WriteResult
  panics : WriteResult

module _ (B : BlockIo) (data_of : Bytes) where
  -- `src`, `pos`, the device, and whether every access succeeded.
  abbrev pub WriteProgress : Type 0
  WriteProgress = ℕ × ℕ × B.Dev × Bool

  -- The sector that is changed: as it was read, or of zeros where all of it is overwritten.
  abbrev pub old_sector : ℕ → ℕ → ℕ → B.Dev → Option Bytes × B.Dev
  old_sector sector s need dev =
      if ltb 0 s || ltb need 512 then B.read_sector sector dev else (some (replicate 512 0), dev)

  abbrev pub new_sector : Bytes → (s need src : ℕ) → Bytes
  new_sector sec s need src = copy_at sec s (slice data_of src (src + need))

  abbrev pub put :
      (B.Dev → WriteProgress) → (sector s need src pos : ℕ) → Option Bytes × B.Dev → WriteProgress
  put rest sector s need src pos (none, dev) = (src, pos, dev, false)
  put rest sector s need src pos (some sec, dev) =
      let w = B.write_sector sector (new_sector sec s need src) dev in
      let later = rest w.1 in if w.0 then later else (src, pos, w.1, false)

  -- The `for` loop over the sectors of a cluster, `rounds` of them from `sector` on.
  unfoldable pub write_sectors : ℕ → (sector sskip src pos : ℕ) → B.Dev → WriteProgress
  write_sectors zero sector sskip src pos dev = (src, pos, dev, true)
  write_sectors (suc rounds) sector sskip src pos dev =
      let s = min sskip 512 in
      let need = min (512 - s) (length data_of - src) in
      let later =
        put (write_sectors rounds (sector + 1) (sskip - 512) (src + need) (pos + need)) sector s
          need src pos (old_sector sector s need dev) in
      if src == length data_of then (src, pos, dev, true) else later

  -- With the volume, and whether the loop panicked.
  abbrev pub WriteState : Type 0
  WriteState = WriteProgress × Fat16 × Bool

  -- The `while` loop over the clusters. A round writes a byte at least, so one round more than there are
  -- bytes is enough.
  unfoldable pub write_clusters : ℕ → (cluster sskip src pos : ℕ) → B.Dev → Fat16 → WriteState
  write_clusters zero cluster sskip src pos dev fs = ((src, pos, dev, true), fs, false)
  write_clusters (suc rounds) cluster sskip src pos dev fs =
      let r = write_sectors fs.sectors_per_cluster (sector_of cluster fs) sskip src pos dev in
      let later =
        onward (λ next fs'. write_clusters rounds next 0 r.0 r.1 r.2 fs')
          (λ fs'. ((r.0, r.1, r.2, false), fs', false)) (λ fs'. ((r.0, r.1, r.2, false), fs', true))
          (next_or_new cluster fs) in
      if ltb src (length data_of)
      then (if r.3
          then (if ltb r.0 (length data_of) then later else (r, fs, false))
          else (r, fs, false))
      else ((src, pos, dev, true), fs, false)

  -- The result, the entry, the volume and the device.
  abbrev pub WriteOutcome : Type 0
  WriteOutcome = WriteResult × DirEntry × Fat16 × B.Dev

  -- The FAT and the root entry are stored, and the result of the latter is not looked at.
  abbrev pub persisted : ℕ → DirEntry → Fat16 → Bool × B.Dev → WriteOutcome
  persisted idx e fs f =
      let w = write_root_entry B idx e fs f.1 in
      if f.0 then (returns (some e.size), e, fs, w.1) else (returns none, e, fs, f.1)

  abbrev pub finished : ℕ → DirEntry → WriteState → WriteOutcome
  finished idx e w =
      let pos = w.0.1 % 2 ^ 32 in
      let e' : DirEntry = record e { size = if ltb e.size pos then pos else e.size } in
      let kept = persisted idx e' w.1 (flush_fat B w.1 w.0.2) in
      let ended = if w.0.3 then kept else (returns none, e, w.1, w.0.2) in
      if w.2 then (panics, e, w.1, w.0.2) else ended

  -- From the covering cluster on.
  abbrev pub write_covered : ℕ → DirEntry → ℕ → B.Dev → Step (ℕ × ℕ) → WriteOutcome
  write_covered idx e offset dev (full fs) = (returns none, e, fs, dev)
  write_covered idx e offset dev (breaks fs) = (panics, e, fs, dev)
  write_covered idx e offset dev (goes (cluster, skip) fs) =
      let done =
        finished idx e (write_clusters (length data_of + 1) cluster skip 0 offset dev fs) in
      if ltb cluster 2 then (returns none, e, fs, dev) else done

  -- From the first cluster on.
  abbrev pub write_from : ℕ → DirEntry → ℕ → B.Dev → ℕ → Fat16 → WriteOutcome
  write_from idx e offset dev first fs =
      write_covered idx (record e { start_cluster = first }) offset dev
        (reach (offset + 1) first offset fs)

  -- `data_of` is `data`.
  unfoldable pub write_file :
      (entry_idx : ℕ) (entry : DirEntry) (offset : ℕ) → B.Dev → Fat16 → WriteOutcome
  write_file entry_idx entry offset dev fs =
      let begun =
        if entry.start_cluster == 0 then allocated 0 fs else goes entry.start_cluster fs in
      let done =
        onward (write_from entry_idx entry offset dev) (λ fs'. (returns none, entry, fs', dev))
          (λ fs'. (panics, entry, fs', dev)) begun in
      if length data_of == 0 then (returns (some entry.size), entry, fs, dev) else done
