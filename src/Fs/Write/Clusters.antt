-- ===== src/Fs/Write/Clusters.antt =====
-- The loop over the clusters in `write_file` of servers/libtanix-fs/src/lib.rs.
use tanix.Bytes.{Bytes}
use tanix.Fs.{BlockIo}
use tanix.Fs.Fat.{Fat16, sector_of}
use tanix.Fs.File.Data.{IsSized}
use tanix.Fs.Root.Kept.{IsReliable}
use tanix.Fs.Write.{WriteState, write_sectors, write_clusters}
use tanix.Fs.Write.Chains.{IsFull, onward-Found, next_or_new-Found, OnlyTable-IsSized}
use tanix.Fs.Write.Safe.{IsSafe, IsCached}
use tanix.Fs.Write.Steps.{
  OnlyTable, OnlyTable-trans, IsSteady, Keeps, write_sectors-Goes, write_sectors-succeeds,
}
use tanix.Prelude.{
  ℕ, zero, suc, ◌+◌, ◌<◌, ◌≤◌, ◌≡◌, ◌⊎◌, refl, ap, ◌∙◌, true, false, arith, ltb, length, Bool-cases,
  inl, inr,
}

base_of_sector : (cluster : ℕ) (fs : Fat16) → fs.data_base ≤ sector_of cluster fs
unfolding sector_of
base_of_sector cluster fs = omega arith

module _ (B : BlockIo) (rel : IsReliable B) (data_of : Bytes) where
  -- The table alone is changed, no sector below the data, and without a failure all is written.
  pub record Ends (src pos : ℕ) (dev : B.Dev) (fs : Fat16) (w : WriteState B data_of) : Type 0 where
    pub table : OnlyTable fs w.1
    pub spared : Keeps B fs.data_base dev w.0.2
    pub complete : w.0.3 ≡ true → w.0.1 + src ≡ pos + length data_of

  later_Ends :
      (src pos src' pos' : ℕ) (dev dev' : B.Dev) (fs fs' : Fat16) (w : WriteState B data_of)
      → OnlyTable fs fs'
      → Keeps B fs.data_base dev dev'
      → pos' + src ≡ pos + src'
      → Ends src' pos' dev' fs' w
      → Ends src pos dev fs w
  later_Ends src pos src' pos' dev dev' fs fs' w t k m e = record {
    table = OnlyTable-trans fs fs' w.1 t e.table;
    spared = λ s low. e.spared s (omega (arith, low, ap (λ (f : Fat16). f.data_base) t)) ∙ k s low;
    complete = λ good. omega (arith, m, e.complete good);
  }

  pub write_clusters-Ends :
      (rounds cluster sskip src pos : ℕ) (dev : B.Dev) (fs : Fat16)
      → IsSized fs
      → src ≤ length data_of
      → length data_of < rounds + src
      → sskip < fs.cluster_bytes
      → Ends src pos dev fs (write_clusters B data_of rounds cluster sskip src pos dev fs)
  unfolding write_clusters
  write_clusters-Ends zero cluster sskip src pos dev fs z le lt skip = absurd (omega (arith, lt))
  write_clusters-Ends (suc rounds) cluster sskip src pos dev fs z le lt skip =
      elim (Bool-cases (ltb src (length data_of))) [
        | inr h ↦ rw h (record {
          table = refl;
          spared = λ t low. refl;
          complete = λ good. ground (arith, h, le);
        })
        | inl more ↦
            let r =
              write_sectors B data_of fs.sectors_per_cluster (sector_of cluster fs) sskip src pos
                dev in
            let g =
              write_sectors-Goes B rel data_of fs.data_base fs.sectors_per_cluster
                (sector_of cluster fs) sskip src pos dev le (base_of_sector cluster fs) in
            elim (Bool-cases r.3) [
              | inr failed ↦
                  rw (more, failed)
                    (record { table = refl; spared = g.spared; complete = λ good. absurd cc })
              | inl good ↦ elim (Bool-cases (ltb r.0 (length data_of))) [
                | inr done ↦
                    rw (more, good, done)
                      (record {
                        table = refl;
                        spared = g.spared;
                        complete = λ _. ground (arith, done, g.within, g.moved);
                      })
                | inl left ↦
                    let on : src < r.0 =
                      g.forward good (ground (arith, more)) (omega (arith, skip, z.bytes)) in
                    rw (more, good, left)
                      (onward-Found (Ends src pos dev fs) (IsSafe fs × IsCached cluster fs) fs
                        (λ next fs'. write_clusters B data_of rounds next 0 r.0 r.1 r.2 fs')
                        (λ fs'. ((r.0, r.1, r.2, false), fs', false))
                        (λ fs'. ((r.0, r.1, r.2, false), fs', true)) (next_or_new-Found cluster fs)
                        (λ c fs' low table _.
                          let z' = OnlyTable-IsSized fs fs' table z in
                          later_Ends src pos r.0 r.1 dev r.2 fs fs'
                            (write_clusters B data_of rounds c 0 r.0 r.1 r.2 fs') table g.spared
                            g.moved
                            (write_clusters-Ends rounds c 0 r.0 r.1 r.2 fs' z' g.within
                              (omega (arith, on, lt)) (omega (arith, z'.bytes, z'.some_sector))))
                        (λ _. record { table = refl; spared = g.spared; complete = λ e. absurd cc })
                        (λ _. record {
                          table = refl;
                          spared = g.spared;
                          complete = λ e. absurd cc;
                        }))
              ]
            ]
      ]

  -- On a device that does not fail and from a cluster of a safe volume, the loop ends well or with a full
  -- volume.
  pub write_clusters-succeeds :
      IsSteady B
      → (rounds cluster sskip src pos : ℕ) (dev : B.Dev) (fs : Fat16)
      → IsSafe fs × IsCached cluster fs
      → let w = write_clusters B data_of rounds cluster sskip src pos dev fs in
        (w.2 ≡ false) × ((w.0.3 ≡ true) ⊎ IsFull w.1)
  unfolding write_clusters
  write_clusters-succeeds steady zero cluster sskip src pos dev fs safe = (refl, inl refl)
  write_clusters-succeeds steady (suc rounds) cluster sskip src pos dev fs safe =
      elim (Bool-cases (ltb src (length data_of))) [
        | inr h ↦ rw h (refl, inl refl)
        | inl more ↦
            let r =
              write_sectors B data_of fs.sectors_per_cluster (sector_of cluster fs) sskip src pos
                dev in
            let good : r.3 ≡ true =
              write_sectors-succeeds B rel data_of fs.data_base steady fs.sectors_per_cluster
                (sector_of cluster fs) sskip src pos dev in
            elim (Bool-cases (ltb r.0 (length data_of))) [
              | inr done ↦ rw (more, good, done) (refl, inl refl)
              | inl left ↦
                  rw (more, good, left)
                    (onward-Found
                      (λ (w : WriteState B data_of). (w.2 ≡ false) × ((w.0.3 ≡ true) ⊎ IsFull w.1))
                      (IsSafe fs × IsCached cluster fs) fs
                      (λ next fs'. write_clusters B data_of rounds next 0 r.0 r.1 r.2 fs')
                      (λ fs'. ((r.0, r.1, r.2, false), fs', false))
                      (λ fs'. ((r.0, r.1, r.2, false), fs', true)) (next_or_new-Found cluster fs)
                      (λ c fs' low table safe'.
                        write_clusters-succeeds steady rounds c 0 r.0 r.1 r.2 fs' (safe' safe))
                      (λ none_free. (refl, inr none_free)) (λ not_safe. absurd (not_safe safe)))
            ]
      ]

  -- From the covering cluster on.
  pub covered-Ends :
      (offset : ℕ) (dev : B.Dev) (fs fs' : Fat16) (c skip : ℕ)
      → IsSized fs
      → skip < fs.cluster_bytes
      → OnlyTable fs fs'
      → Ends 0 offset dev fs'
          (write_clusters B data_of (length data_of + 1) c skip 0 offset dev fs')
  covered-Ends offset dev fs fs' c skip z lt table =
      let same : fs'.cluster_bytes ≡ fs.cluster_bytes = ap (λ (f : Fat16). f.cluster_bytes) table in
      write_clusters-Ends (length data_of + 1) c skip 0 offset dev fs'
        (OnlyTable-IsSized fs fs' table z) (omega arith) (omega arith) (omega (arith, same, lt))
