-- ===== src/Fs/Write/Writes.antt =====
-- What `write_file` of servers/libtanix-fs/src/lib.rs returns.
use tanix.Bytes.{Bytes}
use tanix.Fs.{BlockIo}
use tanix.Fs.Fat.{Fat16}
use tanix.Fs.File.Data.{IsSized}
use tanix.Fs.Mount.{flush_fat}
use tanix.Fs.Root.{read_root_entry, DirEntry}
use tanix.Fs.Root.Codec.{Fits}
use tanix.Fs.Root.Kept.{slot, write_root_entry-slot, IsReliable}
use tanix.Fs.Write.{
  Step, returns, panics, WriteState, WriteOutcome, write_clusters, finished, write_covered,
  write_from, write_file,
}
use tanix.Fs.Write.Chains.{
  begun-Found, IsFull, onward-Found, OnlyTable-IsSized, Reaches, reaches, no_room, no_entry,
  reach-Reaches,
}
use tanix.Fs.Write.Clusters.{Ends, covered-Ends, write_clusters-succeeds}
use tanix.Fs.Write.Safe.{IsSafe, IsCached}
use tanix.Fs.Write.Steps.{IsSteady}
use tanix.Fs.Write.Stored.{write_root_entry-succeeds, flush_fat-succeeds}
use tanix.Prelude.{
  ℕ, ◌+◌, ◌%◌, ◌^◌, ◌<◌, ◌≡◌, ◌≢◌, ◌⊎◌, refl, true, false, none, some, arith, ltb, ◌==◌, length,
  if◌then◌else◌, Bool-cases, inl, inr,
}

-- The size after a write that ends at `pos`, a number of 32 bits.
abbrev pub grown : ℕ → ℕ → ℕ
grown size pos = if ltb size (pos % 2 ^ 32) then pos % 2 ^ 32 else size

grown-Fits : (e : DirEntry) (pos : ℕ) → Fits e → Fits (record e { size = grown e.size pos })
grown-Fits e pos f = record {
  name = f.name;
  crt_time = f.crt_time;
  crt_date = f.crt_date;
  last_acc_date = f.last_acc_date;
  hi_start = f.hi_start;
  wrt_time = f.wrt_time;
  wrt_date = f.wrt_date;
  start_cluster = f.start_cluster;
  size = ground (arith, f.size);
}

started-Fits : (e : DirEntry) (c : ℕ) → c < 2 ^ 16 → Fits e → Fits (record e { start_cluster = c })
started-Fits e c low f = record {
  name = f.name;
  crt_time = f.crt_time;
  crt_date = f.crt_date;
  last_acc_date = f.last_acc_date;
  hi_start = f.hi_start;
  wrt_time = f.wrt_time;
  wrt_date = f.wrt_date;
  start_cluster = low;
  size = f.size;
}

module _ (B : BlockIo) (rel : IsReliable B) (data_of : Bytes) (idx : ℕ) where
  -- The new size, in the result and in the entry, which is what its slot on the device holds; or no cluster
  -- is left.
  abbrev pub Answers : DirEntry → ℕ → WriteOutcome B data_of → Type 0
  Answers e offset o =
      let size = grown e.size (offset + length data_of) in
      (o.0 ≡ returns (some size))
        × (o.1.size ≡ size)
        × ((read_root_entry B idx o.2 o.3).0 ≡ some o.1)
      ⊎ ((o.0 ≡ returns none) × IsFull o.2)

  module _ (steady : IsSteady B) where
    finished-Answers :
        (e : DirEntry) (offset : ℕ) (dev : B.Dev) (fs : Fat16) (w : WriteState B data_of)
        → Fits e
        → Ends B rel data_of 0 offset dev fs w
        → (w.2 ≡ false) × ((w.0.3 ≡ true) ⊎ IsFull w.1)
        → Answers e offset (finished B data_of idx e w)
    unfolding slot
    finished-Answers e offset dev fs w fits ends (on, way) = elim (Bool-cases w.0.3) [
      | inl h ↦
          let at : w.0.1 ≡ offset + length data_of = omega (arith, ends.complete h) in
          let e' : DirEntry = record e { size = grown e.size (offset + length data_of) } in
          let f = flush_fat B w.1 w.0.2 in
          let there =
            write_root_entry-slot B rel w.1 idx e' (grown-Fits e (offset + length data_of) fits) f.1
              (write_root_entry-succeeds B steady idx e' w.1 f.1) in
          rw (on, h, at, flush_fat-succeeds B steady w.1 w.0.2) (inl (refl, refl, there))
      | inr h ↦
          rw (on, h) (inr (refl, elim way [ inl good ↦ absurd (cc (good, h)) | inr full ↦ full ]))
    ]

    covered-Answers :
        (e : DirEntry) (offset : ℕ) (dev : B.Dev) (H : Type 0) (fs : Fat16)
        → Fits e
        → IsSized fs
        → H
        → {r : Step (ℕ × ℕ)} → Reaches H fs r
        → Answers e offset (write_covered B data_of idx e offset dev r)
    covered-Answers e offset dev H fs fits z h (no_room fs' none_free table) = inr (refl, none_free)
    covered-Answers e offset dev H fs fits z h (no_entry fs' not_h table) = absurd (not_h h)
    covered-Answers e offset dev H fs fits z h (reaches c skip fs' low lt table safe) =
        let big : ltb c 2 ≡ false = ground (arith, low) in
        rw big (
          finished-Answers e offset dev fs'
            (write_clusters B data_of (length data_of + 1) c skip 0 offset dev fs') fits
            (covered-Ends B rel data_of offset dev fs fs' c skip z lt table)
            (write_clusters-succeeds B rel data_of steady (length data_of + 1) c skip 0 offset dev
              fs' (safe h)))

    -- On a device that keeps what is written to it and does not fail, a volume whose clusters are of one
    -- sector or more, and whose table covers them and leads to none outside of it, for data that are not empty
    -- and an entry that fits into its 32 bytes and whose first cluster is in the table and not 1: a write does
    -- not panic; it returns the larger one of the old size and of the end of the data, as a number of 32 bits,
    -- the entry has that size, and a read of its slot on the device gives that entry; or it returns `None`, and
    -- no cluster of the volume is free.
    pub write_file-Answers :
        (e : DirEntry) (offset : ℕ) (dev : B.Dev) (fs : Fat16)
        → Fits e
        → IsSized fs
        → IsSafe fs
        → IsCached e.start_cluster fs
        → 0 < length data_of
        → e.start_cluster ≢ 1
        → Answers e offset (write_file B data_of idx e offset dev fs)
    unfolding write_file
    write_file-Answers e offset dev fs fits z safe at_start some_data ne =
        let h : (length data_of == 0) ≡ false = ground (arith, some_data) in
        rw h (
          onward-Found (Answers e offset) (IsSafe fs × IsCached e.start_cluster fs) fs
            (write_from B data_of idx e offset dev) (λ fs'. (returns none, e, fs', dev))
            (λ fs'. (panics, e, fs', dev)) (begun-Found e.start_cluster fs ne)
            (λ c fs' low table safe'.
              let z' = OnlyTable-IsSized fs fs' table z in
              let ok = safe' (safe, at_start) in
              covered-Answers (record e { start_cluster = c }) offset dev
                (IsSafe fs' × IsCached c fs') fs'
                (started-Fits e c (omega (arith, ok.0.sized, ok.1)) fits) z' ok
                (reach-Reaches (offset + 1) c offset fs' (omega (arith, z'.bytes, z'.some_sector))
                  low (omega arith)))
            (λ none_free. inr (refl, none_free)) (λ not_safe. absurd (not_safe (safe, at_start))))
