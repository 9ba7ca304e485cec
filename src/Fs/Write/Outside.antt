-- ===== src/Fs/Write/Outside.antt =====
-- Which sectors `write_file` of servers/libtanix-fs/src/lib.rs leaves alone.
use mathlib.Core.Path.{subst}
use tanix.Bytes.{Bytes}
use tanix.Fs.{BlockIo}
use tanix.Fs.Fat.{Fat16}
use tanix.Fs.File.Data.{IsSized}
use tanix.Fs.Mount.{flush_fat}
use tanix.Fs.Root.{DirEntry, root_sector}
use tanix.Fs.Root.Kept.{IsReliable}
use tanix.Fs.Write.{
  Step, returns, panics, WriteState, WriteOutcome, write_clusters, persisted, finished,
  write_covered, write_from, write_file,
}
use tanix.Fs.Write.Chains.{
  begun-Found, onward-Found, OnlyTable-IsSized, Reaches, reaches, no_room, no_entry, reach-Reaches,
}
use tanix.Fs.Write.Clusters.{Ends, covered-Ends}
use tanix.Fs.Write.Safe.{IsSafe, IsCached}
use tanix.Fs.Write.Writes.{grown}
use tanix.Fs.Write.Steps.{OnlyTable, Spares}
use tanix.Fs.Write.Stored.{flush_fat-Spares, write_root_entry-Spares}
use tanix.Prelude.{
  ℕ, ◌+◌, ◌<◌, ◌≤◌, ◌≢◌, ◌⊎◌, refl, sym, ◌∙◌, none, arith, ltb, ◌==◌, length, Bool-cases, inl, inr,
}

-- A boot sector, a copy of the table or another part of the directory.
pub record IsOutside (t idx : ℕ) (fs : Fat16) : Type 0 where
  pub low : t < fs.data_base
  pub off_fat : (t < fs.fat_base) ⊎ (fs.fat_base + fs.fat_sectors ≤ t)
  pub off_entry : t ≢ root_sector idx fs

IsOutside-OnlyTable :
    (t idx : ℕ) (fs fs' : Fat16) → OnlyTable fs fs' → IsOutside t idx fs → IsOutside t idx fs'
unfolding root_sector
IsOutside-OnlyTable t idx fs fs' table out =
    subst (IsOutside t idx) (sym table)
      (record { low = out.low; off_fat = out.off_fat; off_entry = out.off_entry })

module _ (B : BlockIo) (rel : IsReliable B) (data_of : Bytes) (idx : ℕ) where
  module _ (t : ℕ) where
    persisted-Spares :
        (e : DirEntry) (fs : Fat16) (dev : B.Dev)
        → IsOutside t idx fs
        → Spares B t dev (persisted B data_of idx e fs (flush_fat B fs dev)).3
    persisted-Spares e fs dev out =
        let f = flush_fat B fs dev in
        let flushed = flush_fat-Spares B rel t fs dev out.off_fat in
        elim (Bool-cases f.0) [
          | inl h ↦ rw h (write_root_entry-Spares B rel t idx e fs f.1 out.off_entry ∙ flushed)
          | inr h ↦ rw h flushed
        ]

    finished-Spares :
        (e : DirEntry) (src pos : ℕ) (dev : B.Dev) (fs : Fat16) (w : WriteState B data_of)
        → IsOutside t idx fs
        → Ends B rel data_of src pos dev fs w
        → Spares B t dev (finished B data_of idx e w).3
    finished-Spares e src pos dev fs w out ends =
        let kept = ends.spared t out.low in
        elim (Bool-cases w.2) [
          | inl panic ↦ rw panic kept
          | inr on ↦ elim (Bool-cases w.0.3) [
            | inl h ↦
                rw (on, h)
                  (persisted-Spares (record e { size = grown e.size w.0.1 }) w.1 w.0.2
                      (IsOutside-OnlyTable t idx fs w.1 ends.table out)
                    ∙ kept)
            | inr h ↦ rw (on, h) kept
          ]
        ]

    covered-Spares :
        (e : DirEntry) (offset : ℕ) (dev : B.Dev) (H : Type 0) (fs : Fat16)
        → IsSized fs
        → IsOutside t idx fs
        → {r : Step (ℕ × ℕ)} → Reaches H fs r
        → Spares B t dev (write_covered B data_of idx e offset dev r).3
    covered-Spares e offset dev H fs z out (no_room fs' none_free table) = refl
    covered-Spares e offset dev H fs z out (no_entry fs' not_h table) = refl
    covered-Spares e offset dev H fs z out (reaches c skip fs' low lt table safe) =
        elim (Bool-cases (ltb c 2)) [
          | inl h ↦ rw h refl
          | inr h ↦ rw h (
              finished-Spares e 0 offset dev fs'
                (write_clusters B data_of (length data_of + 1) c skip 0 offset dev fs')
                (IsOutside-OnlyTable t idx fs fs' table out)
                (covered-Ends B rel data_of offset dev fs fs' c skip z lt table))
        ]

    write_from-Spares :
        (e : DirEntry) (offset : ℕ) (dev : B.Dev) (first : ℕ) (fs : Fat16)
        → IsSized fs
        → IsOutside t idx fs
        → 2 ≤ first
        → Spares B t dev (write_from B data_of idx e offset dev first fs).3
    write_from-Spares e offset dev first fs z out low =
        covered-Spares (record e { start_cluster = first }) offset dev
          (IsSafe fs × IsCached first fs) fs z out
          (reach-Reaches (offset + 1) first offset fs (omega (arith, z.bytes, z.some_sector)) low
            (omega arith))

    -- On a device that keeps what is written to it, whatever fails, and a volume whose clusters are of one
    -- sector or more: a write leaves every sector in front of the clusters as it was that is neither one of
    -- the FAT nor that of the file's own entry, where the entry's first cluster is not 1.
    pub write_file-Spares :
        (e : DirEntry) (offset : ℕ) (dev : B.Dev) (fs : Fat16)
        → IsSized fs
        → IsOutside t idx fs
        → e.start_cluster ≢ 1
        → Spares B t dev (write_file B data_of idx e offset dev fs).3
    unfolding write_file
    write_file-Spares e offset dev fs z out ne = elim (Bool-cases (length data_of == 0)) [
      | inl h ↦ rw h refl
      | inr h ↦ rw h (
          onward-Found (λ (o : WriteOutcome B data_of). Spares B t dev o.3)
            (IsSafe fs × IsCached e.start_cluster fs) fs (write_from B data_of idx e offset dev)
            (λ fs'. (returns none, e, fs', dev)) (λ fs'. (panics, e, fs', dev))
            (begun-Found e.start_cluster fs ne)
            (λ c fs' low table _.
              write_from-Spares e offset dev c fs' (OnlyTable-IsSized fs fs' table z)
                (IsOutside-OnlyTable t idx fs fs' table out) low)
            (λ _. refl) (λ _. refl))
    ]
