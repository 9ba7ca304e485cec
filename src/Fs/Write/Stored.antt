-- ===== src/Fs/Write/Stored.antt =====
-- What the stores at the end of `write_file` of servers/libtanix-fs/src/lib.rs leave alone.
use tanix.Bytes.{Bytes, copy_at}
use tanix.Fs.{BlockIo}
use tanix.Fs.Fat.{Fat16}
use tanix.Fs.Mount.{fat_sector, flush_from, flush_fat}
use tanix.Fs.Root.{
  DirEntry, encode, entry_place, root_sector, read_root_sector, store_entry, write_root_entry,
}
use tanix.Fs.Root.Kept.{IsReliable}
use tanix.Fs.Write.Steps.{IsSteady, Spares}
use tanix.Prelude.{
  ℕ, zero, suc, ◌+◌, ◌<◌, ◌≤◌, ◌≡◌, ◌≢◌, ◌⊎◌, refl, ◌∙◌, true, Option, none, some, arith,
  Bool-cases, inl, inr,
}

module _ (B : BlockIo) where
  module _ (rel : IsReliable B) (t : ℕ) where
    flush_from-Spares :
        (rounds i : ℕ) (fs : Fat16) (dev : B.Dev)
        → (t < fs.fat_base + i) ⊎ (fs.fat_base + i + rounds ≤ t)
        → Spares B t dev (flush_from B rounds i fs dev).1
    unfolding flush_from
    flush_from-Spares zero i fs dev out = refl
    flush_from-Spares (suc rounds) i fs dev out =
        let r = B.write_sector (fs.fat_base + i) (fat_sector B i fs) dev in
        let now : Spares B t dev r.1 =
          rel.read_write_ne t (fs.fat_base + i) (fat_sector B i fs) dev
            (λ e. absurd (omega (arith, e, out))) in
        elim (Bool-cases r.0) [
          | inl h ↦ rw h (flush_from-Spares rounds (i + 1) fs r.1 (omega (arith, out)) ∙ now)
          | inr h ↦ rw h now
        ]

    pub flush_fat-Spares :
        (fs : Fat16) (dev : B.Dev)
        → (t < fs.fat_base) ⊎ (fs.fat_base + fs.fat_sectors ≤ t)
        → Spares B t dev (flush_fat B fs dev).1
    unfolding flush_fat
    flush_fat-Spares fs dev out = flush_from-Spares fs.fat_sectors 0 fs dev (omega (arith, out))

    stored-Spares :
        (idx : ℕ) (e : DirEntry) (fs : Fat16) (o : Option Bytes) (dev : B.Dev)
        → t ≢ root_sector idx fs
        → Spares B t dev (store_entry B idx e fs o dev).1
    stored-Spares idx e fs none dev ne = refl
    stored-Spares idx e fs (some sec) dev ne =
        rel.read_write_ne t (root_sector idx fs) (copy_at sec (entry_place idx) (encode e)) dev ne

    pub write_root_entry-Spares :
        (idx : ℕ) (e : DirEntry) (fs : Fat16) (dev : B.Dev)
        → t ≢ root_sector idx fs
        → Spares B t dev (write_root_entry B idx e fs dev).1
    unfolding write_root_entry read_root_sector
    write_root_entry-Spares idx e fs dev ne =
        let r = B.read_sector (root_sector idx fs) dev in
        stored-Spares idx e fs r.0 r.1 ne ∙ rel.read_read t (root_sector idx fs) dev

  flush_from-succeeds :
      IsSteady B
      → (rounds i : ℕ) (fs : Fat16) (dev : B.Dev) → (flush_from B rounds i fs dev).0 ≡ true
  unfolding flush_from
  flush_from-succeeds steady zero i fs dev = refl
  flush_from-succeeds steady (suc rounds) i fs dev =
      let r = B.write_sector (fs.fat_base + i) (fat_sector B i fs) dev in
      rw (steady.writes (fs.fat_base + i) (fat_sector B i fs) dev)
        (flush_from-succeeds steady rounds (i + 1) fs r.1)

  pub flush_fat-succeeds : IsSteady B → (fs : Fat16) (dev : B.Dev) → (flush_fat B fs dev).0 ≡ true
  unfolding flush_fat
  flush_fat-succeeds steady fs dev = flush_from-succeeds steady fs.fat_sectors 0 fs dev

  pub write_root_entry-succeeds :
      IsSteady B
      → (idx : ℕ) (e : DirEntry) (fs : Fat16) (dev : B.Dev)
      → (write_root_entry B idx e fs dev).0 ≡ true
  unfolding write_root_entry read_root_sector
  write_root_entry-succeeds steady idx e fs dev =
      let r = B.read_sector (root_sector idx fs) dev in
      let (sec, there) = steady.reads (root_sector idx fs) dev in
      rw there (steady.writes (root_sector idx fs) (copy_at sec (entry_place idx) (encode e)) r.1)
