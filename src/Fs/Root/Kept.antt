-- ===== src/Fs/Root/Kept.antt =====
-- What the writing of one directory entry leaves of the others, for servers/libtanix-fs/src/lib.rs.
use mathlib.Core.Option
use native.Mathlib.Decide.{ℕ_discrete}
use tanix.Bytes.{Bytes, slice, copy_at}
use tanix.Bytes.Copy.{length-copy_at}
use tanix.Fs.{BlockIo}
use tanix.Fs.Fat.{Fat16}
use tanix.Fs.Root.{
  DirEntry, encode, decode, entry_place, entry_at, root_sector, read_root_sector, read_root_entry,
  store_entry, write_root_entry,
}
use tanix.Fs.Root.Codec.{Fits, decode-encode, length-encode, slice-copy_at, slice-copy_at_before}
use tanix.Prelude.{
  ℕ, ◌+◌, ◌/◌, ◌<◌, ◌≤◌, ◌≡◌, ◌≢◌, sym, ap, ◌∙◌, Bool, true, false, Option, some, arith, length,
  Option-cases, inl, inr,
}

-- A device that keeps what is written to it: a read gives a sector of 512 bytes or fails, and changes no
-- sector; after a write that succeeds a read gives what was written, and the other sectors are as before.
pub record IsReliable (B : BlockIo) : Type 0 where
  pub sized :
      (s : ℕ) (dev : B.Dev) (sec : Bytes) → (B.read_sector s dev).0 ≡ some sec → length sec ≡ 512
  pub read_read :
      (s t : ℕ) (dev : B.Dev)
      → (B.read_sector s (B.read_sector t dev).1).0 ≡ (B.read_sector s dev).0
  pub read_write :
      (s : ℕ) (buf : Bytes) (dev : B.Dev)
      → length buf ≡ 512
      → (B.write_sector s buf dev).0 ≡ true
      → (B.read_sector s (B.write_sector s buf dev).1).0 ≡ some buf
  pub read_write_ne :
      (s t : ℕ) (buf : Bytes) (dev : B.Dev)
      → s ≢ t
      → (B.read_sector s (B.write_sector t buf dev).1).0 ≡ (B.read_sector s dev).0

place_fits : (idx : ℕ) → entry_place idx + 32 ≤ 512
unfolding entry_place
place_fits idx = omega arith

place_before : (j k : ℕ) → j < k → j / 16 ≡ k / 16 → entry_place j + 32 ≤ entry_place k
unfolding entry_place
place_before j k lt e = omega (arith, lt, e)

entry_at-copy_at :
    (k : ℕ) (e : DirEntry) (sec : Bytes)
    → Fits e
    → length sec ≡ 512
    → entry_at k (copy_at sec (entry_place k) (encode e)) ≡ e
unfolding entry_at
entry_at-copy_at k e sec f len =
    let n : 32 ≡ length (encode e) = sym (length-encode e f.name) in
    ap
      (λ (m : ℕ).
        decode (slice (copy_at sec (entry_place k) (encode e)) (entry_place k) (entry_place k + m)))
      n
    ∙ (ap decode
          (slice-copy_at sec (encode e) (entry_place k) (omega (arith, place_fits k, n, len)))
        ∙ decode-encode e f)

entry_at-copy_at_before :
    (j k : ℕ) (src sec : Bytes)
    → j < k
    → j / 16 ≡ k / 16
    → entry_at j (copy_at sec (entry_place k) src) ≡ entry_at j sec
unfolding entry_at
entry_at-copy_at_before j k src sec lt e = ap decode (
    slice-copy_at_before sec src (entry_place j) (entry_place j + 32) (entry_place k)
      (place_before j k lt e))

module _ (B : BlockIo) (rel : IsReliable B) (fs : Fat16) where
  -- The entry that a read of slot `j` gives.
  unfoldable pub slot : ℕ → B.Dev → Option DirEntry
  slot j dev = (read_root_entry B j fs dev).0

  pub slot-read_root_entry :
      (j i : ℕ) (dev : B.Dev) → slot j (read_root_entry B i fs dev).1 ≡ slot j dev
  unfolding slot read_root_entry read_root_sector
  slot-read_root_entry j i dev =
      ap (Option.map (entry_at j)) (rel.read_read (root_sector j fs) (root_sector i fs) dev)

  sector_apart : (j k : ℕ) → j / 16 ≢ k / 16 → root_sector j fs ≢ root_sector k fs
  unfolding root_sector
  sector_apart j k ne = λ h. ne (omega (arith, h))

  same_sector : (j k : ℕ) → j / 16 ≡ k / 16 → root_sector j fs ≡ root_sector k fs
  unfolding root_sector
  same_sector j k h = ap (λ (i : ℕ). fs.root_base + i) h

  module _ (k : ℕ) (e : DirEntry) (f : Fits e) (dev : B.Dev) where
    stored-slot :
        (sec : Bytes)
        → length sec ≡ 512
        → (store_entry B k e fs (some sec) dev).0 ≡ true
        → slot k (store_entry B k e fs (some sec) dev).1 ≡ some e
    unfolding slot read_root_entry read_root_sector
    stored-slot sec len done =
        let buf = copy_at sec (entry_place k) (encode e) in
        ap (Option.map (entry_at k)) (
          rel.read_write (root_sector k fs) buf dev
            (length-copy_at sec (entry_place k) (encode e) ∙ len) done)
        ∙ ap some (entry_at-copy_at k e sec f len)

    stored-slot_before :
        (j : ℕ) (sec : Bytes)
        → j < k
        → length sec ≡ 512
        → (B.read_sector (root_sector k fs) dev).0 ≡ some sec
        → (store_entry B k e fs (some sec) dev).0 ≡ true
        → slot j (store_entry B k e fs (some sec) dev).1 ≡ slot j dev
    unfolding slot read_root_entry read_root_sector
    stored-slot_before j sec lt len here done = elim (ℕ_discrete (j / 16) (k / 16)) [
      | no ne ↦ ap (Option.map (entry_at j)) (
          rel.read_write_ne (root_sector j fs) (root_sector k fs)
            (copy_at sec (entry_place k) (encode e)) dev (sector_apart j k ne))
      | yes same ↦
          let at_k : root_sector j fs ≡ root_sector k fs = same_sector j k same in
          let buf = copy_at sec (entry_place k) (encode e) in
          let now : (B.read_sector (root_sector j fs) (store_entry B k e fs (some sec) dev).1).0
              ≡ some buf =
            ap (λ (s : ℕ). (B.read_sector s (store_entry B k e fs (some sec) dev).1).0) at_k
            ∙ rel.read_write (root_sector k fs) buf dev
                (length-copy_at sec (entry_place k) (encode e) ∙ len) done in
          let then : (B.read_sector (root_sector j fs) dev).0 ≡ some sec =
            ap (λ (s : ℕ). (B.read_sector s dev).0) at_k ∙ here in
          ap (Option.map (entry_at j)) now
          ∙ (ap some (entry_at-copy_at_before j k (encode e) sec lt same)
              ∙ sym (ap (Option.map (entry_at j)) then))
    ]

  module _ (k : ℕ) (e : DirEntry) (f : Fits e) (dev : B.Dev)
      (done : (write_root_entry B k e fs dev).0 ≡ true) where
    -- A write that succeeds found the sector.
    found_sector : (sec : Bytes) × ((B.read_sector (root_sector k fs) dev).0 ≡ some sec)
    unfolding write_root_entry read_root_sector
    found_sector = elim (Option-cases (B.read_sector (root_sector k fs) dev).0) [
      | inl h ↦
          let fails : false ≡ true =
            ap
              (λ (o : Option Bytes).
                (store_entry B k e fs o (B.read_sector (root_sector k fs) dev).1).0)
              (sym h)
            ∙ done in
          absurd cc
      | inr (sec, h) ↦ (sec, h)
    ]

    abbrev after_read : B.Dev
    after_read = (B.read_sector (root_sector k fs) dev).1

    write_root_entry-eq :
        write_root_entry B k e fs dev ≡ store_entry B k e fs (some found_sector.0) after_read
    unfolding write_root_entry read_root_sector
    write_root_entry-eq =
        ap (λ (o : Option Bytes). store_entry B k e fs o after_read) found_sector.1

    stores : (store_entry B k e fs (some found_sector.0) after_read).0 ≡ true
    stores = ap (λ (w : Bool × B.Dev). w.0) (sym write_root_entry-eq) ∙ done

    pub write_root_entry-slot : slot k (write_root_entry B k e fs dev).1 ≡ some e
    write_root_entry-slot =
        ap (λ (w : Bool × B.Dev). slot k w.1) write_root_entry-eq
        ∙ stored-slot k e f after_read found_sector.0
            (rel.sized (root_sector k fs) dev found_sector.0 found_sector.1) stores

    pub write_root_entry-slot_before :
        (j : ℕ) → j < k → slot j (write_root_entry B k e fs dev).1 ≡ slot j dev
    unfolding slot read_root_entry read_root_sector
    write_root_entry-slot_before j lt =
        ap (λ (w : Bool × B.Dev). slot j w.1) write_root_entry-eq
        ∙ (stored-slot_before k e f after_read j found_sector.0 lt
              (rel.sized (root_sector k fs) dev found_sector.0 found_sector.1)
              (rel.read_read (root_sector k fs) (root_sector k fs) dev ∙ found_sector.1) stores
            ∙ ap (Option.map (entry_at j))
                (rel.read_read (root_sector j fs) (root_sector k fs) dev))
