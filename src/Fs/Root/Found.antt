-- ===== src/Fs/Root/Found.antt =====
-- A file that `create_root_file` of servers/libtanix-fs/src/lib.rs makes, and `find_root`.
use mathlib.Core.Path.{subst}
use tanix.Bytes.{Bytes}
use tanix.Fs.{BlockIo}
use tanix.Fs.Fat.{Fat16}
use tanix.Fs.Root.{
  ShortName, DirEntry, is_empty, is_deleted, matches, new_entry, short_name, read_root_entry,
  write_root_entry, looked, find_from, find_root, created_at, tried, create_from, create_root_file,
}
use tanix.Fs.Root.Codec.{Fits}
use tanix.Fs.Root.Kept.{
  IsReliable, slot, slot-read_root_entry, write_root_entry-slot, write_root_entry-slot_before,
}
use tanix.Fs.Root.Placed.{looked_in, find_in, Placed, find_in-Placed, passed-Placed}
use tanix.Fs.Root.Names.{IsName, short_name-IsName}
use tanix.Prelude.{
  ℕ, zero, suc, ◌+◌, ◌≡◌, refl, sym, ap, ◌∙◌, ◌||◌, Option, none, some, arith, Bool-cases, inl, inr,
}

module _ (B : BlockIo) (rel : IsReliable B) (fs : Fat16) (name : ShortName) where
  fst-looked :
      (idx : ℕ) (o : Option DirEntry) (dev : B.Dev) (rest : Option (ℕ × DirEntry) × B.Dev)
      → (looked B name idx o dev rest).0 ≡ looked_in name idx o rest.0
  fst-looked idx none dev rest = refl
  fst-looked idx (some e) dev rest = elim (Bool-cases (is_empty e)) [
    | inl h ↦ rw h refl
    | inr h ↦ elim (Bool-cases (matches name e)) [ inl m ↦ rw (h, m) refl | inr m ↦ rw (h, m) refl ]
  ]

  find_from-eq :
      (rounds idx : ℕ) (dev : B.Dev) (view : ℕ → Option DirEntry)
      → ((j : ℕ) → slot B rel fs j dev ≡ view j)
      → (find_from B rounds idx name fs dev).0 ≡ find_in rounds idx name view
  unfolding find_from find_in slot
  find_from-eq zero idx dev view h = refl
  find_from-eq (suc rounds) idx dev view h =
      let r = read_root_entry B idx fs dev in
      fst-looked idx r.0 r.1 (find_from B rounds (idx + 1) name fs r.1)
      ∙ (rw
          (
            h idx,
            find_from-eq rounds (idx + 1) r.1 view
                (λ j. slot-read_root_entry B rel fs j idx dev ∙ h j),
          )
          refl)

  module _ (f : Fits (new_entry name)) where
    written-Placed :
        (rounds idx k : ℕ) (old : ℕ → Option DirEntry) (dev : B.Dev)
        → ((j : ℕ) → slot B rel fs j dev ≡ old j)
        → (created_at B idx (write_root_entry B idx (new_entry name) fs dev)).0 ≡ some k
        → Placed
            (suc rounds)
            idx
            k
            (new_entry name)
            old
            (λ j. slot B rel fs j (write_root_entry B idx (new_entry name) fs dev).1)
    written-Placed rounds idx k old dev same h =
        let w = write_root_entry B idx (new_entry name) fs dev in
        elim (Bool-cases w.0) [
          | inr no_write ↦ let fails : none ≡ some k = sym (rw no_write refl) ∙ h in absurd cc
          | inl done ↦
              let gives : some idx ≡ some k = sym (rw done refl) ∙ h in
              let at_k : idx ≡ k = cc gives in
              record {
                after = omega (arith, at_k);
                inside = omega (arith, at_k);
                live = λ j from lt. absurd (omega (arith, at_k, from, lt));
                here =
                    ap (λ (i : ℕ). slot B rel fs i w.1) (sym at_k)
                    ∙ write_root_entry-slot B rel fs idx (new_entry name) f dev done;
                kept = λ j lt.
                    write_root_entry-slot_before B rel fs idx (new_entry name) f dev done j
                      (omega (arith, at_k, lt))
                    ∙ same j;
              }
        ]

    -- The three ways of a step.
    tried-Placed :
        (rounds idx k : ℕ) (old : ℕ → Option DirEntry) (o : Option DirEntry) (dev : B.Dev)
        (rest : Option ℕ × B.Dev)
        → old idx ≡ o
        → ((j : ℕ) → slot B rel fs j dev ≡ old j)
        → (rest.0 ≡ some k
            → Placed rounds (idx + 1) k (new_entry name) old (λ j. slot B rel fs j rest.1))
        → (tried B name idx fs o dev rest).0 ≡ some k
        → Placed
            (suc rounds)
            idx
            k
            (new_entry name)
            old
            (λ j. slot B rel fs j (tried B name idx fs o dev rest).1)
    tried-Placed rounds idx k old none dev rest at same ih h = absurd cc
    tried-Placed rounds idx k old (some e) dev rest at same ih h =
        elim (Bool-cases (is_empty e || is_deleted e)) [
          | inl vacant ↦
              let way : tried B name idx fs (some e) dev rest
                  ≡ created_at B idx (write_root_entry B idx (new_entry name) fs dev) =
                rw vacant refl in
              subst
                (λ (w : Option ℕ × B.Dev).
                  Placed (suc rounds) idx k (new_entry name) old (λ j. slot B rel fs j w.1))
                (sym way)
                (written-Placed rounds idx k old dev same
                  (ap (λ (w : Option ℕ × B.Dev). w.0) (sym way) ∙ h))
          | inr live ↦
              let way : tried B name idx fs (some e) dev rest ≡ rest = rw live refl in
              subst
                (λ (w : Option ℕ × B.Dev).
                  Placed (suc rounds) idx k (new_entry name) old (λ j. slot B rel fs j w.1))
                (sym way)
                (passed-Placed rounds idx k (new_entry name) e old (λ j. slot B rel fs j rest.1) at
                  live (ih (ap (λ (w : Option ℕ × B.Dev). w.0) (sym way) ∙ h)))
        ]

    create_from-Placed :
        (rounds idx k : ℕ) (dev : B.Dev) (old : ℕ → Option DirEntry)
        → ((j : ℕ) → slot B rel fs j dev ≡ old j)
        → (create_from B rounds idx name fs dev).0 ≡ some k
        → Placed rounds idx k
            (new_entry name)
            old
            (λ j. slot B rel fs j (create_from B rounds idx name fs dev).1)
    unfolding create_from slot
    create_from-Placed zero idx k dev old same h = absurd cc
    create_from-Placed (suc rounds) idx k dev old same h =
        let r = read_root_entry B idx fs dev in
        let still : (j : ℕ) → slot B rel fs j r.1 ≡ old j =
          λ j. slot-read_root_entry B rel fs j idx dev ∙ same j in
        tried-Placed rounds idx k old r.0 r.1 (create_from B rounds (idx + 1) name fs r.1)
          (sym (same idx)) still (create_from-Placed rounds (idx + 1) k r.1 old still) h

new_entry-Fits : (name : ShortName) → IsName name → Fits (new_entry name)
new_entry-Fits name n = record {
  name = n.len;
  crt_time = omega arith;
  crt_date = omega arith;
  last_acc_date = omega arith;
  hi_start = omega arith;
  wrt_time = omega arith;
  wrt_date = omega arith;
  start_cluster = omega arith;
  size = omega arith;
}

-- On a reliable device, for a name that `short_name` makes: where `find_root` does not find the name
-- and `create_root_file` on the same device gives the index `k`, a following `find_root` finds the name at
-- `k`, with the entry of an empty file.
pub find_root-create_root_file :
    (B : BlockIo)
    → IsReliable B
    → (fs : Fat16) (dev : B.Dev) (text : Bytes) (name : ShortName) (k : ℕ)
    → short_name text ≡ some name
    → (find_root B name fs dev).0 ≡ none
    → (create_root_file B name fs dev).0 ≡ some k
    → (find_root B name fs (create_root_file B name fs dev).1).0 ≡ some (k, new_entry name)
unfolding find_root create_root_file
find_root-create_root_file B rel fs dev text name k spelled missing made =
    let n = short_name-IsName text name spelled in
    let old : ℕ → Option DirEntry = λ j. slot B rel fs j dev in
    let new : ℕ → Option DirEntry =
      λ j. slot B rel fs j (create_from B fs.root_entries 0 name fs dev).1 in
    find_from-eq B rel fs name fs.root_entries 0 (create_from B fs.root_entries 0 name fs dev).1 new
      (λ j. refl)
    ∙ find_in-Placed name n fs.root_entries 0 k old new
        (create_from-Placed B rel fs name (new_entry-Fits name n) fs.root_entries 0 k dev old
          (λ j. refl) made)
        (sym (find_from-eq B rel fs name fs.root_entries 0 dev old (λ j. refl)) ∙ missing)
