-- ===== src/Fs/Root/Placed.antt =====
-- The search of `find_root` of servers/libtanix-fs/src/lib.rs among the entries alone.
use native.Mathlib.Decide.{ℕ_discrete}
use tanix.Fs.Root.{ShortName, DirEntry, is_empty, is_deleted, matches, new_entry}
use tanix.Fs.Root.Names.{IsName, is_empty-new_entry, matches-new_entry}
use tanix.Prelude.{
  ℕ, zero, suc, ◌+◌, ◌<◌, ◌≤◌, ◌≡◌, refl, sym, ap, ◌∙◌, true, false, ◌||◌, Option, none, some,
  arith, if◌then◌else◌, Bool-cases, inl, inr,
}

-- The step of the search, without the device.
abbrev pub looked_in :
    ShortName → ℕ → Option DirEntry → Option (ℕ × DirEntry) → Option (ℕ × DirEntry)
looked_in name idx none rest = none
looked_in name idx (some e) rest =
    if is_empty e then none else (if matches name e then some (idx, e) else rest)

-- The search among the entries of a view.
unfoldable pub find_in : ℕ → ℕ → ShortName → (ℕ → Option DirEntry) → Option (ℕ × DirEntry)
find_in zero idx name view = none
find_in (suc rounds) idx name view =
    looked_in name idx (view idx) (find_in rounds (idx + 1) name view)

-- The first slot of `rounds` from `idx` on that is not live is `k`; it then holds `e`, and the ones below are as before.
pub record Placed (rounds idx k : ℕ) (e : DirEntry) (old new : ℕ → Option DirEntry) : Type 0 where
  pub after : idx ≤ k
  pub inside : k < idx + rounds
  pub live : (j : ℕ) → idx ≤ j → j < k → (d : DirEntry) × (old j ≡ some d) × (is_empty d ≡ false)
  pub here : new k ≡ some e
  pub kept : (j : ℕ) → j < k → new j ≡ old j

module _ (name : ShortName) (n : IsName name) where
  looked_in-found :
      (idx : ℕ) (d : DirEntry) (rest : Option (ℕ × DirEntry))
      → is_empty d ≡ false
      → looked_in name idx (some d) rest ≡ none
      → (matches name d ≡ false) × (rest ≡ none)
  looked_in-found idx d rest live h = elim (Bool-cases (matches name d)) [
    | inl yes_it ↦
        let e : ◌≡◌ {A = Option (ℕ × DirEntry)} (some (idx, d)) none =
          sym (rw (live, yes_it) refl) ∙ h in
        absurd (cc e)
    | inr not_it ↦ (not_it, sym (rw (live, not_it) refl) ∙ h)
  ]

  pub find_in-Placed :
      (rounds idx k : ℕ) (old new : ℕ → Option DirEntry)
      → Placed rounds idx k (new_entry name) old new
      → find_in rounds idx name old ≡ none
      → find_in rounds idx name new ≡ some (k, new_entry name)
  unfolding find_in
  find_in-Placed zero idx k old new p h = absurd (omega (arith, p.after, p.inside))
  find_in-Placed (suc rounds) idx k old new p h = elim (ℕ_discrete idx k) [
    | yes at_k ↦
        let seen : new idx ≡ some (new_entry name) = ap new at_k ∙ p.here in
        rw (seen, is_empty-new_entry name n, matches-new_entry name n)
          (ap (λ (i : ℕ). some (i, new_entry name)) at_k)
    | no ne ↦
        let below : idx < k = omega (arith, p.after, ne) in
        let (d, was, live) = p.live idx (omega arith) below in
        let missed = looked_in-found idx d (find_in rounds (idx + 1) name old) live (
          ap (λ (o : Option DirEntry). looked_in name idx o (find_in rounds (idx + 1) name old))
            (sym was)
          ∙ h) in
        let later : Placed rounds (idx + 1) k (new_entry name) old new = record {
          after = omega arith;
          inside = omega (arith, p.inside);
          live = λ j from lt. p.live j (omega arith) lt;
          here = p.here;
          kept = p.kept;
        } in
        rw (p.kept idx below, was, live, missed.0)
          (find_in-Placed rounds (idx + 1) k old new later missed.1)
  ]

pub passed-Placed :
    (rounds idx k : ℕ) (e d : DirEntry) (old new : ℕ → Option DirEntry)
    → old idx ≡ some d
    → (is_empty d || is_deleted d) ≡ false
    → Placed rounds (idx + 1) k e old new
    → Placed (suc rounds) idx k e old new
passed-Placed rounds idx k e d old new at live p = record {
  after = omega (arith, p.after);
  inside = omega (arith, p.inside);
  live = λ j from lt. elim (ℕ_discrete idx j) [
    | yes here ↦ (d, ap old (sym here) ∙ at, not_empty)
    | no ne ↦ p.live j (omega (arith, from, ne)) lt
  ];
  here = p.here;
  kept = p.kept;
}
  where
    not_empty : is_empty d ≡ false
    not_empty = elim (Bool-cases (is_empty d)) [
      | inr h ↦ h
      | inl h ↦ let bad : true ≡ false = sym (rw h refl) ∙ live in absurd cc
    ]
