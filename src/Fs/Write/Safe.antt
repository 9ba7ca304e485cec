-- ===== src/Fs/Write/Safe.antt =====
-- Volumes of servers/libtanix-fs/src/lib.rs whose cached table leads to no cluster outside of it.
use native.Mathlib.Decide.{ℕ_discrete}
use tanix.Fs.Fat.{Fat16, fat_entry, set_fat_entry, fat_eoc, next_cluster, link}
use tanix.Fs.Fat.Chain.{next_cluster_ext}
use tanix.Fs.Fat.Entries.{fat_entry-set_fat_entry, fat_entry-set_fat_entry_ne, length-set_fat_entry}
use tanix.Prelude.{
  ℕ, ◌+◌, ◌*◌, ◌^◌, ◌<◌, ◌≤◌, ◌≡◌, ◌⊎◌, refl, ap, ◌∙◌, ◌||◌, arith, leb, ltb, ◌==◌, length,
  Bool-cases, inl, inr,
}

-- Both bytes of the entry are in the table.
abbrev pub IsCached : ℕ → Fat16 → Type 0
IsCached c fs = c * 2 + 1 < length fs.fat

-- The table covers the clusters of the volume, has entries for numbers of 16 bits at most, and its
-- entries lead to clusters of the table.
pub record IsSafe (fs : Fat16) : Type 0 where
  pub covered : fs.fat_entries * 2 ≤ length fs.fat
  pub sized : length fs.fat ≤ 2 ^ 17
  pub closed : (c : ℕ) → IsCached c fs → IsCached (next_cluster c fs) fs

next_of_entry :
    (d v : ℕ) (fs : Fat16)
    → fat_entry d fs ≡ v
    → (next_cluster d fs ≡ 0) ⊎ ((next_cluster d fs ≡ v) × (v < 0xFFF8))
unfolding next_cluster
next_of_entry d v fs e = elim (Bool-cases (leb 0xFFF8 v || ltb v 2)) [
  | inl h ↦ inl (rw (e, h) refl)
  | inr h ↦ inr (rw (e, h) refl, ground (arith, h))
]

set_fat_entry-IsSafe :
    (c v : ℕ) (fs : Fat16)
    → IsSafe fs
    → IsCached c fs
    → v < 2 ^ 16
    → IsCached v fs ⊎ (0xFFF8 ≤ v)
    → IsSafe (set_fat_entry c v fs)
unfolding set_fat_entry
set_fat_entry-IsSafe c v fs s inside small leads =
    let same = length-set_fat_entry fs c v in
    record {
      covered = omega (arith, same, s.covered);
      sized = omega (arith, same, s.sized);
      closed = λ d cached. elim (ℕ_discrete d c) [
        | yes at ↦
            elim (next_of_entry d v (set_fat_entry c v fs) (
              ap (λ (k : ℕ). fat_entry k (set_fat_entry c v fs)) at
              ∙ fat_entry-set_fat_entry fs c v inside small)) [
                | inl e ↦ omega (arith, e, same, inside)
                | inr e ↦ omega (arith, e.0, e.1, same, leads)
              ]
        | no ne ↦
            let e =
              next_cluster_ext d fs (set_fat_entry c v fs)
                (fat_entry-set_fat_entry_ne fs c v d ne) in
            omega (arith, e, same, s.closed d (omega (arith, cached, same)))
      ];
    }

pub link-IsSafe :
    (prev c : ℕ) (fs : Fat16)
    → IsSafe fs
    → IsCached prev fs
    → IsCached c fs
    → IsSafe (link prev c fs) × IsCached c (link prev c fs)
unfolding link
link-IsSafe prev c fs s at_prev at_c =
    let ended = set_fat_entry c fat_eoc fs in
    let same = length-set_fat_entry fs c fat_eoc in
    let s' = set_fat_entry-IsSafe c fat_eoc fs s at_c (omega arith) (inr (omega arith)) in
    elim (Bool-cases (prev == 0)) [
      | inl h ↦ rw h (s', omega (arith, same, at_c))
      | inr h ↦ rw h (
        set_fat_entry-IsSafe prev c ended s' (omega (arith, same, at_prev))
            (omega (arith, at_c, s.sized)) (inl (omega (arith, same, at_c))),
        omega (arith, same, length-set_fat_entry ended prev c, at_c),
      )
    ]
