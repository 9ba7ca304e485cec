-- ===== src/Fs/Fat/Alloc.antt =====
-- The allocation of a cluster in servers/libtanix-fs/src/lib.rs.
use native.Mathlib.Decide.{ℕ_discrete}
use tanix.Fs.Fat.{
  Fat16, fat_entry, set_fat_entry, fat_eoc, free_clusters, first_free, link, linked, alloc_cluster,
}
use tanix.Fs.Fat.Entries.{
  IsTable, fat_entry-set_fat_entry, fat_entry-set_fat_entry_ne, length-set_fat_entry,
}
use tanix.Prelude.{
  ℕ, zero, suc, ◌+◌, ◌-◌, ◌<◌, ◌≤◌, ◌≡◌, ◌≢◌, ◌⊎◌, inl, inr, refl, sym, ap, either, ◌∙◌, Option,
  none, some, arith, ◌==◌, length, Bool-cases,
}
use tanix.Prelude.Count.{count_below, count_below_raise}

-- `first_free` finds the lowest free cluster of its range, or there is none.
abbrev pub Lowest : Fat16 → ℕ → ℕ → Option ℕ → Type 0
Lowest fs from end none = (d : ℕ) → from ≤ d → d < end → fat_entry d fs ≢ 0
Lowest fs from end (some c) =
    (from ≤ c)
    × (c < end)
    × (fat_entry c fs ≡ 0)
    × ((d : ℕ) → from ≤ d → d < c → fat_entry d fs ≢ 0)

from_next :
    (fs : Fat16) (c d : ℕ)
    → fat_entry c fs ≢ 0
    → (c + 1 ≤ d → fat_entry d fs ≢ 0)
    → c ≤ d
    → fat_entry d fs ≢ 0
from_next fs c d here behind le = elim (ℕ_discrete c d) [
  | yes e ↦ λ z. here (ap (λ (k : ℕ). fat_entry k fs) e ∙ z)
  | no ne ↦ behind (omega arith)
]

first_free-Lowest : (rounds c : ℕ) (fs : Fat16) → Lowest fs c (c + rounds) (first_free rounds c fs)
unfolding first_free
first_free-Lowest zero c fs = λ d p q. absurd (omega arith)
first_free-Lowest (suc rounds) c fs = elim (Bool-cases (fat_entry c fs == 0)) [
  | inl free ↦ rw free (omega arith, omega arith, ground arith, λ d p q. absurd (omega arith))
  | inr used ↦
      rw used
        (later (ground arith) (first_free rounds (c + 1) fs) (first_free-Lowest rounds (c + 1) fs))
]
  where
    later :
        fat_entry c fs ≢ 0
        → (r : Option ℕ) → Lowest fs (c + 1) (c + 1 + rounds) r
        → Lowest fs c (c + suc rounds) r
    later here none h = λ d p q. from_next fs c d here (λ p'. h d p' (omega arith)) p
    later here (some a) (le, lt, free, low) =
        (omega arith, omega arith, free, λ d p q. from_next fs c d here (λ p'. low d p' q) p)

module _ (fs : Fat16) (t : IsTable fs) (prev c : ℕ) where
  -- What a new cluster does to the entries.
  link-entries :
      c < fs.fat_entries
      → prev < fs.fat_entries
      → prev ≢ c
      → (fat_entry c (link prev c fs) ≡ fat_eoc)
        × (prev ≢ 0 → fat_entry prev (link prev c fs) ≡ c)
        × ((d : ℕ)
            → d ≢ c
            → (d ≢ prev) ⊎ (prev ≡ 0)
            → fat_entry d (link prev c fs) ≡ fat_entry d fs)
  unfolding link
  link-entries lt lt' ne = elim (Bool-cases (prev == 0)) [
    | inl first ↦ rw first (
      fat_entry-set_fat_entry fs c fat_eoc (omega (arith, t.covered)) (omega arith),
      λ z. absurd (z (ground arith)),
      λ d n _. fat_entry-set_fat_entry_ne fs c fat_eoc d n,
    )
    | inr chained ↦
        let ended = set_fat_entry c fat_eoc fs in
        rw chained (
          fat_entry-set_fat_entry_ne ended prev c c (λ e. ne (sym e))
              ∙ fat_entry-set_fat_entry fs c fat_eoc (omega (arith, t.covered)) (omega arith),
          λ _.
              fat_entry-set_fat_entry ended prev c
                (omega (arith, t.covered, length-set_fat_entry fs c fat_eoc))
                (omega (arith, t.numbered)),
          λ d n m.
              fat_entry-set_fat_entry_ne ended prev c d (ground arith)
              ∙ fat_entry-set_fat_entry_ne fs c fat_eoc d n,
        )
  ]

  fat_entries-link : (link prev c fs).fat_entries ≡ fs.fat_entries
  unfolding link set_fat_entry
  fat_entries-link = ground arith

  length-link : length (link prev c fs).fat ≡ length fs.fat
  unfolding link
  length-link = ground (
    arith,
    length-set_fat_entry fs c fat_eoc,
    length-set_fat_entry (set_fat_entry c fat_eoc fs) prev c,
  )

  link-IsTable : IsTable (link prev c fs)
  link-IsTable = record {
    covered = omega (arith, t.covered, fat_entries-link, length-link);
    numbered = omega (arith, t.numbered, fat_entries-link);
  }

  -- One cluster less is free.
  free_clusters-link :
      2 ≤ c
      → c < fs.fat_entries
      → prev < fs.fat_entries
      → prev ≢ c
      → fat_entry c fs ≡ 0
      → (prev ≡ 0) ⊎ (fat_entry prev fs ≢ 0)
      → free_clusters (link prev c fs) + 1 ≡ free_clusters fs
  unfolding free_clusters
  free_clusters-link le lt lt' ne free used =
      let fs' = link prev c fs in
      let (ends, leads, same) = link-entries lt lt' ne in
      let back : c - 2 + 2 ≡ c = omega arith in
      let raised =
        count_below_raise (λ i. fat_entry (i + 2) fs' == 0) (λ i. fat_entry (i + 2) fs == 0)
          (fs.fat_entries - 2) (c - 2) (omega arith)
          (let e : fat_entry (c - 2 + 2) fs' ≡ fat_eoc =
              ap (λ (k : ℕ). fat_entry k fs') back ∙ ends in
            ground (arith, e))
          (let e : fat_entry (c - 2 + 2) fs ≡ 0 = ap (λ (k : ℕ). fat_entry k fs) back ∙ free in
            ground (arith, e))
          (λ i lt i_ne. elim (ℕ_discrete prev (i + 2)) [
            | yes e ↦
                let here : fat_entry (i + 2) fs' ≡ c =
                  ap (λ (k : ℕ). fat_entry k fs') (sym e) ∙ leads (omega arith) in
                let there : fat_entry (i + 2) fs ≢ 0 = λ z.
                  either (λ p. absurd (omega arith)) (λ p. p (ap (λ (k : ℕ). fat_entry k fs) e ∙ z))
                    used in
                ground (arith, here, there)
            | no off ↦ ap (λ (v : ℕ). v == 0) (same (i + 2) (omega arith) (inl (λ e. off (sym e))))
          ]) in
      omega (
        arith,
        raised,
        ap (λ (n : ℕ). count_below (λ i. fat_entry (i + 2) fs' == 0) (n - 2)) fat_entries-link,
      )

-- What `alloc_cluster` returns and leaves.
abbrev pub Allocates : ℕ → Fat16 → Option ℕ × Fat16 → Type 0
Allocates prev fs (none, fs') =
    (fs' ≡ fs) × ((d : ℕ) → 2 ≤ d → d < fs.fat_entries → fat_entry d fs ≢ 0)
Allocates prev fs (some c, fs') =
    ((2 ≤ c)
      × (c < fs.fat_entries)
      × (fat_entry c fs ≡ 0)
      × ((d : ℕ) → 2 ≤ d → d < c → fat_entry d fs ≢ 0))
    × (fat_entry c fs' ≡ fat_eoc)
    × (prev ≢ 0 → fat_entry prev fs' ≡ c)
    × ((d : ℕ) → d ≢ c → (d ≢ prev) ⊎ (prev ≡ 0) → fat_entry d fs' ≡ fat_entry d fs)
    × IsTable fs'
    × (free_clusters fs' + 1 ≡ free_clusters fs)

-- On a table that covers its entries, of at least two, with `prev` one of them that is 0 or in use:
-- `alloc_cluster` finds that no cluster is free and changes nothing, or it takes the lowest free
-- cluster, which then ends a chain, is the successor of `prev` unless that is 0, and is the one free
-- cluster less; no other entry changes.
pub alloc_cluster-Allocates :
    (fs : Fat16) (prev : ℕ)
    → IsTable fs
    → 2 ≤ fs.fat_entries
    → prev < fs.fat_entries
    → (prev ≡ 0) ⊎ (fat_entry prev fs ≢ 0)
    → Allocates prev fs (alloc_cluster prev fs)
unfolding alloc_cluster
alloc_cluster-Allocates fs prev t two lt used =
    allocated (first_free (fs.fat_entries - 2) 2 fs) (first_free-Lowest (fs.fat_entries - 2) 2 fs)
  where
    allocated :
        (r : Option ℕ)
        → Lowest fs 2 (2 + (fs.fat_entries - 2)) r
        → Allocates prev fs (linked prev fs r)
    allocated none h = (refl, λ d p q. h d p (omega arith))
    allocated (some c) (le, below, free, low) =
        let below' : c < fs.fat_entries = omega arith in
        let ne : prev ≢ c = λ e.
          either (λ z. absurd (omega arith)) (λ u. u (ap (λ (k : ℕ). fat_entry k fs) e ∙ free))
            used in
        let (ends, leads, same) = link-entries fs t prev c below' lt ne in
        (
          (le, below', free, low),
          ends,
          leads,
          same,
          link-IsTable fs t prev c,
          free_clusters-link fs t prev c le below' lt ne free used,
        )
