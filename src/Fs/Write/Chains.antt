-- ===== src/Fs/Write/Chains.antt =====
-- The walks along a chain in `write_file` of servers/libtanix-fs/src/lib.rs, and the clusters they add.
use mathlib.Core.Path.{subst}
use tanix.Fs.Fat.{
  Fat16, is_cached, first_free, link, alloc_cluster, next_cluster, fat_entry, fat_free,
}
use tanix.Fs.File.Data.{IsSized}
use tanix.Fs.Write.{Step, goes, full, breaks, allocated, onward, next_or_new, reach}
use tanix.Fs.Write.Safe.{IsCached, IsSafe, link-IsSafe}
use tanix.Fs.Write.Steps.{OnlyTable, OnlyTable-trans, linked-OnlyTable}
use tanix.Prelude.{
  ℕ, if◌then◌else◌, zero, suc, ◌+◌, ◌-◌, ◌<◌, ◌≤◌, ◌≡◌, ◌≢◌, refl, sym, ap, ◌∙◌, false, ◌&&◌, none,
  some, arith, leb, ◌==◌, Bool-cases, Option-cases, ==_iff, inl, inr,
}

-- No cluster of the volume is free.
abbrev pub IsFull : Fat16 → Type 0
IsFull fs = first_free (fs.fat_entries - 2) 2 fs ≡ none

-- A cluster is found, or the volume is full, or, where `H` does not hold, the table has no such entry.
pub data Found (H : Type 0) (fs : Fat16) : Step ℕ → Type 0 where
  found :
      (c : ℕ) (fs' : Fat16)
      → 2 ≤ c
      → OnlyTable fs fs'
      → (H → IsSafe fs' × IsCached c fs')
      → Found H fs (goes c fs')
  missing : IsFull fs → Found H fs (full fs)
  broken : ¬ H → Found H fs (breaks fs)

first_free_low : (rounds c : ℕ) (fs : Fat16) (k : ℕ) → first_free rounds c fs ≡ some k → c ≤ k
unfolding first_free
first_free_low zero c fs k e = absurd cc
first_free_low (suc rounds) c fs k e = elim (Bool-cases (fat_entry c fs == fat_free)) [
  | inl h ↦
      let gives : some c ≡ some k = sym (rw h refl) ∙ e in
      let same : c ≡ k = cc gives in omega (arith, same)
  | inr h ↦ omega (arith, first_free_low rounds (c + 1) fs k (sym (rw h refl) ∙ e))
]

first_free_high :
    (rounds c : ℕ) (fs : Fat16) (k : ℕ) → first_free rounds c fs ≡ some k → k < c + rounds
unfolding first_free
first_free_high zero c fs k e = absurd cc
first_free_high (suc rounds) c fs k e = elim (Bool-cases (fat_entry c fs == fat_free)) [
  | inl h ↦
      let gives : some c ≡ some k = sym (rw h refl) ∙ e in
      let same : c ≡ k = cc gives in omega (arith, same)
  | inr h ↦ omega (arith, first_free_high rounds (c + 1) fs k (sym (rw h refl) ∙ e))
]

pub allocated-Found :
    (prev : ℕ) (fs : Fat16) → Found (IsSafe fs × IsCached prev fs) fs (allocated prev fs)
unfolding allocated alloc_cluster
allocated-Found prev fs = elim (Option-cases (first_free (fs.fat_entries - 2) 2 fs)) [
  | inl h ↦ rw h (missing h)
  | inr (c, h) ↦
      let low = first_free_low (fs.fat_entries - 2) 2 fs c h in
      let high = first_free_high (fs.fat_entries - 2) 2 fs c h in
      elim (Bool-cases (is_cached c fs)) [
        | inl inside ↦
            rw (h, inside)
              (found c (link prev c fs) low (linked-OnlyTable prev fs (some c))
                (λ (s, at). link-IsSafe prev c fs s at (ground (arith, inside))))
        | inr outside ↦
            rw (h, outside)
              (broken (λ (s, at). absurd (ground (arith, outside, low, high, s.covered))))
      ]
]

next_cluster_low :
    (cluster : ℕ) (fs : Fat16)
    → (next_cluster cluster fs == 0) ≡ false
    → 2 ≤ next_cluster cluster fs
unfolding next_cluster
next_cluster_low cluster fs h = ground (arith, h)

pub next_or_new-Found :
    (cluster : ℕ) (fs : Fat16) → Found (IsSafe fs × IsCached cluster fs) fs (next_or_new cluster fs)
unfolding next_or_new
next_or_new-Found cluster fs = elim (Bool-cases (is_cached cluster fs)) [
  | inr outside ↦ rw outside (broken (λ (s, at). absurd (ground (arith, outside, at))))
  | inl inside ↦ elim (Bool-cases (next_cluster cluster fs == 0)) [
    | inl h ↦ rw (inside, h) (allocated-Found cluster fs)
    | inr h ↦
        rw (inside, h)
          (found (next_cluster cluster fs) fs (next_cluster_low cluster fs h) refl
            (λ (s, at). (s, s.closed cluster at)))
  ]
]

-- The first cluster of a write: that of the entry, or a new one.
pub begun-Found :
    (start : ℕ) (fs : Fat16)
    → start ≢ 1
    → Found
        (IsSafe fs × IsCached start fs)
        fs
        (if start == 0 then allocated 0 fs else goes start fs)
begun-Found start fs ne = elim (Bool-cases (start == 0)) [
  | inl h ↦
      let none_yet : start ≡ 0 = (==_iff start 0).0 h in
      subst
        (λ (k : ℕ).
          Found (IsSafe fs × IsCached k fs) fs (if k == 0 then allocated 0 fs else goes k fs))
        (sym none_yet) (allocated-Found 0 fs)
  | inr h ↦ rw h (found start fs (ground (arith, h, ne)) refl (λ safe. safe))
]

-- What holds after the next cluster, and where there is none, and where the table has no such entry,
-- holds after all of them.
pub onward-Found {ℓ κ} :
    {A : Type ℓ} (P : A → Type κ) (H : Type 0) (fs : Fat16) (rest : ℕ → Fat16 → A)
    (fails stops : Fat16 → A)
    → {r : Step ℕ} → Found H fs r
    → ((c : ℕ) (fs' : Fat16)
        → 2 ≤ c
        → OnlyTable fs fs'
        → (H → IsSafe fs' × IsCached c fs')
        → P (rest c fs'))
    → (IsFull fs → P (fails fs))
    → (¬ H → P (stops fs))
    → P (onward rest fails stops r)
onward-Found P H fs rest fails stops (found c fs' low table safe) go end break_off =
    go c fs' low table safe
onward-Found P H fs rest fails stops (missing none_free) go end break_off = end none_free
onward-Found P H fs rest fails stops (broken not_h) go end break_off = break_off not_h

pub OnlyTable-IsSized : (fs fs' : Fat16) → OnlyTable fs fs' → IsSized fs → IsSized fs'
OnlyTable-IsSized fs fs' table z =
    subst IsSized (sym table) (record { bytes = z.bytes; some_sector = z.some_sector })

-- Where the walk ends: in a cluster, with less than a cluster to skip, or on a full volume, or, where `H`
-- does not hold, outside of the table.
pub data Reaches (H : Type 0) (fs : Fat16) : Step (ℕ × ℕ) → Type 0 where
  reaches :
      (c skip : ℕ) (fs' : Fat16)
      → 2 ≤ c
      → skip < fs.cluster_bytes
      → OnlyTable fs fs'
      → (H → IsSafe fs' × IsCached c fs')
      → Reaches H fs (goes (c, skip) fs')
  no_room : (fs' : Fat16) → IsFull fs' → OnlyTable fs fs' → Reaches H fs (full fs')
  no_entry : (fs' : Fat16) → ¬ H → OnlyTable fs fs' → Reaches H fs (breaks fs')

pub Reaches-later :
    (H H' : Type 0) (fs fs' : Fat16)
    → OnlyTable fs fs'
    → (H → H')
    → {r : Step (ℕ × ℕ)} → Reaches H' fs' r
    → Reaches H fs r
Reaches-later H H' fs fs' table on (reaches c skip fs2 low lt t safe) =
    reaches c skip fs2 low (omega (arith, lt, ap (λ (f : Fat16). f.cluster_bytes) table))
      (OnlyTable-trans fs fs' fs2 table t) (λ h. safe (on h))
Reaches-later H H' fs fs' table on (no_room fs2 end t) =
    no_room fs2 end (OnlyTable-trans fs fs' fs2 table t)
Reaches-later H H' fs fs' table on (no_entry fs2 not_h t) =
    no_entry fs2 (λ h. not_h (on h)) (OnlyTable-trans fs fs' fs2 table t)

pub reach-Reaches :
    (rounds cluster skip : ℕ) (fs : Fat16)
    → 0 < fs.cluster_bytes
    → 2 ≤ cluster
    → skip < rounds
    → Reaches (IsSafe fs × IsCached cluster fs) fs (reach rounds cluster skip fs)
unfolding reach
reach-Reaches zero cluster skip fs big low lt = absurd (omega (arith, lt))
reach-Reaches (suc rounds) cluster skip fs big low lt =
    elim (Bool-cases (leb 2 cluster && leb fs.cluster_bytes skip)) [
      | inr h ↦ rw h (reaches cluster skip fs low (ground (arith, h, low)) refl (λ safe. safe))
      | inl h ↦
          let far : fs.cluster_bytes ≤ skip = ground (arith, h) in
          let H = IsSafe fs × IsCached cluster fs in
          rw h (
            onward-Found (Reaches H fs) H fs
              (λ next fs'. reach rounds next (skip - fs.cluster_bytes) fs') (λ fs'. full fs')
              (λ fs'. breaks fs') (next_or_new-Found cluster fs)
              (λ c fs' low' table safe.
                let same : fs'.cluster_bytes ≡ fs.cluster_bytes =
                  ap (λ (f : Fat16). f.cluster_bytes) table in
                Reaches-later H (IsSafe fs' × IsCached c fs') fs fs' table safe (
                  reach-Reaches rounds c (skip - fs.cluster_bytes) fs' (omega (arith, same, big))
                    low' (omega (arith, far, big, lt))))
              (λ none_free. no_room fs none_free refl) (λ not_h. no_entry fs not_h refl))
    ]
