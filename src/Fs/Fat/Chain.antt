-- ===== src/Fs/Fat/Chain.antt =====
-- The chains of clusters in servers/libtanix-fs/src/lib.rs.
use mathlib.Core.Path.{subst}
use tanix.Fs.Fat.{Fat16, fat_entry, fat_eoc, next_cluster, alloc_cluster}
use tanix.Fs.Fat.Alloc.{Allocates, alloc_cluster-Allocates}
use tanix.Fs.Fat.Entries.{IsTable}
use tanix.Prelude.{
  ℕ, ◌<◌, ◌≤◌, ◌≡◌, ◌≢◌, inl, inr, refl, sym, ap, ◌∙◌, Option, none, some, List, [], ◌∷◌, ◌++◌,
  arith,
}

-- The first cluster of a chain, 0 for none.
abbrev pub first : List ℕ → ℕ
first [] = 0
first (c ∷ cs) = c

-- The clusters lead to one another, and the last one ends the chain.
abbrev pub IsChain : Fat16 → List ℕ → Type 0
IsChain fs [] = Unit
IsChain fs (c ∷ cs) = (2 ≤ c) × (next_cluster c fs ≡ first cs) × IsChain fs cs

-- An entry that is not free has the same successor where the entry is the same.
pub next_cluster_ext :
    (c : ℕ) (fs fs' : Fat16)
    → fat_entry c fs' ≡ fat_entry c fs
    → next_cluster c fs' ≡ next_cluster c fs
unfolding next_cluster
next_cluster_ext c fs fs' e = rw e refl

next_cluster_eoc : (c : ℕ) (fs : Fat16) → fat_entry c fs ≡ fat_eoc → next_cluster c fs ≡ 0
unfolding next_cluster
next_cluster_eoc c fs e = rw e refl

next_cluster_link :
    (c d : ℕ) (fs : Fat16) → fat_entry c fs ≡ d → 2 ≤ d → d < 0xFFF8 → next_cluster c fs ≡ d
unfolding next_cluster
next_cluster_link c d fs e two small = rw e (ground arith)

-- The last cluster of a chain.
abbrev pub last_of : ℕ → List ℕ → ℕ
last_of c [] = c
last_of c (d ∷ cs) = last_of d cs

-- Of a chain only the last cluster is `l`, and no other is `new`.
abbrev Before : ℕ → ℕ → ℕ → List ℕ → Type 0
Before new l c [] = c ≡ l
Before new l c (d ∷ cs) = (c ≢ l) × (c ≢ new) × Before new l d cs

-- A cluster `new` behind the cluster `c_last`.
module _ (fs fs' : Fat16) (new : ℕ) (c_last : ℕ) (two : 2 ≤ new) (small : new < 0xFFF8)
    (ends : fat_entry new fs' ≡ fat_eoc) (leads : fat_entry c_last fs' ≡ new)
    (same : (d : ℕ) → d ≢ new → d ≢ c_last → fat_entry d fs' ≡ fat_entry d fs) where
  IsChain-extend :
      (c : ℕ) (cs : List ℕ)
      → IsChain fs (c ∷ cs)
      → Before new c_last c cs
      → IsChain fs' (c ∷ (cs ++ (new ∷ [])))
  IsChain-extend c [] (le, _, _) e = (
    le,
    next_cluster_link c new fs' (ap (λ (k : ℕ). fat_entry k fs') e ∙ leads) two small,
    (two, next_cluster_eoc new fs' ends, tt),
  )
  IsChain-extend c (d ∷ cs) (le, next, rest) (off, other, apart) =
      (le, next_cluster_ext c fs fs' (same c other off) ∙ next, IsChain-extend d cs rest apart)

next-last :
    (fs : Fat16) (c : ℕ) (cs : List ℕ) → IsChain fs (c ∷ cs) → next_cluster (last_of c cs) fs ≡ 0
next-last fs c [] (_, e, _) = e
next-last fs c (d ∷ cs) (_, _, rest) = next-last fs d cs rest

two-le-last : (fs : Fat16) (c : ℕ) (cs : List ℕ) → IsChain fs (c ∷ cs) → 2 ≤ last_of c cs
two-le-last fs c [] (le, _, _) = le
two-le-last fs c (d ∷ cs) (_, _, rest) = two-le-last fs d cs rest

used_of_next : (c : ℕ) (fs : Fat16) → next_cluster c fs ≢ 0 → fat_entry c fs ≢ 0
unfolding next_cluster
used_of_next c fs h = ground arith

-- The clusters before the last one are neither the last one nor free.
apart :
    (fs : Fat16) (new l : ℕ)
    → fat_entry new fs ≡ 0
    → next_cluster l fs ≡ 0
    → (c : ℕ) (cs : List ℕ) → IsChain fs (c ∷ cs)
    → last_of c cs ≡ l
    → Before new l c cs
apart fs new l free end c [] chain e = e
apart fs new l free end c (d ∷ cs) (le, next, rest) e =
    let goes_on : next_cluster c fs ≢ 0 = omega (arith, next, rest.0) in
    (
      (λ p. goes_on (ap (λ (k : ℕ). next_cluster k fs) p ∙ end)),
      (λ p. used_of_next c fs goes_on (ap (λ (k : ℕ). fat_entry k fs) p ∙ free)),
      apart fs new l free end d cs rest e,
    )

-- The chain that a result of `alloc_cluster` leaves.
abbrev pub Extends : ℕ → List ℕ → Option ℕ × Fat16 → Type 0
Extends c cs (none, fs') = IsChain fs' (c ∷ cs)
Extends c cs (some new, fs') = IsChain fs' (c ∷ (cs ++ (new ∷ [])))

-- On a table of 2 to 65528 entries that covers them: `alloc_cluster` at the last cluster of a chain,
-- one of the entries and not free, lengthens the chain by the new cluster at its end, or leaves it.
pub IsChain-alloc_cluster :
    (fs : Fat16) (c : ℕ) (cs : List ℕ)
    → IsTable fs
    → 2 ≤ fs.fat_entries
    → fs.fat_entries ≤ 0xFFF8
    → IsChain fs (c ∷ cs)
    → last_of c cs < fs.fat_entries
    → fat_entry (last_of c cs) fs ≢ 0
    → Extends c cs (alloc_cluster (last_of c cs) fs)
IsChain-alloc_cluster fs c cs t two small chain inside used =
    extended (alloc_cluster (last_of c cs) fs)
      (alloc_cluster-Allocates fs (last_of c cs) t two inside (inr used))
  where
    extended : (r : Option ℕ × Fat16) → Allocates (last_of c cs) fs r → Extends c cs r
    extended (none, fs') (e, _) = subst (λ (g : Fat16). IsChain g (c ∷ cs)) (sym e) chain
    extended (some new, fs') ((le, lt, free, _), ends, leads, same, _, _) =
        let end = next-last fs c cs chain in
        let nonzero : last_of c cs ≢ 0 = omega (arith, two-le-last fs c cs chain) in
        IsChain-extend fs fs' new (last_of c cs) le (omega arith) ends (leads nonzero)
          (λ d n m. same d n (inl m)) c cs chain
          (apart fs new (last_of c cs) free end c cs chain refl)
