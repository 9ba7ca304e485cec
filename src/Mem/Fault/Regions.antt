-- ===== src/Mem/Fault/Regions.antt =====
-- The regions of a task in kernel/src/mem/vm_fault.rs: what the search for one finds.
use mathlib.Core.Path.{subst}
use tanix.Mem.Fault.{region_stack, region_demand, covers, is_growable, find_region}
use tanix.Sched.{TaskRegion}
use tanix.Sched.Regions.{end_of}
use tanix.Prelude.{
  ℕ, ◌<◌, ◌≤◌, ◌≡◌, refl, ap, ◌∙◌, sym, Bool, true, false, ◌&&◌, none, some, List, [], ◌∷◌, arith,
  Bool-cases, inl, inr, ◌⊎◌,
}

pub data IsIn (r : TaskRegion) : List TaskRegion → Type 0 where
  here : {rest : List TaskRegion} → IsIn r (r ∷ rest)
  there : {r' : TaskRegion} {rest : List TaskRegion} → IsIn r rest → IsIn r (r' ∷ rest)

-- A region of the list, of the kind, that has the page; its end is that of a `usize`, as in the source.
pub record HasRegion (regions : List TaskRegion) (kind va : ℕ) : Type 0 where
  pub region : TaskRegion
  pub listed : IsIn region regions
  pub of_kind : region.kind ≡ kind
  pub starts : region.base ≤ va
  pub ends : va < end_of region

pub find_region-some :
    (test : TaskRegion → Bool) (regions : List TaskRegion) (r : TaskRegion)
    → find_region test regions ≡ some r
    → IsIn r regions × (test r ≡ true)
unfolding find_region
find_region-some test [] r h = cc h
find_region-some test (r' ∷ rest) r h = elim (Bool-cases (test r')) [
  | inl t ↦
      let first : some r' ≡ some r = (rw t at h) in
      let same : r' ≡ r = cc first in
      (subst (λ (x : TaskRegion). IsIn x (r' ∷ rest)) same here, ap test (sym same) ∙ t)
  | inr t ↦ let (listed, ok) = find_region-some test rest r (rw t at h) in (there listed, ok)
]

pub find_region-none :
    (test : TaskRegion → Bool) (regions : List TaskRegion) (r : TaskRegion)
    → find_region test regions ≡ none
    → IsIn r regions
    → test r ≡ false
unfolding find_region
find_region-none test [] r h listed = elim listed [ ]
find_region-none test (r' ∷ rest) r h here = elim (Bool-cases (test r')) [
  | inl t ↦ let never : some r' ≡ none = (rw t at h) in cc never
  | inr t ↦ t
]
find_region-none test (r' ∷ rest) r h (there listed) = elim (Bool-cases (test r')) [
  | inl t ↦ let never : some r' ≡ none = (rw t at h) in cc never
  | inr t ↦ find_region-none test rest r (rw t at h) listed
]

pub HasRegion-covers :
    (regions : List TaskRegion) (va : ℕ) (r : TaskRegion)
    → IsIn r regions
    → covers va r ≡ true
    → HasRegion regions (r.kind) va
unfolding covers
HasRegion-covers regions va r listed c = record {
  region = r;
  listed = listed;
  of_kind = refl;
  starts = ground (arith, c);
  ends = ground (arith, c);
}

-- Where no region passes the test of a translation fault, none of the two kinds has the page.
pub no_growable :
    (regions : List TaskRegion) (va k : ℕ)
    → find_region (λ r. is_growable r && covers va r) regions ≡ none
    → (k ≡ region_stack) ⊎ (k ≡ region_demand)
    → ¬ HasRegion regions k va
unfolding covers
no_growable regions va k h kinds c =
    let fails = find_region-none (λ r. is_growable r && covers va r) regions c.region h c.listed in
    elim kinds [
      | inl e ↦ absurd (ground (arith, fails, c.of_kind, e, c.starts, c.ends))
      | inr e ↦ absurd (ground (arith, fails, c.of_kind, e, c.starts, c.ends))
    ]
