-- ===== src/Hypervisor/Doorbell/Counts.antt =====
-- What the counts of kernel/src/hypervisor/doorbell.rs say.
use mathlib.Core.Option
use tanix.Hypervisor.Doorbell.{
  DoorbellEntry, DoorbellTable, find_by, change, has_handle, rung, find_doorbell, ring, ring_sgi,
  stats, next_u64,
}
use tanix.Prelude.{
  ℕ, ◌≡◌, refl, sym, ap, ◌∙◌, Bool, true, false, Option, none, some, List, [], ◌∷◌, arith, inl, inr,
  Bool-cases, ◌==◌,
}

module _ (test : DoorbellEntry → Bool) (e : DoorbellEntry)
    (rest : List (Option DoorbellEntry)) where
  find_by_hit : test e ≡ true → find_by test (some e ∷ rest) ≡ some e
  unfolding find_by
  find_by_hit hit = rw hit refl

  find_by_miss : test e ≡ false → find_by test (some e ∷ rest) ≡ find_by test rest
  unfolding find_by
  find_by_miss miss = rw miss refl

-- What counting a ring does to a search for a handle.
abbrev Counts : ℕ → List (Option DoorbellEntry) → Option (List (Option DoorbellEntry)) → Type 0
Counts handle slots none = find_by (has_handle handle) slots ≡ none
Counts handle slots (some slots') =
    (find_by (has_handle handle) slots' ≡ Option.map ring (find_by (has_handle handle) slots))
    × ((k : ℕ)
        → (k == handle) ≡ false
        → find_by (has_handle k) slots' ≡ find_by (has_handle k) slots)

none-Counts :
    (handle : ℕ) (slots : List (Option DoorbellEntry)) (r : Option (List (Option DoorbellEntry)))
    → Counts handle slots r
    → Counts handle (none ∷ slots) (Option.map (λ (t : List (Option DoorbellEntry)). none ∷ t) r)
unfolding find_by
none-Counts handle slots none c = c
none-Counts handle slots (some r) c = c

miss-Counts :
    (handle : ℕ) (e : DoorbellEntry) (slots : List (Option DoorbellEntry))
    (r : Option (List (Option DoorbellEntry)))
    → (e.handle == handle) ≡ false
    → Counts handle slots r
    → Counts handle
        (some e ∷ slots)
        (Option.map (λ (t : List (Option DoorbellEntry)). some e ∷ t) r)
miss-Counts handle e slots none miss c = find_by_miss (has_handle handle) e slots miss ∙ c
miss-Counts handle e slots (some r) miss c = (
  rw (find_by_miss (has_handle handle) e slots miss)
      (rw (find_by_miss (has_handle handle) e r miss) c.0),
  λ k ne. elim (Bool-cases (e.handle == k)) [
    | inl hit ↦ find_by_hit (has_handle k) e r hit ∙ sym (find_by_hit (has_handle k) e slots hit)
    | inr off ↦
        find_by_miss (has_handle k) e r off
        ∙ c.1 k ne
        ∙ sym (find_by_miss (has_handle k) e slots off)
  ],
)

hit-Counts :
    (handle : ℕ) (e : DoorbellEntry) (slots : List (Option DoorbellEntry))
    → (e.handle == handle) ≡ true
    → Counts handle (some e ∷ slots) (some (some (ring e) ∷ slots))
hit-Counts handle e slots hit = (
  find_by_hit (has_handle handle) (ring e) slots hit
      ∙ ap (Option.map ring) (sym (find_by_hit (has_handle handle) e slots hit)),
  λ k ne.
      let off : (e.handle == k) ≡ false = ground (arith, hit, ne) in
      find_by_miss (has_handle k) (ring e) slots off
      ∙ sym (find_by_miss (has_handle k) e slots off),
)

change-Counts :
    (handle : ℕ) (slots : List (Option DoorbellEntry))
    → Counts handle slots (change (has_handle handle) ring slots)
unfolding change find_by
change-Counts handle [] = refl
change-Counts handle (none ∷ slots) =
    none-Counts handle slots (change (has_handle handle) ring slots) (change-Counts handle slots)
change-Counts handle (some e ∷ slots) =
    let rest = change-Counts handle slots in
    elim (Bool-cases (e.handle == handle)) [
      | inl hit ↦ rw hit (hit-Counts handle e slots hit)
      | inr miss ↦
          rw miss (miss-Counts handle e slots (change (has_handle handle) ring slots) miss rest)
    ]

-- The counts of an entry.
abbrev pair : DoorbellEntry → ℕ × ℕ
pair e = (e.rings, e.deliveries)

-- What a ring returns and leaves.
abbrev Rings : ℕ → DoorbellTable → Option (ℕ × DoorbellTable) → Type 0
Rings handle t none = stats handle t ≡ none
Rings handle t (some (irq, t')) =
    (stats handle t' ≡ Option.map (λ (c : ℕ × ℕ). (next_u64 c.0, c.1)) (stats handle t))
    × ((k : ℕ) → (k == handle) ≡ false → stats k t' ≡ stats k t)

-- A ring of a handle that has no counts fails; any other adds one to the rings of that handle, modulo
-- 2^64, and changes neither its deliveries nor the counts of another handle.
ring_sgi-Rings : (handle : ℕ) (t : DoorbellTable) → Rings handle t (ring_sgi handle t)
unfolding ring_sgi stats find_doorbell
ring_sgi-Rings handle t =
    counted (find_by (has_handle handle) t.entries) (change (has_handle handle) ring t.entries) refl
      (change-Counts handle t.entries)
  where
    counted :
        (found : Option DoorbellEntry) (slots : Option (List (Option DoorbellEntry)))
        → find_by (has_handle handle) t.entries ≡ found
        → Counts handle t.entries slots
        → Rings handle t (rung t found slots)
    counted none slots e c = ap (Option.map pair) e
    counted (some x) none e c = ap (Option.map pair) c
    counted (some x) (some slots) e c = (
      ap (Option.map pair) (c.0 ∙ ap (Option.map ring) e)
          ∙ ap
              (λ (o : Option DoorbellEntry).
                Option.map (λ (c : ℕ × ℕ). (next_u64 c.0, c.1)) (Option.map pair o))
              (sym e),
      λ k ne. ap (Option.map pair) (c.1 k ne),
    )
