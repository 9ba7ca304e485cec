-- ===== src/Slots.antt =====
-- Tables of optional entries, as the kernel's `[Option<T>; N]`: the first free slot, the first entry
-- that a test finds, and a change of that entry.
use mathlib.Core.Option
use tanix.Prelude.{
  ℕ, suc, ◌≡◌, refl, sym, ap, ◌∙◌, Bool, true, false, Option, none, some, List, [], ◌∷◌, inl, inr,
  if◌then◌else◌, Bool-cases,
}

module _ {ℓ} {A : Type ℓ} where
  some_injective : {a b : A} → some a ≡ some b → a ≡ b
  some_injective e = cc

  -- `table.iter_mut().find(|s| s.is_none())`, and the entry stored there: its index and the table.
  unfoldable pub fill : A → List (Option A) → Option (ℕ × List (Option A))
  fill a [] = none
  fill a (none ∷ rest) = some (0, some a ∷ rest)
  fill a (some b ∷ rest) =
      Option.map (λ (r : ℕ × List (Option A)). (suc r.0, some b ∷ r.1)) (fill a rest)

  -- `table.iter().filter_map(|s| s.as_ref()).find(test)`
  unfoldable pub find : (A → Bool) → List (Option A) → Option A
  find test [] = none
  find test (none ∷ rest) = find test rest
  find test (some a ∷ rest) = if test a then some a else find test rest

  -- The entry that `find` finds is changed.
  unfoldable pub update : (A → Bool) → (A → A) → List (Option A) → List (Option A)
  update test f [] = []
  update test f (none ∷ rest) = none ∷ update test f rest
  update test f (some a ∷ rest) =
      let later = some a ∷ update test f rest in if test a then some (f a) ∷ rest else later

  -- What a search finds passes its test.
  pub find_sound :
      (test : A → Bool) (slots : List (Option A)) {a : A} → find test slots ≡ some a → test a ≡ true
  unfolding find
  find_sound test [] e = cc e
  find_sound test (none ∷ rest) e = find_sound test rest e
  find_sound test (some b ∷ rest) {a} e = elim (Bool-cases (test b)) [
    | inl hit ↦ ap test (sym (some_injective (rw hit at e))) ∙ hit
    | inr miss ↦ find_sound test rest (rw miss at e)
  ]

  module _ (test : A → Bool) (f : A → A) where
    find_step :
        (t : A → Bool) (a : A) (rest : List (Option A))
        → (t a ≡ true → find t (some a ∷ rest) ≡ some a)
          × (t a ≡ false → find t (some a ∷ rest) ≡ find t rest)
    unfolding find
    find_step t a rest = (λ e. rw e refl, λ e. rw e refl)

    -- A change after which the test still holds is what the next search finds.
    pub find-update :
        ((a : A) → test a ≡ true → test (f a) ≡ true)
        → (slots : List (Option A))
        → find test (update test f slots) ≡ Option.map f (find test slots)
    unfolding find update
    find-update same [] = refl
    find-update same (none ∷ rest) = find-update same rest
    find-update same (some a ∷ rest) = elim (Bool-cases (test a)) [
      | inl hit ↦ rw hit (rw (same a hit) refl)
      | inr miss ↦ rw miss (rw miss (find-update same rest))
    ]

    -- A search by a test that the changed entry fails, before and after, does not notice the change.
    pub find-update_ne :
        (other : A → Bool)
        → ((a : A) → test a ≡ true → (other a ≡ false) × (other (f a) ≡ false))
        → (slots : List (Option A)) → find other (update test f slots) ≡ find other slots
    unfolding find update
    find-update_ne other apart [] = refl
    find-update_ne other apart (none ∷ rest) = find-update_ne other apart rest
    find-update_ne other apart (some a ∷ rest) = elim (Bool-cases (test a)) [
      | inl hit ↦ rw hit (rw ((apart a hit).0) (rw ((apart a hit).1) refl))
      | inr miss ↦
          rw miss
            (ap (λ (o : Option A). if other a then some a else o) (find-update_ne other apart rest))
    ]

  -- What storing an entry does to a search.
  abbrev pub FindsAfter : (A → Bool) → A → List (Option A) → Option (ℕ × List (Option A)) → Type ℓ
  FindsAfter test a slots none = Unit
  FindsAfter test a slots (some r) =
      (test a ≡ false → find test r.1 ≡ find test slots)
      × (test a ≡ true → find test slots ≡ none → find test r.1 ≡ some a)

  pub find-fill :
      (test : A → Bool) (a : A) (slots : List (Option A)) → FindsAfter test a slots (fill a slots)
  unfolding fill find
  find-fill test a [] = tt
  find-fill test a (none ∷ rest) = (λ e. rw e refl, λ e miss. rw e refl)
  find-fill test a (some b ∷ rest) = behind (fill a rest) (find-fill test a rest)
    where
      behind :
          (r : Option (ℕ × List (Option A)))
          → FindsAfter test a rest r
          → FindsAfter test a
              (some b ∷ rest)
              (Option.map (λ (r : ℕ × List (Option A)). (suc r.0, some b ∷ r.1)) r)
      behind none h = tt
      behind (some r) (off, on) = elim (Bool-cases (test b)) [
        | inl hit ↦ (λ e. rw hit refl, λ e miss. cc (rw hit at miss))
        | inr pass ↦ (λ e. rw pass (off e), λ e miss. rw pass (on e (rw pass at miss)))
      ]
