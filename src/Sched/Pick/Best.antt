-- ===== src/Sched/Pick/Best.antt =====
-- What the picks of kernel/src/sched/task.rs pick.
use tanix.Sched.{Task, Scheduler, idle_slot}
use tanix.Sched.Pick.{may_run, forward, keep_best, scan, ranked, outranks, slot_of, pick_next}
use tanix.Prelude.{
  ℕ, zero, suc, ◌+◌, ◌-◌, ◌<◌, ◌≤◌, ◌≡◌, ◌⊎◌, inl, inr, refl, sym, ap, ◌∙◌, Bool, true, false,
  Option, none, some, arith, length, get_or, if◌then◌else◌, Bool-cases,
}
use mathlib.Core.Path.{subst}
use native.Mathlib.Decide.{ℕ_discrete}

module _ {A : Type 0} (candidate : ℕ → Option A) (better : A → A → Bool) where
  -- No candidate in a range, or one that no other is better than.
  abbrev pub IsBestOf : ℕ → Option A → Type 0
  IsBestOf end none = (j : ℕ) → 1 ≤ j → j < end → candidate j ≡ none
  IsBestOf end (some a) =
      ((i : ℕ) × (1 ≤ i) × (i < end) × (candidate i ≡ some a))
      × ((j : ℕ) (x : A) → 1 ≤ j → j < end → candidate j ≡ some x → better x a ≡ false)

  same_candidate : {i j : ℕ} {x a : A} → candidate i ≡ some a → j ≡ i → candidate j ≡ some x → x ≡ a
  same_candidate e m e' = cc

  not_both : {i j : ℕ} {x : A} {P : Type 0} → candidate i ≡ none → j ≡ i → candidate j ≡ some x → P
  not_both e m e' = cc

  module _ (irreflexive : (a : A) → better a a ≡ false)
      (keeps : (x b a : A) → better x b ≡ false → better a b ≡ true → better x a ≡ false) where
    keep_best-IsBestOf :
        (idx : ℕ) (c best : Option A)
        → 1 ≤ idx
        → candidate idx ≡ c
        → IsBestOf idx best
        → IsBestOf (idx + 1) (keep_best candidate better c best)
    keep_best-IsBestOf idx none none le e h =
        λ j p q. elim (ℕ_discrete j idx) [ yes m ↦ ap candidate m ∙ e | no m ↦ h j p (omega arith) ]
    keep_best-IsBestOf idx none (some b) le e ((i, p, q, eb), h) = (
      (i, p, omega arith, eb),
      λ j x p q ej. elim (ℕ_discrete j idx) [
        | yes m ↦ not_both e m ej
        | no m ↦ h j x p (omega arith) ej
      ],
    )
    keep_best-IsBestOf idx (some a) none le e h = (
      (idx, le, omega arith, e),
      λ j x p q ej. elim (ℕ_discrete j idx) [
        | yes m ↦ ap (λ (y : A). better y a) (same_candidate e m ej) ∙ irreflexive a
        | no m ↦ not_both (h j p (omega arith)) refl ej
      ],
    )
    keep_best-IsBestOf idx (some a) (some b) le e ((i, p, q, eb), h) =
        elim (Bool-cases (better a b)) [
          | inl hit ↦ rw hit (
            (idx, le, omega arith, e),
            λ j x p q ej. elim (ℕ_discrete j idx) [
              | yes m ↦ ap (λ (y : A). better y a) (same_candidate e m ej) ∙ irreflexive a
              | no m ↦ keeps x b a (h j x p (omega arith) ej) hit
            ],
          )
          | inr miss ↦ rw miss (
            (i, p, omega arith, eb),
            λ j x p q ej. elim (ℕ_discrete j idx) [
              | yes m ↦ ap (λ (y : A). better y b) (same_candidate e m ej) ∙ miss
              | no m ↦ h j x p (omega arith) ej
            ],
          )
        ]

    scan-IsBestOf :
        (rounds idx : ℕ) (best : Option A)
        → 1 ≤ idx
        → IsBestOf idx best
        → IsBestOf (idx + rounds) (scan candidate better rounds idx best)
    unfolding scan
    scan-IsBestOf zero idx best le h =
        let e : idx ≡ idx + 0 = omega arith in subst (λ (n : ℕ). IsBestOf n best) e h
    scan-IsBestOf (suc rounds) idx best le h =
        let e : idx + 1 + rounds ≡ idx + suc rounds = omega arith in
        let next = keep_best candidate better (candidate idx) best in
        subst (λ (n : ℕ). IsBestOf n (scan candidate better rounds (idx + 1) next)) e
          (scan-IsBestOf rounds (idx + 1) next (omega arith)
            (keep_best-IsBestOf idx (candidate idx) best le refl h))

-- The slot that a pick of CPU `cpu` gives, for a task in one of the slots 1 and up: no task may run and it
-- is the idle slot, or that slot's task may run, and of the others that may run none has a better
-- priority, or the same one and a slot that is nearer ahead.
abbrev pub Picks : (cpu cur : ℕ) → Scheduler → ℕ → Type 0
Picks cpu cur s slot =
    (((j : ℕ) (t : Task)
        → 1 ≤ j
        → j < length s.tasks
        → get_or s.tasks j none ≡ some t
        → may_run cpu t ≡ false)
      × (slot ≡ idle_slot cpu))
    ⊎ ((t : Task) × (1 ≤ slot)
        × (slot < length s.tasks)
        × (get_or s.tasks slot none ≡ some t)
        × (may_run cpu t ≡ true)
        × ((j : ℕ) (u : Task)
            → 1 ≤ j
            → j < length s.tasks
            → get_or s.tasks j none ≡ some u
            → may_run cpu u ≡ true
            → (t.priority < u.priority)
              ⊎ ((t.priority ≡ u.priority)
                  × (forward (length s.tasks) cur slot ≤ forward (length s.tasks) cur j))))

pub ranked-some :
    (cpu idx : ℕ) (o : Option Task) (r : ℕ × ℕ)
    → ranked cpu idx o ≡ some r
    → (t : Task) × (o ≡ some t) × (may_run cpu t ≡ true) × (r.0 ≡ t.priority) × (r.1 ≡ idx)
ranked-some cpu idx none r e = cc
ranked-some cpu idx (some t) r e = elim (Bool-cases (may_run cpu t)) [
  | inl hit ↦
      let same : some (t.priority, idx) ≡ some r =
        sym (ap (λ (b : Bool). if b then some (t.priority, idx) else none) hit) ∙ e in
      let pair : (t.priority, idx) ≡ r = cc same in
      (t, refl, hit, ap (λ (x : ℕ × ℕ). x.0) (sym pair), ap (λ (x : ℕ × ℕ). x.1) (sym pair))
  | inr miss ↦
      let never : none ≡ some r =
        sym (ap (λ (b : Bool). if b then some (t.priority, idx) else none) miss) ∙ e in
      cc never
]

ranked-none : (cpu idx : ℕ) (t : Task) → ranked cpu idx (some t) ≡ none → may_run cpu t ≡ false
ranked-none cpu idx t e = elim (Bool-cases (may_run cpu t)) [
  | inl hit ↦
      let never : some (t.priority, idx) ≡ none =
        sym (ap (λ (b : Bool). if b then some (t.priority, idx) else none) hit) ∙ e in
      cc never
  | inr miss ↦ miss
]

ranked_runs :
    (cpu idx : ℕ) (t : Task)
    → may_run cpu t ≡ true
    → ranked cpu idx (some t) ≡ some (t.priority, idx)
ranked_runs cpu idx t e = ap (λ (b : Bool). if b then some (t.priority, idx) else none) e

not_outranked :
    (n cur p j bp i q : ℕ)
    → bp ≡ q
    → outranks n cur (p, j) (bp, i) ≡ false
    → (q < p) ⊎ ((q ≡ p) × (forward n cur i ≤ forward n cur j))
not_outranked n cur p j bp i q e h = ground (arith, e)

module _ (cpu cur : ℕ) (s : Scheduler) (inside : cur < length s.tasks) where
  picked :
      (r : Option (ℕ × ℕ))
      → IsBestOf
          (λ idx. ranked cpu idx (get_or s.tasks idx none))
          (outranks (length s.tasks) cur)
          (length s.tasks)
          r
      → Picks cpu cur s (slot_of cpu r)
  picked none h = inl (λ j t p q e. ranked-none cpu j t (ap (ranked cpu j) (sym e) ∙ h j p q), refl)
  picked (some (p, i)) ((k, le, lt, e), best) =
      let (t, there, run, prio, same) = ranked-some cpu k (get_or s.tasks k none) (p, i) e in
      inr (
        t,
        omega (arith, same),
        omega (arith, same),
        ap (λ (x : ℕ). get_or s.tasks x none) same ∙ there,
        run,
        λ j u lj ltj eu runs.
            not_outranked (length s.tasks) cur u.priority j p i t.priority prio
              (best j (u.priority, j) lj ltj (ap (ranked cpu j) eu ∙ ranked_runs cpu j u runs)),
      )

  -- Where the current slot is one of the table: `pick_next` gives the idle slot of the CPU where no task in the
  -- other slots may run, and otherwise the slot of a task that may run, that no other one that may run
  -- precedes: by its priority, or at the same priority by its distance ahead of the current slot.
  pub pick_next-Picks : Picks cpu cur s (pick_next cpu cur s)
  unfolding pick_next
  pick_next-Picks =
      let n = length s.tasks in
      let all : 1 + (n - 1) ≡ n = omega arith in
      let r =
        scan (λ idx. ranked cpu idx (get_or s.tasks idx none)) (outranks n cur) (n - 1) 1 none in
      picked r (
        subst
          (λ (m : ℕ).
            IsBestOf (λ idx. ranked cpu idx (get_or s.tasks idx none)) (outranks n cur) m r)
          all
          (scan-IsBestOf (λ idx. ranked cpu idx (get_or s.tasks idx none)) (outranks n cur)
            (λ a. ground arith) (λ x b a p q. ground arith) (n - 1) 1 none (omega arith)
            (λ j p q. absurd (omega arith))))
