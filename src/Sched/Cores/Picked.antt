-- ===== src/Sched/Cores/Picked.antt =====
-- What the picks of kernel/src/sched/task.rs offer a core.
use tanix.Sched.{Task, Scheduler}
use tanix.Sched.Cores.Apart.{IsEligible}
use tanix.Sched.Pick.{
  may_run, keep_best, scan, ranked, outranks, slot_of, pick_next, offered, nearer, slot_or_idle,
  pick_next_rr,
}
use tanix.Sched.Pick.Best.{ranked-some}
use tanix.Prelude.{
  ℕ, zero, suc, ◌+◌, ◌-◌, ◌≡◌, refl, sym, ap, ◌∙◌, Bool, true, Option, none, some, ◌==◌, length,
  get_or, Bool-cases, inl, inr,
}

module _ {A : Type 0} (candidate : ℕ → Option A) (better : A → A → Bool) where
  -- What a scan ends with is a candidate.
  abbrev IsCandidate : Option A → Type 0
  IsCandidate none = Unit
  IsCandidate (some a) = (i : ℕ) × (candidate i ≡ some a)

  keep_best-IsCandidate :
      (idx : ℕ) (c best : Option A)
      → candidate idx ≡ c
      → IsCandidate best
      → IsCandidate (keep_best candidate better c best)
  keep_best-IsCandidate idx none best e h = h
  keep_best-IsCandidate idx (some a) none e h = (idx, e)
  keep_best-IsCandidate idx (some a) (some b) e h = elim (Bool-cases (better a b)) [
    | inl wins ↦ rw wins (idx, e)
    | inr loses ↦ rw loses h
  ]

  scan-IsCandidate :
      (rounds idx : ℕ) (best : Option A)
      → IsCandidate best
      → IsCandidate (scan candidate better rounds idx best)
  unfolding scan
  scan-IsCandidate zero idx best h = h
  scan-IsCandidate (suc rounds) idx best h =
      scan-IsCandidate rounds (idx + 1) (keep_best candidate better (candidate idx) best)
        (keep_best-IsCandidate idx (candidate idx) best refl h)

offered-some :
    (cpu exclude idx : ℕ) (o : Option Task) (i : ℕ)
    → offered cpu exclude idx o ≡ some i
    → (t : Task) × (o ≡ some t) × (may_run cpu t ≡ true) × (i ≡ idx)
offered-some cpu exclude idx none i e = cc e
offered-some cpu exclude idx (some t) i e = elim (Bool-cases (idx == exclude)) [
  | inl out ↦ let never : none ≡ some i = (rw out at e) in cc never
  | inr off ↦ elim (Bool-cases (may_run cpu t)) [
    | inr miss ↦ let never : none ≡ some i = (rw (off, miss) at e) in cc never
    | inl runs ↦
        let same : some idx ≡ some i = (rw (off, runs) at e) in (t, refl, runs, sym (cc same))
  ]
]

module _ (cpu cur : ℕ) (s : Scheduler) where
  slot_of-IsEligible :
      (r : Option (ℕ × ℕ))
      → IsCandidate
          (λ idx. ranked cpu idx (get_or s.tasks idx none))
          (outranks (length s.tasks) cur)
          r
      → IsEligible cpu (slot_of cpu r) s
  slot_of-IsEligible none h = inl refl
  slot_of-IsEligible (some (p, i)) (k, e) =
      let (t, there, runs, prio, same) = ranked-some cpu k (get_or s.tasks k none) (p, i) e in
      inr (t, ap (λ (x : ℕ). get_or s.tasks x none) same ∙ there, runs)

  pub pick_next-IsEligible : IsEligible cpu (pick_next cpu cur s) s
  unfolding pick_next
  pick_next-IsEligible =
      let candidate = λ (idx : ℕ). ranked cpu idx (get_or s.tasks idx none) in
      let n = length s.tasks in
      slot_of-IsEligible (scan candidate (outranks n cur) (n - 1) 1 none)
        (scan-IsCandidate candidate (outranks n cur) (n - 1) 1 none tt)

  slot_or_idle-IsEligible :
      (exclude : ℕ) (r : Option ℕ)
      → IsCandidate
          (λ idx. offered cpu exclude idx (get_or s.tasks idx none))
          (nearer (length s.tasks) cur)
          r
      → IsEligible cpu (slot_or_idle cpu r) s
  slot_or_idle-IsEligible exclude none h = inl refl
  slot_or_idle-IsEligible exclude (some i) (k, e) =
      let (t, there, runs, same) = offered-some cpu exclude k (get_or s.tasks k none) i e in
      inr (t, ap (λ (x : ℕ). get_or s.tasks x none) same ∙ there, runs)

  pub pick_next_rr-IsEligible : (exclude : ℕ) → IsEligible cpu (pick_next_rr cpu cur exclude s) s
  unfolding pick_next_rr
  pick_next_rr-IsEligible exclude =
      let candidate = λ (idx : ℕ). offered cpu exclude idx (get_or s.tasks idx none) in
      let n = length s.tasks in
      slot_or_idle-IsEligible exclude (scan candidate (nearer n cur) (n - 1) 1 none)
        (scan-IsCandidate candidate (nearer n cur) (n - 1) 1 none tt)
