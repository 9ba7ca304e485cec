-- ===== src/Sched/Cores/Apart.antt =====
-- The invariant of the cores, and what one core may do to the table without disturbing the others.
use mathlib.Core.Option
use mathlib.Core.Path.{subst}
use native.Mathlib.Decide.{ℕ_discrete}
use tanix.Ipc.Syscall.{change_at}
use tanix.Ipc.Syscall.Slots.{task_at-change_at, task_at-change_at_ne}
use tanix.Sched.{TaskState, Task, Scheduler, idle_slot}
use tanix.Sched.Cores.{System, set_current}
use tanix.Sched.Pick.{is_ready, may_run}
use tanix.Sched.Table.{task_at, in_state}
use tanix.Prelude.{
  ℕ, ◌<◌, ◌≡◌, ◌≢◌, ◌⊎◌, refl, sym, ap, ◌∙◌, true, false, Option, none, some, ◌==◌, arith, inl, inr,
}

-- A task of the table in slot `x` with a property.
abbrev pub Holds : (Task → Type 0) → ℕ → Scheduler → Type 0
Holds P x s = (t : Task) × (task_at x s ≡ some t) × P t

-- Current somewhere: neither in the queue nor asleep.
abbrev pub IsHeld : Task → Type 0
IsHeld t = (is_ready t.state ≡ false) × (t.sleep_deadline ≡ 0)

abbrev pub IsIdleOf : ℕ → Task → Type 0
IsIdleOf c t = (t.cpu_affinity ≡ some c) × (t.sleep_deadline ≡ 0)

-- Of `n` cores, all but the core `but`: each has a task of its own in its slot, which is not in the queue
-- and not asleep, and not the idle one of another core; every core has its idle task, and no task in the
-- queue is asleep. With `but` at `n` or above, that is all cores.
pub record AreApart (n but : ℕ) (y : System) : Type 0 where
  pub idles : (c : ℕ) → c < n → Holds (IsIdleOf c) (idle_slot c) y.sched
  pub apart : (c d : ℕ) → c < n → d < n → c ≢ d → c ≢ but → d ≢ but → y.cur c ≢ y.cur d
  pub off_idle : (c d : ℕ) → c < n → d < n → c ≢ d → d ≢ but → y.cur d ≢ idle_slot c
  pub held : (c : ℕ) → c < n → c ≢ but → Holds IsHeld (y.cur c) y.sched
  pub awake :
      (x : ℕ) (t : Task)
      → task_at x y.sched ≡ some t
      → is_ready t.state ≡ true
      → t.sleep_deadline ≡ 0

pub idle_slot_apart : (c d : ℕ) → c ≢ d → idle_slot c ≢ idle_slot d
unfolding idle_slot
idle_slot_apart c d ne = ground (arith, ne)

-- A task in a slot that a change leaves alone, or changes.
pub Holds-change_at_ne :
    (P : Task → Type 0) (x k : ℕ) (f : Task → Task) (s : Scheduler)
    → x ≢ k
    → Holds P x s
    → Holds P x (change_at k f s)
Holds-change_at_ne P x k f s ne (t, at, p) = (t, task_at-change_at_ne k x f s ne ∙ at, p)

pub Holds-change_at :
    (P : Task → Type 0) (x k : ℕ) (f : Task → Task) (s : Scheduler)
    → ((t : Task) → x ≡ k → P t → P (f t))
    → Holds P x s
    → Holds P x (change_at k f s)
Holds-change_at P x k f s keeps (t, at, p) = elim (ℕ_discrete x k) [
  | no m ↦ (t, task_at-change_at_ne k x f s m ∙ at, p)
  | yes m ↦ (
    f t,
    ap (λ (n : ℕ). task_at n (change_at k f s)) m
        ∙ (task_at-change_at k f s ∙ ap (Option.map f) (ap (λ (n : ℕ). task_at n s) (sym m) ∙ at)),
    keeps t m p,
  )
]

abbrev pub IsAwake : Task → Type 0
IsAwake t = is_ready t.state ≡ true → t.sleep_deadline ≡ 0

pub mapped_some :
    (f : Task → Task) (o : Option Task) (t' : Task)
    → Option.map f o ≡ some t'
    → (t : Task) × (o ≡ some t) × (f t ≡ t')
mapped_some f none t' e = cc e
mapped_some f (some t) t' e = (t, refl, cc e)

-- Of all tasks, behind a change that keeps the property.
all-change_at :
    (P : Task → Type 0) (k : ℕ) (f : Task → Task) (s : Scheduler)
    → ((t : Task) → P t → P (f t))
    → ((x : ℕ) (t : Task) → task_at x s ≡ some t → P t)
    → (x : ℕ) (t : Task) → task_at x (change_at k f s) ≡ some t
    → P t
all-change_at P k f s keeps all x t at = elim (ℕ_discrete x k) [
  | no m ↦ all x t (sym (task_at-change_at_ne k x f s m) ∙ at)
  | yes m ↦
      let (t', old, new) = mapped_some f (task_at k s) t (
        sym (task_at-change_at k f s)
        ∙ (ap (λ (n : ℕ). task_at n (change_at k f s)) (sym m) ∙ at)) in
      subst P new (keeps t' (all k t' old))
]

-- Each slot is as before, or its task is changed by `f`.
abbrev pub Touches : (Task → Task) → Scheduler → Scheduler → Type 0
Touches f s s' =
    (x : ℕ) → (task_at x s' ≡ task_at x s) ⊎ (task_at x s' ≡ Option.map f (task_at x s))

Holds-Touches :
    (P : Task → Type 0) (f : Task → Task) (s s' : Scheduler) (x : ℕ)
    → Touches f s s'
    → ((t : Task) → P t → P (f t))
    → Holds P x s
    → Holds P x s'
Holds-Touches P f s s' x touches keeps (t, at, p) = elim (touches x) [
  | inl e ↦ (t, e ∙ at, p)
  | inr e ↦ (f t, e ∙ ap (Option.map f) at, keeps t p)
]

-- Changes that keep what each core needs of its tasks keep the invariant.
pub AreApart-Touches :
    (n but : ℕ) (f : Task → Task) (y : System) (s' : Scheduler)
    → ((t : Task) → IsHeld t → IsHeld (f t))
    → ((c : ℕ) (t : Task) → IsIdleOf c t → IsIdleOf c (f t))
    → ((t : Task) → IsAwake t → IsAwake (f t))
    → Touches f y.sched s'
    → AreApart n but y
    → AreApart n but (record y { sched = s' })
AreApart-Touches n but f y s' held idle awake touches a = record {
  idles =
      λ c lt. Holds-Touches (IsIdleOf c) f y.sched s' (idle_slot c) touches (idle c) (a.idles c lt);
  apart = a.apart;
  off_idle = a.off_idle;
  held = λ c lt ne. Holds-Touches IsHeld f y.sched s' (y.cur c) touches held (a.held c lt ne);
  awake = λ x t at. elim (touches x) [
    | inl e ↦ a.awake x t (sym e ∙ at)
    | inr e ↦
        let (t', old, new) = mapped_some f (task_at x y.sched) t (sym e ∙ at) in
        subst IsAwake new (awake t' (a.awake x t' old))
  ];
}

-- The task of core `c` changes: what is left holds of the other cores.
pub AreApart-release :
    (n c : ℕ) (f : Task → Task) (y : System)
    → c < n
    → ((d : ℕ) → d < n → y.cur c ≡ idle_slot d → (t : Task) → IsIdleOf d t → IsIdleOf d (f t))
    → ((t : Task) → IsHeld t → IsAwake (f t))
    → AreApart n n y
    → AreApart n c (record y { sched = change_at (y.cur c) f y.sched })
AreApart-release n c f y lt idle awake a = record {
  idles = λ d lt'.
      Holds-change_at (IsIdleOf d) (idle_slot d) (y.cur c) f y.sched (λ t e. idle d lt' (sym e) t)
        (a.idles d lt');
  apart = λ d e ld le ne nd ne'. a.apart d e ld le ne (omega (arith, ld)) (omega (arith, le));
  off_idle = λ d e ld le ne ne'. a.off_idle d e ld le ne (omega (arith, le));
  held = λ d ld ne.
      Holds-change_at_ne IsHeld (y.cur d) (y.cur c) f y.sched
        (a.apart d c ld lt ne (omega (arith, ld)) (omega (arith, lt)))
        (a.held d ld (omega (arith, ld)));
  awake = λ x t at. elim (ℕ_discrete x (y.cur c)) [
    | no m ↦ a.awake x t (sym (task_at-change_at_ne (y.cur c) x f y.sched m) ∙ at)
    | yes m ↦
        let (t', old, new) = mapped_some f (task_at (y.cur c) y.sched) t (
          sym (task_at-change_at (y.cur c) f y.sched)
          ∙ (ap (λ (k : ℕ). task_at k (change_at (y.cur c) f y.sched)) (sym m) ∙ at)) in
        let (t0, there, h) = a.held c lt (omega (arith, lt)) in
        let found : some t0 ≡ some t' = sym there ∙ old in
        let same : t0 ≡ t' = cc found in subst IsAwake new (awake t' (subst IsHeld same h))
  ];
}

pub AreApart-but : (n c : ℕ) (y : System) → AreApart n n y → AreApart n c y
AreApart-but n c y a = record {
  idles = a.idles;
  apart = λ d e ld le ne nd ne'. a.apart d e ld le ne (omega (arith, ld)) (omega (arith, le));
  off_idle = λ d e ld le ne ne'. a.off_idle d e ld le ne (omega (arith, le));
  held = λ d ld ne. a.held d ld (omega (arith, ld));
  awake = a.awake;
}

-- What core `c` may switch to: its idle task, or one in the queue that may run on it.
abbrev pub IsEligible : (c next : ℕ) → Scheduler → Type 0
IsEligible c next s = (next ≡ idle_slot c) ⊎ Holds (λ t. may_run c t ≡ true) next s

pub may_run-ready : (c : ℕ) (t : Task) → may_run c t ≡ true → is_ready t.state ≡ true
unfolding may_run
may_run-ready c t m = ground (arith, m)

bound_elsewhere : (c d : ℕ) (t : Task) → t.cpu_affinity ≡ some d → c ≢ d → may_run c t ≡ false
unfolding may_run
bound_elsewhere c d t aff ne = let off : (d == c) ≡ false = ground (arith, ne) in rw (aff, off) refl

module _ (n c next : ℕ) (y : System) (lt : c < n) (a : AreApart n c y) where
  eligible_off :
      IsEligible c next y.sched → (d : ℕ) → d < n → d ≢ c → (next ≢ y.cur d) × (next ≢ idle_slot d)
  eligible_off (inl e) d ld ne = (
    λ m. a.off_idle c d lt ld (λ k. ne (sym k)) ne (sym m ∙ e),
    λ m. idle_slot_apart d c ne (sym m ∙ e),
  )
  eligible_off (inr (t, at, runs)) d ld ne = (
    λ m.
        let (t', at', h) = a.held d ld ne in
        let found : some t ≡ some t' = sym at ∙ (ap (λ (k : ℕ). task_at k y.sched) m ∙ at') in
        let same : t ≡ t' = cc found in
        cc (may_run-ready c t runs, h.0, ap (λ (u : Task). is_ready u.state) same),
    λ m.
        let (t', at', h) = a.idles d ld in
        let found : some t ≡ some t' = sym at ∙ (ap (λ (k : ℕ). task_at k y.sched) m ∙ at') in
        let same : t ≡ t' = cc found in
        cc (
          runs,
          bound_elsewhere c d t (ap (λ (u : Task). u.cpu_affinity) same ∙ h.0) (λ k. ne (sym k)),
        ),
  )

  eligible_asleep : IsEligible c next y.sched → Holds (λ t. t.sleep_deadline ≡ 0) next y.sched
  eligible_asleep (inl e) =
      let (t, at, h) = a.idles c lt in (t, ap (λ (k : ℕ). task_at k y.sched) e ∙ at, h.1)
  eligible_asleep (inr (t, at, runs)) = (t, at, a.awake next t at (may_run-ready c t runs))

  cur_after : (d : ℕ) → d ≢ c → set_current c next y.cur d ≡ y.cur d
  cur_after d ne = let off : (d == c) ≡ false = ground (arith, ne) in rw off refl

  cur_own : set_current c next y.cur c ≡ next
  cur_own = let on : (c == c) ≡ true = ground arith in rw on refl

  -- The switch restores the invariant.
  pub AreApart-take :
      IsEligible c next y.sched
      → AreApart n n (record {
        sched = change_at next (in_state TaskState.running) y.sched;
        cur = set_current c next y.cur;
      })
  unfolding is_ready
  AreApart-take ok = record {
    idles = λ d ld.
        Holds-change_at (IsIdleOf d) (idle_slot d) next (in_state TaskState.running) y.sched
          (λ t e h. h) (a.idles d ld);
    apart = λ d e ld le ne nd ne'. elim (ℕ_discrete d c) [
      | yes m ↦
          let other : e ≢ c = λ k. ne (m ∙ sym k) in
          λ k.
            (eligible_off ok e le other).0
              (sym cur_own ∙ (ap (set_current c next y.cur) (sym m) ∙ (k ∙ cur_after e other)))
      | no m ↦ elim (ℕ_discrete e c) [
        | yes m' ↦ λ k.
            (eligible_off ok d ld m).0
              (sym cur_own ∙ (ap (set_current c next y.cur) (sym m') ∙ (sym k ∙ cur_after d m)))
        | no m' ↦ λ k. a.apart d e ld le ne m m' (sym (cur_after d m) ∙ (k ∙ cur_after e m'))
      ]
    ];
    off_idle = λ d e ld le ne ne'. elim (ℕ_discrete e c) [
      | yes m ↦
          let other : d ≢ c = λ k. ne (k ∙ sym m) in
          λ k.
            (eligible_off ok d ld other).1
              (sym cur_own ∙ (ap (set_current c next y.cur) (sym m) ∙ k))
      | no m ↦ λ k. a.off_idle d e ld le ne m (sym (cur_after e m) ∙ k)
    ];
    held = λ d ld nd. elim (ℕ_discrete d c) [
      | yes m ↦
          let here : set_current c next y.cur d ≡ next =
            ap (set_current c next y.cur) m ∙ cur_own in
          let (t, at, asleep) = eligible_asleep ok in
          (
            in_state TaskState.running t,
            ap (λ (k : ℕ). task_at k (change_at next (in_state TaskState.running) y.sched)) here
                ∙ (task_at-change_at next (in_state TaskState.running) y.sched
                    ∙ ap (Option.map (in_state TaskState.running)) at),
            (refl, asleep),
          )
      | no m ↦
          let there = cur_after d m in
          let off : set_current c next y.cur d ≢ next =
            λ k. (eligible_off ok d ld m).0 (sym k ∙ there) in
          Holds-change_at_ne IsHeld (set_current c next y.cur d) next (in_state TaskState.running)
            y.sched off (subst (λ (k : ℕ). Holds IsHeld k y.sched) (sym there) (a.held d ld m))
    ];
    awake =
        all-change_at IsAwake next (in_state TaskState.running) y.sched (λ t h. λ r. cc r) a.awake;
  }
