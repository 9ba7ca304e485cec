-- ===== src/Mem/Frame/Contiguous.antt =====
-- `alloc_contiguous` of kernel/src/mem/frame.rs finds the run of free frames that ends first.
use tanix.Mem.{page_size}
use tanix.Mem.Frame.{
  FrameAllocator, add_usize, is_free, use_range, contiguous_from, alloc_contiguous,
}
use tanix.Mem.Frame.Invariant.{IsValid}
use tanix.Mem.Frame.Range.{Taken, use_range-Taken, free_frames-use_range}
use tanix.Prelude.{
  ℕ, zero, suc, ◌+◌, ◌-◌, ◌*◌, ◌<◌, ◌≤◌, ◌≡◌, ◌≢◌, refl, ap, ◌⊎◌, inl, inr, true, false, arith,
  ◌==◌, if◌then◌else◌, Option, some, none, Bool-cases, ==_iff,
}
use native.Mathlib.Decide.{dec_lt, ℕ_discrete}

-- `n` frames from `first` on are free.
abbrev pub FreeRun : FrameAllocator → ℕ → ℕ → Type 0
FreeRun fa n first = (i : ℕ) → first ≤ i → i < first + n → is_free fa i ≡ true

-- No run of `n` free frames ends at or before `stop`.
abbrev pub NoRun : FrameAllocator → ℕ → ℕ → Type 0
NoRun fa n stop = (first : ℕ) → first + n ≤ stop → ¬ (FreeRun fa n first)

-- The loop's state before index `i`: `run_len` frames before `i` are free, preceded by one that is
-- not (or by nothing), and no run of `n` has ended yet.
record Scanned (fa : FrameAllocator) (n i run_start run_len : ℕ) : Type 0 where
  short : run_len < n
  le : run_len ≤ i
  ends : run_len ≢ 0 → run_start + run_len ≡ i
  free_run : FreeRun fa run_len (i - run_len)
  stopped : run_len ≢ i → is_free fa (i - run_len - 1) ≡ false
  no_run : NoRun fa n i

-- What the loop comes to.
pub Outcome : FrameAllocator → ℕ → Option ℕ × FrameAllocator → Type 0
Outcome fa n out =
    (out ≡ (none, fa)) × NoRun fa n fa.total_frames
    ⊎ ((first : ℕ) × (first + n ≤ fa.total_frames)
        × FreeRun fa n first
        × NoRun fa n (first + n - 1)
        × (out ≡ (some (fa.ram_start + first * page_size), use_range n first fa)))

module _ (fa : FrameAllocator) (n : ℕ) where
  Scanned-used :
      (i run_start run_len : ℕ)
      → Scanned fa n i run_start run_len
      → is_free fa i ≡ false
      → Scanned fa n (i + 1) run_start 0
  Scanned-used i run_start run_len s u = record {
    short = omega (arith, s.short);
    le = omega arith;
    ends = λ h. absurd (h refl);
    free_run = λ k p q. absurd (omega arith);
    stopped = λ h. (let e : i + 1 - 0 - 1 ≡ i = omega arith in rw e u);
    no_run = λ first le run. elim (dec_lt (first + n) (i + 1)) [
      | yes q ↦ s.no_run first (omega arith) run
      | no q ↦ cc (run i (omega (arith, s.short)) (omega arith))
    ];
  }

  Scanned-free :
      (i run_start run_len : ℕ)
      → Scanned fa n i run_start run_len
      → is_free fa i ≡ true
      → run_len + 1 ≢ n
      → Scanned fa n (i + 1) (if run_len == 0 then i else run_start) (run_len + 1)
  Scanned-free i run_start run_len s f ne = record {
    short = omega (arith, s.short);
    le = omega (arith, s.le);
    ends = λ h. ground (arith, s.ends, s.le);
    free_run = λ k p q. elim (ℕ_discrete k i) [
      | yes e ↦ rw e f
      | no other ↦ s.free_run k (omega arith) (omega (arith, s.le))
    ];
    stopped = λ h.
        let e : i + 1 - (run_len + 1) - 1 ≡ i - run_len - 1 = omega arith in
        rw e (s.stopped (omega arith));
    no_run = λ first le run. elim (dec_lt (first + n) (i + 1)) [
      | yes q ↦ s.no_run first (omega arith) run
      | no q ↦ cc (
        s.stopped (omega (arith, s.short)),
        run (i - run_len - 1) (omega (arith, s.short)) (omega (arith, s.short)),
      )
    ];
  }

  -- The state when the run reaches `n` frames at index `i`.
  Outcome-found :
      (i run_start run_len : ℕ)
      → IsValid fa
      → i < fa.total_frames
      → Scanned fa n i run_start run_len
      → is_free fa i ≡ true
      → run_len + 1 ≡ n
      → Outcome fa n (
        some (add_usize fa.ram_start ((if run_len == 0 then i else run_start) * page_size)),
        use_range n (if run_len == 0 then i else run_start) fa,
      )
  unfolding Outcome
  Outcome-found i run_start run_len v lt s f e =
      let first : ℕ = (if run_len == 0 then i else run_start) in
      let at : first + run_len ≡ i = ground (arith, s.ends) in
      inr (
        first,
        omega arith,
        λ k p q. elim (ℕ_discrete k i) [
          | yes eq ↦ rw eq f
          | no other ↦ s.free_run k (omega arith) (omega arith)
        ],
        (let back : first + n - 1 ≡ i = omega arith in rw back s.no_run),
        ap (λ (a : ℕ). (some a, use_range n first fa)) (omega (arith, v.whole, v.in_space)),
      )

  contiguous_from-Outcome :
      (rounds i run_start run_len : ℕ)
      → IsValid fa
      → i + rounds ≡ fa.total_frames
      → Scanned fa n i run_start run_len
      → Outcome fa n (contiguous_from rounds i run_start run_len n fa)
  unfolding contiguous_from Outcome
  contiguous_from-Outcome zero i run_start run_len v e s =
      let all : fa.total_frames ≡ i = omega arith in inl (refl, rw all s.no_run)
  contiguous_from-Outcome (suc rounds) i run_start run_len v e s =
      elim (Bool-cases (is_free fa i)) [
        | inr u ↦ rw u (
            contiguous_from-Outcome rounds (i + 1) run_start 0 v (omega arith)
              (Scanned-used i run_start run_len s u))
        | inl f ↦ rw f (elim (Bool-cases (run_len + 1 == n)) [
          | inl done ↦ rw done (
              Outcome-found i run_start run_len v (omega arith) s f
                ((==_iff (run_len + 1) n).0 done))
          | inr more ↦ rw more (
              contiguous_from-Outcome rounds (i + 1) (if run_len == 0 then i else run_start)
                (run_len + 1) v (omega arith)
                (Scanned-free i run_start run_len s f (λ h. cc ((==_iff (run_len + 1) n).1 h))))
        ])
      ]

Scanned-start : (fa : FrameAllocator) (n : ℕ) → 0 < n → Scanned fa n 0 0 0
Scanned-start fa n h = record {
  short = h;
  le = omega arith;
  ends = λ p. absurd (p refl);
  free_run = λ k p q. absurd (omega arith);
  stopped = λ p. absurd (p refl);
  no_run = λ first le run. absurd (omega arith);
}

-- For `n` of at least 1, `alloc_contiguous` finds the run of `n` free frames of the window that ends
-- first, takes it and returns its address, or there is no such run and nothing changes.
pub alloc_contiguous-cases :
    (fa : FrameAllocator) (n : ℕ)
    → IsValid fa
    → 0 < n
    → (alloc_contiguous n fa ≡ (none, fa)) × NoRun fa n fa.total_frames
      ⊎ ((first : ℕ) × (first + n ≤ fa.total_frames)
          × FreeRun fa n first
          × NoRun fa n (first + n - 1)
          × (alloc_contiguous n fa
              ≡ (some (fa.ram_start + first * page_size), use_range n first fa)))
unfolding alloc_contiguous Outcome
alloc_contiguous-cases fa n v h =
    let e : (n == 0) ≡ false = ground arith in
    rw e (contiguous_from-Outcome fa n fa.total_frames 0 0 0 v (omega arith) (Scanned-start fa n h))

-- A successful `alloc_contiguous` keeps the invariant, takes exactly the `n` frames that it returns,
-- all of them free before, and lowers the count of free frames by `n`.
alloc_contiguous-Taken :
    (fa fa' : FrameAllocator) (n addr : ℕ)
    → IsValid fa
    → 0 < n
    → alloc_contiguous n fa ≡ (some addr, fa')
    → (first : ℕ) × (addr ≡ fa.ram_start + first * page_size)
      × FreeRun fa n first
      × Taken n first fa fa'
      × (fa'.free_frames + n ≡ fa.free_frames)
alloc_contiguous-Taken fa fa' n addr v h e = elim (alloc_contiguous-cases fa n v h) [
  | inl (e', _) ↦ cc
  | inr (first, le, run, _, e') ↦
      let st : use_range n first fa ≡ fa' = ground (arith, e, e') in
      rw (← st) (
        first,
        ground (arith, e, e'),
        run,
        use_range-Taken n first fa v le,
        free_frames-use_range n first fa v le run,
      )
]
