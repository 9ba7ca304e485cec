-- ===== src/Mem/Frame/Range.antt =====
-- `for i in a..b { self.set_used(i); }` of kernel/src/mem/frame.rs: the frames it takes.
use tanix.Mem.Frame.{FrameAllocator, is_free, set_used, use_range}
use tanix.Mem.Frame.Bits.{is_free-set_used}
use tanix.Mem.Frame.Invariant.{
  IsValid, SameWindow, set_used-IsValid, set_used-SameWindow, free_frames-set_used,
}
use tanix.Prelude.{
  ℕ, zero, suc, ◌+◌, ◌<◌, ◌≤◌, ◌≡◌, refl, ◌∙◌, true, false, arith, if◌then◌else◌, ltb, leb, ◌&&◌,
}

-- What a run of `count` frames from `first` on looks like after it was taken.
pub record Taken (count first : ℕ) (fa fa' : FrameAllocator) : Type 0 where
  pub valid : IsValid fa'
  pub window : SameWindow fa fa'
  pub bits :
      (i : ℕ)
      → is_free fa' i ≡ (if leb first i && ltb i (first + count) then false else is_free fa i)

pub use_range-Taken :
    (count first : ℕ) (fa : FrameAllocator)
    → IsValid fa
    → first + count ≤ fa.total_frames
    → Taken count first fa (use_range count first fa)
unfolding use_range
use_range-Taken zero first fa v le = record {
  valid = v;
  window = record { start = refl; size = refl; total = refl };
  bits = λ i. ground arith;
}
use_range-Taken (suc count) first fa v le =
    let v' = set_used-IsValid first fa v (omega arith) in
    let w = set_used-SameWindow first fa in
    let rest =
      use_range-Taken count (first + 1) (set_used first fa) v' (rw w.total (omega arith)) in
    record {
      valid = rest.valid;
      window = record {
        start = rest.window.start ∙ w.start;
        size = rest.window.size ∙ w.size;
        total = rest.window.total ∙ w.total;
      };
      bits = λ i.
          ground
            (arith, rest.bits i, is_free-set_used fa first i v.width (omega (arith, v.covers)));
    }

-- A run that was free takes that many frames off the count.
pub free_frames-use_range :
    (count first : ℕ) (fa : FrameAllocator)
    → IsValid fa
    → first + count ≤ fa.total_frames
    → ((i : ℕ) → first ≤ i → i < first + count → is_free fa i ≡ true)
    → (use_range count first fa).free_frames + count ≡ fa.free_frames
unfolding use_range
free_frames-use_range zero first fa v le all = omega arith
free_frames-use_range (suc count) first fa v le all =
    let v' = set_used-IsValid first fa v (omega arith) in
    let w = set_used-SameWindow first fa in
    let one = free_frames-set_used first fa v (omega arith) in
    let rest =
      free_frames-use_range count (first + 1) (set_used first fa) v' (rw w.total (omega arith))
        (λ i p q.
          is_free-set_used fa first i v.width (omega (arith, v.covers))
          ∙ ground (arith, all i (omega arith) (omega arith))) in
    ground (arith, all first (omega arith) (omega arith), one, rest)
