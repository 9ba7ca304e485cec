-- ===== src/Mem/Frame/Alloc.antt =====
-- `alloc` of kernel/src/mem/frame.rs hands out the lowest free frame, and fails only when no
-- frame of the window is free.
use tanix.Mem.{page_size}
use tanix.Mem.Frame.{FrameAllocator, is_free, set_used, take_frame, alloc_from, alloc}
use tanix.Mem.Frame.Bits.{HasWidth, is_free-set_used}
use tanix.Mem.Frame.Invariant.{
  IsValid, SameWindow, set_used-IsValid, set_used-SameWindow, free_frames-set_used,
}
use tanix.Mem.Frame.Words.{
  Word, test, is_zero, trailing_zeros, test_of_is_zero, trailing_zeros_lem,
  test_below_trailing_zeros,
}
use tanix.Prelude.{
  ℕ, suc, ◌+◌, ◌-◌, ◌*◌, ◌/◌, ◌%◌, ◌<◌, ◌≤◌, ◌≡◌, refl, sym, ap, ◌∙◌, ◌⊎◌, inl, inr, true, false,
  arith, ◌==◌, if◌then◌else◌, List, [], ◌∷◌, get_or, Option, some, none, Bool-cases,
}
use tanix.Prelude.Count.{count_below-eq-zero}
use native.Mathlib.Decide.{dec_lt}

-- No frame from `from` up to `to` is free.
abbrev pub NoneFree : FrameAllocator → ℕ → ℕ → Type 0
NoneFree fa from to = (i : ℕ) → from ≤ i → i < to → is_free fa i ≡ false

-- What the scan of the words from index `k` on comes to.
Scans : FrameAllocator → ℕ → Option ℕ × FrameAllocator → Type 0
Scans fa k out =
    (out ≡ (none, fa)) × ((i : ℕ) → k * 64 ≤ i → is_free fa i ≡ false)
    ⊎ ((idx : ℕ) × (out ≡ take_frame idx fa) × (is_free fa idx ≡ true) × NoneFree fa (k * 64) idx)

module _ (fa : FrameAllocator) where
  -- The words that are left, `words`, are those of the bitmap from `k` on.
  abbrev IsRest : List Word → ℕ → Type 0
  IsRest words k = (j : ℕ) → get_or words j [] ≡ get_or fa.bitmap (k + j) []

  is_free_in_rest :
      (words : List Word) (k j i : ℕ)
      → IsRest words k
      → k + j ≡ i / 64
      → is_free fa i ≡ test (get_or words j []) (i % 64)
  is_free_in_rest words k j i same e =
      ap (λ (w : Word). test w (i % 64))
        (ap (λ (n : ℕ). get_or fa.bitmap n []) (sym e) ∙ sym (same j))

  IsRest-tail :
      (word : Word) (words : List Word) (k : ℕ) → IsRest (word ∷ words) k → IsRest words (k + 1)
  IsRest-tail word words k same j =
      let e : k + suc j ≡ k + 1 + j = omega arith in
      same (suc j) ∙ ap (λ (n : ℕ). get_or fa.bitmap n []) e

  Scans-skip :
      (word : Word) (words : List Word) (k : ℕ) (out : Option ℕ × FrameAllocator)
      → IsRest (word ∷ words) k
      → is_zero word ≡ true
      → Scans fa (k + 1) out
      → Scans fa k out
  unfolding Scans
  Scans-skip word words k out same z s = elim s [
    | inl (e, above) ↦ inl (
      e,
      λ i p. elim (dec_lt i ((k + 1) * 64)) [
        | yes q ↦ skipped i p q
        | no q ↦ above i (omega arith)
      ],
    )
    | inr (idx, e, f, above) ↦ inr (
      idx,
      e,
      f,
      λ i p lt. elim (dec_lt i ((k + 1) * 64)) [
        | yes q ↦ skipped i p q
        | no q ↦ above i (omega arith) lt
      ],
    )
  ]
    where
      skipped : (i : ℕ) → k * 64 ≤ i → i < (k + 1) * 64 → is_free fa i ≡ false
      skipped i p q =
          is_free_in_rest (word ∷ words) k 0 i same (omega arith) ∙ test_of_is_zero word (i % 64) z

  alloc_from-Scans :
      (words : List Word) (k : ℕ)
      → HasWidth words
      → IsRest words k
      → Scans fa k (alloc_from words k fa)
  unfolding alloc_from Scans
  alloc_from-Scans [] k w same =
      inl (refl, λ i p. is_free_in_rest [] k (i / 64 - k) i same (omega arith))
  alloc_from-Scans (word ∷ words) k w same = elim (Bool-cases (is_zero word)) [
    | inl z ↦ rw z (
        Scans-skip word words k (alloc_from words (k + 1) fa) same z
          (alloc_from-Scans words (k + 1) w.1 (IsRest-tail word words k same)))
    | inr nz ↦ rw nz (
        inr (
          k * 64 + trailing_zeros word,
          refl,
          is_free_in_rest (word ∷ words) k 0 (k * 64 + trailing_zeros word) same (in_word nz)
              ∙ (ap (λ (n : ℕ). test word n) (at_bit nz) ∙ (trailing_zeros_lem word nz).1),
          λ i p q.
              is_free_in_rest (word ∷ words) k 0 i same
                (omega (arith, trailing_zeros_lem word nz, w.0))
              ∙ test_below_trailing_zeros word (i % 64)
                  (omega (arith, trailing_zeros_lem word nz, w.0)),
        ))
  ]
    where
      in_word : is_zero word ≡ false → k + 0 ≡ (k * 64 + trailing_zeros word) / 64
      in_word nz = omega (arith, trailing_zeros_lem word nz, w.0)

      at_bit : is_zero word ≡ false → (k * 64 + trailing_zeros word) % 64 ≡ trailing_zeros word
      at_bit nz = omega (arith, trailing_zeros_lem word nz, w.0)

-- What a successful `alloc` did: it took the lowest free frame `idx`, and nothing else.
pub record Allocated (fa : FrameAllocator) (idx : ℕ) (fa' : FrameAllocator) : Type 0 where
  pub in_window : idx < fa.total_frames
  pub was_free : is_free fa idx ≡ true
  pub lowest : (i : ℕ) → i < idx → is_free fa i ≡ false
  pub valid : IsValid fa'
  pub window : SameWindow fa fa'
  pub bits : (i : ℕ) → is_free fa' i ≡ (if i == idx then false else is_free fa i)
  pub one_less : fa'.free_frames + 1 ≡ fa.free_frames

set_used-Allocated :
    (fa : FrameAllocator) (idx : ℕ)
    → IsValid fa
    → idx < fa.total_frames
    → is_free fa idx ≡ true
    → NoneFree fa 0 idx
    → Allocated fa idx (set_used idx fa)
set_used-Allocated fa idx v lt f low = record {
  in_window = lt;
  was_free = f;
  lowest = λ i p. low i (omega arith) p;
  valid = set_used-IsValid idx fa v lt;
  window = set_used-SameWindow idx fa;
  bits = λ i. is_free-set_used fa idx i v.width (omega (arith, v.covers));
  one_less = ground (arith, free_frames-set_used idx fa v lt);
}

take_frame_past :
    (fa : FrameAllocator) (idx : ℕ) → fa.total_frames ≤ idx → take_frame idx fa ≡ (none, fa)
unfolding take_frame
take_frame_past fa idx h = ground arith

-- The address does not wrap.
take_frame_in :
    (fa : FrameAllocator) (idx : ℕ)
    → IsValid fa
    → idx < fa.total_frames
    → take_frame idx fa ≡ (some (fa.ram_start + idx * page_size), set_used idx fa)
unfolding take_frame
take_frame_in fa idx v h = ground (arith, v.whole, v.in_space)

no_free_frames :
    (fa : FrameAllocator) → IsValid fa → NoneFree fa 0 fa.total_frames → fa.free_frames ≡ 0
no_free_frames fa v none_free =
    v.counted
    ∙ count_below-eq-zero (is_free fa) fa.total_frames (λ i p. none_free i (omega arith) p)

-- `alloc` on a valid allocator either finds that no frame of the window is free, returns `none` and
-- changes nothing, or it returns the address of the lowest free frame and takes that frame alone.
pub alloc-cases :
    (fa : FrameAllocator)
    → IsValid fa
    → (alloc fa ≡ (none, fa)) × (fa.free_frames ≡ 0)
      ⊎ ((idx : ℕ) × (alloc fa ≡ (some (fa.ram_start + idx * page_size), set_used idx fa))
          × Allocated fa idx (set_used idx fa))
unfolding alloc Scans
alloc-cases fa v = elim (alloc_from-Scans fa fa.bitmap 0 v.width whole_bitmap) [
  | inl (e, none_free) ↦ inl (e, no_free_frames fa v (λ i p q. none_free i (omega arith)))
  | inr (idx, e, f, low) ↦ elim (dec_lt idx fa.total_frames) [
    | yes lt ↦ inr (
      idx,
      e ∙ take_frame_in fa idx v lt,
      set_used-Allocated fa idx v lt f (λ i p q. low i (omega arith) q),
    )
    | no past ↦ inl (
      e ∙ take_frame_past fa idx (omega arith),
      no_free_frames fa v (λ i p q. low i (omega arith) (omega arith)),
    )
  ]
]
  where
    whole_bitmap : (j : ℕ) → get_or fa.bitmap j [] ≡ get_or fa.bitmap (0 + j) []
    whole_bitmap j = let e : j ≡ 0 + j = omega arith in ap (λ (n : ℕ). get_or fa.bitmap n []) e
