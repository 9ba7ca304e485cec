-- ===== src/Mem/Frame/Invariant.antt =====
-- The invariant of the frame allocator of kernel/src/mem/frame.rs, and what keeps it.
use tanix.Mem.{page_size}
use tanix.Mem.Frame.{FrameAllocator, is_free, set_used, set_free}
use tanix.Mem.Frame.Bits.{HasWidth, bit_in_word, is_free-set_used, is_free-set_free}
use tanix.Mem.Frame.Words.{Word}
use tanix.Prelude.{
  ℕ, ◌+◌, ◌-◌, ◌/◌, ◌%◌, ◌*◌, ◌^◌, ◌<◌, ◌≤◌, ◌≡◌, refl, ◌∙◌, Bool, true, false, List, [], arith,
  length, get_or, set, if◌then◌else◌, All-get_or, All-set, length-set, Bool-cases, inl, inr,
}
use tanix.Prelude.Count.{count_below, count_below_ext, count_below_raise}
use native.Mathlib.Decide.{ℕ_discrete}

pub record IsValid (fa : FrameAllocator) : Type 0 where
  pub width : HasWidth fa.bitmap
  pub covers : fa.total_frames ≤ length fa.bitmap * 64
  pub aligned : fa.ram_start % page_size ≡ 0
  pub whole : fa.ram_size ≡ fa.total_frames * page_size
  pub in_space : fa.ram_start + fa.ram_size < 2 ^ 64
  pub counted : fa.free_frames ≡ count_below (is_free fa) fa.total_frames

-- What `set_used`, `set_free` and all that only calls them leave alone.
pub record SameWindow (fa fa' : FrameAllocator) : Type 0 where
  pub start : fa'.ram_start ≡ fa.ram_start
  pub size : fa'.ram_size ≡ fa.ram_size
  pub total : fa'.total_frames ≡ fa.total_frames

-- No index of a frame in the window reads or writes past the bitmap.
pub in_bitmap :
    (fa : FrameAllocator) (i : ℕ)
    → IsValid fa
    → i < fa.total_frames
    → (i / 64 < length fa.bitmap) × (i % 64 < length (get_or fa.bitmap (i / 64) []))
in_bitmap fa i v h = (
  let c = v.covers in omega arith,
  bit_in_word fa.bitmap v.width i (let c = v.covers in omega arith),
)

set-HasWidth :
    (ws : List Word) (k b : ℕ) (v : Bool)
    → HasWidth ws
    → k < length ws
    → HasWidth (set ws k (set (get_or ws k []) b v))
set-HasWidth ws k b v w h =
    All-set (λ (w : Word). length w ≡ 64) ws k (set (get_or ws k []) b v) w
      (length-set (get_or ws k []) b v ∙ All-get_or (λ (w : Word). length w ≡ 64) ws k [] h w)

pub set_used-SameWindow : (j : ℕ) (fa : FrameAllocator) → SameWindow fa (set_used j fa)
unfolding set_used
set_used-SameWindow j fa = ground arith

pub set_free-SameWindow : (j : ℕ) (fa : FrameAllocator) → SameWindow fa (set_free j fa)
unfolding set_free
set_free-SameWindow j fa = ground arith

module _ (j : ℕ) (fa : FrameAllocator) (v : IsValid fa) (lt : j < fa.total_frames) where
  fits : j < length fa.bitmap * 64
  fits = let c = v.covers in omega arith

  -- How many frames of the window an update makes free, or takes.
  count-set_used :
      count_below (is_free fa) fa.total_frames
      ≡ (if is_free fa j then 1 else 0) + count_below (is_free (set_used j fa)) fa.total_frames
  count-set_used = elim (Bool-cases (is_free fa j)) [
    | inl f ↦ rw f (
        count_below_raise (is_free (set_used j fa)) (is_free fa) fa.total_frames j lt
          (ground (arith, is_free-set_used fa j j v.width fits)) f
          (λ i p ne. ground (arith, is_free-set_used fa j i v.width fits))
        ∙ omega arith)
    | inr u ↦ rw u (
        count_below_ext (is_free fa) (is_free (set_used j fa)) fa.total_frames (λ i p.
          elim (ℕ_discrete i j) [
            | yes e ↦ rw e (ground (arith, is_free-set_used fa j j v.width fits))
            | no ne ↦ ground (arith, is_free-set_used fa j i v.width fits)
          ])
        ∙ omega arith)
  ]

  count-set_free :
      count_below (is_free (set_free j fa)) fa.total_frames
      ≡ (if is_free fa j then 0 else 1) + count_below (is_free fa) fa.total_frames
  count-set_free = elim (Bool-cases (is_free fa j)) [
    | inr u ↦ rw u (
        count_below_raise (is_free fa) (is_free (set_free j fa)) fa.total_frames j lt u
          (ground (arith, is_free-set_free fa j j v.width fits))
          (λ i p ne. ground (arith, is_free-set_free fa j i v.width fits))
        ∙ omega arith)
    | inl f ↦ rw f (
        count_below_ext (is_free (set_free j fa)) (is_free fa) fa.total_frames (λ i p.
          elim (ℕ_discrete i j) [
            | yes e ↦ rw e (ground (arith, is_free-set_free fa j j v.width fits))
            | no ne ↦ ground (arith, is_free-set_free fa j i v.width fits)
          ])
        ∙ omega arith)
  ]

  set_used_shape :
      HasWidth (set_used j fa).bitmap
      × (length (set_used j fa).bitmap ≡ length fa.bitmap)
      × ((set_used j fa).free_frames ≡ fa.free_frames - (if is_free fa j then 1 else 0))
  unfolding set_used
  set_used_shape = elim (Bool-cases (is_free fa j)) [
    | inl f ↦ rw f (
      set-HasWidth fa.bitmap (j / 64) (j % 64) false v.width (omega (arith, fits)),
      length-set fa.bitmap (j / 64) (set (get_or fa.bitmap (j / 64) []) (j % 64) false),
      refl,
    )
    | inr u ↦ rw u (v.width, refl, omega arith)
  ]

  set_free_shape :
      HasWidth (set_free j fa).bitmap
      × (length (set_free j fa).bitmap ≡ length fa.bitmap)
      × ((set_free j fa).free_frames ≡ fa.free_frames + (if is_free fa j then 0 else 1))
  unfolding set_free
  set_free_shape = elim (Bool-cases (is_free fa j)) [
    | inr f ↦ rw f (
      set-HasWidth fa.bitmap (j / 64) (j % 64) true v.width (omega (arith, fits)),
      length-set fa.bitmap (j / 64) (set (get_or fa.bitmap (j / 64) []) (j % 64) true),
      refl,
    )
    | inl u ↦ rw u (v.width, refl, omega arith)
  ]

  -- Taking a frame of the window keeps the invariant, the count of free frames included.
  pub set_used-IsValid : IsValid (set_used j fa)
  set_used-IsValid =
      let s = set_used_shape in
      let w = set_used-SameWindow j fa in
      record {
        width = s.0;
        covers = rw (w.total, s.1) v.covers;
        aligned = rw w.start v.aligned;
        whole = rw (w.size, w.total) v.whole;
        in_space = rw (w.start, w.size) v.in_space;
        counted = rw (s.2, w.total) (omega (arith, v.counted, count-set_used));
      }

  -- So does giving one back.
  pub set_free-IsValid : IsValid (set_free j fa)
  set_free-IsValid =
      let s = set_free_shape in
      let w = set_free-SameWindow j fa in
      record {
        width = s.0;
        covers = rw (w.total, s.1) v.covers;
        aligned = rw w.start v.aligned;
        whole = rw (w.size, w.total) v.whole;
        in_space = rw (w.start, w.size) v.in_space;
        counted = rw (s.2, w.total) (omega (arith, v.counted, count-set_free));
      }

  -- The count that goes with the answer for `j`.
  pub free_frames-set_used :
      (set_used j fa).free_frames + (if is_free fa j then 1 else 0) ≡ fa.free_frames
  free_frames-set_used = omega (arith, v.counted, count-set_used, set_used_shape.2)

  pub free_frames-set_free :
      (set_free j fa).free_frames ≡ fa.free_frames + (if is_free fa j then 0 else 1)
  free_frames-set_free = set_free_shape.2
