-- ===== src/Mem/Frame/Init.antt =====
-- `init` and `reserve_region` of kernel/src/mem/frame.rs: which frames they withhold.
use tanix.Mem.{PhysAddr, page_size}
use tanix.Mem.Frame.{
  FrameAllocator, max_ram_size, bitmap_words, page_floor, page_ceil, reserved_frames, is_free,
  use_range, init, phys_to_idx, unwrap_or, reserve_region, add_usize,
}
use tanix.Mem.Frame.Bits.{HasWidth, bit_at}
use tanix.Mem.Frame.Invariant.{IsValid}
use tanix.Mem.Frame.Range.{Taken, use_range-Taken}
use tanix.Mem.Frame.Words.{Word, ones}
use tanix.Prelude.{
  ℕ, zero, suc, ◌+◌, ◌-◌, ◌*◌, ◌/◌, ◌%◌, ◌^◌, ◌<◌, ◌≤◌, ◌≡◌, min, refl, sym, ap, ◌∙◌, ◌⊎◌, true,
  false, arith, if◌then◌else◌, ltb, leb, ◌&&◌, List, [], ◌∷◌, map, some, length, get_or,
  get_or-replicate, length-replicate,
}
use tanix.Prelude.Count.{count_below-eq-zero, count_below-all}
use native.Mathlib.Decide.{dec_lt}

abbrev all_ones : List Word → List Word
all_ones = map (λ _. ones)

all_ones-HasWidth : (ws : List Word) → HasWidth (all_ones ws)
all_ones-HasWidth [] = tt
all_ones-HasWidth (w ∷ ws) = (length-replicate 64 true, all_ones-HasWidth ws)

length-all_ones : (ws : List Word) → length (all_ones ws) ≡ length ws
length-all_ones [] = refl
length-all_ones (w ∷ ws) = ap suc (length-all_ones ws)

get_or-all_ones : (ws : List Word) (k : ℕ) → k < length ws → get_or (all_ones ws) k [] ≡ ones
get_or-all_ones [] k h = absurd (omega arith)
get_or-all_ones (w ∷ ws) zero h = refl
get_or-all_ones (w ∷ ws) (suc k) h = get_or-all_ones ws k (omega arith)

bit_at-all_ones : (ws : List Word) (i : ℕ) → i < length ws * 64 → bit_at (all_ones ws) i ≡ true
bit_at-all_ones ws i h =
    ap (λ (w : Word). get_or w (i % 64) false) (get_or-all_ones ws (i / 64) (omega arith))
    ∙ get_or-replicate 64 (i % 64) true false (omega arith)

-- The state in `init` once every frame is marked free.
abbrev opened : PhysAddr → ℕ → FrameAllocator → FrameAllocator
opened ram_start ram_size fa = record fa {
  ram_start = ram_start;
  ram_size = ram_size;
  total_frames = ram_size / page_size;
  bitmap = all_ones fa.bitmap;
  free_frames = ram_size / page_size;
}

module _ (ram_start ram_size : ℕ) (fa : FrameAllocator) (words : length fa.bitmap ≡ bitmap_words)
    (fits : ram_size ≤ max_ram_size) (aligned : ram_start % page_size ≡ 0)
    (whole : ram_size % page_size ≡ 0) (in_space : ram_start + ram_size < 2 ^ 64) where
  opened-is_free :
      (i : ℕ) → i < ram_size / page_size → is_free (opened ram_start ram_size fa) i ≡ true
  opened-is_free i h = bit_at-all_ones fa.bitmap i (omega arith)

  opened-IsValid : IsValid (opened ram_start ram_size fa)
  opened-IsValid = record {
    width = all_ones-HasWidth fa.bitmap;
    covers = omega (arith, length-all_ones fa.bitmap);
    aligned = aligned;
    whole = omega arith;
    in_space = in_space;
    counted = sym (
        count_below-all (is_free (opened ram_start ram_size fa)) (ram_size / page_size)
          opened-is_free);
  }

  -- On a bitmap of the full size, `init` accepts a window that starts on a page, is a whole number of
  -- pages and fits the bitmap. The result is valid, and of its frames exactly those that start at or
  -- past the end of the kernel image are free.
  pub init-IsValid :
      (kernel_end : PhysAddr)
      → kernel_end + page_size ≤ 2 ^ 64
      → (fa' : FrameAllocator) × (init kernel_end ram_start ram_size fa ≡ some fa')
        × IsValid fa'
        × (fa'.ram_start ≡ ram_start)
        × (fa'.ram_size ≡ ram_size)
        × ((i : ℕ)
            → i < fa'.total_frames
            → is_free fa' i ≡ leb kernel_end (ram_start + i * page_size))
  unfolding init
  init-IsValid kernel_end small =
      let n = reserved_frames kernel_end ram_start (ram_size / page_size) in
      let t = use_range-Taken n 0 (opened ram_start ram_size fa) opened-IsValid (omega arith) in
      (
        use_range n 0 (opened ram_start ram_size fa),
        ground arith,
        t.valid,
        t.window.start,
        t.window.size,
        λ i lt.
            let below : i < ram_size / page_size = (rw t.window.total at lt) in
            t.bits i ∙ ground (arith, opened-is_free i below),
      )

-- The first index and the number of the frames that `reserve_region` takes.
abbrev first_index : FrameAllocator → PhysAddr → ℕ
first_index fa start = unwrap_or (phys_to_idx (page_ceil start) fa.ram_start fa.ram_size) 0

abbrev end_index : FrameAllocator → PhysAddr → ℕ
end_index fa stop =
    min (unwrap_or (phys_to_idx (page_floor stop) fa.ram_start fa.ram_size) fa.total_frames)
      fa.total_frames

module _ (fa : FrameAllocator) (v : IsValid fa) (start size : ℕ)
    (small : start + size + page_size ≤ 2 ^ 64) where
  first_index-le : first_index fa start ≤ fa.total_frames
  unfolding phys_to_idx
  first_index-le = ground (arith, v.whole, v.in_space)

  no_wrap : add_usize start size ≡ start + size
  no_wrap = omega arith

  reserved : FrameAllocator
  reserved =
      use_range (end_index fa (start + size) - first_index fa start) (first_index fa start) fa

  reserved-Taken :
      Taken (end_index fa (start + size) - first_index fa start) (first_index fa start) fa reserved
  unfolding reserved
  reserved-Taken =
      use_range-Taken (end_index fa (start + size) - first_index fa start) (first_index fa start) fa
        v (omega (arith, first_index-le))

  reserve_region-eq :
      reserve_region start size fa
      ≡ (if leb (page_floor (start + size)) (page_ceil start) then fa else reserved)
  unfolding reserve_region reserved
  reserve_region-eq = rw no_wrap refl

  -- The two ends of the region, rounded inwards and clamped to the window, are the frames within it.
  inside_bits :
      start + page_size ≤ fa.ram_start + fa.ram_size
      → fa.ram_start ≤ start + size
      → page_ceil start < page_floor (start + size)
      → (i : ℕ) → i < fa.total_frames
      → (leb (first_index fa start) i
          && ltb i (first_index fa start + (end_index fa (start + size) - first_index fa start)))
        ≡ (leb start (fa.ram_start + i * page_size)
            && leb (fa.ram_start + i * page_size + page_size) (start + size))
  unfolding phys_to_idx
  inside_bits below above h i lt = ground (arith, v.whole, v.in_space, v.aligned)

  outside_bits :
      page_ceil start < page_floor (start + size)
      → (start + size < fa.ram_start) ⊎ (fa.ram_start + fa.ram_size ≤ page_ceil start)
      → (i : ℕ) → i < fa.total_frames
      → (leb (first_index fa start) i
          && ltb i (first_index fa start + (end_index fa (start + size) - first_index fa start)))
        ≡ true
  unfolding phys_to_idx
  outside_bits h out i lt = ground (arith, v.whole, v.in_space, v.aligned)

  -- A region that meets the window takes exactly the frames of the window that lie within it.
  reserve_region-inside :
      start + page_size ≤ fa.ram_start + fa.ram_size
      → fa.ram_start ≤ start + size
      → let fa' = reserve_region start size fa in
        IsValid fa'
        × ((i : ℕ)
            → i < fa.total_frames
            → is_free fa' i ≡ (
                if leb start (fa.ram_start + i * page_size)
                  && leb (fa.ram_start + i * page_size + page_size) (start + size)
                then false
                else is_free fa i))
  reserve_region-inside below above = elim (dec_lt (page_ceil start) (page_floor (start + size))) [
    | yes h ↦
        let t = reserved-Taken in
        let e : leb (page_floor (start + size)) (page_ceil start) ≡ false = ground arith in
        rw (reserve_region-eq, e)
          (t.valid, λ i lt. t.bits i ∙ rw (inside_bits below above h i lt) refl)
    | no h ↦
        let e : leb (page_floor (start + size)) (page_ceil start) ≡ true = ground arith in
        rw (reserve_region-eq, e) (v, λ i lt. ground (arith, v.aligned))
  ]

  -- A region that holds a whole page and lies outside of the window is not clamped to nothing: it
  -- takes every frame of the window.
  reserve_region-outside :
      page_ceil start < page_floor (start + size)
      → (start + size < fa.ram_start) ⊎ (fa.ram_start + fa.ram_size ≤ page_ceil start)
      → (reserve_region start size fa).free_frames ≡ 0
  reserve_region-outside h out =
      let t = reserved-Taken in
      let e : leb (page_floor (start + size)) (page_ceil start) ≡ false = ground arith in
      rw (reserve_region-eq, e)
        (t.valid.counted
          ∙ count_below-eq-zero (is_free reserved) reserved.total_frames
              (λ i lt. t.bits i ∙ rw (outside_bits h out i (rw t.window.total at lt)) refl))
