-- ===== src/Mem/Frame/Free.antt =====
-- `free` of kernel/src/mem/frame.rs: what it accepts, and that it undoes `alloc`.
use tanix.Mem.{page_size}
use tanix.Mem.Frame.{FrameAllocator, is_free, set_used, set_free, phys_to_idx, alloc, free}
use tanix.Mem.Frame.Alloc.{alloc-cases}
use tanix.Mem.Frame.Bits.{is_free-set_free, bit_at-write_bit_self}
use tanix.Mem.Frame.Words.{Word}
use tanix.Mem.Frame.Invariant.{
  IsValid, free_frames-set_used, set_free-IsValid, free_frames-set_free,
}
use tanix.Prelude.{
  ℕ, ◌+◌, ◌-◌, ◌*◌, ◌/◌, ◌%◌, ◌<◌, ◌≤◌, ◌≡◌, ◌≢◌, sym, ap, ◌∙◌, ◌⊎◌, inl, inr, Bool, true, false,
  arith, length, get_or, set, set-set, set-get_or, get_or-set_self, ◌==◌, if◌then◌else◌, List, [],
  some, none,
}

-- The address of a frame of the window is read back as its index.
pub phys_to_idx-frame :
    (fa : FrameAllocator) (idx : ℕ)
    → IsValid fa
    → idx < fa.total_frames
    → phys_to_idx (fa.ram_start + idx * page_size) fa.ram_start fa.ram_size ≡ some idx
unfolding phys_to_idx
phys_to_idx-frame fa idx v h = ground (arith, v.whole, v.in_space)

pub free_frame :
    (fa : FrameAllocator) (idx : ℕ)
    → IsValid fa
    → idx < fa.total_frames
    → free (fa.ram_start + idx * page_size) fa ≡ some (set_free idx fa)
unfolding free
free_frame fa idx v h = ground (arith, phys_to_idx-frame fa idx v h, v.aligned)

-- An address that is not on a page, or outside of the window, panics; no other does.
free-eq-none_iff :
    (fa : FrameAllocator) (addr : ℕ)
    → IsValid fa
    → (free addr fa ≡ none
        → (addr % page_size ≢ 0) ⊎ ((addr < fa.ram_start) ⊎ (fa.ram_start + fa.ram_size ≤ addr)))
      × ((addr % page_size ≢ 0) ⊎ ((addr < fa.ram_start) ⊎ (fa.ram_start + fa.ram_size ≤ addr))
          → free addr fa ≡ none)
unfolding free phys_to_idx
free-eq-none_iff fa addr v = (λ h. ground (arith, v.in_space), λ h. ground (arith, v.in_space))

-- Writing a bit and then what stood there before restores the bitmap.
write_bit_back :
    (bitmap : List Word) (k b : ℕ) (v : Bool)
    → k < length bitmap
    → get_or (get_or bitmap k []) b false ≡ true
    → set
        (set bitmap k (set (get_or bitmap k []) b v))
        k
        (set (get_or (set bitmap k (set (get_or bitmap k []) b v)) k []) b true)
      ≡ bitmap
write_bit_back bitmap k b v lt f =
    rw (get_or-set_self bitmap k (set (get_or bitmap k []) b v) [] lt, set-set)
      (ap (λ (w : Word). set bitmap k w) (set-set (get_or bitmap k []) b v true ∙ word_back)
        ∙ set-get_or bitmap k [])
  where
    word_back : set (get_or bitmap k []) b true ≡ get_or bitmap k []
    word_back =
        ap (λ (x : Bool). set (get_or bitmap k []) b x) (sym f)
        ∙ set-get_or (get_or bitmap k []) b false

set_free-set_used :
    (fa : FrameAllocator) (idx : ℕ)
    → IsValid fa
    → idx < fa.total_frames
    → is_free fa idx ≡ true
    → set_free idx (set_used idx fa) ≡ fa
unfolding set_free set_used
set_free-set_used fa idx v lt f = ground (
  arith,
  bit_at-write_bit_self fa.bitmap v.width idx (omega (arith, v.covers)) false,
  write_bit_back fa.bitmap (idx / 64) (idx % 64) false (omega (arith, v.covers)),
  free_frames-set_used idx fa v lt,
)

-- Giving back the frame that `alloc` just handed out restores the allocator, bit for bit.
pub free-alloc :
    (fa fa' : FrameAllocator) (addr : ℕ)
    → IsValid fa
    → alloc fa ≡ (some addr, fa')
    → free addr fa' ≡ some fa
free-alloc fa fa' addr v e = elim (alloc-cases fa v) [
  | inl (e', _) ↦ cc
  | inr (idx, e', a) ↦
      let at : fa.ram_start + idx * page_size ≡ addr = ground (arith, e, e') in
      let st : set_used idx fa ≡ fa' = ground (arith, e, e') in
      rw (← at, ← st)
        (ap (λ (n : ℕ). free (n + idx * page_size) (set_used idx fa)) (sym a.window.start)
          ∙ free_frame (set_used idx fa) idx a.valid (rw a.window.total a.in_window)
          ∙ ap some (set_free-set_used fa idx v a.in_window a.was_free))
]

free_at :
    (fa fa' : FrameAllocator) (addr : ℕ)
    → IsValid fa
    → free addr fa ≡ some fa'
    → let idx = (addr - fa.ram_start) / page_size in
      (addr ≡ fa.ram_start + idx * page_size) × (idx < fa.total_frames) × (set_free idx fa ≡ fa')
unfolding free phys_to_idx
free_at fa fa' addr v e = ground (arith, v.whole, v.in_space, v.aligned)

-- A `free` that does not panic is of a frame of the window: it keeps the invariant, marks that frame
-- free and no other, and counts it if it was in use.
free-some :
    (fa fa' : FrameAllocator) (addr : ℕ)
    → IsValid fa
    → free addr fa ≡ some fa'
    → (idx : ℕ) × (addr ≡ fa.ram_start + idx * page_size)
      × (idx < fa.total_frames)
      × IsValid fa'
      × ((i : ℕ) → is_free fa' i ≡ (if i == idx then true else is_free fa i))
      × (fa'.free_frames ≡ fa.free_frames + (if is_free fa idx then 0 else 1))
free-some fa fa' addr v e =
    let (at, lt, st) = free_at fa fa' addr v e in
    let idx = (addr - fa.ram_start) / page_size in
    rw (← st) (
      idx,
      at,
      lt,
      set_free-IsValid idx fa v lt,
      λ i. is_free-set_free fa idx i v.width (omega (arith, v.covers)),
      free_frames-set_free idx fa v lt,
    )
