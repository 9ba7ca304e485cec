-- ===== src/Mem/Frame/Tests.antt =====
-- Runs of the frame allocator of kernel/src/mem/frame.rs on a window of six frames, of which the
-- first two are taken, and the theorems at that input.
use tanix.Mem.{page_size}
use tanix.Mem.Frame.{
  FrameAllocator, new_zeroed, init, is_free, set_used, use_range, take_frame, alloc_from, alloc,
  contiguous_from, alloc_contiguous, free, bitmap_words,
}
use tanix.Mem.Frame.Words.{Word, zeros, is_zero, trailing_zeros}
use tanix.Mem.Frame.Invariant.{IsValid}
use tanix.Mem.Frame.Alloc.{Allocated, alloc-cases}
use tanix.Mem.Frame.Contiguous.{NoRun, FreeRun, alloc_contiguous-cases}
use tanix.Mem.Frame.Free.{free-alloc}
use tanix.Mem.Frame.Init.{init-IsValid}
use tanix.Prelude.{
  ℕ, ◌+◌, ◌-◌, ◌*◌, ◌<◌, ◌≤◌, ◌≡◌, refl, ◌⊎◌, true, false, arith, some, none, [], ◌∷◌, leb, length,
  length-replicate, replicate,
}
use tanix.Prelude.Count.{count_below}

abbrev word : Word
word = false ∷ false ∷ true ∷ false ∷ replicate 60 true

abbrev six : FrameAllocator
six = record {
  ram_start = 0x4000_0000;
  ram_size = 0x6000;
  total_frames = 6;
  bitmap = word ∷ [];
  free_frames = 3;
}

six-IsValid : IsValid six
unfolding count_below
six-IsValid = record {
  width = (refl, tt);
  covers = omega arith;
  aligned = refl;
  whole = refl;
  in_space = omega arith;
  counted = refl;
}

alloc-six : (alloc six).0 ≡ some 0x4000_2000
unfolding alloc alloc_from take_frame is_zero trailing_zeros
alloc-six = refl

alloc_contiguous-six : (alloc_contiguous 2 six).0 ≡ some 0x4000_4000
unfolding alloc_contiguous contiguous_from
alloc_contiguous-six = refl

alloc_contiguous-too_many : alloc_contiguous 3 six ≡ (none, six)
unfolding alloc_contiguous contiguous_from
alloc_contiguous-too_many = refl

alloc-cases_example :
    (alloc six ≡ (none, six)) × (six.free_frames ≡ 0)
    ⊎ ((idx : ℕ) × (alloc six ≡ (some (six.ram_start + idx * page_size), set_used idx six))
        × Allocated six idx (set_used idx six))
alloc-cases_example = alloc-cases six six-IsValid

free-alloc_example : free 0x4000_2000 (set_used 2 six) ≡ some six
unfolding alloc alloc_from take_frame is_zero trailing_zeros
free-alloc_example = free-alloc six (set_used 2 six) 0x4000_2000 six-IsValid refl

alloc_contiguous-cases_example :
    (alloc_contiguous 2 six ≡ (none, six)) × NoRun six 2 six.total_frames
    ⊎ ((first : ℕ) × (first + 2 ≤ six.total_frames)
        × FreeRun six 2 first
        × NoRun six 2 (first + 2 - 1)
        × (alloc_contiguous 2 six
            ≡ (some (six.ram_start + first * page_size), use_range 2 first six)))
alloc_contiguous-cases_example = alloc_contiguous-cases six 2 six-IsValid (omega arith)

new_zeroed-words : length new_zeroed.bitmap ≡ bitmap_words
unfolding new_zeroed
new_zeroed-words = length-replicate bitmap_words zeros

-- 256 MiB from 1 GiB on, with a kernel image of a little more than 2 MiB.
init-IsValid_example :
    (fa' : FrameAllocator) × (init 0x4020_0010 0x4000_0000 0x1000_0000 new_zeroed ≡ some fa')
    × IsValid fa'
    × (fa'.ram_start ≡ 0x4000_0000)
    × (fa'.ram_size ≡ 0x1000_0000)
    × ((i : ℕ)
        → i < fa'.total_frames
        → is_free fa' i ≡ leb 0x4020_0010 (0x4000_0000 + i * page_size))
init-IsValid_example =
    init-IsValid 0x4000_0000 0x1000_0000 new_zeroed new_zeroed-words (omega arith) refl refl
      (omega arith) 0x4020_0010 (omega arith)
