-- ===== src/Mem/PageTable/Ensure.antt =====
-- What `ensure_table` in kernel/src/mem/page_table.rs does to the tables.
use tanix.Mem.Frame.{is_free, set_used}
use tanix.Mem.Frame.Alloc.{Allocated, alloc-cases}
use tanix.Mem.PageTable.{
  Memory, is_valid, has_table_bit, address_of, expect_frame, alloc_table, ensure_table,
}
use tanix.Mem.PageTable.Tree.{Places, IsTree}
use tanix.Prelude.{
  ℕ, suc, ◌+◌, ◌*◌, ◌<◌, ◌≡◌, ◌≢◌, inl, inr, refl, ap, ◌∙◌, true, false, Option, none, some, arith,
  Bool-cases,
}
use tanix.Mem.PageTable.Opened.{opened, placed, Ensured, opened-Ensured}

-- `ensure_table` runs out of frames, or it gives the table of the next level.
abbrev pub Ensures : Places → Memory → (t d q i : ℕ) → Option (ℕ × Memory) → Type 0
Ensures place s t d q i none = s.frames.free_frames ≡ 0
Ensures place s t d q i (some (c, s')) = (place' : Places) × Ensured place s t d q i c s' place'

-- An entry that is not a block.
abbrev pub IsOpen : ℕ → Type 0
IsOpen e = is_valid e ≡ true → has_table_bit e ≡ true

module _ (place : Places) (s : Memory) (tree : IsTree place s) (t d q i : ℕ)
    (at_t : place t ≡ some (suc d, q)) (i_small : i < 512) where
  already :
      is_valid (s.word t i) ≡ true
      → has_table_bit (s.word t i) ≡ true
      → Ensured place s t d q i (address_of (s.word t i)) s place
  already v b = record {
    tree = tree;
    grows = record { reads = λ r k x va e. refl; keeps = λ x k q' j e w. refl };
    extends = λ x p e. e;
    stands = tree.linked t d q i at_t i_small v b;
    points = (v, b, refl);
    frames_left = omega arith;
  }

  Allocated-Ensured :
      (idx : ℕ)
      → is_valid (s.word t i) ≡ false
      → Allocated s.frames idx (set_used idx s.frames)
      → Ensured place s t d q i
          (s.frames.ram_start + idx * 4096)
          (opened t i (s.frames.ram_start + idx * 4096) (set_used idx s.frames) s)
          (placed (s.frames.ram_start + idx * 4096) (d, q * 512 + i) place)
  Allocated-Ensured idx empty a =
      let f = set_used idx s.frames in
      let start = a.window.start in
      let total = a.window.total in
      opened-Ensured place s tree t d q i at_t i_small (s.frames.ram_start + idx * 4096) f
        (tree.unused idx a.in_window a.was_free) (omega (arith, tree.valid.aligned))
        (omega (arith, tree.valid.whole, tree.in_reach, a.in_window)) empty a.valid
        (omega (arith, start, a.window.size, tree.in_reach))
        (λ j lt free.
          let e = a.bits j in
          let off : j ≢ idx = ground (arith, e, free) in
          let was : is_free s.frames j ≡ true = ground (arith, e, free, off) in
          (
            omega (arith, start, off),
            ap (λ (n : ℕ). place (n + j * 4096)) start
                ∙ tree.unused j (omega (arith, lt, total)) was,
          ))
        (omega (arith, a.one_less))

  pub ensure_table-Ensures : IsOpen (s.word t i) → Ensures place s t d q i (ensure_table t i s)
  unfolding ensure_table alloc_table expect_frame
  ensure_table-Ensures open_entry = elim (Bool-cases (is_valid (s.word t i))) [
    | inl v ↦ rw v (place, already v (open_entry v))
    | inr empty ↦ elim (alloc-cases s.frames tree.valid) [
      | inl (e, spent) ↦ rw (empty, e) spent
      | inr (idx, e, a) ↦
          rw (empty, e)
            (
              placed (s.frames.ram_start + idx * 4096) (d, q * 512 + i) place,
              Allocated-Ensured idx empty a,
            )
    ]
  ]
