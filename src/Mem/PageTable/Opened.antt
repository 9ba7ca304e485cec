-- ===== src/Mem/PageTable/Opened.antt =====
-- The tables of kernel/src/mem/page_table.rs with a new one behind an empty entry.
use mathlib.Core.Path.{ap₂}
use native.Mathlib.Decide.{ℕ_discrete}
use tanix.Mem.Frame.{FrameAllocator, is_free}
use tanix.Mem.Frame.Invariant.{IsValid}
use tanix.Mem.PageTable.{
  Memory, set_entry, clear_table, is_valid, has_table_bit, address_of, table_entry,
}
use tanix.Mem.PageTable.Descriptor.{table_entry-points}
use tanix.Mem.PageTable.Tree.{
  page, some_pair, same_place, same_walk, no_walk, Places, IsTree, IsLinked, index, prefix, descend,
  index_small, prefix_step,
}
use tanix.Prelude.{
  ℕ, zero, suc, ◌+◌, ◌*◌, ◌%◌, ◌^◌, ◌<◌, ◌≤◌, ◌≡◌, ◌≢◌, ◌⊎◌, inl, inr, refl, sym, ap, ◌∙◌, true,
  false, Option, none, some, ◌==◌, arith, if◌then◌else◌,
}

-- The memory with the new table `phys`, to which entry `i` of `t` leads.
abbrev pub opened : (t i phys : ℕ) → FrameAllocator → Memory → Memory
opened t i phys frames s =
    set_entry t i (table_entry phys) (clear_table phys (record s { frames = frames }))

-- The places with one more.
abbrev pub placed : ℕ → ℕ × ℕ → Places → Places
placed phys p place = λ x. if x == phys then some p else place x

-- All walks read what they read before, and the entries of upper tables that are in use stay.
pub record Grows (place : Places) (s s' : Memory) : Type 0 where
  pub reads :
      (r d t va : ℕ) → place t ≡ some (d, prefix r d va) → descend d t va s' ≡ descend d t va s
  pub keeps :
      (t d q j : ℕ)
      → place t ≡ some (suc d, q)
      → is_valid (s.word t j) ≡ true
      → s'.word t j ≡ s.word t j

-- The tables after `ensure_table` at entry `i` of the table `t`, which has `suc d` levels below it.
pub record Ensured (place : Places) (s : Memory) (t d q i c : ℕ) (s' : Memory) (place' : Places)
    : Type 0 where
  pub tree : IsTree place' s'
  pub grows : Grows place s s'
  pub extends : (x : ℕ) (p : ℕ × ℕ) → place x ≡ some p → place' x ≡ some p
  pub stands : place' c ≡ some (d, q * 512 + i)
  pub points :
      (is_valid (s'.word t i) ≡ true)
      × (has_table_bit (s'.word t i) ≡ true)
      × (address_of (s'.word t i) ≡ c)
  pub frames_left : s.frames.free_frames ≤ s'.frames.free_frames + 1

module _ (place : Places) (s : Memory) (tree : IsTree place s) (t d q i : ℕ)
    (at_t : place t ≡ some (suc d, q)) (i_small : i < 512) (phys : ℕ) (frames : FrameAllocator)
    (fresh : place phys ≡ none) (aligned : phys % 4096 ≡ 0) (small : phys < 2 ^ 48)
    (empty : is_valid (s.word t i) ≡ false) where
  opened-at : (opened t i phys frames s).word t i ≡ table_entry phys
  unfolding set_entry clear_table
  opened-at = ground arith

  opened-fresh : (j : ℕ) → (opened t i phys frames s).word phys j ≡ 0
  unfolding set_entry clear_table
  opened-fresh j = let apart : phys ≢ t = λ e. cc (fresh, at_t, e) in ground (arith, apart)

  opened-other :
      (x j : ℕ) → x ≢ phys → (x ≢ t) ⊎ (j ≢ i) → (opened t i phys frames s).word x j ≡ s.word x j
  unfolding set_entry clear_table
  opened-other x j off ne = ground (arith, off, ne)

  placed_extends :
      (x : ℕ) (p : ℕ × ℕ) → place x ≡ some p → placed phys (d, q * 512 + i) place x ≡ some p
  placed_extends x p e = elim (ℕ_discrete x phys) [
    | yes m ↦ absurd (cc (m, e, fresh))
    | no m ↦ let off : (x == phys) ≡ false = ground (arith, m) in rw off e
  ]

  placed-fresh : placed phys (d, q * 512 + i) place phys ≡ some (d, q * 512 + i)
  placed-fresh = let on : (phys == phys) ≡ true = ground arith in rw on refl

  descend-fresh : (k va : ℕ) → descend k phys va (opened t i phys frames s) ≡ page 0
  unfolding descend
  descend-fresh zero va = ap page (opened-fresh (index zero va))
  descend-fresh (suc k) va = rw (opened-fresh (index (suc k) va)) refl

  opened-reads :
      (r k x va : ℕ)
      → place x ≡ some (k, prefix r k va)
      → descend k x va (opened t i phys frames s) ≡ descend k x va s
  unfolding descend
  opened-reads r zero x va e = ap page (
      opened-other x (index zero va) (λ m. cc (m, e, fresh))
        (inl (λ m. absurd (omega (arith, (same_place place e at_t m).0)))))
  opened-reads r (suc k) x va e =
      let j = index (suc k) va in
      let w = s.word x j in
      let below : is_valid w ≡ true
          → has_table_bit w ≡ true
          → place (address_of w) ≡ some (k, prefix r k va) =
        λ v b.
          tree.linked x k (prefix r (suc k) va) j e (index_small (suc k) va) v b
          ∙ ap (λ (p : ℕ). some (k, p))
              (prefix_step r k va ((tree.aligned x (suc k) (prefix r (suc k) va) e).2)) in
      let follow = λ (same : (opened t i phys frames s).word x j ≡ w).
        same_walk (opened t i phys frames s) s k x va same
          (λ v b. opened-reads r k (address_of w) va (below v b)) in
      let off : x ≢ phys = λ m. cc (m, e, fresh) in
      elim (ℕ_discrete x t) [
        | no m ↦ follow (opened-other x j off (inl m))
        | yes m ↦ elim (ℕ_discrete j i) [
          | no m' ↦ follow (opened-other x j off (inr m'))
          | yes m' ↦
              let (v, b, a) = table_entry-points phys aligned small in
              let here : (opened t i phys frames s).word x j ≡ table_entry phys =
                ap (λ (y : ℕ). (opened t i phys frames s).word y j) m
                ∙ (ap (λ (y : ℕ). (opened t i phys frames s).word t y) m' ∙ opened-at) in
              let was : is_valid w ≡ false =
                ap (λ (y : ℕ). is_valid (s.word y j)) m
                ∙ (ap (λ (y : ℕ). is_valid (s.word t y)) m' ∙ empty) in
              rw (here, v, b, a) (descend-fresh k va ∙ sym (no_walk s k x va was))
        ]
      ]

  opened-keeps :
      (x k q' j : ℕ)
      → place x ≡ some (k, q')
      → is_valid (s.word x j) ≡ true
      → (opened t i phys frames s).word x j ≡ s.word x j
  opened-keeps x k q' j e v =
      let off : x ≢ phys = λ m. cc (m, e, fresh) in
      elim (ℕ_discrete x t) [
        | no m ↦ opened-other x j off (inl m)
        | yes m ↦ opened-other x j off (
            inr (λ m'. cc (
              v,
              empty,
              ap (λ (y : ℕ). is_valid (s.word y j)) m,
              ap (λ (y : ℕ). is_valid (s.word t y)) m',
            )))
      ]

  -- An entry of the new tables is 0, is an old one, or is the one that leads to the new table.
  opened-cases :
      (x k q' j : ℕ)
      → placed phys (d, q * 512 + i) place x ≡ some (k, q')
      → ((opened t i phys frames s).word x j ≡ 0)
        ⊎ (((place x ≡ some (k, q')) × ((opened t i phys frames s).word x j ≡ s.word x j))
            ⊎ ((k ≡ suc d)
                × (q' ≡ q)
                × (j ≡ i)
                × ((opened t i phys frames s).word x j ≡ table_entry phys)))
  opened-cases x k q' j e = elim (ℕ_discrete x phys) [
    | yes m ↦ inl (ap (λ (y : ℕ). (opened t i phys frames s).word y j) m ∙ opened-fresh j)
    | no m ↦
        let off : (x == phys) ≡ false = ground (arith, m) in
        let old : place x ≡ some (k, q') = (rw off at e) in
        elim (ℕ_discrete x t) [
          | no m' ↦ inr (inl (old, opened-other x j m (inl m')))
          | yes m' ↦ elim (ℕ_discrete j i) [
            | no n ↦ inr (inl (old, opened-other x j m (inr n)))
            | yes n ↦
                let (depth, part) = same_place place old at_t m' in
                inr (
                  inr (
                    depth,
                    part,
                    n,
                    ap (λ (y : ℕ). (opened t i phys frames s).word y j) m'
                        ∙ (ap (λ (y : ℕ). (opened t i phys frames s).word t y) n ∙ opened-at),
                  ))
          ]
        ]
  ]

  opened-linked :
      (x k q' j : ℕ)
      → placed phys (d, q * 512 + i) place x ≡ some (suc k, q')
      → j < 512
      → IsLinked (placed phys (d, q * 512 + i) place) k q' j ((opened t i phys frames s).word x j)
  opened-linked x k q' j e lt = elim (opened-cases x (suc k) q' j e) [
    | inl blank ↦ rw blank (λ v b. cc v)
    | inr (inl (old, same)) ↦ rw same (λ v b.
        placed_extends (address_of (s.word x j)) (k, q' * 512 + j)
          (tree.linked x k q' j old lt v b))
    | inr (inr (depth, part, here, new)) ↦ rw new (λ v b.
        let (_, _, a) = table_entry-points phys aligned small in
        ap (placed phys (d, q * 512 + i) place) a
        ∙ (placed-fresh
            ∙ ap₂ (λ (m n : ℕ). some (m, n)) (omega (arith, depth)) (omega (arith, part, here))))
  ]

  opened-upper :
      (x k q' j : ℕ)
      → placed phys (d, q * 512 + i) place x ≡ some (suc (suc k), q')
      → j < 512
      → is_valid ((opened t i phys frames s).word x j) ≡ true
      → has_table_bit ((opened t i phys frames s).word x j) ≡ true
  opened-upper x k q' j e lt = elim (opened-cases x (suc (suc k)) q' j e) [
    | inl blank ↦ rw blank (λ v. cc v)
    | inr (inl (old, same)) ↦ rw same (tree.upper x k q' j old lt)
    | inr (inr (depth, part, here, new)) ↦ rw new (λ v. (table_entry-points phys aligned small).1)
  ]

  opened-aligned :
      (x k q' : ℕ)
      → placed phys (d, q * 512 + i) place x ≡ some (k, q')
      → (x % 4096 ≡ 0) × (x < 2 ^ 48) × (k ≤ 3)
  opened-aligned x k q' e = elim (ℕ_discrete x phys) [
    | yes m ↦
        let on : (x == phys) ≡ true = ground (arith, m) in
        let there : ◌≡◌ {A = Option (ℕ × ℕ)} (some (d, q * 512 + i)) (some (k, q')) =
          (rw on at e) in
        let depth : d ≡ k = (some_pair there).0 in
        let (_, _, top) = tree.aligned t (suc d) q at_t in
        (omega (arith, m, aligned), omega (arith, m, small), omega (arith, depth, top))
    | no m ↦ let off : (x == phys) ≡ false = ground (arith, m) in tree.aligned x k q' (rw off at e)
  ]

  module _ (valid : IsValid frames) (in_reach : frames.ram_start + frames.ram_size ≤ 2 ^ 48)
      (apart : (j : ℕ)
        → j < frames.total_frames
        → is_free frames j ≡ true
        → (frames.ram_start + j * 4096 ≢ phys) × (place (frames.ram_start + j * 4096) ≡ none)) where
    opened-unused :
        (j : ℕ)
        → j < frames.total_frames
        → is_free frames j ≡ true
        → placed phys (d, q * 512 + i) place (frames.ram_start + j * 4096) ≡ none
    opened-unused j lt free =
        let off : (frames.ram_start + j * 4096 == phys) ≡ false =
          ground (arith, (apart j lt free).0) in
        rw off ((apart j lt free).1)

    pub opened-Ensured :
        s.frames.free_frames ≤ frames.free_frames + 1
        → Ensured place s t d q i phys
            (opened t i phys frames s)
            (placed phys (d, q * 512 + i) place)
    unfolding set_entry clear_table
    opened-Ensured left =
        let (v, b, a) = table_entry-points phys aligned small in
        record {
          tree = record {
            aligned = opened-aligned;
            linked = opened-linked;
            upper = opened-upper;
            unused = opened-unused;
            valid = valid;
            in_reach = in_reach;
          };
          grows = record { reads = opened-reads; keeps = λ x k q' j. opened-keeps x (suc k) q' j };
          extends = placed_extends;
          stands = placed-fresh;
          points = (
            ap is_valid opened-at ∙ v,
            ap has_table_bit opened-at ∙ b,
            ap address_of opened-at ∙ a,
          );
          frames_left = left;
        }
