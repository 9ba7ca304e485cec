-- ===== src/Mem/Fault/Tests.antt =====
-- Page 0 of a task is shared, copy on write, in tables of one page at each level, with one frame free:
-- the repairs of kernel/src/mem/vm_fault.rs at that input.
use native.Mathlib.Decide.{ℕ_discrete}
use tanix.Mem.Fault.{cow_split, resolve_user_fault}
use tanix.Mem.Fault.Repairs.{Answers, resolve_user_fault-Answers}
use tanix.Mem.Fault.Split.{Splits, cow_split-Splits}
use tanix.Mem.Frame.{FrameAllocator, is_free}
use tanix.Mem.Frame.Invariant.{IsValid}
use tanix.Mem.Frame.Words.{Word}
use tanix.Mem.PageTable.{
  Memory, is_valid, has_table_bit, address_of, l0_idx, l1_idx, l2_idx, l3_idx,
}
use tanix.Mem.PageTable.Tree.{some_pair, Places, IsTree, descend}
use tanix.Prelude.{
  ℕ, zero, suc, ◌+◌, ◌*◌, ◌<◌, ◌≤◌, ◌≡◌, ◌≢◌, ◌⊎◌, inl, inr, refl, sym, true, false, some, none, [],
  ◌∷◌, ◌==◌, if◌then◌else◌, arith, replicate, ap, ◌∙◌,
}
use tanix.Prelude.Count.{count_below}

-- Four tables, the shared frame and a free one.
abbrev word : Word
word = false ∷ false ∷ false ∷ false ∷ false ∷ replicate 59 true

abbrev six : FrameAllocator
six = record {
  ram_start = 0x4000_0000;
  ram_size = 0x6000;
  total_frames = 6;
  bitmap = word ∷ [];
  free_frames = 1;
}

six-IsValid : IsValid six
unfolding count_below
six-IsValid = record {
  width = (refl, tt);
  covers = omega arith;
  aligned = refl;
  whole = refl;
  in_space = omega arith;
  counted = refl;
}

-- FLAGS_USER_COW on the shared frame
abbrev shared_entry : ℕ
shared_entry = 0x4000_4000 + 4035

abbrev first_entry : ℕ → ℕ
first_entry t =
    if t == 0x4000_0000
    then 0x4000_1003
    else (if t == 0x4000_1000
        then 0x4000_2003
        else (if t == 0x4000_2000
            then 0x4000_3003
            else (if t == 0x4000_3000 then shared_entry else 0)))

abbrev memory : Memory
memory = record {
  frames = six;
  word = λ t i. if t == 0x4000_4000 then i * 7 else (if i == 0 then first_entry t else 0);
}

abbrev chain : Places
chain x =
    if x == 0x4000_0000
    then some (3, 0)
    else (if x == 0x4000_1000
        then some (2, 0)
        else (if x == 0x4000_2000
            then some (1, 0)
            else (if x == 0x4000_3000 then some (0, 0) else none)))

-- The tables are the first four frames.
IsChain : (x d q : ℕ) → Type 0
IsChain x d q = (q ≡ 0) × (x + d * 4096 ≡ 0x4000_3000) × (d ≤ 3)

IsChain-at :
    (x d q n y : ℕ)
    → y + n * 4096 ≡ 0x4000_3000
    → n ≤ 3
    → chain y ≡ some (n, 0)
    → x ≡ y
    → chain x ≡ some (d, q)
    → IsChain x d q
unfolding IsChain
IsChain-at x d q n y sum top at m e =
    let (depth, part) = some_pair (sym at ∙ (ap chain (sym m) ∙ e)) in
    (sym part, omega (arith, m, sum, depth), omega (arith, depth, top))

chain-IsChain : (x d q : ℕ) → chain x ≡ some (d, q) → IsChain x d q
chain-IsChain x d q e = elim (ℕ_discrete x 0x4000_0000) [
  | yes m ↦ IsChain-at x d q 3 0x4000_0000 refl (omega arith) refl m e
  | no m0 ↦ elim (ℕ_discrete x 0x4000_1000) [
    | yes m ↦ IsChain-at x d q 2 0x4000_1000 refl (omega arith) refl m e
    | no m1 ↦ elim (ℕ_discrete x 0x4000_2000) [
      | yes m ↦ IsChain-at x d q 1 0x4000_2000 refl (omega arith) refl m e
      | no m2 ↦ elim (ℕ_discrete x 0x4000_3000) [
        | yes m ↦ IsChain-at x d q 0 0x4000_3000 refl (omega arith) refl m e
        | no m3 ↦
            let nowhere : none ≡ some (d, q) = sym (chain-apart x m0 m1 m2 m3) ∙ e in cc nowhere
      ]
    ]
  ]
]
  where
    chain-apart :
        (x : ℕ)
        → x ≢ 0x4000_0000
        → x ≢ 0x4000_1000
        → x ≢ 0x4000_2000
        → x ≢ 0x4000_3000
        → chain x ≡ none
    chain-apart x m0 m1 m2 m3 = ground (arith, m0, m1, m2, m3)

-- The first entry of an upper table leads to the next; the others are empty.
Leads : (t d q i : ℕ) → Type 0
Leads t d q i =
    (memory.word t i ≡ 0)
    ⊎ ((has_table_bit (memory.word t i) ≡ true)
        × (chain (address_of (memory.word t i)) ≡ some (d, q * 512 + i)))

Leads-at :
    (t d q y : ℕ)
    → has_table_bit (memory.word y 0) ≡ true
    → chain (address_of (memory.word y 0)) ≡ some (d, 0)
    → t ≡ y
    → q ≡ 0
    → Leads t d q 0
unfolding Leads
Leads-at t d q y b next m part = rw (m, part) (inr (b, next))

table-Leads : (t d q i : ℕ) → chain t ≡ some (suc d, q) → Leads t d q i
unfolding Leads IsChain
table-Leads t d q i e =
    let (part, sum, top) = chain-IsChain t (suc d) q e in
    elim (ℕ_discrete i 0) [
      | no m ↦ inl (ground (arith, m, sum))
      | yes m ↦ rw m (first d part sum top)
    ]
  where
    first : (d : ℕ) → q ≡ 0 → t + suc d * 4096 ≡ 0x4000_3000 → suc d ≤ 3 → Leads t d q 0
    first zero part sum top = Leads-at t 0 q 0x4000_2000 refl refl (omega (arith, sum)) part
    first (suc zero) part sum top = Leads-at t 1 q 0x4000_1000 refl refl (omega (arith, sum)) part
    first (suc (suc zero)) part sum top =
        Leads-at t 2 q 0x4000_0000 refl refl (omega (arith, sum)) part
    first (suc (suc (suc d))) part sum top = absurd (omega (arith, top))

chain-IsTree : IsTree chain memory
unfolding IsChain Leads
chain-IsTree = record {
  aligned = λ t d q e.
      let (_, sum, top) = chain-IsChain t d q e in
      (omega (arith, sum, top), omega (arith, sum), top);
  linked = λ t d q i e lt. elim (table-Leads t d q i e) [
    | inl blank ↦ λ v. cc (v, ap is_valid blank)
    | inr (b, next) ↦ λ v w. next
  ];
  upper = λ t d q i e lt v. elim (table-Leads t (suc d) q i e) [
    | inl blank ↦ cc (v, ap is_valid blank)
    | inr (b, next) ↦ b
  ];
  unused = λ idx lt free. elim (ℕ_discrete idx 5) [
    | yes m ↦ rw m refl
    | no m ↦ absurd (cc (taken idx (omega (arith, lt, m)), free))
  ];
  valid = six-IsValid;
  in_reach = omega arith;
}
  where
    taken : (idx : ℕ) → idx < 5 → is_free six idx ≡ false
    taken zero lt = refl
    taken (suc zero) lt = refl
    taken (suc (suc zero)) lt = refl
    taken (suc (suc (suc zero))) lt = refl
    taken (suc (suc (suc (suc zero)))) lt = refl
    taken (suc (suc (suc (suc (suc idx))))) lt = absurd (omega (arith, lt))

cow_split-Splits_example :
    Splits chain memory 0x4000_0000 0 0 0x4000_4000
      ((cow_split 0x4000_0000 0 shared_entry memory).0)
      ((cow_split 0x4000_0000 0 shared_entry memory).1)
unfolding descend l0_idx l1_idx l2_idx l3_idx
cow_split-Splits_example =
    cow_split-Splits chain memory 0x4000_0000 0 0 shared_entry chain-IsTree refl (omega arith) refl
      refl

-- A write to the shared page at address 8 denied at the last level.
resolve_user_fault-Answers_example :
    Answers chain memory 0x4000_0000 0 0 shared_entry 0x4000_4000 15 []
      (resolve_user_fault 8 15 0x4000_0000 0x4000_4000 [] memory)
unfolding descend l0_idx l1_idx l2_idx l3_idx
resolve_user_fault-Answers_example =
    resolve_user_fault-Answers chain memory 8 15 0x4000_0000 0 0x4000_4000 shared_entry []
      chain-IsTree refl (omega arith) (omega arith) refl
