-- ===== src/Mem/PageTable/Tree.antt =====
-- The tables of kernel/src/mem/page_table.rs as a tree: what a walk through them reads, and where each
-- table stands.
use tanix.Mem.Frame.{is_free}
use tanix.Mem.Frame.Invariant.{IsValid}
use tanix.Mem.PageTable.{
  Memory, entry, is_valid, has_table_bit, address_of, read_user_page, l0_idx, l1_idx, l2_idx,
  l3_idx,
}
use tanix.Prelude.{
  ℕ, zero, suc, ◌+◌, ◌*◌, ◌/◌, ◌%◌, ◌^◌, ◌<◌, ◌≤◌, ◌≡◌, refl, sym, ap, ◌∙◌, true, false, Option,
  none, some, arith, if◌then◌else◌, Bool-cases, inl, inr,
}

-- The index of a virtual address in a table with `depth` levels below it, and the part of the address
-- above, which is the same for all addresses of the table, behind the number `r` of the root.
abbrev pub index : (depth va : ℕ) → ℕ
index zero va = l3_idx va
index (suc zero) va = l2_idx va
index (suc (suc zero)) va = l1_idx va
index (suc (suc (suc d))) va = l0_idx va

abbrev pub prefix : (r depth va : ℕ) → ℕ
prefix r zero va = r * 2 ^ 27 + va / 2 ^ 21 % 2 ^ 27
prefix r (suc zero) va = r * 2 ^ 18 + va / 2 ^ 30 % 2 ^ 18
prefix r (suc (suc zero)) va = r * 2 ^ 9 + va / 2 ^ 39 % 2 ^ 9
prefix r (suc (suc (suc d))) va = r

-- What the tables give for an address: the descriptor of a page, 0 where there is none, or a block.
pub data Walk : Type 0 where
  page : ℕ → Walk
  block : ℕ → Walk

unfoldable pub descend : (depth t va : ℕ) → Memory → Walk
descend zero t va s = page (entry t (index zero va) s)
descend (suc d) t va s =
    let e = entry t (index (suc d) va) s in
    let below = descend d (address_of e) va s in
    if is_valid e then (if has_table_bit e then below else block e) else page 0

abbrev pub page_entry : Walk → ℕ
page_entry (page e) = e
page_entry (block e) = 0

-- The tables in use: the levels below each, and its part of the addresses. Each root has a number.
abbrev pub Places : Type 0
Places = ℕ → Option (ℕ × ℕ)

-- What an entry of a table at a place must be.
abbrev pub IsLinked : Places → (d q i e : ℕ) → Type 0
IsLinked place d q i e =
    is_valid e ≡ true → has_table_bit e ≡ true → place (address_of e) ≡ some (d, q * 512 + i)

-- Each table has one place; its entries lead to the tables of the places below, blocks stand in the
-- last level but one only, and no table is a frame that the allocator may hand out.
pub record IsTree (place : Places) (s : Memory) : Type 0 where
  pub aligned : (t d q : ℕ) → place t ≡ some (d, q) → (t % 4096 ≡ 0) × (t < 2 ^ 48) × (d ≤ 3)
  pub linked :
      (t d q i : ℕ) → place t ≡ some (suc d, q) → i < 512 → IsLinked place d q i (s.word t i)
  pub upper :
      (t d q i : ℕ)
      → place t ≡ some (suc (suc d), q)
      → i < 512
      → is_valid (s.word t i) ≡ true
      → has_table_bit (s.word t i) ≡ true
  pub unused :
      (idx : ℕ)
      → idx < s.frames.total_frames
      → is_free s.frames idx ≡ true
      → place (s.frames.ram_start + idx * 4096) ≡ none
  pub valid : IsValid s.frames
  pub in_reach : s.frames.ram_start + s.frames.ram_size ≤ 2 ^ 48

pub index_small : (d va : ℕ) → index d va < 512
unfolding l0_idx l1_idx l2_idx l3_idx
index_small zero va = omega arith
index_small (suc zero) va = omega arith
index_small (suc (suc zero)) va = omega arith
index_small (suc (suc (suc d))) va = omega arith

pub prefix_step :
    (r d va : ℕ) → suc d ≤ 3 → prefix r (suc d) va * 512 + index (suc d) va ≡ prefix r d va
unfolding l0_idx l1_idx l2_idx l3_idx
prefix_step r zero va h = omega arith
prefix_step r (suc zero) va h = omega arith
prefix_step r (suc (suc zero)) va h = omega arith
prefix_step r (suc (suc (suc d))) va h = absurd (omega arith)

-- The prefix and the index in the last table tell the root and the page.
pub page_of_prefix :
    (r r' va va' : ℕ)
    → va < 2 ^ 48
    → va' < 2 ^ 48
    → prefix r 0 va ≡ prefix r' 0 va'
    → index 0 va ≡ index 0 va'
    → (r ≡ r') × (va / 4096 ≡ va' / 4096)
unfolding l3_idx
page_of_prefix r r' va va' h h' p i = (omega arith, omega arith)

-- In a tree, `read_user_page` is the walk from its root.
pub read_user_page-descend :
    (place : Places) (s : Memory)
    → IsTree place s
    → (root r va : ℕ) → place root ≡ some (3, r)
    → read_user_page root va s ≡ page_entry (descend 3 root va s)
unfolding read_user_page descend
read_user_page-descend place s tree root r va top =
    let e = s.word root (l0_idx va) in
    elim (Bool-cases (is_valid e)) [
      | inl v ↦
          let t = tree.upper root 1 r (l0_idx va) top (index_small 3 va) v in
          let next = tree.linked root 2 r (l0_idx va) top (index_small 3 va) v t in
          let e' = s.word (address_of e) (l1_idx va) in
          elim (Bool-cases (is_valid e')) [
            | inl v' ↦
                let t' =
                  tree.upper (address_of e) 0 (r * 512 + l0_idx va) (l1_idx va) next
                    (index_small 2 va) v' in
                ground (arith, v, t, v', t')
            | inr w' ↦ ground (arith, v, t, w')
          ]
      | inr w ↦ ground (arith, w)
    ]

pub some_pair :
    {a b c d : ℕ} → ◌≡◌ {A = Option (ℕ × ℕ)} (some (a, b)) (some (c, d)) → (a ≡ c) × (b ≡ d)
some_pair {a} {b} {c} {d} e =
    let pair : (a, b) ≡ (c, d) = cc e in
    (ap (λ (r : ℕ × ℕ). r.0) pair, ap (λ (r : ℕ × ℕ). r.1) pair)

pub same_place :
    (place : Places) {x y d d' q q' : ℕ}
    → place x ≡ some (d, q)
    → place y ≡ some (d', q')
    → x ≡ y
    → (d ≡ d') × (q ≡ q')
same_place place e e' m = some_pair (sym e ∙ (ap place m ∙ e'))

-- A step of a walk over an entry that two memories share.
pub same_walk :
    (s' s : Memory) (k x va : ℕ)
    → s'.word x (index (suc k) va) ≡ s.word x (index (suc k) va)
    → (is_valid (s.word x (index (suc k) va)) ≡ true
        → has_table_bit (s.word x (index (suc k) va)) ≡ true
        → descend k (address_of (s.word x (index (suc k) va))) va s'
          ≡ descend k (address_of (s.word x (index (suc k) va))) va s)
    → descend (suc k) x va s' ≡ descend (suc k) x va s
unfolding descend
same_walk s' s k x va same below =
    let w = s.word x (index (suc k) va) in
    elim (Bool-cases (is_valid w)) [
      | inr out ↦ rw (same, out) refl
      | inl v ↦ elim (Bool-cases (has_table_bit w)) [
        | inr out ↦ rw (same, v, out) refl
        | inl b ↦ rw (same, v, b) (below v b)
      ]
    ]

pub no_walk :
    (s : Memory) (k x va : ℕ)
    → is_valid (s.word x (index (suc k) va)) ≡ false
    → descend (suc k) x va s ≡ page 0
unfolding descend
no_walk s k x va out = rw out refl

-- One step along a link.
pub descend_along :
    (s : Memory) (d t va c : ℕ)
    → is_valid (s.word t (index (suc d) va)) ≡ true
    → has_table_bit (s.word t (index (suc d) va)) ≡ true
    → address_of (s.word t (index (suc d) va)) ≡ c
    → descend (suc d) t va s ≡ descend d c va s
unfolding descend
descend_along s d t va c v b a = rw (v, b, a) refl

-- Where the walk ends at a page, no entry on it is a block.
pub no_block :
    (s : Memory) (d t va e : ℕ)
    → descend (suc d) t va s ≡ page e
    → is_valid (s.word t (index (suc d) va)) ≡ true
    → has_table_bit (s.word t (index (suc d) va)) ≡ true
unfolding descend
no_block s d t va e h v = elim (Bool-cases (has_table_bit (s.word t (index (suc d) va)))) [
  | inl b ↦ b
  | inr out ↦
      let never : block (s.word t (index (suc d) va)) ≡ page e = (rw (v, out) at h) in cc never
]
