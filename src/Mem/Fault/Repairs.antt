-- ===== src/Mem/Fault/Repairs.antt =====
-- What `resolve_user_fault` of kernel/src/mem/vm_fault.rs repairs, for all tasks.
use Prim.Native.Nat.{bit_or}
use mathlib.Core.Path.{subst}
use tanix.Mem.{page_size}
use tanix.Mem.Fault.{
  region_stack, region_demand, in_class, dfsc_tt_first, dfsc_af_first, dfsc_perm_first, is_cow,
  needs_af, covers, is_growable, find_region, Outcome, repaired, open_page, open_in, cow_split,
  on_translation, on_permission, on_access_flag, resolve_user_fault,
}
use tanix.Mem.Fault.Split.{IsSplit, Splits, cow_split-Splits}
use tanix.Mem.PageTable.{
  Memory, is_valid, address_of, flags_user_rwx, flags_user_cow, desc_af, map_user_frame,
  read_user_page,
}
use tanix.Mem.PageTable.Map.{IsMapped, MapsPage, map_user_frame-MapsPage}
use tanix.Mem.PageTable.Rewrite.{write_user_page-IsMapped}
use tanix.Mem.PageTable.Tree.{page, page_entry, Places, IsTree, descend, read_user_page-descend}
use tanix.Sched.{TaskRegion}
use tanix.Prelude.{
  ℕ, ◌*◌, ◌/◌, ◌%◌, ◌^◌, ◌<◌, ◌≡◌, ◌≢◌, refl, ap, ◌∙◌, sym, Bool, true, false, ◌&&◌, Option, none,
  some, List, ◌==◌, arith, Bool-cases, inl, inr, ◌⊎◌,
}
use tanix.Mem.Fault.Regions.{IsIn, HasRegion, find_region-some, HasRegion-covers, no_growable}

-- A fault of the class `d` on the page `va` of the root `root`, which reads as `old`.
module _ (place : Places) (s : Memory) (root r va old zero_page d : ℕ)
    (regions : List TaskRegion) where
  -- What a repair leaves.
  pub data Repair (s' : Memory) (place' : Places) : Type 0 where
    grow :
        in_class d dfsc_af_first ≡ false
        → HasRegion regions region_stack va
        → IsMapped place s root r va (bit_or va flags_user_rwx) s' place'
        → Repair s' place'
    demand :
        in_class d dfsc_af_first ≡ false
        → HasRegion regions region_demand va
        → IsMapped place s root r va (bit_or zero_page flags_user_cow) s' place'
        → Repair s' place'
    split :
        in_class d dfsc_tt_first ≡ false
        → is_cow old ≡ true
        → IsSplit place s root r va (address_of old) s' place'
        → Repair s' place'
    accessed :
        in_class d dfsc_af_first ≡ true
        → needs_af old ≡ true
        → IsMapped place s root r va (bit_or old desc_af) s' place'
        → Repair s' place'

  -- A fault that is not repaired: no word has changed, and there was nothing to repair it with.
  pub record Declined (s' : Memory) : Type 0 where
    pub same : (x j : ℕ) → s'.word x j ≡ s.word x j
    pub no_region :
        in_class d dfsc_tt_first ≡ true
        → (k : ℕ) → (k ≡ region_stack) ⊎ (k ≡ region_demand)
        → ¬ HasRegion regions k va
    pub no_frame :
        in_class d dfsc_tt_first ≡ false
        → is_cow old ≡ true
        → (in_class d dfsc_perm_first ≡ true) ⊎ (in_class d dfsc_af_first ≡ true)
        → s.frames.free_frames ≡ 0
    pub closed :
        in_class d dfsc_perm_first ≡ true
        → is_cow old ≡ false
        → (x : TaskRegion) → find_region (covers va) regions ≡ some x
        → is_growable x ≡ false
    pub no_flag : in_class d dfsc_af_first ≡ true → is_cow old ≡ false → needs_af old ≡ false

  abbrev pub Answered : Bool → Memory → Type 0
  Answered false s' = Declined s'
  Answered true s' = (place' : Places) × Repair s' place'

  -- Running out of frames for the tables is a panic.
  abbrev pub Answers : Outcome → Type 0
  Answers none = s.frames.free_frames < 3
  Answers (some x) = Answered (x.0) (x.1)

  repaired-Answers :
      (val : ℕ)
      → ((s' : Memory) (place' : Places)
          → IsMapped place s root r va val s' place'
          → Repair s' place')
      → (o : Option Memory) → MapsPage place s root r va val o
      → Answers (repaired o)
  repaired-Answers val repair none h = h
  repaired-Answers val repair (some s') (place', m) = (place', repair s' place' m)

  split-Answered :
      in_class d dfsc_tt_first ≡ false
      → is_cow old ≡ true
      → (b : Bool) (s' : Memory) → Splits place s root r va (address_of old) b s'
      → Answered b s'
  split-Answered class tagged false s' (spent, same, _) = record {
    same = same;
    no_region = λ c. cc (c, class);
    no_frame = λ c t k. spent;
    closed = λ c t. cc (t, tagged);
    no_flag = λ c t. cc (t, tagged);
  }
  split-Answered class tagged true s' (place', c) = (place', split class tagged c)

  other-Declined :
      in_class d dfsc_tt_first ≡ false
      → in_class d dfsc_perm_first ≡ false
      → in_class d dfsc_af_first ≡ false
      → Declined s
  other-Declined no_tt no_perm no_af = record {
    same = λ x j. refl;
    no_region = λ c. cc (c, no_tt);
    no_frame = λ c t k. elim k [ inl p ↦ cc (p, no_perm) | inr p ↦ cc (p, no_af) ];
    closed = λ c. cc (c, no_perm);
    no_flag = λ c. cc (c, no_af);
  }

  module _ (tree : IsTree place s) (at_root : place root ≡ some (3, r)) (small : va < 2 ^ 48)
      (reads : descend 3 root va s ≡ page old) where
    reads_old : read_user_page root va s ≡ old
    reads_old = read_user_page-descend place s tree root r va at_root ∙ ap page_entry reads

    open_page-Answers :
        (region : TaskRegion)
        → in_class d dfsc_af_first ≡ false
        → IsIn region regions
        → covers va region ≡ true
        → (is_growable region ≡ false → Declined s)
        → Answers (open_page root va zero_page region s)
    unfolding open_page
    open_page-Answers region class listed c otherwise =
        let has = HasRegion-covers regions va region listed c in
        elim (Bool-cases (region.kind == region_stack)) [
          | inl k ↦
              let e : region.kind ≡ region_stack = ground (arith, k) in
              let found = subst (λ (k : ℕ). HasRegion regions k va) e has in
              rw k (
                repaired-Answers (bit_or va flags_user_rwx) (λ s' place' m. grow class found m)
                  (map_user_frame root va va flags_user_rwx s)
                  (map_user_frame-MapsPage place s root r va va flags_user_rwx old tree at_root
                    small reads))
          | inr k ↦ elim (Bool-cases (region.kind == region_demand)) [
            | inl k' ↦
                let e : region.kind ≡ region_demand = ground (arith, k') in
                let found = subst (λ (k : ℕ). HasRegion regions k va) e has in
                rw (k, k')
                  (repaired-Answers (bit_or zero_page flags_user_cow)
                    (λ s' place' m. demand class found m)
                    (map_user_frame root va zero_page flags_user_cow s)
                    (map_user_frame-MapsPage place s root r va zero_page flags_user_cow old tree
                      at_root small reads))
            | inr k' ↦ rw (k, k') (otherwise (ground (arith, k, k')))
          ]
        ]

    on_translation-step :
        in_class d dfsc_af_first ≡ false
        → in_class d dfsc_perm_first ≡ false
        → (o : Option TaskRegion) → find_region (λ x. is_growable x && covers va x) regions ≡ o
        → Answers (open_in root va zero_page s o)
    on_translation-step class class' none h = record {
      same = λ x j. refl;
      no_region = λ c k. no_growable regions va k h;
      no_frame = λ c t k. elim k [ inl p ↦ cc (p, class') | inr p ↦ cc (p, class) ];
      closed = λ c. cc (c, class');
      no_flag = λ c. cc (c, class);
    }
    on_translation-step class class' (some region) h =
        let (listed, ok) = find_region-some (λ x. is_growable x && covers va x) regions region h in
        let growable : is_growable region ≡ true = ground (arith, ok) in
        open_page-Answers region class listed (ground (arith, ok)) (λ out. cc (growable, out))

    on_translation-Answers :
        in_class d dfsc_af_first ≡ false
        → in_class d dfsc_perm_first ≡ false
        → Answers (on_translation root va zero_page regions s)
    unfolding on_translation
    on_translation-Answers class class' =
        on_translation-step class class' (find_region (λ x. is_growable x && covers va x) regions)
          refl

    permission-Declined :
        in_class d dfsc_af_first ≡ false
        → in_class d dfsc_tt_first ≡ false
        → is_cow old ≡ false
        → ((x : TaskRegion) → find_region (covers va) regions ≡ some x → is_growable x ≡ false)
        → Declined s
    permission-Declined class class' untagged closed = record {
      same = λ x j. refl;
      no_region = λ c. cc (c, class');
      no_frame = λ c t. cc (t, untagged);
      closed = λ c t. closed;
      no_flag = λ c. cc (c, class);
    }

    on_permission-step :
        in_class d dfsc_af_first ≡ false
        → in_class d dfsc_tt_first ≡ false
        → is_cow old ≡ false
        → (o : Option TaskRegion) → find_region (covers va) regions ≡ o
        → Answers (open_in root va zero_page s o)
    on_permission-step class class' untagged none h =
        permission-Declined class class' untagged (λ x e. cc (h, e))
    on_permission-step class class' untagged (some region) h =
        let (listed, ok) = find_region-some (covers va) regions region h in
        open_page-Answers region class listed ok (λ out.
          permission-Declined class class' untagged (λ x e.
            let found : some region ≡ some x = sym h ∙ e in
            let same : region ≡ x = cc found in ap is_growable (sym same) ∙ out))

    cow_split-Answers :
        in_class d dfsc_tt_first ≡ false
        → is_cow old ≡ true
        → Answers (some (cow_split root va old s))
    cow_split-Answers class tagged =
        let valid : is_valid old ≡ true = ground (arith, tagged) in
        split-Answered class tagged ((cow_split root va old s).0) ((cow_split root va old s).1)
          (cow_split-Splits place s root r va old tree at_root small reads valid)

    on_permission-Answers :
        in_class d dfsc_af_first ≡ false
        → in_class d dfsc_tt_first ≡ false
        → Answers (on_permission root va zero_page regions s)
    unfolding on_permission
    on_permission-Answers class class' = elim (Bool-cases (is_cow old)) [
      | inl t ↦ rw (reads_old, t) (cow_split-Answers class' t)
      | inr t ↦
          rw (reads_old, t)
            (on_permission-step class class' t (find_region (covers va) regions) refl)
    ]

    on_access_flag-Answers :
        in_class d dfsc_af_first ≡ true
        → in_class d dfsc_tt_first ≡ false
        → in_class d dfsc_perm_first ≡ false
        → Answers (on_access_flag root va s)
    unfolding on_access_flag
    on_access_flag-Answers class class' denied = elim (Bool-cases (is_cow old)) [
      | inl t ↦ rw (reads_old, t) (cow_split-Answers class' t)
      | inr t ↦ elim (Bool-cases (needs_af old)) [
        | inl n ↦
            let valid : is_valid old ≡ true = ground (arith, n) in
            let (place', m) =
              write_user_page-IsMapped place s root r va (bit_or old desc_af) old tree at_root small
                reads valid in
            rw (reads_old, t, n) (place', accessed class n m)
        | inr n ↦
            rw (reads_old, t, n)
              (record {
                same = λ x j. refl;
                no_region = λ c. cc (c, class');
                no_frame = λ c g. cc (g, t);
                closed = λ c. cc (c, denied);
                no_flag = λ c u. n;
              })
      ]
    ]

-- For a tree of tables, a root other than 0, a fault address below 2^48 and a page of it that no block
-- covers, which reads as `old`: `resolve_user_fault` panics for lack of frames with fewer than three
-- free; or it repairs the page, and no other of any root, in one of four ways: a stack region of the
-- task that has the page maps it to itself, a demand region maps it to the zero page, a tagged page is
-- split, the access flag is set; or it declines, and then no word has changed, and there was no region,
-- no tagged page with a frame free, and no flag to set for the class of the fault.
pub resolve_user_fault-Answers :
    (place : Places) (s : Memory) (far esr root r zero_page old : ℕ) (regions : List TaskRegion)
    → IsTree place s
    → place root ≡ some (3, r)
    → root ≢ 0
    → far < 2 ^ 48
    → descend 3 root (far / page_size * page_size) s ≡ page old
    → Answers place s root r
        (far / page_size * page_size)
        old
        zero_page
        (esr % 2 ^ 6)
        regions
        (resolve_user_fault far esr root zero_page regions s)
unfolding resolve_user_fault in_class
resolve_user_fault-Answers place s far esr root r zero_page old regions tree at_root some_root small
      reads =
    let va = far / page_size * page_size in
    let d = esr % 2 ^ 6 in
    let task : (root == 0) ≡ false = ground (arith, some_root) in
    let below : va < 2 ^ 48 = omega (arith, small) in
    elim (Bool-cases (in_class d dfsc_tt_first)) [
      | inl tt_class ↦
          let no_perm : in_class d dfsc_perm_first ≡ false = ground (arith, tt_class) in
          let no_af : in_class d dfsc_af_first ≡ false = ground (arith, tt_class) in
          rw (task, tt_class)
            (on_translation-Answers place s root r va old zero_page d regions tree at_root below
              reads no_af no_perm)
      | inr no_tt ↦ elim (Bool-cases (in_class d dfsc_perm_first)) [
        | inl perm ↦
            let no_af : in_class d dfsc_af_first ≡ false = ground (arith, perm) in
            rw (task, no_tt, perm)
              (on_permission-Answers place s root r va old zero_page d regions tree at_root below
                reads no_af no_tt)
        | inr no_perm ↦ elim (Bool-cases (in_class d dfsc_af_first)) [
          | inl af ↦
              rw (task, no_tt, no_perm, af)
                (on_access_flag-Answers place s root r va old zero_page d regions tree at_root below
                  reads af no_tt no_perm)
          | inr no_af ↦
              rw (task, no_tt, no_perm, no_af)
                (other-Declined place s root r va old zero_page d regions no_tt no_perm no_af)
        ]
      ]
    ]
