-- ===== src/Mem/Fault/Split.antt =====
-- The copy on write of kernel/src/mem/vm_fault.rs: what `cow_split` leaves of the tables and frames.
use Prim.Native.Nat.{bit_or}
use tanix.Mem.Fault.{copy_frame, cow_split}
use tanix.Mem.Frame.{is_free, set_used}
use tanix.Mem.Frame.Alloc.{Allocated, alloc-cases}
use tanix.Mem.PageTable.{
  Memory, set_entry, is_valid, address_of, flags_user_rwx, read_user_page, write_user_page,
}
use tanix.Mem.PageTable.Map.{IsMapped}
use tanix.Mem.PageTable.Rewrite.{overwrite, valid_above, write_user_page-IsMapped}
use tanix.Mem.PageTable.Tree.{
  page, page_entry, same_walk, Places, IsTree, index, prefix, descend, index_small, prefix_step,
  read_user_page-descend, no_block,
}
use tanix.Prelude.{
  ℕ, zero, suc, ◌+◌, ◌*◌, ◌^◌, ◌<◌, ◌≡◌, ◌≢◌, refl, sym, ap, ◌∙◌, Bool, true, false, none, some,
  ◌==◌, arith, inl, inr,
}

-- A frame that is no table is taken and written, and no other word changes.
module _ (place : Places) (s s' : Memory) (tree : IsTree place s)
    (same : (x j : ℕ) (p : ℕ × ℕ) → place x ≡ some p → s'.word x j ≡ s.word x j) where
  spare-descend :
      (r k x va : ℕ) → place x ≡ some (k, prefix r k va) → descend k x va s' ≡ descend k x va s
  unfolding descend
  spare-descend r zero x va e = ap page (same x (index zero va) _ e)
  spare-descend r (suc k) x va e = same_walk s' s k x va (same x (index (suc k) va) _ e) (λ v b.
      spare-descend r k (address_of (s.word x (index (suc k) va))) va (
        tree.linked x k (prefix r (suc k) va) (index (suc k) va) e (index_small (suc k) va) v b
        ∙ ap (λ (p : ℕ). some (k, p))
            (prefix_step r k va ((tree.aligned x (suc k) (prefix r (suc k) va) e).2))))

  module _ (idx : ℕ) (a : Allocated s.frames idx s'.frames) where
    spare-IsTree : IsTree place s'
    spare-IsTree = record {
      aligned = tree.aligned;
      linked = λ x k q j e lt. rw (same x j _ e) (tree.linked x k q j e lt);
      upper = λ x k q j e lt. rw (same x j _ e) (tree.upper x k q j e lt);
      unused = λ j lt free.
          let e = a.bits j in
          let was : is_free s.frames j ≡ true = ground (arith, e, free) in
          ap (λ (n : ℕ). place (n + j * 4096)) a.window.start
          ∙ tree.unused j (omega (arith, lt, a.window.total)) was;
      valid = a.valid;
      in_reach = omega (arith, a.window.start, a.window.size, tree.in_reach);
    }

    spare-read_user_page :
        (root r va : ℕ)
        → place root ≡ some (3, r)
        → read_user_page root va s' ≡ read_user_page root va s
    spare-read_user_page root r va e =
        read_user_page-descend place s' spare-IsTree root r va e
        ∙ (ap page_entry (spare-descend r 3 root va e)
            ∙ sym (read_user_page-descend place s tree root r va e))

-- Only a table is written.
overwrite-other :
    (place : Places) (s : Memory)
    → IsTree place s
    → (d t r va val e x j : ℕ) → place t ≡ some (d, prefix r d va)
    → descend d t va s ≡ page e
    → is_valid e ≡ true
    → place x ≡ none
    → (overwrite d t va val s).word x j ≡ s.word x j
unfolding overwrite set_entry
overwrite-other place s tree zero t r va val e x j at_t h v off =
    let apart : x ≢ t = λ m. cc (m, at_t, off) in ground (arith, apart)
overwrite-other place s tree (suc d) t r va val e x j at_t h v off =
    let i = index (suc d) va in
    let (ok, below) = valid_above s d t va e h v in
    let b = no_block s d t va e h ok in
    overwrite-other place s tree d (address_of (s.word t i)) r va val e x j
      (tree.linked t d (prefix r (suc d) va) i at_t (index_small (suc d) va) ok b
        ∙ ap (λ (p : ℕ). some (d, p))
            (prefix_step r d va ((tree.aligned t (suc d) (prefix r (suc d) va) at_t).2)))
      below v off

-- After the split of page `va`, whose shared frame is `shared`: it has a frame of its own, once free,
-- with what the shared one holds; every other page of every root reads as before, and so do the words
-- of every other frame that holds no table.
pub record IsSplit (place : Places) (s : Memory) (root r va shared : ℕ) (s' : Memory)
    (place' : Places) : Type 0 where
  pub idx : ℕ
  pub taken : Allocated s.frames idx s'.frames
  pub mapped :
      IsMapped place s root r va (bit_or (s.frames.ram_start + idx * 4096) flags_user_rwx) s' place'
  pub copied : (j : ℕ) → s'.word (s.frames.ram_start + idx * 4096) j ≡ s.word shared j
  pub rest :
      (x j : ℕ) → place x ≡ none → x ≢ s.frames.ram_start + idx * 4096 → s'.word x j ≡ s.word x j

-- The split fails only when no frame is free, and then nothing has changed.
abbrev pub Splits : Places → Memory → (root r va shared : ℕ) → Bool → Memory → Type 0
Splits place s root r va shared false s' =
    (s.frames.free_frames ≡ 0) × ((x j : ℕ) → s'.word x j ≡ s.word x j) × (s'.frames ≡ s.frames)
Splits place s root r va shared true s' =
    (place' : Places) × IsSplit place s root r va shared s' place'

module _ (place : Places) (s : Memory) (tree : IsTree place s) (root r va e : ℕ)
    (at_root : place root ≡ some (3, r)) (small : va < 2 ^ 48)
    (reads : descend 3 root va s ≡ page e) (valid : is_valid e ≡ true) (idx : ℕ)
    (a : Allocated s.frames idx (set_used idx s.frames)) where
  abbrev own : ℕ
  own = s.frames.ram_start + idx * 4096

  abbrev copied_state : Memory
  copied_state = copy_frame (address_of e) own (record s { frames = set_used idx s.frames })

  own_unplaced : place own ≡ none
  own_unplaced = tree.unused idx a.in_window a.was_free

  copied_same : (x j : ℕ) (p : ℕ × ℕ) → place x ≡ some p → copied_state.word x j ≡ s.word x j
  unfolding copy_frame
  copied_same x j p h = let apart : x ≢ own = λ m. cc (m, h, own_unplaced) in ground (arith, apart)

  copied_frames : Allocated s.frames idx copied_state.frames
  unfolding copy_frame
  copied_frames = a

  copied-IsTree : IsTree place copied_state
  copied-IsTree = spare-IsTree place s copied_state tree copied_same idx copied_frames

  copied_reads : descend 3 root va copied_state ≡ page e
  copied_reads = spare-descend place s copied_state tree copied_same r 3 root va at_root ∙ reads

  abbrev split_state : Memory
  split_state = write_user_page root va (bit_or own flags_user_rwx) copied_state

  split-other : (x j : ℕ) → place x ≡ none → split_state.word x j ≡ copied_state.word x j
  unfolding write_user_page overwrite
  split-other x j off =
      overwrite-other place copied_state copied-IsTree 3 root r va (bit_or own flags_user_rwx) e x j
        at_root copied_reads valid off

  split_state-IsSplit :
      (place' : Places) × IsSplit place s root r va (address_of e) split_state place'
  unfolding copy_frame write_user_page set_entry
  split_state-IsSplit =
      let (place', m) =
        write_user_page-IsMapped place copied_state root r va (bit_or own flags_user_rwx) e
          copied-IsTree at_root small copied_reads valid in
      (
        place',
        record {
          idx = idx;
          taken = a;
          mapped = record {
            tree = m.tree;
            stays = m.stays;
            reads = m.reads;
            others = λ root' r' va' h lt off.
                m.others root' r' va' h lt off
                ∙ spare-read_user_page place s copied_state tree copied_same idx copied_frames root'
                    r' va' h;
          };
          copied = λ j.
              split-other own j own_unplaced
              ∙ (let on : (own == own) ≡ true = ground arith in rw on refl);
          rest = λ x j off apart.
              split-other x j off
              ∙ (let no_match : (x == own) ≡ false = ground (arith, apart) in rw no_match refl);
        },
      )

-- In a tree of tables, for a page below 2^48 of the root `root` whose descriptor `e` is valid:
-- `cow_split` fails, with the words and the frames as they were, exactly when no frame is free; or it
-- takes a free frame, copies the frame of `e` into it and maps the page to it with all rights, and
-- every other page of every root, and the words of every other frame that is no table, are as before.
pub cow_split-Splits :
    (place : Places) (s : Memory) (root r va e : ℕ)
    → IsTree place s
    → place root ≡ some (3, r)
    → va < 2 ^ 48
    → descend 3 root va s ≡ page e
    → is_valid e ≡ true
    → Splits place s root r va
        (address_of e)
        ((cow_split root va e s).0)
        ((cow_split root va e s).1)
unfolding cow_split
cow_split-Splits place s root r va e tree at_root small reads valid =
    elim (alloc-cases s.frames tree.valid) [
      | inl (same, spent) ↦ rw same (spent, λ x j. refl, refl)
      | inr (idx, same, a) ↦
          rw same (split_state-IsSplit place s tree root r va e at_root small reads valid idx a)
    ]
