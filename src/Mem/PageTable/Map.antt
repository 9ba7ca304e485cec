-- ===== src/Mem/PageTable/Map.antt =====
-- What `map_user_frame` and `write_user_page` in kernel/src/mem/page_table.rs map, for all tasks.
use Prim.Native.Nat.{bit_or}
use native.Mathlib.Decide.{ℕ_discrete}
use tanix.Mem.PageTable.{
  Memory, set_entry, is_valid, has_table_bit, address_of, ◌>>=◌, ensure_table, map_user_frame,
  read_user_page,
}
use tanix.Mem.PageTable.Ensure.{Ensures, ensure_table-Ensures}
use tanix.Mem.PageTable.Opened.{Ensured}
use tanix.Mem.PageTable.Tree.{
  page, page_entry, same_place, same_walk, descend_along, no_block, Places, IsTree, index, prefix,
  descend, index_small, prefix_step, page_of_prefix, read_user_page-descend,
}
use tanix.Prelude.{
  ℕ, zero, suc, ◌/◌, ◌^◌, ◌<◌, ◌≡◌, ◌≢◌, ◌⊎◌, inl, inr, sym, ap, ◌∙◌, true, Option, none, some,
  arith,
}

-- A write into a last table, `t`.
module _ (place : Places) (s : Memory) (tree : IsTree place s) (t q i val : ℕ)
    (at_t : place t ≡ some (0, q)) where
  written-other : (x j : ℕ) → (x ≢ t) ⊎ (j ≢ i) → (set_entry t i val s).word x j ≡ s.word x j
  unfolding set_entry
  written-other x j ne = ground (arith, ne)

  written-at : (set_entry t i val s).word t i ≡ val
  unfolding set_entry
  written-at = ground arith

  written-upper :
      (x k q' j : ℕ) → place x ≡ some (suc k, q') → (set_entry t i val s).word x j ≡ s.word x j
  written-upper x k q' j e =
      written-other x j (inl (λ m. absurd (omega (arith, (same_place place e at_t m).0))))

  written-IsTree : IsTree place (set_entry t i val s)
  unfolding set_entry
  written-IsTree = record {
    aligned = tree.aligned;
    linked = λ x k q' j e lt. rw (written-upper x k q' j e) (tree.linked x k q' j e lt);
    upper = λ x k q' j e lt. rw (written-upper x (suc k) q' j e) (tree.upper x k q' j e lt);
    unused = tree.unused;
    valid = tree.valid;
    in_reach = tree.in_reach;
  }

  -- A walk that ends in another entry.
  written-descend :
      (r k x va : ℕ)
      → place x ≡ some (k, prefix r k va)
      → (q ≢ prefix r 0 va) ⊎ (index 0 va ≢ i)
      → descend k x va (set_entry t i val s) ≡ descend k x va s
  unfolding descend
  written-descend r zero x va e off = elim (ℕ_discrete x t) [
    | no m ↦ ap page (written-other x (index 0 va) (inl m))
    | yes m ↦ ap page (
        written-other x (index 0 va)
          (inr (λ j. elim off [ inl p ↦ p (sym ((same_place place e at_t m).1)) | inr p ↦ p j ])))
  ]
  written-descend r (suc k) x va e off =
      same_walk (set_entry t i val s) s k x va
        (written-upper x k (prefix r (suc k) va) (index (suc k) va) e)
        (λ v b.
          written-descend r k (address_of (s.word x (index (suc k) va))) va
            (tree.linked x k (prefix r (suc k) va) (index (suc k) va) e (index_small (suc k) va) v b
              ∙ ap (λ (p : ℕ). some (k, p))
                  (prefix_step r k va ((tree.aligned x (suc k) (prefix r (suc k) va) e).2)))
            off)

-- What mapping a page of the root `r` leaves: a tree in which the page reads as `val`, and every other
-- page of that root or of another one, and every block, reads as before.
pub record Mapped (place : Places) (s : Memory) (r d t va val : ℕ) (s' : Memory) (place' : Places)
    : Type 0 where
  pub tree : IsTree place' s'
  pub extends : (x : ℕ) (p : ℕ × ℕ) → place x ≡ some p → place' x ≡ some p
  pub maps : descend d t va s' ≡ page val
  pub others :
      (r' k x va' : ℕ)
      → place x ≡ some (k, prefix r' k va')
      → va' < 2 ^ 48
      → (r' ≢ r) ⊎ (va' / 4096 ≢ va / 4096)
      → descend k x va' s' ≡ descend k x va' s
  pub keeps :
      (x k q j : ℕ)
      → place x ≡ some (suc k, q)
      → is_valid (s.word x j) ≡ true
      → s'.word x j ≡ s.word x j

-- Fewer frames are free than tables may be missing, or the page is mapped.
abbrev pub Maps : Places → Memory → (r d t va val : ℕ) → Option Memory → Type 0
Maps place s r d t va val none = s.frames.free_frames < d
Maps place s r d t va val (some s') = (place' : Places) × Mapped place s r d t va val s' place'

-- The loop over the levels that `map_user_frame` writes out.
unfoldable pub install : (d t va val : ℕ) → Memory → Option Memory
install zero t va val s = some (set_entry t (index zero va) val s)
install (suc d) t va val s = ensure_table t (index (suc d) va) s >>= λ r. install d r.0 va val r.1

module _ (r va val : ℕ) (va_small : va < 2 ^ 48) where
  written-Mapped :
      (place : Places) (s : Memory) (tree : IsTree place s) (t : ℕ)
      (at_t : place t ≡ some (0, prefix r 0 va))
      → Mapped place s r 0 t va val (set_entry t (index 0 va) val s) place
  unfolding descend
  written-Mapped place s tree t at_t = record {
    tree = written-IsTree place s tree t (prefix r 0 va) (index 0 va) val at_t;
    extends = λ x p e. e;
    maps = ap page (written-at place s tree t (prefix r 0 va) (index 0 va) val at_t);
    others = λ r' k x va' e small off.
        written-descend place s tree t (prefix r 0 va) (index 0 va) val at_t r' k x va' e
          (elim (ℕ_discrete (prefix r 0 va) (prefix r' 0 va')) [
            | no m ↦ inl m
            | yes m ↦ inr (λ j.
                let (root, here) = page_of_prefix r' r va' va small va_small (sym m) j in
                elim off [ inl p ↦ absurd (p root) | inr p ↦ absurd (p here) ])
          ]);
    keeps =
        λ x k q j e v. written-upper place s tree t (prefix r 0 va) (index 0 va) val at_t x k q j e;
  }

  -- A level more: `c` is the table that entry of `t` leads to.
  Mapped-above :
      (place : Places) (s : Memory) (d t c : ℕ) (s1 : Memory) (place1 : Places) (s' : Memory)
      (place' : Places)
      → place t ≡ some (suc d, prefix r (suc d) va)
      → Ensured place s t d (prefix r (suc d) va) (index (suc d) va) c s1 place1
      → Mapped place1 s1 r d c va val s' place'
      → Mapped place s r (suc d) t va val s' place'
  Mapped-above place s d t c s1 place1 s' place' at_t e m =
      let (v, b, a) = e.points in
      let i = index (suc d) va in
      let same : s'.word t i ≡ s1.word t i =
        m.keeps t d (prefix r (suc d) va) i (e.extends t _ at_t) v in
      record {
        tree = m.tree;
        extends = λ x p h. m.extends x p (e.extends x p h);
        maps =
            descend_along s' d t va c (ap is_valid same ∙ v) (ap has_table_bit same ∙ b)
              (ap address_of same ∙ a)
            ∙ m.maps;
        others = λ r' k x va' h small off.
            m.others r' k x va' (e.extends x _ h) small off ∙ e.grows.reads r' k x va' h;
        keeps = λ x k q j h w.
            let kept = e.grows.keeps x k q j h w in
            m.keeps x k q j (e.extends x _ h) (ap is_valid kept ∙ w) ∙ kept;
      }

  Maps-above :
      (place : Places) (s : Memory) (d t c : ℕ) (s1 : Memory) (place1 : Places)
      → place t ≡ some (suc d, prefix r (suc d) va)
      → Ensured place s t d (prefix r (suc d) va) (index (suc d) va) c s1 place1
      → (o : Option Memory) → Maps place1 s1 r d c va val o
      → Maps place s r (suc d) t va val o
  Maps-above place s d t c s1 place1 at_t e none h = omega (arith, h, e.frames_left)
  Maps-above place s d t c s1 place1 at_t e (some s') (place', m) =
      (place', Mapped-above place s d t c s1 place1 s' place' at_t e m)

  install-step :
      (place : Places) (s : Memory) (d t : ℕ)
      → place t ≡ some (suc d, prefix r (suc d) va)
      → ((c : ℕ) (s1 : Memory) (place1 : Places)
          → Ensured place s t d (prefix r (suc d) va) (index (suc d) va) c s1 place1
          → Maps place1 s1 r d c va val (install d c va val s1))
      → (o : Option (ℕ × Memory)) → Ensures place s t d (prefix r (suc d) va) (index (suc d) va) o
      → Maps place s r (suc d) t va val (o >>= λ x. install d x.0 va val x.1)
  install-step place s d t at_t ih none h = omega (arith, h)
  install-step place s d t at_t ih (some (c, s1)) (place1, e) =
      Maps-above place s d t c s1 place1 at_t e (install d c va val s1) (ih c s1 place1 e)

  pub install-Maps :
      (d : ℕ) (place : Places) (s : Memory) (t old : ℕ)
      → IsTree place s
      → place t ≡ some (d, prefix r d va)
      → descend d t va s ≡ page old
      → Maps place s r d t va val (install d t va val s)
  unfolding install
  install-Maps zero place s t old tree at_t uncovered = (place, written-Mapped place s tree t at_t)
  install-Maps (suc d) place s t old tree at_t uncovered =
      let top = (tree.aligned t (suc d) (prefix r (suc d) va) at_t).2 in
      install-step place s d t at_t
        (λ c s1 place1 e.
          let (v, b, a) = e.points in
          install-Maps d place1 s1 c old e.tree
            (e.stands ∙ ap (λ (p : ℕ). some (d, p)) (prefix_step r d va top))
            (sym (descend_along s1 d t va c v b a)
              ∙ (e.grows.reads r (suc d) t va at_t ∙ uncovered)))
        (ensure_table t (index (suc d) va) s)
        (ensure_table-Ensures place s tree t d (prefix r (suc d) va) (index (suc d) va) at_t
          (index_small (suc d) va) (no_block s d t va old uncovered))

-- What the tasks see of a page that is mapped: `root` reads it as `val`, and nothing else has changed.
pub record IsMapped (place : Places) (s : Memory) (root r va val : ℕ) (s' : Memory)
    (place' : Places) : Type 0 where
  pub tree : IsTree place' s'
  pub stays : (root' r' : ℕ) → place root' ≡ some (3, r') → place' root' ≡ some (3, r')
  pub reads : read_user_page root va s' ≡ val
  pub others :
      (root' r' va' : ℕ)
      → place root' ≡ some (3, r')
      → va' < 2 ^ 48
      → (r' ≢ r) ⊎ (va' / 4096 ≢ va / 4096)
      → read_user_page root' va' s' ≡ read_user_page root' va' s

abbrev pub MapsPage : Places → Memory → (root r va val : ℕ) → Option Memory → Type 0
MapsPage place s root r va val none = s.frames.free_frames < 3
MapsPage place s root r va val (some s') =
    (place' : Places) × IsMapped place s root r va val s' place'

module _ (place : Places) (s : Memory) (tree : IsTree place s) (root r va val : ℕ)
    (va_small : va < 2 ^ 48) (at_root : place root ≡ some (3, r)) where
  pub Maps-MapsPage :
      (o : Option Memory) → Maps place s r 3 root va val o → MapsPage place s root r va val o
  Maps-MapsPage none h = h
  Maps-MapsPage (some s') (place', m) = (
    place',
    record {
      tree = m.tree;
      stays = λ root' r' e. m.extends root' (3, r') e;
      reads =
          read_user_page-descend place' s' m.tree root r va (m.extends root (3, r) at_root)
          ∙ ap page_entry m.maps;
      others = λ root' r' va' e small off.
          read_user_page-descend place' s' m.tree root' r' va' (m.extends root' (3, r') e)
          ∙ (ap page_entry (m.others r' 3 root' va' e small off)
              ∙ sym (read_user_page-descend place s tree root' r' va' e));
    },
  )

-- In a tree of tables, for a page below 2^48 of the root `root` that no block covers: `map_user_frame`
-- runs out of frames, with fewer than three of them free, or the page reads as the address with the
-- flags, every other page of this and of every other root reads as before, and the tables are a tree.
pub map_user_frame-MapsPage :
    (place : Places) (s : Memory) (root r va pa flags old : ℕ)
    → IsTree place s
    → place root ≡ some (3, r)
    → va < 2 ^ 48
    → descend 3 root va s ≡ page old
    → MapsPage place s root r va (bit_or pa flags) (map_user_frame root va pa flags s)
unfolding map_user_frame install
map_user_frame-MapsPage place s root r va pa flags old tree at_root small uncovered =
    Maps-MapsPage place s tree root r va (bit_or pa flags) small at_root
      (map_user_frame root va pa flags s)
      (install-Maps r va (bit_or pa flags) small 3 place s root old tree at_root uncovered)
