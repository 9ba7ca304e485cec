-- ===== src/Mem/PageTable/Tests.antt =====
-- A run of `map_user_frame` of kernel/src/mem/page_table.rs on a root without entries and three free
-- frames, and the theorem at that input.
use native.Mathlib.Decide.{ℕ_discrete}
use tanix.Mem.Frame.{FrameAllocator, is_free}
use tanix.Mem.Frame.Invariant.{IsValid}
use tanix.Mem.Frame.Words.{Word}
use tanix.Mem.PageTable.{Memory, flags_user_rwx, map_user_frame}
use tanix.Mem.PageTable.Map.{MapsPage, map_user_frame-MapsPage}
use tanix.Mem.PageTable.Tree.{some_pair, Places, IsTree, descend}
use tanix.Prelude.{
  ℕ, ◌+◌, ◌*◌, ◌≡◌, refl, sym, true, false, Option, some, none, [], ◌∷◌, ◌==◌, if◌then◌else◌, arith,
  replicate, ap, ◌∙◌,
}
use tanix.Prelude.Count.{count_below}

-- Six frames, of which the first, with the root, and the next two are taken.
abbrev word : Word
word = false ∷ false ∷ false ∷ replicate 61 true

abbrev six : FrameAllocator
six = record {
  ram_start = 0x4000_0000;
  ram_size = 0x6000;
  total_frames = 6;
  bitmap = word ∷ [];
  free_frames = 3;
}

six-IsValid : IsValid six
unfolding count_below
six-IsValid = record {
  width = (refl, tt);
  covers = omega arith;
  aligned = refl;
  whole = refl;
  in_space = omega arith;
  counted = refl;
}

abbrev blank : Memory
blank = record { frames = six; word = λ t i. 0 }

abbrev only_root : Places
only_root x = if x == 0x4000_0000 then some (3, 0) else none

only_root-some : (x d q : ℕ) → only_root x ≡ some (d, q) → (x ≡ 0x4000_0000) × (d ≡ 3)
only_root-some x d q e = elim (ℕ_discrete x 0x4000_0000) [
  | yes m ↦
      let on : (x == 0x4000_0000) ≡ true = ground (arith, m) in
      let there : ◌≡◌ {A = Option (ℕ × ℕ)} (some (3, 0)) (some (d, q)) = (rw on at e) in
      (m, sym ((some_pair there).0))
  | no m ↦
      let off : (x == 0x4000_0000) ≡ false = ground (arith, m) in
      let nowhere : none ≡ some (d, q) = (rw off at e) in cc nowhere
]

blank-IsTree : IsTree only_root blank
blank-IsTree = record {
  aligned = λ t d q e.
      let (at, depth) = only_root-some t d q e in
      (omega (arith, at), omega (arith, at), omega (arith, depth));
  linked = λ t d q i e lt v. cc v;
  upper = λ t d q i e lt v. cc v;
  unused = λ idx lt free. elim (ℕ_discrete idx 0) [
    | yes m ↦ let root_free : is_free six 0 ≡ true = ap (is_free six) (sym m) ∙ free in cc root_free
    | no m ↦
        let off : (0x4000_0000 + idx * 4096 == 0x4000_0000) ≡ false = ground (arith, m) in
        rw off refl
  ];
  valid = six-IsValid;
  in_reach = omega arith;
}

map_user_frame-MapsPage_example :
    MapsPage only_root blank 0x4000_0000 0 0x8000_1000
      (0x4000_5000 + 1859)
      (map_user_frame 0x4000_0000 0x8000_1000 0x4000_5000 flags_user_rwx blank)
unfolding descend
map_user_frame-MapsPage_example =
    map_user_frame-MapsPage only_root blank 0x4000_0000 0 0x8000_1000 0x4000_5000 flags_user_rwx 0
      blank-IsTree refl (omega arith) refl
