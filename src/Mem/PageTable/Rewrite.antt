-- ===== src/Mem/PageTable/Rewrite.antt =====
-- Where a page has a table, `write_user_page` in kernel/src/mem/page_table.rs maps it without a frame.
use mathlib.Core.Path.{subst}
use tanix.Mem.PageTable.{
  Memory, set_entry, is_valid, has_table_bit, address_of, ensure_table, write_user_page,
}
use tanix.Mem.PageTable.Map.{Maps, MapsPage, install, install-Maps, Maps-MapsPage}
use tanix.Mem.PageTable.Tree.{Places, IsTree, page, block, index, descend}
use tanix.Prelude.{
  ℕ, zero, suc, ◌^◌, ◌<◌, ◌≡◌, refl, true, Option, some, arith, Bool-cases, inl, inr,
}

-- The walk of `write_user_page`.
unfoldable pub overwrite : (d t va val : ℕ) → Memory → Memory
overwrite zero t va val s = set_entry t (index zero va) val s
overwrite (suc d) t va val s = overwrite d (address_of (s.word t (index (suc d) va))) va val s

-- A walk that ends at a valid descriptor finds every table.
pub valid_above :
    (s : Memory) (d t va e : ℕ)
    → descend (suc d) t va s ≡ page e
    → is_valid e ≡ true
    → (is_valid (s.word t (index (suc d) va)) ≡ true)
      × (descend d (address_of (s.word t (index (suc d) va))) va s ≡ page e)
unfolding descend
valid_above s d t va e h v =
    let w = s.word t (index (suc d) va) in
    elim (Bool-cases (is_valid w)) [
      | inr out ↦
          let missing : page 0 ≡ page e = (rw out at h) in
          let e_zero : 0 ≡ e = cc missing in absurd (ground (arith, e_zero, v))
      | inl ok ↦ elim (Bool-cases (has_table_bit w)) [
        | inr out ↦ let never : block w ≡ page e = (rw (ok, out) at h) in cc never
        | inl b ↦ (ok, (rw (ok, b) at h))
      ]
    ]

install-overwrite :
    (d : ℕ) (s : Memory) (t va val e : ℕ)
    → descend d t va s ≡ page e
    → is_valid e ≡ true
    → install d t va val s ≡ some (overwrite d t va val s)
unfolding install overwrite ensure_table
install-overwrite zero s t va val e h v = refl
install-overwrite (suc d) s t va val e h v =
    let (ok, below) = valid_above s d t va e h v in
    rw ok (install-overwrite d s (address_of (s.word t (index (suc d) va))) va val e below v)

-- In a tree of tables, for a page below 2^48 of the root `root` with a valid descriptor:
-- `write_user_page` gives the page the new descriptor, every other page of this and of every other root
-- reads as before, and the tables are a tree.
pub write_user_page-IsMapped :
    (place : Places) (s : Memory) (root r va val e : ℕ)
    → IsTree place s
    → place root ≡ some (3, r)
    → va < 2 ^ 48
    → descend 3 root va s ≡ page e
    → is_valid e ≡ true
    → MapsPage place s root r va val (some (write_user_page root va val s))
unfolding write_user_page overwrite
write_user_page-IsMapped place s root r va val e tree at_root small h v =
    Maps-MapsPage place s tree root r va val small at_root (some (write_user_page root va val s)) (
      subst (λ (o : Option Memory). Maps place s r 3 root va val o)
        (install-overwrite 3 s root va val e h v)
        (install-Maps r va val small 3 place s root e tree at_root h))
