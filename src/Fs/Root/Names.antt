-- ===== src/Fs/Root/Names.antt =====
-- The names that `short_name` of servers/libtanix-fs/src/lib.rs makes.
use mathlib.Core.Path.{subst}
use tanix.Bytes.{Bytes, at, copy_at, eq_bytes}
use tanix.Bytes.Copy.{length-copy_at}
use tanix.Fs.Root.{
  ShortName, new_entry, is_empty, matches, is_base, is_base_byte, to_ascii_uppercase, with_base,
  split_at, last_dot, short_name,
}
use tanix.Prelude.{
  ℕ, ◌+◌, ◌<◌, ◌≤◌, ◌≡◌, refl, sym, ◌∙◌, true, false, not, ◌||◌, Option, none, some, [], ◌∷◌, arith,
  ltb, ◌==◌, length, map, set, take, drop, replicate, get_or-set_ne, get_or-set_self, length-set,
  Bool-cases, inl, inr, ==_iff,
}

-- A name of 11 bytes whose first byte neither ends the directory nor marks an entry as deleted.
pub record IsName (name : ShortName) : Type 0 where
  pub len : length name ≡ 11
  pub starts : (at name 0 == 0) ≡ false
  pub stays : (at name 0 == 0xE5) ≡ false

eq_bytes_refl : (a : Bytes) → eq_bytes a a ≡ true
unfolding eq_bytes
eq_bytes_refl [] = refl
eq_bytes_refl (x ∷ a) = rw ((==_iff x x).1 refl, eq_bytes_refl a) refl

pub is_empty-new_entry : (name : ShortName) → IsName name → is_empty (new_entry name) ≡ false
is_empty-new_entry name n = n.starts

pub matches-new_entry : (name : ShortName) → IsName name → matches name (new_entry name) ≡ true
matches-new_entry name n = rw (n.stays, eq_bytes_refl name) refl

at-copy_at_before :
    (b : Bytes) (i off : ℕ) (src : Bytes) → i < off → at (copy_at b off src) i ≡ at b i
unfolding copy_at
at-copy_at_before b i off [] h = refl
at-copy_at_before b i off (x ∷ src) h =
    at-copy_at_before (set b off x) i (off + 1) src (omega arith)
    ∙ get_or-set_ne b off i x 0 (λ e. absurd (omega (arith, e, h)))

upper_base :
    (b : ℕ) → is_base_byte b ≡ true → (1 ≤ to_ascii_uppercase b) × (to_ascii_uppercase b < 0xE5)
upper_base b h = (ground (arith, h), ground (arith, h))

first_base : (b : ℕ) (base : Bytes) → is_base (b ∷ base) ≡ true → is_base_byte b ≡ true
first_base b base h = elim (Bool-cases (is_base_byte b)) [
  | inl e ↦ e
  | inr e ↦ let bad : false ≡ true = sym (rw e refl) ∙ h in absurd cc
]

-- The base over an extension: its first byte is one of a base, or that of `out`.
copy_at-IsName :
    (base out : Bytes)
    → is_base base ≡ true
    → IsName out
    → IsName (copy_at out 0 (map to_ascii_uppercase base))
unfolding copy_at
copy_at-IsName [] out h n = n
copy_at-IsName (b ∷ base) out h n =
    let u = to_ascii_uppercase b in
    let first : at (copy_at (set out 0 u) 1 (map to_ascii_uppercase base)) 0 ≡ u =
      at-copy_at_before (set out 0 u) 0 1 (map to_ascii_uppercase base) (omega arith)
      ∙ get_or-set_self out 0 u 0 (omega (arith, n.len)) in
    let range = upper_base b (first_base b base h) in
    record {
      len =
          length-copy_at (set out 0 u) 1 (map to_ascii_uppercase base)
          ∙ (length-set out 0 u ∙ n.len);
      starts = rw first (ground (arith, range.0));
      stays = rw first (ground (arith, range.1));
    }

good_base :
    (base : Bytes) → (ltb 8 (length base) || not (is_base base)) ≡ false → is_base base ≡ true
good_base base h = elim (Bool-cases (is_base base)) [
  | inl e ↦ e
  | inr e ↦ elim (Bool-cases (ltb 8 (length base))) [
    | inl l ↦ let bad : true ≡ false = sym (rw l refl) ∙ h in absurd cc
    | inr l ↦ let bad : true ≡ false = sym (rw (l, e) refl) ∙ h in absurd cc
  ]
]

with_base-IsName :
    (base out : Bytes) (name : ShortName)
    → IsName out
    → with_base base out ≡ some name
    → IsName name
with_base-IsName base out name n e = elim (Bool-cases (ltb 8 (length base) || not (is_base base))) [
  | inl bad ↦ let fails : none ≡ some name = sym (rw bad refl) ∙ e in absurd cc
  | inr good ↦
      let gives : some (copy_at out 0 (map to_ascii_uppercase base)) ≡ some name =
        sym (rw good refl) ∙ e in
      let same : copy_at out 0 (map to_ascii_uppercase base) ≡ name = cc gives in
      subst IsName same (copy_at-IsName base out (good_base base good) n)
]

blanks-IsName : (ext : Bytes) → IsName (copy_at (replicate 11 32) 8 ext)
blanks-IsName ext =
    let first = at-copy_at_before (replicate 11 32) 0 8 ext (omega arith) in
    record {
      len = length-copy_at (replicate 11 32) 8 ext;
      starts = rw first refl;
      stays = rw first refl;
    }

split_at-IsName :
    (text : Bytes) (dot : Option ℕ) (name : ShortName) → split_at text dot ≡ some name → IsName name
unfolding copy_at
split_at-IsName text none name e = with_base-IsName text (replicate 11 32) name (blanks-IsName []) e
split_at-IsName text (some dot) name e =
    let ext = drop (dot + 1) text in
    elim (Bool-cases (ltb 3 (length ext))) [
      | inl bad ↦ let fails : none ≡ some name = sym (rw bad refl) ∙ e in absurd cc
      | inr good ↦
          with_base-IsName (take dot text)
            (copy_at (replicate 11 32) 8 (map to_ascii_uppercase ext)) name
            (blanks-IsName (map to_ascii_uppercase ext)) (sym (rw good refl) ∙ e)
    ]

-- Whatever the text, what `short_name` gives is a name of a live entry.
pub short_name-IsName :
    (text : Bytes) (name : ShortName) → short_name text ≡ some name → IsName name
unfolding short_name
short_name-IsName text name e = elim (Bool-cases (length text == 0 || ltb 12 (length text))) [
  | inl bad ↦ let fails : none ≡ some name = sym (rw bad refl) ∙ e in absurd cc
  | inr good ↦ split_at-IsName text (last_dot text) name (sym (rw good refl) ∙ e)
]
