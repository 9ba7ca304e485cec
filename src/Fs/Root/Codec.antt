-- ===== src/Fs/Root/Codec.antt =====
-- The 32 bytes of a directory entry of servers/libtanix-fs/src/lib.rs.
use mathlib.Core.List.{append-nil}
use tanix.Bytes.{Bytes, at, slice, copy_at}
use tanix.Bytes.Copy.{slice-eq-drop-take, take-copy_at, take-set, set_past, take_exact}
use tanix.Bytes.Split.{drop-append_past, take-append}
use tanix.Fs.Root.{DirEntry, fields, field16, encode, decode}
use tanix.Prelude.{
  ℕ, suc, ◌+◌, ◌-◌, ◌*◌, ◌/◌, ◌%◌, ◌^◌, ◌<◌, ◌≤◌, ◌≡◌, refl, sym, ap, ◌∙◌, [], ◌∷◌, ◌++◌, arith,
  length, length-append, length-take, set, take, drop,
}

-- Every field fits into its bytes.
pub record Fits (e : DirEntry) : Type 0 where
  pub name : length e.name ≡ 11
  pub crt_time : e.crt_time < 2 ^ 16
  pub crt_date : e.crt_date < 2 ^ 16
  pub last_acc_date : e.last_acc_date < 2 ^ 16
  pub hi_start : e.hi_start < 2 ^ 16
  pub wrt_time : e.wrt_time < 2 ^ 16
  pub wrt_date : e.wrt_date < 2 ^ 16
  pub start_cluster : e.start_cluster < 2 ^ 16
  pub size : e.size < 2 ^ 32

le16_whole : (v : ℕ) → v < 2 ^ 16 → v % 2 ^ 8 + v / 2 ^ 8 % 2 ^ 8 * 2 ^ 8 ≡ v
le16_whole v h = omega arith

le32_whole :
    (v : ℕ)
    → v < 2 ^ 32
    → v % 2 ^ 8
        + v / 2 ^ 8 % 2 ^ 8 * 2 ^ 8
        + (v / 2 ^ 16 % 2 ^ 8 + v / 2 ^ 16 / 2 ^ 8 % 2 ^ 8 * 2 ^ 8) * 2 ^ 16
      ≡ v
le32_whole v h = omega arith

at-append : (a b : Bytes) (i : ℕ) → at (a ++ b) (length a + i) ≡ at b i
at-append [] b i = let e : 0 + i ≡ i = omega arith in rw e refl
at-append (x ∷ a) b i =
    let e : suc (length a) + i ≡ suc (length a + i) = omega arith in rw e (at-append a b i)

module _ (e : DirEntry) (f : Fits e) where
  behind : (i : ℕ) → at (encode e) (11 + i) ≡ at (fields e) i
  unfolding encode
  behind i =
      let k : 11 + i ≡ length e.name + i = omega (arith, f.name) in
      ap (λ (n : ℕ). at (e.name ++ fields e) n) k ∙ at-append e.name (fields e) i

  field_of :
      (i v : ℕ)
      → at (fields e) i ≡ v % 2 ^ 8
      → at (fields e) (i + 1) ≡ v / 2 ^ 8 % 2 ^ 8
      → v < 2 ^ 16
      → field16 (encode e) (11 + i) ≡ v
  field_of i v lo hi h =
      let k : 11 + i + 1 ≡ 11 + (i + 1) = omega arith in
      rw (k, behind i, behind (i + 1), lo, hi) (le16_whole v h)

  size_of : field16 (encode e) 28 + field16 (encode e) 30 * 2 ^ 16 ≡ e.size
  size_of = rw (behind 17, behind 18, behind 19, behind 20) (le32_whole e.size f.size)

  name_of : slice (encode e) 0 11 ≡ e.name
  unfolding encode
  name_of =
      let z : 11 - length e.name ≡ 0 = omega (arith, f.name) in
      take-append 11 e.name (fields e)
      ∙ (ap (λ (k : ℕ). take 11 e.name ++ take k (fields e)) z
          ∙ (append-nil (take 11 e.name) ∙ take_exact 11 e.name (omega (arith, f.name))))

  -- What is written is read back, where every field fits.
  pub decode-encode : decode (encode e) ≡ e
  unfolding decode
  decode-encode = λ i. record {
    name = name_of i;
    attr = behind 0 i;
    nt_res = behind 1 i;
    crt_tenth = behind 2 i;
    crt_time = field_of 3 e.crt_time refl refl f.crt_time i;
    crt_date = field_of 5 e.crt_date refl refl f.crt_date i;
    last_acc_date = field_of 7 e.last_acc_date refl refl f.last_acc_date i;
    hi_start = field_of 9 e.hi_start refl refl f.hi_start i;
    wrt_time = field_of 11 e.wrt_time refl refl f.wrt_time i;
    wrt_date = field_of 13 e.wrt_date refl refl f.wrt_date i;
    start_cluster = field_of 15 e.start_cluster refl refl f.start_cluster i;
    size = size_of i;
  }

pub length-encode : (e : DirEntry) → length e.name ≡ 11 → length (encode e) ≡ 32
unfolding encode
length-encode e h = length-append e.name (fields e) ∙ omega (arith, h)

-- A slice of what is copied behind `off` bytes.
pub slice-copy_at :
    (b src : Bytes) (off : ℕ)
    → off + length src ≤ length b
    → slice (copy_at b off src) off (off + length src) ≡ src
slice-copy_at b src off h =
    slice-eq-drop-take (copy_at b off src) off (off + length src)
    ∙ (ap (λ (c : Bytes). drop off c) (take-copy_at b off src h)
        ∙ (drop-append_past off (take off b) src (omega (arith, length-take off b))
            ∙ let z : off - length (take off b) ≡ 0 = omega (arith, length-take off b) in
              ap (λ (k : ℕ). drop k src) z))

take-copy_at_before :
    (n : ℕ) (b : Bytes) (off : ℕ) (src : Bytes) → n ≤ off → take n (copy_at b off src) ≡ take n b
unfolding copy_at
take-copy_at_before n b off [] h = refl
take-copy_at_before n b off (x ∷ src) h =
    take-copy_at_before n (set b off x) (off + 1) src (omega arith)
    ∙ (take-set n b off x ∙ set_past (take n b) off x (omega (arith, length-take n b)))

-- A copy leaves a slice before it alone.
pub slice-copy_at_before :
    (b src : Bytes) (from to off : ℕ)
    → to ≤ off
    → slice (copy_at b off src) from to ≡ slice b from to
slice-copy_at_before b src from to off h =
    slice-eq-drop-take (copy_at b off src) from to
    ∙ (ap (λ (c : Bytes). drop from c) (take-copy_at_before to b off src h)
        ∙ sym (slice-eq-drop-take b from to))
