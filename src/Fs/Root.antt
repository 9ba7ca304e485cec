-- ===== src/Fs/Root.antt =====
-- servers/libtanix-fs/src/lib.rs: the root directory of a volume, its entries and their names.
pub mod Codec
pub mod Kept
pub mod Names
mod Tests
pub mod Placed
pub mod Found
use mathlib.Core.Option
use tanix.Bytes.{Bytes, at, slice, copy_at, eq_bytes}
use tanix.Fs.{BlockIo}
use tanix.Fs.Fat.{Fat16}
use tanix.Prelude.{
  ℕ, zero, suc, ◌+◌, ◌-◌, ◌*◌, ◌/◌, ◌%◌, ◌^◌, Bool, true, false, not, ◌&&◌, ◌||◌, Option, none,
  some, List, [], ◌∷◌, ◌++◌, leb, ltb, ◌==◌, length, map, take, drop, replicate, if◌then◌else◌,
}

-- `ATTR_ARCHIVE`
abbrev pub attr_archive : ℕ
attr_archive = 0x20

abbrev pub ShortName : Type 0
ShortName = Bytes

pub record DirEntry : Type 0 where
  pub name : ShortName
  pub attr : ℕ
  pub nt_res : ℕ
  pub crt_tenth : ℕ
  pub crt_time : ℕ
  pub crt_date : ℕ
  pub last_acc_date : ℕ
  pub hi_start : ℕ
  pub wrt_time : ℕ
  pub wrt_date : ℕ
  pub start_cluster : ℕ
  pub size : ℕ

-- `DirEntry::EMPTY`
abbrev pub empty_entry : DirEntry
empty_entry = record {
  name = replicate 11 0;
  attr = 0;
  nt_res = 0;
  crt_tenth = 0;
  crt_time = 0;
  crt_date = 0;
  last_acc_date = 0;
  hi_start = 0;
  wrt_time = 0;
  wrt_date = 0;
  start_cluster = 0;
  size = 0;
}

abbrev pub is_deleted : DirEntry → Bool
is_deleted e = at e.name 0 == 0xE5

abbrev pub is_empty : DirEntry → Bool
is_empty e = at e.name 0 == 0

-- `self.attr & (ATTR_VOLUME_ID | ATTR_DIRECTORY) == ATTR_VOLUME_ID`
abbrev pub is_volume : DirEntry → Bool
is_volume e = e.attr / 0x08 % 2 == 1 && e.attr / 0x10 % 2 == 0

-- The two bytes of a field of 16 bits, the low one first.
abbrev pub le16 : ℕ → Bytes → Bytes
le16 v rest = v % 2 ^ 8 ∷ v / 2 ^ 8 % 2 ^ 8 ∷ rest

abbrev pub field16 : Bytes → ℕ → ℕ
field16 b off = at b off + at b (off + 1) * 2 ^ 8

-- The 21 bytes behind the name, as `repr(C)` lays them out.
abbrev pub fields : DirEntry → Bytes
fields e =
    e.attr
    ∷ e.nt_res
    ∷ e.crt_tenth
    ∷ le16 e.crt_time (
        le16 e.crt_date (
          le16 e.last_acc_date (
            le16 e.hi_start (
              le16 e.wrt_time (
                le16 e.wrt_date
                  (le16 e.start_cluster (le16 e.size (le16 (e.size / 2 ^ 16) []))))))))

-- The bytes that `ptr_write_unaligned` stores.
unfoldable pub encode : DirEntry → Bytes
encode e = e.name ++ fields e

-- What `read_unaligned` makes of 32 bytes.
unfoldable pub decode : Bytes → DirEntry
decode b = record {
  name = slice b 0 11;
  attr = at b 11;
  nt_res = at b 12;
  crt_tenth = at b 13;
  crt_time = field16 b 14;
  crt_date = field16 b 16;
  last_acc_date = field16 b 18;
  hi_start = field16 b 20;
  wrt_time = field16 b 22;
  wrt_date = field16 b 24;
  start_cluster = field16 b 26;
  size = field16 b 28 + field16 b 30 * 2 ^ 16;
}

-- `to_ascii_uppercase`
abbrev pub to_ascii_uppercase : ℕ → ℕ
to_ascii_uppercase b = if leb 97 b && leb b 122 then b - 32 else b

-- `b.is_ascii_alphanumeric()`
abbrev is_ascii_alphanumeric : ℕ → Bool
is_ascii_alphanumeric b =
    (leb 48 b && leb b 57) || (leb 65 b && leb b 90) || (leb 97 b && leb b 122)

-- A byte that the base of a name may have: a letter, a digit, a blank, `_` or `-`.
abbrev pub is_base_byte : ℕ → Bool
is_base_byte b = is_ascii_alphanumeric b || b == 32 || b == 95 || b == 45

-- The index of the last dot, `name.rfind('.')`, where the search behind the first byte gives `later`.
abbrev dot_at : ℕ → Option ℕ → Option ℕ
dot_at b (some i) = some (i + 1)
dot_at b none = if b == 46 then some 0 else none

unfoldable pub last_dot : Bytes → Option ℕ
last_dot [] = none
last_dot (b ∷ rest) = dot_at b (last_dot rest)

-- The loop over the bytes of the base.
abbrev pub is_base : Bytes → Bool
is_base [] = true
is_base (b ∷ base) = is_base_byte b && is_base base

-- The base, in front of an extension that is in `out`.
abbrev pub with_base : Bytes → Bytes → Option ShortName
with_base base out =
    if ltb 8 (length base) || not (is_base base)
    then none
    else some (copy_at out 0 (map to_ascii_uppercase base))

abbrev pub split_at : Bytes → Option ℕ → Option ShortName
split_at name none = with_base name (replicate 11 32)
split_at name (some dot) =
    let ext = drop (dot + 1) name in
    if ltb 3 (length ext)
    then none
    else with_base (take dot name) (copy_at (replicate 11 32) 8 (map to_ascii_uppercase ext))

-- The name is given by its bytes.
unfoldable pub short_name : Bytes → Option ShortName
short_name name =
    if length name == 0 || ltb 12 (length name) then none else split_at name (last_dot name)

-- The entry of `create_root_file`.
abbrev pub new_entry : ShortName → DirEntry
new_entry name = record empty_entry { name = name; attr = attr_archive }

-- The place of entry `idx` in its sector.
unfoldable pub entry_place : ℕ → ℕ
entry_place idx = idx % 16 * 32

unfoldable pub entry_at : ℕ → Bytes → DirEntry
entry_at idx sec = decode (slice sec (entry_place idx) (entry_place idx + 32))

unfoldable pub root_sector : ℕ → Fat16 → ℕ
root_sector idx fs = fs.root_base + idx / 16

-- The test of `find_root` on an entry that is not empty.
abbrev pub matches : ShortName → DirEntry → Bool
matches name e = not (is_deleted e) && not (is_volume e) && eq_bytes e.name name

module _ (B : BlockIo) where
  unfoldable pub read_root_sector : ℕ → Fat16 → B.Dev → Option Bytes × B.Dev
  read_root_sector idx fs dev = B.read_sector (root_sector idx fs) dev

  -- The read of an entry, as in both loops.
  unfoldable pub read_root_entry : ℕ → Fat16 → B.Dev → Option DirEntry × B.Dev
  read_root_entry idx fs dev =
      let r = read_root_sector idx fs dev in (Option.map (entry_at idx) r.0, r.1)

  abbrev pub store_entry : ℕ → DirEntry → Fat16 → Option Bytes → B.Dev → Bool × B.Dev
  store_entry idx e fs none dev = (false, dev)
  store_entry idx e fs (some sec) dev =
      B.write_sector (root_sector idx fs) (copy_at sec (entry_place idx) (encode e)) dev

  unfoldable pub write_root_entry : ℕ → DirEntry → Fat16 → B.Dev → Bool × B.Dev
  write_root_entry idx e fs dev =
      let r = read_root_sector idx fs dev in store_entry idx e fs r.0 r.1

  abbrev pub looked :
      ShortName
      → ℕ
      → Option DirEntry
      → B.Dev
      → Option (ℕ × DirEntry) × B.Dev
      → Option (ℕ × DirEntry) × B.Dev
  looked name idx none dev rest = (none, dev)
  looked name idx (some e) dev rest =
      if is_empty e then (none, dev) else (if matches name e then (some (idx, e), dev) else rest)

  -- The loop over `rounds` entries from `idx` on.
  unfoldable pub find_from : ℕ → ℕ → ShortName → Fat16 → B.Dev → Option (ℕ × DirEntry) × B.Dev
  find_from zero idx name fs dev = (none, dev)
  find_from (suc rounds) idx name fs dev =
      let r = read_root_entry idx fs dev in
      looked name idx r.0 r.1 (find_from rounds (idx + 1) name fs r.1)

  unfoldable pub find_root : ShortName → Fat16 → B.Dev → Option (ℕ × DirEntry) × B.Dev
  find_root name fs dev = find_from fs.root_entries 0 name fs dev

  abbrev pub created_at : ℕ → Bool × B.Dev → Option ℕ × B.Dev
  created_at idx w = (if w.0 then some idx else none, w.1)

  abbrev pub tried :
      ShortName → ℕ → Fat16 → Option DirEntry → B.Dev → Option ℕ × B.Dev → Option ℕ × B.Dev
  tried name idx fs none dev rest = (none, dev)
  tried name idx fs (some e) dev rest =
      if is_empty e || is_deleted e
      then created_at idx (write_root_entry idx (new_entry name) fs dev)
      else rest

  unfoldable pub create_from : ℕ → ℕ → ShortName → Fat16 → B.Dev → Option ℕ × B.Dev
  create_from zero idx name fs dev = (none, dev)
  create_from (suc rounds) idx name fs dev =
      let r = read_root_entry idx fs dev in
      tried name idx fs r.0 r.1 (create_from rounds (idx + 1) name fs r.1)

  unfoldable pub create_root_file : ShortName → Fat16 → B.Dev → Option ℕ × B.Dev
  create_root_file name fs dev = create_from fs.root_entries 0 name fs dev
