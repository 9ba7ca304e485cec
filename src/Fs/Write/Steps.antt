-- ===== src/Fs/Write/Steps.antt =====
-- The steps of `write_file` in servers/libtanix-fs/src/lib.rs: how far they come, and what they leave alone.
use native.Mathlib.Decide.{dec_lt}
use tanix.Bytes.{Bytes}
use tanix.Fs.{BlockIo}
use tanix.Fs.Fat.{Fat16, link, linked, set_fat_entry}
use tanix.Fs.Root.Kept.{IsReliable}
use tanix.Fs.Write.{WriteProgress, old_sector, new_sector, put, write_sectors}
use tanix.Prelude.{
  ℕ, zero, suc, ◌+◌, ◌-◌, ◌*◌, ◌<◌, ◌≤◌, ◌≡◌, min, refl, ap, ◌∙◌, true, false, ◌||◌, Option, none,
  some, arith, ltb, ◌==◌, length, replicate, Bool-cases, ==_iff, inl, inr,
}

-- A device on which no access fails.
pub record IsSteady (B : BlockIo) : Type 0 where
  pub reads : (s : ℕ) (dev : B.Dev) → (sec : Bytes) × ((B.read_sector s dev).0 ≡ some sec)
  pub writes : (s : ℕ) (buf : Bytes) (dev : B.Dev) → (B.write_sector s buf dev).0 ≡ true

-- The two volumes differ in the cached table alone.
abbrev pub OnlyTable : Fat16 → Fat16 → Type 0
OnlyTable fs fs' = fs' ≡ record fs { fat = fs'.fat }

pub linked-OnlyTable : (prev : ℕ) (fs : Fat16) (o : Option ℕ) → OnlyTable fs (linked prev fs o).1
unfolding link set_fat_entry
linked-OnlyTable prev fs none = refl
linked-OnlyTable prev fs (some c) = elim (Bool-cases (prev == 0)) [
  | inl h ↦ rw h refl
  | inr h ↦ rw h refl
]

pub OnlyTable-trans : (a b c : Fat16) → OnlyTable a b → OnlyTable b c → OnlyTable a c
OnlyTable-trans a b c h k = k ∙ ap (λ (fs : Fat16). record fs { fat = c.fat }) h

module _ (B : BlockIo) where
  -- Sector `t` reads the same.
  abbrev pub Spares : ℕ → B.Dev → B.Dev → Type 0
  Spares t dev dev' = (B.read_sector t dev').0 ≡ (B.read_sector t dev).0

  -- Every sector below `base` does.
  abbrev pub Keeps : ℕ → B.Dev → B.Dev → Type 0
  Keeps base dev dev' = (t : ℕ) → t < base → Spares t dev dev'

  -- From `src` and `pos`, with `sskip` bytes to skip in `rounds` sectors: as many bytes behind as `pos` is
  -- on, within the data, and one at least where the skip ends in these sectors and nothing failed.
  pub record Goes (data_of : Bytes) (rounds sskip src pos base : ℕ) (dev : B.Dev)
      (r : WriteProgress B data_of) : Type 0 where
    pub up : src ≤ r.0
    pub within : r.0 ≤ length data_of
    pub moved : r.1 + src ≡ pos + r.0
    pub forward : r.3 ≡ true → src < length data_of → sskip < rounds * 512 → src < r.0
    pub spared : Keeps base dev r.2

  module _ (rel : IsReliable B) (data_of : Bytes) (base : ℕ) where
    old_sector-Spares :
        (t sector s need : ℕ) (dev : B.Dev)
        → Spares t dev (old_sector B data_of sector s need dev).1
    old_sector-Spares t sector s need dev = elim (Bool-cases (ltb 0 s || ltb need 512)) [
      | inl h ↦ rw h (rel.read_read t sector dev)
      | inr h ↦ rw h refl
    ]

    stays :
        (rounds sskip src pos : ℕ) (dev dev' : B.Dev)
        → src ≤ length data_of
        → Keeps base dev dev'
        → Goes data_of rounds sskip src pos base dev (src, pos, dev', false)
    stays rounds sskip src pos dev dev' le same = record {
      up = omega arith;
      within = le;
      moved = refl;
      forward = λ e lt short. absurd cc;
      spared = same;
    }

    module _ (rounds sector sskip src pos : ℕ) (dev : B.Dev) (le : src ≤ length data_of)
        (over : base ≤ sector) where
      abbrev s_of : ℕ
      s_of = min sskip 512

      abbrev need_of : ℕ
      need_of = min (512 - s_of) (length data_of - src)

      one_more :
          (dev' : B.Dev) (r : WriteProgress B data_of)
          → Keeps base dev dev'
          → Goes data_of rounds (sskip - 512) (src + need_of) (pos + need_of) base dev' r
          → Goes data_of (suc rounds) sskip src pos base dev r
      one_more dev' r same g = record {
        up = omega (arith, g.up);
        within = g.within;
        moved = omega (arith, g.moved);
        forward = λ good lt short. elim (dec_lt sskip 512) [
          | yes early ↦ omega (arith, g.up, early, lt)
          | no late ↦
              let none_yet : need_of ≡ 0 = omega (arith, late) in
              let further : src + need_of < r.0 =
                g.forward good (omega (arith, none_yet, lt)) (omega (arith, short, late)) in
              omega (arith, further, none_yet)
        ];
        spared = λ t low. g.spared t low ∙ same t low;
      }

      put-Goes :
          (o : Option Bytes × B.Dev) (rest : B.Dev → WriteProgress B data_of)
          → Keeps base dev o.1
          → ((dev' : B.Dev)
              → Goes data_of rounds
                  (sskip - 512)
                  (src + need_of)
                  (pos + need_of)
                  base
                  dev'
                  (rest dev'))
          → Goes data_of
              (suc rounds)
              sskip
              src
              pos
              base
              dev
              (put B data_of rest sector s_of need_of src pos o)
      put-Goes (none, dev') rest same ih = stays (suc rounds) sskip src pos dev dev' le same
      put-Goes (some sec, dev') rest same ih =
          let w = B.write_sector sector (new_sector B data_of sec s_of need_of src) dev' in
          let kept : Keeps base dev w.1 = λ t low.
            rel.read_write_ne t sector (new_sector B data_of sec s_of need_of src) dev'
              (λ e. absurd (omega (arith, e, low, over)))
            ∙ same t low in
          elim (Bool-cases w.0) [
            | inl h ↦ rw h (one_more w.1 (rest w.1) kept (ih w.1))
            | inr h ↦ rw h (stays (suc rounds) sskip src pos dev w.1 le kept)
          ]

    pub write_sectors-Goes :
        (rounds sector sskip src pos : ℕ) (dev : B.Dev)
        → src ≤ length data_of
        → base ≤ sector
        → Goes data_of rounds sskip src pos base dev
            (write_sectors B data_of rounds sector sskip src pos dev)
    unfolding write_sectors
    write_sectors-Goes zero sector sskip src pos dev le lt = record {
      up = omega arith;
      within = le;
      moved = refl;
      forward = λ good more short. absurd (omega (arith, short));
      spared = λ t low. refl;
    }
    write_sectors-Goes (suc rounds) sector sskip src pos dev le lt =
        elim (Bool-cases (src == length data_of)) [
          | inl h ↦
              let at_end : src ≡ length data_of = (==_iff src (length data_of)).0 h in
              rw h (record {
                up = omega arith;
                within = le;
                moved = refl;
                forward = λ good more short. absurd (omega (arith, at_end, more));
                spared = λ t low. refl;
              })
          | inr h ↦
              let s = min sskip 512 in
              let need = min (512 - s) (length data_of - src) in
              rw h (
                put-Goes rounds sector sskip src pos dev le lt
                  (old_sector B data_of sector s need dev)
                  (write_sectors B data_of rounds (sector + 1) (sskip - 512) (src + need)
                    (pos + need))
                  (λ t low. old_sector-Spares t sector s need dev)
                  (λ dev'.
                    write_sectors-Goes rounds (sector + 1) (sskip - 512) (src + need) (pos + need)
                      dev' (omega arith) (omega arith)))
        ]

    -- A device that never fails.
    module _ (steady : IsSteady B) where
      put-succeeds :
          (o : Option Bytes × B.Dev) (rest : B.Dev → WriteProgress B data_of)
          (sector s need src pos : ℕ) (sec : Bytes)
          → o.0 ≡ some sec
          → ((dev' : B.Dev) → (rest dev').3 ≡ true)
          → (put B data_of rest sector s need src pos o).3 ≡ true
      put-succeeds (none, dev') rest sector s need src pos sec e ih = absurd cc
      put-succeeds (some old, dev') rest sector s need src pos sec e ih =
          let w = B.write_sector sector (new_sector B data_of old s need src) dev' in
          rw (steady.writes sector (new_sector B data_of old s need src) dev') (ih w.1)

      old_sector-some :
          (sector s need : ℕ) (dev : B.Dev)
          → (sec : Bytes) × ((old_sector B data_of sector s need dev).0 ≡ some sec)
      old_sector-some sector s need dev = elim (Bool-cases (ltb 0 s || ltb need 512)) [
        | inl h ↦ rw h (steady.reads sector dev)
        | inr h ↦ rw h (replicate 512 0, refl)
      ]

      pub write_sectors-succeeds :
          (rounds sector sskip src pos : ℕ) (dev : B.Dev)
          → (write_sectors B data_of rounds sector sskip src pos dev).3 ≡ true
      unfolding write_sectors
      write_sectors-succeeds zero sector sskip src pos dev = refl
      write_sectors-succeeds (suc rounds) sector sskip src pos dev =
          elim (Bool-cases (src == length data_of)) [
            | inl h ↦ rw h refl
            | inr h ↦
                let s = min sskip 512 in
                let need = min (512 - s) (length data_of - src) in
                let (sec, there) = old_sector-some sector s need dev in
                rw h (
                  put-succeeds (old_sector B data_of sector s need dev)
                    (write_sectors B data_of rounds (sector + 1) (sskip - 512) (src + need)
                      (pos + need))
                    sector s need src pos sec there
                    (λ dev'.
                      write_sectors-succeeds rounds (sector + 1) (sskip - 512) (src + need)
                        (pos + need) dev'))
          ]
