-- ===== src/Fs/Ram.antt =====
-- A device that keeps its sectors in memory, for the tests of servers/libtanix-fs/src/lib.rs.
use mathlib.Core.List.{append-nil}
use tanix.Bytes.{Bytes}
use tanix.Bytes.Copy.{take_exact}
use tanix.Bytes.Split.{take-append}
use tanix.Fs.{BlockIo}
use tanix.Fs.Root.Kept.{IsReliable}
use tanix.Fs.Write.Steps.{IsSteady}
use tanix.Prelude.{
  ℕ, ◌-◌, ◌≡◌, refl, sym, ap, ◌∙◌, true, some, ◌++◌, arith, ◌==◌, ==_iff, length, length-take,
  length-append, take, replicate, if◌then◌else◌, Bool-cases, inl, inr,
}

-- The first 512 bytes, with zeros behind a shorter sector.
abbrev filled_up : Bytes → Bytes
filled_up b = take 512 (b ++ replicate 512 0)

abbrev pub ram : BlockIo
ram = record {
  Dev = ℕ → Bytes;
  read_sector = λ s dev. (some (filled_up (dev s)), dev);
  write_sector = λ s buf dev. (true, λ t. if t == s then buf else dev t);
}

length-filled_up : (b : Bytes) → length (filled_up b) ≡ 512
length-filled_up b =
    omega (arith, length-take 512 (b ++ replicate 512 0), length-append b (replicate 512 0))

filled_up_whole : (b : Bytes) → length b ≡ 512 → filled_up b ≡ b
filled_up_whole b h =
    let z : 512 - length b ≡ 0 = omega (arith, h) in
    take-append 512 b (replicate 512 0)
    ∙ (ap (λ (k : ℕ). take 512 b ++ take k (replicate 512 0)) z
        ∙ (append-nil (take 512 b) ∙ take_exact 512 b (omega (arith, h))))

pub ram-IsReliable : IsReliable ram
ram-IsReliable = record {
  sized = λ s dev sec e.
      let same : filled_up (dev s) ≡ sec = cc e in ap length (sym same) ∙ length-filled_up (dev s);
  read_read = λ s t dev. refl;
  read_write = λ s buf dev len done. rw ((==_iff s s).1 refl) (ap some (filled_up_whole buf len));
  read_write_ne = λ s t buf dev ne. elim (Bool-cases (s == t)) [
    | inl h ↦ absurd (ne ((==_iff s t).0 h))
    | inr h ↦ rw h refl
  ];
}

pub ram-IsSteady : IsSteady ram
ram-IsSteady = record { reads = λ s dev. (filled_up (dev s), refl); writes = λ s buf dev. refl }
