-- ===== src/Fs/File/Read.antt =====
-- What the loops of `Fat16::read_file` in servers/libtanix-fs/src/lib.rs copy, on a device that reads
-- without errors.
use mathlib.Core.Path.{subst}
use mathlib.Core.List.{append-nil, append_assoc}
use native.Mathlib.Decide.{dec_lt}
use tanix.Bytes.{Bytes, slice, copy_at}
use tanix.Bytes.Copy.{length-copy_at, length-slice, take-copy_at, take-min, drop_past}
use tanix.Bytes.Split.{length-append, range-append}
use tanix.Fs.{BlockIo}
use tanix.Fs.Fat.{Fat16, next_cluster, sector_of}
use tanix.Fs.Fat.Chain.{IsChain, first}
use tanix.Fs.File.{Progress, read_sectors, read_clusters}
use tanix.Fs.File.Data.{Reads, IsSized, sectors_data, chain_data, length-sectors_data}
use tanix.Prelude.{
  ℕ, zero, suc, ◌+◌, ◌-◌, ◌<◌, ◌≡◌, min, refl, sym, ap, ◌∙◌, true, false, ◌||◌, ◌&&◌, if◌then◌else◌,
  leb, ltb, List, [], ◌∷◌, ◌++◌, arith, length, take, drop, length-drop, inl, inr, Bool-cases,
}

take_zero : (n : ℕ) (b : Bytes) → n ≡ 0 → take n b ≡ []
take_zero n b e = ap (λ (k : ℕ). take k b) e

-- `drop` of no more than there is.
drop-min : (k m : ℕ) (b : Bytes) → length b ≡ m → drop (min k m) b ≡ drop k b
drop-min k m b e = elim (dec_lt k m) [
  | yes h ↦ ap (λ (j : ℕ). drop j b) (let s : min k m ≡ k = omega arith in s)
  | no h ↦ drop_past (min k m) b (omega arith) ∙ sym (drop_past k b (omega arith))
]

module _ (B : BlockIo) (disk : ℕ → Bytes) (dev : B.Dev) (h : Reads B disk dev) (remain : ℕ) where
  -- From `written` bytes of `out`, the read gives what the range has of `body` from `k` on.
  abbrev pub Got : Bytes → ℕ → Bytes → ℕ → Progress B → Type 0
  Got out written body k r =
      (take r.1 r.0 ≡ take written out ++ take (min remain (length out) - written) (drop k body))
      × (r.1 ≡ written + min (min remain (length out) - written) (length body - k))
      × (length r.0 ≡ length out)
      × (r.2 ≡ dev)
      × (r.3 ≡ true)

  pub Got-nothing :
      (out : Bytes) (written : ℕ) (body : Bytes) (k : ℕ)
      → min (min remain (length out) - written) (length body - k) ≡ 0
      → Got out written body k (out, written, dev, true)
  Got-nothing out written body k e = (
    sym (
        ap (λ (c : Bytes). take written out ++ c)
          (sym (take-min (drop k body) (min remain (length out) - written))
            ∙ take_zero (min (length (drop k body)) (min remain (length out) - written))
                (drop k body) (omega (arith, length-drop k body)))
        ∙ append-nil (take written out)),
    omega arith,
    refl,
    refl,
    refl,
  )

  -- A read of `a` and then one of what follows it.
  Got-then :
      (out : Bytes) (written : ℕ) (a b : Bytes) (k : ℕ) (r r' : Progress B)
      → Got out written a k r
      → Got r.0 r.1 b (k - length a) r'
      → Got out written (a ++ b) k r'
  Got-then out written a b k r r' (bytes, count, len, same, ok) (bytes', count', len', same', ok') =
      let n = min remain (length out) - written in
      let left : min remain (length r.0) - r.1 ≡ n - (length a - k) = omega arith in
      (
        bytes'
            ∙ (ap (λ (c : Bytes). c ++ take (min remain (length r.0) - r.1) (drop (k - length a) b))
                  bytes
                ∙ (ap
                      (λ (m : ℕ).
                        (take written out ++ take n (drop k a)) ++ take m (drop (k - length a) b))
                      left
                    ∙ (append_assoc (take written out) (take n (drop k a))
                          (take (n - (length a - k)) (drop (k - length a) b))
                        ∙ ap (λ (c : Bytes). take written out ++ c) (sym (range-append n k a b))))),
        omega (arith, length-append a b),
        omega arith,
        same',
        ok',
      )

  -- The copy of one sector.
  Got-sector :
      (sector sskip : ℕ) (out : Bytes) (written n : ℕ)
      → n ≡ min (min (512 - min sskip 512) (remain - written)) (length out - written)
      → written < min remain (length out)
      → Got out written (disk sector) sskip (
        copy_at out written (slice (disk sector) (min sskip 512) (min sskip 512 + n)),
        written + n,
        dev,
        true,
      )
  Got-sector sector sskip out written n e lt =
      let s = min sskip 512 in
      let src = disk sector in
      let size = h.sized sector in
      let part = slice src s (s + n) in
      let len : n ≡ length part = omega (arith, length-slice src s (s + n) (omega arith)) in
      let same : s + n - s ≡ n = omega arith in
      let least : n ≡ min (length (drop sskip src)) (min remain (length out) - written) =
        omega (arith, length-drop sskip src) in
      (
        ap (λ (j : ℕ). take (written + j) (copy_at out written part)) len
            ∙ (take-copy_at out written part (omega arith)
                ∙ ap (λ (c : Bytes). take written out ++ c)
                    (ap (λ (j : ℕ). take j (drop s src)) (same ∙ least)
                      ∙ (ap
                            (λ (c : Bytes).
                              take
                                (min (length (drop sskip src)) (min remain (length out) - written))
                                c)
                            (drop-min sskip 512 src size)
                          ∙ take-min (drop sskip src) (min remain (length out) - written)))),
        omega (arith, size),
        length-copy_at out written part,
        refl,
        refl,
      )

  Got-read_sectors :
      (rounds sector sskip : ℕ) (out : Bytes) (written : ℕ)
      → Got out written
          (sectors_data disk rounds sector)
          sskip
          (read_sectors B rounds sector sskip remain out written dev)
  unfolding read_sectors sectors_data
  Got-read_sectors zero sector sskip out written = Got-nothing out written [] sskip (omega arith)
  Got-read_sectors (suc rounds) sector sskip out written =
      rw (h.reads sector) (elim (Bool-cases (leb remain written || leb (length out) written)) [
        | inl done ↦ rw done (
            Got-nothing out written (disk sector ++ sectors_data disk rounds (sector + 1)) sskip
              (ground arith))
        | inr more ↦
            let n = min (min (512 - min sskip 512) (remain - written)) (length out - written) in
            let copied =
              copy_at out written (slice (disk sector) (min sskip 512) (min sskip 512 + n)) in
            let here = Got-sector sector sskip out written n refl (ground arith) in
            let rest = Got-read_sectors rounds (sector + 1) (sskip - 512) copied (written + n) in
            let size = h.sized sector in
            rw more (
              Got-then out written (disk sector) (sectors_data disk rounds (sector + 1)) sskip
                (copied, written + n, dev, true)
                (read_sectors B rounds (sector + 1) (sskip - 512) remain copied (written + n) dev)
                here (rw size rest))
      ])

  -- A cluster, and by `ih` the rounds behind it.
  Got-round :
      (fs : Fat16)
      → IsSized fs
      → (rounds cluster sskip : ℕ) (cs : List ℕ) (out : Bytes) (written : ℕ)
      → sskip < fs.cluster_bytes
      → min remain (length out) - written < suc rounds
      → written < min remain (length out)
      → ((out : Bytes) (written : ℕ)
          → min remain (length out) - written < rounds
          → Got out written
              (chain_data disk fs cs)
              0
              (read_clusters B rounds (next_cluster cluster fs) 0 remain out written dev fs))
      → (r : Progress B)
      → Got out written (sectors_data disk fs.sectors_per_cluster (sector_of cluster fs)) sskip r
      → Got out written
          (sectors_data disk fs.sectors_per_cluster (sector_of cluster fs) ++ chain_data disk fs cs)
          sskip
          (if r.3
            then read_clusters B rounds (next_cluster cluster fs) 0 remain r.0 r.1 r.2 fs
            else r)
  Got-round fs z rounds cluster sskip cs out written inside enough lt ih (out', written', dev', ok')
        (bytes, count, len, same, ok) =
      let whole = sectors_data disk fs.sectors_per_cluster (sector_of cluster fs) in
      let long = length-sectors_data disk h.sized fs.sectors_per_cluster (sector_of cluster fs) in
      let r' = read_clusters B rounds (next_cluster cluster fs) 0 remain out' written' dev fs in
      let skipped : 0 ≡ sskip - length whole = omega (arith, long, z.bytes) in
      rw (ok, same)
        (Got-then out written whole (chain_data disk fs cs) sskip (out', written', dev, true) r'
          (bytes, count, len, refl, refl)
          (subst (λ (k : ℕ). Got out' written' (chain_data disk fs cs) k r') skipped
            (ih out' written' (omega (arith, long, z.bytes)))))

  -- The loop over the clusters, with a round for each byte that is left and one more.
  pub Got-read_clusters :
      (fs : Fat16)
      → IsSized fs
      → (rounds cluster sskip : ℕ) (cs : List ℕ) (out : Bytes) (written : ℕ) → cluster ≡ first cs
      → IsChain fs cs
      → sskip < fs.cluster_bytes
      → min remain (length out) - written < rounds
      → Got out written
          (chain_data disk fs cs)
          sskip
          (read_clusters B rounds cluster sskip remain out written dev fs)
  unfolding read_clusters chain_data
  Got-read_clusters fs z zero cluster sskip cs out written e chain inside enough =
      absurd (omega arith)
  Got-read_clusters fs z (suc rounds) cluster sskip [] out written e chain inside enough =
      let stops : leb 2 cluster ≡ false = ground (arith, e) in
      rw stops (Got-nothing out written [] sskip (omega arith))
  Got-read_clusters fs z (suc rounds) cluster sskip (c ∷ cs) out written e (le, next, chain) inside
        enough =
      let two : leb 2 cluster ≡ true = ground (arith, e, le) in
      let here = sectors_data disk fs.sectors_per_cluster (sector_of cluster fs) in
      let ih = λ (out : Bytes) (written : ℕ).
        Got-read_clusters fs z rounds (next_cluster cluster fs) 0 cs out written
          (ap (λ (k : ℕ). next_cluster k fs) e ∙ next) chain (omega arith) in
      subst
        (λ (k : ℕ).
          Got out written
            (sectors_data disk fs.sectors_per_cluster (sector_of k fs) ++ chain_data disk fs cs)
            sskip (read_clusters B (suc rounds) cluster sskip remain out written dev fs))
        e
        (elim (Bool-cases (ltb written remain && ltb written (length out))) [
          | inl more ↦
              rw (two, more)
                (Got-round fs z rounds cluster sskip cs out written inside enough (ground arith) ih
                  (read_sectors B fs.sectors_per_cluster (sector_of cluster fs) sskip remain out
                    written dev)
                  (Got-read_sectors fs.sectors_per_cluster (sector_of cluster fs) sskip out
                    written))
          | inr done ↦
              rw (two, done)
                (Got-nothing out written (here ++ chain_data disk fs cs) sskip (ground arith))
        ])
