-- ===== src/Fs/File/Whole.antt =====
-- `Fat16::read_file` in servers/libtanix-fs/src/lib.rs against the data of the chain.
use tanix.Bytes.{Bytes}
use tanix.Bytes.Split.{length-append, drop-append_past}
use tanix.Fs.{BlockIo, max_cached_clusters}
use tanix.Fs.Fat.{Fat16, sector_of}
use tanix.Fs.Fat.Chain.{IsChain}
use tanix.Fs.File.{covering, read_covered, read_file}
use tanix.Fs.File.Data.{
  Reads, IsSized, sectors_data, chain_data, length-sectors_data, length-chain_data,
}
use tanix.Fs.File.Read.{Got-read_clusters, Got-nothing}
use tanix.Prelude.{
  ℕ, zero, suc, ◌+◌, ◌-◌, ◌<◌, ◌≤◌, ◌≡◌, min, refl, sym, ap, ◌∙◌, true, false, ◌||◌, leb, ltb, ◌==◌,
  Option, none, some, List, [], ◌∷◌, arith, All, length, take, drop, length-drop, inl, inr,
  Bool-cases, leb→le,
}

leb-false→lt : (a b : ℕ) → leb a b ≡ false → b < a
leb-false→lt a b h = ground arith

minus_zero : (n : ℕ) → n - 0 ≡ n
minus_zero n = omega arith

module _ (disk : ℕ → Bytes) (sized : (s : ℕ) → length (disk s) ≡ 512) (fs : Fat16)
    (z : IsSized fs) where
  -- Where `covering` stops: past the chain, or in a cluster from which on the same data follows.
  abbrev pub Covers : List ℕ → ℕ → Option (ℕ × ℕ) → Type 0
  Covers cs skip none = length (chain_data disk fs cs) ≤ skip
  Covers cs skip (some (cluster, left)) =
      (rest : List ℕ) × IsChain fs (cluster ∷ rest)
      × (left < fs.cluster_bytes)
      × (drop left (chain_data disk fs (cluster ∷ rest)) ≡ drop skip (chain_data disk fs cs))

  Covers-next :
      (c : ℕ) (cs : List ℕ) (skip : ℕ)
      → fs.cluster_bytes ≤ skip
      → (r : Option (ℕ × ℕ)) → Covers cs (skip - fs.cluster_bytes) r
      → Covers (c ∷ cs) skip r
  unfolding chain_data
  Covers-next c cs skip le none h = omega (
    arith,
    length-append (sectors_data disk fs.sectors_per_cluster (sector_of c fs))
        (chain_data disk fs cs),
    length-sectors_data disk sized fs.sectors_per_cluster (sector_of c fs),
    z.bytes,
  )
  Covers-next c cs skip le (some (cluster, left)) (rest, chain, inside, same) =
      let here = sectors_data disk fs.sectors_per_cluster (sector_of c fs) in
      let long = length-sectors_data disk sized fs.sectors_per_cluster (sector_of c fs) in
      let skipped : skip - fs.cluster_bytes ≡ skip - length here = omega (arith, long, z.bytes) in
      (
        rest,
        chain,
        inside,
        same
            ∙ (ap (λ (k : ℕ). drop k (chain_data disk fs cs)) skipped
                ∙ sym (
                    drop-append_past skip here (chain_data disk fs cs)
                      (omega (arith, long, z.bytes)))),
      )

  covering-Covers :
      (rounds c : ℕ) (cs : List ℕ) (skip : ℕ)
      → IsChain fs (c ∷ cs)
      → skip < rounds
      → Covers (c ∷ cs) skip (covering rounds c skip fs)
  unfolding covering
  covering-Covers zero c cs skip chain lt = absurd (omega arith)
  covering-Covers (suc rounds) c [] skip (le, next, chain) lt =
      let two : leb 2 c ≡ true = ground arith in
      elim (Bool-cases (leb fs.cluster_bytes skip)) [
        | inl past ↦
            rw (two, past, next)
              (omega (
                arith,
                leb→le fs.cluster_bytes skip past,
                length-chain_data disk fs sized z (c ∷ []),
              ))
        | inr inside ↦
            rw (two, inside)
              ([], (le, next, chain), leb-false→lt fs.cluster_bytes skip inside, refl)
      ]
  covering-Covers (suc rounds) c (d ∷ cs) skip (le, next, chain) lt =
      let two : leb 2 c ≡ true = ground arith in
      let goes_on : (d == 0) ≡ false = ground (arith, chain.0) in
      let ih = covering-Covers rounds d cs (skip - fs.cluster_bytes) chain in
      elim (Bool-cases (leb fs.cluster_bytes skip)) [
        | inl past ↦
            rw (two, past, next, goes_on)
              (Covers-next c (d ∷ cs) skip (leb→le fs.cluster_bytes skip past)
                (covering rounds d (skip - fs.cluster_bytes) fs)
                (ih (omega (arith, leb→le fs.cluster_bytes skip past, z.bytes, z.some_sector))))
        | inr inside ↦
            rw (two, inside)
              (d ∷ cs, (le, next, chain), leb-false→lt fs.cluster_bytes skip inside, refl)
      ]

-- What a read of `remain` bytes at most is to give of `body` from `k` on: `r` is the buffer behind it,
-- the number of bytes and the device.
pub record IsRead {D : Type 0} (remain : ℕ) (body : Bytes) (k : ℕ) (out : Bytes) (dev : D)
    (r : Bytes × ℕ × D) : Type 0 where
  pub bytes : take r.1 r.0 ≡ take (min remain (length out)) (drop k body)
  pub count : r.1 ≡ min (min remain (length out)) (length body - k)
  pub same_length : length r.0 ≡ length out
  pub same_device : r.2 ≡ dev

module _ (B : BlockIo) (disk : ℕ → Bytes) (dev : B.Dev) (h : Reads B disk dev) (fs : Fat16)
    (z : IsSized fs) where
  IsRead-nothing :
      (remain : ℕ) (body : Bytes) (k : ℕ) (out : Bytes)
      → min (min remain (length out)) (length body - k) ≡ 0
      → IsRead remain body k out dev (out, 0, dev)
  IsRead-nothing remain body k out e =
      let (bytes, count, len, _, _) = Got-nothing B disk dev h remain out 0 body k (omega arith) in
      record {
        bytes = bytes ∙ ap (λ (n : ℕ). take n (drop k body)) (minus_zero (min remain (length out)));
        count = omega arith;
        same_length = len;
        same_device = refl;
      }

  read_covered-IsRead :
      (c : ℕ) (cs : List ℕ) (remain offset : ℕ) (out : Bytes) (r : Option (ℕ × ℕ))
      → Covers disk h.sized fs z (c ∷ cs) offset r
      → IsRead remain
          (chain_data disk fs (c ∷ cs))
          offset
          out
          dev
          (read_covered B r remain out dev fs)
  read_covered-IsRead c cs remain offset out none past =
      IsRead-nothing remain (chain_data disk fs (c ∷ cs)) offset out (omega arith)
  read_covered-IsRead c cs remain offset out (some (cluster, left)) (rest, chain, inside, same) =
      let body = chain_data disk fs (c ∷ cs) in
      let body' = chain_data disk fs (cluster ∷ rest) in
      let two : ltb cluster 2 ≡ false = ground (arith, chain.0) in
      let (bytes, count, len, dev_same, _) =
        Got-read_clusters B disk dev h remain fs z (remain + 1) cluster left (cluster ∷ rest) out 0
          refl chain inside (omega arith) in
      let rest_length : length body' - left ≡ length body - offset =
        sym (length-drop left body')
        ∙ (ap (λ (b : Bytes). length b) same ∙ length-drop offset body) in
      rw two (record {
        bytes =
            bytes
            ∙ (ap (λ (n : ℕ). take n (drop left body')) (minus_zero (min remain (length out)))
                ∙ ap (λ (b : Bytes). take (min remain (length out)) b) same);
        count = omega (arith, count, rest_length);
        same_length = len;
        same_device = dev_same;
      })

  -- On a device that reads without errors, on a volume whose clusters are of at least one sector: of a
  -- file whose chain is `c ∷ cs`, with all clusters in the cached table, `read_file` leaves at the front
  -- of `out` as many bytes as it says it has read, those of the chain from `offset` on, up to `size`, to
  -- the end of the chain and to the length of `out`.
  pub read_file-IsRead :
      (c : ℕ) (cs : List ℕ) (size offset : ℕ) (out : Bytes)
      → IsChain fs (c ∷ cs)
      → All (λ d. d < max_cached_clusters) (c ∷ cs)
      → IsRead
          (size - offset)
          (chain_data disk fs (c ∷ cs))
          offset
          out
          dev
          (read_file B c size offset out dev fs)
  unfolding read_file
  read_file-IsRead c cs size offset out chain cached =
      elim (Bool-cases (leb size offset || length out == 0)) [
        | inl nothing ↦
            rw nothing (
              IsRead-nothing (size - offset) (chain_data disk fs (c ∷ cs)) offset out
                (ground arith))
        | inr some_bytes ↦ rw some_bytes (
            read_covered-IsRead c cs (size - offset) offset out (covering (offset + 1) c offset fs)
              (covering-Covers disk h.sized fs z (offset + 1) c cs offset chain (omega arith)))
      ]
