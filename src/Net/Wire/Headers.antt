-- ===== src/Net/Wire/Headers.antt =====
-- The IPv4 header of the frames that servers/libtanix-net/src/tcp.rs and udp.rs build.
use tanix.Bytes.{Bytes, IsBytes, slice}
use tanix.Net.Bytes.{get_u16, get_u16-put_u16, length-put_u16}
use tanix.Bytes.Copy.{length-copy_at, length-slice}
use tanix.Net.Bytes.Fields.{
  set-IsBytes, put_u16-IsBytes, copy_at-IsBytes, slice-IsBytes, at-lt, slice-put_u16, get_u16-slice,
  get_u16-copy_at_before,
}
use tanix.Net.Checksum.{checksum_seed, pseudo_seed}
use tanix.Net.Checksum.Verify.{checksum_verifies}
use tanix.Net.Wire.{ip_fields, patch_checksum}
use tanix.Prelude.{ℕ, ◌+◌, ◌-◌, ◌*◌, ◌^◌, ◌<◌, ◌≤◌, ◌≡◌, ◌∙◌, arith, length, length-set}

-- A checksum that is patched into a zero field verifies over the bytes that it was taken of.
pub patch_verifies :
    (b : Bytes) (from to k seed : ℕ)
    → IsBytes b
    → to ≤ length b
    → from + (2 * k + 1) < to
    → to - from ≤ 2 ^ 16
    → seed < 2 ^ 30
    → get_u16 b (from + 2 * k) ≡ 0
    → checksum_seed (slice (patch_checksum (from + 2 * k) from to seed b) from to) seed ≡ 0
unfolding patch_checksum
patch_verifies b from to k seed h le inside short low z =
    let len = length-slice b from to le in
    rw (slice-put_u16 b from to (2 * k) (checksum_seed (slice b from to) seed)) (
      checksum_verifies (slice b from to) k seed (slice-IsBytes b from to h) (omega arith)
        (omega arith) low (get_u16-slice b from to (2 * k) (omega arith) ∙ z))

pub pseudo_seed-lt :
    (src dst : Bytes) (proto len : ℕ)
    → IsBytes src
    → IsBytes dst
    → proto < 256
    → len < 2 ^ 16
    → pseudo_seed src dst proto len < 2 ^ 30
unfolding pseudo_seed
pseudo_seed-lt src dst proto len hs hd p l = omega (
  arith,
  at-lt src (2 * 0) hs,
  at-lt src (2 * 0 + 1) hs,
  at-lt src (2 * 1) hs,
  at-lt src (2 * 1 + 1) hs,
  at-lt dst (2 * 0) hd,
  at-lt dst (2 * 0 + 1) hd,
  at-lt dst (2 * 1) hd,
  at-lt dst (2 * 1 + 1) hd,
)

-- The frame once its IPv4 header is complete.
unfoldable pub headed : Bytes → Bytes → Bytes → Bytes → ℕ → ℕ → ℕ → Bytes → Bytes
headed dst_mac dst_ip mac my_ip total id proto b =
    patch_checksum 24 14 34 0 (ip_fields dst_mac dst_ip mac my_ip total id proto b)

module _ (dst_mac dst_ip mac my_ip b : Bytes) (total id proto : ℕ) (b_bytes : IsBytes b)
    (dm : IsBytes dst_mac) (di : IsBytes dst_ip) (mm : IsBytes mac) (mi : IsBytes my_ip)
    (pb : proto < 256) (room : 34 ≤ length b) where
  ip_fields-length : length (ip_fields dst_mac dst_ip mac my_ip total id proto b) ≡ length b
  unfolding ip_fields
  ip_fields-length = simp (length-copy_at, length-put_u16, length-set)

  ip_fields-IsBytes : IsBytes (ip_fields dst_mac dst_ip mac my_ip total id proto b)
  unfolding ip_fields
  ip_fields-IsBytes =
      copy_at-IsBytes _ 30 dst_ip
        (copy_at-IsBytes _ 26 my_ip
          (put_u16-IsBytes _ 24 0 (
            set-IsBytes _ 23 proto
              (set-IsBytes _ 22 64
                (set-IsBytes _ 21 0
                  (set-IsBytes _ 20 0
                    (put_u16-IsBytes _ 18 id (
                      put_u16-IsBytes _ 16 _ (
                        set-IsBytes _ 15 0
                          (set-IsBytes _ 14 0x45
                            (put_u16-IsBytes _ 12 _
                              (copy_at-IsBytes _ 6 mac (copy_at-IsBytes b 0 dst_mac b_bytes dm) mm))
                            (omega arith))
                          (omega arith))))
                    (omega arith))
                  (omega arith))
                (omega arith))
              pb))
          mi)
        di

  -- The checksum field is zero when the checksum is taken.
  ip_fields-zero : get_u16 (ip_fields dst_mac dst_ip mac my_ip total id proto b) 24 ≡ 0
  unfolding ip_fields
  ip_fields-zero =
      get_u16-copy_at_before _ 30 dst_ip 24 (omega arith)
      ∙ (get_u16-copy_at_before _ 26 my_ip 24 (omega arith)
          ∙ get_u16-put_u16 _ 24 0 (simp (length-set, length-put_u16, length-copy_at) (omega arith))
              (omega arith))

  pub headed-length : length (headed dst_mac dst_ip mac my_ip total id proto b) ≡ length b
  unfolding headed patch_checksum
  headed-length = length-put_u16 _ 24 _ ∙ ip_fields-length

  pub headed-IsBytes : IsBytes (headed dst_mac dst_ip mac my_ip total id proto b)
  unfolding headed patch_checksum
  headed-IsBytes = put_u16-IsBytes _ 24 _ ip_fields-IsBytes

  pub headed_verifies :
      checksum_seed (slice (headed dst_mac dst_ip mac my_ip total id proto b) 14 34) 0 ≡ 0
  unfolding headed
  headed_verifies =
      patch_verifies (ip_fields dst_mac dst_ip mac my_ip total id proto b) 14 34 5 0
        ip_fields-IsBytes (omega (arith, ip_fields-length)) (omega arith) (omega arith)
        (omega arith) ip_fields-zero
