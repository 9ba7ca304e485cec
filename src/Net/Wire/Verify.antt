-- ===== src/Net/Wire/Verify.antt =====
-- Every frame that servers/libtanix-net/src/tcp.rs and udp.rs build verifies at the receiver: the
-- IPv4 header sums to zero, and so does the segment with its pseudo-header.
use tanix.Bytes.{Bytes, IsBytes, slice}
use tanix.Net.Bytes.{get_u16, get_u16-put_u16, get_u16-put_u16_ne, length-put_u16}
use tanix.Bytes.Copy.{length-copy_at}
use tanix.Net.Bytes.Fields.{
  set-IsBytes, put_u16-IsBytes, put_u32-IsBytes, copy_at-IsBytes, slice-set_behind,
  slice-put_u16_behind, slice-put_u32_behind, slice-copy_at_behind, get_u16-copy_at_before,
  length-put_u32,
}
use tanix.Net.Checksum.{checksum_seed, pseudo_seed}
use tanix.Net.Wire.{
  TxCtx, patch_checksum, udp_fields, tcp_fields, udp_frame, tcp_frame, ipproto_udp, ipproto_tcp,
}
use tanix.Prelude.{ℕ, inl, ◌+◌, ◌*◌, ◌%◌, ◌^◌, ◌<◌, ◌≤◌, ◌≡◌, ap, ◌∙◌, arith, length, length-set}
use tanix.Net.Wire.Headers.{
  headed, patch_verifies, pseudo_seed-lt, headed-length, headed-IsBytes, headed_verifies,
}

-- The transport fields behind the header: they leave it alone, write bytes, and leave the checksum
-- zero.
module _ (sport dport total : ℕ) (payload b : Bytes) (h : IsBytes b) (hp : IsBytes payload) where
  udp_fields-header : slice (udp_fields sport dport total payload b) 14 34 ≡ slice b 14 34
  unfolding udp_fields
  udp_fields-header =
      slice-copy_at_behind _ 14 34 42 payload (omega arith) (omega arith)
      ∙ (slice-put_u16_behind _ 14 34 40 0 (omega arith) (omega arith)
          ∙ (slice-put_u16_behind _ 14 34 38 _ (omega arith) (omega arith)
              ∙ (slice-put_u16_behind _ 14 34 36 dport (omega arith) (omega arith)
                  ∙ slice-put_u16_behind b 14 34 34 sport (omega arith) (omega arith))))

  udp_fields-length : length (udp_fields sport dport total payload b) ≡ length b
  unfolding udp_fields
  udp_fields-length = simp (length-copy_at, length-put_u16)

  udp_fields-IsBytes : IsBytes (udp_fields sport dport total payload b)
  unfolding udp_fields
  udp_fields-IsBytes =
      copy_at-IsBytes _ 42 payload
        (put_u16-IsBytes _ 40 0
          (put_u16-IsBytes _ 38 _ (put_u16-IsBytes _ 36 dport (put_u16-IsBytes b 34 sport h))))
        hp

  udp_fields-zero : 42 ≤ length b → get_u16 (udp_fields sport dport total payload b) 40 ≡ 0
  unfolding udp_fields
  udp_fields-zero room =
      get_u16-copy_at_before _ 42 payload 40 (omega arith)
      ∙ get_u16-put_u16 _ 40 0 (simp length-put_u16 (omega arith)) (omega arith)

module _ (sport dport seq ack flags wnd : ℕ) (payload b : Bytes) (h : IsBytes b)
    (hp : IsBytes payload) (hf : flags < 256) where
  tcp_fields-header :
      slice (tcp_fields sport dport seq ack flags wnd payload b) 14 34 ≡ slice b 14 34
  unfolding tcp_fields
  tcp_fields-header =
      slice-copy_at_behind _ 14 34 54 payload (omega arith) (omega arith)
      ∙ (slice-put_u16_behind _ 14 34 52 0 (omega arith) (omega arith)
          ∙ (slice-put_u16_behind _ 14 34 50 0 (omega arith) (omega arith)
              ∙ (slice-put_u16_behind _ 14 34 48 wnd (omega arith) (omega arith)
                  ∙ (slice-set_behind _ 14 34 47 flags (omega arith) (omega arith)
                      ∙ (slice-set_behind _ 14 34 46 0x50 (omega arith) (omega arith)
                          ∙ (slice-put_u32_behind _ 14 34 42 ack (omega arith) (omega arith)
                              ∙ (slice-put_u32_behind _ 14 34 38 seq (omega arith) (omega arith)
                                  ∙ (slice-put_u16_behind _ 14 34 36 dport (omega arith)
                                        (omega arith)
                                      ∙ slice-put_u16_behind b 14 34 34 sport (omega arith)
                                          (omega arith)))))))))

  tcp_fields-length : length (tcp_fields sport dport seq ack flags wnd payload b) ≡ length b
  unfolding tcp_fields
  tcp_fields-length = simp (length-copy_at, length-put_u16, length-put_u32, length-set)

  tcp_fields-IsBytes : IsBytes (tcp_fields sport dport seq ack flags wnd payload b)
  unfolding tcp_fields
  tcp_fields-IsBytes =
      copy_at-IsBytes _ 54 payload
        (put_u16-IsBytes _ 52 0 (
          put_u16-IsBytes _ 50 0 (
            put_u16-IsBytes _ 48 wnd (
              set-IsBytes _ 47 flags
                (set-IsBytes _ 46 0x50
                  (put_u32-IsBytes _ 42 ack (
                    put_u32-IsBytes _ 38 seq
                      (put_u16-IsBytes _ 36 dport (put_u16-IsBytes b 34 sport h))))
                  (omega arith))
                hf))))
        hp

  tcp_fields-zero :
      54 ≤ length b → get_u16 (tcp_fields sport dport seq ack flags wnd payload b) 50 ≡ 0
  unfolding tcp_fields
  tcp_fields-zero room =
      get_u16-copy_at_before _ 54 payload 50 (omega arith)
      ∙ (get_u16-put_u16_ne _ 52 0 50 (inl (omega arith))
          ∙ get_u16-put_u16 _ 50 0 (simp (length-put_u16, length-put_u32, length-set) (omega arith))
              (omega arith))

-- Patching the transport checksum leaves the header as it verifies, and makes the segment verify.
transport_verifies :
    (b2 b3 : Bytes) (k len seed : ℕ)
    → checksum_seed (slice b2 14 34) 0 ≡ 0
    → slice b3 14 34 ≡ slice b2 14 34
    → IsBytes b3
    → 34 + len ≤ length b3
    → 2 * k + 1 < len
    → len ≤ 2 ^ 16
    → seed < 2 ^ 30
    → get_u16 b3 (34 + 2 * k) ≡ 0
    → let f = patch_checksum (34 + 2 * k) 34 (34 + len) seed b3 in
      (checksum_seed (slice f 14 34) 0 ≡ 0) × (checksum_seed (slice f 34 (34 + len)) seed ≡ 0)
unfolding patch_checksum
transport_verifies b2 b3 k len seed ok same h room inside short low z = (
  ap (λ (c : Bytes). checksum_seed c 0)
        (slice-put_u16_behind b3 14 34 (34 + 2 * k) (checksum_seed (slice b3 34 (34 + len)) seed)
            (omega arith) (omega arith)
          ∙ same)
      ∙ ok,
  patch_verifies b3 34 (34 + len) k seed h room (omega arith) (omega arith) low z,
)

-- The addresses, the payload and the slice of the buffer are bytes.
pub record HasBytes (ctx : TxCtx) (dst_mac dst_ip payload b : Bytes) : Type 0 where
  pub station : IsBytes ctx.mac
  pub host : IsBytes ctx.my_ip
  pub to_station : IsBytes dst_mac
  pub to_host : IsBytes dst_ip
  pub carried : IsBytes payload
  pub scratch : IsBytes b

-- What a receiver checks of a frame of `len` bytes of transport segment: both sums are zero.
abbrev pub Verifies : TxCtx → Bytes → ℕ → ℕ → Bytes → Type 0
Verifies ctx dst_ip proto len frame =
    (checksum_seed (slice frame 14 34) 0 ≡ 0)
    × (checksum_seed (slice frame 34 (34 + len)) (pseudo_seed ctx.my_ip dst_ip proto len) ≡ 0)

-- In a slice of the queue's buffer of the size of the frame, at most 1518 bytes, the UDP frame
-- verifies, whatever bytes stood in the slice before: the IPv4 sum and the UDP sum come to zero.
udp_frame-Verifies :
    (ctx : TxCtx) (dst_mac dst_ip : Bytes) (sport dport : ℕ) (payload b : Bytes)
    → HasBytes ctx dst_mac dst_ip payload b
    → length b ≡ 42 + length payload
    → length b ≤ 1518
    → Verifies ctx dst_ip ipproto_udp
        (8 + length payload)
        (udp_frame ctx dst_mac dst_ip sport dport payload b)
unfolding udp_frame headed
udp_frame-Verifies ctx dst_mac dst_ip sport dport payload b hb len small =
    let n = 8 + length payload in
    let total = 14 + 20 + 8 + length payload in
    let whole : n % 2 ^ 16 ≡ n = omega arith in
    let b2 = headed dst_mac dst_ip ctx.mac ctx.my_ip total ctx.ip_id ipproto_udp b in
    let h2 : IsBytes b2 =
      headed-IsBytes dst_mac dst_ip ctx.mac ctx.my_ip b total ctx.ip_id ipproto_udp hb.scratch
        hb.to_station hb.to_host hb.station hb.host (omega arith) (omega arith) in
    let l2 : length b2 ≡ length b =
      headed-length dst_mac dst_ip ctx.mac ctx.my_ip b total ctx.ip_id ipproto_udp hb.scratch
        hb.to_station hb.to_host hb.station hb.host (omega arith) (omega arith) in
    let b3 = udp_fields sport dport total payload b2 in
    let l3 = udp_fields-length sport dport total payload b2 h2 hb.carried in
    rw whole (
      transport_verifies b2 b3 3 n (pseudo_seed ctx.my_ip dst_ip ipproto_udp n)
        (headed_verifies dst_mac dst_ip ctx.mac ctx.my_ip b total ctx.ip_id ipproto_udp hb.scratch
          hb.to_station hb.to_host hb.station hb.host (omega arith) (omega arith))
        (udp_fields-header sport dport total payload b2 h2 hb.carried)
        (udp_fields-IsBytes sport dport total payload b2 h2 hb.carried) (omega (arith, l3, l2))
        (omega arith) (omega arith)
        (pseudo_seed-lt ctx.my_ip dst_ip ipproto_udp n hb.host hb.to_host (omega arith)
          (omega arith))
        (udp_fields-zero sport dport total payload b2 h2 hb.carried (omega (arith, l2))))

-- In a slice of the queue's buffer of the size of the frame, at most 1518 bytes, the TCP frame
-- verifies, whatever bytes stood in the slice before, for flags of one byte: the IPv4 sum and the
-- TCP sum come to zero.
pub tcp_frame-Verifies :
    (ctx : TxCtx) (dst_mac dst_ip : Bytes) (sport dport seq ack flags wnd : ℕ) (payload b : Bytes)
    → HasBytes ctx dst_mac dst_ip payload b
    → flags < 256
    → length b ≡ 54 + length payload
    → length b ≤ 1518
    → Verifies ctx dst_ip ipproto_tcp
        (20 + length payload)
        (tcp_frame ctx dst_mac dst_ip sport dport seq ack flags wnd payload b)
unfolding tcp_frame headed
tcp_frame-Verifies ctx dst_mac dst_ip sport dport seq ack flags wnd payload b hb hf len small =
    let n = 20 + length payload in
    let total = 14 + 20 + 20 + length payload in
    let whole : n % 2 ^ 16 ≡ n = omega arith in
    let b2 = headed dst_mac dst_ip ctx.mac ctx.my_ip total ctx.ip_id ipproto_tcp b in
    let h2 : IsBytes b2 =
      headed-IsBytes dst_mac dst_ip ctx.mac ctx.my_ip b total ctx.ip_id ipproto_tcp hb.scratch
        hb.to_station hb.to_host hb.station hb.host (omega arith) (omega arith) in
    let l2 : length b2 ≡ length b =
      headed-length dst_mac dst_ip ctx.mac ctx.my_ip b total ctx.ip_id ipproto_tcp hb.scratch
        hb.to_station hb.to_host hb.station hb.host (omega arith) (omega arith) in
    let b3 = tcp_fields sport dport seq ack flags wnd payload b2 in
    let l3 = tcp_fields-length sport dport seq ack flags wnd payload b2 h2 hb.carried hf in
    rw whole (
      transport_verifies b2 b3 8 n (pseudo_seed ctx.my_ip dst_ip ipproto_tcp n)
        (headed_verifies dst_mac dst_ip ctx.mac ctx.my_ip b total ctx.ip_id ipproto_tcp hb.scratch
          hb.to_station hb.to_host hb.station hb.host (omega arith) (omega arith))
        (tcp_fields-header sport dport seq ack flags wnd payload b2 h2 hb.carried hf)
        (tcp_fields-IsBytes sport dport seq ack flags wnd payload b2 h2 hb.carried hf)
        (omega (arith, l3, l2)) (omega arith) (omega arith)
        (pseudo_seed-lt ctx.my_ip dst_ip ipproto_tcp n hb.host hb.to_host (omega arith)
          (omega arith))
        (tcp_fields-zero sport dport seq ack flags wnd payload b2 h2 hb.carried hf
          (omega (arith, l2))))
