-- ===== src/Net/Wire.antt =====
-- The frame builders of servers/libtanix-net/src/tcp.rs and udp.rs, and what both begin with: the
-- ethernet and the IPv4 header. A frame is built in its slice of the queue's buffer.
pub mod Headers
pub mod Verify
use tanix.Bytes.{Bytes, at, slice, copy_at}
use tanix.Net.Bytes.{put_u16, put_u32}
use tanix.Net.Checksum.{checksum_seed, pseudo_seed}
use tanix.Net.Out
use tanix.Net.Out.{OutQueue}
use tanix.Prelude.{
  ℕ, ◌+◌, ◌-◌, ◌%◌, ◌^◌, Option, none, some, Bool, true, false, set, length, if◌then◌else◌,
}

abbrev pub ethertype_arp : ℕ
ethertype_arp = 0x0806

abbrev pub ethertype_ipv4 : ℕ
ethertype_ipv4 = 0x0800

abbrev pub ipproto_icmp : ℕ
ipproto_icmp = 1

abbrev pub ipproto_tcp : ℕ
ipproto_tcp = 6

abbrev pub ipproto_udp : ℕ
ipproto_udp = 17

-- What a socket needs to emit frames: the station's addresses, the next IP identification and the
-- queue. Addresses are their bytes, 6 for a station and 4 for a host.
pub record TxCtx : Type 0 where
  pub mac : Bytes
  pub my_ip : Bytes
  pub ip_id : ℕ
  pub q : OutQueue

-- `total as u16 - k`
abbrev pub sub_u16 : ℕ → ℕ → ℕ
sub_u16 total k = (total % 2 ^ 16 + 2 ^ 16 - k) % 2 ^ 16

-- The headers up to the IPv4 addresses, with the header checksum still zero.
unfoldable pub ip_fields : Bytes → Bytes → Bytes → Bytes → ℕ → ℕ → ℕ → Bytes → Bytes
ip_fields dst_mac dst_ip mac my_ip total id proto b =
    let b = copy_at b 0 dst_mac in
    let b = copy_at b 6 mac in
    let b = put_u16 b 12 ethertype_ipv4 in
    let b = set b 14 0x45 in
    let b = set b 15 0 in
    let b = put_u16 b 16 (sub_u16 total 14) in
    let b = put_u16 b 18 id in
    let b = set b 20 0 in
    let b = set b 21 0 in
    let b = set b 22 64 in
    let b = set b 23 proto in
    let b = put_u16 b 24 0 in let b = copy_at b 26 my_ip in copy_at b 30 dst_ip

-- `put_u16(b, field, checksum_seed(&b[from..to], seed))`
unfoldable pub patch_checksum : ℕ → ℕ → ℕ → ℕ → Bytes → Bytes
patch_checksum field from to seed b = put_u16 b field (checksum_seed (slice b from to) seed)

-- The UDP header and payload behind the IPv4 header, with the checksum still zero.
unfoldable pub udp_fields : ℕ → ℕ → ℕ → Bytes → Bytes → Bytes
udp_fields src_port dst_port total payload b =
    let b = put_u16 b 34 src_port in
    let b = put_u16 b 36 dst_port in
    let b = put_u16 b 38 (sub_u16 total 34) in let b = put_u16 b 40 0 in copy_at b 42 payload

unfoldable pub tcp_fields : ℕ → ℕ → ℕ → ℕ → ℕ → ℕ → Bytes → Bytes → Bytes
tcp_fields src_port dst_port seq ack flags wnd payload b =
    let b = put_u16 b 34 src_port in
    let b = put_u16 b 36 dst_port in
    let b = put_u32 b 38 seq in
    let b = put_u32 b 42 ack in
    let b = set b 46 0x50 in
    let b = set b 47 flags in
    let b = put_u16 b 48 wnd in
    let b = put_u16 b 50 0 in let b = put_u16 b 52 0 in copy_at b 54 payload

-- A frame of `total` bytes is reserved, and `build` writes into its slice of the buffer.
unfoldable pub emit : ℕ → (Bytes → Bytes) → TxCtx → Bool × TxCtx
emit total build ctx =
    let (start, q) = Out.push total ctx.q in
    elim start [
      | none ↦ (false, ctx)
      | some s ↦ (
        true,
        record ctx {
          ip_id = (ctx.ip_id + 1) % 2 ^ 16;
          q = record q { buf = copy_at q.buf s (build (slice q.buf s (s + total))) };
        },
      )
    ]

unfoldable pub udp_frame : TxCtx → Bytes → Bytes → ℕ → ℕ → Bytes → Bytes → Bytes
udp_frame ctx dst_mac dst_ip src_port dst_port payload b =
    let total = 14 + 20 + 8 + length payload in
    let udp_len = 8 + length payload in
    let b = ip_fields dst_mac dst_ip ctx.mac ctx.my_ip total ctx.ip_id ipproto_udp b in
    let b = patch_checksum 24 14 34 0 b in
    let b = udp_fields src_port dst_port total payload b in
    patch_checksum 40 34 (34 + udp_len)
      (pseudo_seed ctx.my_ip dst_ip ipproto_udp (udp_len % 2 ^ 16)) b

unfoldable pub push_udp_frame : Bytes → Bytes → ℕ → ℕ → Bytes → TxCtx → Bool × TxCtx
push_udp_frame dst_mac dst_ip src_port dst_port payload ctx =
    emit (14 + 20 + 8 + length payload) (udp_frame ctx dst_mac dst_ip src_port dst_port payload) ctx

unfoldable pub tcp_frame : TxCtx → Bytes → Bytes → ℕ → ℕ → ℕ → ℕ → ℕ → ℕ → Bytes → Bytes → Bytes
tcp_frame ctx dst_mac dst_ip src_port dst_port seq ack flags wnd payload b =
    let total = 14 + 20 + 20 + length payload in
    let tcp_len = 20 + length payload in
    let b = ip_fields dst_mac dst_ip ctx.mac ctx.my_ip total ctx.ip_id ipproto_tcp b in
    let b = patch_checksum 24 14 34 0 b in
    let b = tcp_fields src_port dst_port seq ack flags wnd payload b in
    patch_checksum 50 34 (34 + tcp_len)
      (pseudo_seed ctx.my_ip dst_ip ipproto_tcp (tcp_len % 2 ^ 16)) b

unfoldable pub push_tcp_frame : Bytes → Bytes → ℕ → ℕ → ℕ → ℕ → ℕ → ℕ → Bytes → TxCtx → Bool × TxCtx
push_tcp_frame dst_mac dst_ip src_port dst_port seq ack flags wnd payload ctx =
    emit (14 + 20 + 20 + length payload)
      (tcp_frame ctx dst_mac dst_ip src_port dst_port seq ack flags wnd payload) ctx
