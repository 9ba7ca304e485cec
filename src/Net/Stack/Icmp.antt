-- ===== src/Net/Stack/Icmp.antt =====
-- servers/libtanix-net/src/lib.rs: ICMP echo. The builders leave some bytes of the buffer alone, and
-- take the sums over what stands there.
use tanix.Bytes.{Bytes, at, copy_at, slice}
use tanix.Net.Bytes.{put_u16, get_u16}
use tanix.Net.Checksum.{checksum}
use tanix.Net.Out.{OutQueue}
use tanix.Net.Stack.{NetStack, Net, cache_get, place}
use tanix.Net.Wire.{ethertype_ipv4, ipproto_icmp}
use tanix.Prelude.{
  ℕ, ◌+◌, ◌-◌, ◌%◌, ◌^◌, min, Bool, true, false, none, some, [], ◌∷◌, length, set, ltb, ◌==◌,
  if◌then◌else◌,
}

abbrev pub icmp_echo_payload : ℕ
icmp_echo_payload = 16

-- The letters from `a` on, of which 16 bytes reach `p`.
abbrev letters : Bytes
letters =
    97
    ∷ (98
        ∷ (99
            ∷ (100
                ∷ (101
                    ∷ (102
                        ∷ (103
                            ∷ (104
                                ∷ (105
                                    ∷ (106
                                        ∷ (107
                                            ∷ (108 ∷ (109 ∷ (110 ∷ (111 ∷ (112 ∷ [])))))))))))))))

-- The ethernet and IPv4 fields that the builders set: neither the type of service, nor the flags,
-- nor the checksum is among them.
unfoldable pub icmp_ip_fields : NetStack → Bytes → Bytes → ℕ → Bytes → Bytes
icmp_ip_fields n dst_mac dst_ip total b =
    let b = copy_at b 0 dst_mac in
    let b = copy_at b 6 n.mac in
    let b = put_u16 b 12 ethertype_ipv4 in
    let b = set b 14 0x45 in
    let b = put_u16 b 16 (total - 14) in
    let b = put_u16 b 18 n.ip_id in
    let b = set b 22 64 in
    let b = set b 23 ipproto_icmp in let b = copy_at b 26 n.my_ip in copy_at b 30 dst_ip

-- Both sums, as they are written over the bytes of their fields.
unfoldable pub icmp_sums : ℕ → Bytes → Bytes
icmp_sums total b =
    let b = put_u16 b 36 (checksum (slice b 34 total)) in put_u16 b 24 (checksum (slice b 14 34))

unfoldable pub echo_request_frame : NetStack → Bytes → Bytes → Bytes → Bytes
echo_request_frame n dst_mac dst_ip b =
    let b = icmp_ip_fields n dst_mac dst_ip 58 b in
    let b = set b 34 8 in
    let b = put_u16 b 38 n.ping_id in
    let b = put_u16 b 40 n.ping_seq in let b = copy_at b 42 letters in icmp_sums 58 b

unfoldable pub echo_reply_frame : NetStack → Bytes → Bytes → Bytes → ℕ → Bytes → Bytes
echo_reply_frame n peer_mac peer_ip icmp payload_len b =
    let total = 42 + payload_len in
    let b = icmp_ip_fields n peer_mac peer_ip total b in
    let b = set b 34 0 in
    let b = set b 35 0 in
    let b = copy_at b 38 (slice icmp 4 8) in
    let b = copy_at b 42 (slice icmp 8 (8 + payload_len)) in icmp_sums total b

abbrev pub next_u16 : ℕ → ℕ
next_u16 v = (v + 1) % 2 ^ 16

unfoldable pub icmp_echo_send : Bytes → NetStack → OutQueue → Bool × Net
icmp_echo_send dst_ip n q = elim (cache_get dst_ip n) [
  | none ↦ (false, (n, q))
  | some dst_mac ↦
      let (sent, q') = place 58 (echo_request_frame n dst_mac dst_ip) q in
      if sent
      then (true, (record n { ip_id = next_u16 n.ip_id; ping_seq = next_u16 n.ping_seq }, q'))
      else (false, (n, q))
]

-- At most 64 bytes of the payload come back.
unfoldable pub icmp_reply : Bytes → Bytes → Bytes → NetStack → OutQueue → Net
icmp_reply peer_mac peer_ip icmp n q =
    let payload_len = min (length icmp - 8) 64 in
    let (sent, q') =
      place (42 + payload_len) (echo_reply_frame n peer_mac peer_ip icmp payload_len) q in
    if ltb (length icmp) 8
    then (n, q)
    else if sent
    then (record n { ip_id = next_u16 n.ip_id }, q')
    else (n, q)

unfoldable pub handle_icmp : Bytes → Bytes → Bytes → NetStack → OutQueue → Net
handle_icmp seg src_mac src_ip n q =
    if ltb (length seg) 8
    then (n, q)
    else if at seg 0 == 0
    then (record n { pong_id = get_u16 seg 4; pong_seq = get_u16 seg 6 }, q)
    else if at seg 0 == 8
    then icmp_reply src_mac src_ip seg n q
    else (n, q)
