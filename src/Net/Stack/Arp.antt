-- ===== src/Net/Stack/Arp.antt =====
-- servers/libtanix-net/src/lib.rs: ARP, the probe for the gateway and the answers.
use tanix.Bytes.{Bytes, at, eq_bytes, copy_at, slice}
use tanix.Net.Bytes.{put_u16, get_u16}
use tanix.Net.Ip.{parse_eth}
use tanix.Net.Out.{OutQueue}
use tanix.Net.Stack.{NetStack, Net, cache_add, place}
use tanix.Net.Wire.{ethertype_arp}
use tanix.Prelude.{
  ℕ, Bool, ◌&&◌, ◌||◌, not, none, some, length, replicate, set, ltb, ◌==◌, if◌then◌else◌,
}

-- The 42 bytes of an ARP frame from this station.
unfoldable pub arp_frame : NetStack → ℕ → Bytes → Bytes → Bytes → Bytes → Bytes
arp_frame n op dst_mac target_mac target_ip b =
    let b = copy_at b 0 dst_mac in
    let b = copy_at b 6 n.mac in
    let b = put_u16 b 12 ethertype_arp in
    let b = put_u16 b 14 1 in
    let b = put_u16 b 16 0x0800 in
    let b = set b 18 6 in
    let b = set b 19 4 in
    let b = put_u16 b 20 op in
    let b = copy_at b 22 n.mac in
    let b = copy_at b 28 n.my_ip in let b = copy_at b 32 target_mac in copy_at b 38 target_ip

-- Who has the gateway.
unfoldable pub arp_probe : NetStack → OutQueue → Bool × OutQueue
arp_probe n q = place 42 (arp_frame n 1 (replicate 6 0xFF) (replicate 6 0) n.gw_ip) q

unfoldable pub arp_reply : Bytes → Bytes → Bytes → NetStack → OutQueue → Bool × OutQueue
arp_reply dst_mac target_mac target_ip n q = place 42 (arp_frame n 2 dst_mac target_mac target_ip) q

-- The sender of a well-formed packet is learned, whatever it asks.
unfoldable pub arp_packet : Bytes → Bytes → NetStack → OutQueue → Net
arp_packet src_mac frame n q =
    let sender_mac = slice frame 22 28 in
    let sender_ip = slice frame 28 32 in
    let target_ip = slice frame 38 42 in
    let op = get_u16 frame 20 in
    let n' = cache_add sender_ip sender_mac n in
    if ltb (length frame) 42
      || not (
          get_u16 frame 14 == 1
          && get_u16 frame 16 == 0x0800
          && at frame 18 == 6
          && at frame 19 == 4)
    then (n, q)
    else if op == 1 && eq_bytes target_ip n'.my_ip
    then (n', (arp_reply src_mac sender_mac sender_ip n' q).1)
    else if op == 2 && eq_bytes sender_ip n'.gw_ip
    then (record n' { gw_mac = some sender_mac }, q)
    else (n', q)

unfoldable pub handle_arp : Bytes → NetStack → OutQueue → Net
handle_arp frame n q = elim (parse_eth frame) [
  | none ↦ (n, q)
  | some h ↦ arp_packet h.src frame n q
]
