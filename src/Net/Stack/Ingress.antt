-- ===== src/Net/Stack/Ingress.antt =====
-- servers/libtanix-net/src/lib.rs: what the stack does with an inbound frame. `none` stands for the
-- panic of a slice whose end lies before its start.
use mathlib.Core.Option
use tanix.Bytes.{Bytes, at, eq_bytes, slice}
use tanix.Net.Bytes.{get_u16, get_u32}
use tanix.Net.Ip.{EthHdr, Ip4Hdr, parse_eth, parse_ip4}
use tanix.Net.Out.{OutQueue}
use tanix.Net.Stack.{NetStack, Net, cache_add, lend, give_back}
use tanix.Net.Stack.Arp.{handle_arp}
use tanix.Net.Stack.Icmp.{handle_icmp}
use tanix.Net.Stack.UdpSockets.{deliver_to}
use tanix.Net.Stack.TcpSockets.{tcp_find}
use tanix.Net.Tcp.{TcpSocket, TcpSeg, seq_add, flag_ack, flag_rst}
use tanix.Net.Tcp.Segment.{rx_segment}
use tanix.Net.Wire.{
  push_tcp_frame, ethertype_arp, ethertype_ipv4, ipproto_icmp, ipproto_udp, ipproto_tcp,
}
use tanix.Prelude.{
  ℕ, ◌+◌, ◌*◌, ◌/◌, ◌%◌, ◌^◌, min, Bool, ◌||◌, not, Option, none, some, [], map, get_or, set,
  length, drop, replicate, ltb, ◌==◌, if◌then◌else◌,
}

unfoldable pub handle_udp : Bytes → Bytes → NetStack → Option NetStack
handle_udp seg src_ip n =
    let len = min (get_u16 seg 4) (length seg) in
    if ltb (length seg) 8
    then some n
    else if ltb len 8
    then none
    else some (record n {
      udp = map (deliver_to src_ip (get_u16 seg 0) (get_u16 seg 2) (slice seg 8 len)) n.udp;
    })

-- `flags & (1 << bit) != 0`
abbrev pub has_flag : ℕ → ℕ → Bool
has_flag flags bit = flags / 2 ^ bit % 2 == 1

unfoldable pub parse_seg : Bytes → ℕ → Bytes → Bytes → TcpSeg
parse_seg seg off src_ip src_mac = record {
  seq = get_u32 seg 4;
  ack = get_u32 seg 8;
  syn = has_flag (at seg 13) 1;
  ack_flag = has_flag (at seg 13) 4;
  fin = has_flag (at seg 13) 0;
  rst = has_flag (at seg 13) 2;
  wnd = get_u16 seg 14;
  payload = drop off seg;
  src_ip = src_ip;
  src_port = get_u16 seg 0;
  src_mac = src_mac;
}

-- No socket wants the segment: a SYN is answered by a reset.
unfoldable pub refuse : TcpSeg → ℕ → NetStack → OutQueue → Net
refuse s dport n q =
    if s.syn
    then give_back n
        (push_tcp_frame s.src_mac s.src_ip dport s.src_port 0 (seq_add s.seq (1 + length s.payload))
          (flag_rst + flag_ack) 0 [] (lend n q)).1
    else (n, q)

abbrev pub to_slot : TcpSeg → ℕ → ℕ → NetStack → OutQueue → Option TcpSocket → Net
to_slot s idx now n q none = (n, q)
to_slot s idx now n q (some sock) =
    let (sock', ctx) = rx_segment s now sock (lend n q) in
    give_back (record n { tcp = set n.tcp idx (some sock') }) ctx

unfoldable pub to_socket : TcpSeg → ℕ → ℕ → NetStack → OutQueue → Net
to_socket s idx now n q = to_slot s idx now n q (get_or n.tcp idx none)

abbrev pub route : TcpSeg → ℕ → ℕ → NetStack → OutQueue → Option ℕ → Net
route s dport now n q none = refuse s dport n q
route s dport now n q (some idx) = to_socket s idx now n q

unfoldable pub handle_tcp : Bytes → Bytes → Bytes → ℕ → NetStack → OutQueue → Net
handle_tcp seg src_ip src_mac now n q =
    let off = at seg 12 / 2 ^ 4 * 4 in
    let s = parse_seg seg off src_ip src_mac in
    let dport = get_u16 seg 2 in
    if ltb (length seg) 20 || ltb off 20 || ltb (length seg) off
    then (n, q)
    else route s dport now n q (tcp_find dport src_ip s.src_port n.tcp)

-- The handlers of the protocols, on the payload of the datagram.
unfoldable pub by_proto : Ip4Hdr → Bytes → Bytes → ℕ → NetStack → OutQueue → Option Net
by_proto hdr payload src_mac now n q =
    if hdr.proto == ipproto_icmp
    then some (handle_icmp payload src_mac hdr.src n q)
    else if hdr.proto == ipproto_udp
    then Option.map (λ (n' : NetStack). (n', q)) (handle_udp payload hdr.src n)
    else if hdr.proto == ipproto_tcp
    then some (handle_tcp payload hdr.src src_mac now n q)
    else some (n, q)

-- What is addressed to this host is handled, after its sender was learned.
unfoldable pub datagram : Bytes → Bytes → ℕ → NetStack → OutQueue → Option Ip4Hdr → Option Net
datagram frame src_mac now n q none = some (n, q)
datagram frame src_mac now n q (some hdr) =
    let end = min (length frame) (14 + hdr.total_len) in
    if not (eq_bytes hdr.dst n.my_ip)
    then some (n, q)
    else if ltb end hdr.transport
    then none
    else by_proto hdr (slice frame hdr.transport end) src_mac now (cache_add hdr.src src_mac n) q

unfoldable pub handle_ip4 : Bytes → Bytes → ℕ → NetStack → OutQueue → Option Net
handle_ip4 frame src_mac now n q = datagram frame src_mac now n q (parse_ip4 frame)

-- What is addressed to this station or to all is handled.
unfoldable pub by_ethertype : Bytes → ℕ → NetStack → OutQueue → Option EthHdr → Option Net
by_ethertype frame now n q none = some (n, q)
by_ethertype frame now n q (some h) =
    if not (eq_bytes h.dst n.mac || eq_bytes h.dst (replicate 6 0xFF))
    then some (n, q)
    else if h.etype == ethertype_arp
    then some (handle_arp frame n q)
    else if h.etype == ethertype_ipv4
    then handle_ip4 frame h.src now n q
    else some (n, q)

unfoldable pub on_frame : Bytes → ℕ → NetStack → OutQueue → Option Net
on_frame frame now n q = by_ethertype frame now n q (parse_eth frame)
