-- ===== src/Net/Stack/Frames.antt =====
-- A frame of any content leaves the sockets of the stack of servers/libtanix-net/src/lib.rs valid, or
-- it makes the handler panic; and where it does.
use mathlib.Core.Option
use mathlib.Core.Path.{subst}
use tanix.Bytes.{Bytes, slice}
use tanix.Net.Bytes.{get_u16}
use tanix.Net.Ip.{EthHdr, Ip4Hdr, parse_eth, parse_ip4}
use tanix.Net.Out.{OutQueue}
use tanix.Net.Stack.{NetStack, Net, cache_add}
use tanix.Net.Stack.Arp.{handle_arp}
use tanix.Net.Stack.Icmp.{handle_icmp}
use tanix.Net.Stack.Ingress.{handle_udp, by_proto, datagram, handle_ip4, by_ethertype, on_frame}
use tanix.Net.Stack.Sockets.{
  IsValidSlot, AreValid, tcp-cache_add, tcp-handle_arp, tcp-handle_icmp, handle_tcp-AreValid,
}
use tanix.Net.Tcp.{TcpSocket}
use tanix.Prelude.{ℕ, ◌+◌, min, ◌<◌, ◌≤◌, ◌≡◌, sym, Option, none, some, List, arith, All, length}

-- The sockets of the result, where there is one.
abbrev pub AreValidIn : Option Net → Type 0
AreValidIn none = Unit
AreValidIn (some r) = AreValid r.0

same_sockets : (n m : NetStack) → m.tcp ≡ n.tcp → AreValid n → AreValid m
same_sockets n m e v = subst (λ (t : List (Option TcpSocket)). All IsValidSlot t) (sym e) v

handle_udp-AreValidIn :
    (seg ip : Bytes) (n : NetStack) (q : OutQueue)
    → AreValid n
    → AreValidIn (Option.map (λ (m : NetStack). (m, q)) (handle_udp seg ip n))
unfolding handle_udp
handle_udp-AreValidIn seg ip n q v = ground (arith, v)

by_proto-AreValidIn :
    (hdr : Ip4Hdr) (payload mac : Bytes) (now : ℕ) (n : NetStack) (q : OutQueue)
    → AreValid n
    → AreValidIn (by_proto hdr payload mac now n q)
unfolding by_proto
by_proto-AreValidIn hdr payload mac now n q v = ground (
  arith,
  v,
  same_sockets n (handle_icmp payload mac hdr.src n q).0 (tcp-handle_icmp payload mac hdr.src n q)
      v,
  handle_udp-AreValidIn payload hdr.src n q v,
  handle_tcp-AreValid n v payload hdr.src mac now q,
)

datagram-AreValidIn :
    (frame mac : Bytes) (now : ℕ) (n : NetStack) (q : OutQueue) (h : Option Ip4Hdr)
    → AreValid n
    → AreValidIn (datagram frame mac now n q h)
unfolding datagram
datagram-AreValidIn frame mac now n q none v = v
datagram-AreValidIn frame mac now n q (some hdr) v =
    let learned = cache_add hdr.src mac n in
    ground (
      arith,
      v,
      by_proto-AreValidIn hdr (slice frame hdr.transport (min (length frame) (14 + hdr.total_len)))
          mac now learned q (same_sockets n learned (tcp-cache_add hdr.src mac n) v),
    )

by_ethertype-AreValidIn :
    (frame : Bytes) (now : ℕ) (n : NetStack) (q : OutQueue) (h : Option EthHdr)
    → AreValid n
    → AreValidIn (by_ethertype frame now n q h)
unfolding by_ethertype handle_ip4
by_ethertype-AreValidIn frame now n q none v = v
by_ethertype-AreValidIn frame now n q (some h) v = ground (
  arith,
  v,
  same_sockets n (handle_arp frame n q).0 (tcp-handle_arp frame n q) v,
  datagram-AreValidIn frame h.src now n q (parse_ip4 frame) v,
)

pub on_frame-AreValid :
    (frame : Bytes) (now : ℕ) (n : NetStack) (q : OutQueue)
    → AreValid n
    → AreValidIn (on_frame frame now n q)
unfolding on_frame
on_frame-AreValid frame now n q v = by_ethertype-AreValidIn frame now n q (parse_eth frame) v

-- The UDP handler panics exactly on a segment of at least 8 bytes whose length field is below 8.
pub handle_udp-eq-none_iff :
    (seg ip : Bytes) (n : NetStack)
    → (handle_udp seg ip n ≡ none → (8 ≤ length seg) × (get_u16 seg 4 < 8))
      × (8 ≤ length seg → get_u16 seg 4 < 8 → handle_udp seg ip n ≡ none)
unfolding handle_udp
handle_udp-eq-none_iff seg ip n = ground arith
