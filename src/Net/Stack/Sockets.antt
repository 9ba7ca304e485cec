-- ===== src/Net/Stack/Sockets.antt =====
-- The sockets of the stack of servers/libtanix-net/src/lib.rs keep the invariant of a socket, through
-- every call and every frame.
use tanix.Bytes.{Bytes, at, slice}
use tanix.Net.Bytes.{get_u16}
use tanix.Net.Out.{OutQueue}
use tanix.Net.Stack.{NetStack, cache_add, lend}
use tanix.Net.Stack.Arp.{handle_arp, arp_packet}
use tanix.Net.Stack.Icmp.{handle_icmp, icmp_reply}
use tanix.Net.Stack.Ingress.{refuse, route, parse_seg, to_socket, to_slot, handle_tcp}
use tanix.Net.Stack.TcpSockets.{
  tcp_listen, install, launch, connect_via, on_slot, with_socket, tcp_find, poll_sockets,
}
use tanix.Net.Stack.UdpSockets.{put_first, behind}
use tanix.Net.Tcp.{TcpSocket, TcpSeg, blank, connect}
use tanix.Net.Tcp.Invariant.{
  IsValid, blank-IsValid, connect-IsValid, rx_segment-IsValid, poll-IsValid,
}
use tanix.Net.Tcp.Poll.{poll}
use tanix.Net.Tcp.Segment.{rx_segment}
use tanix.Net.Wire.{TxCtx}
use tanix.Prelude.{
  ℕ, zero, suc, ◌*◌, ◌/◌, ◌^◌, ◌≡◌, Option, none, some, List, [], ◌∷◌, arith, get_or, All, All-set,
}

-- A slot is empty or holds a valid socket.
abbrev pub IsValidSlot : Option TcpSocket → Type 0
IsValidSlot none = Unit
IsValidSlot (some s) = IsValid s

abbrev pub AreValid : NetStack → Type 0
AreValid n = All IsValidSlot n.tcp

All-get_slot :
    (slots : List (Option TcpSocket)) (i : ℕ)
    → All IsValidSlot slots
    → IsValidSlot (get_or slots i none)
All-get_slot [] i v = tt
All-get_slot (slot ∷ slots) zero v = v.0
All-get_slot (slot ∷ slots) (suc i) v = All-get_slot slots i v.1

-- Whatever `put_first` gives is valid where the socket is.
abbrev IsValidPut : Option (ℕ × List (Option TcpSocket)) → Type 0
IsValidPut none = Unit
IsValidPut (some r) = All IsValidSlot r.1

behind-IsValidPut :
    (t : TcpSocket) (r : Option (ℕ × List (Option TcpSocket)))
    → IsValid t
    → IsValidPut r
    → IsValidPut (behind t r)
behind-IsValidPut t none v p = tt
behind-IsValidPut t (some r) v p = (v, p)

put_first-All :
    (s : TcpSocket) (slots : List (Option TcpSocket))
    → IsValid s
    → All IsValidSlot slots
    → IsValidPut (put_first s slots)
unfolding put_first
put_first-All s [] v all = tt
put_first-All s (none ∷ slots) v all = (v, all.1)
put_first-All s (some t ∷ slots) v all =
    behind-IsValidPut t (put_first s slots) all.0 (put_first-All s slots v all.1)

pub poll_sockets-All :
    (now : ℕ) (slots : List (Option TcpSocket)) (ctx : TxCtx)
    → All IsValidSlot slots
    → All IsValidSlot (poll_sockets now slots ctx).0
unfolding poll_sockets
poll_sockets-All now [] ctx v = tt
poll_sockets-All now (none ∷ slots) ctx v = (tt, poll_sockets-All now slots ctx v.1)
poll_sockets-All now (some s ∷ slots) ctx v =
    (poll-IsValid now s ctx v.0, poll_sockets-All now slots (poll now s ctx).1 v.1)

install-AreValid :
    (n : NetStack) (r : Option (ℕ × List (Option TcpSocket)))
    → AreValid n
    → IsValidPut r
    → AreValid (install n r).1
install-AreValid n none v p = v
install-AreValid n (some r) v p = p

-- Learning a neighbour leaves the sockets alone.
pub tcp-cache_add : (ip mac : Bytes) (n : NetStack) → (cache_add ip mac n).tcp ≡ n.tcp
unfolding cache_add
tcp-cache_add ip mac n = ground arith

pub tcp-handle_arp :
    (frame : Bytes) (n : NetStack) (q : OutQueue) → (handle_arp frame n q).0.tcp ≡ n.tcp
unfolding handle_arp arp_packet
tcp-handle_arp frame n q = ground (arith, tcp-cache_add (slice frame 28 32) (slice frame 22 28) n)

pub tcp-handle_icmp :
    (seg mac ip : Bytes) (n : NetStack) (q : OutQueue) → (handle_icmp seg mac ip n q).0.tcp ≡ n.tcp
unfolding handle_icmp icmp_reply
tcp-handle_icmp seg mac ip n q = ground arith

module _ (n : NetStack) (v : AreValid n) where
  pub tcp_listen-AreValid : (port : ℕ) → AreValid (tcp_listen port n).1
  unfolding tcp_listen
  tcp_listen-AreValid port = ground (
    arith,
    v,
    install-AreValid n (put_first (blank port) n.tcp) v
        (put_first-All (blank port) n.tcp (blank-IsValid port) v),
  )

  launch-AreValid :
      (mac ip : Bytes) (sock : TcpSocket) (q : OutQueue) (r : Option (ℕ × List (Option TcpSocket)))
      → IsValidPut r
      → AreValid (launch mac ip sock n q r).1.0
  launch-AreValid mac ip sock q none p = v
  launch-AreValid mac ip sock q (some r) p = p

  pub connect_via-AreValid :
      (ip : Bytes) (port now : ℕ) (q : OutQueue) (mac : Option Bytes)
      → AreValid (connect_via ip port now n q mac).1.0
  connect_via-AreValid ip port now q none = v
  connect_via-AreValid ip port now q (some mac) =
      let sock = record (connect ip port n.ephemeral now) { peer_mac = mac } in
      launch-AreValid mac ip sock q (put_first sock n.tcp) (
        put_first-All sock n.tcp
          (let c = connect-IsValid ip port n.ephemeral now in
            ground (
              arith, c.out_room, c.rx_room, c.queued, c.unread, c.stop_and_wait, c.prefix, c.based,
              c.next, c.tries,
            ))
          v)

  on_slot-AreValid :
      {A : Type 0} (d : A) (f : TcpSocket → A × TcpSocket) (idx : ℕ) (slot : Option TcpSocket)
      → ((s : TcpSocket) → IsValid s → IsValid (f s).1)
      → IsValidSlot slot
      → AreValid (on_slot d f idx n slot).1
  on_slot-AreValid d f idx none keeps w = v
  on_slot-AreValid d f idx (some s) keeps w =
      All-set IsValidSlot n.tcp idx (some (f s).1) v (keeps s w)

  pub with_socket-AreValid :
      {A : Type 0} (d : A) (f : TcpSocket → A × TcpSocket) (idx : ℕ)
      → ((s : TcpSocket) → IsValid s → IsValid (f s).1)
      → AreValid (with_socket d f idx n).1
  unfolding with_socket
  with_socket-AreValid d f idx keeps =
      on_slot-AreValid d f idx (get_or n.tcp idx none) keeps (All-get_slot n.tcp idx v)

  to_slot-AreValid :
      (seg : TcpSeg) (idx now : ℕ) (q : OutQueue) (slot : Option TcpSocket)
      → IsValidSlot slot
      → AreValid (to_slot seg idx now n q slot).0
  to_slot-AreValid seg idx now q none w = v
  to_slot-AreValid seg idx now q (some s) w =
      All-set IsValidSlot n.tcp idx (some (rx_segment seg now s (lend n q)).0) v
        (rx_segment-IsValid seg now s (lend n q) w)

  route-AreValid :
      (seg : TcpSeg) (dport now : ℕ) (q : OutQueue) (idx : Option ℕ)
      → AreValid (route seg dport now n q idx).0
  unfolding refuse to_socket
  route-AreValid seg dport now q none = ground (arith, v)
  route-AreValid seg dport now q (some idx) =
      to_slot-AreValid seg idx now q (get_or n.tcp idx none) (All-get_slot n.tcp idx v)

  pub handle_tcp-AreValid :
      (seg ip mac : Bytes) (now : ℕ) (q : OutQueue) → AreValid (handle_tcp seg ip mac now n q).0
  unfolding handle_tcp
  handle_tcp-AreValid seg ip mac now q =
      let s = parse_seg seg (at seg 12 / 2 ^ 4 * 4) ip mac in
      let dport = get_u16 seg 2 in
      ground (arith, v, route-AreValid s dport now q (tcp_find dport ip s.src_port n.tcp))
