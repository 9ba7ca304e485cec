-- ===== src/Net/Stack/TcpSockets.antt =====
-- servers/libtanix-net/src/lib.rs: the table of TCP sockets.
use tanix.Bytes.{Bytes, eq_bytes}
use tanix.Net.Out.{OutQueue}
use tanix.Net.Stack.{NetStack, Net, cache_get, lend, give_back}
use tanix.Net.Stack.UdpSockets.{put_first}
use tanix.Net.Tcp.{
  TcpSocket, TcpState, TcpNotify, blank, connect, app_write, app_read, app_close, take_notify,
}
use tanix.Net.Tcp.Poll
use tanix.Net.Tcp.Segment.{send_syn}
use tanix.Net.Wire.{TxCtx}
use tanix.Prelude.{
  ℕ, ◌+◌, ◌%◌, ◌^◌, Bool, true, false, ◌&&◌, ◌||◌, not, Option, none, some, List, [], ◌∷◌, get_or,
  set, ◌==◌, if◌then◌else◌,
}

abbrev pub is_listening : TcpState → Bool
is_listening TcpState.listen = true
is_listening TcpState.syn_sent = false
is_listening TcpState.syn_rcvd = false
is_listening TcpState.established = false
is_listening TcpState.close_wait = false

-- A connection on the port keeps a listener away; another listener does not.
unfoldable pub port_connected : ℕ → List (Option TcpSocket) → Bool
port_connected port [] = false
port_connected port (none ∷ rest) = port_connected port rest
port_connected port (some s ∷ rest) =
    s.local_port == port && not (is_listening s.state) || port_connected port rest

-- The slot that was found, and the table with it.
abbrev pub install : NetStack → Option (ℕ × List (Option TcpSocket)) → Option ℕ × NetStack
install n none = (none, n)
install n (some r) = (some r.0, record n { tcp = r.1 })

unfoldable pub tcp_listen : ℕ → NetStack → Option ℕ × NetStack
tcp_listen port n =
    if port_connected port n.tcp then (none, n) else install n (put_first (blank port) n.tcp)

-- The socket in its slot, with its SYN sent where the queue has room.
abbrev pub launch :
    Bytes
    → Bytes
    → TcpSocket
    → NetStack
    → OutQueue
    → Option (ℕ × List (Option TcpSocket))
    → Option ℕ × Net
launch dst_mac dst_ip sock n q none = (none, (n, q))
launch dst_mac dst_ip sock n q (some r) = (
  some r.0,
  give_back (record n { tcp = r.1; ephemeral = (n.ephemeral + 1) % 2 ^ 16 })
      (send_syn dst_mac dst_ip sock (lend n q)),
)

-- A connection to a host whose station is known.
abbrev pub connect_via : Bytes → ℕ → ℕ → NetStack → OutQueue → Option Bytes → Option ℕ × Net
connect_via dst_ip dst_port now n q none = (none, (n, q))
connect_via dst_ip dst_port now n q (some dst_mac) =
    let sock = record (connect dst_ip dst_port n.ephemeral now) { peer_mac = dst_mac } in
    launch dst_mac dst_ip sock n q (put_first sock n.tcp)

unfoldable pub tcp_connect : Bytes → ℕ → ℕ → NetStack → OutQueue → Option ℕ × Net
tcp_connect dst_ip dst_port now n q = connect_via dst_ip dst_port now n q (cache_get dst_ip n)

module _ {ℓ} {A : Type ℓ} where
  -- A call on a slot, which does nothing where the slot is empty.
  abbrev pub on_slot :
      A → (TcpSocket → A × TcpSocket) → ℕ → NetStack → Option TcpSocket → A × NetStack
  on_slot default f idx n none = (default, n)
  on_slot default f idx n (some s) = ((f s).0, record n { tcp = set n.tcp idx (some (f s).1) })

  -- `match self.tcp.get_mut(idx) { Some(Some(s)) => f(s), _ => default }`
  unfoldable pub with_socket : A → (TcpSocket → A × TcpSocket) → ℕ → NetStack → A × NetStack
  with_socket default f idx n = on_slot default f idx n (get_or n.tcp idx none)

unfoldable pub tcp_write : ℕ → Bytes → NetStack → Bool × NetStack
tcp_write idx bytes n = with_socket false (app_write bytes) idx n

unfoldable pub tcp_read : ℕ → ℕ → NetStack → Bytes × NetStack
tcp_read idx cap n = with_socket [] (app_read cap) idx n

unfoldable pub tcp_close : ℕ → NetStack → NetStack
tcp_close idx n = (with_socket true (λ (s : TcpSocket). (true, app_close s)) idx n).1

unfoldable pub tcp_take_event : ℕ → NetStack → TcpNotify × NetStack
tcp_take_event idx n = with_socket TcpNotify.none_yet take_notify idx n

unfoldable pub tcp_free : ℕ → NetStack → NetStack
tcp_free idx n = record n { tcp = set n.tcp idx none }

-- The first live socket of the port that listens or has this peer.
unfoldable pub tcp_find : ℕ → Bytes → ℕ → List (Option TcpSocket) → Option ℕ
tcp_find dport src_ip sport [] = none
tcp_find dport src_ip sport (slot ∷ rest) =
    let later : Option ℕ = (elim (tcp_find dport src_ip sport rest) [
      | none ↦ none
      | some i ↦ some (i + 1)
    ]) in
    elim slot [
      | none ↦ later
      | some s ↦
          if not (s.local_port == dport) || s.dead
          then later
          else if is_listening s.state || eq_bytes s.peer_ip src_ip && s.peer_port == sport
          then some 0
          else later
    ]

-- `for i in 0..MAX_TCP`: every socket in turn.
unfoldable pub poll_sockets : ℕ → List (Option TcpSocket) → TxCtx → List (Option TcpSocket) × TxCtx
poll_sockets now [] ctx = ([], ctx)
poll_sockets now (none ∷ rest) ctx =
    let (rest', ctx') = poll_sockets now rest ctx in (none ∷ rest', ctx')
poll_sockets now (some s ∷ rest) ctx =
    let (s', ctx1) = Poll.poll now s ctx in
    let (rest', ctx') = poll_sockets now rest ctx1 in (some s' ∷ rest', ctx')

unfoldable pub poll_stack : ℕ → NetStack → OutQueue → Net
poll_stack now n q =
    let (socks, ctx) = poll_sockets now n.tcp (lend n q) in give_back (record n { tcp = socks }) ctx
