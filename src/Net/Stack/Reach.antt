-- ===== src/Net/Stack/Reach.antt =====
-- Every state that the stack of servers/libtanix-net/src/lib.rs can come to: made, and then any
-- sequence of calls, frames that do not make it panic, and polls.
use mathlib.Core.Path.{subst}
use tanix.Bytes.{Bytes}
use tanix.Net.Out
use tanix.Net.Out.{OutQueue}
use tanix.Net.Stack.{NetStack, Net, new_stack}
use tanix.Net.Stack.Frames.{AreValidIn, on_frame-AreValid}
use tanix.Net.Stack.Ingress.{on_frame}
use tanix.Net.Stack.Sockets.{
  IsValidSlot, AreValid, tcp_listen-AreValid, connect_via-AreValid, with_socket-AreValid,
  poll_sockets-All,
}
use tanix.Net.Stack.TcpSockets.{
  tcp_listen, tcp_connect, tcp_write, tcp_read, tcp_close, tcp_take_event, tcp_free, poll_stack,
}
use tanix.Net.Stack.UdpSockets.{udp_bind, udp_open, udp_send, udp_unread}
use tanix.Net.Stack.Icmp.{icmp_echo_send}
use tanix.Net.Stack.{cache_get, lend}
use tanix.Net.Tcp.{TcpSocket, TcpNotify, app_write, app_read, app_close, take_notify}
use tanix.Net.Tcp.Invariant.{
  app_write-IsValid, app_read-IsValid, app_close-IsValid, take_notify-IsValid,
}
use tanix.Prelude.{ℕ, ◌≡◌, true, false, none, some, [], arith, All-set}

pub data Run : NetStack → Type 0 where
  starts : (my_ip gw_ip : Bytes) → Run (new_stack my_ip gw_ip)
  sets_mac : (mac : Bytes) {n : NetStack} → Run n → Run (record n { mac = mac })
  binds : (port : ℕ) {n : NetStack} → Run n → Run (udp_bind port n).1
  opens : {n : NetStack} → Run n → Run (udp_open n).1
  sends :
      (idx : ℕ) (ip : Bytes) (port : ℕ) (bs : Bytes) (q : OutQueue) {n : NetStack}
      → Run n
      → Run (udp_send idx ip port bs n q).1.0
  unreads : (idx cap : ℕ) {n : NetStack} → Run n → Run (udp_unread idx cap n).1
  pings : (ip : Bytes) (q : OutQueue) {n : NetStack} → Run n → Run (icmp_echo_send ip n q).1.0
  listens : (port : ℕ) {n : NetStack} → Run n → Run (tcp_listen port n).1
  connects :
      (ip : Bytes) (port now : ℕ) (q : OutQueue) {n : NetStack}
      → Run n
      → Run (tcp_connect ip port now n q).1.0
  writes : (idx : ℕ) (bs : Bytes) {n : NetStack} → Run n → Run (tcp_write idx bs n).1
  reads : (idx cap : ℕ) {n : NetStack} → Run n → Run (tcp_read idx cap n).1
  closes : (idx : ℕ) {n : NetStack} → Run n → Run (tcp_close idx n)
  learns : (idx : ℕ) {n : NetStack} → Run n → Run (tcp_take_event idx n).1
  frees : (idx : ℕ) {n : NetStack} → Run n → Run (tcp_free idx n)
  receives :
      (frame : Bytes) (now : ℕ) (q : OutQueue) {n : NetStack} {res : Net}
      → Run n
      → on_frame frame now n q ≡ some res
      → Run res.0
  polls : (now : ℕ) (q : OutQueue) {n : NetStack} → Run n → Run (poll_stack now n q).0

udp-AreValid :
    (idx cap port dport : ℕ) (ip bs : Bytes) (q : OutQueue) (n : NetStack)
    → AreValid n
    → AreValid (udp_bind port n).1
      × AreValid (udp_open n).1
      × AreValid (udp_send idx ip dport bs n q).1.0
      × AreValid (udp_unread idx cap n).1
      × AreValid (icmp_echo_send ip n q).1.0
unfolding udp_bind udp_open udp_send udp_unread icmp_echo_send
udp-AreValid idx cap port dport ip bs q n v =
    (ground (arith, v), ground (arith, v), ground (arith, v), ground (arith, v), ground (arith, v))

-- In every state that the stack comes to by any sequence of calls, polls and frames that do not make
-- it panic, each socket keeps its invariant.
pub Run-AreValid : {n : NetStack} → Run n → AreValid n
unfolding new_stack tcp_connect tcp_write tcp_read tcp_close tcp_take_event tcp_free poll_stack
Run-AreValid (starts my_ip gw_ip) = (tt, (tt, (tt, (tt, tt))))
Run-AreValid (sets_mac mac r) = Run-AreValid r
Run-AreValid (binds port {n} r) = (udp-AreValid 0 0 port 0 [] [] Out.new n (Run-AreValid r)).0
Run-AreValid (opens {n} r) = (udp-AreValid 0 0 0 0 [] [] Out.new n (Run-AreValid r)).1
Run-AreValid (sends idx ip port bs q {n} r) =
    (udp-AreValid idx 0 0 port ip bs q n (Run-AreValid r)).2
Run-AreValid (unreads idx cap {n} r) = (udp-AreValid idx cap 0 0 [] [] Out.new n (Run-AreValid r)).3
Run-AreValid (pings ip q {n} r) = (udp-AreValid 0 0 0 0 ip [] q n (Run-AreValid r)).4
Run-AreValid (listens port {n} r) = tcp_listen-AreValid n (Run-AreValid r) port
Run-AreValid (connects ip port now q {n} r) =
    connect_via-AreValid n (Run-AreValid r) ip port now q (cache_get ip n)
Run-AreValid (writes idx bs {n} r) =
    with_socket-AreValid n (Run-AreValid r) false (app_write bs) idx
      (λ s v. app_write-IsValid s v bs)
Run-AreValid (reads idx cap {n} r) =
    with_socket-AreValid n (Run-AreValid r) [] (app_read cap) idx (λ s v. app_read-IsValid s v cap)
Run-AreValid (closes idx {n} r) =
    with_socket-AreValid n (Run-AreValid r) true (λ (s : TcpSocket). (true, app_close s)) idx
      app_close-IsValid
Run-AreValid (learns idx {n} r) =
    with_socket-AreValid n (Run-AreValid r) TcpNotify.none_yet take_notify idx take_notify-IsValid
Run-AreValid (frees idx {n} r) = All-set IsValidSlot n.tcp idx none (Run-AreValid r) tt
Run-AreValid (receives frame now q {n} {res} r e) =
    subst AreValidIn e (on_frame-AreValid frame now n q (Run-AreValid r))
Run-AreValid (polls now q {n} r) = poll_sockets-All now n.tcp (lend n q) (Run-AreValid r)
