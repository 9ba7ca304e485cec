-- ===== src/Net/Tcp/Segment.antt =====
-- servers/libtanix-net/src/tcp.rs: what a socket does with an inbound segment.
use tanix.Bytes.{Bytes, slice, copy_at}
use tanix.Net.Tcp.{
  TcpState, TcpSocket, TcpSeg, rx_buf, window, flag_fin, flag_syn, flag_psh, flag_ack, seq_add,
  seq_sub, seq_gt, seq_ge, gen_iss, deadline,
}
use tanix.Net.Wire.{TxCtx, push_tcp_frame}
use tanix.Prelude.{
  ℕ, ◌+◌, ◌-◌, min, Bool, true, false, ◌&&◌, not, [], length, ltb, ◌==◌, if◌then◌else◌,
}

-- Every caller of a `send_` function ignores whether the queue had room.
unfoldable pub push_tcp : Bytes → Bytes → ℕ → ℕ → ℕ → ℕ → Bytes → TcpSocket → TxCtx → TxCtx
push_tcp dst_mac dst_ip seq ack flags wnd payload s ctx =
    (push_tcp_frame dst_mac dst_ip s.local_port s.peer_port seq ack flags wnd payload ctx).1

unfoldable pub send_syn : Bytes → Bytes → TcpSocket → TxCtx → TxCtx
send_syn mac ip s = push_tcp mac ip s.iss 0 flag_syn window [] s

unfoldable pub send_syn_ack : Bytes → Bytes → TcpSocket → TxCtx → TxCtx
send_syn_ack mac ip s = push_tcp mac ip s.iss s.rcv_nxt (flag_syn + flag_ack) window [] s

unfoldable pub send_ack : Bytes → Bytes → TcpSocket → TxCtx → TxCtx
send_ack mac ip s = push_tcp mac ip s.snd_nxt s.rcv_nxt flag_ack window [] s

unfoldable pub send_data_seg : Bytes → Bytes → ℕ → Bytes → TcpSocket → TxCtx → TxCtx
send_data_seg mac ip seq bytes s =
    push_tcp mac ip seq s.rcv_nxt (flag_ack + flag_psh) window bytes s

unfoldable pub send_fin : Bytes → Bytes → ℕ → TcpSocket → TxCtx → TxCtx
send_fin mac ip seq s = push_tcp mac ip seq s.rcv_nxt (flag_fin + flag_ack) window [] s

-- `self.dead = true; self.notify |= N_CLOSED;`
abbrev pub kill : TcpSocket → TcpSocket
kill s = record s { dead = true; notify = record (s.notify) { n_closed = true } }

abbrev pub is_handshaking : TcpState → Bool
is_handshaking TcpState.syn_sent = true
is_handshaking TcpState.syn_rcvd = true
is_handshaking TcpState.listen = false
is_handshaking TcpState.established = false
is_handshaking TcpState.close_wait = false

-- The three parts of `rx_ack`: the acknowledged prefix of the queue goes, ...
unfoldable pub ack_prefix : ℕ → TcpSocket → TcpSocket
ack_prefix ack s =
    let adv = min (seq_sub ack s.data_base) s.sent in
    let base = seq_add s.data_base adv in
    let next = seq_add base (s.out_len - adv) in
    if ltb 0 adv
    then record s {
      out = copy_at s.out 0 (slice s.out adv s.out_len);
      out_len = s.out_len - adv;
      data_base = (if s.out_len - adv == 0 then next else base);
      snd_nxt = next;
      sent = s.sent - adv;
      inflight = s.inflight - adv;
    }
    else s

-- ... the SYN may be acknowledged, ...
unfoldable pub ack_syn : ℕ → TcpSocket → TcpSocket
ack_syn ack s =
    if not s.syn_acked && is_handshaking s.state && ack == s.snd_nxt
    then record s { syn_acked = true; rto_deadline = 0 }
    else s

-- ... and so may the FIN.
unfoldable pub ack_fin : ℕ → TcpSocket → TcpSocket
ack_fin ack s =
    if s.fin_sent && seq_gt ack s.fin_seq && not s.fin_acked
    then if s.rx_fin_seen
      then kill (record s { fin_acked = true })
      else record s { fin_acked = true }
    else s

unfoldable pub rx_ack : ℕ → TcpSocket → TcpSocket
rx_ack ack s = ack_fin ack (ack_syn ack (ack_prefix ack s))

-- The bytes of an in-order segment that fit the buffer are taken, and all of it is acknowledged.
unfoldable pub take_payload : TcpSeg → TcpSocket → TcpSocket
take_payload seg s =
    let n = min (length seg.payload) (rx_buf - s.rx_len) in
    if seg.seq == s.rcv_nxt
    then record s {
      rx = copy_at s.rx s.rx_len (slice seg.payload 0 n);
      rx_len = s.rx_len + n;
      rcv_nxt = seq_add s.rcv_nxt (length seg.payload);
      notify = record (s.notify) { n_data = true };
    }
    else s

-- A handler returns the socket, and what was queued.
abbrev pub Handler : Type 0
Handler = TcpSocket → TxCtx → TcpSocket × TxCtx

-- In order or not, the segment is answered by an ACK.
unfoldable pub rx_data : TcpSeg → Handler
rx_data seg s ctx = let s = take_payload seg s in (s, send_ack seg.src_mac seg.src_ip s ctx)

abbrev pub leave_established : Bool → TcpState → TcpState
leave_established syn_phase TcpState.established =
    if syn_phase then TcpState.established else TcpState.close_wait
leave_established syn_phase TcpState.listen = TcpState.listen
leave_established syn_phase TcpState.syn_sent = TcpState.syn_sent
leave_established syn_phase TcpState.syn_rcvd = TcpState.syn_rcvd
leave_established syn_phase TcpState.close_wait = TcpState.close_wait

unfoldable pub take_fin : TcpSeg → Bool → TcpSocket → TcpSocket
take_fin seg syn_phase s =
    let fin_seq = seq_add seg.seq (length seg.payload) in
    let s' : TcpSocket = record s {
      rcv_nxt = seq_add fin_seq 1;
      rx_fin_seen = true;
      notify = record (s.notify) { n_peer_fin = true };
      state = leave_established syn_phase s.state;
    } in
    if seq_ge fin_seq s.rcv_nxt then (if s.fin_sent && s.fin_acked then kill s' else s') else s

unfoldable pub rx_fin : TcpSeg → Bool → Handler
rx_fin seg syn_phase s ctx =
    let s = take_fin seg syn_phase s in (s, send_ack seg.src_mac seg.src_ip s ctx)

unfoldable pub open_passive : TcpSeg → ℕ → TcpSocket → TcpSocket
open_passive seg now s = record s {
  iss = gen_iss s.local_port now;
  snd_nxt = seq_add (gen_iss s.local_port now) 1;
  data_base = seq_add (gen_iss s.local_port now) 1;
  peer_ip = seg.src_ip;
  peer_port = seg.src_port;
  peer_mac = seg.src_mac;
  rcv_nxt = seq_add seg.seq 1;
  state = TcpState.syn_rcvd;
  syn_acked = false;
  out_len = 0;
  sent = 0;
  inflight = 0;
  rx_len = 0;
  fin_req = false;
  fin_sent = false;
  fin_acked = false;
  rx_fin_seen = false;
  retries = 0;
  rto_deadline = deadline now;
}

unfoldable pub rx_syn : TcpSeg → ℕ → Handler
rx_syn seg now s ctx =
    let s = open_passive seg now s in (s, send_syn_ack seg.src_mac seg.src_ip s ctx)

unfoldable pub rx_synack : TcpSeg → Handler
rx_synack seg s ctx =
    let s' : TcpSocket = record s {
      rcv_nxt = seq_add seg.seq 1;
      syn_acked = true;
      rto_deadline = 0;
    } in
    if seg.ack_flag && seg.ack == seq_add s.iss 1
    then (s', send_ack seg.src_mac seg.src_ip s' ctx)
    else (record s { rcv_nxt = seq_add seg.seq 1 }, ctx)

abbrev pub is_empty_payload : TcpSeg → Bool
is_empty_payload seg = length seg.payload == 0

unfoldable pub rx_payload : TcpSeg → Handler
rx_payload seg s ctx = if is_empty_payload seg then (s, ctx) else rx_data seg s ctx

-- The payload, then the FIN, of a segment that carries them.
unfoldable pub deliver : TcpSeg → Bool → Handler
deliver seg syn_phase s ctx =
    let (s', ctx') = rx_payload seg s ctx in
    if seg.fin then rx_fin seg syn_phase s' ctx' else (s', ctx')

-- `self.state = TcpState::Established; self.notify |= N_ACCEPTED;`
abbrev pub accept : TcpSocket → TcpSocket
accept s = record s {
  state = TcpState.established;
  notify = record (s.notify) { n_accepted = true };
}

unfoldable pub in_syn_sent : TcpSeg → Handler
in_syn_sent seg s ctx =
    let (s', ctx') = rx_synack seg s ctx in
    if seg.syn then deliver seg true (if s'.syn_acked then accept s' else s') ctx' else (s, ctx)

-- A SYN that comes again is answered with the same initial sequence number.
unfoldable pub in_syn_rcvd : TcpSeg → ℕ → Handler
in_syn_rcvd seg now s ctx =
    let again : TcpSocket = record s {
      rcv_nxt = seq_add seg.seq 1;
      rto_deadline = deadline now;
      retries = 0;
    } in
    if seg.syn
    then (again, send_syn_ack seg.src_mac seg.src_ip again ctx)
    else if s.syn_acked
    then deliver seg true (accept s) ctx
    else (s, ctx)

unfoldable pub in_open : TcpSeg → Handler
in_open seg s ctx =
    deliver seg false s (if seg.syn then send_ack seg.src_mac seg.src_ip s ctx else ctx)

unfoldable pub by_state : TcpSeg → ℕ → TcpState → Handler
by_state seg now TcpState.listen s ctx = if seg.syn then rx_syn seg now s ctx else (kill s, ctx)
by_state seg now TcpState.syn_sent s ctx = in_syn_sent seg s ctx
by_state seg now TcpState.syn_rcvd s ctx = in_syn_rcvd seg now s ctx
by_state seg now TcpState.established s ctx = in_open seg s ctx
by_state seg now TcpState.close_wait s ctx = in_open seg s ctx

-- `if s.ack_flag { self.peer_wnd = s.window as u32; self.rx_ack(s.ack); }`
unfoldable pub take_ack : TcpSeg → TcpSocket → TcpSocket
take_ack seg s = if seg.ack_flag then rx_ack seg.ack (record s { peer_wnd = seg.wnd }) else s

unfoldable pub rx_segment : TcpSeg → ℕ → Handler
rx_segment seg now s ctx =
    let s' = take_ack seg s in
    if s.dead then (s, ctx) else if seg.rst then (kill s, ctx) else by_state seg now s'.state s' ctx
