-- ===== src/Net/Tcp/Poll.antt =====
-- servers/libtanix-net/src/tcp.rs: what a socket sends when it is polled.
use tanix.Bytes.{slice, eq_bytes}
use tanix.Net.Tcp.{TcpState, TcpSocket, tcp_mss, max_retries, seq_add, deadline}
use tanix.Net.Tcp.Segment.{
  Handler, kill, is_handshaking, send_syn, send_syn_ack, send_data_seg, send_fin,
}
use tanix.Net.Wire.{TxCtx}
use tanix.Prelude.{ℕ, ◌+◌, ◌-◌, min, true, ◌&&◌, not, replicate, leb, ltb, ◌==◌, if◌then◌else◌}

-- `self.retries += 1`; past the limit the socket is given up, else `again` is sent and the timer
-- starts anew.
unfoldable pub retry : ℕ → (TcpSocket → TxCtx → TxCtx) → Handler
retry now again s ctx =
    let s' : TcpSocket = record s { retries = s.retries + 1 } in
    if ltb max_retries s'.retries
    then (kill s', ctx)
    else (record s' { rto_deadline = deadline now }, again s' ctx)

-- What is due only once the timer has run out.
abbrev pub when_due : ℕ → (TcpSocket → TxCtx → TxCtx) → Handler
when_due now again s ctx = if leb s.rto_deadline now then retry now again s ctx else (s, ctx)

unfoldable pub resend_handshake : TcpSocket → TxCtx → TxCtx
resend_handshake s ctx = by_kind s.state
  where
    by_kind : TcpState → TxCtx
    by_kind TcpState.syn_sent = send_syn s.peer_mac s.peer_ip s ctx
    by_kind TcpState.listen = send_syn_ack s.peer_mac s.peer_ip s ctx
    by_kind TcpState.syn_rcvd = send_syn_ack s.peer_mac s.peer_ip s ctx
    by_kind TcpState.established = send_syn_ack s.peer_mac s.peer_ip s ctx
    by_kind TcpState.close_wait = send_syn_ack s.peer_mac s.peer_ip s ctx

unfoldable pub resend_data : TcpSocket → TxCtx → TxCtx
resend_data s ctx =
    let start = s.sent - s.inflight in
    send_data_seg s.peer_mac s.peer_ip (seq_add s.data_base start)
      (slice s.out start (start + s.inflight)) s ctx

-- Fresh bytes, as many as the segment size and the peer's window allow.
unfoldable pub send_fresh : ℕ → Handler
send_fresh now s ctx =
    let chunk = min (min (s.out_len - s.sent) tcp_mss) s.peer_wnd in
    if s.peer_wnd == 0 then (s, ctx) else if chunk == 0 then (s, ctx) else (
      record s {
        sent = s.sent + chunk;
        inflight = chunk;
        retries = 0;
        rto_deadline = deadline now;
      },
      send_data_seg s.peer_mac s.peer_ip (seq_add s.data_base s.sent)
          (slice s.out s.sent (s.sent + chunk)) s ctx,
    )

unfoldable pub resend_fin : TcpSocket → TxCtx → TxCtx
resend_fin s ctx = send_fin s.peer_mac s.peer_ip s.fin_seq s ctx

unfoldable pub poll_fin : ℕ → Handler
poll_fin now s ctx =
    if s.fin_req && not s.fin_sent
    then (
      record s { fin_sent = true; fin_seq = s.snd_nxt; retries = 0; rto_deadline = deadline now },
      send_fin s.peer_mac s.peer_ip s.snd_nxt s ctx,
    )
    else if s.fin_sent && not s.fin_acked
    then when_due now resend_fin s ctx
    else (s, ctx)

unfoldable pub poll : ℕ → Handler
poll now s ctx =
    if s.dead
    then (s, ctx)
    else if eq_bytes s.peer_mac (replicate 6 0)
    then (s, ctx)
    else if not s.syn_acked && is_handshaking s.state
    then when_due now resend_handshake s ctx
    else if ltb 0 s.inflight
    then when_due now resend_data s ctx
    else if ltb s.sent s.out_len
    then send_fresh now s ctx
    else poll_fin now s ctx
