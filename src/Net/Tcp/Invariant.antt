-- ===== src/Net/Tcp/Invariant.antt =====
-- The invariant of a socket of servers/libtanix-net/src/tcp.rs: no buffer is overrun, what is sent
-- and unacknowledged is a prefix of the queue, one segment at a time, and the sequence numbers fit
-- the queue. Every operation keeps it.
use tanix.Bytes.{Bytes, slice}
use tanix.Bytes.Copy.{length-copy_at}
use tanix.Net.Tcp.{
  TcpState, TcpSocket, TcpSeg, rx_buf, tx_buf, max_retries, seq_add, blank, connect, app_write,
  app_read, take_notify, app_close,
}
use tanix.Net.Tcp.Poll.{
  poll, retry, send_fresh, poll_fin, resend_handshake, resend_data, resend_fin,
}
use tanix.Net.Tcp.Segment.{
  kill, accept, ack_prefix, ack_syn, ack_fin, rx_ack, take_payload, rx_data, take_fin, rx_fin,
  open_passive, rx_syn, rx_synack, rx_payload, deliver, in_syn_sent, in_syn_rcvd, in_open, by_state,
  take_ack, rx_segment,
}
use tanix.Net.Wire.{TxCtx}
use tanix.Prelude.{
  ℕ, ◌+◌, ◌-◌, ◌%◌, ◌^◌, ◌<◌, ◌≤◌, ◌≡◌, min, Bool, true, false, arith, length, length-replicate,
  if◌then◌else◌,
}

pub record IsValid (s : TcpSocket) : Type 0 where
  pub out_room : length s.out ≡ tx_buf
  pub rx_room : length s.rx ≡ rx_buf
  pub queued : s.out_len ≤ tx_buf
  pub unread : s.rx_len ≤ rx_buf
  pub stop_and_wait : s.inflight ≡ s.sent
  pub prefix : s.sent ≤ s.out_len
  pub based : s.data_base < 2 ^ 32
  pub next : s.snd_nxt ≡ seq_add s.data_base s.out_len
  pub tries : s.dead ≡ false → s.retries ≤ max_retries

pub blank-IsValid : (port : ℕ) → IsValid (blank port)
unfolding blank
blank-IsValid port = ground (arith, length-replicate {A = ℕ} 512 0)

pub connect-IsValid : (ip : Bytes) (dport sport now : ℕ) → IsValid (connect ip dport sport now)
unfolding connect blank
connect-IsValid ip dport sport now = ground (arith, length-replicate {A = ℕ} 512 0)

module _ (s : TcpSocket) (v : IsValid s) where
  pub app_write-IsValid : (bs : Bytes) → IsValid (app_write bs s).1
  unfolding app_write
  app_write-IsValid bs = ground (arith, length-copy_at s.out s.out_len bs)

  pub app_read-IsValid : (cap : ℕ) → IsValid (app_read cap s).1
  unfolding app_read
  app_read-IsValid cap =
      ground (arith, length-copy_at s.rx 0 (slice s.rx (min s.rx_len cap) s.rx_len))

  pub app_close-IsValid : IsValid (app_close s)
  unfolding app_close
  app_close-IsValid = ground arith

  pub take_notify-IsValid : IsValid (take_notify s).1
  unfolding take_notify
  take_notify-IsValid = ground arith

  kill-IsValid : IsValid (kill s)
  kill-IsValid = ground arith

  accept-IsValid : IsValid (accept s)
  accept-IsValid = ground arith

  ack_prefix-IsValid : (ack : ℕ) → IsValid (ack_prefix ack s)
  unfolding ack_prefix
  ack_prefix-IsValid ack = ground (
    arith,
    length-copy_at s.out 0
        (slice s.out (min ((ack + 2 ^ 32 - s.data_base) % 2 ^ 32) s.sent) s.out_len),
  )

  ack_syn-IsValid : (ack : ℕ) → IsValid (ack_syn ack s)
  unfolding ack_syn
  ack_syn-IsValid ack = ground arith

  ack_fin-IsValid : (ack : ℕ) → IsValid (ack_fin ack s)
  unfolding ack_fin
  ack_fin-IsValid ack = ground arith

  take_payload-IsValid : (seg : TcpSeg) → IsValid (take_payload seg s)
  unfolding take_payload
  take_payload-IsValid seg = ground (
    arith,
    length-copy_at s.rx s.rx_len
        (slice seg.payload 0 (min (length seg.payload) (rx_buf - s.rx_len))),
  )

  take_fin-IsValid : (seg : TcpSeg) (syn_phase : Bool) → IsValid (take_fin seg syn_phase s)
  unfolding take_fin
  take_fin-IsValid seg syn_phase = ground arith

  open_passive-IsValid : (seg : TcpSeg) (now : ℕ) → IsValid (open_passive seg now s)
  unfolding open_passive
  open_passive-IsValid seg now = ground arith

  rx_synack-IsValid : (seg : TcpSeg) (ctx : TxCtx) → IsValid (rx_synack seg s ctx).0
  unfolding rx_synack
  rx_synack-IsValid seg ctx = ground arith

  retry-IsValid :
      (now : ℕ) (again : TcpSocket → TxCtx → TxCtx) (ctx : TxCtx)
      → IsValid (retry now again s ctx).0
  unfolding retry
  retry-IsValid now again ctx = ground arith

  poll_fin-IsValid : (now : ℕ) (ctx : TxCtx) → IsValid (poll_fin now s ctx).0
  unfolding poll_fin
  poll_fin-IsValid now ctx = ground (arith, retry-IsValid now resend_fin ctx)

  send_fresh-IsValid : (now : ℕ) (ctx : TxCtx) → s.inflight ≡ 0 → IsValid (send_fresh now s ctx).0
  unfolding send_fresh
  send_fresh-IsValid now ctx idle = ground arith

rx_ack-IsValid : (ack : ℕ) (s : TcpSocket) → IsValid s → IsValid (rx_ack ack s)
unfolding rx_ack
rx_ack-IsValid ack s v =
    let v1 = ack_prefix-IsValid s v ack in
    let v2 = ack_syn-IsValid (ack_prefix ack s) v1 ack in
    ack_fin-IsValid (ack_syn ack (ack_prefix ack s)) v2 ack

take_ack-IsValid : (seg : TcpSeg) (s : TcpSocket) → IsValid s → IsValid (take_ack seg s)
unfolding take_ack
take_ack-IsValid seg s v =
    let s' : TcpSocket = record s { peer_wnd = seg.wnd } in
    let v' : IsValid s' = ground arith in ground (arith, rx_ack-IsValid seg.ack s' v')

rx_payload-IsValid :
    (seg : TcpSeg) (s : TcpSocket) (ctx : TxCtx) → IsValid s → IsValid (rx_payload seg s ctx).0
unfolding rx_payload rx_data
rx_payload-IsValid seg s ctx v = ground (arith, take_payload-IsValid s v seg)

deliver-IsValid :
    (seg : TcpSeg) (p : Bool) (s : TcpSocket) (ctx : TxCtx)
    → IsValid s
    → IsValid (deliver seg p s ctx).0
unfolding deliver rx_fin
deliver-IsValid seg p s ctx v =
    let v' = rx_payload-IsValid seg s ctx v in
    ground (arith, take_fin-IsValid (rx_payload seg s ctx).0 v' seg p)

in_syn_sent-IsValid :
    (seg : TcpSeg) (s : TcpSocket) (ctx : TxCtx) → IsValid s → IsValid (in_syn_sent seg s ctx).0
unfolding in_syn_sent
in_syn_sent-IsValid seg s ctx v =
    let t = (rx_synack seg s ctx).0 in
    let v' : IsValid t = rx_synack-IsValid s v seg ctx in
    let w : IsValid (if t.syn_acked then accept t else t) = ground arith in
    ground (
      arith,
      deliver-IsValid seg true (if t.syn_acked then accept t else t) (rx_synack seg s ctx).1 w,
    )

in_syn_rcvd-IsValid :
    (seg : TcpSeg) (now : ℕ) (s : TcpSocket) (ctx : TxCtx)
    → IsValid s
    → IsValid (in_syn_rcvd seg now s ctx).0
unfolding in_syn_rcvd
in_syn_rcvd-IsValid seg now s ctx v =
    ground (arith, deliver-IsValid seg true (accept s) ctx (accept-IsValid s v))

by_state-IsValid :
    (seg : TcpSeg) (now : ℕ) (st : TcpState) (s : TcpSocket) (ctx : TxCtx)
    → IsValid s
    → IsValid (by_state seg now st s ctx).0
unfolding by_state rx_syn in_open
by_state-IsValid seg now TcpState.listen s ctx v =
    ground (arith, open_passive-IsValid s v seg now, kill-IsValid s v)
by_state-IsValid seg now TcpState.syn_sent s ctx v = in_syn_sent-IsValid seg s ctx v
by_state-IsValid seg now TcpState.syn_rcvd s ctx v = in_syn_rcvd-IsValid seg now s ctx v
by_state-IsValid seg now TcpState.established s ctx v = deliver-IsValid seg false s _ v
by_state-IsValid seg now TcpState.close_wait s ctx v = deliver-IsValid seg false s _ v

-- A segment keeps the invariant, in every state and whatever it carries.
pub rx_segment-IsValid :
    (seg : TcpSeg) (now : ℕ) (s : TcpSocket) (ctx : TxCtx)
    → IsValid s
    → IsValid (rx_segment seg now s ctx).0
unfolding rx_segment
rx_segment-IsValid seg now s ctx v =
    let s' = take_ack seg s in
    let v' = take_ack-IsValid seg s v in
    ground (arith, by_state-IsValid seg now s'.state s' ctx v', kill-IsValid s v)

-- So does a poll.
pub poll-IsValid : (now : ℕ) (s : TcpSocket) (ctx : TxCtx) → IsValid s → IsValid (poll now s ctx).0
unfolding poll
poll-IsValid now s ctx v = ground (
  arith,
  retry-IsValid s v now resend_handshake ctx,
  retry-IsValid s v now resend_data ctx,
  send_fresh-IsValid s v now ctx,
  poll_fin-IsValid s v now ctx,
)
