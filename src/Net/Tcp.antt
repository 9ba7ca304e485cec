-- ===== src/Net/Tcp.antt =====
-- servers/libtanix-net/src/tcp.rs: the state of one TCP socket, and what the application does to it.
pub mod Segment
pub mod Poll
pub mod Invariant
pub mod Stream
pub mod States
pub mod Handshake
pub mod Reach
mod Tests
use Prim.Native.Nat.{bit_xor}
use tanix.Bytes.{Bytes, slice, copy_at}
use tanix.Prelude.{
  ℕ, ◌+◌, ◌-◌, ◌*◌, ◌%◌, ◌^◌, min, Bool, true, false, ◌&&◌, ◌||◌, not, [], length, replicate, leb,
  ltb, ◌==◌, if◌then◌else◌,
}

abbrev pub rx_buf : ℕ
rx_buf = 512

abbrev pub tx_buf : ℕ
tx_buf = 512

abbrev pub tcp_mss : ℕ
tcp_mss = 512

abbrev pub window : ℕ
window = 1024

abbrev pub rto_ticks : ℕ
rto_ticks = 800

abbrev pub max_retries : ℕ
max_retries = 8

abbrev pub flag_fin : ℕ
flag_fin = 0x01

abbrev pub flag_syn : ℕ
flag_syn = 0x02

abbrev pub flag_rst : ℕ
flag_rst = 0x04

abbrev pub flag_psh : ℕ
flag_psh = 0x08

abbrev pub flag_ack : ℕ
flag_ack = 0x10

-- `a.wrapping_add(b)` and `a.wrapping_sub(b)` of `u32`.
abbrev pub seq_add : ℕ → ℕ → ℕ
seq_add a b = (a + b) % 2 ^ 32

abbrev pub seq_sub : ℕ → ℕ → ℕ
seq_sub a b = (a + 2 ^ 32 - b) % 2 ^ 32

-- `(a.wrapping_sub(b) as i32) < 0`
unfoldable pub seq_lt : ℕ → ℕ → Bool
seq_lt a b = leb (2 ^ 31) (seq_sub a b)

unfoldable pub seq_gt : ℕ → ℕ → Bool
seq_gt a b = seq_lt b a

unfoldable pub seq_ge : ℕ → ℕ → Bool
seq_ge a b = a == b || seq_gt a b

pub data TcpState : Type 0 where
  listen syn_sent syn_rcvd established close_wait : TcpState

pub data TcpNotify : Type 0 where
  none_yet accepted data_in peer_fin closed : TcpNotify

-- The bits of `notify`, each by its name.
pub record Pending : Type 0 where
  pub n_accepted : Bool
  pub n_data : Bool
  pub n_peer_fin : Bool
  pub n_closed : Bool

pub record TcpSocket : Type 0 where
  pub state : TcpState
  pub local_port : ℕ
  pub peer_ip : Bytes
  pub peer_port : ℕ
  pub peer_mac : Bytes
  pub iss : ℕ
  pub data_base : ℕ
  pub snd_nxt : ℕ
  pub sent : ℕ
  pub inflight : ℕ
  pub rcv_nxt : ℕ
  pub peer_wnd : ℕ
  pub syn_acked : Bool
  pub fin_req : Bool
  pub fin_sent : Bool
  pub fin_seq : ℕ
  pub fin_acked : Bool
  pub rx_fin_seen : Bool
  pub out : Bytes
  pub out_len : ℕ
  pub rx : Bytes
  pub rx_len : ℕ
  pub rto_deadline : ℕ
  pub retries : ℕ
  pub notify : Pending
  pub dead : Bool

-- A parsed inbound segment.
pub record TcpSeg : Type 0 where
  pub seq : ℕ
  pub ack : ℕ
  pub syn : Bool
  pub ack_flag : Bool
  pub fin : Bool
  pub rst : Bool
  pub wnd : ℕ
  pub payload : Bytes
  pub src_ip : Bytes
  pub src_port : ℕ
  pub src_mac : Bytes

abbrev pub quiet : Pending
quiet = record { n_accepted = false; n_data = false; n_peer_fin = false; n_closed = false }

-- `(port as u32) << 16 | port as u32` is written as a sum: the port has 16 bits.
unfoldable pub gen_iss : ℕ → ℕ → ℕ
gen_iss port now = bit_xor (now % 2 ^ 32 * 2654435761 % 2 ^ 32) (port * 2 ^ 16 + port)

unfoldable pub blank : ℕ → TcpSocket
blank port = record {
  state = TcpState.listen;
  local_port = port;
  peer_ip = replicate 4 0;
  peer_port = 0;
  peer_mac = replicate 6 0;
  iss = 0;
  data_base = 0;
  snd_nxt = 0;
  sent = 0;
  inflight = 0;
  rcv_nxt = 0;
  peer_wnd = 4096;
  syn_acked = false;
  fin_req = false;
  fin_sent = false;
  fin_seq = 0;
  fin_acked = false;
  rx_fin_seen = false;
  out = replicate tx_buf 0;
  out_len = 0;
  rx = replicate rx_buf 0;
  rx_len = 0;
  rto_deadline = 0;
  retries = 0;
  notify = quiet;
  dead = false;
}

-- `now + RTO_TICKS`, of `u64`.
abbrev pub deadline : ℕ → ℕ
deadline now = (now + rto_ticks) % 2 ^ 64

unfoldable pub connect : Bytes → ℕ → ℕ → ℕ → TcpSocket
connect dst_ip dst_port src_port now = record (blank src_port) {
  state = TcpState.syn_sent;
  peer_ip = dst_ip;
  peer_port = dst_port;
  iss = gen_iss src_port now;
  snd_nxt = seq_add (gen_iss src_port now) 1;
  data_base = seq_add (gen_iss src_port now) 1;
  rto_deadline = deadline now;
}

-- The first pending event, which it clears.
unfoldable pub take_notify : TcpSocket → TcpNotify × TcpSocket
take_notify s =
    let n = s.notify in
    if n.n_accepted
    then (TcpNotify.accepted, record s { notify = record n { n_accepted = false } })
    else if n.n_data
    then (TcpNotify.data_in, record s { notify = record n { n_data = false } })
    else if n.n_peer_fin
    then (TcpNotify.peer_fin, record s { notify = record n { n_peer_fin = false } })
    else if n.n_closed
    then (TcpNotify.closed, record s { notify = record n { n_closed = false } })
    else (TcpNotify.none_yet, s)

unfoldable pub may_write : TcpState → Bool
may_write TcpState.established = true
may_write TcpState.close_wait = true
may_write TcpState.listen = false
may_write TcpState.syn_sent = false
may_write TcpState.syn_rcvd = false

-- Queues bytes for transmission, all of them or none.
unfoldable pub app_write : Bytes → TcpSocket → Bool × TcpSocket
app_write bytes s =
    if not (may_write s.state) || ltb tx_buf (s.out_len + length bytes) then (false, s) else (
      true,
      record s {
        out = copy_at s.out s.out_len bytes;
        out_len = s.out_len + length bytes;
        snd_nxt = seq_add s.data_base (s.out_len + length bytes);
      },
    )

-- Reads at most `cap` bytes of the received stream: the bytes, and the socket without them.
unfoldable pub app_read : ℕ → TcpSocket → Bytes × TcpSocket
app_read cap s =
    let n = min s.rx_len cap in
    (
      slice s.rx 0 n,
      record s { rx = copy_at s.rx 0 (slice s.rx n s.rx_len); rx_len = s.rx_len - n },
    )

unfoldable pub app_close : TcpSocket → TcpSocket
app_close s = record s { fin_req = true }
