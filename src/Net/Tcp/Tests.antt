-- ===== src/Net/Tcp/Tests.antt =====
-- Runs of the sockets of servers/libtanix-net/src/tcp.rs, and the theorems at concrete sockets.
use tanix.Bytes.{Bytes, eq_bytes}
use tanix.Net.Out
use tanix.Net.Tcp.{TcpState, TcpSocket, TcpSeg, blank, seq_add, seq_lt}
use tanix.Net.Tcp.Handshake.{IsUnanswered, poll_all, passive_handshake, handshake_gives_up}
use tanix.Net.Tcp.Invariant.{IsValid}
use tanix.Net.Tcp.Reach.{Run-IsValid, listens, receives, polls}
use tanix.Net.Tcp.Poll.{poll}
use tanix.Net.Tcp.Segment.{rx_ack, rx_segment}
use tanix.Net.Tcp.States.{Moves, rx_segment-Moves}
use tanix.Net.Tcp.Stream.{queue, rx_ack_advances, rx_ack_stale}
use tanix.Net.Wire.{TxCtx}
use tanix.Prelude.{
  ℕ, ◌-◌, ◌≡◌, refl, true, false, List, [], ◌∷◌, drop, arith, replicate, length-replicate,
}

abbrev host : TxCtx
host = record {
  mac = 2 ∷ 0 ∷ 0 ∷ 0 ∷ 0 ∷ 1 ∷ [];
  my_ip = 10 ∷ 0 ∷ 2 ∷ 15 ∷ [];
  ip_id = 7;
  q = Out.new;
}

abbrev peer : Bytes
peer = 2 ∷ 0 ∷ 0 ∷ 0 ∷ 0 ∷ 2 ∷ []

-- ESTABLISHED, with three bytes queued from sequence number 1000 on, two of them in flight, and two
-- bytes unread.
abbrev talking : TcpSocket
talking = record {
  state = TcpState.established;
  local_port = 80;
  peer_ip = 10 ∷ 0 ∷ 2 ∷ 2 ∷ [];
  peer_port = 4000;
  peer_mac = peer;
  iss = 999;
  data_base = 1000;
  snd_nxt = 1003;
  sent = 2;
  inflight = 2;
  rcv_nxt = 500;
  peer_wnd = 4096;
  syn_acked = true;
  fin_req = false;
  fin_sent = false;
  fin_seq = 0;
  fin_acked = false;
  rx_fin_seen = false;
  out = 1 ∷ 2 ∷ 3 ∷ replicate 509 0;
  out_len = 3;
  rx = 8 ∷ 9 ∷ replicate 510 0;
  rx_len = 2;
  rto_deadline = 800;
  retries = 0;
  notify = record { n_accepted = false; n_data = false; n_peer_fin = false; n_closed = false };
  dead = false;
}

talking-IsValid : IsValid talking
talking-IsValid = ground (arith, length-replicate {A = ℕ} 509 0, length-replicate {A = ℕ} 510 0)

abbrev syn_seg : TcpSeg
syn_seg = record {
  seq = 100;
  ack = 0;
  syn = true;
  ack_flag = false;
  fin = false;
  rst = false;
  wnd = 4096;
  payload = [];
  src_ip = 10 ∷ 0 ∷ 2 ∷ 2 ∷ [];
  src_port = 4000;
  src_mac = peer;
}

-- The ACK of the SYN of a listener on port 80, with a byte of payload.
abbrev ack_seg : TcpSeg
ack_seg = record syn_seg {
  seq = 101;
  ack = seq_add (rx_segment syn_seg 5 (blank 80) host).0.iss 1;
  syn = false;
  ack_flag = true;
  payload = 65 ∷ [];
}

abbrev half_open : TcpSocket
half_open = record talking { state = TcpState.syn_rcvd; syn_acked = false }

abbrev nine : List ℕ
nine = 800 ∷ 1600 ∷ 2400 ∷ 3200 ∷ 4000 ∷ 4800 ∷ 5600 ∷ 6400 ∷ 7200 ∷ []

Run-IsValid_example :
    IsValid (poll 900 (rx_segment ack_seg 6 (rx_segment syn_seg 5 (blank 80) host).0 host).0 host).0
Run-IsValid_example =
    Run-IsValid (polls 900 host (receives ack_seg 6 host (receives syn_seg 5 host (listens 80))))

rx_ack_advances_example :
    (queue (rx_ack 1001 talking) ≡ drop 1 (queue talking))
    × ((rx_ack 1001 talking).data_base ≡ seq_add 1000 1)
    × ((rx_ack 1001 talking).sent ≡ 2 - 1)
    × ((rx_ack 1001 talking).out_len ≡ 3 - 1)
rx_ack_advances_example = rx_ack_advances talking talking-IsValid 1001

-- An ACK of the byte before the queue.
rx_ack_stale_example :
    (queue (rx_ack 999 talking) ≡ drop 2 (queue talking)) × ((rx_ack 999 talking).sent ≡ 0)
unfolding seq_lt
rx_ack_stale_example = rx_ack_stale talking talking-IsValid 999 (omega arith) (omega arith) refl

rx_segment-Moves_example : Moves talking.state (rx_segment ack_seg 6 talking host).0.state
rx_segment-Moves_example = rx_segment-Moves ack_seg 6 talking host

passive_handshake_example :
    let s' = (rx_segment ack_seg 6 (rx_segment syn_seg 5 (blank 80) host).0 host).0 in
    (s'.state ≡ TcpState.established) × (s'.notify.n_accepted ≡ true)
unfolding blank
passive_handshake_example =
    passive_handshake syn_seg ack_seg 5 6 (blank 80) host host refl refl (refl, refl, refl)
      (refl, refl, refl) refl

half_open-IsUnanswered : IsUnanswered half_open
unfolding eq_bytes
half_open-IsUnanswered = record {
  alive = refl;
  known = refl;
  unacked = refl;
  handshaking = refl;
  tries = omega arith;
}

handshake_gives_up_example : (poll_all nine half_open host).0.dead ≡ true
handshake_gives_up_example =
    handshake_gives_up nine half_open host half_open-IsUnanswered refl (omega arith)
