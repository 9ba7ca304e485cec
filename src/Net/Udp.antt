-- ===== src/Net/Udp.antt =====
-- servers/libtanix-net/src/udp.rs: a UDP endpoint and its buffer of one datagram.
use tanix.Bytes.{Bytes, slice, copy_at}
use tanix.Prelude.{
  ℕ, ◌%◌, ◌^◌, min, Bool, true, false, Option, none, some, length, replicate, if◌then◌else◌,
}

abbrev pub udp_buf : ℕ
udp_buf = 256

pub record UdpRx : Type 0 where
  pub from_ip : Bytes
  pub from_port : ℕ
  pub len : ℕ

pub record UdpEp : Type 0 where
  pub port : ℕ
  pub rx : Bytes
  pub rx_len : ℕ
  pub peer_ip : Bytes
  pub peer_port : ℕ
  pub pending : Bool

unfoldable pub bind : ℕ → UdpEp
bind port = record {
  port = port;
  rx = replicate udp_buf 0;
  rx_len = 0;
  peer_ip = replicate 4 0;
  peer_port = 0;
  pending = false;
}

-- At most `cap` bytes of the pending datagram; what does not fit is lost.
unfoldable pub unread : ℕ → UdpEp → Bytes × UdpEp
unread cap e = (slice e.rx 0 (min e.rx_len cap), record e { rx_len = 0; pending = false })

unfoldable pub rx_info : UdpEp → Option UdpRx
rx_info e =
    if e.pending
    then some (record { from_ip = e.peer_ip; from_port = e.peer_port; len = e.rx_len % 2 ^ 16 })
    else none

-- A datagram that was not read is overwritten.
unfoldable pub deliver : Bytes → ℕ → Bytes → UdpEp → UdpEp
deliver peer_ip peer_port datagram e =
    let n = min (length datagram) udp_buf in
    record e {
      peer_ip = peer_ip;
      peer_port = peer_port;
      rx_len = n;
      rx = copy_at e.rx 0 (slice datagram 0 n);
      pending = true;
    }
