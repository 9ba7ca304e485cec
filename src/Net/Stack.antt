-- ===== src/Net/Stack.antt =====
-- servers/libtanix-net/src/lib.rs: the whole stack, its sockets and the cache of neighbours.
pub mod Arp
pub mod Icmp
pub mod UdpSockets
pub mod TcpSockets
pub mod Ingress
pub mod Sockets
pub mod Frames
pub mod Reach
pub mod Ports
mod Tests
use tanix.Bytes.{Bytes, eq_bytes, copy_at, slice}
use tanix.Net.Out
use tanix.Net.Out.{OutQueue}
use tanix.Net.Tcp.{TcpSocket}
use tanix.Net.Udp.{UdpEp}
use tanix.Net.Wire.{TxCtx}
use tanix.Prelude.{
  ℕ, zero, suc, ◌+◌, Bool, true, false, Option, none, some, List, [], ◌∷◌, ltb, if◌then◌else◌, take,
  set, replicate,
}

abbrev pub tcp_max : ℕ
tcp_max = 4

abbrev pub udp_max : ℕ
udp_max = 4

abbrev pub arp_cache_max : ℕ
arp_cache_max = 8

-- An entry of the cache: a host and its station.
abbrev pub Entry : Type 0
Entry = Bytes × Bytes

pub record NetStack : Type 0 where
  pub mac : Bytes
  pub my_ip : Bytes
  pub gw_ip : Bytes
  pub gw_mac : Option Bytes
  pub ip_id : ℕ
  pub tcp : List (Option TcpSocket)
  pub udp : List (Option UdpEp)
  pub cache : List Entry
  pub cache_n : ℕ
  pub ephemeral : ℕ
  pub ping_id : ℕ
  pub ping_seq : ℕ
  pub pong_id : ℕ
  pub pong_seq : ℕ

abbrev pub blank_entry : Entry
blank_entry = (replicate 4 0, replicate 6 0)

unfoldable pub new_stack : Bytes → Bytes → NetStack
new_stack my_ip gw_ip = record {
  mac = replicate 6 0;
  my_ip = my_ip;
  gw_ip = gw_ip;
  gw_mac = none;
  ip_id = 0x1234;
  tcp = replicate tcp_max none;
  udp = replicate udp_max none;
  cache = replicate arp_cache_max blank_entry;
  cache_n = 0;
  ephemeral = 49152;
  ping_id = 0x1234;
  ping_seq = 0;
  pong_id = 0;
  pong_seq = 0;
}

-- The stack and the queue that an operation leaves.
abbrev pub Net : Type 0
Net = NetStack × OutQueue

-- `for e in self.cache.iter_mut() { if e.0 == ip { e.1 = mac; return; } }`: `none` where no entry is
-- of the host. The loop runs over unused entries, too.
unfoldable pub overwrite : Bytes → Bytes → List Entry → Option (List Entry)
overwrite ip mac [] = none
overwrite ip mac (entry ∷ entries) =
    let rest = overwrite ip mac entries in
    if eq_bytes entry.0 ip
    then some ((entry.0, mac) ∷ entries)
    else elim rest [ none ↦ none | some entries' ↦ some (entry ∷ entries') ]

-- A host that is new takes the next entry, or the first one where the cache is full.
unfoldable pub cache_add : Bytes → Bytes → NetStack → NetStack
cache_add ip mac n = if eq_bytes mac (replicate 6 0) then n else elim (overwrite ip mac n.cache) [
  | some entries ↦ record n { cache = entries }
  | none ↦
      if ltb n.cache_n arp_cache_max
      then record n { cache = set n.cache n.cache_n (ip, mac); cache_n = n.cache_n + 1 }
      else record n { cache = set n.cache 0 (ip, mac) }
]

unfoldable pub find_entry : Bytes → List Entry → Option Bytes
find_entry ip [] = none
find_entry ip (entry ∷ entries) =
    let rest = find_entry ip entries in if eq_bytes entry.0 ip then some entry.1 else rest

unfoldable pub cache_get : Bytes → NetStack → Option Bytes
cache_get ip n = if eq_bytes ip n.gw_ip then n.gw_mac else find_entry ip (take n.cache_n n.cache)

-- What a socket needs to send, and the stack after it did.
abbrev pub lend : NetStack → OutQueue → TxCtx
lend n q = record { mac = n.mac; my_ip = n.my_ip; ip_id = n.ip_id; q = q }

abbrev pub give_back : NetStack → TxCtx → Net
give_back n ctx = (record n { ip_id = ctx.ip_id }, ctx.q)

-- A frame of `total` bytes is reserved and built in its slice of the buffer.
unfoldable pub place : ℕ → (Bytes → Bytes) → OutQueue → Bool × OutQueue
place total build q =
    let (start, q') = Out.push total q in
    elim start [
      | none ↦ (false, q)
      | some s ↦ (true, record q' { buf = copy_at q'.buf s (build (slice q'.buf s (s + total))) })
    ]
