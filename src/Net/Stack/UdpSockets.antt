-- ===== src/Net/Stack/UdpSockets.antt =====
-- servers/libtanix-net/src/lib.rs: the table of UDP endpoints.
use tanix.Bytes.{Bytes}
use tanix.Net.Out.{OutQueue}
use tanix.Net.Stack.{NetStack, Net, cache_get, lend, give_back}
use tanix.Net.Udp
use tanix.Net.Udp.{UdpEp, UdpRx, bind}
use tanix.Net.Wire.{push_udp_frame}
use tanix.Prelude.{
  ℕ, suc, ◌+◌, ◌%◌, ◌^◌, Bool, false, ◌||◌, Option, none, some, List, [], ◌∷◌, get_or, set, ◌==◌,
  if◌then◌else◌,
}

unfoldable pub port_taken : ℕ → List (Option UdpEp) → Bool
port_taken port [] = false
port_taken port (none ∷ eps) = port_taken port eps
port_taken port (some e ∷ eps) = e.port == port || port_taken port eps

module _ {ℓ} {A : Type ℓ} where
  -- One slot further, behind a slot that is in use.
  abbrev pub behind : A → Option (ℕ × List (Option A)) → Option (ℕ × List (Option A))
  behind b none = none
  behind b (some r) = some (suc r.0, some b ∷ r.1)

  -- `for (i, s) in table.iter_mut().enumerate() { if s.is_none() { *s = Some(a); return Some(i); } }`
  unfoldable pub put_first : A → List (Option A) → Option (ℕ × List (Option A))
  put_first a [] = none
  put_first a (none ∷ rest) = some (0, some a ∷ rest)
  put_first a (some b ∷ rest) = behind b (put_first a rest)

-- The slot that was found, and the table with it.
abbrev pub seat : NetStack → Option (ℕ × List (Option UdpEp)) → Option ℕ × NetStack
seat n none = (none, n)
seat n (some r) = (some r.0, record n { udp = r.1 })

unfoldable pub udp_bind : ℕ → NetStack → Option ℕ × NetStack
udp_bind port n = if port_taken port n.udp then (none, n) else seat n (put_first (bind port) n.udp)

-- The port is used up whether or not there is room for the endpoint.
unfoldable pub udp_open : NetStack → Option ℕ × NetStack
udp_open n = udp_bind n.ephemeral (record n { ephemeral = (n.ephemeral + 1) % 2 ^ 16 })

unfoldable pub udp_send : ℕ → Bytes → ℕ → Bytes → NetStack → OutQueue → Bool × Net
udp_send idx dst_ip dst_port payload n q = elim (get_or n.udp idx none) [
  | none ↦ (false, (n, q))
  | some e ↦ elim (cache_get dst_ip n) [
    | none ↦ (false, (n, q))
    | some dst_mac ↦
        let (sent, ctx) = push_udp_frame dst_mac dst_ip e.port dst_port payload (lend n q) in
        (sent, give_back n ctx)
  ]
]

unfoldable pub udp_rx_info : ℕ → NetStack → Option UdpRx
udp_rx_info idx n = elim (get_or n.udp idx none) [ none ↦ none | some e ↦ Udp.rx_info e ]

-- The bytes that were read.
unfoldable pub udp_unread : ℕ → ℕ → NetStack → Bytes × NetStack
udp_unread idx cap n = elim (get_or n.udp idx none) [
  | none ↦ ([], n)
  | some e ↦ let (read, e') = Udp.unread cap e in (read, record n { udp = set n.udp idx (some e') })
]

-- Every endpoint of the port gets the datagram.
unfoldable pub deliver_to : Bytes → ℕ → ℕ → Bytes → Option UdpEp → Option UdpEp
deliver_to src_ip sport dport bytes none = none
deliver_to src_ip sport dport bytes (some e) =
    if e.port == dport then some (Udp.deliver src_ip sport bytes e) else some e
