-- ===== src/Net/Stack/Ports.antt =====
-- The ports of the UDP endpoints of servers/libtanix-net/src/lib.rs.
use tanix.Net.Stack.{NetStack}
use tanix.Net.Stack.UdpSockets.{port_taken, put_first, behind, seat, udp_bind}
use tanix.Net.Udp.{UdpEp, bind}
use tanix.Prelude.{
  ℕ, ◌≡◌, inl, inr, refl, ap, false, Option, none, some, List, [], ◌∷◌, arith, get_or, set, ◌==◌,
  Bool-cases,
}

-- No two endpoints have the same port.
abbrev pub AreDistinct : List (Option UdpEp) → Type 0
AreDistinct [] = Unit
AreDistinct (none ∷ eps) = AreDistinct eps
AreDistinct (some e ∷ eps) = (port_taken e.port eps ≡ false) × AreDistinct eps

-- What a new endpoint on a free port does to the table.
abbrev IsBound : ℕ → List (Option UdpEp) → Option (ℕ × List (Option UdpEp)) → Type 0
IsBound port eps none = Unit
IsBound port eps (some r) =
    AreDistinct r.1
    × ((k : ℕ) → (port == k) ≡ false → port_taken k eps ≡ false → port_taken k r.1 ≡ false)
    × (get_or eps r.0 none ≡ none)
    × (r.1 ≡ set eps r.0 (some (bind port)))

behind-IsBound :
    (port : ℕ) (e : UdpEp) (eps : List (Option UdpEp)) (r : Option (ℕ × List (Option UdpEp)))
    → (e.port == port) ≡ false
    → port_taken e.port eps ≡ false
    → IsBound port eps r
    → IsBound port (some e ∷ eps) (behind e r)
unfolding port_taken
behind-IsBound port e eps none ne free b = tt
behind-IsBound port e eps (some r) ne free (d, keeps, empty, at) = (
  (keeps e.port (ground (arith, ne)) free, d),
  (λ k nk nt. ground (arith, nk, nt, keeps k nk)),
  empty,
  ap (λ (t : List (Option UdpEp)). some e ∷ t) at,
)

put_first-IsBound :
    (port : ℕ) (eps : List (Option UdpEp))
    → AreDistinct eps
    → port_taken port eps ≡ false
    → IsBound port eps (put_first (bind port) eps)
unfolding put_first port_taken bind
put_first-IsBound port [] d free = tt
put_first-IsBound port (none ∷ eps) d free =
    ((free, d), (λ k nk nt. ground (arith, nk, nt)), refl, refl)
put_first-IsBound port (some e ∷ eps) d free =
    behind-IsBound port e eps (put_first (bind port) eps) (ground (arith, free)) d.0
      (put_first-IsBound port eps d.1 (ground (arith, free)))

-- What `udp_bind` returns and leaves.
abbrev pub Binds : ℕ → NetStack → Option ℕ × NetStack → Type 0
Binds port n (none, n') = n' ≡ n
Binds port n (some idx, n') =
    (port_taken port n.udp ≡ false)
    × (get_or n.udp idx none ≡ none)
    × (n'.udp ≡ set n.udp idx (some (bind port)))
    × AreDistinct n'.udp

-- On a table of endpoints with distinct ports, `udp_bind` refuses and changes nothing, or it puts an
-- endpoint of a port that no other has into a slot that was empty, and the ports stay distinct.
pub udp_bind-Binds : (port : ℕ) (n : NetStack) → AreDistinct n.udp → Binds port n (udp_bind port n)
unfolding udp_bind
udp_bind-Binds port n d = elim (Bool-cases (port_taken port n.udp)) [
  | inl taken ↦ rw taken refl
  | inr free ↦
      rw free (installs (put_first (bind port) n.udp) free (put_first-IsBound port n.udp d free))
]
  where
    installs :
        (r : Option (ℕ × List (Option UdpEp)))
        → port_taken port n.udp ≡ false
        → IsBound port n.udp r
        → Binds port n (seat n r)
    installs none free b = refl
    installs (some r) free b = (free, b.2, b.3, b.0)
