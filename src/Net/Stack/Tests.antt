-- ===== src/Net/Stack/Tests.antt =====
-- The stack of servers/libtanix-net/src/lib.rs at concrete calls and frames.
use tanix.Bytes.{Bytes, eq_bytes}
use tanix.Net.Bytes.{get_u16}
use tanix.Net.Ip.{parse_eth}
use tanix.Net.Out
use tanix.Net.Stack.{NetStack, new_stack, cache_add, overwrite}
use tanix.Net.Stack.Arp.{handle_arp, arp_packet}
use tanix.Net.Stack.Frames.{handle_udp-eq-none_iff}
use tanix.Net.Stack.Ingress.{handle_udp, by_ethertype, on_frame}
use tanix.Net.Stack.Ports.{Binds, udp_bind-Binds}
use tanix.Net.Stack.Reach.{starts, listens, receives, polls, Run-AreValid}
use tanix.Net.Stack.Sockets.{AreValid}
use tanix.Net.Stack.TcpSockets.{tcp_listen, poll_stack}
use tanix.Net.Stack.UdpSockets.{udp_bind, port_taken, put_first}
use tanix.Prelude.{arith, ◌≡◌, refl, [], ◌∷◌, none, some}

abbrev guest_ip : Bytes
guest_ip = 10 ∷ 0 ∷ 2 ∷ 15 ∷ []

abbrev gateway_ip : Bytes
gateway_ip = 10 ∷ 0 ∷ 2 ∷ 2 ∷ []

abbrev gateway_mac : Bytes
gateway_mac = 82 ∷ 85 ∷ 10 ∷ 0 ∷ 2 ∷ 2 ∷ []

abbrev fresh : NetStack
fresh = new_stack guest_ip gateway_ip

-- The answer of the gateway to the probe, sent to all.
abbrev gateway_answers : Bytes
gateway_answers =
    255 ∷ 255 ∷ 255 ∷ 255 ∷ 255 ∷ 255 ∷ 82 ∷ 85 ∷ 10 ∷ 0 ∷ 2 ∷ 2 ∷ 8 ∷ 6 ∷ 0 ∷ 1 ∷ 8 ∷ 0 ∷ 6 ∷ 4 ∷ 0
    ∷ 2 ∷ 82 ∷ 85 ∷ 10 ∷ 0 ∷ 2 ∷ 2 ∷ 10 ∷ 0 ∷ 2 ∷ 2 ∷ 0 ∷ 0 ∷ 0 ∷ 0 ∷ 0 ∷ 0 ∷ 10 ∷ 0 ∷ 2 ∷ 15 ∷ []

answered :
    on_frame gateway_answers 5 fresh Out.new
    ≡ some (record (cache_add gateway_ip gateway_mac fresh) { gw_mac = some gateway_mac }, Out.new)
unfolding on_frame by_ethertype handle_arp arp_packet parse_eth cache_add overwrite new_stack
    get_u16 eq_bytes
answered = refl

Run-AreValid_example :
    AreValid
      (poll_stack 9
        (tcp_listen 80
          (record (cache_add gateway_ip gateway_mac fresh) { gw_mac = some gateway_mac })).1
        Out.new).0
Run-AreValid_example = Run-AreValid (
    polls 9 Out.new
      (listens 80 (receives gateway_answers 5 Out.new (starts guest_ip gateway_ip) answered)))

udp_bind-Binds_example : Binds 53 (udp_bind 7 fresh).1 (udp_bind 53 (udp_bind 7 fresh).1)
unfolding udp_bind put_first port_taken new_stack
udp_bind-Binds_example = udp_bind-Binds 53 (udp_bind 7 fresh).1 (refl, tt)

-- A segment whose length field is 7.
abbrev short_seg : Bytes
short_seg = 0 ∷ 53 ∷ 0 ∷ 7 ∷ 0 ∷ 7 ∷ 0 ∷ 0 ∷ []

handle_udp-short : handle_udp short_seg gateway_ip fresh ≡ none
unfolding get_u16
handle_udp-short = (handle_udp-eq-none_iff short_seg gateway_ip fresh).1 (omega arith) (omega arith)
