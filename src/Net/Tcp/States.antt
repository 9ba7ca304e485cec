-- ===== src/Net/Tcp/States.antt =====
-- The state machine of a socket of servers/libtanix-net/src/tcp.rs: the moves that a segment can
-- make, the passive handshake, and the end of one that is never answered.
use mathlib.Core.Path.{subst}
use tanix.Net.Tcp.{TcpState, TcpSocket, TcpSeg}
use tanix.Net.Tcp.Poll.{poll, retry, send_fresh, poll_fin}
use tanix.Net.Tcp.Segment.{
  kill, accept, ack_prefix, ack_syn, ack_fin, rx_ack, take_payload, rx_data, take_fin, rx_fin,
  open_passive, rx_syn, rx_synack, rx_payload, deliver, in_syn_sent, in_syn_rcvd, in_open, by_state,
  take_ack, rx_segment, leave_established,
}
use tanix.Net.Wire.{TxCtx}
use tanix.Prelude.{either, ℕ, ◌≡◌, ◌⊎◌, refl, sym, ap, ◌∙◌, Bool, true, false, arith, if◌then◌else◌}

-- The moves of the state diagram.
pub data Moves : TcpState → TcpState → Type 0 where
  stays : (st : TcpState) → Moves st st
  syn_arrives : Moves TcpState.listen TcpState.syn_rcvd
  active_opens : Moves TcpState.syn_sent TcpState.established
  passive_opens : Moves TcpState.syn_rcvd TcpState.established
  peer_closes : Moves TcpState.established TcpState.close_wait

state-rx_ack : (ack : ℕ) (s : TcpSocket) → (rx_ack ack s).state ≡ s.state
unfolding rx_ack ack_prefix ack_syn ack_fin
state-rx_ack ack s = ground arith

state-take_ack : (seg : TcpSeg) (s : TcpSocket) → (take_ack seg s).state ≡ s.state
unfolding take_ack
state-take_ack seg s = ground (arith, state-rx_ack seg.ack (record s { peer_wnd = seg.wnd }))

state-rx_payload :
    (seg : TcpSeg) (s : TcpSocket) (ctx : TxCtx) → (rx_payload seg s ctx).0.state ≡ s.state
unfolding rx_payload rx_data take_payload
state-rx_payload seg s ctx = ground arith

-- While the handshake lasts a delivery leaves the state alone.
state-deliver_syn :
    (seg : TcpSeg) (s : TcpSocket) (ctx : TxCtx)
    → (leave_established true s.state ≡ s.state)
    → (deliver seg true s ctx).0.state ≡ s.state
unfolding deliver rx_fin take_fin
state-deliver_syn seg s ctx same = ground (arith, state-rx_payload seg s ctx)

state-deliver :
    (seg : TcpSeg) (s : TcpSocket) (ctx : TxCtx)
    → ((deliver seg false s ctx).0.state ≡ s.state)
      ⊎ ((deliver seg false s ctx).0.state ≡ leave_established false s.state)
unfolding deliver rx_fin take_fin
state-deliver seg s ctx = ground (arith, state-rx_payload seg s ctx)

state-rx_synack :
    (seg : TcpSeg) (s : TcpSocket) (ctx : TxCtx) → (rx_synack seg s ctx).0.state ≡ s.state
unfolding rx_synack
state-rx_synack seg s ctx = ground arith

-- A connection opens only once its SYN was acknowledged.
state-in_syn_sent :
    (seg : TcpSeg) (s : TcpSocket) (ctx : TxCtx)
    → s.state ≡ TcpState.syn_sent
    → ((in_syn_sent seg s ctx).0.state ≡ TcpState.syn_sent)
      ⊎ ((in_syn_sent seg s ctx).0.state ≡ TcpState.established)
unfolding in_syn_sent
state-in_syn_sent seg s ctx e =
    let t = (rx_synack seg s ctx).0 in
    let u : TcpSocket = (if t.syn_acked then accept t else t) in
    ground (arith, state-rx_synack seg s ctx, state-deliver_syn seg u (rx_synack seg s ctx).1)

state-in_syn_rcvd :
    (seg : TcpSeg) (now : ℕ) (s : TcpSocket) (ctx : TxCtx)
    → s.state ≡ TcpState.syn_rcvd
    → ((in_syn_rcvd seg now s ctx).0.state ≡ TcpState.syn_rcvd)
      ⊎ ((in_syn_rcvd seg now s ctx).0.state ≡ TcpState.established)
unfolding in_syn_rcvd
state-in_syn_rcvd seg now s ctx e = ground (arith, state-deliver_syn seg (accept s) ctx refl)

state-in_open :
    (seg : TcpSeg) (s : TcpSocket) (ctx : TxCtx)
    → ((in_open seg s ctx).0.state ≡ s.state)
      ⊎ ((in_open seg s ctx).0.state ≡ leave_established false s.state)
unfolding in_open
state-in_open seg s ctx = state-deliver seg s _

state-rx_syn :
    (seg : TcpSeg) (now : ℕ) (s : TcpSocket) (ctx : TxCtx)
    → (rx_syn seg now s ctx).0.state ≡ TcpState.syn_rcvd
unfolding rx_syn open_passive
state-rx_syn seg now s ctx = refl

Moves-to : {a b c : TcpState} → c ≡ b → Moves a b → Moves a c
Moves-to {a} e m = subst (λ (st : TcpState). Moves a st) (sym e) m

-- Both branches of a test make a move.
Moves-if :
    {a : TcpState} (b : Bool) (x y : TcpSocket × TxCtx)
    → Moves a x.0.state
    → Moves a y.0.state
    → Moves a (if b then x else y).0.state
Moves-if true x y p q = p
Moves-if false x y p q = q

by_state-Moves :
    (seg : TcpSeg) (now : ℕ) (st : TcpState) (s : TcpSocket) (ctx : TxCtx)
    → s.state ≡ st
    → Moves st (by_state seg now st s ctx).0.state
unfolding by_state
by_state-Moves seg now TcpState.listen s ctx e =
    Moves-if seg.syn (rx_syn seg now s ctx) (kill s, ctx)
      (Moves-to (state-rx_syn seg now s ctx) syn_arrives) (Moves-to e (stays TcpState.listen))
by_state-Moves seg now TcpState.syn_sent s ctx e =
    either (λ p. Moves-to p (stays TcpState.syn_sent)) (λ p. Moves-to p active_opens)
      (state-in_syn_sent seg s ctx e)
by_state-Moves seg now TcpState.syn_rcvd s ctx e =
    either (λ p. Moves-to p (stays TcpState.syn_rcvd)) (λ p. Moves-to p passive_opens)
      (state-in_syn_rcvd seg now s ctx e)
by_state-Moves seg now TcpState.established s ctx e =
    either (λ p. Moves-to (p ∙ e) (stays TcpState.established))
      (λ p. Moves-to (p ∙ ap (leave_established false) e) peer_closes) (state-in_open seg s ctx)
by_state-Moves seg now TcpState.close_wait s ctx e =
    either (λ p. Moves-to (p ∙ e) (stays TcpState.close_wait))
      (λ p. Moves-to (p ∙ ap (leave_established false) e) (stays TcpState.close_wait))
      (state-in_open seg s ctx)

-- Whatever arrives, the state stays or makes one move of the diagram.
pub rx_segment-Moves :
    (seg : TcpSeg) (now : ℕ) (s : TcpSocket) (ctx : TxCtx)
    → Moves s.state (rx_segment seg now s ctx).0.state
unfolding rx_segment
rx_segment-Moves seg now s ctx =
    let s' = take_ack seg s in
    let handled = by_state seg now s'.state s' ctx in
    Moves-if s.dead (s, ctx) (if seg.rst then (kill s, ctx) else handled) (stays s.state)
      (Moves-if seg.rst (kill s, ctx) handled (stays s.state)
        (subst (λ (st : TcpState). Moves st handled.0.state) (state-take_ack seg s)
          (by_state-Moves seg now s'.state s' ctx refl)))

-- A poll leaves the state alone.
pub state-poll : (now : ℕ) (s : TcpSocket) (ctx : TxCtx) → (poll now s ctx).0.state ≡ s.state
unfolding poll retry send_fresh poll_fin
state-poll now s ctx = ground arith
