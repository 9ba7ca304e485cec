-- ===== src/Net/Tcp/Handshake.antt =====
-- The passive handshake of servers/libtanix-net/src/tcp.rs, and the end of one that is not answered.
use native.Mathlib.Decide.{dec_lt}
use tanix.Bytes.{eq_bytes}
use tanix.Net.Tcp.{TcpState, TcpSocket, TcpSeg, max_retries, rto_ticks, seq_add}
use tanix.Net.Tcp.Poll.{poll, retry}
use tanix.Net.Tcp.Segment.{
  accept, ack_prefix, ack_syn, ack_fin, rx_ack, take_payload, rx_data, take_fin, rx_fin,
  open_passive, rx_syn, rx_payload, deliver, in_syn_rcvd, by_state, take_ack, rx_segment,
  is_handshaking,
}
use tanix.Net.Wire.{TxCtx}
use tanix.Prelude.{
  ℕ, ◌+◌, ◌^◌, ◌<◌, ◌≤◌, ◌≡◌, refl, ap, ◌∙◌, true, false, List, [], ◌∷◌, arith, length, replicate,
}

-- A listener that gets a SYN alone becomes the half-open socket of its peer.
rx_segment-listen :
    (seg : TcpSeg) (now : ℕ) (s : TcpSocket) (ctx : TxCtx)
    → s.state ≡ TcpState.listen
    → s.dead ≡ false
    → seg.rst ≡ false
    → seg.ack_flag ≡ false
    → seg.syn ≡ true
    → (rx_segment seg now s ctx).0 ≡ open_passive seg now s
unfolding rx_segment take_ack by_state rx_syn
rx_segment-listen seg now s ctx e d r a y = ground arith

-- The delivery during the handshake keeps the news of it.
n_accepted-deliver :
    (seg : TcpSeg) (s : TcpSocket) (ctx : TxCtx)
    → (deliver seg true (accept s) ctx).0.notify.n_accepted ≡ true
unfolding deliver rx_payload rx_data take_payload rx_fin take_fin
n_accepted-deliver seg s ctx = ground arith

state-deliver :
    (seg : TcpSeg) (s : TcpSocket) (ctx : TxCtx)
    → (deliver seg true (accept s) ctx).0.state ≡ TcpState.established
unfolding deliver rx_payload rx_data take_payload rx_fin take_fin
state-deliver seg s ctx = ground arith

-- What an ACK of the SYN makes of a half-open socket.
take_ack-half_open :
    (seg : TcpSeg) (s : TcpSocket)
    → s.state ≡ TcpState.syn_rcvd
    → s.syn_acked ≡ false
    → s.sent ≡ 0
    → seg.ack_flag ≡ true
    → seg.ack ≡ s.snd_nxt
    → ((take_ack seg s).state ≡ TcpState.syn_rcvd) × ((take_ack seg s).syn_acked ≡ true)
unfolding take_ack rx_ack ack_prefix ack_syn ack_fin
take_ack-half_open seg s e n z a k = ground arith

by_state-half_open :
    (seg : TcpSeg) (now : ℕ) (s : TcpSocket) (ctx : TxCtx)
    → s.syn_acked ≡ true
    → seg.syn ≡ false
    → by_state seg now TcpState.syn_rcvd s ctx ≡ deliver seg true (accept s) ctx
unfolding by_state in_syn_rcvd
by_state-half_open seg now s ctx a y = ground arith

rx_segment-half_open :
    (seg : TcpSeg) (now : ℕ) (s : TcpSocket) (ctx : TxCtx)
    → s.state ≡ TcpState.syn_rcvd
    → s.syn_acked ≡ false
    → s.sent ≡ 0
    → s.dead ≡ false
    → seg.rst ≡ false
    → seg.syn ≡ false
    → seg.ack_flag ≡ true
    → seg.ack ≡ s.snd_nxt
    → rx_segment seg now s ctx ≡ deliver seg true (accept (take_ack seg s)) ctx
unfolding rx_segment
rx_segment-half_open seg now s ctx e n z d r y a k =
    let t = take_ack-half_open seg s e n z a k in
    simp (d, r, t.0) (by_state-half_open seg now (take_ack seg s) ctx t.1 y)

-- What the half-open socket is.
open_passive-fields :
    (seg : TcpSeg) (now : ℕ) (s : TcpSocket)
    → let h = open_passive seg now s in
      (h.state ≡ TcpState.syn_rcvd)
      × (h.syn_acked ≡ false)
      × (h.sent ≡ 0)
      × (h.dead ≡ s.dead)
      × (seq_add h.iss 1 ≡ h.snd_nxt)
unfolding open_passive
open_passive-fields seg now s = (refl, refl, refl, refl, refl)

-- A live listener that gets a SYN and then the ACK of its own SYN, with or without payload and FIN
-- and neither of them a reset, is ESTABLISHED and tells the application so.
pub passive_handshake :
    (syn ack : TcpSeg) (now later : ℕ) (s : TcpSocket) (ctx ctx' : TxCtx)
    → s.state ≡ TcpState.listen
    → s.dead ≡ false
    → (syn.rst ≡ false) × (syn.ack_flag ≡ false) × (syn.syn ≡ true)
    → (ack.rst ≡ false) × (ack.ack_flag ≡ true) × (ack.syn ≡ false)
    → ack.ack ≡ seq_add (rx_segment syn now s ctx).0.iss 1
    → let s' = (rx_segment ack later (rx_segment syn now s ctx).0 ctx').0 in
      (s'.state ≡ TcpState.established) × (s'.notify.n_accepted ≡ true)
passive_handshake syn ack now later s ctx ctx' e d (r1, a1, y1) (r2, a2, y2) k =
    let half : TcpSocket = open_passive syn now s in
    let first = rx_segment-listen syn now s ctx e d r1 a1 y1 in
    let f = open_passive-fields syn now s in
    let k' = k ∙ (ap (λ (h : TcpSocket). seq_add h.iss 1) first ∙ f.4) in
    let second = rx_segment-half_open ack later half ctx' f.0 f.1 f.2 (f.3 ∙ d) r2 y2 a2 k' in
    rw (first, second)
      (state-deliver ack (take_ack ack half) ctx', n_accepted-deliver ack (take_ack ack half) ctx')

-- The due polls of a socket, one after the other: each at or past the deadline that the one before
-- has set.
unfoldable pub poll_all : List ℕ → TcpSocket → TxCtx → TcpSocket × TxCtx
poll_all [] s ctx = (s, ctx)
poll_all (now ∷ later) s ctx = let (s', ctx') = poll now s ctx in poll_all later s' ctx'

-- The times are due: none before `from`, and each a timeout past the one before it.
abbrev pub AreDue : ℕ → List ℕ → Type 0
AreDue from [] = Unit
AreDue from (now ∷ later) =
    (from ≤ now) × (now + rto_ticks < 2 ^ 64) × AreDue (now + rto_ticks) later

-- A socket in a handshake, of which the peer has acknowledged nothing.
pub record IsUnanswered (s : TcpSocket) : Type 0 where
  pub alive : s.dead ≡ false
  pub known : eq_bytes s.peer_mac (replicate 6 0) ≡ false
  pub unacked : s.syn_acked ≡ false
  pub handshaking : is_handshaking s.state ≡ true
  pub tries : s.retries ≤ max_retries

-- A due poll gives up, or counts one more try and sets the next deadline.
poll-IsUnanswered :
    (now : ℕ) (s : TcpSocket) (ctx : TxCtx)
    → IsUnanswered s
    → s.rto_deadline ≤ now
    → now + rto_ticks < 2 ^ 64
    → let s' = (poll now s ctx).0 in
      (max_retries ≤ s.retries → s'.dead ≡ true)
      × (s.retries < max_retries
          → IsUnanswered s' × (s'.retries ≡ s.retries + 1) × (s'.rto_deadline ≡ now + rto_ticks))
unfolding poll retry
poll-IsUnanswered now s ctx u due small = (
  λ past. ground (arith, u.alive, u.known, u.unacked, u.handshaking),
  λ few. ground (arith, u.alive, u.known, u.unacked, u.handshaking),
)

poll-dead : (now : ℕ) (s : TcpSocket) (ctx : TxCtx) → s.dead ≡ true → (poll now s ctx).0.dead ≡ true
unfolding poll
poll-dead now s ctx d = ground arith

poll_all-dead :
    (times : List ℕ) (s : TcpSocket) (ctx : TxCtx)
    → s.dead ≡ true
    → (poll_all times s ctx).0.dead ≡ true
unfolding poll_all
poll_all-dead [] s ctx d = d
poll_all-dead (now ∷ later) s ctx d =
    poll_all-dead later (poll now s ctx).0 (poll now s ctx).1 (poll-dead now s ctx d)

-- A handshake that the peer, whose address is known, never answers ends: after `max_retries` + 1
-- polls, less those tried before, each of them due and before the end of the clock, the socket is
-- dead.
pub handshake_gives_up :
    (times : List ℕ) (s : TcpSocket) (ctx : TxCtx)
    → IsUnanswered s
    → length times + s.retries ≡ max_retries + 1
    → AreDue s.rto_deadline times
    → (poll_all times s ctx).0.dead ≡ true
unfolding poll_all
handshake_gives_up [] s ctx u n due = absurd (omega (arith, u.tries))
handshake_gives_up (now ∷ later) s ctx u n (p, small, due) =
    let step = poll-IsUnanswered now s ctx u p small in
    elim (dec_lt s.retries max_retries) [
      | yes few ↦
          let (u', tries, from) = step.1 few in
          handshake_gives_up later (poll now s ctx).0 (poll now s ctx).1 u' (omega arith)
            (rw from due)
      | no many ↦ poll_all-dead later (poll now s ctx).0 (poll now s ctx).1 (step.0 (omega arith))
    ]
