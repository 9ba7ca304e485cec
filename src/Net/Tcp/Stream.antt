-- ===== src/Net/Tcp/Stream.antt =====
-- The two byte streams of a socket of servers/libtanix-net/src/tcp.rs, behind its fixed buffers: the
-- queue of bytes to be acknowledged, and the received bytes that the application has not read.
use mathlib.Core.Path.{ap₂}
use tanix.Bytes.{Bytes, slice, copy_at}
use tanix.Bytes.Copy.{
  take-copy_at, take-copy_within, take-take, slice-min, slice-eq-drop-take, take-min,
  take-copy_prefix,
}
use tanix.Net.Tcp.{
  TcpSocket, TcpSeg, rx_buf, tx_buf, seq_add, seq_sub, seq_lt, may_write, app_write, app_read,
}
use tanix.Net.Tcp.Invariant.{IsValid}
use tanix.Net.Tcp.Segment.{ack_prefix, ack_syn, ack_fin, rx_ack, take_payload}
use tanix.Prelude.{
  ℕ, ◌+◌, ◌-◌, ◌^◌, ◌<◌, ◌≤◌, ◌≡◌, ◌≢◌, ◌⊎◌, inl, inr, min, refl, sym, ap, ◌∙◌, true, false, arith,
  length, take, drop, ◌++◌, Bool-cases, ◌||◌, not, ltb, ◌==◌,
}

abbrev pub queue : TcpSocket → Bytes
queue s = take s.out_len s.out

abbrev pub unread : TcpSocket → Bytes
unread s = take s.rx_len s.rx

-- The tests for the SYN and the FIN leave the queue alone.
rest_keeps :
    (ack : ℕ) (s : TcpSocket)
    → let s' = ack_fin ack (ack_syn ack s) in
      (s'.out ≡ s.out)
      × (s'.data_base ≡ s.data_base)
      × (s'.sent ≡ s.sent)
      × (s'.out_len ≡ s.out_len)
unfolding ack_fin ack_syn
rest_keeps ack s = ground arith

module _ (s : TcpSocket) (v : IsValid s) where
  -- On a valid socket, `app_write` appends all the bytes to the queue, or refuses and changes nothing:
  -- it refuses in a state other than ESTABLISHED and CLOSE_WAIT, and where the queue has no room for
  -- all of them.
  app_write_appends :
      (bs : Bytes)
      → ((app_write bs s).0 ≡ true)
          × (queue (app_write bs s).1 ≡ queue s ++ bs)
          × (may_write s.state ≡ true)
          × (s.out_len + length bs ≤ tx_buf)
        ⊎ (app_write bs s ≡ (false, s))
          × ((may_write s.state ≡ false) ⊎ (tx_buf < s.out_len + length bs))
  unfolding app_write
  app_write_appends bs =
      elim (Bool-cases (not (may_write s.state) || ltb tx_buf (s.out_len + length bs))) [
        | inl refused ↦ rw refused (inr (refl, ground arith))
        | inr room ↦ rw room (
            inl (
              refl,
              take-copy_at s.out s.out_len bs (ground (arith, v.out_room)),
              ground arith,
              ground arith,
            ))
      ]

  -- On a valid socket, `app_read` returns the oldest unread bytes, as many as fit, and keeps the rest.
  app_read_takes :
      (cap : ℕ)
      → ((app_read cap s).0 ≡ take cap (unread s))
        × (unread (app_read cap s).1 ≡ drop cap (unread s))
  unfolding app_read
  app_read_takes cap =
      let e : min s.rx_len cap - 0 ≡ min s.rx_len cap = omega arith in
      (
        rw e (sym (take-take cap s.rx_len s.rx)),
        take-copy_within s.rx (min s.rx_len cap) s.rx_len (omega arith)
              (omega (arith, v.unread, v.rx_room))
            ∙ slice-min cap s.rx_len s.rx,
      )

  -- How far an ACK moves the queue.
  abbrev advance : ℕ → ℕ
  advance ack = min (seq_sub ack s.data_base) s.sent

  ack_prefix-queue : (ack : ℕ) → queue (ack_prefix ack s) ≡ drop (advance ack) (queue s)
  unfolding ack_prefix
  ack_prefix-queue ack = elim (Bool-cases (ltb 0 (advance ack))) [
    | inl some_acked ↦ rw some_acked (
        take-copy_within s.out (advance ack) s.out_len (omega (arith, v.prefix))
          (omega (arith, v.queued, v.out_room))
        ∙ slice-eq-drop-take s.out (advance ack) s.out_len)
    | inr none_acked ↦
        rw none_acked
          (ap (λ (n : ℕ). drop n (queue s)) (let z : 0 ≡ advance ack = ground arith in z))
  ]

  ack_prefix-fields :
      (ack : ℕ)
      → ((ack_prefix ack s).data_base ≡ seq_add s.data_base (advance ack))
        × ((ack_prefix ack s).sent ≡ s.sent - advance ack)
        × ((ack_prefix ack s).out_len ≡ s.out_len - advance ack)
  unfolding ack_prefix
  ack_prefix-fields ack = ground (arith, v.based, v.prefix)

  -- On a valid socket, an ACK takes the bytes between the front of the queue and its number off the
  -- front, never more than were sent, and moves the sequence number of the front by as many.
  pub rx_ack_advances :
      (ack : ℕ)
      → (queue (rx_ack ack s) ≡ drop (advance ack) (queue s))
        × ((rx_ack ack s).data_base ≡ seq_add s.data_base (advance ack))
        × ((rx_ack ack s).sent ≡ s.sent - advance ack)
        × ((rx_ack ack s).out_len ≡ s.out_len - advance ack)
  unfolding rx_ack
  rx_ack_advances ack =
      let k = rest_keeps ack (ack_prefix ack s) in
      let f = ack_prefix-fields ack in
      (
        ap₂ (λ (n : ℕ) (b : Bytes). take n b) k.3 k.0 ∙ ack_prefix-queue ack,
        k.1 ∙ f.0,
        k.2 ∙ f.1,
        k.3 ∙ f.2,
      )

  -- On a valid socket with fewer than 2^31 bytes sent, a 32-bit ACK that `seq_lt` puts before the
  -- front of the queue is taken for one of all that was sent: every byte in flight leaves the queue.
  pub rx_ack_stale :
      (ack : ℕ)
      → ack < 2 ^ 32
      → s.sent < 2 ^ 31
      → seq_lt ack s.data_base ≡ true
      → (queue (rx_ack ack s) ≡ drop s.sent (queue s)) × ((rx_ack ack s).sent ≡ 0)
  unfolding seq_lt
  rx_ack_stale ack small few old =
      let all : advance ack ≡ s.sent = ground arith in
      let m = rx_ack_advances ack in (m.0 ∙ ap (λ (n : ℕ). drop n (queue s)) all, omega arith)

  appends :
      (bs : Bytes)
      → let n = min (length bs) (rx_buf - s.rx_len) in
        take (s.rx_len + n) (copy_at s.rx s.rx_len (slice bs 0 n))
        ≡ unread s ++ take (rx_buf - s.rx_len) bs
  appends bs =
      take-copy_prefix s.rx bs s.rx_len (min (length bs) (rx_buf - s.rx_len))
        (omega (arith, v.unread, v.rx_room)) (omega arith)
      ∙ ap (λ (t : Bytes). unread s ++ t) (take-min bs (rx_buf - s.rx_len))

  -- On a valid socket, a segment at the expected sequence number appends as much of its payload as the buffer has room
  -- for, and moves the expected number past all of the payload; any other segment changes nothing.
  take_payload_appends :
      (seg : TcpSeg)
      → (seg.seq ≡ s.rcv_nxt)
          × (unread (take_payload seg s) ≡ unread s ++ take (rx_buf - s.rx_len) seg.payload)
          × ((take_payload seg s).rcv_nxt ≡ seq_add s.rcv_nxt (length seg.payload))
        ⊎ (seg.seq ≢ s.rcv_nxt) × (take_payload seg s ≡ s)
  unfolding take_payload
  take_payload_appends seg = elim (Bool-cases (seg.seq == s.rcv_nxt)) [
    | inl here ↦ rw here (inl (ground arith, appends seg.payload, refl))
    | inr there ↦ rw there (inr (ground arith, refl))
  ]
