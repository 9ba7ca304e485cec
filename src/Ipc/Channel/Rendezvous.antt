-- ===== src/Ipc/Channel/Rendezvous.antt =====
-- What becomes of a message that is sent over a channel of kernel/src/ipc/channel.rs.
use tanix.Ipc.{Message}
use tanix.Ipc.Channel.{
  ChannelState, Channel, ChannelTable, new_channel, try_send, try_recv, keep, fill, created, create,
  with_channel, channel_send, channel_recv,
}
use tanix.Prelude.{
  ℕ, ◌<◌, ◌≡◌, refl, true, false, Option, none, some, List, [], ◌∷◌, arith, All, ◌==◌,
}

-- What a send and then a receive do in each state.
abbrev pub Carries : Message → ℕ → Channel → ChannelState → Type 0
Carries m r c ChannelState.idle =
    ((try_send m c).0 ≡ true)
    × ((try_recv r (try_send m c).1).0 ≡ some m)
    × ((try_recv r (try_send m c).1).1.state ≡ ChannelState.idle)
Carries m r c ChannelState.recv_waiting =
    ((try_send m c).0 ≡ true)
    × ((try_recv r (try_send m c).1).0 ≡ none)
    × ((try_recv r (try_recv r (try_send m c).1).1).0 ≡ none)
Carries m r c ChannelState.send_pending =
    (try_send m c ≡ (false, c)) × ((try_recv r (try_send m c).1).0 ≡ some c.msg)

carries :
    (m : Message) (r id : ℕ) (st : ChannelState) (k : Message)
    → Carries m r (record { id = id; state = st; msg = k }) st
unfolding try_send try_recv
carries m r id ChannelState.idle k = (refl, refl, refl)
carries m r id ChannelState.recv_waiting k = (refl, refl, refl)
carries m r id ChannelState.send_pending k = (refl, refl)

-- A send to an idle channel is accepted, and the next receive returns the message. A send to a
-- channel with a pending message is refused, and the next receive returns that message. A send to a
-- channel whose receiver waits is accepted, and the next two receives return nothing.
try_recv-try_send : (m : Message) (r : ℕ) (c : Channel) → Carries m r c c.state
try_recv-try_send m r c = carries m r c.id c.state c.msg

-- The channel of a slot has a number below the bound.
abbrev pub IsBelow : ℕ → Option Channel → Type 0
IsBelow n none = Unit
IsBelow n (some c) = c.id < n

-- A send to the channel `id` is accepted, and the receive behind it returns the message.
abbrev Delivers : Message → ℕ → ℕ → Option (List (Option Channel)) → Type 0
Delivers m r id none = Unit
Delivers m r id (some chs) =
    let sent = with_channel false (try_send m) id chs in
    (sent.0 ≡ true) × ((with_channel none (try_recv r) id sent.1).0 ≡ some m)

module _ {A : Type 0} (missing : A) (f : Channel → A × Channel) (id : ℕ) (c : Channel)
    (rest : List (Option Channel)) where
  with_channel_other :
      (c.id == id) ≡ false
      → with_channel missing f id (some c ∷ rest)
        ≡ ((with_channel missing f id rest).0, some c ∷ (with_channel missing f id rest).1)
  unfolding with_channel
  with_channel_other e = rw e refl

  with_channel_same :
      (c.id == id) ≡ true
      → with_channel missing f id (some c ∷ rest) ≡ ((f c).0, some (f c).1 ∷ rest)
  unfolding with_channel
  with_channel_same e = rw e refl

keep-Delivers :
    (m : Message) (r id : ℕ) (c : Channel) (chs : Option (List (Option Channel)))
    → c.id < id
    → Delivers m r id chs
    → Delivers m r id (keep (some c) chs)
keep-Delivers m r id c none below d = tt
keep-Delivers m r id c (some chs) below d =
    let other : (c.id == id) ≡ false = ground (arith, below) in
    let sent = (with_channel false (try_send m) id chs).1 in
    rw (with_channel_other false (try_send m) id c chs other)
      (rw (with_channel_other none (try_recv r) id c sent other) d)

fill-Delivers :
    (m : Message) (r id : ℕ) (chs : List (Option Channel))
    → All (IsBelow id) chs
    → Delivers m r id (fill (new_channel id) chs)
unfolding fill new_channel try_send try_recv
fill-Delivers m r id [] v = tt
fill-Delivers m r id (none ∷ chs) v =
    let same : (id == id) ≡ true = ground arith in
    rw (with_channel_same false (try_send m) id (new_channel id) chs same) (
      rw (with_channel_same none (try_recv r) id (try_send m (new_channel id)).1 chs same)
        (refl, refl))
fill-Delivers m r id (some c ∷ chs) v =
    keep-Delivers m r id c (fill (new_channel id) chs) v.0 (fill-Delivers m r id chs v.1)

-- What the result of `create` can carry.
abbrev pub IsOpen : Message → ℕ → Option ℕ × ChannelTable → Type 0
IsOpen m r (none, t) = Unit
IsOpen m r (some id, t) =
    ((channel_send id m t).0 ≡ true) × ((channel_recv id r (channel_send id m t).1).0 ≡ some m)

-- Where all the numbers of a table are below the next one, a message that is sent to the channel that
-- `create` returns is accepted, and the next receive from that channel returns it.
pub channel_recv-create :
    (m : Message) (r : ℕ) (t : ChannelTable)
    → All (IsBelow t.next_id) t.channels
    → IsOpen m r (create t)
unfolding create channel_send channel_recv
channel_recv-create m r t v =
    opened (fill (new_channel t.next_id) t.channels) (fill-Delivers m r t.next_id t.channels v)
  where
    opened :
        (chs : Option (List (Option Channel)))
        → Delivers m r t.next_id chs
        → IsOpen m r (created t chs)
    opened none d = tt
    opened (some chs) d = d
