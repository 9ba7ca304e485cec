-- ===== src/Ipc/Channel.antt =====
-- kernel/src/ipc/channel.rs: the rendezvous channels and their table. An endpoint is its number.
pub mod Rendezvous
mod Tests
use tanix.Ipc.{Message, msg_max_bytes}
use tanix.Prelude.{
  ℕ, ◌+◌, ◌%◌, ◌^◌, Bool, true, false, Option, none, some, List, [], ◌∷◌, replicate, ◌==◌,
  if◌then◌else◌,
}

pub data ChannelState : Type 0 where
  idle send_pending recv_waiting : ChannelState

pub record Channel : Type 0 where
  pub id : ℕ
  pub state : ChannelState
  pub msg : Message

unfoldable pub new_channel : ℕ → Channel
new_channel id = record {
  id = id;
  state = ChannelState.idle;
  msg = record { sender = 0; opcode = 0; payload = replicate msg_max_bytes 0 };
}

-- `true` stands for `Ok(())`.
unfoldable pub try_send : Message → Channel → Bool × Channel
try_send msg c = elim c.state [
  | ChannelState.idle ↦ (true, record c { msg = msg; state = ChannelState.send_pending })
  | ChannelState.recv_waiting ↦ (true, record c { msg = msg; state = ChannelState.idle })
  | ChannelState.send_pending ↦ (false, c)
]

unfoldable pub try_recv : ℕ → Channel → Option Message × Channel
try_recv receiver c = elim c.state [
  | ChannelState.send_pending ↦ (some c.msg, record c { state = ChannelState.idle })
  | ChannelState.idle ↦ (
    none,
    record c { msg = record c.msg { sender = receiver }; state = ChannelState.recv_waiting },
  )
  | ChannelState.recv_waiting ↦ (none, c)
]

abbrev pub max_channels : ℕ
max_channels = 16

pub record ChannelTable : Type 0 where
  pub channels : List (Option Channel)
  pub next_id : ℕ

unfoldable pub new_table : ChannelTable
new_table = record { channels = replicate max_channels none; next_id = 1 }

-- The channels behind one that is kept.
abbrev pub keep : Option Channel → Option (List (Option Channel)) → Option (List (Option Channel))
keep slot none = none
keep slot (some rest) = some (slot ∷ rest)

-- The first free slot takes the channel.
unfoldable pub fill : Channel → List (Option Channel) → Option (List (Option Channel))
fill c [] = none
fill c (none ∷ rest) = some (some c ∷ rest)
fill c (some d ∷ rest) = keep (some d) (fill c rest)

-- A table with the new channel, where there was room.
abbrev pub created : ChannelTable → Option (List (Option Channel)) → Option ℕ × ChannelTable
created t none = (none, t)
created t (some chs) =
    (some t.next_id, record t { channels = chs; next_id = (t.next_id + 1) % 2 ^ 32 })

unfoldable pub create : ChannelTable → Option ℕ × ChannelTable
create t = created t (fill (new_channel t.next_id) t.channels)

module _ {ℓ} {A : Type ℓ} where
  -- An operation on the channel that `get_mut` finds, the first with the number.
  unfoldable pub with_channel :
      A → (Channel → A × Channel) → ℕ → List (Option Channel) → A × List (Option Channel)
  with_channel missing f id [] = (missing, [])
  with_channel missing f id (none ∷ rest) =
      let later = with_channel missing f id rest in (later.0, none ∷ later.1)
  with_channel missing f id (some c ∷ rest) =
      let later = with_channel missing f id rest in
      if c.id == id then ((f c).0, some (f c).1 ∷ rest) else (later.0, some c ∷ later.1)

unfoldable pub channel_send : ℕ → Message → ChannelTable → Bool × ChannelTable
channel_send id msg t =
    let (ok, chs) = with_channel false (try_send msg) id t.channels in
    (ok, record t { channels = chs })

unfoldable pub channel_recv : ℕ → ℕ → ChannelTable → Option Message × ChannelTable
channel_recv id receiver t =
    let (msg, chs) = with_channel none (try_recv receiver) id t.channels in
    (msg, record t { channels = chs })
