-- ===== src/Ipc/Channel/Tests.antt =====
-- The channels of kernel/src/ipc/channel.rs at a concrete table.
use tanix.Ipc.{Message}
use tanix.Ipc.Channel.{ChannelState, Channel, ChannelTable, new_channel, create}
use tanix.Ipc.Channel.Rendezvous.{IsOpen, channel_recv-create}
use tanix.Prelude.{none, some, [], ◌∷◌, arith}

abbrev hello : Message
hello = record { sender = 7; opcode = 1; payload = 104 ∷ 105 ∷ [] }

abbrev waiting : Channel
waiting = record (new_channel 3) { state = ChannelState.recv_waiting }

-- A table with a channel in use.
abbrev one_channel : ChannelTable
one_channel = record { channels = some waiting ∷ none ∷ []; next_id = 4 }

channel_recv-create_example : IsOpen hello 9 (create one_channel)
unfolding new_channel
channel_recv-create_example = channel_recv-create hello 9 one_channel (omega arith, (tt, tt))
