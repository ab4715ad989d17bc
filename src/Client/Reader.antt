-- ===== src/Client/Reader.antt =====
-- The task of client/src/lib.rs that reads packets: notifications go to the callbacks, replies to
-- the request that waits for them.
pub mod Delivery
use samsung_nasa.Base.{ℕ, ◌==◌, Bool, true, false, if◌then◌else◌, not, List, Option, none, some}
use samsung_nasa.Packet.Address
use samsung_nasa.Packet.Address.{Address}
use samsung_nasa.Packet.PacketType
use samsung_nasa.Packet.PacketType.{PacketType}
use samsung_nasa.Packet.DataType
use samsung_nasa.Packet.DataType.{DataType}
use samsung_nasa.Packet.Value.{Message}
use samsung_nasa.Packet.Types.{Packet, Payload, messages, structure}

-- A request that waits, by the sender of its channel.
abbrev pub Request : Type 0
Request = ℕ

-- The map from packet numbers to the requests that wait.
abbrev pub Waiting : Type 0
Waiting = ℕ → Option Request

abbrev pub insert : ℕ → Request → Waiting → Waiting
insert number request waiting n = if n == number then some request else waiting n

abbrev pub remove : ℕ → Waiting → Waiting
remove number waiting n = if n == number then none else waiting n

-- `Shared`, without the writer and the callbacks.
pub record Shared : Type 0 where
  pub address : Address
  pub waiting : Waiting

-- What the task does with a packet.
pub data Action : Type 0 where
  skip : Action
  notify : Address → List Message → Action
  deliver : Request → Packet → Action

-- The lock of `waiting` in `send_with_retry`.
unfoldable pub wait_for : Packet → Request → Shared → Shared
wait_for packet request shared = record shared {
  waiting = insert packet.packet_number request shared.waiting;
}

unfoldable pub on_reply : Packet → Shared → Shared × Action
on_reply packet shared =
    if not (Address.eq packet.destination shared.address) then (shared, skip) else (
      record shared { waiting = remove packet.packet_number shared.waiting },
      elim (shared.waiting packet.packet_number) [
        | some request ↦ deliver request packet
        | none ↦ skip
      ],
    )

-- The guards of the loop of `reader_task` and its match on the data type.
unfoldable pub dispatch : PacketType → Payload → DataType → Packet → Shared → Shared × Action
dispatch PacketType.normal (messages ms) DataType.notification packet shared =
    (shared, notify packet.source ms)
dispatch PacketType.normal (messages ms) DataType.ack packet shared = on_reply packet shared
dispatch PacketType.normal (messages ms) DataType.nack packet shared = on_reply packet shared
dispatch PacketType.normal (messages ms) DataType.response packet shared = on_reply packet shared
dispatch _ _ _ packet shared = (shared, skip)

-- The body of the loop of `reader_task`.
unfoldable pub on_packet : Packet → Shared → Shared × Action
on_packet packet shared = dispatch packet.packet_type packet.payload packet.data_type packet shared
