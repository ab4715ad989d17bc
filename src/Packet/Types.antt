-- ===== src/Packet/Types.antt =====
-- `Packet`, with its payload.
use samsung_nasa.Base.{ℕ, ◌≤◌, ◌≡◌, List, length, All, some}
use samsung_nasa.Bytes.{IsByte, IsBytes, IsU16}
use samsung_nasa.Packet.Address
use samsung_nasa.Packet.Address.{Address}
use samsung_nasa.Packet.PacketInfo
use samsung_nasa.Packet.PacketInfo.{PacketInfo}
use samsung_nasa.Packet.PacketType.{PacketType}
use samsung_nasa.Packet.DataType.{DataType}
use samsung_nasa.Packet.MessageKind.{MessageId}
use samsung_nasa.Packet.MessageKind
use samsung_nasa.Packet.Value
use samsung_nasa.Packet.Value.{Message}

abbrev pub max_message_count : ℕ
max_message_count = 255

abbrev pub max_structure_size : ℕ
max_structure_size = 256

pub record Structure : Type 0 where
  pub number : MessageId
  pub contents : List ℕ

-- `Data`.
pub data Payload : Type 0 where
  messages : List Message → Payload
  structure : Structure → Payload

pub record Packet : Type 0 where
  pub source : Address
  pub destination : Address
  pub packet_info : PacketInfo
  pub packet_type : PacketType
  pub data_type : DataType
  pub packet_number : ℕ
  pub payload : Payload

-- A message whose value has the width that its number announces.
abbrev pub IsMessage : Message → Type 0
IsMessage m =
    IsU16 m.id × Value.IsInRange m.value × (MessageKind.kind m.id ≡ some (Value.kind m.value))

-- What the types of the Rust fields, and the kinds of the numbers, demand.
abbrev pub IsPayload : Payload → Type 0
IsPayload (messages ms) = All IsMessage ms × (length ms ≤ max_message_count)
IsPayload (structure s) =
    IsU16 s.number
    × IsBytes s.contents
    × (length s.contents ≤ max_structure_size)
    × (MessageKind.kind s.number ≡ some MessageKind.structure)

abbrev pub IsValid : Packet → Type 0
IsValid p =
    Address.IsValid p.source
    × Address.IsValid p.destination
    × PacketInfo.IsValid p.packet_info
    × IsByte p.packet_number
    × IsPayload p.payload
