-- ===== src/Packet/Encoding.antt =====
-- The packet format, independent of the program: what bytes stand for a packet.
pub mod Size
use samsung_nasa.Base.{ℕ, ◌+◌, ◌*◌, List, [], ◌∷◌, ◌++◌, length}
use samsung_nasa.Bytes.{u16_to_be_bytes, u32_to_be_bytes}
use samsung_nasa.Packet.Address.{Address}
use samsung_nasa.Packet.PacketInfo.{to_byte}
use samsung_nasa.Packet.PacketType
use samsung_nasa.Packet.DataType
use samsung_nasa.Packet.Value.{Value, Message, enum_value, variable_value, long_variable_value}
use samsung_nasa.Packet.Types.{Packet, Payload, messages, structure}

abbrev pub value_bytes : Value → List ℕ
value_bytes (enum_value n) = n ∷ []
value_bytes (variable_value n) = u16_to_be_bytes n
value_bytes (long_variable_value n) = u32_to_be_bytes n

abbrev pub message_bytes : List Message → List ℕ
message_bytes [] = []
message_bytes (m ∷ ms) = u16_to_be_bytes m.id ++ (value_bytes m.value ++ message_bytes ms)

-- The count byte of a payload, and what stands behind it.
abbrev pub payload_count : Payload → ℕ
payload_count (messages ms) = length ms
payload_count (structure s) = 1

abbrev pub payload_body : Payload → List ℕ
payload_body (messages ms) = message_bytes ms
payload_body (structure s) = u16_to_be_bytes s.number ++ s.contents

abbrev pub address_bytes : Address → List ℕ
address_bytes a = a.class ∷ a.channel ∷ a.address ∷ []

-- Both types share a byte.
abbrev pub type_byte : Packet → ℕ
type_byte p = PacketType.discriminant p.packet_type * 16 + DataType.discriminant p.data_type

abbrev pub encode : Packet → List ℕ
encode p =
    address_bytes p.source
    ++ (address_bytes p.destination
        ++ (to_byte p.packet_info
            ∷ type_byte p
            ∷ p.packet_number
            ∷ payload_count p.payload
            ∷ payload_body p.payload))
