-- ===== src/Examples.antt =====
-- Runs of protocol/src and client/src on concrete packets and bytes.
pub mod Bus
pub mod Parser
pub mod Format
pub mod Requests
pub mod Control
pub mod Daemon
pub mod Shown
pub mod Exchange
pub mod Exporter
pub mod Bridge
use samsung_nasa.Base.{ℕ, List, [], ◌∷◌, ◌<◌, arith, refl}
use samsung_nasa.Packet.Address.{Address}
use samsung_nasa.Packet.PacketInfo.{PacketInfo}
use samsung_nasa.Packet.PacketType
use samsung_nasa.Packet.DataType
use samsung_nasa.Packet.MessageKind
use samsung_nasa.Packet.Value
use samsung_nasa.Packet.Value.{Message, enum_value, variable_value}
use samsung_nasa.Packet.Types.{Packet, messages, IsValid}

abbrev pub controller : Address
controller = record { class = 0x80; channel = 0x10; address = 0x10 }

abbrev pub indoor_unit : Address
indoor_unit = record { class = 0x20; channel = 0; address = 0 }

abbrev pub power_on : Message
power_on = record { id = 0x4000; value = enum_value 1 }

abbrev pub set_temp : Message
set_temp = record { id = 0x4201; value = variable_value 215 }

-- A request to turn a unit on, at 21.5 degrees.
abbrev pub request : Packet
request = record {
  source = controller;
  destination = indoor_unit;
  packet_info = record { info = 1; protocol_version = 2; retry_count = 0; reserved = 0 };
  packet_type = PacketType.normal;
  data_type = DataType.request;
  packet_number = 7;
  payload = messages (power_on ∷ set_temp ∷ []);
}

pub request-IsValid : IsValid request
unfolding MessageKind.kind Value.kind
request-IsValid = (
  (omega arith, omega arith, omega arith),
  (omega arith, omega arith, omega arith),
  (omega arith, omega arith, omega arith, omega arith),
  omega arith,
  (((omega arith, omega arith, refl), ((omega arith, omega arith, refl), tt)), omega arith),
)

-- What it looks like on the bus.
abbrev pub request_bytes : List ℕ
request_bytes =
    0x80 ∷ 0x10 ∷ 0x10 ∷ 0x20 ∷ 0x00 ∷ 0x00 ∷ 0xc0 ∷ 0x13 ∷ 0x07 ∷ 0x02 ∷ 0x40 ∷ 0x00 ∷ 0x01 ∷ 0x42
    ∷ 0x01 ∷ 0x00 ∷ 0xd7 ∷ []
