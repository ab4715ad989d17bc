-- ===== src/Packet.antt =====
-- protocol/src/packet.rs: the packets that frames carry, with their parser and serialiser.
pub mod Equality
pub mod Error
pub mod Address
pub mod PacketInfo
pub mod PacketType
pub mod DataType
pub mod MessageKind
pub mod Value
pub mod Types
pub mod Reader
pub mod Panic
pub mod Parse
pub mod Writer
pub mod Serialize
pub mod Encoding
pub mod RoundTrip
