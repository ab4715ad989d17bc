-- ===== src/Packet/Error.antt =====
-- The errors of packet.rs.
use samsung_nasa.Base.{ℕ}

-- `PacketError`: why bytes are no packet.
pub data PacketError : Type 0 where
  too_short : PacketError
  unknown_packet_type : ℕ → PacketError
  unexpected_structure : PacketError
  structure_too_long : ℕ → PacketError

-- `SerializePacketError`: why a packet cannot be written.
pub data SerializePacketError : Type 0 where
  buffer_too_short invalid_message_value packet_too_long : SerializePacketError
