-- ===== src/Packet/Equality.antt =====
-- Decisions of equality for the packets of protocol/src/packet.rs and their parts.
use native.Mathlib.Decide.{ℕ_discrete}
use samsung_nasa.Base.{◌≡◌, ◌↔◌, arith, true, ==_iff}
use samsung_nasa.Packet.Address
use samsung_nasa.Packet.Address.{Address}
use samsung_nasa.Packet.PacketInfo.{PacketInfo}
use samsung_nasa.Packet.Value.{Message, Value}
use samsung_nasa.Packet.Types.{Packet, Payload, Structure}
use samsung_nasa.Packet.DataType.{DataType-discrete}
use samsung_nasa.Packet.PacketType.{PacketType-discrete}

Value-discrete : Discrete Value
Value-discrete = hlevel ℕ_discrete

Message-discrete : Discrete Message
Message-discrete = hlevel (ℕ_discrete, Value-discrete)

Structure-discrete : Discrete Structure
Structure-discrete = hlevel ℕ_discrete

Payload-discrete : Discrete Payload
Payload-discrete = hlevel (ℕ_discrete, Structure-discrete, Message-discrete)

Address-discrete : Discrete Address
Address-discrete = hlevel ℕ_discrete

PacketInfo-discrete : Discrete PacketInfo
PacketInfo-discrete = hlevel ℕ_discrete

pub Packet-discrete : Discrete Packet
Packet-discrete = hlevel (
  ℕ_discrete, Address-discrete, PacketInfo-discrete, Payload-discrete, DataType-discrete,
  PacketType-discrete,
)

-- `==` on addresses decides their equality.
pub Address-eq_iff : (a b : Address) → (Address.eq a b ≡ true) ↔ (a ≡ b)
unfolding Address.eq
Address-eq_iff a b =
    ground (arith, ==_iff a.class b.class, ==_iff a.channel b.channel, ==_iff a.address b.address)
