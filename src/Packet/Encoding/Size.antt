-- ===== src/Packet/Encoding/Size.antt =====
-- The encoding of a valid packet consists of bytes, and is short.
use samsung_nasa.Base.{◌+◌, ◌*◌, ◌≤◌, ◌<◌, arith, List, [], ◌∷◌, length, length-append, All}
use samsung_nasa.Bytes.{IsBytes, IsBytes-append}
use samsung_nasa.Packet.PacketInfo.{to_byte-IsByte}
use samsung_nasa.Packet.PacketType
use samsung_nasa.Packet.DataType
use samsung_nasa.Packet.Value
use samsung_nasa.Packet.Value.{Value, Message, enum_value, variable_value, long_variable_value}
use samsung_nasa.Packet.Types.{Packet, Payload, messages, structure, IsMessage, IsPayload, IsValid}
use samsung_nasa.Packet.Encoding.{value_bytes, message_bytes, payload_count, payload_body, encode}

length-value_bytes : (v : Value) → length (value_bytes v) ≤ 4
length-value_bytes (enum_value n) = omega arith
length-value_bytes (variable_value n) = omega arith
length-value_bytes (long_variable_value n) = omega arith

length-message_bytes : (ms : List Message) → length (message_bytes ms) ≤ 6 * length ms
length-message_bytes [] = omega arith
length-message_bytes (m ∷ ms) = omega (
  arith,
  length-append (value_bytes m.value) (message_bytes ms),
  length-value_bytes m.value,
  length-message_bytes ms,
)

length-payload_body : (p : Payload) → IsPayload p → length (payload_body p) ≤ 1530
length-payload_body (messages ms) (h, room) = omega (arith, length-message_bytes ms)
length-payload_body (structure s) (id, bytes, room, kind) = omega arith

pub length-encode : (p : Packet) → IsPayload p.payload → length (encode p) < 65532
length-encode p h = omega (arith, length-payload_body p.payload h)

value_bytes-IsBytes : (v : Value) → Value.IsInRange v → IsBytes (value_bytes v)
value_bytes-IsBytes (enum_value n) h = (h, tt)
value_bytes-IsBytes (variable_value n) h = omega arith
value_bytes-IsBytes (long_variable_value n) h = omega arith

message_bytes-IsBytes : (ms : List Message) → All IsMessage ms → IsBytes (message_bytes ms)
message_bytes-IsBytes [] h = tt
message_bytes-IsBytes (m ∷ ms) ((id, range, kind), hs) = (
  omega arith,
  (
    omega arith,
    IsBytes-append (value_bytes m.value) (message_bytes ms) (value_bytes-IsBytes m.value range)
        (message_bytes-IsBytes ms hs),
  ),
)

payload-IsBytes : (p : Payload) → IsPayload p → IsBytes (payload_count p ∷ payload_body p)
payload-IsBytes (messages ms) (hs, room) = (omega arith, message_bytes-IsBytes ms hs)
payload-IsBytes (structure s) (id, bytes, room, kind) =
    (omega arith, (omega arith, (omega arith, bytes)))

pub encode-IsBytes : (p : Packet) → IsValid p → IsBytes (encode p)
encode-IsBytes p ((a, b, c), (d, e, f), info, num, h) =
    let types : PacketType.discriminant p.packet_type * 16 + DataType.discriminant p.data_type
        < 256 =
      omega
        (arith, PacketType.discriminant-lt p.packet_type, DataType.discriminant-lt p.data_type) in
    (
      a,
      (
        b,
        (
          c,
          (
            d,
            (
              e,
              (f, (to_byte-IsByte p.packet_info info, (types, (num, payload-IsBytes p.payload h)))),
            ),
          ),
        ),
      ),
    )
