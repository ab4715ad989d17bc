-- ===== src/Packet/Serialize/Emits.antt =====
-- The serialiser writes the encoding of a valid packet.
use samsung_nasa.Base.{
  ℕ, ◌*◌, ◌<◌, ◌≡◌, ap, ◌∙◌, arith, List, [], ◌∷◌, ◌++◌, length, All, some, lt→ltb,
}
use samsung_nasa.Base.Stateful.{◌>>=◌, ◌>>◌, bind-ok}
use samsung_nasa.Bits.Fields.{or_fields, zero-or}
use samsung_nasa.Bytes.{u16_to_be_bytes}
use samsung_nasa.Crates.{Crates}
use samsung_nasa.Packet.Address
use samsung_nasa.Packet.PacketInfo
use samsung_nasa.Packet.PacketType
use samsung_nasa.Packet.DataType
use samsung_nasa.Packet.MessageKind
use samsung_nasa.Packet.MessageKind.{MessageKind}
use samsung_nasa.Packet.Value
use samsung_nasa.Packet.Value.{Value, Message, enum_value, variable_value, long_variable_value}
use samsung_nasa.Packet.Types.{Packet, Payload, messages, structure, IsMessage, IsPayload}
use samsung_nasa.Packet.Encoding.{
  value_bytes, message_bytes, payload_count, payload_body, address_bytes, type_byte, encode,
}
use samsung_nasa.Packet.Writer.{Writer, write_bytes, write_u8, write_u16, write_array}
use samsung_nasa.Packet.Writer.Emits.{Emits, Emits-then, pure-Emits, write_bytes-Emits, writer}
use samsung_nasa.Packet.Serialize.{
  write_value, unwrap, kind_of, write_messages, require_structure, write_count, write_payload,
  types_byte, serialize,
}

write_value-Emits : (v : Value) → Emits (write_value (Value.kind v) v) (value_bytes v)
unfolding write_value Value.kind
write_value-Emits (enum_value n) = write_bytes-Emits _
write_value-Emits (variable_value n) = write_bytes-Emits _
write_value-Emits (long_variable_value n) = write_bytes-Emits _

-- A known kind is handed on, and nothing is written.
kind_of-Emits :
    (id : ℕ) (k : MessageKind) (rest : MessageKind → Writer (Unit {0})) (bytes : List ℕ)
    → MessageKind.kind id ≡ some k
    → Emits (rest k) bytes
    → Emits (kind_of id >>= rest) bytes
kind_of-Emits id k rest bytes e h out room =
    bind-ok (kind_of id) rest (ap (λ o. unwrap o (writer out room)) e) ∙ h out room

write_messages-Emits :
    (ms : List Message) → All IsMessage ms → Emits (write_messages ms) (message_bytes ms)
unfolding write_messages
write_messages-Emits [] h = pure-Emits
write_messages-Emits (m ∷ ms) ((id, range, kind), hs) =
    Emits-then (write_u16 m.id) _ (u16_to_be_bytes m.id) _ (write_bytes-Emits _) (
      kind_of-Emits m.id (Value.kind m.value) _ _ kind (
        Emits-then (write_value (Value.kind m.value) m.value) _ (value_bytes m.value) _
          (write_value-Emits m.value) (write_messages-Emits ms hs)))

count-Emits : (n : ℕ) → n < 256 → Emits (write_count n) (n ∷ [])
unfolding write_count
count-Emits n h = rw (lt→ltb n 256 h) (write_bytes-Emits (n ∷ []))

write_payload-Emits :
    (p : Payload) → IsPayload p → Emits (write_payload p) (payload_count p ∷ payload_body p)
unfolding write_payload
write_payload-Emits (messages ms) (hs, room) =
    Emits-then (write_count (length ms)) (write_messages ms) (length ms ∷ []) (message_bytes ms)
      (count-Emits (length ms) (omega arith)) (write_messages-Emits ms hs)
write_payload-Emits (structure s) (id, bytes, room, kind) =
    Emits-then (write_u8 1) _ (1 ∷ []) body (write_bytes-Emits (1 ∷ [])) (
      kind_of-Emits s.number MessageKind.structure _ body kind (
        Emits-then (require_structure MessageKind.structure) rest [] body pure-Emits (
          Emits-then (write_u16 s.number) (write_bytes s.contents) (u16_to_be_bytes s.number)
            s.contents (write_bytes-Emits (u16_to_be_bytes s.number))
            (write_bytes-Emits s.contents))))
  where
    body : List ℕ
    body = u16_to_be_bytes s.number ++ s.contents

    rest : Writer (Unit {0})
    rest = write_u16 s.number >> write_bytes s.contents

module _ (crates : Crates) where
  types_byte_lem : (p : Packet) → types_byte crates p ≡ type_byte p
  unfolding types_byte
  types_byte_lem p = ground (
    arith,
    PacketType.to_u4-discriminant crates p.packet_type,
    DataType.to_u4-discriminant crates p.data_type,
    PacketType.discriminant-lt p.packet_type,
    DataType.discriminant-lt p.data_type,
    zero-or (PacketType.discriminant p.packet_type * 16),
    or_fields 4 (PacketType.discriminant p.packet_type) (DataType.discriminant p.data_type),
  )

  -- `serialize` appends the encoding where it fits, and fails for want of room where not.
  pub serialize-Emits : (p : Packet) → IsPayload p.payload → Emits (serialize crates p) (encode p)
  unfolding serialize Address.to_bytes
  serialize-Emits p h = rw (types_byte_lem p) (
      Emits-then (write_array (address_bytes p.source)) _ (address_bytes p.source) to_destination
        (write_bytes-Emits _)
        (Emits-then (write_array (address_bytes p.destination)) _ (address_bytes p.destination)
          to_info (write_bytes-Emits _)
          (Emits-then (write_u8 (PacketInfo.to_byte p.packet_info)) _
            (PacketInfo.to_byte p.packet_info ∷ []) to_types (write_bytes-Emits _)
            (Emits-then (write_u8 (type_byte p)) _ (type_byte p ∷ []) to_number
              (write_bytes-Emits _)
              (Emits-then (write_u8 p.packet_number) _ (p.packet_number ∷ []) to_payload
                (write_bytes-Emits _) (write_payload-Emits p.payload h))))))
    where
      to_payload : List ℕ
      to_payload = payload_count p.payload ∷ payload_body p.payload

      to_number : List ℕ
      to_number = p.packet_number ∷ to_payload

      to_types : List ℕ
      to_types = type_byte p ∷ to_number

      to_info : List ℕ
      to_info = PacketInfo.to_byte p.packet_info ∷ to_types

      to_destination : List ℕ
      to_destination = address_bytes p.destination ++ to_info
