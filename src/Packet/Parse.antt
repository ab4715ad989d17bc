-- ===== src/Packet/Parse.antt =====
-- `Packet::parse` and `read_payload`.
use samsung_nasa.Base.{
  ℕ, zero, suc, ◌+◌, ◌/◌, ◌^◌, bit_and, List, [], length, Option, none, some, ◌||◌, not, ◌==◌,
  if◌then◌else◌, Result, ok, err, panic,
}
use samsung_nasa.Base.Stateful.{◌>>=◌, pure, lift, fail, abort}
use samsung_nasa.Crates.{Crates}
use samsung_nasa.Packet.Address
use samsung_nasa.Packet.Address.{Address}
use samsung_nasa.Packet.PacketInfo
use samsung_nasa.Packet.PacketType
use samsung_nasa.Packet.DataType
use samsung_nasa.Packet.Error.{PacketError, unexpected_structure, structure_too_long}
use samsung_nasa.Packet.MessageKind
use samsung_nasa.Packet.MessageKind.{MessageId, MessageKind}
use samsung_nasa.Packet.Value.{Value, Message, enum_value, variable_value, long_variable_value}
use samsung_nasa.Packet.Types.{
  Packet, Payload, messages, structure, max_message_count, max_structure_size,
}
use samsung_nasa.Packet.Reader.{Reader, remaining, read_array, read_u8, read_u16, read_u32}

-- The value of a message of this kind; a structure has none, and reads nothing.
unfoldable pub read_value : MessageKind → Reader (Option Value)
read_value MessageKind.enum = do n ← read_u8; pure (some (enum_value n))
read_value MessageKind.variable = do n ← read_u16; pure (some (variable_value n))
read_value MessageKind.long_variable = do n ← read_u32; pure (some (long_variable_value n))
read_value MessageKind.structure = pure none

-- An `Option` whose `none` is a panic.
abbrev pub unwrap : {A : Type 0} → Option A → Reader A
unwrap (some a) left = ok (a, left)
unwrap none left = panic

unfoldable pub read_address : Reader Address
read_address = do bytes ← read_array 3; unwrap (Address.from_bytes bytes)

module _ (crates : Crates) where
  -- The structure arm: everything that is left is the structure.
  unfoldable pub read_structure : ℕ → ℕ → MessageId → Reader Payload
  read_structure message_count i number =
      if not (i == 0) || not (message_count == 1) then fail unexpected_structure else do
        left ← remaining
        elim (crates.from_slice max_structure_size left) [
          | some contents ↦ pure (structure (record { number = number; contents = contents }))
          | none ↦ fail (structure_too_long (length left))
        ]

  -- The loop at index `i`, with the rounds left.
  unfoldable pub read_messages : ℕ → ℕ → ℕ → List Message → Reader Payload
  read_messages message_count zero i got = pure (messages got)
  read_messages message_count (suc rounds) i got = do
    number ← read_u16
    kind ← unwrap (MessageKind.kind number)
    value ← read_value kind
    elim value [
      | none ↦ read_structure message_count i number
      | some v ↦ elim (crates.push max_message_count got (record { id = number; value = v })) [
        | some got' ↦ read_messages message_count rounds (i + 1) got'
        | none ↦ abort
      ]
    ]

  unfoldable pub read_payload : ℕ → Reader Payload
  read_payload message_count = read_messages message_count message_count 0 []

  unfoldable pub read_packet : Reader Packet
  read_packet = do
    source ← read_address
    destination ← read_address
    info ← read_u8
    byte ← read_u8
    packet_type ← lift (PacketType.from_u4 (crates.uint 4 (byte / 2 ^ 4)))
    data_type ← lift (DataType.from_u4 (crates.uint 4 (bit_and byte 0xf)))
    packet_number ← read_u8
    message_count ← read_u8
    payload ← read_payload message_count
    pure (record {
      source = source;
      destination = destination;
      packet_info = PacketInfo.from_byte crates info;
      packet_type = packet_type;
      data_type = data_type;
      packet_number = packet_number;
      payload = payload;
    })

  -- `Packet::parse`; what the reader has left is dropped.
  unfoldable pub parse : List ℕ → Result PacketError Packet
  parse bytes = elim (read_packet bytes) [ ok (p, _) ↦ ok p | err e ↦ err e | panic ↦ panic ]
