-- ===== src/Packet/RoundTrip.antt =====
-- `parse` reads every packet back from its encoding.
use samsung_nasa.Base.{
  ℕ, suc, ◌+◌, ◌/◌, ◌%◌, ◌^◌, ◌≤◌, ◌<◌, bit_and, ◌≡◌, refl, sym, ap, ◌∙◌, arith, List, [], ◌∷◌,
  ◌++◌, append_assoc, append-nil, length, length-append, All, some, lt→ltb, le→leb, Result, ok, err,
  panic,
}
use samsung_nasa.Base.Stateful.{◌>>=◌, bind-ok, lift-ok}
use samsung_nasa.Bits.Fields.{and-fifteen}
use samsung_nasa.Bytes.{u16_to_be_bytes, u16_round_trip, u32_round_trip}
use samsung_nasa.Crates.{Crates}
use samsung_nasa.Packet.Address
use samsung_nasa.Packet.PacketInfo
use samsung_nasa.Packet.PacketInfo.{PacketInfo}
use samsung_nasa.Packet.PacketType
use samsung_nasa.Packet.DataType
use samsung_nasa.Packet.MessageKind
use samsung_nasa.Packet.MessageKind.{MessageId}
use samsung_nasa.Packet.Value
use samsung_nasa.Packet.Value.{Value, Message, enum_value, variable_value, long_variable_value}
use samsung_nasa.Packet.Types.{Packet, Payload, messages, structure, IsMessage, IsPayload, IsValid}
use samsung_nasa.Packet.Error.{PacketError}
use samsung_nasa.Packet.Encoding.{
  value_bytes, message_bytes, payload_count, payload_body, encode, type_byte,
}
use samsung_nasa.Packet.Reader.{read_u8, read_u16, read_array}
use samsung_nasa.Packet.Reader.Steps.{read_u8-cons, read_u16-cons, read_u32-cons, read_array_all}
use samsung_nasa.Packet.Parse.{
  read_value, unwrap, read_structure, read_messages, read_payload, read_address, read_packet, parse,
}

read_value-value_bytes :
    (v : Value) (rest : List ℕ)
    → Value.IsInRange v
    → read_value (Value.kind v) (value_bytes v ++ rest) ≡ ok (some v, rest)
unfolding read_value Value.kind
read_value-value_bytes (enum_value n) rest h = rw (read_u8-cons n rest, ◌>>=◌)
read_value-value_bytes (variable_value n) rest h =
    rw (read_u16-cons (n / 256 % 256) (n % 256) rest, ◌>>=◌, u16_round_trip n h)
read_value-value_bytes (long_variable_value n) rest h = rw (
  read_u32-cons (n / 2 ^ 24 % 256) (n / 2 ^ 16 % 256) (n / 256 % 256) (n % 256) rest,
  ◌>>=◌,
  u32_round_trip n h,
)

read_u16_at :
    (n : ℕ) (rest : List ℕ) → n < 2 ^ 16 → read_u16 (u16_to_be_bytes n ++ rest) ≡ ok (n, rest)
read_u16_at n rest h =
    read_u16-cons (n / 256 % 256) (n % 256) rest ∙ ap (λ (k : ℕ). ok (k, rest)) (u16_round_trip n h)

module _ (crates : Crates) where
  -- One round of the loop.
  read_messages_step :
      (total rounds i : ℕ) (got : List Message) (m : Message) (rest : List ℕ)
      → IsMessage m
      → length got < 255
      → read_messages crates total
          (suc rounds)
          i
          got
          (u16_to_be_bytes m.id ++ (value_bytes m.value ++ rest))
        ≡ read_messages crates total rounds (i + 1) (got ++ (m ∷ [])) rest
  unfolding read_messages
  read_messages_step total rounds i got m rest (id, range, kind) room =
      bind-ok read_u16 _ (read_u16_at m.id (value_bytes m.value ++ rest) id)
      ∙ bind-ok (unwrap (MessageKind.kind m.id)) _ (rw kind refl)
      ∙ bind-ok (read_value (Value.kind m.value)) _ (read_value-value_bytes m.value rest range)
      ∙ rw (crates.push_lem 255 got m, lt→ltb (length got) 255 room) refl

  read_messages-message_bytes :
      (total i : ℕ) (got ms : List Message) (rest : List ℕ)
      → All IsMessage ms
      → length got + length ms ≤ 255
      → read_messages crates total (length ms) i got (message_bytes ms ++ rest)
        ≡ ok (messages (got ++ ms), rest)
  read_messages-message_bytes total i got [] rest h room = unfold read_messages in rw append-nil
  read_messages-message_bytes total i got (m ∷ ms) rest (h, hs) room =
      ap (read_messages crates total (suc (length ms)) i got) (regroup m ms)
      ∙ read_messages_step total (length ms) i got m (message_bytes ms ++ rest) h (omega arith)
      ∙ read_messages-message_bytes total (i + 1) (got ++ (m ∷ [])) ms rest hs
          (omega (arith, length-append got (m ∷ [])))
      ∙ ap (λ (t : List Message). ok (messages t, rest)) (append_assoc got (m ∷ []) ms)
    where
      regroup :
          (m : Message) (ms : List Message)
          → message_bytes (m ∷ ms) ++ rest
            ≡ u16_to_be_bytes m.id ++ (value_bytes m.value ++ (message_bytes ms ++ rest))
      regroup m ms =
          ap (λ (t : List ℕ). u16_to_be_bytes m.id ++ t)
            (append_assoc (value_bytes m.value) (message_bytes ms) rest)

  -- A structure takes all that follows its number.
  read_structure_first :
      (number : MessageId) (contents : List ℕ)
      → length contents ≤ 256
      → read_structure crates 1 0 number contents
        ≡ ok (structure (record { number = number; contents = contents }), contents)
  unfolding read_structure
  read_structure_first number contents h =
      rw (crates.from_slice_lem 256 contents, le→leb (length contents) 256 h)

-- What stands behind a packet: anything, behind messages; nothing, behind a structure.
abbrev pub MayFollow : Payload → List ℕ → Type 0
MayFollow (messages ms) rest = Unit {0}
MayFollow (structure s) rest = rest ≡ []

-- The packet that a receiver gets: the fixed fields of the information byte are set.
abbrev pub as_received : Packet → Packet
as_received p = record p { packet_info = PacketInfo.as_sent p.packet_info }

pub read_address-cons :
    (a b c : ℕ) (rest : List ℕ)
    → read_address (a ∷ b ∷ c ∷ rest) ≡ ok (record { class = a; channel = b; address = c }, rest)
unfolding read_address
read_address-cons a b c rest =
    bind-ok (read_array 3) _ (read_array_all (a ∷ b ∷ c ∷ []) rest)
    ∙ (unfold Address.from_bytes in refl)

-- What `parse` leaves unread.
abbrev left_over : Payload → List ℕ → List ℕ
left_over (messages ms) rest = rest
left_over (structure s) rest = s.contents

type_byte-lt : (p : Packet) → type_byte p < 256
type_byte-lt p =
    omega (arith, PacketType.discriminant-lt p.packet_type, DataType.discriminant-lt p.data_type)

module _ (crates : Crates) where
  read_payload-payload_body :
      (payload : Payload) (rest : List ℕ)
      → IsPayload payload
      → MayFollow payload rest
      → read_payload crates (payload_count payload) (payload_body payload ++ rest)
        ≡ ok (payload, left_over payload rest)
  unfolding read_payload
  read_payload-payload_body (messages ms) rest (hs, room) _ =
      read_messages-message_bytes crates (length ms) 0 [] ms rest hs (omega arith)
  read_payload-payload_body (structure s) rest (id, bytes, room, kind) none_left =
      rw (none_left, append-nil s.contents)
        (unfold read_messages read_value in
          bind-ok read_u16 _ (read_u16_at s.number s.contents id)
          ∙ bind-ok (unwrap (MessageKind.kind s.number)) _ (ap (λ o. unwrap o s.contents) kind)
          ∙ read_structure_first crates s.number s.contents room)

  packet_type_read :
      (p : Packet) → PacketType.from_u4 (crates.uint 4 (type_byte p / 2 ^ 4)) ≡ ok p.packet_type
  packet_type_read p = ap PacketType.from_u4 high ∙ PacketType.from_u4-discriminant p.packet_type
    where
      high : crates.uint 4 (type_byte p / 2 ^ 4) ≡ PacketType.discriminant p.packet_type
      high =
          crates.uint_lem 4 (type_byte p / 2 ^ 4) (omega (arith, type_byte-lt p))
          ∙ omega (arith, DataType.discriminant-lt p.data_type)

  data_type_read :
      {E : Type 0} (p : Packet)
      → DataType.from_u4 {E = E} (crates.uint 4 (bit_and (type_byte p) 0xf)) ≡ ok p.data_type
  data_type_read p = ap DataType.from_u4 low ∙ DataType.from_u4-discriminant p.data_type
    where
      low : crates.uint 4 (bit_and (type_byte p) 0xf) ≡ DataType.discriminant p.data_type
      low =
          crates.uint_lem 4 _ (omega (arith, and-fifteen (type_byte p)))
          ∙ omega (arith, and-fifteen (type_byte p), DataType.discriminant-lt p.data_type)

  read_packet-encode :
      (p : Packet) (rest : List ℕ)
      → IsValid p
      → MayFollow p.payload rest
      → read_packet crates (encode p ++ rest) ≡ ok (as_received p, left_over p.payload rest)
  unfolding read_packet
  read_packet-encode p rest (src, dst, info, num, h) follows =
      bind-ok read_address _ (read_address-cons p.source.class p.source.channel p.source.address _)
      ∙ bind-ok read_address _
          (read_address-cons p.destination.class p.destination.channel p.destination.address _)
      ∙ bind-ok read_u8 _ (read_u8-cons (PacketInfo.to_byte p.packet_info) _)
      ∙ bind-ok read_u8 _ (read_u8-cons (type_byte p) _)
      ∙ lift-ok (PacketType.from_u4 (crates.uint 4 (type_byte p / 2 ^ 4))) _ after_types
          (packet_type_read p)
      ∙ lift-ok (DataType.from_u4 (crates.uint 4 (bit_and (type_byte p) 0xf))) _ after_types
          (data_type_read p)
      ∙ bind-ok read_u8 _ (read_u8-cons p.packet_number _)
      ∙ bind-ok read_u8 _ (read_u8-cons (payload_count p.payload) _)
      ∙ bind-ok (read_payload crates (payload_count p.payload)) _
          (read_payload-payload_body p.payload rest h follows)
      ∙ ap (λ (i : PacketInfo). ok (record p { packet_info = i }, left_over p.payload rest))
          (PacketInfo.from_byte-to_byte crates p.packet_info info)
    where
      after_types : List ℕ
      after_types = p.packet_number ∷ payload_count p.payload ∷ (payload_body p.payload ++ rest)

  -- `parse` reads a valid packet back from its encoding, with the information flag set and the
  -- reserved bits clear. Behind the messages of the packet anything may stand; behind a
  -- structure nothing.
  pub parse-encode :
      (p : Packet) (rest : List ℕ)
      → IsValid p
      → MayFollow p.payload rest
      → parse crates (encode p ++ rest) ≡ ok (as_received p)
  parse-encode p rest v follows = unfold parse in ap dropped (read_packet-encode p rest v follows)
    where
      dropped : Result PacketError (Packet × List ℕ) → Result PacketError Packet
      dropped r = elim r [ ok (q, _) ↦ ok q | err e ↦ err e | panic ↦ panic ]

  nothing_follows : (payload : Payload) → MayFollow payload []
  nothing_follows (messages ms) = tt
  nothing_follows (structure s) = refl

  -- The encoding alone.
  pub parse-encode_alone : (p : Packet) → IsValid p → parse crates (encode p) ≡ ok (as_received p)
  parse-encode_alone p v =
      ap (parse crates) (sym (append-nil (encode p)))
      ∙ parse-encode p [] v (nothing_follows p.payload)
