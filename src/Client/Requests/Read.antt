-- ===== src/Client/Requests/Read.antt =====
-- The queries of `Client::read`, and the packets that requests send.
use samsung_nasa.Base.{
  ℕ, suc, ◌/◌, ◌%◌, ◌≤◌, ◌≡◌, refl, arith, List, [], ◌∷◌, All, length, le→leb, Option, none, some,
  Result, ok, ◌>>=◌,
}
use samsung_nasa.Bytes.{IsByte, IsU16}
use samsung_nasa.Crates.{Crates}
use samsung_nasa.Packet.Address
use samsung_nasa.Packet.Address.{Address}
use samsung_nasa.Packet.PacketInfo
use samsung_nasa.Packet.PacketType
use samsung_nasa.Packet.DataType.{DataType}
use samsung_nasa.Packet.MessageKind
use samsung_nasa.Packet.MessageKind.{MessageId, MessageKind, kind_of_bits, kind_total}
use samsung_nasa.Packet.Value
use samsung_nasa.Packet.Value.{Value, Message, enum_value, variable_value, long_variable_value}
use samsung_nasa.Packet.Types.{Packet, messages, structure, IsMessage, IsValid}
use samsung_nasa.Client.MessageSet.{MessageSet}
use samsung_nasa.Client.Requests.{Error, null_value, query, queries, build, expect_reply}

pub expect_reply-expected :
    (reply : Packet) (t : DataType)
    → reply.data_type ≡ t
    → ¬ (t ≡ DataType.nack)
    → expect_reply reply t ≡ ok reply
unfolding expect_reply
expect_reply-expected reply t e ne = ground arith

-- What `read` and `request` make of a reply.
unfoldable pub read_reply : Packet → Result Error MessageSet
read_reply reply = do
  p ← expect_reply reply DataType.response
  elim p.payload [
    | messages ms ↦ ok (record { messages = ms })
    | structure _ ↦ ok (record { messages = [] })
  ]

unfoldable pub request_reply : Packet → Result Error (Unit {0})
request_reply reply = do _ ← expect_reply reply DataType.ack; ok tt

-- The query for a number of some kind.
abbrev pub asked : MessageId → MessageKind → Option Message
asked number MessageKind.enum = some (record { id = number; value = enum_value 0xff })
asked number MessageKind.variable = some (record { id = number; value = variable_value 0xffff })
asked number MessageKind.long_variable =
    some (record { id = number; value = long_variable_value 0xffffffff })
asked number MessageKind.structure = none

abbrev pub front : Option Message → List Message → List Message
front none ms = ms
front (some m) ms = m ∷ ms

abbrev pub all_asked : List MessageId → List Message
all_asked [] = []
all_asked (attr ∷ attrs) = front (asked attr (kind_of_bits (attr / 512 % 4))) (all_asked attrs)

query-asked :
    (number : MessageId) (k : MessageKind)
    → MessageKind.kind number ≡ some k
    → query number ≡ some (asked number k)
unfolding query null_value
query-asked number MessageKind.enum e = rw (query, e) refl
query-asked number MessageKind.variable e = rw (query, e) refl
query-asked number MessageKind.long_variable e = rw (query, e) refl
query-asked number MessageKind.structure e = rw (query, e) refl

queries-cons :
    (attr : MessageId) (attrs : List MessageId) (o : Option Message) (ms : List Message)
    → query attr ≡ some o
    → queries attrs ≡ some ms
    → queries (attr ∷ attrs) ≡ some (front o ms)
unfolding queries
queries-cons attr attrs none ms e h = rw (queries, e, h) refl
queries-cons attr attrs (some m) ms e h = rw (queries, e, h) refl

front-IsMessage :
    (number : MessageId) (k : MessageKind) (ms : List Message)
    → IsU16 number
    → MessageKind.kind number ≡ some k
    → All IsMessage ms
    → All IsMessage (front (asked number k) ms)
unfolding Value.kind
front-IsMessage number MessageKind.enum ms h e hs = ((h, omega arith, e), hs)
front-IsMessage number MessageKind.variable ms h e hs = ((h, omega arith, e), hs)
front-IsMessage number MessageKind.long_variable ms h e hs = ((h, omega arith, e), hs)
front-IsMessage number MessageKind.structure ms h e hs = hs

length-front : (o : Option Message) (ms : List Message) → length (front o ms) ≤ suc (length ms)
length-front none ms = omega arith
length-front (some m) ms = omega arith

-- The queries of a list of attributes are those of its numbers, in order, the structures left out;
-- each of them is a message that can be sent, and there are no more of them than attributes.
pub queries-all_asked :
    (attrs : List MessageId)
    → All IsU16 attrs
    → (queries attrs ≡ some (all_asked attrs))
      × All IsMessage (all_asked attrs)
      × (length (all_asked attrs) ≤ length attrs)
queries-all_asked [] h = ((unfold queries in refl), tt, omega arith)
queries-all_asked (attr ∷ attrs) (h, hs) =
    let k : MessageKind = kind_of_bits (attr / 512 % 4) in
    let (same, good, few) = queries-all_asked attrs hs in
    (
      queries-cons attr attrs (asked attr k) (all_asked attrs)
          (query-asked attr k (kind_total attr)) same,
      front-IsMessage attr k (all_asked attrs) h (kind_total attr) good,
      omega (arith, few, length-front (asked attr k) (all_asked attrs)),
    )

-- A request, field by field: from the local address, with the information flag set, the protocol
-- version 2 and no retries.
abbrev pub request_packet : Address → DataType → ℕ → List Message → Packet
request_packet destination t number ms = record {
  source = record { class = 0x80; channel = 0x10; address = 0x10 };
  destination = destination;
  packet_info = record { info = 1; protocol_version = 2; retry_count = 0; reserved = 0 };
  packet_type = PacketType.normal;
  data_type = t;
  packet_number = number;
  payload = messages ms;
}

-- A request to a valid address with at most 255 messages that can be sent is built as a valid
-- packet, with these messages, this number and the default flags.
pub build_lem :
    (crates : Crates) (destination : Address) (t : DataType) (number : ℕ) (ms : List Message)
    → Address.IsValid destination
    → IsByte number
    → All IsMessage ms
    → length ms ≤ 255
    → (build crates destination t number ms ≡ ok (request_packet destination t number ms))
      × IsValid (request_packet destination t number ms)
unfolding build
build_lem crates destination t number ms hd hn hm room = (
  rw
      (
        build,
        crates.from_slice_lem 255 ms,
        le→leb (length ms) 255 room,
        PacketInfo.new-default crates,
      )
      refl,
  (
    (omega arith, omega arith, omega arith),
    hd,
    (omega arith, omega arith, omega arith, omega arith),
    hn,
    (hm, room),
  ),
)
