-- ===== src/Client/Requests.antt =====
-- client/src/lib.rs: the requests of a client, from the packet number to the reply.
pub mod Retry
pub mod Numbers
pub mod Arrival
pub mod Read
pub mod Calls
use samsung_nasa.Base.{
  ℕ, ◌+◌, ◌%◌, ◌^◌, List, [], ◌∷◌, Option, none, some, Bool, ◌==◌, not, if◌then◌else◌, Result, ok,
  err, panic, ◌>>=◌,
}
use samsung_nasa.Crates.{Crates}
use samsung_nasa.Packet.Address.{Address}
use samsung_nasa.Packet.PacketInfo
use samsung_nasa.Packet.PacketInfo.{PacketInfo}
use samsung_nasa.Packet.PacketType
use samsung_nasa.Packet.DataType
use samsung_nasa.Packet.DataType.{DataType}
use samsung_nasa.Packet.MessageKind
use samsung_nasa.Packet.MessageKind.{MessageId, MessageKind}
use samsung_nasa.Packet.Value.{Value, Message, enum_value, variable_value, long_variable_value}
use samsung_nasa.Packet.Types.{Packet, Payload, messages, structure, max_message_count}

abbrev pub local_address : Address
local_address = record { class = 0x80; channel = 0x10; address = 0x10 }

-- `Error`, without its transport errors' contents.
pub data Error : Type 0 where
  send_failed max_retries_exceeded lost_transport : Error
  nack : Packet → Error
  unexpected_reply : (actual expected : DataType) → Error

-- `fetch_add` on an `AtomicU8`: the number, and the counter.
unfoldable pub next_packet_number : ℕ → ℕ × ℕ
next_packet_number counter = (counter, (counter + 1) % 2 ^ 8)

-- The value that a query carries, by the kind of its number.
unfoldable pub null_value : MessageKind → Option Value
null_value MessageKind.enum = some (enum_value 0xff)
null_value MessageKind.variable = some (variable_value 0xffff)
null_value MessageKind.long_variable = some (long_variable_value 0xffffffff)
null_value MessageKind.structure = none

-- `query`; the outer `none` is the unreachable arm of `kind`.
unfoldable pub query : MessageId → Option (Option Message)
query number = elim (MessageKind.kind number) [
  | none ↦ none
  | some kind ↦ elim (null_value kind) [
    | none ↦ some none
    | some value ↦ some (some (record { id = number; value = value }))
  ]
]

-- `attrs.iter().filter_map(query)`.
unfoldable pub queries : List MessageId → Option (List Message)
queries [] = some []
queries (attr ∷ attrs) =
    let rest = queries attrs in
    elim (query attr) [
      | none ↦ none
      | some none ↦ rest
      | some (some message) ↦ elim rest [ none ↦ none | some others ↦ some (message ∷ others) ]
    ]

module _ (crates : Crates) where
  -- The packet that `send` builds; `from_slice(messages).unwrap()` panics on too many messages.
  unfoldable pub build : Address → DataType → ℕ → List Message → Result Error Packet
  build destination data_type packet_number ms = elim (crates.from_slice max_message_count ms) [
    | none ↦ panic
    | some kept ↦ ok (record {
      source = local_address;
      destination = destination;
      packet_info = PacketInfo.new crates;
      packet_type = PacketType.normal;
      data_type = data_type;
      packet_number = packet_number;
      payload = messages kept;
    })
  ]

-- What becomes of one round of the loop of `send_with_retry`: the write fails, or the wait that
-- follows it ends with the reply, with a dropped channel, or with the timeout.
pub data Round : Type 0 where
  write_failed : Round
  replied : Packet → Round
  dropped : Round
  timed_out : Round

-- `waiting` while the round is not over.
pub data Outcome : Type 0 where
  finished : Result Error Packet → Outcome
  waiting : Outcome

abbrev pub and_sent : Packet → List Packet × Outcome → List Packet × Outcome
and_sent p (sent, outcome) = (p ∷ sent, outcome)

module _ (crates : Crates) where
  -- The next try, with the next retry count.
  unfoldable pub again : Packet → Packet
  again p = record p {
    packet_info = record p.packet_info {
      retry_count = crates.wrapping_add 2 p.packet_info.retry_count (crates.uint 2 1);
    };
  }

  -- The loop of `send_with_retry`: the packets that are written, and how it ends.
  unfoldable pub send_with_retry : Packet → List Round → List Packet × Outcome
  send_with_retry packet [] = (packet ∷ [], waiting)
  send_with_retry packet (write_failed ∷ _) = ([], finished (err send_failed))
  send_with_retry packet (replied reply ∷ _) = (packet ∷ [], finished (ok reply))
  send_with_retry packet (dropped ∷ _) = (packet ∷ [], finished (err lost_transport))
  send_with_retry packet (timed_out ∷ rounds) =
      let more = send_with_retry (again packet) rounds in
      and_sent packet (
        if packet.packet_info.retry_count == 3
        then ([], finished (err max_retries_exceeded))
        else more)

-- `expect_reply`.
unfoldable pub expect_reply : Packet → DataType → Result Error Packet
expect_reply reply data_type = elim (DataType.DataType-discrete reply.data_type DataType.nack) [
  | yes _ ↦ err (nack reply)
  | no _ ↦ elim (DataType.DataType-discrete reply.data_type data_type) [
    | yes _ ↦ ok reply
    | no _ ↦ err (unexpected_reply reply.data_type data_type)
  ]
]
