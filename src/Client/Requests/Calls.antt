-- ===== src/Client/Requests/Calls.antt =====
-- The calls of a client in client/src/lib.rs: `send`, `read` and `request`, as a whole.
use samsung_nasa.Base.{
  ℕ, ◌≤◌, ◌≡◌, ap, ◌∙◌, arith, List, [], ◌∷◌, All, length, Option, none, some, Result, ok, err,
  panic, ◌>>=◌,
}
use samsung_nasa.Bytes.{IsByte, IsU16}
use samsung_nasa.Crates.{Crates}
use samsung_nasa.Packet.Address
use samsung_nasa.Packet.Address.{Address}
use samsung_nasa.Packet.DataType.{DataType}
use samsung_nasa.Packet.MessageKind.{MessageId}
use samsung_nasa.Packet.Value.{Message}
use samsung_nasa.Packet.Types.{Packet, IsMessage}
use samsung_nasa.Client.MessageSet.{MessageSet}
use samsung_nasa.Client.Requests.{
  Error, Round, Outcome, finished, waiting, replied, next_packet_number, queries, build,
  send_with_retry,
}
use samsung_nasa.Client.Requests.Read.{
  read_reply, request_reply, request_packet, build_lem, all_asked, queries-all_asked,
}

-- A call of the client: the packets it writes, its result, `none` while it waits, and the counter
-- of packet numbers that it leaves.
pub record Call (A : Type 0) : Type 0 where
  pub sent : List Packet
  pub result : Option (Result Error A)
  pub counter : ℕ

abbrev pub result_of : Outcome → Option (Result Error Packet)
result_of (finished r) = some r
result_of waiting = none

-- What follows `.await?`.
abbrev pub and_then : {A : Type 0} → (Packet → Result Error A) → Call Packet → Call A
and_then f call = record {
  sent = call.sent;
  result = elim call.result [ none ↦ none | some r ↦ some (r >>= f) ];
  counter = call.counter;
}

module _ (crates : Crates) where
  abbrev pub sending : ℕ → List Round → Packet → Call Packet
  sending counter rounds packet = record {
    sent = (send_with_retry crates packet rounds).0;
    result = result_of (send_with_retry crates packet rounds).1;
    counter = counter;
  }

  -- `Client::send`: the messages are copied before the number is taken, so that a panic takes none.
  unfoldable pub send : ℕ → Address → DataType → List Message → List Round → Call Packet
  send counter destination data_type ms rounds =
      let (packet_number, next) = next_packet_number counter in
      elim (build crates destination data_type packet_number ms) [
        | ok packet ↦ sending next rounds packet
        | err e ↦ record { sent = []; result = some (err e); counter = counter }
        | panic ↦ record { sent = []; result = some panic; counter = counter }
      ]

  -- `Client::read`, once it has its queries, `none` where collecting them panics.
  abbrev on_queries : ℕ → Address → List Round → Option (List Message) → Call MessageSet
  on_queries counter address rounds asked = elim asked [
    | none ↦ record { sent = []; result = some panic; counter = counter }
    | some ms ↦ and_then read_reply (send counter address DataType.read ms rounds)
  ]

  -- `Client::read`
  unfoldable pub read : ℕ → Address → List MessageId → List Round → Call MessageSet
  read counter address attrs rounds = on_queries counter address rounds (queries attrs)

  -- `Client::request`
  unfoldable pub request : ℕ → Address → List Message → List Round → Call (Unit {0})
  request counter address ms rounds =
      and_then request_reply (send counter address DataType.request ms rounds)

  abbrev on_built : ℕ → List Round → Result Error Packet → Call Packet
  on_built counter rounds built = elim built [
    | ok packet ↦ sending (next_packet_number counter).1 rounds packet
    | err e ↦ record { sent = []; result = some (err e); counter = counter }
    | panic ↦ record { sent = []; result = some panic; counter = counter }
  ]

  -- A packet to a valid address, of at most 255 messages that can be sent, is written once, where
  -- the first round brings a reply, and the reply is the result.
  send-replied :
      (counter : ℕ) (address : Address) (t : DataType) (ms : List Message) (reply : Packet)
      → Address.IsValid address
      → IsByte counter
      → All IsMessage ms
      → length ms ≤ 255
      → send counter address t ms (replied reply ∷ []) ≡ record {
        sent = request_packet address t counter ms ∷ [];
        result = some (ok reply);
        counter = (next_packet_number counter).1;
      }
  unfolding send send_with_retry
  send-replied counter address t ms reply ha hc hm room =
      unfold next_packet_number in
      ap (on_built counter (replied reply ∷ []))
        (build_lem crates address t counter ms ha hc hm room).0

  -- A request to a valid address, of at most 255 messages that can be sent, writes the packet of
  -- these messages once, where the first round brings a reply, and its result is what `request_reply`
  -- makes of that.
  pub request-replied :
      (counter : ℕ) (address : Address) (ms : List Message) (reply : Packet)
      → Address.IsValid address
      → IsByte counter
      → All IsMessage ms
      → length ms ≤ 255
      → request counter address ms (replied reply ∷ []) ≡ record {
        sent = request_packet address DataType.request counter ms ∷ [];
        result = some (request_reply reply);
        counter = (next_packet_number counter).1;
      }
  unfolding request
  request-replied counter address ms reply ha hc hm room =
      ap (and_then request_reply)
        (send-replied counter address DataType.request ms reply ha hc hm room)

  -- A read of at most 255 numbers at a valid address writes the packet of their queries once, where the
  -- first round brings a reply, and its result is what `read_reply` makes of that.
  pub read-replied :
      (counter : ℕ) (address : Address) (attrs : List MessageId) (reply : Packet)
      → Address.IsValid address
      → IsByte counter
      → All IsU16 attrs
      → length attrs ≤ 255
      → read counter address attrs (replied reply ∷ []) ≡ record {
        sent = request_packet address DataType.read counter (all_asked attrs) ∷ [];
        result = some (read_reply reply);
        counter = (next_packet_number counter).1;
      }
  unfolding read
  read-replied counter address attrs reply ha hc numbers room =
      let (asks, good, few) = queries-all_asked attrs numbers in
      ap (on_queries counter address (replied reply ∷ [])) asks
      ∙ ap (and_then read_reply) (
          send-replied counter address DataType.read (all_asked attrs) reply ha hc good
            (omega (arith, few, room)))
