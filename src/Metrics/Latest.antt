-- ===== src/Metrics/Latest.antt =====
-- The exporter of metrics/src/main.rs keeps the last value of each message of each address.
use samsung_nasa.Base.{
  ◌≡◌, refl, sym, ap, ◌∙◌, Bool, true, false, ◌&&◌, ◌==◌, ==_iff, if◌then◌else◌, List, [], ◌∷◌,
  ◌++◌, Option, some,
}
use samsung_nasa.Base.Perms.{flat}
use samsung_nasa.Packet.Address
use samsung_nasa.Packet.Equality.{Address-eq_iff}
use samsung_nasa.Packet.Address.{Address}
use samsung_nasa.Packet.PacketType.{PacketType}
use samsung_nasa.Packet.DataType.{DataType}
use samsung_nasa.Packet.MessageKind.{MessageId}
use samsung_nasa.Packet.Value.{Value, Message}
use samsung_nasa.Packet.Types.{Packet, Payload, messages}
use samsung_nasa.Metrics.Tables.{lookup, insert, lookup-insert}
use samsung_nasa.Metrics.{
  AppState, or_default, record_message, record_messages, on_packet_with, on_packet, run_bus,
}

-- The value of a message of an address.
abbrev pub value_of : Address → MessageId → AppState → Option Value
value_of a i state = lookup ◌==◌ i (or_default (lookup Address.eq a state))

-- The messages of the notifications, with the addresses that sent them.
abbrev pub sent_by : Address → List Message → List (Address × Message)
sent_by source [] = []
sent_by source (m ∷ ms) = (source, m) ∷ sent_by source ms

abbrev pub reported : PacketType → DataType → Payload → Address → List (Address × Message)
reported PacketType.normal DataType.notification (messages msgs) source = sent_by source msgs
reported _ _ _ source = []

abbrev pub reports : List Packet → List (Address × Message)
reports = flat (λ (p : Packet). reported p.packet_type p.data_type p.payload p.source)

-- The last value of a message of an address among such messages.
abbrev pub last_told : Address → MessageId → List (Address × Message) → Option Value → Option Value
last_told a i [] before = before
last_told a i ((source, m) ∷ rest) before =
    last_told a i rest (if Address.eq source a && m.id == i then some m.value else before)

last_told-append :
    (a : Address) (i : MessageId) (xs ys : List (Address × Message)) (before : Option Value)
    → last_told a i (xs ++ ys) before ≡ last_told a i ys (last_told a i xs before)
last_told-append a i [] ys before = refl
last_told-append a i (x ∷ xs) ys before = last_told-append a i xs ys _

value_of-record_message :
    (a : Address) (i : MessageId) (source : Address) (m : Message) (state : AppState)
    → value_of a i (record_message source m state)
      ≡ (if Address.eq source a && m.id == i then some m.value else value_of a i state)
unfolding record_message
value_of-record_message a i source m state =
    ap (λ o. lookup ◌==◌ i (or_default o))
      (lookup-insert Address.eq Address-eq_iff source a _ state)
    ∙ by_test (Address.eq source a) refl
  where
    by_test :
        (b : Bool)
        → Address.eq source a ≡ b
        → lookup ◌==◌ i (
            or_default (
              if b
              then some (insert ◌==◌ m.id m.value (or_default (lookup Address.eq source state)))
              else lookup Address.eq a state))
          ≡ (if b && m.id == i then some m.value else value_of a i state)
    by_test true e =
        lookup-insert ◌==◌ ==_iff m.id i m.value _
        ∙ ap
            (λ (s : Address).
              if m.id == i
              then some m.value
              else lookup ◌==◌ i (or_default (lookup Address.eq s state)))
            ((Address-eq_iff source a).0 e)
    by_test false e = refl

value_of-record_messages :
    (a : Address) (i : MessageId) (source : Address) (ms : List Message) (state : AppState)
    → value_of a i (record_messages source ms state)
      ≡ last_told a i (sent_by source ms) (value_of a i state)
unfolding record_messages
value_of-record_messages a i source [] state = refl
value_of-record_messages a i source (m ∷ ms) state =
    value_of-record_messages a i source ms (record_message source m state)
    ∙ ap (last_told a i (sent_by source ms)) (value_of-record_message a i source m state)

value_of-on_packet_with :
    (a : Address) (i : MessageId) (t : PacketType) (d : DataType) (l : Payload) (source : Address)
    (state : AppState)
    → value_of a i (on_packet_with t d l source state)
      ≡ last_told a i (reported t d l source) (value_of a i state)
unfolding on_packet_with
value_of-on_packet_with a i PacketType.normal DataType.notification (messages ms) source state =
    value_of-record_messages a i source ms state
value_of-on_packet_with a i _ _ _ source state = refl

-- Whatever packets come in, the value that is kept for a message of an address is the last one that
-- a notification of this address has told, or the one of before where none has.
pub value_of-run_bus :
    (a : Address) (i : MessageId) (ps : List Packet) (state : AppState)
    → value_of a i (run_bus ps state) ≡ last_told a i (reports ps) (value_of a i state)
unfolding run_bus on_packet
value_of-run_bus a i [] state = refl
value_of-run_bus a i (p ∷ ps) state =
    let here : List (Address × Message) = reported p.packet_type p.data_type p.payload p.source in
    value_of-run_bus a i ps (on_packet p state)
    ∙ ap (last_told a i (reports ps))
        (value_of-on_packet_with a i p.packet_type p.data_type p.payload p.source state)
    ∙ sym (last_told-append a i here (reports ps) (value_of a i state))
