-- ===== src/Metrics/Render.antt =====
-- The page of metrics/src/main.rs has one sample for each message that an address has told.
use Prim.Native.String.{String}
use Prim.Native.String
use text.Mathlib.Text
use samsung_nasa.Base.{
  ℕ, Bool, true, false, ◌&&◌, ◌==◌, ==_iff, if◌then◌else◌, List, [], ◌∷◌, All, Option, none, some,
}
use samsung_nasa.Packet.Address
use samsung_nasa.Packet.Address.{Address}
use samsung_nasa.Packet.PacketType.{PacketType}
use samsung_nasa.Packet.DataType.{DataType}
use samsung_nasa.Packet.MessageKind.{MessageId}
use samsung_nasa.Packet.Value.{Value, Message}
use samsung_nasa.Packet.Types.{Packet, Payload, messages}
use samsung_nasa.Messages.Types.{Celsius}
use samsung_nasa.Metrics.Tables.{lookup, insert, IsMap, insert-IsMap}
use samsung_nasa.Metrics.{
  AttrMap, AppState, or_default, record_message, record_messages, on_packet_with, on_packet,
  run_bus, Number, degrees, int, Sample, int_of,
}
use samsung_nasa.Packet.Equality.{Address-eq_iff}

-- No address is there twice, and no message of an address.
abbrev pub IsState : AppState → Type 0
IsState state =
    IsMap Address.eq state × All (λ (entry : Address × AttrMap). IsMap ◌==◌ entry.1) state

abbrev pub AllMaps : AppState → Type 0
AllMaps = All (λ (entry : Address × AttrMap). IsMap ◌==◌ entry.1)

pub AllMaps-lookup :
    (a : Address) (state : AppState)
    → AllMaps state
    → IsMap ◌==◌ (or_default (lookup Address.eq a state))
unfolding lookup
AllMaps-lookup a [] h = tt
AllMaps-lookup a ((k, attrs) ∷ rest) (m, h) = by_test (Address.eq k a) (AllMaps-lookup a rest h)
  where
    by_test :
        (b : Bool)
        → IsMap ◌==◌ (or_default (lookup Address.eq a rest))
        → IsMap ◌==◌ (or_default (if b then some attrs else lookup Address.eq a rest))
    by_test true _ = m
    by_test false later = later

AllMaps-insert :
    (a : Address) (attrs : AttrMap) (state : AppState)
    → IsMap ◌==◌ attrs
    → AllMaps state
    → AllMaps (insert Address.eq a attrs state)
unfolding insert
AllMaps-insert a attrs [] m h = (m, tt)
AllMaps-insert a attrs ((k, before) ∷ rest) m (q, h) =
    by_test (Address.eq k a) (AllMaps-insert a attrs rest m h)
  where
    by_test :
        (b : Bool)
        → AllMaps (insert Address.eq a attrs rest)
        → AllMaps (if b then (a, attrs) ∷ rest else (k, before) ∷ insert Address.eq a attrs rest)
    by_test true _ = (m, h)
    by_test false hs = (q, hs)

record_message-IsState :
    (source : Address) (m : Message) (state : AppState)
    → IsState state
    → IsState (record_message source m state)
unfolding record_message
record_message-IsState source m state (keys, maps) = (
  insert-IsMap Address.eq Address-eq_iff source _ state keys,
  AllMaps-insert source _ state
      (insert-IsMap ◌==◌ ==_iff m.id m.value _ (AllMaps-lookup source state maps)) maps,
)

record_messages-IsState :
    (source : Address) (ms : List Message) (state : AppState)
    → IsState state
    → IsState (record_messages source ms state)
unfolding record_messages
record_messages-IsState source [] state h = h
record_messages-IsState source (m ∷ ms) state h =
    record_messages-IsState source ms (record_message source m state)
      (record_message-IsState source m state h)

on_packet_with-IsState :
    (t : PacketType) (d : DataType) (l : Payload) (source : Address) (state : AppState)
    → IsState state
    → IsState (on_packet_with t d l source state)
unfolding on_packet_with
on_packet_with-IsState PacketType.normal DataType.notification (messages ms) source state h =
    record_messages-IsState source ms state h
on_packet_with-IsState _ _ _ source state h = h

pub run_bus-IsState :
    (ps : List Packet) (state : AppState) → IsState state → IsState (run_bus ps state)
unfolding run_bus on_packet
run_bus-IsState [] state h = h
run_bus-IsState (p ∷ ps) state h =
    run_bus-IsState ps (on_packet p state)
      (on_packet_with-IsState p.packet_type p.data_type p.payload p.source state h)

-- The numbers of the samples of a message of an address.
abbrev pub int_in : Number → List ℕ
int_in (int n) = n ∷ []
int_in (degrees _) = []

abbrev pub celsius_in : Number → List Celsius
celsius_in (int _) = []
celsius_in (degrees c) = c ∷ []

abbrev pub raw_of : Address → MessageId → Sample → List ℕ
raw_of a i sample = elim sample.message [
  | none ↦ []
  | some j ↦ if Address.eq sample.address a && j == i then int_in sample.value else []
]

-- The temperatures of the samples of a gauge of an address.
abbrev pub gauge_of : Address → String → Sample → List Celsius
gauge_of a name sample = elim sample.message [
  | some _ ↦ []
  | none ↦
      if Address.eq sample.address a && Text.◌==◌ sample.metric (String.◌++◌ "samsung_hvac_" name)
      then celsius_in sample.value
      else []
]

abbrev pub as_list : {A : Type 0} → Option A → List A
as_list none = []
as_list (some a) = a ∷ []

abbrev pub int_option : Option Value → Option ℕ
int_option none = none
int_option (some v) = some (int_of v)
