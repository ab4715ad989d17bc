-- ===== src/Metrics.antt =====
-- metrics/src/main.rs: the exporter, which keeps the last value of every message of every address.
pub mod Tables
pub mod Latest
pub mod Render
pub mod Page
use Prim.Native.String.{String}
use Prim.Native.String
use samsung_nasa.Base.{
  ℕ, ◌==◌, Bool, true, false, if◌then◌else◌, List, [], ◌∷◌, ◌++◌, Option, none, some, Result, ok,
  err, panic,
}
use samsung_nasa.Base.Perms.{flat}
use samsung_nasa.Packet.Address
use samsung_nasa.Packet.Address.{Address}
use samsung_nasa.Packet.PacketType
use samsung_nasa.Packet.PacketType.{PacketType}
use samsung_nasa.Packet.DataType
use samsung_nasa.Packet.DataType.{DataType}
use samsung_nasa.Packet.MessageKind.{MessageId}
use samsung_nasa.Packet.Value.{Value, Message, enum_value, variable_value, long_variable_value}
use samsung_nasa.Packet.Types.{Packet, Payload, messages, structure}
use samsung_nasa.Messages
use samsung_nasa.Messages.{Known, ValueOf, id, class, value_type}
use samsung_nasa.Messages.Convert
use samsung_nasa.Messages.Types.{Celsius}
use samsung_nasa.Client.Transport.{Item, IoError, read}
use samsung_nasa.Metrics.Tables.{Table, lookup, insert}

-- `AttrMap` and `AppState`: a hash map is its entries, in the order in which it goes over them.
abbrev pub AttrMap : Type 0
AttrMap = Table MessageId Value

abbrev pub AppState : Type 0
AppState = Table Address AttrMap

abbrev pub or_default : Option AttrMap → AttrMap
or_default none = []
or_default (some attrs) = attrs

-- `metrics.entry(source).or_default().insert(id, value)`.
unfoldable pub record_message : Address → Message → AppState → AppState
record_message source msg metrics =
    insert Address.eq source
      (insert ◌==◌ msg.id msg.value (or_default (lookup Address.eq source metrics))) metrics

-- `for msg in msgs`.
unfoldable pub record_messages : Address → List Message → AppState → AppState
record_messages source [] metrics = metrics
record_messages source (msg ∷ msgs) metrics =
    record_messages source msgs (record_message source msg metrics)

-- The guards of `on_packet`.
unfoldable pub on_packet_with : PacketType → DataType → Payload → Address → AppState → AppState
on_packet_with PacketType.normal DataType.notification (messages msgs) source state =
    record_messages source msgs state
on_packet_with _ _ _ source state = state

unfoldable pub on_packet : Packet → AppState → AppState
on_packet packet state =
    on_packet_with packet.packet_type packet.data_type packet.payload packet.source state

-- `run_bus` over the packets that the bus gives before its error.
unfoldable pub run_bus : List Packet → AppState → AppState
run_bus [] state = state
run_bus (packet ∷ packets) state = run_bus packets (on_packet packet state)

-- `get_message`
unfoldable pub get_message : (k : Known) → AttrMap → Option (ValueOf k)
get_message k attrs = elim (lookup ◌==◌ (id k) attrs) [
  | none ↦ none
  | some value ↦ Convert.try_from_value (value_type (class k)) value
]

-- A line of the page: the metric, its labels and its value, a temperature or a number.
pub data Number : Type 0 where
  degrees : Celsius → Number
  int : ℕ → Number

pub record Sample : Type 0 where
  pub metric : String
  pub address : Address
  pub message : Option MessageId
  pub value : Number

-- `AddressMetrics::gauge`
abbrev pub gauge : Address → String → Celsius → Sample
gauge address name value = record {
  metric = String.◌++◌ "samsung_hvac_" name;
  address = address;
  message = none;
  value = degrees value;
}

abbrev pub gauge_some : Address → String → Option Celsius → List Sample
gauge_some address name none = []
gauge_some address name (some temp) = gauge address name temp ∷ []

unfoldable pub int_of : Value → ℕ
int_of (enum_value i) = i
int_of (variable_value i) = i
int_of (long_variable_value i) = i

-- The line of a raw notification value.
abbrev pub raw : Address → MessageId × Value → List Sample
raw address (message, value) =
    record {
      metric = "samsung_hvac_notification_value";
      address = address;
      message = some message;
      value = int (int_of value);
    }
    ∷ []

-- The gauges of `render_attributes`, in its order.
abbrev pub gauges : AttrMap → List (String × Option Celsius)
gauges attrs =
    ("set_temperature_celsius", get_message Known.set_temp attrs)
    ∷ ("current_temperature_celsius", get_message Known.current_temp attrs)
    ∷ ("coil_inlet_temperature_celsius", get_message Known.eva_in_temp attrs)
    ∷ ("coil_outlet_temperature_celsius", get_message Known.eva_out_temp attrs)
    ∷ ("outdoor_temperature_celsius", get_message Known.outdoor_temp attrs)
    ∷ ("outdoor_discharge_temperature_celsius", get_message Known.outdoor_discharge_temp attrs)
    ∷ ("outdoor_exchanger_temperature_celsius", get_message Known.outdoor_exchanger_temp attrs)
    ∷ []

unfoldable pub render_attributes : Address → AttrMap → List Sample
render_attributes address attrs =
    flat (λ (g : String × Option Celsius). gauge_some address g.0 g.1) (gauges attrs)
    ++ flat (raw address) attrs

unfoldable pub render_metrics : AppState → List Sample
render_metrics metrics =
    flat (λ (entry : Address × AttrMap). render_attributes entry.0 entry.1) metrics
