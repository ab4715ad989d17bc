-- ===== src/Examples/Bridge.antt =====
-- The MQTT bridge of mqtt/src on a concrete configuration, unit and bus.
use Prim.Native.String.{String}
use mathlib.Core.List.{Mem}
use samsung_nasa.Base.{
  ℕ, ◌+◌, ◌≡◌, ◌↔◌, arith, true, false, List, [], ◌∷◌, length, Option, none, some, ok,
}
use samsung_nasa.Crates.{plain}
use samsung_nasa.Packet.DataType
use samsung_nasa.Packet.Value.{Message}
use samsung_nasa.Packet.Types.{Packet, messages}
use samsung_nasa.Packet.Encoding.{encode}
use samsung_nasa.Packet.Parse.{parse}
use samsung_nasa.Packet.RoundTrip.{as_received}
use samsung_nasa.Messages.{power, mode, fan_mode, current_temp}
use samsung_nasa.Messages.Types.{Celsius, OperationMode, PowerSetting}
use samsung_nasa.Client.MessageSet.{get}
use samsung_nasa.Client.Reader
use samsung_nasa.Client.Requests.{Error, replied, next_packet_number}
use samsung_nasa.Client.Requests.Read.{request_reply, request_packet}
use samsung_nasa.Mqtt.Control.{State, Params, range, clamp}
use samsung_nasa.Mqtt.Control.Range.{Contains}
use samsung_nasa.Mqtt.Control.Unit.{Shared, unknown, new_shared, observe}
use samsung_nasa.Mqtt.Control.Observe.{notices, latest, observe_lem}
use samsung_nasa.Mqtt.Modes.{hvac_mode, hvac_mode_of, HvacMode}
use samsung_nasa.Mqtt.Topics
use samsung_nasa.Mqtt.Topics.{DiscoveryConfig, climate_topics, subscribe_topics}
use samsung_nasa.Mqtt.Bridge.{collect, announces, on_message}
use samsung_nasa.Mqtt.Bridge.Commands.{Command, topic_of, messages_of, collect-commands}
use samsung_nasa.Mqtt.Bridge.Arrival.{on_message_arrives}
use samsung_nasa.Mqtt.Bridge.Tasks.{ClimateComponent, device_component, update_state_task}
use samsung_nasa.Mqtt.Bridge.Tasks.Published.{
  received, announcements, Changes, update_state_task_lem,
}
use samsung_nasa.Mqtt.Bridge.Tasks.Announced.{device_component-clamp}
use samsung_nasa.Examples.{indoor_unit, controller, request, power_on}

abbrev config : DiscoveryConfig
config = record { prefix = "homeassistant"; object_id = "hvac"; unique_id = "samsung-1" }

abbrev degrees : ℕ → Celsius
degrees n = record { decis = n }

abbrev ranges : Params
ranges = record {
  cooling_range = record { low = degrees 180; high = degrees 300 };
  heating_range = record { low = degrees 160; high = degrees 300 };
}

-- Every number reads as 21.5 degrees.
abbrev parse_temp : String → Option Celsius
parse_temp text = some (degrees 215)

abbrev show_temp : Celsius → String
show_temp temp = "21.5"

abbrev unit : Shared
unit = new_shared indoor_unit

abbrev ack : Packet
ack = record request { source = indoor_unit; destination = controller; data_type = DataType.ack }

-- The unit tells that it is on, and another packet does not count.
abbrev told : Packet
told = record request {
  source = indoor_unit;
  data_type = DataType.notification;
  payload = messages (power_on ∷ []);
}

abbrev reader : Reader.Shared
reader = record { address = controller; waiting = λ n. none }

observe_lem_example :
    let after = (observe (told ∷ ack ∷ []) reader unit).state in
    let ds = notices unit.address (told ∷ ack ∷ []) in
    (after.inner.power ≡ latest (get power) ds none)
    × (after.inner.mode ≡ latest (get mode) ds none)
    × (after.inner.fan ≡ latest (get fan_mode) ds none)
    × (after.inner.current_temp ≡ latest (get current_temp) ds none)
    × (after.notified ≡ 0 + length ds)
observe_lem_example = observe_lem (told ∷ ack ∷ []) reader unit

collect-commands_example :
    let topics = Topics.new config in
    ((c : Command)
      → (collect parse_temp {E = ⊥} topics ranges unknown (topic_of c topics.climate) "ON"
          ≡ messages_of parse_temp c ranges unknown "ON")
        × (announces topics (topic_of c topics.climate) ≡ false))
    × ((collect parse_temp {E = ⊥} topics ranges unknown topics.homeassistant_status "ON" ≡ ok [])
        × (announces topics topics.homeassistant_status ≡ true))
    × ((topic : String)
        → ¬ Mem topic (subscribe_topics topics)
        → (collect parse_temp {E = ⊥} topics ranges unknown topic "ON" ≡ ok [])
          × (announces topics topic ≡ false))
collect-commands_example = collect-commands parse_temp {E = ⊥} config ranges unknown "ON"

on_message_arrives_example :
    let topics = Topics.new config in
    let after =
      on_message parse_temp plain topics ranges unit 7 topics.climate.temperature_command "21.5"
        (replied ack ∷ []) in
    (ms : List Message) × (p : Packet) × (messages_of parse_temp {E = Error} Command.temperature
        ranges unknown "21.5"
      ≡ ok ms)
    × (p ≡ request_packet indoor_unit DataType.request 7 ms)
    × (parse plain (encode p) ≡ ok (as_received p))
    × (after.0 ≡ record {
      sent = p ∷ [];
      result = some (request_reply ack);
      counter = (next_packet_number 7).1;
    })
    × (after.1 ≡ false)
on_message_arrives_example =
    on_message_arrives parse_temp plain config ranges unit 7 Command.temperature "21.5" ack
      (omega arith, omega arith, omega arith) (omega arith)
      (omega arith, omega arith, omega arith, omega arith)

-- The unit is off, then it heats, then it tells the same again.
abbrev off_state : State
off_state = record unknown { power = some PowerSetting.off; mode = some OperationMode.heat }

abbrev heating : State
heating = record unknown { power = some PowerSetting.on; mode = some OperationMode.heat }

update_state_task_lem_example :
    let topics = climate_topics "homeassistant/climate/hvac" in
    let states = off_state ∷ heating ∷ heating ∷ [] in
    let rounds = update_state_task show_temp topics states none in
    (received topics.mode_state rounds ≡ "off" ∷ "heat" ∷ "heat" ∷ [])
    × (received topics.fan_mode_state rounds ≡ [])
    × (received topics.temperature_state rounds ≡ "None" ∷ "None" ∷ "None" ∷ [])
    × (received topics.current_temperature rounds ≡ [])
    × Changes none (HvacMode.off ∷ HvacMode.heat ∷ HvacMode.heat ∷ []) (announcements rounds)
unfolding hvac_mode hvac_mode_of
update_state_task_lem_example =
    update_state_task_lem show_temp "homeassistant/climate/hvac"
      (off_state ∷ heating ∷ heating ∷ []) none

device_component-clamp_example :
    let announced : ClimateComponent = device_component config (Topics.new config) ranges heating in
    ((clamp {E = ⊥} (range ranges heating) (degrees 215) ≡ ok (degrees 215))
      ↔ Contains (record { low = announced.min_temp; high = announced.max_temp }) (degrees 215))
    × ((t : Celsius) × (clamp {E = ⊥} (range ranges heating) (degrees 215) ≡ ok t)
        × Contains (record { low = announced.min_temp; high = announced.max_temp }) t)
device_component-clamp_example =
    device_component-clamp {E = ⊥} config (Topics.new config) ranges heating (degrees 215)
      (omega arith) (omega arith)
