-- ===== src/Mqtt/Bridge.antt =====
-- The commands and the tasks of mqtt/src/mqtt.rs.
pub mod Commands
pub mod Arrival
pub mod Tasks
use Prim.Native.String.{String}
use text.Mathlib.Text.{◌==◌}
use samsung_nasa.Base.{
  ℕ, ◌+◌, Bool, true, false, if◌then◌else◌, List, [], ◌∷◌, ◌++◌, Option, none, some, Result, ok,
  err, panic, ◌>>=◌,
}
use samsung_nasa.Crates.{Crates}
use samsung_nasa.Packet.Value.{Message}
use samsung_nasa.Messages.{Known, new}
use samsung_nasa.Messages.Types.{PowerSetting, Celsius}
use samsung_nasa.Client.Requests.{Error, Round}
use samsung_nasa.Client.Requests.Calls.{Call}
use samsung_nasa.Mqtt.Control.{State, Params, TempRange, range, clamp}
use samsung_nasa.Mqtt.Control.Unit
use samsung_nasa.Mqtt.Control.Unit.{Shared}
use samsung_nasa.Mqtt.Modes.{
  HvacMode, FanMode, HvacMode-discrete, hvac_mode, from_setting, display, fan_display, mode_command,
  fan_mode_command,
}
use samsung_nasa.Mqtt.Topics.{Topics}

-- The messages of a power command.
unfoldable pub power_command : String → List Message
power_command message =
    if message == "OFF"
    then new Known.power PowerSetting.off ∷ []
    else if message == "ON"
    then new Known.power PowerSetting.on ∷ []
    else []

-- The messages of a temperature command, by what `f32::from_str` and `Celsius::from_float` make of
-- its text.
unfoldable pub temperature_command :
    {E : Type 0} → TempRange → Option Celsius → Result E (List Message)
temperature_command limits none = ok []
temperature_command limits (some wanted) =
    clamp limits wanted >>= λ temp. ok (new Known.set_temp temp ∷ [])

abbrev pub when : {A : Type 0} → Bool → List A → List A
when b xs = if b then xs else []

-- Whether `on_message` asks for the discovery announcement.
unfoldable pub announces : Topics → String → Bool
announces topics topic = topics.homeassistant_status == topic

-- Floats are not modelled: the parsing of a temperature is a parameter.
module _ (parse_temp : String → Option Celsius) where
  -- The messages that `on_message` collects.
  unfoldable pub collect :
      {E : Type 0} → Topics → Params → State → String → String → Result E (List Message)
  collect topics params state topic message =
      let temperature : Result _ (List Message) =
        if topics.climate.temperature_command == topic
        then temperature_command (range params state) (parse_temp message)
        else ok [] in
      temperature >>= λ temp. ok (
        when (topics.climate.power_command == topic) (power_command message)
        ++ (when (topics.climate.mode_command == topic) (mode_command message)
            ++ (temp
                ++ when (topics.climate.fan_mode_command == topic) (fan_mode_command message))))

  -- `on_message`: what it requests of the unit, and whether it announces and `read_state` follows.
  unfoldable pub on_message :
      Crates
      → Topics
      → Params
      → Shared
      → ℕ
      → String
      → String
      → List Round
      → Call (Unit {0}) × Bool × Bool
  on_message crates topics params shared counter topic message rounds =
      elim (collect topics params shared.state.inner topic message) [
        | ok ms ↦
            let (call, reads) = Unit.request crates counter shared ms rounds in
            (call, announces topics topic, reads)
        | err e ↦ (
          record { sent = []; result = some (err e); counter = counter },
          announces topics topic,
          false,
        )
        | panic ↦ (
          record { sent = []; result = some panic; counter = counter },
          announces topics topic,
          false,
        )
      ]

  -- An event of the MQTT client: a message, whose payload is no text where it is not UTF-8, or
  -- anything else.
  pub data Event : Type 0 where
    publish : (topic : String) (payload : Option String) → Event
    other : Event

  -- `on_event`: `none` where no message is dispatched; an error is logged.
  unfoldable pub on_event :
      Crates
      → Topics
      → Params
      → Shared
      → ℕ
      → Event
      → List Round
      → Option (Call (Unit {0}) × Bool × Bool)
  on_event crates topics params shared counter (publish topic (some message)) rounds =
      some (on_message crates topics params shared counter topic message rounds)
  on_event crates topics params shared counter (publish topic none) rounds = none
  on_event crates topics params shared counter other rounds = none
