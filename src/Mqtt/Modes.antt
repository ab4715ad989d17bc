-- ===== src/Mqtt/Modes.antt =====
-- The modes that MQTT sees: mqtt/src/types.rs, and `hvac_mode` and the mode command of
-- mqtt/src/mqtt.rs.
pub mod Command
use Prim.Native.String.{String}
use text.Mathlib.Text.{◌==◌}
use samsung_nasa.Base.{List, [], ◌∷◌, Option, none, some, ◌⊎◌, inl, inr, if◌then◌else◌}
use samsung_nasa.Packet.Value.{Message}
use samsung_nasa.Messages.{Known, new}
use samsung_nasa.Messages.Convert.{to_option}
use samsung_nasa.Messages.Types.{PowerSetting, OperationMode, FanSetting}
use samsung_nasa.Mqtt.Control.{State}

pub record InvalidEnumString : Type 0 where
  pub name : String
  pub value : String

pub data HvacMode : Type 0 where
  off auto cool heat dry fan_only unknown : HvacMode

pub HvacMode-discrete : Discrete HvacMode
HvacMode-discrete = hlevel

abbrev pub display : HvacMode → String
display HvacMode.off = "off"
display HvacMode.auto = "auto"
display HvacMode.cool = "cool"
display HvacMode.heat = "heat"
display HvacMode.dry = "dry"
display HvacMode.fan_only = "fan_only"
display HvacMode.unknown = "None"

unfoldable pub from_str : String → InvalidEnumString ⊎ HvacMode
from_str s =
    if s == "off"
    then inr HvacMode.off
    else if s == "auto"
    then inr HvacMode.auto
    else if s == "cool"
    then inr HvacMode.cool
    else if s == "heat"
    then inr HvacMode.heat
    else if s == "dry"
    then inr HvacMode.dry
    else if s == "fan_only"
    then inr HvacMode.fan_only
    else inl (record { name = "HvacMode"; value = s })

pub data FanMode : Type 0 where
  auto low medium high : FanMode

abbrev pub from_setting : FanSetting → FanMode
from_setting FanSetting.auto = FanMode.auto
from_setting FanSetting.low = FanMode.low
from_setting FanSetting.medium = FanMode.medium
from_setting FanSetting.high = FanMode.high

abbrev pub to_setting : FanMode → FanSetting
to_setting FanMode.auto = FanSetting.auto
to_setting FanMode.low = FanSetting.low
to_setting FanMode.medium = FanSetting.medium
to_setting FanMode.high = FanSetting.high

abbrev pub fan_display : FanMode → String
fan_display FanMode.auto = "auto"
fan_display FanMode.low = "low"
fan_display FanMode.medium = "medium"
fan_display FanMode.high = "high"

unfoldable pub fan_from_str : String → InvalidEnumString ⊎ FanMode
fan_from_str s =
    if s == "auto"
    then inr FanMode.auto
    else if s == "low"
    then inr FanMode.low
    else if s == "medium"
    then inr FanMode.medium
    else if s == "high"
    then inr FanMode.high
    else inl (record { name = "FanMode"; value = s })

-- The match of `hvac_mode`.
unfoldable pub hvac_mode_of : PowerSetting → OperationMode → HvacMode
hvac_mode_of PowerSetting.off _ = HvacMode.off
hvac_mode_of _ OperationMode.auto = HvacMode.auto
hvac_mode_of _ OperationMode.cool = HvacMode.cool
hvac_mode_of _ OperationMode.heat = HvacMode.heat
hvac_mode_of _ OperationMode.dry = HvacMode.dry
hvac_mode_of _ OperationMode.fan = HvacMode.fan_only
hvac_mode_of _ _ = HvacMode.unknown

unfoldable pub hvac_mode : State → Option HvacMode
unfolding hvac_mode_of
hvac_mode state = elim state.power [
  | none ↦ none
  | some power ↦ elim state.mode [ none ↦ none | some mode ↦ some (hvac_mode_of power mode) ]
]

-- The operation mode that a mode asks for.
unfoldable pub operation_mode_of : HvacMode → Option OperationMode
operation_mode_of HvacMode.off = none
operation_mode_of HvacMode.auto = some OperationMode.auto
operation_mode_of HvacMode.cool = some OperationMode.cool
operation_mode_of HvacMode.heat = some OperationMode.heat
operation_mode_of HvacMode.dry = some OperationMode.dry
operation_mode_of HvacMode.fan_only = some OperationMode.fan
operation_mode_of HvacMode.unknown = none

-- The messages of a mode command.
unfoldable pub mode_command : String → List Message
unfolding from_str operation_mode_of
mode_command message =
    let wanted : Option OperationMode = elim (to_option (from_str message)) [
      | none ↦ none
      | some mode ↦ operation_mode_of mode
    ] in
    elim wanted [
      | some mode ↦ new Known.power PowerSetting.on ∷ new Known.mode mode ∷ []
      | none ↦ new Known.power PowerSetting.off ∷ []
    ]

-- The messages of a fan mode command.
unfoldable pub fan_mode_command : String → List Message
unfolding fan_from_str
fan_mode_command message = elim (to_option (fan_from_str message)) [
  | none ↦ []
  | some mode ↦ new Known.fan_mode (to_setting mode) ∷ []
]
