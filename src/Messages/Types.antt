-- ===== src/Messages/Types.antt =====
-- protocol/src/message/types.rs: the types of the values.
pub mod RoundTrip
use samsung_nasa.Base.{
  ℕ, ◌*◌, ◌/◌, ◌%◌, ◌^◌, ◌≡◌, refl, arith, Bool, true, false, ◌⊎◌, inl, inr, ◌==◌, if◌then◌else◌,
}
use Prim.Native.String.{String}
use samsung_nasa.Messages.Convert.{ValueType, u8_repr, u16_repr, u32_repr}

pub record EnumOutOfRange : Type 0 where
  pub enum_name : String
  pub value : ℕ

-- Tenths of a degree, as a u16.
pub record Celsius : Type 0 where
  pub decis : ℕ

pub record CelsiusLvar : Type 0 where
  pub decis : ℕ

unfoldable pub from_lvar : CelsiusLvar → Celsius
from_lvar c = record { decis = c.decis }

abbrev pub celsius : ValueType Celsius
celsius = record {
  Err = ⊥;
  repr = u16_repr;
  try_from_repr = λ n. inr (record { decis = n });
  to_repr = λ c. c.decis;
}

-- The temperature is the upper half of a u32.
abbrev pub celsius_lvar : ValueType CelsiusLvar
celsius_lvar = record {
  Err = ⊥;
  repr = u32_repr;
  try_from_repr = λ n. inr (record { decis = n / 2 ^ 16 % 2 ^ 16 });
  to_repr = λ c. c.decis * 2 ^ 16 % 2 ^ 32;
}

-- `define_enum!` of each enum.

pub data PowerSetting : Type 0 where
  off on on2 : PowerSetting

pub PowerSetting-discrete : Discrete PowerSetting
PowerSetting-discrete = hlevel

unfoldable pub power_setting_from_u8 : ℕ → EnumOutOfRange ⊎ PowerSetting
power_setting_from_u8 n =
    if n == 0
    then inr PowerSetting.off
    else if n == 1
    then inr PowerSetting.on
    else if n == 2
    then inr PowerSetting.on2
    else inl (record { enum_name = "PowerSetting"; value = n })

abbrev pub power_setting_to_u8 : PowerSetting → ℕ
power_setting_to_u8 PowerSetting.off = 0
power_setting_to_u8 PowerSetting.on = 1
power_setting_to_u8 PowerSetting.on2 = 2

abbrev pub power_setting : ValueType PowerSetting
power_setting = record {
  Err = EnumOutOfRange;
  repr = u8_repr;
  try_from_repr = power_setting_from_u8;
  to_repr = power_setting_to_u8;
}

pub data OperationMode : Type 0 where
  auto cool dry fan heat auto_cool auto_dry auto_fan auto_heat : OperationMode

pub OperationMode-discrete : Discrete OperationMode
OperationMode-discrete = hlevel

unfoldable pub operation_mode_from_u8 : ℕ → EnumOutOfRange ⊎ OperationMode
operation_mode_from_u8 n =
    if n == 0
    then inr OperationMode.auto
    else if n == 1
    then inr OperationMode.cool
    else if n == 2
    then inr OperationMode.dry
    else if n == 3
    then inr OperationMode.fan
    else if n == 4
    then inr OperationMode.heat
    else if n == 11
    then inr OperationMode.auto_cool
    else if n == 12
    then inr OperationMode.auto_dry
    else if n == 13
    then inr OperationMode.auto_fan
    else if n == 14
    then inr OperationMode.auto_heat
    else inl (record { enum_name = "OperationMode"; value = n })

abbrev pub operation_mode_to_u8 : OperationMode → ℕ
operation_mode_to_u8 OperationMode.auto = 0
operation_mode_to_u8 OperationMode.cool = 1
operation_mode_to_u8 OperationMode.dry = 2
operation_mode_to_u8 OperationMode.fan = 3
operation_mode_to_u8 OperationMode.heat = 4
operation_mode_to_u8 OperationMode.auto_cool = 11
operation_mode_to_u8 OperationMode.auto_dry = 12
operation_mode_to_u8 OperationMode.auto_fan = 13
operation_mode_to_u8 OperationMode.auto_heat = 14

abbrev pub operation_mode : ValueType OperationMode
operation_mode = record {
  Err = EnumOutOfRange;
  repr = u8_repr;
  try_from_repr = operation_mode_from_u8;
  to_repr = operation_mode_to_u8;
}

pub data FanSetting : Type 0 where
  auto low medium high : FanSetting

pub FanSetting-discrete : Discrete FanSetting
FanSetting-discrete = hlevel

unfoldable pub fan_setting_from_u8 : ℕ → EnumOutOfRange ⊎ FanSetting
fan_setting_from_u8 n =
    if n == 0
    then inr FanSetting.auto
    else if n == 1
    then inr FanSetting.low
    else if n == 2
    then inr FanSetting.medium
    else if n == 3
    then inr FanSetting.high
    else inl (record { enum_name = "FanSetting"; value = n })

abbrev pub fan_setting_to_u8 : FanSetting → ℕ
fan_setting_to_u8 FanSetting.auto = 0
fan_setting_to_u8 FanSetting.low = 1
fan_setting_to_u8 FanSetting.medium = 2
fan_setting_to_u8 FanSetting.high = 3

abbrev pub fan_setting : ValueType FanSetting
fan_setting = record {
  Err = EnumOutOfRange;
  repr = u8_repr;
  try_from_repr = fan_setting_from_u8;
  to_repr = fan_setting_to_u8;
}

unfoldable pub bool_from_u8 : ℕ → EnumOutOfRange ⊎ Bool
bool_from_u8 n =
    if n == 0
    then inr false
    else if n == 1
    then inr true
    else inl (record { enum_name = "bool"; value = n })

abbrev pub bool_to_u8 : Bool → ℕ
bool_to_u8 false = 0
bool_to_u8 true = 1

abbrev pub bool : ValueType Bool
bool = record {
  Err = EnumOutOfRange;
  repr = u8_repr;
  try_from_repr = bool_from_u8;
  to_repr = bool_to_u8;
}
