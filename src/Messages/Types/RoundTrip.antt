-- ===== src/Messages/Types/RoundTrip.antt =====
-- What is written as a value is read back.
use samsung_nasa.Base.{ℕ, ◌≡◌, refl, arith, Bool, true, false, inr}
use samsung_nasa.Bytes.{IsByte}
use samsung_nasa.Messages.Types.{
  PowerSetting, OperationMode, FanSetting, power_setting_from_u8, power_setting_to_u8,
  operation_mode_from_u8, operation_mode_to_u8, fan_setting_from_u8, fan_setting_to_u8,
  bool_from_u8, bool_to_u8,
}

pub power_setting_from_u8-to_u8 :
    (v : PowerSetting) → power_setting_from_u8 (power_setting_to_u8 v) ≡ inr v
unfolding power_setting_from_u8
power_setting_from_u8-to_u8 PowerSetting.off = refl
power_setting_from_u8-to_u8 PowerSetting.on = refl
power_setting_from_u8-to_u8 PowerSetting.on2 = refl

pub power_setting_to_u8-from_u8 :
    (n : ℕ) (v : PowerSetting) → power_setting_from_u8 n ≡ inr v → power_setting_to_u8 v ≡ n
unfolding power_setting_from_u8
power_setting_to_u8-from_u8 n v h = ground arith

pub operation_mode_from_u8-to_u8 :
    (v : OperationMode) → operation_mode_from_u8 (operation_mode_to_u8 v) ≡ inr v
unfolding operation_mode_from_u8
operation_mode_from_u8-to_u8 OperationMode.auto = refl
operation_mode_from_u8-to_u8 OperationMode.cool = refl
operation_mode_from_u8-to_u8 OperationMode.dry = refl
operation_mode_from_u8-to_u8 OperationMode.fan = refl
operation_mode_from_u8-to_u8 OperationMode.heat = refl
operation_mode_from_u8-to_u8 OperationMode.auto_cool = refl
operation_mode_from_u8-to_u8 OperationMode.auto_dry = refl
operation_mode_from_u8-to_u8 OperationMode.auto_fan = refl
operation_mode_from_u8-to_u8 OperationMode.auto_heat = refl

pub operation_mode_to_u8-from_u8 :
    (n : ℕ) (v : OperationMode) → operation_mode_from_u8 n ≡ inr v → operation_mode_to_u8 v ≡ n
unfolding operation_mode_from_u8
operation_mode_to_u8-from_u8 n v h = ground arith

pub fan_setting_from_u8-to_u8 : (v : FanSetting) → fan_setting_from_u8 (fan_setting_to_u8 v) ≡ inr v
unfolding fan_setting_from_u8
fan_setting_from_u8-to_u8 FanSetting.auto = refl
fan_setting_from_u8-to_u8 FanSetting.low = refl
fan_setting_from_u8-to_u8 FanSetting.medium = refl
fan_setting_from_u8-to_u8 FanSetting.high = refl

pub fan_setting_to_u8-from_u8 :
    (n : ℕ) (v : FanSetting) → fan_setting_from_u8 n ≡ inr v → fan_setting_to_u8 v ≡ n
unfolding fan_setting_from_u8
fan_setting_to_u8-from_u8 n v h = ground arith

pub bool_from_u8-to_u8 : (v : Bool) → bool_from_u8 (bool_to_u8 v) ≡ inr v
unfolding bool_from_u8
bool_from_u8-to_u8 false = refl
bool_from_u8-to_u8 true = refl

pub bool_to_u8-from_u8 : (n : ℕ) (v : Bool) → bool_from_u8 n ≡ inr v → bool_to_u8 v ≡ n
unfolding bool_from_u8
bool_to_u8-from_u8 n v h = ground arith

pub power_setting_to_u8-IsByte : (v : PowerSetting) → IsByte (power_setting_to_u8 v)
power_setting_to_u8-IsByte PowerSetting.off = omega arith
power_setting_to_u8-IsByte PowerSetting.on = omega arith
power_setting_to_u8-IsByte PowerSetting.on2 = omega arith

pub operation_mode_to_u8-IsByte : (v : OperationMode) → IsByte (operation_mode_to_u8 v)
operation_mode_to_u8-IsByte OperationMode.auto = omega arith
operation_mode_to_u8-IsByte OperationMode.cool = omega arith
operation_mode_to_u8-IsByte OperationMode.dry = omega arith
operation_mode_to_u8-IsByte OperationMode.fan = omega arith
operation_mode_to_u8-IsByte OperationMode.heat = omega arith
operation_mode_to_u8-IsByte OperationMode.auto_cool = omega arith
operation_mode_to_u8-IsByte OperationMode.auto_dry = omega arith
operation_mode_to_u8-IsByte OperationMode.auto_fan = omega arith
operation_mode_to_u8-IsByte OperationMode.auto_heat = omega arith

pub fan_setting_to_u8-IsByte : (v : FanSetting) → IsByte (fan_setting_to_u8 v)
fan_setting_to_u8-IsByte FanSetting.auto = omega arith
fan_setting_to_u8-IsByte FanSetting.low = omega arith
fan_setting_to_u8-IsByte FanSetting.medium = omega arith
fan_setting_to_u8-IsByte FanSetting.high = omega arith
