-- ===== src/Mqtt/Control.antt =====
-- mqtt/src/control.rs: the state of the air conditioner, and its temperature ranges.
pub mod Update
pub mod Range
pub mod Limits
pub mod Unit
pub mod Start
pub mod Observe
use samsung_nasa.Base.{
  ℕ, Option, none, some, Bool, true, false, ltb, if◌then◌else◌, Result, ok, err, panic, ◌>>=◌,
}
use samsung_nasa.Messages.{
  power, mode, fan_mode, set_temp, current_temp, cool_low_temp_limit, cool_high_temp_limit,
  heat_low_temp_limit, heat_high_temp_limit,
}
use samsung_nasa.Messages.Types.{
  Celsius, CelsiusLvar, from_lvar, PowerSetting, OperationMode, FanSetting,
}
use samsung_nasa.Client.MessageSet.{MessageSet, get, try_get, Missing}

pub record State : Type 0 where
  pub power : Option PowerSetting
  pub mode : Option OperationMode
  pub fan : Option FanSetting
  pub set_temp : Option Celsius
  pub current_temp : Option Celsius

-- Whether the mode has a set temperature.
unfoldable pub has_temperature_in : Option OperationMode → Bool
has_temperature_in none = false
has_temperature_in (some OperationMode.fan) = false
has_temperature_in (some _) = true

unfoldable pub has_temperature : State → Bool
unfolding has_temperature_in
has_temperature state = elim state.power [
  | some p ↦ elim p [ PowerSetting.off ↦ false | _ ↦ has_temperature_in state.mode ]
  | none ↦ has_temperature_in state.mode
]

-- `if let Some(value) = … { … }`.
abbrev pub when_some : {A : Type 0} → Option A → (A → State → State) → State → State
when_some (some value) change state = change value state
when_some none change state = state

unfoldable pub update_state : State → MessageSet → State
update_state state set =
    let state1 = when_some (get power set) (λ p s. record s { power = some p }) state in
    let state2 = when_some (get mode set) (λ m s. record s { mode = some m }) state1 in
    let state3 = when_some (get fan_mode set) (λ f s. record s { fan = some f }) state2 in
    let state4 =
      when_some (get set_temp set)
        (λ temp s.
          if has_temperature s
          then record s { set_temp = some temp }
          else record s { set_temp = none })
        state3 in
    when_some (get current_temp set) (λ temp s. record s { current_temp = some temp }) state4

pub record TempRange : Type 0 where
  pub low : Celsius
  pub high : Celsius

pub record Params : Type 0 where
  pub cooling_range : TempRange
  pub heating_range : TempRange

-- `cmp::min`, `cmp::max` and `Ord::clamp` on the derived order, which compares the tenths; where
-- they are equal, so are the values.
unfoldable pub min : Celsius → Celsius → Celsius
min a b = if ltb b.decis a.decis then b else a

unfoldable pub max : Celsius → Celsius → Celsius
max a b = if ltb b.decis a.decis then a else b

unfoldable pub nonspecific : Params → TempRange
nonspecific params = record {
  low = min params.cooling_range.low params.heating_range.low;
  high = max params.cooling_range.high params.heating_range.high;
}

-- `Ord::clamp` asserts that the bounds are in order.
unfoldable pub clamp : {E : Type 0} → TempRange → Celsius → Result E Celsius
clamp range temp =
    if ltb range.high.decis range.low.decis
    then panic
    else if ltb temp.decis range.low.decis
    then ok range.low
    else if ltb range.high.decis temp.decis
    then ok range.high
    else ok temp

-- `SamsungHvac::range`, from the mode of the state.
unfoldable pub range : Params → State → TempRange
range params state = elim state.mode [
  | none ↦ nonspecific params
  | some m ↦ elim m [
    | OperationMode.heat ↦ params.heating_range
    | OperationMode.cool ↦ params.cooling_range
    | _ ↦ nonspecific params
  ]
]

-- What `read_params` makes of a reply.
unfoldable pub params_of : MessageSet → Result Missing Params
params_of reply = do
  cool_low ← try_get cool_low_temp_limit reply
  cool_high ← try_get cool_high_temp_limit reply
  heat_low ← try_get heat_low_temp_limit reply
  heat_high ← try_get heat_high_temp_limit reply
  ok (record {
    cooling_range = record { low = from_lvar cool_low; high = from_lvar cool_high };
    heating_range = record { low = from_lvar heat_low; high = from_lvar heat_high };
  })
