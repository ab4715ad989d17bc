-- ===== src/Examples/Control.antt =====
-- Typed messages, message sets, and the state of an air conditioner, on concrete values.
use samsung_nasa.Base.{ℕ, ◌≡◌, ◌≢◌, refl, arith, [], ◌∷◌, ◌++◌, none, some, ok, err}
use samsung_nasa.Messages
use samsung_nasa.Messages.{Known, id, new}
use samsung_nasa.Messages.Convert
use samsung_nasa.Messages.Types.{OperationMode, Celsius, CelsiusLvar, PowerSetting}
use samsung_nasa.Messages.RoundTrip.{get-new}
use samsung_nasa.Client.MessageSet.{MessageSet, get, or_else, try_get, try_get-new, missing_message}
use samsung_nasa.Mqtt.Control.{State, Params, update_state}
use samsung_nasa.Mqtt.Control.Update.{SetTemp, update_state_lem}
use samsung_nasa.Mqtt.Control.Unit.{new_shared, lacks}
use samsung_nasa.Messages.Types.{from_lvar}
use samsung_nasa.Mqtt.Control.Start.{Starts, new-limits}
use samsung_nasa.Crates.{plain}
use samsung_nasa.Mqtt.Modes.{HvacMode, hvac_mode, mode_command}
use samsung_nasa.Mqtt.Modes.Command.{hvac_mode-mode_command}
use samsung_nasa.Examples.{power_on, set_temp, request, indoor_unit}

abbrev limit : CelsiusLvar
limit = record { decis = 300 }

get-new_example :
    (Messages.get Known.power (new Known.power PowerSetting.on) ≡ some PowerSetting.on)
    × (id Known.mode ≢ id Known.power
        → Messages.get Known.mode (new Known.power PowerSetting.on) ≡ none)
get-new_example = get-new Known.power Known.mode PowerSetting.on tt

try_get-new_example :
    (try_get Known.heat_high_temp_limit (record {
      messages = (power_on ∷ []) ++ (new Known.heat_high_temp_limit limit ∷ set_temp ∷ []);
    })
      ≡ ok limit)
    × (try_get Known.heat_high_temp_limit (record { messages = power_on ∷ [] })
        ≡ err (missing_message 0x0413))
try_get-new_example =
    try_get-new Known.heat_high_temp_limit limit (power_on ∷ []) (set_temp ∷ []) (omega arith)
      ((unfold Convert.get in refl), tt)

abbrev unknown : State
unknown = record { power = none; mode = none; fan = none; set_temp = none; current_temp = none }

abbrev notification : MessageSet
notification = record { messages = power_on ∷ set_temp ∷ [] }

update_state_lem_example :
    let after = update_state unknown notification in
    (after.power ≡ or_else (get Known.power notification) none)
    × (after.mode ≡ or_else (get Known.mode notification) none)
    × (after.fan ≡ or_else (get Known.fan_mode notification) none)
    × (after.current_temp ≡ or_else (get Known.current_temp notification) none)
    × SetTemp (get Known.set_temp notification) none after
update_state_lem_example = update_state_lem unknown notification

abbrev degrees : ℕ → Celsius
degrees n = record { decis = n }

abbrev ranges : Params
ranges = record {
  cooling_range = record { low = degrees 180; high = degrees 300 };
  heating_range = record { low = degrees 160; high = degrees 300 };
}

new-limits_example :
    let three =
      new Known.cool_low_temp_limit (record { decis = 180 })
      ∷ new Known.heat_low_temp_limit (record { decis = 160 })
      ∷ new Known.cool_high_temp_limit (record { decis = 300 })
      ∷ [] in
    let shared = new_shared indoor_unit in
    Starts plain shared request
      (three ++ (new Known.heat_high_temp_limit limit ∷ []))
      (ok (record { params = ranges; shared = shared }))
    × Starts plain shared request three (err (lacks (missing_message 0x0413)))
unfolding from_lvar
new-limits_example =
    new-limits plain (new_shared indoor_unit) request (record { decis = 180 })
      (record { decis = 160 }) (record { decis = 300 }) limit
      (omega arith, omega arith, omega arith) (omega arith) (omega arith) (omega arith)
      (omega arith)

hvac_mode-mode_command_example :
    let state : State = record unknown { mode = some OperationMode.heat } in
    hvac_mode (update_state state (record { messages = mode_command "fan_only" }))
    ≡ some HvacMode.fan_only
hvac_mode-mode_command_example =
    hvac_mode-mode_command HvacMode.fan_only (record unknown { mode = some OperationMode.heat })
      OperationMode.heat (λ h. ground arith) refl
