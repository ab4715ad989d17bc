-- ===== src/Mqtt/Modes/Command.antt =====
-- A command comes back as the state that it asks for.
use samsung_nasa.Base.{◌≡◌, ◌≢◌, refl, ap, none, some}
use samsung_nasa.Packet.Value.{expect_u8, expect_u16}
use samsung_nasa.Messages.Convert
use samsung_nasa.Messages.Types
use samsung_nasa.Messages.Types.{PowerSetting, OperationMode, FanSetting}
use samsung_nasa.Client.MessageSet
use samsung_nasa.Client.MessageSet.{MessageSet}
use samsung_nasa.Mqtt.Control.{State, update_state}
use samsung_nasa.Mqtt.Modes.{
  HvacMode, FanMode, display, fan_display, hvac_mode, hvac_mode_of, mode_command, fan_mode_command,
  to_setting, from_setting,
}

-- Where the unit notifies of the very messages that the command for a mode has sent, the mode that
-- is shown is that mode, whatever the state was before, if its operation mode was known.
pub hvac_mode-mode_command :
    (m : HvacMode) (s : State) (before : OperationMode)
    → m ≢ HvacMode.unknown
    → s.mode ≡ some before
    → hvac_mode (update_state s (record { messages = mode_command (display m) })) ≡ some m
unfolding hvac_mode update_state mode_command MessageSet.get Convert.get Convert.to_message
    Types.power_setting_from_u8 Types.operation_mode_from_u8 Types.fan_setting_from_u8 expect_u8
    expect_u16
hvac_mode-mode_command HvacMode.off s before h e =
    ap (λ o. elim o [ none ↦ none | some mode ↦ some (hvac_mode_of PowerSetting.off mode) ]) e
hvac_mode-mode_command HvacMode.auto s before h e = refl
hvac_mode-mode_command HvacMode.cool s before h e = refl
hvac_mode-mode_command HvacMode.heat s before h e = refl
hvac_mode-mode_command HvacMode.dry s before h e = refl
hvac_mode-mode_command HvacMode.fan_only s before h e = refl
hvac_mode-mode_command HvacMode.unknown s before h e = absurd (h refl)

-- Where the unit notifies of the message that the command for a fan mode has sent, the fan setting
-- is the one of that mode, and is shown as that mode.
pub fan-fan_mode_command :
    (f : FanMode) (s : State)
    → ((update_state s (record { messages = fan_mode_command (fan_display f) })).fan
        ≡ some (to_setting f))
      × (from_setting (to_setting f) ≡ f)
unfolding update_state fan_mode_command MessageSet.get Convert.get Convert.to_message
    Types.power_setting_from_u8 Types.operation_mode_from_u8 Types.fan_setting_from_u8 expect_u8
    expect_u16
fan-fan_mode_command FanMode.auto s = (refl, refl)
fan-fan_mode_command FanMode.low s = (refl, refl)
fan-fan_mode_command FanMode.medium s = (refl, refl)
fan-fan_mode_command FanMode.high s = (refl, refl)
