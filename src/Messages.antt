-- ===== src/Messages.antt =====
-- protocol/src/message.rs: the messages with a known meaning.
pub mod Convert
pub mod Types
pub mod RoundTrip
use samsung_nasa.Base.{ℕ, Option}
use samsung_nasa.Packet.MessageKind.{MessageId}
use samsung_nasa.Packet.Value.{Message}
use samsung_nasa.Messages.Convert
use samsung_nasa.Messages.Convert.{ValueType}
use samsung_nasa.Messages.Types.{
  Celsius, CelsiusLvar, PowerSetting, OperationMode, FanSetting, celsius, celsius_lvar,
  power_setting, operation_mode, fan_setting,
}

-- The types that the values of these messages have.
pub data Class : Type 0 where
  temperature limit power_class mode_class fan_class : Class

abbrev pub Typed : Class → Type 0
Typed temperature = Celsius
Typed limit = CelsiusLvar
Typed power_class = PowerSetting
Typed mode_class = OperationMode
Typed fan_class = FanSetting

abbrev pub value_type : (c : Class) → ValueType (Typed c)
value_type temperature = celsius
value_type limit = celsius_lvar
value_type power_class = power_setting
value_type mode_class = operation_mode
value_type fan_class = fan_setting

-- One constructor for each alias of `TypedMessage`.
pub data Known : Type 0 where
  set_temp current_temp modified_current_temp eva_in_temp eva_out_temp outdoor_temp : Known
  outdoor_discharge_temp outdoor_exchanger_temp cool_high_temp_limit cool_low_temp_limit : Known
  heat_high_temp_limit heat_low_temp_limit power mode mode_real fan_mode unknown_temp_4202 : Known
  unknown_temp_42df unknown_temp_42e0 unknown_temp_42e1 unknown_temp_42e2 unknown_temp_42e3 : Known
  unknown_temp_42e4 unknown_temp_8254 unknown_temp_8280 unknown_temp_82a1 unknown_temp_82e3 : Known
  unknown_temp_82e5 unknown_temp_82e6 unknown_temp_82eb unknown_temp_82ec : Known

abbrev pub id : Known → MessageId
id set_temp = 0x4201
id current_temp = 0x4203
id modified_current_temp = 0x4204
id eva_in_temp = 0x4205
id eva_out_temp = 0x4206
id outdoor_temp = 0x8204
id outdoor_discharge_temp = 0x820a
id outdoor_exchanger_temp = 0x8218
id cool_high_temp_limit = 0x0411
id cool_low_temp_limit = 0x0412
id heat_high_temp_limit = 0x0413
id heat_low_temp_limit = 0x0414
id power = 0x4000
id mode = 0x4001
id mode_real = 0x4002
id fan_mode = 0x4006
id unknown_temp_4202 = 0x4202
id unknown_temp_42df = 0x42df
id unknown_temp_42e0 = 0x42e0
id unknown_temp_42e1 = 0x42e1
id unknown_temp_42e2 = 0x42e2
id unknown_temp_42e3 = 0x42e3
id unknown_temp_42e4 = 0x42e4
id unknown_temp_8254 = 0x8254
id unknown_temp_8280 = 0x8280
id unknown_temp_82a1 = 0x82a1
id unknown_temp_82e3 = 0x82e3
id unknown_temp_82e5 = 0x82e5
id unknown_temp_82e6 = 0x82e6
id unknown_temp_82eb = 0x82eb
id unknown_temp_82ec = 0x82ec

abbrev pub class : Known → Class
class cool_high_temp_limit = limit
class cool_low_temp_limit = limit
class heat_high_temp_limit = limit
class heat_low_temp_limit = limit
class power = power_class
class mode = mode_class
class mode_real = mode_class
class fan_mode = fan_class
class _ = temperature

-- `M::Value` of an alias, `M::get`, and `new`.
abbrev pub ValueOf : Known → Type 0
ValueOf k = Typed (class k)

abbrev pub get : (k : Known) → Message → Option (ValueOf k)
get k msg = Convert.get (value_type (class k)) (id k) msg

abbrev pub new : (k : Known) → ValueOf k → Message
new k v = Convert.to_message (value_type (class k)) (id k) v
