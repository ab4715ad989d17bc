-- ===== src/Messages/RoundTrip.antt =====
-- What is sent as a typed message is a well-formed message, and is read back as the same value.
use samsung_nasa.Base.{ℕ, ◌≡◌, ◌≢◌, refl, sym, ap, ◌∙◌, arith, some, none, ==_iff, ==_false}
use samsung_nasa.Bytes.{IsU16}
use samsung_nasa.Packet.MessageKind
use samsung_nasa.Packet.MessageKind.{MessageKind}
use samsung_nasa.Packet.Value
use samsung_nasa.Packet.Value.{Value, Message, expect_u8, expect_u16, expect_u32}
use samsung_nasa.Packet.Types.{IsMessage}
use samsung_nasa.Messages.Convert
use samsung_nasa.Messages.Types.RoundTrip.{
  power_setting_to_u8-IsByte, operation_mode_to_u8-IsByte, fan_setting_to_u8-IsByte,
  power_setting_from_u8-to_u8, operation_mode_from_u8-to_u8, fan_setting_from_u8-to_u8,
}
use samsung_nasa.Messages.{
  Class, temperature, limit, power_class, mode_class, fan_class, Typed, value_type, Known, id,
  class, ValueOf, get, new,
}

-- A temperature is a u16; the enums have no other values.
abbrev pub InRange : (c : Class) → Typed c → Type 0
InRange temperature c = IsU16 c.decis
InRange limit c = IsU16 c.decis
InRange power_class _ = Unit {0}
InRange mode_class _ = Unit {0}
InRange fan_class _ = Unit {0}

-- The kind that the values of a class are sent with.
abbrev kind_of : Class → MessageKind
kind_of temperature = MessageKind.variable
kind_of limit = MessageKind.long_variable
kind_of _ = MessageKind.enum

to_value-kind :
    (c : Class) (v : Typed c) → Value.kind (Convert.to_value (value_type c) v) ≡ kind_of c
unfolding Convert.to_value Value.kind
to_value-kind temperature v = refl
to_value-kind limit v = refl
to_value-kind power_class v = refl
to_value-kind mode_class v = refl
to_value-kind fan_class v = refl

to_value-IsInRange :
    (c : Class) (v : Typed c) → InRange c v → Value.IsInRange (Convert.to_value (value_type c) v)
unfolding Convert.to_value
to_value-IsInRange temperature v h = h
to_value-IsInRange limit v h = omega arith
to_value-IsInRange power_class v h = power_setting_to_u8-IsByte v
to_value-IsInRange mode_class v h = operation_mode_to_u8-IsByte v
to_value-IsInRange fan_class v h = fan_setting_to_u8-IsByte v

try_from_value-to_value :
    (c : Class) (v : Typed c)
    → InRange c v
    → Convert.try_from_value (value_type c) (Convert.to_value (value_type c) v) ≡ some v
unfolding Convert.to_value Convert.try_from_value expect_u8 expect_u16 expect_u32
try_from_value-to_value temperature v h = refl
try_from_value-to_value limit v h = ap (λ (n : ℕ). some (record { decis = n })) (omega arith)
try_from_value-to_value power_class v h = ap Convert.to_option (power_setting_from_u8-to_u8 v)
try_from_value-to_value mode_class v h = ap Convert.to_option (operation_mode_from_u8-to_u8 v)
try_from_value-to_value fan_class v h = ap Convert.to_option (fan_setting_from_u8-to_u8 v)

id-kind : (k : Known) → MessageKind.kind (id k) ≡ some (kind_of (class k))
unfolding MessageKind.kind
id-kind Known.set_temp = refl
id-kind Known.current_temp = refl
id-kind Known.modified_current_temp = refl
id-kind Known.eva_in_temp = refl
id-kind Known.eva_out_temp = refl
id-kind Known.outdoor_temp = refl
id-kind Known.outdoor_discharge_temp = refl
id-kind Known.outdoor_exchanger_temp = refl
id-kind Known.cool_high_temp_limit = refl
id-kind Known.cool_low_temp_limit = refl
id-kind Known.heat_high_temp_limit = refl
id-kind Known.heat_low_temp_limit = refl
id-kind Known.power = refl
id-kind Known.mode = refl
id-kind Known.mode_real = refl
id-kind Known.fan_mode = refl
id-kind Known.unknown_temp_4202 = refl
id-kind Known.unknown_temp_42df = refl
id-kind Known.unknown_temp_42e0 = refl
id-kind Known.unknown_temp_42e1 = refl
id-kind Known.unknown_temp_42e2 = refl
id-kind Known.unknown_temp_42e3 = refl
id-kind Known.unknown_temp_42e4 = refl
id-kind Known.unknown_temp_8254 = refl
id-kind Known.unknown_temp_8280 = refl
id-kind Known.unknown_temp_82a1 = refl
id-kind Known.unknown_temp_82e3 = refl
id-kind Known.unknown_temp_82e5 = refl
id-kind Known.unknown_temp_82e6 = refl
id-kind Known.unknown_temp_82eb = refl
id-kind Known.unknown_temp_82ec = refl

id-IsU16 : (k : Known) → IsU16 (id k)
id-IsU16 Known.set_temp = omega arith
id-IsU16 Known.current_temp = omega arith
id-IsU16 Known.modified_current_temp = omega arith
id-IsU16 Known.eva_in_temp = omega arith
id-IsU16 Known.eva_out_temp = omega arith
id-IsU16 Known.outdoor_temp = omega arith
id-IsU16 Known.outdoor_discharge_temp = omega arith
id-IsU16 Known.outdoor_exchanger_temp = omega arith
id-IsU16 Known.cool_high_temp_limit = omega arith
id-IsU16 Known.cool_low_temp_limit = omega arith
id-IsU16 Known.heat_high_temp_limit = omega arith
id-IsU16 Known.heat_low_temp_limit = omega arith
id-IsU16 Known.power = omega arith
id-IsU16 Known.mode = omega arith
id-IsU16 Known.mode_real = omega arith
id-IsU16 Known.fan_mode = omega arith
id-IsU16 Known.unknown_temp_4202 = omega arith
id-IsU16 Known.unknown_temp_42df = omega arith
id-IsU16 Known.unknown_temp_42e0 = omega arith
id-IsU16 Known.unknown_temp_42e1 = omega arith
id-IsU16 Known.unknown_temp_42e2 = omega arith
id-IsU16 Known.unknown_temp_42e3 = omega arith
id-IsU16 Known.unknown_temp_42e4 = omega arith
id-IsU16 Known.unknown_temp_8254 = omega arith
id-IsU16 Known.unknown_temp_8280 = omega arith
id-IsU16 Known.unknown_temp_82a1 = omega arith
id-IsU16 Known.unknown_temp_82e3 = omega arith
id-IsU16 Known.unknown_temp_82e5 = omega arith
id-IsU16 Known.unknown_temp_82e6 = omega arith
id-IsU16 Known.unknown_temp_82eb = omega arith
id-IsU16 Known.unknown_temp_82ec = omega arith

-- Every known message with a value in range can be sent: its number announces the kind of its
-- value, and the value has that width.
pub new-IsMessage : (k : Known) (v : ValueOf k) → InRange (class k) v → IsMessage (new k v)
unfolding Convert.to_message
new-IsMessage k v h = (
  id-IsU16 k,
  to_value-IsInRange (class k) v h,
  id-kind k ∙ ap some (sym (to_value-kind (class k) v)),
)

-- A known message, with a value in range, is read back by its own type as that value, and by
-- no type with another number.
pub get-new :
    (k j : Known) (v : ValueOf k)
    → InRange (class k) v
    → (get k (new k v) ≡ some v) × (id j ≢ id k → get j (new k v) ≡ none)
unfolding Convert.get Convert.to_message Convert.try_from_value
get-new k j v h = (
  rw ((==_iff (id k) (id k)).1 refl) (try_from_value-to_value (class k) v h),
  λ ne. rw (==_false (id k) (id j) (λ e. ne (sym e))),
)
