-- ===== src/Messages/Convert.antt =====
-- protocol/src/message/convert.rs: messages whose values have a type.
use samsung_nasa.Base.{ℕ, Option, none, some, ◌⊎◌, inl, inr, ◌==◌, if◌then◌else◌}
use samsung_nasa.Packet.MessageKind.{MessageId}
use samsung_nasa.Packet.Value.{
  Value, Message, enum_value, variable_value, long_variable_value, WrongValueKind, expect_u8,
  expect_u16, expect_u32,
}

-- `ValueRepr`: u8, u16 and u32 are all seen as numbers, so that the interface is a value here.
pub record ValueRepr : Type 0 where
  pub try_from_value : Value → WrongValueKind ⊎ ℕ
  pub to_value : ℕ → Value

abbrev pub u8_repr : ValueRepr
u8_repr = record { try_from_value = expect_u8; to_value = enum_value }

abbrev pub u16_repr : ValueRepr
u16_repr = record { try_from_value = expect_u16; to_value = variable_value }

abbrev pub u32_repr : ValueRepr
u32_repr = record { try_from_value = expect_u32; to_value = long_variable_value }

-- `ValueType`, with the type of its errors.
pub record ValueType (T : Type 0) : Type 1 where
  pub Err : Type 0
  pub repr : ValueRepr
  pub try_from_repr : ℕ → Err ⊎ T
  pub to_repr : T → ℕ

-- `Result::ok`.
abbrev pub to_option : {E A : Type 0} → E ⊎ A → Option A
to_option (inl _) = none
to_option (inr a) = some a

module _ {T : Type 0} (type : ValueType T) where
  -- The methods that `ValueType` provides.
  unfoldable pub try_from_value : Value → Option T
  try_from_value value = elim (to_option (type.repr.try_from_value value)) [
    | none ↦ none
    | some repr ↦ to_option (type.try_from_repr repr)
  ]

  unfoldable pub to_value : T → Value
  to_value v = type.repr.to_value (type.to_repr v)

  -- `TypedMessage::get` of the message with the number `id`.
  unfoldable pub get : MessageId → Message → Option T
  get id msg =
      if msg.id == id
      then elim (to_option (type.repr.try_from_value msg.value)) [
        | none ↦ none
        | some repr ↦ to_option (type.try_from_repr repr)
      ]
      else none

  -- `TypedMessage::to_message`.
  unfoldable pub to_message : MessageId → T → Message
  unfolding to_value
  to_message id v = record { id = id; value = to_value v }
