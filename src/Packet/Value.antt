-- ===== src/Packet/Value.antt =====
-- `Value` and `Message`: what a message says, in one of three widths.
use samsung_nasa.Base.{ℕ, ◌⊎◌, inl, inr}
use samsung_nasa.Bytes.{IsByte, IsU16, IsU32}
use samsung_nasa.Packet.MessageKind.{MessageId, MessageKind, enum, variable, long_variable}

pub data Value : Type 0 where
  enum_value : ℕ → Value
  variable_value : ℕ → Value
  long_variable_value : ℕ → Value

pub record Message : Type 0 where
  pub id : MessageId
  pub value : Value

-- `Value::kind`.
unfoldable pub kind : Value → MessageKind
kind (enum_value _) = enum
kind (variable_value _) = variable
kind (long_variable_value _) = long_variable

-- `WrongValueKind`.
pub record WrongValueKind : Type 0 where
  pub expected : MessageKind
  pub actual : MessageKind

unfoldable pub wrong_value : {T : Type 0} → Value → MessageKind → WrongValueKind ⊎ T
unfolding kind
wrong_value v expected = inl (record { expected = expected; actual = kind v })

unfoldable pub expect_u8 : Value → WrongValueKind ⊎ ℕ
unfolding wrong_value
expect_u8 (enum_value n) = inr n
expect_u8 (variable_value n) = wrong_value (variable_value n) enum
expect_u8 (long_variable_value n) = wrong_value (long_variable_value n) enum

unfoldable pub expect_u16 : Value → WrongValueKind ⊎ ℕ
unfolding wrong_value
expect_u16 (enum_value n) = wrong_value (enum_value n) enum
expect_u16 (variable_value n) = inr n
expect_u16 (long_variable_value n) = wrong_value (long_variable_value n) enum

unfoldable pub expect_u32 : Value → WrongValueKind ⊎ ℕ
unfolding wrong_value
expect_u32 (enum_value n) = wrong_value (enum_value n) enum
expect_u32 (variable_value n) = wrong_value (variable_value n) enum
expect_u32 (long_variable_value n) = inr n

-- The widths u8, u16 and u32 of the values.
abbrev pub IsInRange : Value → Type 0
IsInRange (enum_value n) = IsByte n
IsInRange (variable_value n) = IsU16 n
IsInRange (long_variable_value n) = IsU32 n
