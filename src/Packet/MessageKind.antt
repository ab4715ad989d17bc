-- ===== src/Packet/MessageKind.antt =====
-- `MessageId::kind`: bits 9 and 10 of a message's number say how its value is laid out.
use samsung_nasa.Base.{
  ℕ, zero, suc, ◌/◌, ◌%◌, ◌^◌, ◌<◌, bit_and, ◌≡◌, refl, arith, Option, none, some, ◌==◌,
  if◌then◌else◌,
}
use samsung_nasa.Bits.Fields.{and_shifted, and-three}

-- `MessageId(pub u16)`.
abbrev pub MessageId : Type 0
MessageId = ℕ

pub data MessageKind : Type 0 where
  enum variable long_variable structure : MessageKind

pub MessageKind-discrete : Discrete MessageKind
MessageKind-discrete = hlevel

-- `none` is the arm `unreachable!()`.
unfoldable pub kind : MessageId → Option MessageKind
kind id =
    let bits = bit_and id 0x0600 / 2 ^ 9 in
    if bits == 0
    then some enum
    else if bits == 1
    then some variable
    else if bits == 2
    then some long_variable
    else if bits == 3
    then some structure
    else none

-- Two bits, four kinds: the last arm is not reached.
unfoldable pub kind_of_bits : ℕ → MessageKind
kind_of_bits zero = enum
kind_of_bits (suc zero) = variable
kind_of_bits (suc (suc zero)) = long_variable
kind_of_bits (suc (suc (suc _))) = structure

kind_ladder :
    (b : ℕ)
    → b < 4
    → ◌≡◌ {A = Option MessageKind}
        (if b == 0
          then some enum
          else if b == 1
          then some variable
          else if b == 2
          then some long_variable
          else if b == 3
          then some structure
          else none)
        (some (kind_of_bits b))
unfolding kind_of_bits
kind_ladder zero h = refl
kind_ladder (suc zero) h = refl
kind_ladder (suc (suc zero)) h = refl
kind_ladder (suc (suc (suc zero))) h = refl
kind_ladder (suc (suc (suc (suc b)))) h = absurd (omega arith)

-- The kind of every number is known, and is read off bits 9 and 10.
pub kind_total : (id : MessageId) → kind id ≡ some (kind_of_bits (id / 512 % 4))
unfolding kind
kind_total id = rw bits (kind_ladder (id / 512 % 4) (omega arith))
  where
    bits : bit_and id 0x0600 / 2 ^ 9 ≡ id / 512 % 4
    bits = omega (arith, and_shifted 9 id 3, and-three (id / 2 ^ 9))
