-- ===== src/Packet/Address/Text.antt =====
-- The text of an address, in protocol/src/packet.rs: `Display` and `FromStr`. A text is seen as the
-- list of its bytes.
use samsung_nasa.Base.{
  ℕ, ◌+◌, ◌-◌, ◌*◌, ◌/◌, ◌%◌, ◌<◌, ◌≡◌, ap, arith, List, [], ◌∷◌, Option, none, some, Bool, true,
  false, ◌&&◌, ◌||◌, not, ◌==◌, ltb, leb, if◌then◌else◌,
}
use samsung_nasa.Bytes.{IsByte}
use samsung_nasa.Packet.Address.{Address, IsValid}

-- `{:02x}`: two digits, in lower case.
abbrev pub hex_digit : ℕ → ℕ
hex_digit d = if ltb d 10 then 48 + d else 87 + d

unfoldable pub display : Address → List ℕ
display a =
    hex_digit (a.class / 16)
    ∷ hex_digit (a.class % 16)
    ∷ 46
    ∷ hex_digit (a.channel / 16)
    ∷ hex_digit (a.channel % 16)
    ∷ 46
    ∷ hex_digit (a.address / 16)
    ∷ hex_digit (a.address % 16)
    ∷ []

-- `char::to_digit(16)`.
unfoldable pub to_digit : ℕ → Option ℕ
to_digit c =
    if leb 48 c && leb c 57
    then some (c - 48)
    else if leb 97 c && leb c 102
    then some (c - 87)
    else if leb 65 c && leb c 70
    then some (c - 55)
    else none

-- `u8::from_str_radix(s, 16)` on two bytes: a `+` in front is a sign.
unfoldable pub parse_hex : ℕ → ℕ → Option ℕ
parse_hex a b = if a == 43 then to_digit b else elim (to_digit a) [
  | none ↦ none
  | some high ↦ elim (to_digit b) [ none ↦ none | some low ↦ some (high * 16 + low) ]
]

abbrev pub is_ascii : List ℕ → Bool
is_ascii [] = true
is_ascii (c ∷ cs) = ltb c 128 && is_ascii cs

-- `none` is `InvalidAddress`.
unfoldable pub parse_parts : List ℕ → Option Address
parse_parts (a ∷ b ∷ dot ∷ c ∷ d ∷ dot' ∷ e ∷ f ∷ []) =
    if not (dot == 46) || not (dot' == 46) then none else elim (parse_hex a b) [
      | none ↦ none
      | some class ↦ elim (parse_hex c d) [
        | none ↦ none
        | some channel ↦ elim (parse_hex e f) [
          | none ↦ none
          | some address ↦ some (record { class = class; channel = channel; address = address })
        ]
      ]
    ]
parse_parts _ = none

unfoldable pub from_str : List ℕ → Option Address
from_str s = if not (is_ascii s) then none else parse_parts s

to_digit-hex_digit : (d : ℕ) → d < 16 → to_digit (hex_digit d) ≡ some d
unfolding to_digit
to_digit-hex_digit d h = ground arith

hex_digit-plus : (d : ℕ) → d < 16 → (hex_digit d == 43) ≡ false
hex_digit-plus d h = ground arith

hex_digit-ascii : (d : ℕ) → d < 16 → ltb (hex_digit d) 128 ≡ true
hex_digit-ascii d h = ground arith

parse_hex-digits : (n : ℕ) → IsByte n → parse_hex (hex_digit (n / 16)) (hex_digit (n % 16)) ≡ some n
unfolding parse_hex
parse_hex-digits n h =
    rw
      (
        parse_hex,
        hex_digit-plus (n / 16) (omega arith),
        to_digit-hex_digit (n / 16) (omega arith),
        to_digit-hex_digit (n % 16) (omega arith),
      )
      (ap some (omega arith))

display-ascii : (a : Address) → IsValid a → is_ascii (display a) ≡ true
unfolding display
display-ascii a (h, h', h'') = rw (
  hex_digit-ascii (a.class / 16) (omega arith),
  hex_digit-ascii (a.class % 16) (omega arith),
  hex_digit-ascii (a.channel / 16) (omega arith),
  hex_digit-ascii (a.channel % 16) (omega arith),
  hex_digit-ascii (a.address / 16) (omega arith),
  hex_digit-ascii (a.address % 16) (omega arith),
)

parse_parts-display : (a : Address) → IsValid a → parse_parts (display a) ≡ some a
unfolding display parse_parts
parse_parts-display a (h, h', h'') = rw (
  parse_parts,
  parse_hex-digits a.class h,
  parse_hex-digits a.channel h',
  parse_hex-digits a.address h'',
)

-- The text of an address of bytes, such as 20.00.00, is read back as the address.
pub from_str-display : (a : Address) → IsValid a → from_str (display a) ≡ some a
unfolding from_str
from_str-display a h = rw (from_str, display-ascii a h) (parse_parts-display a h)
