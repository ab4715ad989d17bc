-- ===== src/Pretty.antt =====
-- protocol/src/pretty.rs: a packet as text, by the codes of its characters.
pub mod Plain
pub mod Uncolored
pub mod Digits
use Prim.Native.Char.{code}
use Prim.Native.String.{String}
use samsung_nasa.Base.{
  ℕ, zero, suc, ◌+◌, ◌/◌, ◌%◌, ◌==◌, ltb, Bool, true, false, not, ◌||◌, if◌then◌else◌, List, [],
  ◌∷◌, ◌++◌, Result, ok, err, panic,
}
use samsung_nasa.Packet.Address
use samsung_nasa.Packet.Address.{Address}
use samsung_nasa.Packet.Address.Text.{display, hex_digit}
use samsung_nasa.Packet.PacketInfo.{PacketInfo}
use samsung_nasa.Packet.PacketType
use samsung_nasa.Packet.PacketType.{PacketType}
use samsung_nasa.Packet.DataType
use samsung_nasa.Packet.DataType.{DataType}
use samsung_nasa.Packet.Value.{Value, Message, enum_value, variable_value, long_variable_value}
use samsung_nasa.Packet.Types.{Packet, Payload, messages, structure}
use samsung_nasa.Client.Transport.{Item, IoError, read}

abbrev pub codes : String → List ℕ
codes String.[] = []
codes (String.◌∷◌ c s) = code c ∷ codes s

-- `{}` of an unsigned number, with room for ten digits, as many as a u32 has.
unfoldable pub digits : ℕ → ℕ → List ℕ
digits zero n = []
digits (suc room) n =
    let front = digits room (n / 10) in (if ltb n 10 then [] else front) ++ ((48 + n % 10) ∷ [])

unfoldable pub decimal : ℕ → List ℕ
decimal n = digits 10 n

-- `{:02x}`, `{:04x}` and `{:08x}` of a u8, a u16 and a u32.
unfoldable pub hex2 : ℕ → List ℕ
hex2 n = hex_digit (n / 16 % 16) ∷ hex_digit (n % 16) ∷ []

unfoldable pub hex4 : ℕ → List ℕ
hex4 n = hex2 (n / 256) ++ hex2 n

unfoldable pub hex8 : ℕ → List ℕ
hex8 n = hex4 (n / 65536) ++ hex4 n

-- `{:x}` of a u8, and `{:x?}` of a list of them.
unfoldable pub hex : ℕ → List ℕ
hex n = if ltb n 16 then hex_digit n ∷ [] else hex2 n

unfoldable pub hex_rest : List ℕ → List ℕ
hex_rest [] = codes "]"
hex_rest (n ∷ ns) = codes ", " ++ (hex n ++ hex_rest ns)

unfoldable pub hex_list : List ℕ → List ℕ
hex_list [] = codes "[]"
hex_list (n ∷ ns) = codes "[" ++ (hex n ++ hex_rest ns)

-- The `{:?}` of the enums.
abbrev pub data_type_name : DataType → String
data_type_name DataType.undefined = "Undefined"
data_type_name DataType.read = "Read"
data_type_name DataType.write = "Write"
data_type_name DataType.request = "Request"
data_type_name DataType.notification = "Notification"
data_type_name DataType.response = "Response"
data_type_name DataType.ack = "Ack"
data_type_name DataType.nack = "Nack"

abbrev pub packet_type_name : PacketType → String
packet_type_name PacketType.stand_by = "StandBy"
packet_type_name PacketType.normal = "Normal"
packet_type_name PacketType.gathering = "Gathering"
packet_type_name PacketType.install = "Install"
packet_type_name PacketType.download = "Download"

-- An escape sequence: the character ESC and what follows it.
abbrev pub escape : String → List ℕ
escape s = 27 ∷ codes s

abbrev pub data_type_color : DataType → List ℕ
data_type_color DataType.undefined = []
data_type_color DataType.read = escape "[1;32m"
data_type_color DataType.write = escape "[1;33m"
data_type_color DataType.request = escape "[1;95m"
data_type_color DataType.notification = escape "[2m"
data_type_color DataType.response = escape "[1;36m"
data_type_color DataType.ack = escape "[1;34m"
data_type_color DataType.nack = escape "[1;31m"

-- `color`
abbrev pub color : Bool → List ℕ → List ℕ
color use_color s = if use_color then s else []

-- `writeln!` of a line, if there is a reason for it.
abbrev pub line_if : Bool → List ℕ → List ℕ
line_if b text = if b then text ++ codes "\n" else []

unfoldable pub print_info : PacketInfo → List ℕ
print_info info =
    line_if (not (info.info == 1)) (codes "  * packet_info: INFO BIT NOT SET")
    ++ (line_if (not (info.reserved == 0)) (codes "  * packet_info: RESERVED BITS NOT CLEAR")
        ++ (line_if (not (info.protocol_version == 2))
              (codes "  * protocol_version: NOT 2, is: " ++ decimal info.protocol_version)
            ++ line_if (not (info.retry_count == 0))
                (codes "  * retry_count: " ++ decimal info.retry_count)))

abbrev pub print_packet_type : PacketType → List ℕ
print_packet_type PacketType.normal = []
print_packet_type t = codes "  * packet_type: " ++ (codes (packet_type_name t) ++ codes "\n")

unfoldable pub print_value : Value → List ℕ
print_value (enum_value n) = codes "0x" ++ (hex2 n ++ (codes " (" ++ (decimal n ++ codes ")\n")))
print_value (variable_value n) =
    codes "0x" ++ (hex4 n ++ (codes " (" ++ (decimal n ++ codes ")\n")))
print_value (long_variable_value n) =
    codes "0x" ++ (hex8 n ++ (codes " (" ++ (decimal n ++ codes ")\n")))

unfoldable pub print_messages : List Message → List ℕ
print_messages [] = []
print_messages (msg ∷ msgs) =
    codes "  " ++ (hex4 msg.id ++ (codes " => " ++ (print_value msg.value ++ print_messages msgs)))

unfoldable pub print_payload : Payload → List ℕ
print_payload (messages []) = codes "  (empty)\n"
print_payload (messages (msg ∷ msgs)) = print_messages (msg ∷ msgs)
print_payload (structure s) =
    codes "  " ++ (hex4 s.number ++ (codes " => " ++ (hex_list s.contents ++ codes "\n")))

-- What follows the colors.
unfoldable pub print_rest : Packet → List ℕ
print_rest packet =
    codes ": "
    ++ (display packet.source
        ++ (codes " => "
            ++ (display packet.destination
                ++ (codes "\n"
                    ++ (print_info packet.packet_info
                        ++ (print_packet_type packet.packet_type
                            ++ (print_payload packet.payload ++ codes "\n")))))))

-- `pretty_print`, into a string, which takes every write.
unfoldable pub pretty_print : Bool → Packet → List ℕ
pretty_print use_color packet =
    color use_color (data_type_color packet.data_type)
    ++ (codes (data_type_name packet.data_type)
        ++ (color use_color (escape "[0m")
            ++ (codes " "
                ++ (color use_color (escape "[90m")
                    ++ (codes "#"
                        ++ (decimal packet.packet_number
                            ++ (color use_color (escape "[0m") ++ print_rest packet)))))))
