-- ===== src/Examples/Format.antt =====
-- The packet format and the packet stream on concrete packets.
use samsung_nasa.Base.{ℕ, List, [], ◌∷◌, ◌++◌, ◌≡◌, ◌↔◌, arith, some, ok, err, panic}
use samsung_nasa.Crates.{plain}
use samsung_nasa.Frame.{bad_frame_end}
use samsung_nasa.Frame
use samsung_nasa.Frame.Run.{reports}
use samsung_nasa.Packet.Error.{buffer_too_short}
use samsung_nasa.Packet.PacketInfo
use samsung_nasa.Packet.PacketInfo.{
  PacketInfo, from_byte, to_byte, from_byte-to_byte, to_byte-from_byte,
}
use samsung_nasa.Packet.MessageKind
use samsung_nasa.Packet.MessageKind.{kind_of_bits, kind_total}
use samsung_nasa.Packet.Encoding.{encode}
use samsung_nasa.Packet.RoundTrip.{as_received, parse-encode}
use samsung_nasa.Packet.Parse.{parse}
use samsung_nasa.Packet.Panic.{HasUnknownDataType, parse-eq-panic}
use samsung_nasa.Packet.Serialize
use samsung_nasa.Packet.Serialize.Frame.{serialize_frame_lem}
use samsung_nasa.Client.Transport.{packet_stream, bytes, closed}
use samsung_nasa.Client.Transport.Stream.{items, packet_stream-items}
use samsung_nasa.Packet.Address.Text.{display, from_str, from_str-display}
use samsung_nasa.Examples.{controller, request, request-IsValid}

parse-encode_example : parse plain (encode request ++ (1 ∷ 2 ∷ [])) ≡ ok (as_received request)
parse-encode_example = parse-encode plain request (1 ∷ 2 ∷ []) request-IsValid tt

serialize_frame_lem_example :
    Serialize.serialize_frame plain request (0 ∷ 0 ∷ 0 ∷ 0 ∷ []) ≡ err buffer_too_short
serialize_frame_lem_example = serialize_frame_lem plain request (0 ∷ 0 ∷ 0 ∷ 0 ∷ []) request-IsValid

-- A header with the packet type 1 and the data type 8.
abbrev unknown : List ℕ
unknown = 0 ∷ 0 ∷ 0 ∷ 0 ∷ 0 ∷ 0 ∷ 0xc0 ∷ 0x18 ∷ []

parse-eq-panic_example : (parse plain unknown ≡ panic) ↔ HasUnknownDataType unknown
parse-eq-panic_example = parse-eq-panic plain unknown (
  omega arith,
  (
    omega arith,
    (omega arith, (omega arith, (omega arith, (omega arith, (omega arith, (omega arith, tt)))))),
  ),
)

-- It is indeed a panic.
parse-unknown : parse plain unknown ≡ panic
parse-unknown = parse-eq-panic_example.1 (omega arith, omega arith)

to_byte-from_byte_example :
    PacketInfo.IsValid (from_byte plain 0x5d) × (to_byte (from_byte plain 0x5d) ≡ 0xd8)
to_byte-from_byte_example = to_byte-from_byte plain 0x5d (omega arith)

kind_total_example : MessageKind.kind 0x4201 ≡ some (kind_of_bits 1)
kind_total_example = kind_total 0x4201

packet_stream-items_example :
    packet_stream plain (bytes (1 ∷ 2 ∷ []) ∷ bytes (3 ∷ []) ∷ closed ∷ [])
    ≡ items plain (reports plain Frame.new (1 ∷ 2 ∷ 3 ∷ []))
packet_stream-items_example =
    packet_stream-items plain ((1 ∷ 2 ∷ []) ∷ (3 ∷ []) ∷ [])
      ((λ h. ground arith), ((λ h. ground arith), tt))

from_str-display_example : from_str (display controller) ≡ some controller
from_str-display_example = from_str-display controller (omega arith, omega arith, omega arith)
