-- ===== src/Examples/Bus.antt =====
-- From one end of the bus to the other, on a concrete packet.
use samsung_nasa.Base.{ℕ, List, [], ◌∷◌, ◌++◌, ◌≡◌, refl, arith, ok, true}
use samsung_nasa.Crates.{plain}
use samsung_nasa.Crc.{crc16, crc_loop, crc_byte, crc_bits, crc_bit}
use samsung_nasa.Packet.PacketInfo
use samsung_nasa.Packet.Encoding.{encode}
use samsung_nasa.Packet.Serialize.Frame.{wire}
use samsung_nasa.Client.Transport.{packet_stream, received, bytes, closed, unexpected_eof}
use samsung_nasa.Client.Transport.Wire.{send_all, packet_stream-send_all, serialize_frame-wire}
use samsung_nasa.Busd.{recv_stream}
use samsung_nasa.Packet.Address
use samsung_nasa.Packet.Address.{Address}
use samsung_nasa.Pretty.{pretty_print}
use samsung_nasa.Monitor.{contains, failed, monitor}
use samsung_nasa.Monitor.Shown.{monitor-send_all}
use samsung_nasa.Busd.Relay.{recv_stream-send_all}
use samsung_nasa.Examples.{request, request_bytes, request-IsValid}

abbrev first_read : List ℕ
first_read = 0xfd ∷ 0xf8 ∷ 0xef ∷ 0x7c ∷ 0x32 ∷ 0 ∷ 21 ∷ 0x80 ∷ 0x10 ∷ []

abbrev second_read : List ℕ
second_read =
    0x10 ∷ 0x20 ∷ 0x00 ∷ 0x00 ∷ 0xc0 ∷ 0x13 ∷ 0x07 ∷ 0x02 ∷ 0x40 ∷ 0x00 ∷ 0x01 ∷ 0x42 ∷ 0x01 ∷ 0x00
    ∷ 0xd7 ∷ 0xae ∷ 0x8f ∷ 0x34 ∷ []

request-encode : encode request ≡ request_bytes
unfolding PacketInfo.to_byte
request-encode = refl

request-wire : wire (encode request) ≡ first_read ++ second_read
unfolding crc16 crc_loop crc_byte crc_bits crc_bit PacketInfo.to_byte
request-wire = refl

send_all-request : send_all plain (request ∷ []) ≡ ok (first_read ++ second_read)
unfolding send_all
send_all-request = rw (serialize_frame-wire plain request request-IsValid, request-wire) refl

-- A frame that two reads cut in the middle of an address.
packet_stream-send_all_example :
    packet_stream plain (bytes first_read ∷ bytes second_read ∷ closed ∷ []) ≡ received request ∷ []
packet_stream-send_all_example =
    packet_stream-send_all plain (request ∷ []) (first_read ∷ second_read ∷ [])
      (request-IsValid, tt) send_all-request ((λ h. ground arith), ((λ h. ground arith), tt))

-- The same reads at the daemon.
recv_stream-send_all_example :
    (recv_stream {E = ⊥} (packet_stream plain (bytes first_read ∷ bytes second_read ∷ closed ∷ []))
      ≡ ok (record { arrived = request ∷ []; ended = true }))
    × (send_all plain (request ∷ []) ≡ ok (first_read ++ second_read))
recv_stream-send_all_example =
    recv_stream-send_all plain {E = ⊥} (request ∷ []) (first_read ∷ second_read ∷ [])
      (request-IsValid, tt) send_all-request ((λ h. ground arith), ((λ h. ground arith), tt))

-- The same reads at a monitor that ignores some other address.
abbrev other : Address
other = record { class = 0x62; channel = 0; address = 0 }

monitor-send_all_example :
    monitor 2 true
      (other ∷ [])
      (packet_stream plain (bytes first_read ∷ bytes second_read ∷ closed ∷ []))
    ≡ (pretty_print true request ++ [], failed unexpected_eof)
unfolding contains Address.eq
monitor-send_all_example =
    monitor-send_all plain true (other ∷ []) (request ∷ []) (first_read ∷ second_read ∷ []) 2
      (request-IsValid, tt) send_all-request ((λ h. ground arith), ((λ h. ground arith), tt))
      (omega arith)
