-- ===== src/Client/Transport.antt =====
-- client/src/transport.rs: packets out of and into a byte stream.
pub mod Stream
pub mod Wire
use samsung_nasa.Base.{
  ℕ, List, [], ◌∷◌, ◌++◌, Option, none, some, Result, ok, err, panic, ◌>>=◌, Bool, if◌then◌else◌,
  map_err,
}
use samsung_nasa.Crates.{Crates}
use samsung_nasa.Frame.{FrameParser, FrameError, max_frame_size, feed}
use samsung_nasa.Frame
use samsung_nasa.Packet.Error.{PacketError, SerializePacketError}
use samsung_nasa.Packet.Types.{Packet}
use samsung_nasa.Packet.Parse.{parse}
use samsung_nasa.Packet.Serialize

-- `ReadPacketError`.
pub data ReadPacketError : Type 0 where
  frame : FrameError → ReadPacketError
  packet : PacketError → ReadPacketError

-- What the operating system answers to one `read` of at most 1024 bytes.
pub data Read : Type 0 where
  bytes : List ℕ → Read
  closed : Read
  failed : Read

-- What the packet stream yields: a packet, a bad frame or packet, or an i/o error. `crashed` is
-- no item: it stands for a panic in the code that reads.
pub data Item : Type 0 where
  received : Packet → Item
  bad : ReadPacketError → Item
  io_error : Item
  crashed : Item

-- `serialize_frame`, into a buffer of zeros that is cut to the bytes written.
unfoldable pub serialize_frame : Crates → Packet → Result SerializePacketError (List ℕ)
serialize_frame crates p = do
  (n, buffer) ← Serialize.serialize_frame crates p (crates.zeroed max_frame_size)
  ok (crates.truncate n buffer)

-- `SendPacketError`.
pub data SendPacketError : Type 0 where
  serialize : SerializePacketError → SendPacketError
  io : SendPacketError

-- `TransportSender::send`: the bytes that it writes, where `written` says whether `write_all`
-- succeeds.
unfoldable pub send : Crates → Packet → Bool → Result SendPacketError (List ℕ)
send crates p written = do
  xs ← map_err serialize (serialize_frame crates p)
  if written then ok xs else err SendPacketError.io

module _ (crates : Crates) where
  -- What one report of the parser yields, in front of the items that follow.
  unfoldable pub yields_packet : Result PacketError Packet → List Item → List Item
  yields_packet (ok p) rest = received p ∷ rest
  yields_packet (err e) rest = bad (packet e) ∷ rest
  yields_packet panic rest = crashed ∷ []

  unfoldable pub yields : Result FrameError (Option (List ℕ)) → List Item → List Item
  unfolding yields_packet
  yields (ok none) rest = rest
  yields (ok (some got)) rest = yields_packet (parse crates got) rest
  yields (err e) rest = bad (frame e) ∷ rest
  yields panic rest = crashed ∷ []

  -- `for byte in data`, and then the reads that follow; a read of no bytes ends the stream, and so
  -- does an error, which is yielded.
  unfoldable pub packet_stream_bytes : (FrameParser → List Item) → FrameParser → List ℕ → List Item
  packet_stream_bytes next p [] = next p
  packet_stream_bytes next p (byte ∷ rest) =
      yields (feed crates p byte).1 (packet_stream_bytes next (feed crates p byte).0 rest)

  unfoldable pub packet_stream_from : List Read → FrameParser → List Item
  packet_stream_from [] p = []
  packet_stream_from (bytes [] ∷ reads) p = []
  packet_stream_from (bytes (b ∷ bs) ∷ reads) p =
      packet_stream_bytes (packet_stream_from reads) p (b ∷ bs)
  packet_stream_from (closed ∷ reads) p = []
  packet_stream_from (failed ∷ reads) p = io_error ∷ []

  unfoldable pub packet_stream : List Read → List Item
  unfolding packet_stream_from
  packet_stream reads = packet_stream_from reads Frame.new

-- An i/o error of `try_read` and `read`: the stream's, or its end.
pub data IoError : Type 0 where
  io unexpected_eof : IoError

-- `TransportReceiver::try_read`, on the items that are still to come.
unfoldable pub try_read : List Item → Result IoError (Result ReadPacketError Packet) × List Item
try_read [] = (err unexpected_eof, [])
try_read (received p ∷ rest) = (ok (ok p), rest)
try_read (bad e ∷ rest) = (ok (err e), rest)
try_read (io_error ∷ rest) = (err io, rest)
try_read (crashed ∷ rest) = (panic, rest)

-- `TransportReceiver::read`: it tries again after a bad frame or packet, which is logged. Each try
-- takes one item.
unfoldable pub read : List Item → Result IoError Packet × List Item
unfolding try_read
read [] = (err unexpected_eof, [])
read (item ∷ rest) =
    let again = read rest in
    elim (try_read (item ∷ rest)).0 [
      | ok tried ↦ elim tried [ ok p ↦ (ok p, rest) | err e ↦ again | panic ↦ (panic, rest) ]
      | err e ↦ (err e, rest)
      | panic ↦ (panic, rest)
    ]
