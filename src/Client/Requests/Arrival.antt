-- ===== src/Client/Requests/Arrival.antt =====
-- A request arrives as it was built, at every try.
use samsung_nasa.Crates.{Crates}
use samsung_nasa.Packet.Address
use samsung_nasa.Packet.Address.{Address}
use samsung_nasa.Packet.DataType.{DataType}
use samsung_nasa.Packet.Types.{Packet}
