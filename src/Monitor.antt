-- ===== src/Monitor.antt =====
-- monitor/src/main.rs: the monitor, which prints the packets that come in.
pub mod Shown
use samsung_nasa.Base.{
  ℕ, zero, suc, Bool, false, ◌||◌, if◌then◌else◌, List, [], ◌∷◌, ◌++◌, ok, err, panic,
}
use samsung_nasa.Packet.Address
use samsung_nasa.Packet.Address.{Address}
use samsung_nasa.Packet.Types.{Packet}
use samsung_nasa.Pretty.{pretty_print}
use samsung_nasa.Client.Transport.{Item, IoError, read}

-- `ignore.contains`
unfoldable pub contains : List Address → Address → Bool
contains [] address = false
contains (a ∷ rest) address = Address.eq a address || contains rest address

-- How `monitor` comes to an end: by an error of a read, by a panic, or out of fuel.
pub data End : Type 0 where
  failed : IoError → End
  crashed out_of_fuel : End

-- The body of the loop behind a read that gave a packet: what the loop writes from there on.
unfoldable pub print_packet : Bool → List Address → Packet → List ℕ × End → List ℕ × End
print_packet use_color ignore packet rest =
    if contains ignore packet.source || contains ignore packet.destination
    then rest
    else (pretty_print use_color packet ++ rest.0, rest.1)

-- `monitor`, on the items that the stream of its receiver yields: what it writes, and its end.
unfoldable pub monitor : ℕ → Bool → List Address → List Item → List ℕ × End
monitor zero use_color ignore items = ([], out_of_fuel)
monitor (suc fuel) use_color ignore items =
    let rest = monitor fuel use_color ignore (read items).1 in
    elim (read items).0 [
      | ok packet ↦ print_packet use_color ignore packet rest
      | err e ↦ ([], failed e)
      | panic ↦ ([], crashed)
    ]
