-- ===== src/Packet/Address.antt =====
-- `Address`: the three bytes that name a device on the bus, and their textual form.
pub mod Text
use samsung_nasa.Base.{ℕ, List, [], ◌∷◌, Option, none, some, Bool, ◌&&◌, ◌==◌}
use samsung_nasa.Bytes.{IsByte}

pub record Address : Type 0 where
  pub class : ℕ
  pub channel : ℕ
  pub address : ℕ

abbrev pub IsValid : Address → Type 0
IsValid a = IsByte a.class × IsByte a.channel × IsByte a.address

-- `==` on addresses, which is derived.
unfoldable pub eq : Address → Address → Bool
eq a b = a.class == b.class && (a.channel == b.channel && a.address == b.address)

unfoldable pub to_bytes : Address → List ℕ
to_bytes a = a.class ∷ a.channel ∷ a.address ∷ []

-- An array of three bytes is a list of three; the shorter ones do not occur.
unfoldable pub from_bytes : List ℕ → Option Address
from_bytes (class ∷ channel ∷ address ∷ []) =
    some (record { class = class; channel = channel; address = address })
from_bytes _ = none
