-- ===== src/Packet/PacketType.antt =====
-- `PacketType`: the high half of a packet's sixth byte but one.
use samsung_nasa.Base.{
  ℕ, zero, suc, ◌≤◌, ◌≡◌, refl, ◌<◌, arith, ◌==◌, if◌then◌else◌, Result, ok, err,
}
use samsung_nasa.Crates.{Crates}
use samsung_nasa.Packet.Error.{PacketError, unknown_packet_type}

pub data PacketType : Type 0 where
  stand_by normal gathering install download : PacketType

pub PacketType-discrete : Discrete PacketType
PacketType-discrete = hlevel

abbrev pub discriminant : PacketType → ℕ
discriminant stand_by = 0
discriminant normal = 1
discriminant gathering = 2
discriminant install = 3
discriminant download = 4

unfoldable pub from_u4 : ℕ → Result PacketError PacketType
from_u4 u =
    if u == 0
    then ok stand_by
    else if u == 1
    then ok normal
    else if u == 2
    then ok gathering
    else if u == 3
    then ok install
    else if u == 4
    then ok download
    else err (unknown_packet_type u)

unfoldable pub to_u4 : Crates → PacketType → ℕ
to_u4 crates t = crates.uint 4 (discriminant t)

pub to_u4-discriminant : (crates : Crates) (t : PacketType) → to_u4 crates t ≡ discriminant t
unfolding to_u4
to_u4-discriminant crates stand_by = crates.uint_lem 4 0 (omega arith)
to_u4-discriminant crates normal = crates.uint_lem 4 1 (omega arith)
to_u4-discriminant crates gathering = crates.uint_lem 4 2 (omega arith)
to_u4-discriminant crates install = crates.uint_lem 4 3 (omega arith)
to_u4-discriminant crates download = crates.uint_lem 4 4 (omega arith)

pub from_u4-discriminant : (t : PacketType) → from_u4 (discriminant t) ≡ ok t
unfolding from_u4
from_u4-discriminant stand_by = refl
from_u4-discriminant normal = refl
from_u4-discriminant gathering = refl
from_u4-discriminant install = refl
from_u4-discriminant download = refl

pub discriminant-lt : (t : PacketType) → discriminant t < 5
discriminant-lt stand_by = omega arith
discriminant-lt normal = omega arith
discriminant-lt gathering = omega arith
discriminant-lt install = omega arith
discriminant-lt download = omega arith

pub from_u4-eq-ok : (u : ℕ) (t : PacketType) → from_u4 u ≡ ok t → discriminant t ≡ u
unfolding from_u4
from_u4-eq-ok u t e = ground arith

pub from_u4-eq-err : (u : ℕ) → 5 ≤ u → from_u4 u ≡ err (unknown_packet_type u)
unfolding from_u4
from_u4-eq-err u h = ground arith

pub from_u4_total : (u : ℕ) → u < 5 → (t : PacketType) × (from_u4 u ≡ ok t)
unfolding from_u4
from_u4_total zero h = (stand_by, refl)
from_u4_total (suc zero) h = (normal, refl)
from_u4_total (suc (suc zero)) h = (gathering, refl)
from_u4_total (suc (suc (suc zero))) h = (install, refl)
from_u4_total (suc (suc (suc (suc zero)))) h = (download, refl)
from_u4_total (suc (suc (suc (suc (suc u))))) h = absurd (omega arith)
