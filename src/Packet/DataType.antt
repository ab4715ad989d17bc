-- ===== src/Packet/DataType.antt =====
-- `DataType`: the low half of the byte that holds the packet type.
use samsung_nasa.Base.{
  ℕ, zero, suc, ◌≡◌, refl, ◌<◌, ◌≤◌, arith, ◌==◌, if◌then◌else◌, Result, ok, panic,
}
use samsung_nasa.Crates.{Crates}

pub data DataType : Type 0 where
  undefined read write request notification response ack nack : DataType

pub DataType-discrete : Discrete DataType
DataType-discrete = hlevel

abbrev pub discriminant : DataType → ℕ
discriminant undefined = 0
discriminant read = 1
discriminant write = 2
discriminant request = 3
discriminant notification = 4
discriminant response = 5
discriminant ack = 6
discriminant nack = 7

-- The last arm is `unreachable!()`.
unfoldable pub from_u4 : {E : Type 0} → ℕ → Result E DataType
from_u4 u =
    if u == 0
    then ok undefined
    else if u == 1
    then ok read
    else if u == 2
    then ok write
    else if u == 3
    then ok request
    else if u == 4
    then ok notification
    else if u == 5
    then ok response
    else if u == 6
    then ok ack
    else if u == 7
    then ok nack
    else panic

unfoldable pub to_u4 : Crates → DataType → ℕ
to_u4 crates t = crates.uint 4 (discriminant t)

pub to_u4-discriminant : (crates : Crates) (t : DataType) → to_u4 crates t ≡ discriminant t
unfolding to_u4
to_u4-discriminant crates undefined = crates.uint_lem 4 0 (omega arith)
to_u4-discriminant crates read = crates.uint_lem 4 1 (omega arith)
to_u4-discriminant crates write = crates.uint_lem 4 2 (omega arith)
to_u4-discriminant crates request = crates.uint_lem 4 3 (omega arith)
to_u4-discriminant crates notification = crates.uint_lem 4 4 (omega arith)
to_u4-discriminant crates response = crates.uint_lem 4 5 (omega arith)
to_u4-discriminant crates ack = crates.uint_lem 4 6 (omega arith)
to_u4-discriminant crates nack = crates.uint_lem 4 7 (omega arith)

module _ {E : Type 0} where
  pub from_u4-discriminant : (t : DataType) → from_u4 {E = E} (discriminant t) ≡ ok t
  unfolding from_u4
  from_u4-discriminant undefined = refl
  from_u4-discriminant read = refl
  from_u4-discriminant write = refl
  from_u4-discriminant request = refl
  from_u4-discriminant notification = refl
  from_u4-discriminant response = refl
  from_u4-discriminant ack = refl
  from_u4-discriminant nack = refl

  pub from_u4-eq-ok : (u : ℕ) (t : DataType) → from_u4 {E = E} u ≡ ok t → discriminant t ≡ u
  unfolding from_u4
  from_u4-eq-ok u t e = ground arith

  -- The values that make `from_u4` panic are those from 8 on.
  pub from_u4-eq-panic : (u : ℕ) → 8 ≤ u → from_u4 {E = E} u ≡ panic
  unfolding from_u4
  from_u4-eq-panic u h = ground arith

  pub from_u4_total : (u : ℕ) → u < 8 → (t : DataType) × (from_u4 {E = E} u ≡ ok t)
  unfolding from_u4
  from_u4_total zero h = (undefined, refl)
  from_u4_total (suc zero) h = (read, refl)
  from_u4_total (suc (suc zero)) h = (write, refl)
  from_u4_total (suc (suc (suc zero))) h = (request, refl)
  from_u4_total (suc (suc (suc (suc zero)))) h = (notification, refl)
  from_u4_total (suc (suc (suc (suc (suc zero))))) h = (response, refl)
  from_u4_total (suc (suc (suc (suc (suc (suc zero)))))) h = (ack, refl)
  from_u4_total (suc (suc (suc (suc (suc (suc (suc zero))))))) h = (nack, refl)
  from_u4_total (suc (suc (suc (suc (suc (suc (suc (suc u)))))))) h = absurd (omega arith)

pub discriminant-lt : (t : DataType) → discriminant t < 8
discriminant-lt undefined = omega arith
discriminant-lt read = omega arith
discriminant-lt write = omega arith
discriminant-lt request = omega arith
discriminant-lt notification = omega arith
discriminant-lt response = omega arith
discriminant-lt ack = omega arith
discriminant-lt nack = omega arith
