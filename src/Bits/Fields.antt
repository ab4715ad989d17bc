-- ===== src/Bits/Fields.antt =====
-- Masks, shifts and joined fields as arithmetic.
use Prim.Native.Nat.{bit_or-bitwise}
use samsung_nasa.Base.{
  ℕ, zero, suc, ◌+◌, ◌*◌, ◌/◌, ◌%◌, ◌^◌, ◌≤◌, ◌<◌, bit_and, bit_or, ◌≡◌, refl, ap, arith,
}
use samsung_nasa.Bits.Digits.{bit_and_step, bit_or_step}
use native.Mathlib.Nat.{pow-suc, pow-succ', div-div-eq-div-mul}

and-zero_below : (n a : ℕ) → a ≤ n → bit_and a 0 ≡ 0
and-zero_below n zero h = refl
and-zero_below zero (suc a) h = absurd (omega arith)
and-zero_below (suc n) (suc a) h =
    omega (arith, bit_and_step (suc a) 0, and-zero_below n (suc a / 2) (omega arith))

and-zero : (a : ℕ) → bit_and a 0 ≡ 0
and-zero a = and-zero_below a a (omega arith)

pub zero-or : (b : ℕ) → bit_or 0 b ≡ b
zero-or b = bit_or-bitwise 0 b

or-zero_below : (n a : ℕ) → a ≤ n → bit_or a 0 ≡ a
or-zero_below n zero h = refl
or-zero_below zero (suc a) h = absurd (omega arith)
or-zero_below (suc n) (suc a) h =
    omega (arith, bit_or_step (suc a) 0, or-zero_below n (suc a / 2) (omega arith))

pub or-zero : (a : ℕ) → bit_or a 0 ≡ a
or-zero a = or-zero_below a a (omega arith)

-- `a & 1`, `a & 3`, `a & 7` and `a & 0xf`.
pub and-one : (a : ℕ) → bit_and a 1 ≡ a % 2
and-one a = omega (arith, bit_and_step a 1, and-zero (a / 2))

pub and-three : (a : ℕ) → bit_and a 3 ≡ a % 4
and-three a = omega (arith, bit_and_step a 3, and-one (a / 2))

pub and-seven : (a : ℕ) → bit_and a 7 ≡ a % 8
and-seven a = omega (arith, bit_and_step a 7, and-three (a / 2))

pub and-fifteen : (a : ℕ) → bit_and a 15 ≡ a % 16
and-fifteen a = omega (arith, bit_and_step a 15, and-seven (a / 2))

-- A mask whose lowest `k` bits are clear looks at the bits above.
pub and_shifted : (k a m : ℕ) → bit_and a (m * 2 ^ k) ≡ bit_and (a / 2 ^ k) m * 2 ^ k
and_shifted zero a m = ground arith
and_shifted (suc k) a m = ground (
  arith,
  bit_and_step a (m * 2 ^ suc k),
  ap (λ (t : ℕ). m * t) (pow-suc 2 k),
  ap (λ (t : ℕ). a / t) (pow-succ' 2 k),
  div-div-eq-div-mul a 2 (2 ^ k),
  ap (λ (t : ℕ). bit_and (a / 2 ^ suc k) m * t) (pow-suc 2 k),
  and_shifted k (a / 2) m,
)

-- `(q << k) | r` is a sum where `r` fits below.
pub or_fields : (k q r : ℕ) → r < 2 ^ k → bit_or (q * 2 ^ k) r ≡ q * 2 ^ k + r
or_fields zero q r h = let e : r ≡ 0 = omega arith in ground (arith, or-zero q)
or_fields (suc k) q r h = ground (
  arith,
  bit_or_step (q * 2 ^ suc k) r,
  ap (λ (t : ℕ). q * t) (pow-suc 2 k),
  or_fields k q (r / 2) (omega (arith, pow-suc 2 k)),
)
