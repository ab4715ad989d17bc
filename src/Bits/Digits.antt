-- ===== src/Bits/Digits.antt =====
-- The bit operations by their lowest digit: one equation for each, at variables.
use Prim.Native.Nat.{min, max, digits, differ, bit_and-bitwise, bit_or-bitwise, bit_xor-bitwise}
use samsung_nasa.Base.{
  ℕ, zero, suc, ◌+◌, ◌*◌, ◌/◌, ◌%◌, ◌≤◌, ◌<◌, bit_and, bit_or, bit_xor, ◌≡◌, refl, arith,
}

-- The fuel of the definition does not matter, once it is enough.
module _ (keep : ℕ → ℕ) (join : ℕ → ℕ → ℕ) where
  digits-fuel : (a b m n : ℕ) → (a ≤ m) × (a ≤ n) → digits keep join m a b ≡ digits keep join n a b
  digits-fuel (suc a) b (suc m) (suc n) h =
      rw (digits-fuel (suc a / 2) (b / 2) m n (omega arith, omega arith))
  digits-fuel (suc a) b zero n h = absurd (omega arith)
  digits-fuel (suc a) b (suc m) zero h = absurd (omega arith)
  digits-fuel zero b zero zero h = refl
  digits-fuel zero b zero (suc n) h = refl
  digits-fuel zero b (suc m) zero h = refl
  digits-fuel zero b (suc m) (suc n) h = refl

  digits-suc :
      (a b : ℕ)
      → digits keep join (suc a) (suc a) b
        ≡ join (suc a % 2) (b % 2) + 2 * digits keep join (suc a / 2) (suc a / 2) (b / 2)
  digits-suc a b =
      omega (arith, digits-fuel (suc a / 2) (b / 2) a (suc a / 2) (omega arith, omega arith))

pub bit_and_step : (a b : ℕ) → bit_and a b ≡ min (a % 2) (b % 2) + 2 * bit_and (a / 2) (b / 2)
bit_and_step zero b = simp bit_and-bitwise (omega arith)
bit_and_step (suc a) b = simp bit_and-bitwise (digits-suc (λ y. 0) min a b)

pub bit_or_step : (a b : ℕ) → bit_or a b ≡ max (a % 2) (b % 2) + 2 * bit_or (a / 2) (b / 2)
bit_or_step zero b = simp bit_or-bitwise (omega arith)
bit_or_step (suc a) b = simp bit_or-bitwise (digits-suc (λ y. y) max a b)

differ-digit : (x y : ℕ) → x < 2 → y < 2 → differ x y ≡ (x + y) % 2
differ-digit zero zero p q = refl
differ-digit zero (suc zero) p q = refl
differ-digit (suc zero) zero p q = refl
differ-digit (suc zero) (suc zero) p q = refl
differ-digit (suc (suc x)) y p q = absurd (omega arith)
differ-digit zero (suc (suc y)) p q = absurd (omega arith)
differ-digit (suc zero) (suc (suc y)) p q = absurd (omega arith)

pub bit_xor_step : (a b : ℕ) → bit_xor a b ≡ (a % 2 + b % 2) % 2 + 2 * bit_xor (a / 2) (b / 2)
bit_xor_step zero b = simp bit_xor-bitwise (omega arith)
bit_xor_step (suc a) b = simp bit_xor-bitwise (
    omega (
      arith,
      digits-suc (λ y. y) differ a b,
      differ-digit (suc a % 2) (b % 2) (omega arith) (omega arith),
    ))
