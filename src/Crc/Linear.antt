-- ===== src/Crc/Linear.antt =====
-- The bit step as a linear map of sixteen bits that loses nothing.
use samsung_nasa.Base.{
  ℕ, zero, suc, ◌+◌, ◌*◌, ◌/◌, ◌%◌, ◌^◌, ◌<◌, bit_and, bit_xor, ◌≡◌, refl, sym, ap, ◌∙◌, arith,
}
use mathlib.Core.Path.{ap₂}
use samsung_nasa.Bits.Digits.{bit_xor_step}
use samsung_nasa.Bits.Fields.{and_shifted, and-one}
use samsung_nasa.Bits.Xor.{xor-zero, xor_self, xor_swap, xor_injective, xor_fields, xor-lt}
use samsung_nasa.Crc.{crc_bit, crc_bits}

top_bit : (s : ℕ) → bit_and s 0x8000 ≡ s / 2 ^ 15 % 2 * 2 ^ 15
top_bit s = omega (arith, and_shifted 15 s 1, and-one (s / 2 ^ 15))

-- Both branches at once: the bit that leaves the word decides whether the polynomial is added.
pub crc_bit_fields :
    (t s : ℕ) → t < 2 → s < 2 ^ 15 → crc_bit (t * 2 ^ 15 + s) ≡ bit_xor (s * 2) (t * 0x1021)
unfolding crc_bit
crc_bit_fields zero s ht h = ground (arith, top_bit (0 * 2 ^ 15 + s), xor-zero (s * 2))
crc_bit_fields (suc zero) s ht h = ground (arith, top_bit (1 * 2 ^ 15 + s))
crc_bit_fields (suc (suc t)) s ht h = absurd (omega arith)

pub crc_bit-lt : (s : ℕ) → crc_bit s < 2 ^ 16
unfolding crc_bit
crc_bit-lt s = ground (arith, xor-lt 16 (s * 2 % 2 ^ 16) 0x1021)

xor-double : (a b : ℕ) → bit_xor (a * 2) (b * 2) ≡ bit_xor a b * 2
xor-double a b = ground (arith, xor_fields 1 a 0 b 0, xor_self 0)

polynomial_xor :
    (t u : ℕ) → t < 2 → u < 2 → bit_xor t u * 0x1021 ≡ bit_xor (t * 0x1021) (u * 0x1021)
polynomial_xor zero zero p q = refl
polynomial_xor zero (suc zero) p q = refl
polynomial_xor (suc zero) zero p q = refl
polynomial_xor (suc zero) (suc zero) p q = refl
polynomial_xor zero (suc (suc u)) p q = absurd (omega arith)
polynomial_xor (suc zero) (suc (suc u)) p q = absurd (omega arith)
polynomial_xor (suc (suc t)) u p q = absurd (omega arith)

crc_bit-xor_fields :
    (t s u v : ℕ)
    → t < 2
    → s < 2 ^ 15
    → u < 2
    → v < 2 ^ 15
    → crc_bit (bit_xor (t * 2 ^ 15 + s) (u * 2 ^ 15 + v))
      ≡ bit_xor (crc_bit (t * 2 ^ 15 + s)) (crc_bit (u * 2 ^ 15 + v))
crc_bit-xor_fields t s u v ht hs hu hv =
    ap crc_bit (xor_fields 15 t s u v hs hv)
    ∙ crc_bit_fields (bit_xor t u) (bit_xor s v) (xor-lt 1 t u ht hu) (xor-lt 15 s v hs hv)
    ∙ ap₂ bit_xor (sym (xor-double s v)) (polynomial_xor t u ht hu)
    ∙ xor_swap (s * 2) (v * 2) (t * 0x1021) (u * 0x1021)
    ∙ ap₂ bit_xor (sym (crc_bit_fields t s ht hs)) (sym (crc_bit_fields u v hu hv))

split_word : (a : ℕ) → a / 2 ^ 15 * 2 ^ 15 + a % 2 ^ 15 ≡ a
split_word a = omega arith

pub crc_bit-xor :
    (a b : ℕ) → a < 2 ^ 16 → b < 2 ^ 16 → crc_bit (bit_xor a b) ≡ bit_xor (crc_bit a) (crc_bit b)
crc_bit-xor a b ha hb =
    let fields =
      crc_bit-xor_fields (a / 2 ^ 15) (a % 2 ^ 15) (b / 2 ^ 15) (b % 2 ^ 15) (omega arith)
        (omega arith) (omega arith) (omega arith) in
    rw (split_word a, split_word b) at fields

-- The polynomial is odd, so no word but 0 is sent to 0.
crc_bit_kernel : (t s : ℕ) → t < 2 → s < 2 ^ 15 → crc_bit (t * 2 ^ 15 + s) ≡ 0 → t * 2 ^ 15 + s ≡ 0
crc_bit_kernel zero s ht h e = omega (arith, crc_bit_fields 0 s ht h, xor-zero (s * 2))
crc_bit_kernel (suc zero) s ht h e =
    absurd (omega (arith, crc_bit_fields 1 s ht h, bit_xor_step (s * 2) (1 * 0x1021)))
crc_bit_kernel (suc (suc t)) s ht h e = absurd (omega arith)

crc_bit-eq-zero : (a : ℕ) → a < 2 ^ 16 → crc_bit a ≡ 0 → a ≡ 0
crc_bit-eq-zero a h e =
    sym (split_word a)
    ∙ crc_bit_kernel (a / 2 ^ 15) (a % 2 ^ 15) (omega arith) (omega arith)
        (ap crc_bit (split_word a) ∙ e)

xor-eq-zero : (a b : ℕ) → bit_xor a b ≡ 0 → a ≡ b
xor-eq-zero a b e = xor_injective a b b (e ∙ sym (xor_self b))

pub crc_bit_injective : (a b : ℕ) → a < 2 ^ 16 → b < 2 ^ 16 → crc_bit a ≡ crc_bit b → a ≡ b
crc_bit_injective a b ha hb e = xor-eq-zero a b (
    crc_bit-eq-zero (bit_xor a b) (xor-lt 16 a b ha hb)
      (crc_bit-xor a b ha hb ∙ rw e (xor_self (crc_bit b))))

-- The same three facts for any number of rounds.
pub crc_bits-lt : (n a : ℕ) → a < 2 ^ 16 → crc_bits n a < 2 ^ 16
unfolding crc_bits
crc_bits-lt zero a h = h
crc_bits-lt (suc n) a h = crc_bits-lt n (crc_bit a) (crc_bit-lt a)

pub crc_bits-xor :
    (n a b : ℕ)
    → a < 2 ^ 16
    → b < 2 ^ 16
    → crc_bits n (bit_xor a b) ≡ bit_xor (crc_bits n a) (crc_bits n b)
unfolding crc_bits
crc_bits-xor zero a b ha hb = refl
crc_bits-xor (suc n) a b ha hb =
    ap (crc_bits n) (crc_bit-xor a b ha hb)
    ∙ crc_bits-xor n (crc_bit a) (crc_bit b) (crc_bit-lt a) (crc_bit-lt b)

pub crc_bits_injective : (n a b : ℕ) → a < 2 ^ 16 → b < 2 ^ 16 → crc_bits n a ≡ crc_bits n b → a ≡ b
unfolding crc_bits
crc_bits_injective zero a b ha hb e = e
crc_bits_injective (suc n) a b ha hb e =
    crc_bit_injective a b ha hb
      (crc_bits_injective n (crc_bit a) (crc_bit b) (crc_bit-lt a) (crc_bit-lt b) e)

-- A byte reaches the top bit in no fewer than eight rounds.
crc_bit_low : (s : ℕ) → s < 2 ^ 15 → crc_bit s ≡ s * 2
crc_bit_low s h = ap crc_bit (omega arith) ∙ crc_bit_fields 0 s (omega arith) h ∙ xor-zero (s * 2)

pub crc_bits_shift : (x : ℕ) → x < 256 → crc_bits 8 x ≡ x * 2 ^ 8
unfolding crc_bits
crc_bits_shift x h =
    rw
      (
        crc_bit_low x (omega arith),
        crc_bit_low (x * 2) (omega arith),
        crc_bit_low (x * 2 * 2) (omega arith),
        crc_bit_low (x * 2 * 2 * 2) (omega arith),
        crc_bit_low (x * 2 * 2 * 2 * 2) (omega arith),
        crc_bit_low (x * 2 * 2 * 2 * 2 * 2) (omega arith),
        crc_bit_low (x * 2 * 2 * 2 * 2 * 2 * 2) (omega arith),
        crc_bit_low (x * 2 * 2 * 2 * 2 * 2 * 2 * 2) (omega arith),
      )
      (omega arith)
