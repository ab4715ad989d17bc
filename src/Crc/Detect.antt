-- ===== src/Crc/Detect.antt =====
-- What the CRC promises to the frame parser: the residue of a message with its own CRC, and the
-- errors that change the CRC.
use samsung_nasa.Base.{
  ℕ, ◌+◌, ◌*◌, ◌/◌, ◌%◌, ◌^◌, bit_xor, ◌≡◌, refl, sym, ap, ◌∙◌, arith, List, [], ◌∷◌, ◌++◌,
}
use samsung_nasa.Bytes.{IsByte, IsBytes, IsU16, u16_to_be_bytes}
use samsung_nasa.Bits.Xor.{
  xor_comm, xor_assoc, xor_self, xor_injective, xor_fields, xor-lt, xor-zero,
}
use samsung_nasa.Crc.{crc_bit, crc_bits, crc_byte, crc_loop, crc16}
use samsung_nasa.Crc.Linear.{crc_bits-lt, crc_bits-xor, crc_bits_injective, crc_bits_shift}

shifted : (x : ℕ) → IsByte x → x * 2 ^ 8 % 2 ^ 16 ≡ x * 2 ^ 8
shifted x h = omega arith

pub crc_byte-lt : (s x : ℕ) → IsU16 s → IsByte x → IsU16 (crc_byte s x)
unfolding crc_byte
crc_byte-lt s x hs hx = crc_bits-lt 8 _ (xor-lt 16 s _ hs (omega arith))

crc_byte_injective :
    (s t x : ℕ) → IsU16 s → IsU16 t → IsByte x → crc_byte s x ≡ crc_byte t x → s ≡ t
unfolding crc_byte
crc_byte_injective s t x hs ht hx e =
    xor_injective s t _
      (crc_bits_injective 8 _ _ (xor-lt 16 s _ hs (omega arith)) (xor-lt 16 t _ ht (omega arith)) e)

pub crc_loop-lt : (s : ℕ) (xs : List ℕ) → IsU16 s → IsBytes xs → IsU16 (crc_loop s xs)
unfolding crc_loop
crc_loop-lt s [] hs hx = hs
crc_loop-lt s (x ∷ xs) hs hx = crc_loop-lt (crc_byte s x) xs (crc_byte-lt s x hs hx.0) hx.1

-- The CRC of bytes is a u16.
pub crc16-lt : (xs : List ℕ) → IsBytes xs → IsU16 (crc16 xs)
unfolding crc16
crc16-lt xs h = crc_loop-lt 0 xs (omega arith) h

crc_loop_injective :
    (s t : ℕ) (xs : List ℕ) → IsU16 s → IsU16 t → IsBytes xs → crc_loop s xs ≡ crc_loop t xs → s ≡ t
unfolding crc_loop
crc_loop_injective s t [] hs ht hx e = e
crc_loop_injective s t (x ∷ xs) hs ht hx e = crc_byte_injective s t x hs ht hx.0 (
    crc_loop_injective (crc_byte s x) (crc_byte t x) xs (crc_byte-lt s x hs hx.0)
      (crc_byte-lt t x ht hx.0) hx.1 e)

pub crc_loop-append : (s : ℕ) (xs ys : List ℕ) → crc_loop s (xs ++ ys) ≡ crc_loop (crc_loop s xs) ys
unfolding crc_loop
crc_loop-append s [] ys = refl
crc_loop-append s (x ∷ xs) ys = crc_loop-append (crc_byte s x) xs ys

-- Two bytes enter as one word, sixteen rounds before they are gone.
crc_byte-pair :
    (s x y : ℕ)
    → IsU16 s
    → IsByte x
    → IsByte y
    → crc_byte (crc_byte s x) y ≡ crc_bits 8 (crc_bits 8 (bit_xor s (x * 2 ^ 8 + y)))
unfolding crc_byte
crc_byte-pair s x y hs hx hy =
    rw (shifted x hx, shifted y hy)
      (ap (crc_bits 8) (
        ap (bit_xor (crc_bits 8 (bit_xor s (x * 2 ^ 8)))) (sym (crc_bits_shift y hy))
        ∙ sym (
            crc_bits-xor 8 (bit_xor s (x * 2 ^ 8)) y (xor-lt 16 s _ hs (omega arith)) (omega arith))
        ∙ ap (crc_bits 8) (xor_assoc s (x * 2 ^ 8) y ∙ ap (bit_xor s) joined)))
  where
    joined : bit_xor (x * 2 ^ 8) y ≡ x * 2 ^ 8 + y
    joined = ground (arith, xor_fields 8 x 0 0 y, xor-zero x, xor_comm 0 y, xor-zero y)

-- A list of bytes that is followed by its own CRC, high byte first, has the CRC 0.
pub crc16_residue : (xs : List ℕ) → IsBytes xs → crc16 (xs ++ u16_to_be_bytes (crc16 xs)) ≡ 0
unfolding crc16 crc_loop
crc16_residue xs h =
    let s = crc_loop 0 xs in
    let hs = crc_loop-lt 0 xs (omega arith) h in
    crc_loop-append 0 xs (u16_to_be_bytes s)
    ∙ crc_byte-pair s (s / 256 % 256) (s % 256) hs (omega arith) (omega arith)
    ∙ ap (λ (t : ℕ). crc_bits 8 (crc_bits 8 (bit_xor s t))) (omega arith)
    ∙ ap (λ (t : ℕ). crc_bits 8 (crc_bits 8 t)) (xor_self s)
    ∙ (unfold crc_bits crc_bit in refl)

-- Two lists of bytes that agree but for two adjacent bytes have the same CRC only if they are
-- the same: every error that is confined to sixteen such bits is found.
pub crc16_detects_burst :
    (before after : List ℕ) (x y x' y' : ℕ)
    → IsBytes before
    → IsBytes after
    → IsByte x
    → IsByte y
    → IsByte x'
    → IsByte y'
    → crc16 (before ++ (x ∷ y ∷ after)) ≡ crc16 (before ++ (x' ∷ y' ∷ after))
    → (x ≡ x') × (y ≡ y')
unfolding crc16
crc16_detects_burst before after x y x' y' hb ha hx hy hx' hy' e =
    (omega (arith, words), omega (arith, words))
  where
    s : ℕ
    s = crc_loop 0 before

    hs : IsU16 s
    hs = crc_loop-lt 0 before (omega arith) hb

    states : crc_byte (crc_byte s x) y ≡ crc_byte (crc_byte s x') y'
    states =
        unfold crc_loop in
        crc_loop_injective _ _ after (crc_byte-lt _ y (crc_byte-lt s x hs hx) hy)
          (crc_byte-lt _ y' (crc_byte-lt s x' hs hx') hy') ha
          (sym (crc_loop-append 0 before (x ∷ y ∷ after))
            ∙ e
            ∙ crc_loop-append 0 before (x' ∷ y' ∷ after))

    words : x * 2 ^ 8 + y ≡ x' * 2 ^ 8 + y'
    words = xor_injective _ _ s (
        xor_comm _ s
        ∙ crc_bits_injective 8 _ _ (xor-lt 16 s _ hs (omega arith)) (xor-lt 16 s _ hs (omega arith))
            (crc_bits_injective 8 _ _ (crc_bits-lt 8 _ (xor-lt 16 s _ hs (omega arith)))
              (crc_bits-lt 8 _ (xor-lt 16 s _ hs (omega arith)))
              (sym (crc_byte-pair s x y hs hx hy) ∙ states ∙ crc_byte-pair s x' y' hs hx' hy'))
        ∙ xor_comm s _)
