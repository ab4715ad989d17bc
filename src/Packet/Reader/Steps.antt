-- ===== src/Packet/Reader/Steps.antt =====
-- The reads as equations on the bytes that are left.
use samsung_nasa.Base.{
  ℕ, ◌≡◌, arith, List, [], ◌∷◌, ◌++◌, length, length-append, take-append, drop-append, le→leb,
  lt→leb, ◌<◌, ok, err,
}
use samsung_nasa.Base.Stateful.{◌>>=◌}
use samsung_nasa.Bytes.{u16_from_be_bytes, u32_from_be_bytes}
use samsung_nasa.Packet.Error.{too_short}
use samsung_nasa.Packet.Reader.{read_array, read_u8, read_u16, read_u32}

-- An array that is there is read, and the rest is left.
pub read_array_all : (xs rest : List ℕ) → read_array (length xs) (xs ++ rest) ≡ ok (xs, rest)
unfolding read_array
read_array_all xs rest = rw (
  le→leb (length xs) (length (xs ++ rest)) (omega (arith, length-append xs rest)),
  take-append xs rest,
  drop-append xs rest,
)

pub read_array_short : (n : ℕ) (left : List ℕ) → length left < n → read_array n left ≡ err too_short
unfolding read_array
read_array_short n left h = rw (lt→leb n (length left) h)

pub read_u8-cons : (a : ℕ) (rest : List ℕ) → read_u8 (a ∷ rest) ≡ ok (a, rest)
unfolding read_u8
read_u8-cons a rest = rw (read_array_all (a ∷ []) rest, ◌>>=◌) (ground arith)

pub read_u16-cons :
    (a b : ℕ) (rest : List ℕ) → read_u16 (a ∷ b ∷ rest) ≡ ok (u16_from_be_bytes a b, rest)
unfolding read_u16
read_u16-cons a b rest = rw (read_array_all (a ∷ b ∷ []) rest, ◌>>=◌) (ground arith)

pub read_u32-cons :
    (a b c d : ℕ) (rest : List ℕ)
    → read_u32 (a ∷ b ∷ c ∷ d ∷ rest) ≡ ok (u32_from_be_bytes a b c d, rest)
unfolding read_u32
read_u32-cons a b c d rest = rw (read_array_all (a ∷ b ∷ c ∷ d ∷ []) rest, ◌>>=◌) (ground arith)
