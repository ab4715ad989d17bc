-- ===== src/Packet/PacketInfo.antt =====
-- `PacketInfo`: one byte of flags and counters.
use samsung_nasa.Base.{ℕ, ◌+◌, ◌*◌, ◌/◌, ◌%◌, ◌^◌, ◌<◌, bit_and, bit_or, ◌≡◌, ◌∙◌, arith}
use samsung_nasa.Bits.Fields.{and_shifted, and-three, and-seven, or_fields}
use samsung_nasa.Bytes.{IsByte}
use samsung_nasa.Crates.{Crates}

pub record PacketInfo : Type 0 where
  pub info : ℕ
  pub protocol_version : ℕ
  pub retry_count : ℕ
  pub reserved : ℕ

-- The widths u1, u2, u2 and u3 of the fields.
abbrev pub IsValid : PacketInfo → Type 0
IsValid i = (i.info < 2) × (i.protocol_version < 4) × (i.retry_count < 4) × (i.reserved < 8)

module _ (crates : Crates) where
  unfoldable pub with_retry_count : ℕ → PacketInfo
  with_retry_count retry_count = record {
    info = crates.uint 1 1;
    protocol_version = crates.uint 2 2;
    retry_count = retry_count;
    reserved = crates.uint 3 0;
  }

  -- `PacketInfo::new`, which is also the default.
  unfoldable pub new : PacketInfo
  unfolding with_retry_count
  new = with_retry_count (crates.uint 2 0)

  unfoldable pub from_byte : ℕ → PacketInfo
  from_byte byte = record {
    info = crates.uint 1 (byte / 2 ^ 7);
    protocol_version = crates.uint 2 (bit_and byte 0x60 / 2 ^ 5);
    retry_count = crates.uint 2 (bit_and byte 0x18 / 2 ^ 3);
    reserved = crates.uint 3 (bit_and byte 0x07);
  }

-- `byte |= …` three times, from 0; neither `info` nor `reserved` is looked at.
unfoldable pub to_byte : PacketInfo → ℕ
to_byte i =
    let flagged = bit_or 0 (2 ^ 7) in
    let versioned = bit_or flagged (i.protocol_version * 2 ^ 5 % 2 ^ 8) in
    bit_or versioned (i.retry_count * 2 ^ 3 % 2 ^ 8)

-- The packet that a receiver sees: the sender always sets the flag and clears the reserved bits.
abbrev pub as_sent : PacketInfo → PacketInfo
as_sent i = record i { info = 1; reserved = 0 }

pub to_byte_lem :
    (i : PacketInfo) → IsValid i → to_byte i ≡ 128 + i.protocol_version * 32 + i.retry_count * 8
unfolding to_byte
to_byte_lem i (_, hv, hr, _) = ground (
  arith,
  or_fields 7 1 (i.protocol_version * 32),
  or_fields 5 (4 + i.protocol_version) (i.retry_count * 8),
)

pub to_byte-IsByte : (i : PacketInfo) → IsValid i → IsByte (to_byte i)
to_byte-IsByte i h = omega (arith, to_byte_lem i h)

pub from_byte_lem :
    (crates : Crates) (byte : ℕ)
    → IsByte byte
    → from_byte crates byte ≡ record {
      info = byte / 128;
      protocol_version = byte / 32 % 4;
      retry_count = byte / 8 % 4;
      reserved = byte % 8;
    }
unfolding from_byte
from_byte_lem crates byte h = ground (
  arith,
  and_shifted 5 byte 3,
  and-three (byte / 2 ^ 5),
  and_shifted 3 byte 3,
  and-three (byte / 2 ^ 3),
  and-seven byte,
  crates.uint_lem 1 (byte / 128),
  crates.uint_lem 2 (byte / 32 % 4),
  crates.uint_lem 2 (byte / 8 % 4),
  crates.uint_lem 3 (byte % 8),
)

-- Reading back what was written gives the version and the retry count, and the fixed values of
-- the two other fields.
pub from_byte-to_byte :
    (crates : Crates) (i : PacketInfo) → IsValid i → from_byte crates (to_byte i) ≡ as_sent i
from_byte-to_byte crates i h =
    from_byte_lem crates (to_byte i) (to_byte-IsByte i h) ∙ ground (arith, to_byte_lem i h)

-- Writing what was read keeps the version and the retry count of the byte alone.
pub to_byte-from_byte :
    (crates : Crates) (byte : ℕ)
    → IsByte byte
    → IsValid (from_byte crates byte) × (to_byte (from_byte crates byte) ≡ 128 + byte / 8 % 16 * 8)
to_byte-from_byte crates byte h = rw (from_byte_lem crates byte h) (
  (omega arith, omega arith, omega arith, omega arith),
  to_byte_lem _ (omega arith, omega arith, omega arith, omega arith) ∙ omega arith,
)

-- The default flags.
pub new-default :
    (crates : Crates)
    → new crates ≡ record { info = 1; protocol_version = 2; retry_count = 0; reserved = 0 }
unfolding new
new-default crates =
    ground
      (arith, crates.uint_lem 1 1, crates.uint_lem 2 2, crates.uint_lem 2 0, crates.uint_lem 3 0)
