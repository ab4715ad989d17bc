-- ===== src/Frame/Steps.antt =====
-- Single steps of the parser, as equations.
use samsung_nasa.Base.{
  ℕ, suc, ◌+◌, ◌-◌, ◌/◌, ◌%◌, ◌≤◌, ◌<◌, ◌≡◌, arith, List, [], ◌∷◌, ◌++◌, length, none, ok, err,
  ◌==◌, if◌then◌else◌,
}
use samsung_nasa.Crates.{Crates}
use samsung_nasa.Crc.{crc16}
use samsung_nasa.Bytes.{u16_from_be_bytes}
use samsung_nasa.Frame.{
  start, size_lo, payload, crc_lo, end, bad_crc, max_frame_size, next_data_state, feed,
}

-- The state after a data byte, or after the size, by what remains.
pub next_data_state-suc : (n : ℕ) → next_data_state (suc n) ≡ payload (suc n)
unfolding next_data_state
next_data_state-suc n = ground arith

module _ (crates : Crates) where
  pub feed-payload :
      (remain : ℕ) (buffer : List ℕ) (byte : ℕ)
      → length buffer < max_frame_size
      → feed crates (record { state = payload remain; buffer = buffer }) byte
        ≡ (record { state = next_data_state (remain - 1); buffer = buffer ++ (byte ∷ []) }, ok none)
  unfolding feed
  feed-payload remain buffer byte h = ground (arith, crates.push_lem max_frame_size buffer byte)

  -- The two bytes of a size that fits open the data, with an empty buffer.
  pub feed-size_lo :
      (n : ℕ) (buffer : List ℕ)
      → n ≤ max_frame_size
      → feed crates
          (record { state = size_lo ((n + 4) / 256 % 256); buffer = buffer })
          ((n + 4) % 256)
        ≡ (record { state = next_data_state n; buffer = [] }, ok none)
  unfolding feed
  feed-size_lo n buffer h = ground arith

  -- The second byte of the CRC decides.
  pub feed-crc_lo :
      (hi : ℕ) (buffer : List ℕ) (lo : ℕ)
      → feed crates (record { state = crc_lo hi; buffer = buffer }) lo ≡ (
          if u16_from_be_bytes hi lo == crc16 buffer
          then (record { state = end; buffer = buffer }, ok none)
          else (
            record { state = start; buffer = buffer },
            err (bad_crc (u16_from_be_bytes hi lo) (crc16 buffer)),
          ))
  unfolding feed
  feed-crc_lo hi buffer lo = ground arith
