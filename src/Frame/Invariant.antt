-- ===== src/Frame/Invariant.antt =====
-- The parser never overruns its buffer.
use samsung_nasa.Base.{ℕ, ◌+◌, ◌≤◌, ◌<◌, ◌≢◌, arith, List, [], ◌∷◌, length, length-append, panic}
use samsung_nasa.Crates.{Crates}
use samsung_nasa.Frame.{
  FrameParser, State, start, size_hi, size_lo, payload, crc_hi, crc_lo, end, max_frame_size, new,
  feed, after,
}

-- The bytes that are in the buffer, and those that it still waits for.
abbrev pub Fits : State → List ℕ → Type 0
Fits (payload remain) buffer = (0 < remain) × (length buffer + remain ≤ max_frame_size)
Fits _ buffer = length buffer ≤ max_frame_size

abbrev pub IsValid : FrameParser → Type 0
IsValid p = Fits p.state p.buffer

module _ (crates : Crates) where
  feed-IsValid_at :
      (state : State) (buffer : List ℕ) (byte : ℕ)
      → Fits state buffer
      → let (p, r) = feed crates (record { state = state; buffer = buffer }) byte in
        IsValid p × (r ≢ panic)
  unfolding feed
  feed-IsValid_at start buffer byte h = ground arith
  feed-IsValid_at size_hi buffer byte h = ground arith
  feed-IsValid_at (size_lo hi) buffer byte h = ground arith
  feed-IsValid_at (payload remain) buffer byte h =
      ground (arith, crates.push_lem max_frame_size buffer byte, length-append buffer (byte ∷ []))
  feed-IsValid_at crc_hi buffer byte h = ground arith
  feed-IsValid_at (crc_lo hi) buffer byte h = ground arith
  feed-IsValid_at end buffer byte h = ground arith

  -- From a valid parser every byte, in every state, leads to a valid parser, and the `expect` on
  -- the buffer's capacity does not fail.
  pub feed-IsValid :
      (p : FrameParser) (byte : ℕ)
      → IsValid p
      → IsValid (feed crates p byte).0 × ((feed crates p byte).1 ≢ panic)
  feed-IsValid p byte h = feed-IsValid_at p.state p.buffer byte h

  pub after-IsValid :
      (p : FrameParser) (bytes : List ℕ) → IsValid p → IsValid (after crates p bytes)
  unfolding after
  after-IsValid p [] h = h
  after-IsValid p (byte ∷ bytes) h =
      after-IsValid (feed crates p byte).0 bytes (feed-IsValid p byte h).0

  -- On no input at all does a new parser panic, or hold more than 1024 bytes.
  pub feed-after-new :
      (bytes : List ℕ) (byte : ℕ)
      → IsValid (after crates new bytes) × ((feed crates (after crates new bytes) byte).1 ≢ panic)
  unfolding new
  feed-after-new bytes byte =
      let v = after-IsValid new bytes (omega arith) in (v, (feed-IsValid _ byte v).1)
