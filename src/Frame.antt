-- ===== src/Frame.antt =====
-- The streaming frame parser of protocol/src/frame.rs: `FrameParser`, its states, and `feed`.
pub mod Run
pub mod Wire
pub mod Steps
pub mod Invariant
pub mod Accept
pub mod Sound
pub mod Corrupt
use samsung_nasa.Base.{
  ℕ, ◌+◌, ◌-◌, ◌≤◌, List, [], ◌∷◌, ◌++◌, Option, none, some, Bool, ltb, ◌==◌, if◌then◌else◌, Result,
  ok, err, panic,
}
use samsung_nasa.Bytes.{u16_from_be_bytes}
use samsung_nasa.Crates.{Crates}
use samsung_nasa.Crc.{crc16}

abbrev pub max_frame_size : ℕ
max_frame_size = 1024

abbrev pub frame_start : ℕ
frame_start = 0x32

abbrev pub frame_end : ℕ
frame_end = 0x34

pub data FrameError : Type 0 where
  frame_too_short : ℕ → FrameError
  frame_too_long : ℕ → FrameError
  bad_crc : (received expected : ℕ) → FrameError
  bad_frame_end : ℕ → FrameError

-- `State`. The constructor for `Data { remain }` is `payload`.
pub data State : Type 0 where
  start : State
  size_hi : State
  size_lo : ℕ → State
  payload : ℕ → State
  crc_hi : State
  crc_lo : ℕ → State
  end : State

pub record FrameParser : Type 0 where
  pub state : State
  pub buffer : List ℕ

-- `panics` is a failed `expect`.
pub data Transition : Type 0 where
  next : State → Transition
  complete : Transition
  error : FrameError → Transition
  panics : Transition

-- `FrameParser::default`.
unfoldable pub new : FrameParser
new = record { state = start; buffer = [] }

unfoldable pub next_data_state : ℕ → State
next_data_state remain = if remain == 0 then crc_hi else payload remain

module _ (crates : Crates) where
  -- The transition, and what becomes of the buffer.
  unfoldable pub feed_byte : State → List ℕ → ℕ → Transition × List ℕ
  unfolding next_data_state
  feed_byte start buffer byte =
      if byte == frame_start then (next size_hi, buffer) else (next start, buffer)
  feed_byte size_hi buffer byte = (next (size_lo byte), buffer)
  feed_byte (size_lo hi) buffer byte =
      let size = u16_from_be_bytes hi byte in
      let remain = size - 4 in
      if ltb size 4
      then (error (frame_too_short size), buffer)
      else if ltb max_frame_size remain
      then (error (frame_too_long size), buffer)
      else (next (next_data_state remain), [])
  feed_byte (payload remain) buffer byte = elim (crates.push max_frame_size buffer byte) [
    | some buffer' ↦ (next (next_data_state (remain - 1)), buffer')
    | none ↦ (panics, buffer)
  ]
  feed_byte crc_hi buffer byte = (next (crc_lo byte), buffer)
  feed_byte (crc_lo hi) buffer byte =
      let received = u16_from_be_bytes hi byte in
      let expected = crc16 buffer in
      if received == expected
      then (next end, buffer)
      else (error (bad_crc received expected), buffer)
  feed_byte end buffer byte =
      if byte == frame_end then (complete, buffer) else (error (bad_frame_end byte), buffer)

  -- What `feed` makes of a transition; `mem::take` has put the state back to `start`.
  settle : Transition × List ℕ → FrameParser × Result FrameError (Option (List ℕ))
  settle (next state, buffer) = (record { state = state; buffer = buffer }, ok none)
  settle (complete, buffer) = (record { state = start; buffer = buffer }, ok (some buffer))
  settle (error e, buffer) = (record { state = start; buffer = buffer }, err e)
  settle (panics, buffer) = (record { state = start; buffer = buffer }, panic)

  unfoldable pub feed : FrameParser → ℕ → FrameParser × Result FrameError (Option (List ℕ))
  unfolding feed_byte settle
  feed p byte = settle (feed_byte p.state p.buffer byte)

  -- The parser after a run of bytes.
  unfoldable pub after : FrameParser → List ℕ → FrameParser
  after p [] = p
  after p (byte ∷ bytes) = after (feed p byte).0 bytes
