-- ===== src/Examples/Parser.antt =====
-- The CRC and the frame parser on concrete bytes.
use samsung_nasa.Base.{ℕ, ◌/◌, ◌%◌, ◌≤◌, List, [], ◌∷◌, ◌++◌, ◌≡◌, ◌≢◌, refl, arith, ok, err, panic}
use samsung_nasa.Crates.{plain}
use samsung_nasa.Crc.{crc16, crc_loop, crc_byte, crc_bits, crc_bit}
use samsung_nasa.Crc.Detect.{crc16_detects_burst}
use samsung_nasa.Frame.{FrameParser, start, bad_crc, new, feed, after, feed_byte, next_data_state}
use samsung_nasa.Frame.Wire.{frame_of}
use samsung_nasa.Frame.Run.{reports, reports_framed}
use samsung_nasa.Frame.Accept.{Burst, on_wire, reports-on_wire}
use samsung_nasa.Frame.Invariant.{IsValid, feed-after-new}
use samsung_nasa.Frame.Sound.{EndsIn, feed_sound}
use samsung_nasa.Frame.Corrupt.{reports_damaged}

-- A frame of the two bytes 1 and 2, but for its end marker.
abbrev unfinished : List ℕ
unfinished = 0x32 ∷ 0 ∷ 6 ∷ 1 ∷ 2 ∷ 0x13 ∷ 0x73 ∷ []

abbrev idle : List ℕ → FrameParser
idle buffer = record { state = start; buffer = buffer }

crc16_detects_burst_example : Path ℕ 2 2 × Path ℕ 3 3
crc16_detects_burst_example =
    crc16_detects_burst (1 ∷ []) (4 ∷ []) 2 3 2 3 (omega arith, tt) (omega arith, tt) (omega arith)
      (omega arith) (omega arith) (omega arith) refl

reports_framed_example : reports plain (idle []) (unfinished ++ (0x34 ∷ [])) ≡ ok (1 ∷ 2 ∷ []) ∷ []
unfolding crc16 crc_loop crc_byte crc_bits crc_bit reports
reports_framed_example = reports_framed plain (1 ∷ 2 ∷ []) [] 0x13 0x73 0x34 [] (omega arith)

abbrev bursts : List Burst
bursts =
    record { noise = 0 ∷ 0xff ∷ []; contents = 1 ∷ 2 ∷ [] }
    ∷ record { noise = []; contents = 3 ∷ [] }
    ∷ []

reports-on_wire_example :
    reports plain (idle []) (on_wire bursts) ≡ ok (1 ∷ 2 ∷ []) ∷ ok (3 ∷ []) ∷ []
reports-on_wire_example = reports-on_wire plain bursts [] (
  (
    ((λ h. omega (arith, h)), ((λ h. omega (arith, h)), tt)),
    (omega arith, (omega arith, tt)),
    omega arith,
  ),
  ((tt, (omega arith, tt), omega arith), tt),
)

feed_sound_example : EndsIn (unfinished ++ (0x34 ∷ [])) (frame_of (1 ∷ 2 ∷ [])) × (2 ≤ 1024)
unfolding new feed after next_data_state feed_byte crc16 crc_loop crc_byte crc_bits crc_bit
feed_sound_example =
    feed_sound plain unfinished 0x34 (1 ∷ 2 ∷ [])
      (
        omega arith,
        (
          omega arith,
          (omega arith, (omega arith, (omega arith, (omega arith, (omega arith, tt))))),
        ),
      )
      (omega arith) refl

reports_damaged_example :
    reports plain
      (idle [])
      (0x32 ∷ 0 ∷ 6 ∷ 1 ∷ 3 ∷ crc16 (1 ∷ 2 ∷ []) / 256 % 256 ∷ crc16 (1 ∷ 2 ∷ []) % 256 ∷ 0x34 ∷ [])
    ≡ err (bad_crc (crc16 (1 ∷ 2 ∷ [])) (crc16 (1 ∷ 3 ∷ []))) ∷ reports plain (idle (1 ∷ 3 ∷ [])) []
reports_damaged_example =
    reports_damaged plain [] [] [] [] 1 2 1 3 tt tt
      ((omega arith, omega arith), (omega arith, omega arith)) (λ h. omega (arith, h)) (omega arith)

feed-after-new_example :
    IsValid (after plain new unfinished)
    × ((feed plain (after plain new unfinished) 0x34).1 ≢ panic)
feed-after-new_example = feed-after-new plain unfinished 0x34
