-- ===== src/Frame/Accept.antt =====
-- The parser reports every frame of a stream, whatever noise stands between the frames.
use samsung_nasa.Base.{
  ℕ, ◌+◌, ◌/◌, ◌%◌, ◌≤◌, ◌≡◌, ◌≢◌, refl, ap, ◌∙◌, List, [], ◌∷◌, ◌++◌, append_assoc, length, All,
  ok, map, true, ==_iff, ◌==◌,
}
use samsung_nasa.Bytes.{IsBytes, u16_to_be_bytes, u16_from_be_bytes, u16_round_trip}
use samsung_nasa.Crates.{Crates}
use samsung_nasa.Crc.{crc16}
use samsung_nasa.Crc.Detect.{crc16-lt}
use samsung_nasa.Frame.{start}
use samsung_nasa.Frame.Run.{Report, reports, reports_framed, reports_noise}
use samsung_nasa.Frame.Wire.{frame_of, closing}

-- What stands on the bus: bytes that are no start byte, then the frame of some data.
pub record Burst : Type 0 where
  pub noise : List ℕ
  pub contents : List ℕ

abbrev pub on_wire : List Burst → List ℕ
on_wire [] = []
on_wire (b ∷ bs) = b.noise ++ (frame_of b.contents ++ on_wire bs)

abbrev pub IsBurst : Burst → Type 0
IsBurst b = All (λ x. x ≢ 0x32) b.noise × IsBytes b.contents × (length b.contents ≤ 1024)

crc_recovered :
    (got : List ℕ)
    → IsBytes got
    → (u16_from_be_bytes (crc16 got / 256 % 256) (crc16 got % 256) == crc16 got) ≡ true
crc_recovered got h = (==_iff _ _).1 (u16_round_trip (crc16 got) (crc16-lt got h))

module _ (crates : Crates) where
  -- A frame that follows on a parser between frames is reported, and the parser is there again.
  pub reports-frame_of :
      (got buffer bytes : List ℕ)
      → IsBytes got
      → length got ≤ 1024
      → reports crates (record { state = start; buffer = buffer }) (frame_of got ++ bytes)
        ≡ ok got ∷ reports crates (record { state = start; buffer = got }) bytes
  reports-frame_of got buffer bytes hb h =
      ap
        (λ (t : List ℕ).
          reports crates (record { state = start; buffer = buffer })
            (0x32 ∷ (u16_to_be_bytes (length got + 4) ++ t)))
        (append_assoc got (closing got) bytes)
      ∙ reports_framed crates got buffer _ _ 0x34 bytes h
      ∙ rw (crc_recovered got hb)

  -- A parser between frames reports the contents of every frame of a stream, in order, and
  -- nothing else, where each frame carries at most 1024 bytes and the bytes between the frames
  -- are no start bytes.
  pub reports-on_wire :
      (bursts : List Burst) (buffer : List ℕ)
      → All IsBurst bursts
      → reports crates (record { state = start; buffer = buffer }) (on_wire bursts)
        ≡ map (λ b. ok b.contents) bursts
  reports-on_wire [] buffer h = unfold reports in refl
  reports-on_wire (b ∷ bs) buffer ((quiet, bytes, fits), hs) =
      reports_noise crates b.noise buffer _ quiet
      ∙ reports-frame_of b.contents buffer (on_wire bs) bytes fits
      ∙ ap (λ (t : List Report). ok b.contents ∷ t) (reports-on_wire bs b.contents hs)
