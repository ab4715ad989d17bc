-- ===== src/Frame/Corrupt.antt =====
-- A damaged frame is refused, and the next frame is read all the same.
use samsung_nasa.Base.{
  ℕ, ◌+◌, ◌/◌, ◌%◌, ◌≤◌, ◌≡◌, ◌∙◌, arith, List, [], ◌∷◌, ◌++◌, length, length-append, err, false,
  ==_iff, Bool-cases, inl, inr, ◌==◌,
}
use samsung_nasa.Bytes.{IsByte, IsBytes, IsBytes-append, u16_to_be_bytes, u16_round_trip}
use samsung_nasa.Crates.{Crates}
use samsung_nasa.Crc.{crc16}
use samsung_nasa.Crc.Detect.{crc16-lt, crc16_detects_burst}
use samsung_nasa.Frame.{start, bad_crc}
use samsung_nasa.Frame.Run.{reports, reports_framed, reports_noise}
use samsung_nasa.Frame.Wire.{closing}

different :
    (before after : List ℕ) (x y x' y' : ℕ)
    → IsBytes before
    → IsBytes after
    → (IsByte x × IsByte y) × (IsByte x' × IsByte y')
    → ¬ ((x ≡ x') × (y ≡ y'))
    → (crc16 (before ++ (x ∷ y ∷ after)) == crc16 (before ++ (x' ∷ y' ∷ after))) ≡ false
different before after x y x' y' hb ha ((hx, hy), (hx', hy')) ne =
    elim (Bool-cases (crc16 (before ++ (x ∷ y ∷ after)) == crc16 (before ++ (x' ∷ y' ∷ after)))) [
      | inl same ↦ absurd (
          ne (crc16_detects_burst before after x y x' y' hb ha hx hy hx' hy' ((==_iff _ _).0 same)))
      | inr other ↦ other
    ]

length_same :
    (before after : List ℕ) (x y x' y' : ℕ)
    → length (before ++ (x ∷ y ∷ after)) ≡ length (before ++ (x' ∷ y' ∷ after))
length_same before after x y x' y' =
    omega (arith, length-append before (x ∷ y ∷ after), length-append before (x' ∷ y' ∷ after))

module _ (crates : Crates) where
  -- A parser between frames reads the frame of at most 1024 bytes, two adjacent ones of which
  -- arrive as two other bytes: it reports one error, a CRC mismatch with both CRCs, is between
  -- frames again, and goes on with the bytes after the frame.
  pub reports_damaged :
      (before after buffer bytes : List ℕ) (x y x' y' : ℕ)
      → IsBytes before
      → IsBytes after
      → (IsByte x × IsByte y) × (IsByte x' × IsByte y')
      → ¬ ((x ≡ x') × (y ≡ y'))
      → length (before ++ (x ∷ y ∷ after)) ≤ 1024
      → let sent = before ++ (x ∷ y ∷ after) in
        let received = before ++ (x' ∷ y' ∷ after) in
        reports crates
          (record { state = start; buffer = buffer })
          (0x32 ∷ (u16_to_be_bytes (length sent + 4) ++ (received ++ (closing sent ++ bytes))))
        ≡ err (bad_crc (crc16 sent) (crc16 received))
          ∷ reports crates (record { state = start; buffer = received }) bytes
  reports_damaged before after buffer bytes x y x' y' hb ha hs ne fits =
      let sent : List ℕ = before ++ (x ∷ y ∷ after) in
      let received : List ℕ = before ++ (x' ∷ y' ∷ after) in
      let word : IsBytes sent = IsBytes-append before (x ∷ y ∷ after) hb (hs.0.0, (hs.0.1, ha)) in
      rw (length_same before after x y x' y') (
        reports_framed crates received buffer (crc16 sent / 256 % 256) (crc16 sent % 256) 0x34 bytes
          (omega (arith, length_same before after x y x' y'))
        ∙ rw (
          u16_round_trip (crc16 sent) (crc16-lt sent word),
          different before after x y x' y' hb ha hs ne,
          reports_noise crates (0x34 ∷ []) received bytes (omega arith),
        ))
