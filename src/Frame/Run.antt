-- ===== src/Frame/Run.antt =====
-- The reports that a parser makes over a run of bytes, in order: what a reader sees who calls
-- `feed` on each byte and passes over `Ok(None)`.
use samsung_nasa.Base.{
  ℕ, suc, ◌+◌, ◌≤◌, ◌≡◌, ◌≢◌, refl, ap, ◌∙◌, arith, List, [], ◌∷◌, ◌++◌, append_assoc, append-nil,
  length, length-append, All, Option, none, some, Result, ok, err, panic, ◌==◌, if◌then◌else◌,
}
use samsung_nasa.Bytes.{u16_from_be_bytes, u16_to_be_bytes}
use samsung_nasa.Crates.{Crates}
use samsung_nasa.Crc.{crc16}
use samsung_nasa.Frame.{
  FrameParser, FrameError, start, crc_hi, bad_crc, bad_frame_end, next_data_state, feed,
}
use samsung_nasa.Frame.Steps.{next_data_state-suc, feed-payload, feed-size_lo}

abbrev pub Report : Type 0
Report = Result FrameError (List ℕ)

-- A panic ends the program, and with it the reports.
abbrev pub emit : Result FrameError (Option (List ℕ)) → List Report → List Report
emit (ok none) rest = rest
emit (ok (some got)) rest = ok got ∷ rest
emit (err e) rest = err e ∷ rest
emit panic rest = panic ∷ []

module _ (crates : Crates) where
  unfoldable pub reports : FrameParser → List ℕ → List Report
  reports p [] = []
  reports p (byte ∷ bytes) = emit (feed crates p byte).1 (reports (feed crates p byte).0 bytes)

  reports_step :
      (p q : FrameParser) (byte : ℕ) (bytes : List ℕ)
      → feed crates p byte ≡ (q, ok none)
      → reports p (byte ∷ bytes) ≡ reports q bytes
  unfolding reports
  reports_step p q byte bytes e = rw e

  pub reports-opening :
      (n : ℕ) (buffer bytes : List ℕ)
      → n ≤ 1024
      → reports
          (record { state = start; buffer = buffer })
          (0x32 ∷ (u16_to_be_bytes (n + 4) ++ bytes))
        ≡ reports (record { state = next_data_state n; buffer = [] }) bytes
  unfolding feed reports
  reports-opening n buffer bytes h = rw (feed-size_lo crates n buffer h)

  pub reports-payload :
      (xs buffer bytes : List ℕ)
      → length buffer + length xs ≤ 1024
      → reports (record { state = next_data_state (length xs); buffer = buffer }) (xs ++ bytes)
        ≡ reports (record { state = crc_hi; buffer = buffer ++ xs }) bytes
  reports-payload [] buffer bytes h = unfold next_data_state in rw append-nil
  reports-payload (x ∷ xs) buffer bytes h = rw (next_data_state-suc (length xs)) (
      reports_step _ _ x (xs ++ bytes)
        (feed-payload crates (suc (length xs)) buffer x (omega arith))
      ∙ ap
          (λ (n : ℕ).
            reports (record { state = next_data_state n; buffer = buffer ++ (x ∷ []) })
              (xs ++ bytes))
          (omega arith)
      ∙ reports-payload xs (buffer ++ (x ∷ [])) bytes (omega (arith, length-append buffer (x ∷ [])))
      ∙ ap (λ (t : List ℕ). reports (record { state = crc_hi; buffer = t }) bytes)
          (append_assoc buffer (x ∷ []) xs))

  -- The three bytes after the data, on every branch.
  pub reports-closing :
      (buffer : List ℕ) (c d e : ℕ) (bytes : List ℕ)
      → let idle : FrameParser = record { state = start; buffer = buffer } in
        reports (record { state = crc_hi; buffer = buffer }) (c ∷ d ∷ e ∷ bytes) ≡ (
          if u16_from_be_bytes c d == crc16 buffer
          then (if e == 0x34
              then ok buffer ∷ reports idle bytes
              else err (bad_frame_end e) ∷ reports idle bytes)
          else err (bad_crc (u16_from_be_bytes c d) (crc16 buffer)) ∷ reports idle (e ∷ bytes))
  unfolding feed reports
  reports-closing buffer c d e bytes = ground arith

  -- What a parser between frames reports on a start byte, the size of `got`, the bytes of `got`,
  -- and any three bytes `c`, `d` and `e`: `got` where `c` and `d` are its CRC and `e` is the end
  -- marker, and one error else, with the parser between frames again. After a wrong CRC `e` is
  -- read anew.
  pub reports_framed :
      (got buffer : List ℕ) (c d e : ℕ) (bytes : List ℕ)
      → length got ≤ 1024
      → let idle : FrameParser = record { state = start; buffer = got } in
        reports
          (record { state = start; buffer = buffer })
          (0x32 ∷ (u16_to_be_bytes (length got + 4) ++ (got ++ (c ∷ d ∷ e ∷ bytes))))
        ≡ (if u16_from_be_bytes c d == crc16 got
            then (if e == 0x34
                then ok got ∷ reports idle bytes
                else err (bad_frame_end e) ∷ reports idle bytes)
            else err (bad_crc (u16_from_be_bytes c d) (crc16 got)) ∷ reports idle (e ∷ bytes))
  reports_framed got buffer c d e bytes h =
      reports-opening (length got) buffer (got ++ (c ∷ d ∷ e ∷ bytes)) h
      ∙ reports-payload got [] (c ∷ d ∷ e ∷ bytes) (omega arith)
      ∙ reports-closing got c d e bytes

  -- Bytes that are no start byte pass in silence.
  pub reports_noise :
      (noise buffer bytes : List ℕ)
      → All (λ b. b ≢ 0x32) noise
      → reports (record { state = start; buffer = buffer }) (noise ++ bytes)
        ≡ reports (record { state = start; buffer = buffer }) bytes
  unfolding feed reports
  reports_noise [] buffer bytes h = refl
  reports_noise (b ∷ noise) buffer bytes (h, hs) =
      ground (arith, reports_noise noise buffer bytes hs)
