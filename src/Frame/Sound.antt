-- ===== src/Frame/Sound.antt =====
-- Whatever the parser reports as a frame is one: the bytes that it has just read end in the wire
-- format of the data that it hands out.
use samsung_nasa.Base.{
  ℕ, zero, suc, ◌+◌, ◌-◌, ◌*◌, ◌≤◌, ◌<◌, ◌≡◌, sym, ap, ◌∙◌, arith, List, [], ◌∷◌, ◌++◌,
  append_assoc, append-nil, true, length, length-append, ltb, ◌==◌, Option, none, some, Result, ok,
  err, panic, Bool-cases, inl, inr, ==_iff,
}
use mathlib.Core.Path.{subst}
use samsung_nasa.Bytes.{IsByte, IsBytes, u16_from_be_bytes, u16_to_be_bytes}
use samsung_nasa.Crates.{Crates}
use samsung_nasa.Crc.{crc16}
use samsung_nasa.Frame.{
  FrameParser, State, start, size_hi, size_lo, payload, crc_hi, crc_lo, end, next_data_state, new,
  feed, after,
}
use samsung_nasa.Frame.Wire.{frame_of}
use samsung_nasa.Frame.Steps.{next_data_state-suc, feed-payload}

-- `bytes` ends in `suffix`.
abbrev pub EndsIn : List ℕ → List ℕ → Type 0
EndsIn bytes suffix = (skipped : List ℕ) × (bytes ≡ skipped ++ suffix)

EndsIn-more :
    {bytes suffix : List ℕ} (more : List ℕ)
    → EndsIn bytes suffix
    → EndsIn (bytes ++ more) (suffix ++ more)
EndsIn-more {suffix} more (skipped, e) =
    (skipped, ap (λ (t : List ℕ). t ++ more) e ∙ append_assoc skipped suffix more)

EndsIn-eq : {bytes s t : List ℕ} → s ≡ t → EndsIn bytes s → EndsIn bytes t
EndsIn-eq e (skipped, h) = (skipped, h ∙ ap (λ (t : List ℕ). skipped ++ t) e)

-- A frame up to its data, where `n` bytes of data are announced and `got` have come.
abbrev opening : ℕ → List ℕ → List ℕ
opening n got = 0x32 ∷ (u16_to_be_bytes (n + 4) ++ got)

-- What a state says of the bytes read so far.
abbrev Seen : State → List ℕ → List ℕ → Type 0
Seen start buffer bytes = Unit {0}
Seen size_hi buffer bytes = EndsIn bytes (0x32 ∷ [])
Seen (size_lo hi) buffer bytes = EndsIn bytes (0x32 ∷ hi ∷ []) × IsByte hi
Seen (payload remain) buffer bytes =
    EndsIn bytes (opening (length buffer + remain) buffer)
    × (0 < remain)
    × (length buffer + remain ≤ 1024)
Seen crc_hi buffer bytes = EndsIn bytes (opening (length buffer) buffer) × (length buffer ≤ 1024)
Seen (crc_lo hi) buffer bytes =
    EndsIn bytes (opening (length buffer) buffer ++ (hi ∷ [])) × (length buffer ≤ 1024) × IsByte hi
Seen end buffer bytes =
    EndsIn bytes (opening (length buffer) buffer ++ u16_to_be_bytes (crc16 buffer))
    × (length buffer ≤ 1024)

-- What a report says of them.
abbrev Reports : {E : Type 0} → Result E (Option (List ℕ)) → List ℕ → Type 0
Reports (ok (some got)) bytes = EndsIn bytes (frame_of got) × (length got ≤ 1024)
Reports (ok none) bytes = Unit {0}
Reports (err e) bytes = Unit {0}
Reports panic bytes = Unit {0}

Seen-next_data_state :
    (n : ℕ) (buffer : List ℕ) {bytes : List ℕ}
    → EndsIn bytes (opening (length buffer + n) buffer)
    → length buffer + n ≤ 1024
    → Seen (next_data_state n) buffer bytes
unfolding next_data_state
Seen-next_data_state zero buffer e h =
    (EndsIn-eq (ap (λ (k : ℕ). opening k buffer) (omega arith)) e, omega arith)
Seen-next_data_state (suc n) buffer e h = rw (next_data_state-suc n) (e, omega arith, h)

be_bytes_of : (hi lo : ℕ) → IsByte hi → IsByte lo → u16_to_be_bytes (hi * 256 + lo) ≡ hi ∷ lo ∷ []
be_bytes_of hi lo h l = ground arith

module _ (crates : Crates) where
  abbrev Keeps : State → List ℕ → ℕ → List ℕ → Type 0
  Keeps state buffer byte bytes =
      let (p, r) = feed crates (record { state = state; buffer = buffer }) byte in
      Seen p.state p.buffer (bytes ++ (byte ∷ [])) × Reports r (bytes ++ (byte ∷ []))

  size_lo-Keeps :
      (hi : ℕ) (buffer : List ℕ) (byte : ℕ) (bytes : List ℕ)
      → IsByte byte
      → Seen (size_lo hi) buffer bytes
      → Keeps (size_lo hi) buffer byte bytes
  unfolding feed
  size_lo-Keeps hi buffer byte bytes b (e, h) =
      elim (Bool-cases (ltb (u16_from_be_bytes hi byte) 4)) [
        | inl short ↦ rw short (tt, tt)
        | inr enough ↦ elim (Bool-cases (ltb 1024 (u16_from_be_bytes hi byte - 4))) [
          | inl long ↦ rw (enough, long) (tt, tt)
          | inr fits ↦
              rw (enough, fits)
                (
                  Seen-next_data_state (hi * 256 + byte - 4) []
                      (EndsIn-eq (ground arith) (EndsIn-more (byte ∷ []) e)) (ground arith),
                  tt,
                )
        ]
      ]

  payload-Keeps :
      (remain : ℕ) (buffer : List ℕ) (byte : ℕ) (bytes : List ℕ)
      → Seen (payload remain) buffer bytes
      → Keeps (payload remain) buffer byte bytes
  payload-Keeps remain buffer byte bytes (e, pos, fits) =
      rw (feed-payload crates remain buffer byte (omega arith)) (
        Seen-next_data_state (remain - 1) (buffer ++ (byte ∷ []))
            (EndsIn-eq
              (ap (λ (n : ℕ). opening n (buffer ++ (byte ∷ [])))
                (omega (arith, length-append buffer (byte ∷ []))))
              (EndsIn-more (byte ∷ []) e))
            (omega (arith, length-append buffer (byte ∷ []))),
        tt,
      )

  crc_lo-Keeps :
      (hi : ℕ) (buffer : List ℕ) (byte : ℕ) (bytes : List ℕ)
      → IsByte byte
      → Seen (crc_lo hi) buffer bytes
      → Keeps (crc_lo hi) buffer byte bytes
  unfolding feed
  crc_lo-Keeps hi buffer byte bytes b (e, fits, h) =
      elim (Bool-cases (u16_from_be_bytes hi byte == crc16 buffer)) [
        | inl same ↦ rw same (
          (
            EndsIn-eq
                (ap (opening (length buffer)) (
                  append_assoc buffer (hi ∷ []) (byte ∷ [])
                  ∙ ap (λ (t : List ℕ). buffer ++ t)
                      (sym (be_bytes_of hi byte h b)
                        ∙ ap u16_to_be_bytes ((==_iff _ (crc16 buffer)).0 same))))
                (EndsIn-more (byte ∷ []) e),
            fits,
          ),
          tt,
        )
        | inr other ↦ rw other (tt, tt)
      ]

  end-Keeps :
      (buffer : List ℕ) (byte : ℕ) (bytes : List ℕ)
      → Seen end buffer bytes
      → Keeps end buffer byte bytes
  unfolding feed
  end-Keeps buffer byte bytes (e, fits) = elim (Bool-cases (byte == 0x34)) [
    | inl marker ↦ rw marker (
      tt,
      (EndsIn-eq (ap (opening (length buffer)) (ending marker)) (EndsIn-more (byte ∷ []) e), fits),
    )
    | inr other ↦ rw other (tt, tt)
  ]
    where
      ending :
          (byte == 0x34) ≡ true
          → (buffer ++ u16_to_be_bytes (crc16 buffer)) ++ (byte ∷ [])
            ≡ buffer ++ (u16_to_be_bytes (crc16 buffer) ++ (0x34 ∷ []))
      ending h =
          append_assoc buffer (u16_to_be_bytes (crc16 buffer)) (byte ∷ [])
          ∙ ap (λ (t : ℕ). buffer ++ (u16_to_be_bytes (crc16 buffer) ++ (t ∷ [])))
              ((==_iff byte 0x34).0 h)

  feed-Keeps :
      (state : State) (buffer : List ℕ) (byte : ℕ) (bytes : List ℕ)
      → IsByte byte
      → Seen state buffer bytes
      → Keeps state buffer byte bytes
  unfolding feed
  feed-Keeps start buffer byte bytes b h = elim (Bool-cases (byte == 0x32)) [
    | inl marker ↦
        rw (marker) ((bytes, ap (λ (t : ℕ). bytes ++ (t ∷ [])) ((==_iff byte 0x32).0 marker)), tt)
    | inr other ↦ rw other (tt, tt)
  ]
  feed-Keeps size_hi buffer byte bytes b h = ((EndsIn-more (byte ∷ []) h, b), tt)
  feed-Keeps (size_lo hi) buffer byte bytes b h = size_lo-Keeps hi buffer byte bytes b h
  feed-Keeps (payload remain) buffer byte bytes b h = payload-Keeps remain buffer byte bytes h
  feed-Keeps crc_hi buffer byte bytes b (e, fits) = ((EndsIn-more (byte ∷ []) e, fits, b), tt)
  feed-Keeps (crc_lo hi) buffer byte bytes b h = crc_lo-Keeps hi buffer byte bytes b h
  feed-Keeps end buffer byte bytes b h = end-Keeps buffer byte bytes h

  after-Seen :
      (p : FrameParser) (bytes more : List ℕ)
      → IsBytes more
      → Seen p.state p.buffer bytes
      → let q = after crates p more in Seen q.state q.buffer (bytes ++ more)
  unfolding after
  after-Seen p bytes [] b h = rw (append-nil bytes) h
  after-Seen p bytes (byte ∷ more) (b, bs) h =
      let there =
        after-Seen (feed crates p byte).0 (bytes ++ (byte ∷ [])) more bs
          (feed-Keeps p.state p.buffer byte bytes b h).0 in
      rw (append_assoc bytes (byte ∷ []) more) at there

  -- Soundness: when a new parser that has read `bytes` reports `got` on the next byte, the bytes
  -- read so far, that one included, end in the frame of `got`, and `got` has at most 1024 bytes.
  pub feed_sound :
      (bytes : List ℕ) (byte : ℕ) (got : List ℕ)
      → IsBytes bytes
      → IsByte byte
      → (feed crates (after crates new bytes) byte).1 ≡ ok (some got)
      → EndsIn (bytes ++ (byte ∷ [])) (frame_of got) × (length got ≤ 1024)
  unfolding new
  feed_sound bytes byte got hs h e =
      let p = after crates new bytes in
      let reported = (feed-Keeps p.state p.buffer byte bytes h (after-Seen new [] bytes hs tt)).1 in
      subst (λ r. Reports r (bytes ++ (byte ∷ []))) e reported
