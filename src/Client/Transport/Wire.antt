-- ===== src/Client/Transport/Wire.antt =====
-- From one end of the bus to the other: the packets that are sent are the packets that are
-- received.
use samsung_nasa.Base.{
  ℕ, ◌≤◌, ◌≡◌, ◌≢◌, refl, sym, ap, ◌∙◌, arith, List, [], ◌∷◌, ◌++◌, length, length-append,
  length-replicate, drop, take-append, leb, leb→le, Result, ok, err, ◌>>=◌, All, map, if◌then◌else◌,
  Bool, ok-injective, err-ok, bind-inv, true, false,
}
use samsung_nasa.Crates.{Crates}
use samsung_nasa.Bytes.{IsBytes}
use samsung_nasa.Frame
use samsung_nasa.Frame.{FrameParser, start, max_frame_size}
use samsung_nasa.Frame.Run.{reports, Report, reports_noise}
use samsung_nasa.Frame.Accept.{reports-frame_of}
use samsung_nasa.Frame.Wire.{frame_of, closing}
use samsung_nasa.Packet.Error.{SerializePacketError, buffer_too_short}
use samsung_nasa.Packet.Encoding.{encode}
use samsung_nasa.Packet.Encoding.Size.{encode-IsBytes}
use samsung_nasa.Packet.Types.{Packet, IsValid}
use samsung_nasa.Packet.RoundTrip.{as_received, parse-encode_alone}
use samsung_nasa.Packet.Serialize.Frame.{serialize_frame_lem, wire}
use samsung_nasa.Client.Transport.{Item, received, bytes, closed, serialize_frame, packet_stream}
use samsung_nasa.Client.Transport.Stream.{
  parsed, up_to_crash, item_of, items, concat, packet_stream-items,
}

-- The bytes that are kept of the buffer.
abbrev cut :
    Crates → Result SerializePacketError (ℕ × List ℕ) → Result SerializePacketError (List ℕ)
cut crates r = r >>= λ x. ok (crates.truncate x.0 x.1)

abbrev sent_if_fits : Bool → List ℕ → Result SerializePacketError (List ℕ)
sent_if_fits fits xs = if fits then ok xs else err buffer_too_short

module _ (crates : Crates) where
  cut-if :
      (b : Bool) (xs room : List ℕ)
      → cut crates (if b then ok (length xs, xs ++ room) else err buffer_too_short)
        ≡ (if b then ok xs else err buffer_too_short)
  cut-if true xs room = ap ok (crates.truncate_lem (length xs) (xs ++ room) ∙ take-append xs room)
  cut-if false xs room = refl

  cut-framed :
      (xs room : List ℕ)
      → length room ≡ 1024
      → cut crates (
          if leb (length xs) (length room)
          then ok (length xs, xs ++ drop (length xs) room)
          else err buffer_too_short)
        ≡ sent_if_fits (leb (length xs) 1024) xs
  cut-framed xs room e =
      cut-if (leb (length xs) (length room)) xs (drop (length xs) room)
      ∙ ap (λ (n : ℕ). if leb (length xs) n then ok xs else err buffer_too_short) e

  length-zeroed : length (crates.zeroed max_frame_size) ≡ 1024
  length-zeroed = ap length (crates.zeroed_lem max_frame_size) ∙ length-replicate {A = ℕ} 1024 0

  -- A valid packet is serialised as the preamble and the frame of its encoding, if these have at
  -- most 1024 bytes; the buffer is too short else.
  pub serialize_frame-wire :
      (p : Packet)
      → IsValid p
      → serialize_frame crates p ≡ (
          if leb (length (wire (encode p))) 1024
          then ok (wire (encode p))
          else err buffer_too_short)
  unfolding serialize_frame
  serialize_frame-wire p v =
      ap (cut crates) (serialize_frame_lem crates p (crates.zeroed max_frame_size) v)
      ∙ cut-framed (wire (encode p)) (crates.zeroed max_frame_size) length-zeroed

  -- What is written to the bus for a sequence of packets.
  unfoldable pub send_all : List Packet → Result SerializePacketError (List ℕ)
  send_all [] = ok []
  send_all (p ∷ ps) = do xs ← serialize_frame crates p; rest ← send_all ps; ok (xs ++ rest)

sent_if_fits-ok : (b : Bool) (xs ys : List ℕ) → sent_if_fits b xs ≡ ok ys → (xs ≡ ys) × (b ≡ true)
sent_if_fits-ok true xs ys h = (ok-injective h, refl)
sent_if_fits-ok false xs ys h = absurd (err-ok h)

module _ (crates : Crates) where
  not_start : All (λ (b : ℕ). b ≢ 0x32) (0xfd ∷ 0xf8 ∷ 0xef ∷ 0x7c ∷ [])
  not_start = (
    (λ h. omega (arith, h)),
    ((λ h. omega (arith, h)), ((λ h. omega (arith, h)), ((λ h. omega (arith, h)), tt))),
  )

  reports-wire :
      (got buffer after : List ℕ)
      → IsBytes got
      → length (wire got) ≤ 1024
      → reports crates (record { state = start; buffer = buffer }) (wire got ++ after)
        ≡ ok got ∷ reports crates (record { state = start; buffer = got }) after
  reports-wire got buffer after h fits =
      reports_noise crates (0xfd ∷ 0xf8 ∷ 0xef ∷ 0x7c ∷ []) buffer (frame_of got ++ after) not_start
      ∙ reports-frame_of crates got buffer after h (omega (arith, length-append got (closing got)))

  -- What the parser makes of the packets that are sent.
  reports-send_all :
      (ps : List Packet) (stream buffer : List ℕ)
      → All IsValid ps
      → send_all crates ps ≡ ok stream
      → reports crates (record { state = start; buffer = buffer }) stream
        ≡ map (λ p. ok (encode p)) ps
  unfolding send_all
  reports-send_all [] stream buffer h e =
      ap (reports crates (record { state = start; buffer = buffer })) (sym (ok-injective e))
      ∙ (unfold reports in refl)
  reports-send_all (p ∷ ps) stream buffer (v, vs) e =
      let (xs, here, more) = bind-inv (serialize_frame crates p) _ stream e in
      let (rest, there, joined) = bind-inv (send_all crates ps) _ stream more in
      let (same, fits) =
        sent_if_fits-ok (leb (length (wire (encode p))) 1024) (wire (encode p)) xs
          (sym (serialize_frame-wire crates p v) ∙ here) in
      ap (reports crates (record { state = start; buffer = buffer }))
        (sym (ok-injective joined) ∙ ap (λ (t : List ℕ). t ++ rest) (sym same))
      ∙ reports-wire (encode p) buffer rest (encode-IsBytes p v) (leb→le _ _ fits)
      ∙ ap (λ (t : List Report). ok (encode p) ∷ t) (reports-send_all ps rest (encode p) vs there)

  items-sent :
      (ps : List Packet)
      → All IsValid ps
      → items crates (map (λ p. ok (encode p)) ps) ≡ map (λ p. received (as_received p)) ps
  items-sent [] h = refl
  items-sent (p ∷ ps) (v, vs) =
      ap (λ r. up_to_crash (parsed r ∷ map (item_of crates) (map (λ q. ok (encode q)) ps)))
        (parse-encode_alone crates p v)
      ∙ ap (λ (t : List Item). received (as_received p) ∷ t) (items-sent ps vs)

  -- The packets of one end are the packets of the other: where a sequence of valid packets is
  -- serialised to a stream of bytes, and this stream reaches `packet_stream` in reads that are not
  -- empty, cut anywhere, before the stream is closed, the items are these packets as received, in
  -- order, and nothing else.
  pub packet_stream-send_all :
      (ps : List Packet) (chunks : List (List ℕ))
      → All IsValid ps
      → send_all crates ps ≡ ok (concat chunks)
      → All (λ c. c ≢ []) chunks
      → packet_stream crates (map bytes chunks ++ (closed ∷ []))
        ≡ map (λ p. received (as_received p)) ps
  unfolding Frame.new
  packet_stream-send_all ps chunks h e nonempty =
      packet_stream-items crates chunks nonempty
      ∙ ap (items crates) (reports-send_all ps (concat chunks) [] h e)
      ∙ items-sent ps h
