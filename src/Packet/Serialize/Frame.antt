-- ===== src/Packet/Serialize/Frame.antt =====
-- `serialize_frame` on every branch: the preamble and the frame of the encoding, or no room.
use samsung_nasa.Base.{
  ℕ, ◌+◌, ◌-◌, ◌≤◌, ◌<◌, ◌≡◌, refl, sym, ap, ◌∙◌, arith, List, [], ◌∷◌, ◌++◌, append_assoc, length,
  length-append, length-drop, drop, take-append, drop-append, drop-append_more, leb, le→leb, lt→leb,
  Result, ok, err, panic, if◌then◌else◌, Bool, true, false,
}
use samsung_nasa.Base.Stateful.{◌>>=◌, bind-ok, bind-err, lift}
use samsung_nasa.Bytes.{u16_to_be_bytes}
use samsung_nasa.Crates.{Crates}
use samsung_nasa.Crc.{crc16}
use samsung_nasa.Frame.Wire.{frame_of, closing}
use samsung_nasa.Packet.Error.{SerializePacketError, buffer_too_short}
use samsung_nasa.Packet.Types.{Packet, IsValid}
use samsung_nasa.Packet.Encoding.{encode}
use samsung_nasa.Packet.Encoding.Size.{length-encode}
use samsung_nasa.Packet.Writer.{PacketWriter, Writer, write_u8, write_u16, written, patch, slice_of}
use samsung_nasa.Packet.Writer.Emits.{
  Emits, Emits-then, write_bytes-Emits, writer, appended_fits, appended_full, drop-drop,
}
use samsung_nasa.Packet.Serialize.{
  serialize, write_preamble, frame_length, write_frame, serialize_frame,
}
use samsung_nasa.Packet.Serialize.Emits.{serialize-Emits}
use native.Mathlib.Decide.{dec_le}

abbrev preamble : List ℕ
preamble = 0xfd ∷ 0xf8 ∷ 0xef ∷ 0x7c ∷ 0x32 ∷ []

write_preamble-Emits : Emits write_preamble preamble
unfolding write_preamble
write_preamble-Emits =
    Emits-then (write_u8 0xfd) _ (0xfd ∷ []) (0xf8 ∷ 0xef ∷ 0x7c ∷ 0x32 ∷ []) (write_bytes-Emits _)
      (Emits-then (write_u8 0xf8) _ (0xf8 ∷ []) (0xef ∷ 0x7c ∷ 0x32 ∷ []) (write_bytes-Emits _) (
        Emits-then (write_u8 0xef) _ (0xef ∷ []) (0x7c ∷ 0x32 ∷ []) (write_bytes-Emits _) (
          Emits-then (write_u8 0x7c) (write_u8 0x32) (0x7c ∷ []) (0x32 ∷ []) (write_bytes-Emits _)
            (write_bytes-Emits _))))

-- A write in front of more, by whether it fits.
emit_then :
    {A : Type 0} (m : Writer (Unit {0})) (f : Unit {0} → Writer A) (xs out room : List ℕ)
    (result : Result SerializePacketError (A × PacketWriter))
    → Emits m xs
    → (length xs ≤ length room → f tt (writer (out ++ xs) (drop (length xs) room)) ≡ result)
    → (length room < length xs → result ≡ err buffer_too_short)
    → (m >>= f) (writer out room) ≡ result
emit_then m f xs out room result h fits full = elim (dec_le (length xs) (length room)) [
  | yes p ↦ bind-ok m f (h out room ∙ appended_fits xs out room p) ∙ fits p
  | no p ↦
      bind-err m f (h out room ∙ appended_full xs out room (omega arith)) ∙ sym (full (omega arith))
]

slice_of-middle : (a b c : List ℕ) → slice_of (length a) (length (a ++ b)) ((a ++ b) ++ c) ≡ ok b
unfolding slice_of
slice_of-middle a b c = rw (
  le→leb (length a) (length (a ++ b)) (omega (arith, length-append a b)),
  le→leb (length (a ++ b)) (length ((a ++ b) ++ c)) (omega (arith, length-append (a ++ b) c)),
  width,
  append_assoc a b c,
  drop-append a (b ++ c),
  take-append b c,
)
  where
    width : length (a ++ b) - length a ≡ length b
    width = omega (arith, length-append a b)

written-middle :
    (a b c : List ℕ)
    → written (length a) (length (a ++ b)) (writer (a ++ b) c) ≡ ok (b, writer (a ++ b) c)
written-middle a b c = ap (λ r. lift r (writer (a ++ b) c)) (slice_of-middle a b c)

patch-middle :
    (a z s b c : List ℕ)
    → length z ≡ length s
    → patch (length a) s (writer (a ++ (z ++ b)) c) ≡ ok (tt, writer (a ++ (s ++ b)) c)
unfolding patch
patch-middle a z s b c e = rw (
  append_assoc a (z ++ b) c,
  append_assoc z b c,
  append_assoc a (s ++ b) c,
  append_assoc s b c,
  le→leb (length a + length s) (length (a ++ (z ++ (b ++ c))))
      (omega (arith, length-append a (z ++ (b ++ c)), length-append z (b ++ c), e)),
  take-append a (z ++ (b ++ c)),
  drop-append_more a (z ++ (b ++ c)) (length s),
  ← e,
  drop-append z (b ++ c),
  length-append a (z ++ b),
  length-append z b,
  length-append a (s ++ b),
  length-append s b,
  e,
)

abbrev pub wire : List ℕ → List ℕ
wire bytes = 0xfd ∷ 0xf8 ∷ 0xef ∷ 0x7c ∷ frame_of bytes

-- The frame of a packet, where it fits the buffer.
abbrev pub framed : List ℕ → List ℕ → Result SerializePacketError (ℕ × List ℕ)
framed bytes room =
    if leb (length (wire bytes)) (length room)
    then ok (length (wire bytes), wire bytes ++ drop (length (wire bytes)) room)
    else err buffer_too_short

length-wire : (bytes : List ℕ) → length (wire bytes) ≡ length bytes + 10
length-wire bytes = omega (arith, length-append bytes (closing bytes))

module _ (crates : Crates) (p : Packet) (bytes : List ℕ) (emits : Emits (serialize crates p) bytes)
    (short : length bytes < 65532) where
  abbrev target : List ℕ → Result SerializePacketError (ℕ × PacketWriter)
  target room =
      if leb (length (wire bytes)) (length room)
      then ok (length (wire bytes), writer (wire bytes) (drop (length (wire bytes)) room))
      else err buffer_too_short

  no_room : (room : List ℕ) → length room < length bytes + 10 → target room ≡ err buffer_too_short
  no_room room h =
      rw (lt→leb (length (wire bytes)) (length room) (omega (arith, length-wire bytes)))

  abbrev crc : List ℕ
  crc = u16_to_be_bytes (crc16 bytes)

  abbrev size : List ℕ
  size = u16_to_be_bytes (length bytes + 4)

  -- What is left of the room after each write.
  module _ (room : List ℕ) where
    abbrev room1 : List ℕ
    room1 = drop 5 room

    abbrev room2 : List ℕ
    room2 = drop 2 room1

    abbrev room3 : List ℕ
    room3 = drop (length bytes) room2

    abbrev room4 : List ℕ
    room4 = drop 2 room3

    length-room3 : length room3 ≡ length room - (length bytes + 7)
    length-room3 =
        omega (arith, length-drop 5 room, length-drop 2 room1, length-drop (length bytes) room2)

    room_in_all : drop 1 room4 ≡ drop (length (wire bytes)) room
    room_in_all =
        let all : 5 + (2 + (length bytes + 3)) ≡ length (wire bytes) =
          omega (arith, length-wire bytes) in
        drop-drop 2 1 room3
        ∙ drop-drop (length bytes) 3 room2
        ∙ drop-drop 2 (length bytes + 3) room1
        ∙ drop-drop 5 (2 + (length bytes + 3)) room
        ∙ ap (λ (n : ℕ). drop n room) all

    -- The writer at the end, where all has fitted.
    frame_complete :
        length bytes + 10 ≤ length room
        → ok (
          length ((preamble ++ (size ++ (bytes ++ crc))) ++ (0x34 ∷ [])),
          writer ((preamble ++ (size ++ (bytes ++ crc))) ++ (0x34 ∷ [])) (drop 1 room4),
        )
          ≡ target room
    frame_complete fits =
        rw
          (
            append_assoc bytes crc (0x34 ∷ []),
            room_in_all,
            le→leb (length (wire bytes)) (length room) (omega (arith, length-wire bytes)),
          )
          refl

    frame_length_fits :
        (w : PacketWriter)
        → frame_length (length ((preamble ++ (0 ∷ 0 ∷ bytes)) ++ crc) - 5) w
          ≡ ok (length bytes + 4, w)
    unfolding frame_length
    frame_length_fits w = ground (arith, length-append bytes crc)

    write_frame_lem : write_frame crates p (writer [] room) ≡ target room
    unfolding write_frame
    write_frame_lem =
        emit_then write_preamble _ preamble [] room (target room) write_preamble-Emits
          (λ h1.
            emit_then (write_u16 0) _ (0 ∷ 0 ∷ []) preamble room1 (target room)
              (write_bytes-Emits _)
              (λ h2.
                emit_then (serialize crates p) _ bytes (preamble ++ (0 ∷ 0 ∷ [])) room2
                  (target room) emits
                  (λ h3.
                    bind-ok (written 7 (length (preamble ++ (0 ∷ 0 ∷ bytes)))) _
                      (written-middle (preamble ++ (0 ∷ 0 ∷ [])) bytes room3)
                    ∙ emit_then (write_u16 (crc16 bytes)) _ crc (preamble ++ (0 ∷ 0 ∷ bytes)) room3
                        (target room) (write_bytes-Emits crc)
                        (λ h4.
                          bind-ok (frame_length _) _ (frame_length_fits _)
                          ∙ bind-ok (patch 5 size) _
                              (patch-middle preamble (0 ∷ 0 ∷ []) size (bytes ++ crc) room4 refl)
                          ∙ emit_then (write_u8 0x34) _ (0x34 ∷ [])
                              (preamble ++ (size ++ (bytes ++ crc))) room4 (target room)
                              (write_bytes-Emits (0x34 ∷ []))
                              (λ h5.
                                frame_complete (omega (arith, length-room3, length-drop 2 room3)))
                              (λ f.
                                no_room room (omega (arith, length-room3, length-drop 2 room3))))
                        (λ f. no_room room (omega (arith, length-room3))))
                  (λ f. no_room room (omega (arith, length-drop 5 room, length-drop 2 room1))))
              (λ f. no_room room (omega (arith, length-drop 5 room))))
          (λ f. no_room room (omega arith))

abbrev kept :
    Result SerializePacketError (ℕ × PacketWriter) → Result SerializePacketError (ℕ × List ℕ)
kept r = elim r [ ok (n, w) ↦ ok (n, w.buff) | err e ↦ err e | panic ↦ panic ]

kept-if :
    (b : Bool) (n : ℕ) (w : PacketWriter)
    → kept (if b then ok (n, w) else err buffer_too_short)
      ≡ (if b then ok (n, w.buff) else err buffer_too_short)
kept-if true n w = refl
kept-if false n w = refl

-- On a valid packet `serialize_frame` writes the preamble and the frame of its encoding over the
-- start of the buffer, leaves the rest of the buffer, and returns the number of bytes written;
-- or it fails for want of room, where the buffer is shorter than that. It fails in no other way.
pub serialize_frame_lem :
    (crates : Crates) (p : Packet) (out : List ℕ)
    → IsValid p
    → serialize_frame crates p out ≡ framed (encode p) out
unfolding serialize_frame
serialize_frame_lem crates p out (_, _, _, _, h) =
    ap kept
      (write_frame_lem crates p (encode p) (serialize-Emits crates p h) (length-encode p h) out)
    ∙ kept-if (leb (length (wire (encode p))) (length out)) (length (wire (encode p))) _
