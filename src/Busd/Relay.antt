-- ===== src/Busd/Relay.antt =====
-- From a client through the daemon of busd/src/main.rs to another client: the bytes stay the same.
use samsung_nasa.Base.{
  ℕ, ◌≡◌, ◌≢◌, refl, sym, ap, ◌∙◌, arith, true, if◌then◌else◌, leb, List, [], ◌∷◌, ◌++◌, length,
  map, All, Result, ok, err, ◌>>=◌, after_ok,
}
use samsung_nasa.Crates.{Crates}
use samsung_nasa.Packet.PacketInfo
use samsung_nasa.Packet.Types.{Packet, IsValid}
use samsung_nasa.Packet.Error.{SerializePacketError, buffer_too_short}
use samsung_nasa.Packet.Encoding.{encode}
use samsung_nasa.Packet.RoundTrip.{as_received}
use samsung_nasa.Packet.Serialize.Frame.{wire}
use samsung_nasa.Client.Transport.{Item, received, bytes, closed, packet_stream, serialize_frame}
use samsung_nasa.Client.Transport.Stream.{concat}
use samsung_nasa.Client.Transport.Wire.{send_all, serialize_frame-wire, packet_stream-send_all}
use samsung_nasa.Busd.{and_arrived, recv_stream}

recv_stream-received :
    {E : Type 0} (ps : List Packet)
    → recv_stream {E = E} (map received ps) ≡ ok (record { arrived = ps; ended = true })
unfolding recv_stream
recv_stream-received [] = refl
recv_stream-received (p ∷ ps) = after_ok (λ rx. ok (and_arrived p rx)) (recv_stream-received ps)

map-received :
    (ps : List Packet) → map (λ p. received (as_received p)) ps ≡ map received (map as_received ps)
map-received [] = refl
map-received (p ∷ ps) = ap (λ (t : List Item). received (as_received p) ∷ t) (map-received ps)

as_received-IsValid : (p : Packet) → IsValid p → IsValid (as_received p)
as_received-IsValid p (src, dst, (info, version, retries, reserved), number, payload) =
    (src, dst, (omega arith, version, retries, omega arith), number, payload)

encode-as_received : (p : Packet) → encode (as_received p) ≡ encode p
unfolding PacketInfo.to_byte
encode-as_received p = refl

module _ (crates : Crates) where
  serialize_frame-as_received :
      (p : Packet) → IsValid p → serialize_frame crates (as_received p) ≡ serialize_frame crates p
  serialize_frame-as_received p v =
      serialize_frame-wire crates (as_received p) (as_received-IsValid p v)
      ∙ ap
          (λ (xs : List ℕ).
            if leb (length (wire xs)) 1024 then ok (wire xs) else err buffer_too_short)
          (encode-as_received p)
      ∙ sym (serialize_frame-wire crates p v)

  abbrev in_front :
      Result SerializePacketError (List ℕ)
      → Result SerializePacketError (List ℕ)
      → Result SerializePacketError (List ℕ)
  in_front first rest = first >>= λ xs. rest >>= λ ys. ok (xs ++ ys)

  send_all-as_received :
      (ps : List Packet)
      → All IsValid ps
      → send_all crates (map as_received ps) ≡ send_all crates ps
  unfolding send_all
  send_all-as_received [] h = refl
  send_all-as_received (p ∷ ps) (v, vs) =
      ap (λ r. in_front r (send_all crates (map as_received ps))) (serialize_frame-as_received p v)
      ∙ ap (in_front (serialize_frame crates p)) (send_all-as_received ps vs)

  -- Where valid packets reach the daemon as the bytes of their frames, in reads that are not empty,
  -- cut anywhere, before the client closes: its stream gives them as received, in order, and ends
  -- without a panic; and serialised again, as the daemon sends them on, they are the same bytes.
  pub recv_stream-send_all :
      {E : Type 0} (ps : List Packet) (chunks : List (List ℕ))
      → All IsValid ps
      → send_all crates ps ≡ ok (concat chunks)
      → All (λ c. c ≢ []) chunks
      → (recv_stream {E = E} (packet_stream crates (map bytes chunks ++ (closed ∷ [])))
          ≡ ok (record { arrived = map as_received ps; ended = true }))
        × (send_all crates (map as_received ps) ≡ ok (concat chunks))
  recv_stream-send_all ps chunks h e nonempty = (
    ap recv_stream (packet_stream-send_all crates ps chunks h e nonempty ∙ map-received ps)
        ∙ recv_stream-received (map as_received ps),
    send_all-as_received ps h ∙ e,
  )
