-- ===== src/Monitor/Shown.antt =====
-- What the monitor of monitor/src/main.rs writes for the packets of a bus.
use samsung_nasa.Base.{
  ℕ, zero, suc, ◌<◌, ◌≡◌, ◌≢◌, refl, ap, ◌∙◌, arith, Bool, Bool-cases, ◌||◌, inl, inr,
  if◌then◌else◌, List, [], ◌∷◌, ◌++◌, length, map, All, ok,
}
use samsung_nasa.Crates.{Crates}
use samsung_nasa.Packet.Address.{Address}
use samsung_nasa.Packet.Types.{Packet, IsValid}
use samsung_nasa.Packet.RoundTrip.{as_received}
use samsung_nasa.Pretty.{pretty_print}
use samsung_nasa.Client.Transport.{received, bytes, closed, unexpected_eof, read, packet_stream}
use samsung_nasa.Client.Transport.Stream.{concat}
use samsung_nasa.Client.Transport.Wire.{send_all, packet_stream-send_all}
use samsung_nasa.Monitor.{contains, End, failed, print_packet, monitor}

-- The text of a packet, or nothing where it is from or to an ignored address.
abbrev pub shown : Bool → List Address → Packet → List ℕ
shown use_color ignore packet =
    if contains ignore packet.source || contains ignore packet.destination
    then []
    else pretty_print use_color packet

print_packet-shown :
    (use_color : Bool) (ignore : List Address) (p : Packet) (rest : List ℕ × End)
    → print_packet use_color ignore p rest ≡ (shown use_color ignore p ++ rest.0, rest.1)
unfolding print_packet
print_packet-shown use_color ignore p rest =
    elim (Bool-cases (contains ignore p.source || contains ignore p.destination)) [
      | inl h ↦ rw h refl
      | inr h ↦ rw h refl
    ]

monitor-received :
    (use_color : Bool) (ignore : List Address) (ps : List Packet) (fuel : ℕ)
    → length ps < fuel
    → monitor fuel use_color ignore (map (λ p. received (as_received p)) ps)
      ≡ (concat (map (λ p. shown use_color ignore (as_received p)) ps), failed unexpected_eof)
unfolding monitor read
monitor-received use_color ignore ps zero h = absurd (omega arith)
monitor-received use_color ignore [] (suc fuel) h = refl
monitor-received use_color ignore (p ∷ ps) (suc fuel) h =
    print_packet-shown use_color ignore (as_received p)
      (monitor fuel use_color ignore (map (λ p. received (as_received p)) ps))
    ∙ ap (λ (r : List ℕ × End). (shown use_color ignore (as_received p) ++ r.0, r.1))
        (monitor-received use_color ignore ps fuel (omega arith))

module _ (crates : Crates) where
  -- Where valid packets reach the monitor as the bytes of their frames, in reads that are not empty,
  -- cut anywhere, before the bus closes: it writes the text of each of them as received that is
  -- neither from nor to an ignored address, in order, and nothing else, and ends by the end of the
  -- stream, within one round for each packet and one more.
  pub monitor-send_all :
      (use_color : Bool) (ignore : List Address) (ps : List Packet) (chunks : List (List ℕ))
      (fuel : ℕ)
      → All IsValid ps
      → send_all crates ps ≡ ok (concat chunks)
      → All (λ c. c ≢ []) chunks
      → length ps < fuel
      → monitor fuel use_color ignore (packet_stream crates (map bytes chunks ++ (closed ∷ [])))
        ≡ (concat (map (λ p. shown use_color ignore (as_received p)) ps), failed unexpected_eof)
  monitor-send_all use_color ignore ps chunks fuel h e nonempty enough =
      ap (monitor fuel use_color ignore) (packet_stream-send_all crates ps chunks h e nonempty)
      ∙ monitor-received use_color ignore ps fuel enough
