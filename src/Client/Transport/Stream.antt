-- ===== src/Client/Transport/Stream.antt =====
-- The packet stream depends on the bytes alone, not on how the reads cut them up.
use samsung_nasa.Base.{
  ℕ, ◌≡◌, ◌≢◌, refl, ap, ◌∙◌, List, [], ◌∷◌, ◌++◌, map, All, Option, none, some, Result, ok, err,
  panic,
}
use samsung_nasa.Crates.{Crates}
use samsung_nasa.Frame.{FrameParser, FrameError, feed, start}
use samsung_nasa.Frame
use samsung_nasa.Frame.Run.{Report, emit, reports}
use samsung_nasa.Packet.Error.{PacketError}
use samsung_nasa.Packet.Parse.{parse}
use samsung_nasa.Packet.Types.{Packet}
use samsung_nasa.Client.Transport.{
  ReadPacketError, bytes, closed, Item, received, bad, crashed, frame, packet, yields_packet,
  yields, packet_stream_bytes, packet_stream_from, packet_stream, read,
}

abbrev pub concat : List (List ℕ) → List ℕ
concat [] = []
concat (c ∷ cs) = c ++ concat cs

abbrev pub parsed : Result PacketError Packet → Item
parsed (ok p) = received p
parsed (err e) = bad (packet e)
parsed panic = crashed

-- A panic is the end of the stream.
abbrev pub up_to_crash : List Item → List Item
up_to_crash [] = []
up_to_crash (crashed ∷ is) = crashed ∷ []
up_to_crash (i ∷ is) = i ∷ up_to_crash is

module _ (crates : Crates) where
  -- The item of a report: the packet of a frame, or its error, or the error of the parser.
  abbrev pub item_of : Report → Item
  item_of (ok got) = parsed (parse crates got)
  item_of (err e) = bad (frame e)
  item_of panic = crashed

  -- The items of a run of reports.
  abbrev pub items : List Report → List Item
  items rs = up_to_crash (map item_of rs)

  yields_packet-items :
      (r : Result PacketError Packet) (is : List Item)
      → yields_packet crates r (up_to_crash is) ≡ up_to_crash (parsed r ∷ is)
  unfolding yields_packet
  yields_packet-items (ok p) is = refl
  yields_packet-items (err e) is = refl
  yields_packet-items panic is = refl

  yields-items :
      (r : Result FrameError (Option (List ℕ))) (rs : List Report)
      → yields crates r (items rs) ≡ items (emit r rs)
  unfolding yields
  yields-items (ok none) rs = refl
  yields-items (ok (some got)) rs = yields_packet-items (parse crates got) (map item_of rs)
  yields-items (err e) rs = refl
  yields-items panic rs = refl

  packet_stream_bytes-items :
      (next : FrameParser → List Item) (rest : List ℕ)
      → ((q : FrameParser) → next q ≡ items (reports crates q rest))
      → (p : FrameParser) (bs : List ℕ)
      → packet_stream_bytes crates next p bs ≡ items (reports crates p (bs ++ rest))
  unfolding packet_stream_bytes reports
  packet_stream_bytes-items next rest h p [] = h p
  packet_stream_bytes-items next rest h p (b ∷ bs) =
      ap (yields crates (feed crates p b).1)
        (packet_stream_bytes-items next rest h (feed crates p b).0 bs)
      ∙ yields-items (feed crates p b).1 (reports crates (feed crates p b).0 (bs ++ rest))

  packet_stream_from-items :
      (chunks : List (List ℕ)) (p : FrameParser)
      → All (λ c. c ≢ []) chunks
      → packet_stream_from crates (map bytes chunks ++ (closed ∷ [])) p
        ≡ items (reports crates p (concat chunks))
  unfolding packet_stream_from
  packet_stream_from-items [] p h = unfold reports in refl
  packet_stream_from-items ([] ∷ cs) p (h, hs) = absurd (h refl)
  packet_stream_from-items ((b ∷ bs) ∷ cs) p (h, hs) =
      packet_stream_bytes-items (packet_stream_from crates (map bytes cs ++ (closed ∷ [])))
        (concat cs) (λ q. packet_stream_from-items cs q hs) p (b ∷ bs)

  -- Whatever non-empty reads bring the bytes, the stream yields one item for each report of the
  -- parser on the joined bytes, in order, and nothing more once the other side has closed: the packet
  -- of a frame, its error where it does not parse, or the error of a bad frame. Only a panic ends it
  -- before.
  pub packet_stream-items :
      (chunks : List (List ℕ))
      → All (λ c. c ≢ []) chunks
      → packet_stream crates (map bytes chunks ++ (closed ∷ []))
        ≡ items (reports crates Frame.new (concat chunks))
  unfolding packet_stream
  packet_stream-items chunks h = packet_stream_from-items chunks Frame.new h

-- The first packet of a run of items, past the bad ones in front of it.
pub read-received :
    (es : List ReadPacketError) (p : Packet) (rest : List Item)
    → read (map bad es ++ (received p ∷ rest)) ≡ (ok p, rest)
unfolding read
read-received [] p rest = refl
read-received (e ∷ es) p rest = read-received es p rest
