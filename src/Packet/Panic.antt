-- ===== src/Packet/Panic.antt =====
-- Where `parse` panics: at the arm `unreachable!()` of `DataType::from_u4`, and nowhere else.
mod Safe
use samsung_nasa.Packet.Panic.Safe.{
  read_rest-IsSafe, same-no_panic, err-no_panic, read_u8-nil, read_address-short,
}
use samsung_nasa.Base.{
  ℕ, zero, suc, ◌+◌, ◌/◌, ◌%◌, ◌^◌, ◌≤◌, ◌<◌, bit_and, ◌≡◌, ◌≢◌, refl, sym, ap, ◌∙◌, ◌↔◌, arith,
  List, [], ◌∷◌, ◌++◌, length, length-append, All, Option, some, none, ltb, leb, lt→ltb, lt→leb,
  le→leb, Result, ok, err, panic, Bool, true, false, if◌then◌else◌,
}
use samsung_nasa.Base.Stateful.{◌>>=◌, ◌>>◌, bind-ok, bind-err, bind-panic, lift-ok, lift, pure}
use samsung_nasa.Bits.Fields.{and-fifteen}
use samsung_nasa.Bytes.{IsByte, IsBytes}
use samsung_nasa.Crates.{Crates}
use samsung_nasa.Packet.Error.{PacketError, unknown_packet_type, too_short}
use samsung_nasa.Packet.Address.{Address}
use samsung_nasa.Packet.PacketInfo
use samsung_nasa.Packet.PacketType
use samsung_nasa.Packet.DataType
use samsung_nasa.Packet.MessageKind
use samsung_nasa.Packet.MessageKind.{MessageKind}
use samsung_nasa.Packet.Types.{Payload, Packet}
use samsung_nasa.Packet.Value.{Message, Value}
use samsung_nasa.Packet.Reader.{Reader, read_array, read_u8, read_u16, read_u32}
use samsung_nasa.Packet.Reader.Steps.{read_u8-cons, read_array_short}
use samsung_nasa.Packet.Parse.{
  read_value, unwrap, read_structure, read_messages, read_payload, read_address, read_packet, parse,
}
use samsung_nasa.Packet.RoundTrip.{read_address-cons}
use native.Mathlib.Decide.{dec_le}

module _ (crates : Crates) where
  abbrev after_types : Address → Address → ℕ → ℕ → Reader Packet
  after_types source destination info byte = do
    packet_type ← lift (PacketType.from_u4 (crates.uint 4 (byte / 2 ^ 4)))
    data_type ← lift (DataType.from_u4 (crates.uint 4 (bit_and byte 0xf)))
    packet_number ← read_u8
    message_count ← read_u8
    payload ← read_payload crates message_count
    pure (record {
      source = source;
      destination = destination;
      packet_info = PacketInfo.from_byte crates info;
      packet_type = packet_type;
      data_type = data_type;
      packet_number = packet_number;
      payload = payload;
    })

  read_packet-header :
      (a b c d e f info byte : ℕ) (rest : List ℕ)
      → read_packet crates (a ∷ b ∷ c ∷ d ∷ e ∷ f ∷ info ∷ byte ∷ rest)
        ≡ after_types
            (record { class = a; channel = b; address = c })
            (record { class = d; channel = e; address = f })
            info
            byte
            rest
  unfolding read_packet
  read_packet-header a b c d e f info byte rest =
      bind-ok read_address _ (read_address-cons a b c _)
      ∙ bind-ok read_address _ (read_address-cons d e f _)
      ∙ bind-ok read_u8 _ (read_u8-cons info _)
      ∙ bind-ok read_u8 _ (read_u8-cons byte _)

  module _ (source destination : Address) (info byte : ℕ) (rest : List ℕ) (h : IsByte byte) where
    high : crates.uint 4 (byte / 2 ^ 4) ≡ byte / 16
    high = crates.uint_lem 4 (byte / 2 ^ 4) (omega arith)

    low : crates.uint 4 (bit_and byte 0xf) ≡ byte % 16
    low = crates.uint_lem 4 _ (omega (arith, and-fifteen byte)) ∙ omega (arith, and-fifteen byte)

    after_types-err :
        5 ≤ byte / 16
        → after_types source destination info byte rest ≡ err (unknown_packet_type (byte / 16))
    after_types-err k = bind-err (lift (PacketType.from_u4 _)) _ (
        ap (λ r. lift r rest)
          (ap PacketType.from_u4 high ∙ PacketType.from_u4-eq-err (byte / 16) k))

    after_types-panic :
        byte / 16 < 5 → 8 ≤ byte % 16 → after_types source destination info byte rest ≡ panic
    after_types-panic j k =
        let (t, e) = PacketType.from_u4_total (byte / 16) j in
        lift-ok (PacketType.from_u4 _) _ rest (ap PacketType.from_u4 high ∙ e)
        ∙ bind-panic (lift (DataType.from_u4 _)) _ (
            ap (λ r. lift r rest)
              (ap DataType.from_u4 low ∙ DataType.from_u4-eq-panic (byte % 16) k))

    after_types-IsSafe :
        byte % 16 < 8 → IsBytes rest → after_types source destination info byte rest ≢ panic
    after_types-IsSafe k bytes = elim (dec_le 5 (byte / 16)) [
      | yes j ↦ err-no_panic (after_types-err j)
      | no j ↦
          let (t, known) = PacketType.from_u4_total (byte / 16) (omega arith) in
          let (d, also) = DataType.from_u4_total (byte % 16) k in
          same-no_panic
            (lift-ok (PacketType.from_u4 _) _ rest (ap PacketType.from_u4 high ∙ known)
              ∙ lift-ok (DataType.from_u4 _) _ rest (ap DataType.from_u4 low ∙ also))
            (read_rest-IsSafe crates _ rest bytes)
    ]

abbrev pub HasUnknownDataType : List ℕ → Type 0
HasUnknownDataType (a ∷ b ∷ c ∷ d ∷ e ∷ f ∷ info ∷ types ∷ rest) =
    (types / 16 < 5) × (8 ≤ types % 16)
HasUnknownDataType _ = ⊥

module _ (crates : Crates) where
  parse-no_panic : (bytes : List ℕ) → read_packet crates bytes ≢ panic → parse crates bytes ≢ panic
  unfolding parse
  parse-no_panic bytes h e = ground arith

  no_panic :
      (bytes : List ℕ)
      → read_packet crates bytes ≢ panic
      → ¬ HasUnknownDataType bytes
      → (parse crates bytes ≡ panic) ↔ HasUnknownDataType bytes
  no_panic bytes h k = ((λ e. absurd (parse-no_panic bytes h e)), λ j. absurd (k j))

  -- Without the bytes of two addresses nothing else is read.
  one_short : (left : List ℕ) → length left < 3 → read_packet crates left ≢ panic
  unfolding read_packet
  one_short left h = err-no_panic (bind-err read_address _ (read_address-short left h))

  two_short :
      (a b c : ℕ) (left : List ℕ) → length left < 3 → read_packet crates (a ∷ b ∷ c ∷ left) ≢ panic
  unfolding read_packet
  two_short a b c left h = err-no_panic (
      bind-ok read_address _ (read_address-cons a b c left)
      ∙ bind-err read_address _ (read_address-short left h))

  no_types :
      (a b c d e f : ℕ) (left : List ℕ)
      → length left < 2
      → read_packet crates (a ∷ b ∷ c ∷ d ∷ e ∷ f ∷ left) ≢ panic
  unfolding read_packet
  no_types a b c d e f [] h = err-no_panic (
      bind-ok read_address _ (read_address-cons a b c _)
      ∙ bind-ok read_address _ (read_address-cons d e f [])
      ∙ bind-err read_u8 _ read_u8-nil)
  no_types a b c d e f (info ∷ []) h = err-no_panic (
      bind-ok read_address _ (read_address-cons a b c _)
      ∙ bind-ok read_address _ (read_address-cons d e f _)
      ∙ bind-ok read_u8 _ (read_u8-cons info [])
      ∙ bind-err read_u8 _ read_u8-nil)
  no_types a b c d e f (x ∷ y ∷ left) h = absurd (omega arith)

  decide_types :
      (a b c d e f info types : ℕ) (rest : List ℕ)
      → IsByte types
      → IsBytes rest
      → (parse crates (a ∷ b ∷ c ∷ d ∷ e ∷ f ∷ info ∷ types ∷ rest) ≡ panic)
        ↔ ((types / 16 < 5) × (8 ≤ types % 16))
  decide_types a b c d e f info types rest h hs = elim (dec_le 8 (types % 16)) [
    | yes k ↦ elim (dec_le 5 (types / 16)) [
      | yes j ↦
          no_panic _ (err-no_panic (header ∙ after_types-err crates _ _ info types rest h j))
            (λ bad. omega (arith, bad))
      | no j ↦ (
        (λ e. (omega arith, k)),
        λ e. panics (header ∙ after_types-panic crates _ _ info types rest h (omega arith) k),
      )
    ]
    | no k ↦
        no_panic _
          (same-no_panic header (after_types-IsSafe crates _ _ info types rest h (omega arith) hs))
          (λ bad. omega (arith, bad))
  ]
    where
      header :
          read_packet crates (a ∷ b ∷ c ∷ d ∷ e ∷ f ∷ info ∷ types ∷ rest)
          ≡ after_types crates
              (record { class = a; channel = b; address = c })
              (record { class = d; channel = e; address = f })
              info
              types
              rest
      header = read_packet-header crates a b c d e f info types rest

      panics :
          read_packet crates (a ∷ b ∷ c ∷ d ∷ e ∷ f ∷ info ∷ types ∷ rest) ≡ panic
          → parse crates (a ∷ b ∷ c ∷ d ∷ e ∷ f ∷ info ∷ types ∷ rest) ≡ panic
      panics h = unfold parse in ground arith

  -- On a list of bytes `parse` panics exactly where there are at least eight of them and the
  -- eighth has a known packet type, 0 to 4, in its high half and more than 7 in its low half. So
  -- the unreachable arm of `DataType::from_u4` is reached, and no other panic is.
  pub parse-eq-panic :
      (bytes : List ℕ) → IsBytes bytes → (parse crates bytes ≡ panic) ↔ HasUnknownDataType bytes
  parse-eq-panic (a ∷ b ∷ c ∷ d ∷ e ∷ f ∷ info ∷ types ∷ rest)
        (_, (_, (_, (_, (_, (_, (_, (h, hs)))))))) =
      decide_types a b c d e f info types rest h hs
  parse-eq-panic [] h = no_panic [] (one_short [] (omega arith)) (λ x. x)
  parse-eq-panic (a ∷ []) h = no_panic (a ∷ []) (one_short (a ∷ []) (omega arith)) (λ x. x)
  parse-eq-panic (a ∷ b ∷ []) h =
      no_panic (a ∷ b ∷ []) (one_short (a ∷ b ∷ []) (omega arith)) (λ x. x)
  parse-eq-panic (a ∷ b ∷ c ∷ []) h =
      no_panic (a ∷ b ∷ c ∷ []) (two_short a b c [] (omega arith)) (λ x. x)
  parse-eq-panic (a ∷ b ∷ c ∷ d ∷ []) h =
      no_panic (a ∷ b ∷ c ∷ d ∷ []) (two_short a b c (d ∷ []) (omega arith)) (λ x. x)
  parse-eq-panic (a ∷ b ∷ c ∷ d ∷ e ∷ []) h =
      no_panic (a ∷ b ∷ c ∷ d ∷ e ∷ []) (two_short a b c (d ∷ e ∷ []) (omega arith)) (λ x. x)
  parse-eq-panic (a ∷ b ∷ c ∷ d ∷ e ∷ f ∷ []) h =
      no_panic (a ∷ b ∷ c ∷ d ∷ e ∷ f ∷ []) (no_types a b c d e f [] (omega arith)) (λ x. x)
  parse-eq-panic (a ∷ b ∷ c ∷ d ∷ e ∷ f ∷ g ∷ []) h =
      no_panic (a ∷ b ∷ c ∷ d ∷ e ∷ f ∷ g ∷ []) (no_types a b c d e f (g ∷ []) (omega arith))
        (λ x. x)
