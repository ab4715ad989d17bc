-- ===== src/Pretty/Plain.antt =====
-- The text of protocol/src/pretty.rs has no escape character outside the colors.
use samsung_nasa.Base.{
  ℕ, zero, suc, ◌+◌, ◌/◌, ◌%◌, ◌≡◌, refl, ap, ◌∙◌, arith, ◌==◌, ltb, Bool, true, false, not, ◌&&◌,
  if◌then◌else◌, List, [], ◌∷◌, ◌++◌,
}
use samsung_nasa.Packet.Address.{Address}
use samsung_nasa.Packet.Address.Text.{display, hex_digit}
use samsung_nasa.Packet.PacketInfo.{PacketInfo}
use samsung_nasa.Packet.PacketType.{PacketType}
use samsung_nasa.Packet.DataType.{DataType}
use samsung_nasa.Packet.Value.{Value, Message, enum_value, variable_value, long_variable_value}
use samsung_nasa.Packet.Types.{Packet, Payload, messages, structure}
use samsung_nasa.Pretty.{
  codes, digits, decimal, hex2, hex4, hex8, hex, hex_rest, hex_list, data_type_name, line_if,
  print_info, print_packet_type, print_value, print_messages, print_payload, print_rest,
}

-- No character is an ESC.
abbrev pub plain : List ℕ → Bool
plain [] = true
plain (c ∷ cs) = not (c == 27) && plain cs

pub plain-append : (xs ys : List ℕ) → plain xs ≡ true → plain ys ≡ true → plain (xs ++ ys) ≡ true
plain-append [] ys hx hy = hy
plain-append (x ∷ xs) ys hx hy = ground (arith, hx, hy, plain-append xs ys)

hex_digit-plain : (d : ℕ) → (hex_digit d == 27) ≡ false
hex_digit-plain d = ground arith

plain-cons : (c : ℕ) (cs : List ℕ) → (c == 27) ≡ false → plain cs ≡ true → plain (c ∷ cs) ≡ true
plain-cons c cs h hs = ap (λ b. not b && plain cs) h ∙ hs

plain-hex2 : (n : ℕ) → plain (hex2 n) ≡ true
unfolding hex2
plain-hex2 n =
    plain-cons (hex_digit (n / 16 % 16)) (hex_digit (n % 16) ∷ []) (hex_digit-plain (n / 16 % 16))
      (plain-cons (hex_digit (n % 16)) [] (hex_digit-plain (n % 16)) refl)

plain-hex4 : (n : ℕ) → plain (hex4 n) ≡ true
unfolding hex4
plain-hex4 n = plain-append (hex2 (n / 256)) (hex2 n) (plain-hex2 (n / 256)) (plain-hex2 n)

plain-hex8 : (n : ℕ) → plain (hex8 n) ≡ true
unfolding hex8
plain-hex8 n = plain-append (hex4 (n / 65536)) (hex4 n) (plain-hex4 (n / 65536)) (plain-hex4 n)

plain-if :
    (b : Bool) (xs ys : List ℕ)
    → plain xs ≡ true
    → plain ys ≡ true
    → plain (if b then xs else ys) ≡ true
plain-if true xs ys hx hy = hx
plain-if false xs ys hx hy = hy

plain-hex : (n : ℕ) → plain (hex n) ≡ true
unfolding hex
plain-hex n =
    plain-if (ltb n 16) (hex_digit n ∷ []) (hex2 n)
      (plain-cons (hex_digit n) [] (hex_digit-plain n) refl) (plain-hex2 n)

plain-hex_rest : (ns : List ℕ) → plain (hex_rest ns) ≡ true
unfolding hex_rest
plain-hex_rest [] = refl
plain-hex_rest (n ∷ ns) = plain-append (hex n) (hex_rest ns) (plain-hex n) (plain-hex_rest ns)

plain-hex_list : (ns : List ℕ) → plain (hex_list ns) ≡ true
unfolding hex_list
plain-hex_list [] = refl
plain-hex_list (n ∷ ns) = plain-append (hex n) (hex_rest ns) (plain-hex n) (plain-hex_rest ns)

plain-digits : (room n : ℕ) → plain (digits room n) ≡ true
unfolding digits
plain-digits zero n = refl
plain-digits (suc room) n =
    plain-append (if ltb n 10 then [] else digits room (n / 10)) ((48 + n % 10) ∷ [])
      (plain-if (ltb n 10) [] (digits room (n / 10)) refl (plain-digits room (n / 10)))
      (plain-cons (48 + n % 10) [] (ground arith) refl)

pub plain-decimal : (n : ℕ) → plain (decimal n) ≡ true
unfolding decimal
plain-decimal n = plain-digits 10 n

plain-two :
    (d e : ℕ) (cs : List ℕ) → plain cs ≡ true → plain (hex_digit d ∷ hex_digit e ∷ cs) ≡ true
plain-two d e cs h =
    plain-cons (hex_digit d) (hex_digit e ∷ cs) (hex_digit-plain d)
      (plain-cons (hex_digit e) cs (hex_digit-plain e) h)

plain-display : (a : Address) → plain (display a) ≡ true
unfolding display
plain-display a =
    plain-two (a.class / 16) (a.class % 16)
      (46
        ∷ hex_digit (a.channel / 16)
        ∷ hex_digit (a.channel % 16)
        ∷ 46
        ∷ hex_digit (a.address / 16)
        ∷ hex_digit (a.address % 16)
        ∷ [])
      (plain-two (a.channel / 16) (a.channel % 16)
        (46 ∷ hex_digit (a.address / 16) ∷ hex_digit (a.address % 16) ∷ [])
        (plain-two (a.address / 16) (a.address % 16) [] refl))

plain-line_if : (b : Bool) (text : List ℕ) → plain text ≡ true → plain (line_if b text) ≡ true
plain-line_if b text h =
    plain-if b (text ++ codes "\n") [] (plain-append text (codes "\n") h refl) refl

plain-print_info : (info : PacketInfo) → plain (print_info info) ≡ true
unfolding print_info
plain-print_info info =
    let info_bit : List ℕ =
      line_if (not (info.info == 1)) (codes "  * packet_info: INFO BIT NOT SET") in
    let reserved : List ℕ =
      line_if (not (info.reserved == 0)) (codes "  * packet_info: RESERVED BITS NOT CLEAR") in
    let version : List ℕ =
      line_if (not (info.protocol_version == 2))
        (codes "  * protocol_version: NOT 2, is: " ++ decimal info.protocol_version) in
    let retries : List ℕ =
      line_if (not (info.retry_count == 0))
        (codes "  * retry_count: " ++ decimal info.retry_count) in
    plain-append info_bit (reserved ++ (version ++ retries))
      (plain-line_if (not (info.info == 1)) (codes "  * packet_info: INFO BIT NOT SET") refl)
      (plain-append reserved (version ++ retries)
        (plain-line_if (not (info.reserved == 0)) (codes "  * packet_info: RESERVED BITS NOT CLEAR")
          refl)
        (plain-append version retries
          (plain-line_if (not (info.protocol_version == 2))
            (codes "  * protocol_version: NOT 2, is: " ++ decimal info.protocol_version)
            (plain-decimal info.protocol_version))
          (plain-line_if (not (info.retry_count == 0))
            (codes "  * retry_count: " ++ decimal info.retry_count)
            (plain-decimal info.retry_count))))

plain-print_packet_type : (t : PacketType) → plain (print_packet_type t) ≡ true
plain-print_packet_type PacketType.stand_by = refl
plain-print_packet_type PacketType.normal = refl
plain-print_packet_type PacketType.gathering = refl
plain-print_packet_type PacketType.install = refl
plain-print_packet_type PacketType.download = refl

-- The value in hexadecimal, and in decimal in brackets.
plain-both :
    (n : ℕ) (text : List ℕ)
    → plain text ≡ true
    → plain (codes "0x" ++ (text ++ (codes " (" ++ (decimal n ++ codes ")\n")))) ≡ true
plain-both n text h =
    plain-append text (codes " (" ++ (decimal n ++ codes ")\n")) h
      (plain-append (decimal n) (codes ")\n") (plain-decimal n) refl)

plain-print_value : (v : Value) → plain (print_value v) ≡ true
unfolding print_value
plain-print_value (enum_value n) = plain-both n (hex2 n) (plain-hex2 n)
plain-print_value (variable_value n) = plain-both n (hex4 n) (plain-hex4 n)
plain-print_value (long_variable_value n) = plain-both n (hex8 n) (plain-hex8 n)

plain-print_messages : (ms : List Message) → plain (print_messages ms) ≡ true
unfolding print_messages
plain-print_messages [] = refl
plain-print_messages (m ∷ ms) =
    plain-append (hex4 m.id) (codes " => " ++ (print_value m.value ++ print_messages ms))
      (plain-hex4 m.id)
      (plain-append (print_value m.value) (print_messages ms) (plain-print_value m.value)
        (plain-print_messages ms))

plain-print_payload : (l : Payload) → plain (print_payload l) ≡ true
unfolding print_payload
plain-print_payload (messages []) = refl
plain-print_payload (messages (m ∷ ms)) = plain-print_messages (m ∷ ms)
plain-print_payload (structure s) =
    plain-append (hex4 s.number) (codes " => " ++ (hex_list s.contents ++ codes "\n"))
      (plain-hex4 s.number)
      (plain-append (hex_list s.contents) (codes "\n") (plain-hex_list s.contents) refl)

pub plain-print_rest : (p : Packet) → plain (print_rest p) ≡ true
unfolding print_rest
plain-print_rest p =
    let last : List ℕ = print_payload p.payload ++ codes "\n" in
    let typed : List ℕ = print_packet_type p.packet_type ++ last in
    let informed : List ℕ = print_info p.packet_info ++ typed in
    plain-append (display p.source)
      (codes " => " ++ (display p.destination ++ (codes "\n" ++ informed))) (plain-display p.source)
      (plain-append (display p.destination) (codes "\n" ++ informed) (plain-display p.destination) (
        plain-append (print_info p.packet_info) typed (plain-print_info p.packet_info) (
          plain-append (print_packet_type p.packet_type) last
            (plain-print_packet_type p.packet_type)
            (plain-append (print_payload p.payload) (codes "\n") (plain-print_payload p.payload)
              refl))))

pub plain-name : (t : DataType) → plain (codes (data_type_name t)) ≡ true
plain-name DataType.undefined = refl
plain-name DataType.read = refl
plain-name DataType.write = refl
plain-name DataType.request = refl
plain-name DataType.notification = refl
plain-name DataType.response = refl
plain-name DataType.ack = refl
plain-name DataType.nack = refl
