-- ===== src/Pretty/Uncolored.antt =====
-- Without colors protocol/src/pretty.rs writes the text that is left where the escape sequences of
-- the colored one are taken out.
use samsung_nasa.Base.{
  ℕ, ◌≡◌, refl, ap, ◌∙◌, arith, ◌==◌, Bool, true, false, if◌then◌else◌, List, [], ◌∷◌, ◌++◌,
}
use samsung_nasa.Packet.DataType.{DataType}
use samsung_nasa.Packet.Types.{Packet}
use samsung_nasa.Pretty.{
  codes, decimal, data_type_name, escape, data_type_color, print_rest, pretty_print,
}
use samsung_nasa.Pretty.Plain.{plain, plain-append, plain-print_rest, plain-name, plain-decimal}

-- A terminal that leaves out what stands between an ESC and the next `m`.
abbrev pub uncolored : Bool → List ℕ → List ℕ
uncolored escaped [] = []
uncolored true (c ∷ cs) = if c == 109 then uncolored false cs else uncolored true cs
uncolored false (c ∷ cs) = if c == 27 then uncolored true cs else c ∷ uncolored false cs

uncolored-plain :
    (xs ys : List ℕ) → plain xs ≡ true → uncolored false (xs ++ ys) ≡ xs ++ uncolored false ys
uncolored-plain [] ys h = refl
uncolored-plain (x ∷ xs) ys h = ground (arith, h, uncolored-plain xs ys)

-- The color of a type is one escape sequence, or nothing.
uncolored-color :
    (t : DataType) (ys : List ℕ) → uncolored false (data_type_color t ++ ys) ≡ uncolored false ys
uncolored-color DataType.undefined ys = refl
uncolored-color DataType.read ys = refl
uncolored-color DataType.write ys = refl
uncolored-color DataType.request ys = refl
uncolored-color DataType.notification ys = refl
uncolored-color DataType.response ys = refl
uncolored-color DataType.ack ys = refl
uncolored-color DataType.nack ys = refl

uncolored_all : (xs : List ℕ) → plain xs ≡ true → uncolored false xs ≡ xs
uncolored_all [] h = refl
uncolored_all (x ∷ xs) h = ground (arith, h, uncolored_all xs)

-- A terminal that leaves out the escape sequences shows the same text with colors as without, and
-- the text without colors has no escape character.
pub uncolored-pretty_print :
    (p : Packet)
    → (uncolored false (pretty_print true p) ≡ pretty_print false p)
      × (plain (pretty_print false p) ≡ true)
unfolding pretty_print
uncolored-pretty_print p =
    let name : List ℕ = codes (data_type_name p.data_type) in
    let number : List ℕ = decimal p.packet_number in
    let rest : List ℕ = print_rest p in
    (
      uncolored-color p.data_type (
            name
            ++ (escape "[0m"
                ++ (codes " "
                    ++ (escape "[90m" ++ (codes "#" ++ (number ++ (escape "[0m" ++ rest)))))))
          ∙ uncolored-plain name
              (escape "[0m"
                ++ (codes " "
                    ++ (escape "[90m" ++ (codes "#" ++ (number ++ (escape "[0m" ++ rest))))))
              (plain-name p.data_type)
          ∙ ap (λ zs. name ++ (codes " #" ++ zs))
              (uncolored-plain number (escape "[0m" ++ rest) (plain-decimal p.packet_number)
                ∙ ap (λ zs. number ++ zs) (uncolored_all rest (plain-print_rest p))),
      plain-append name (codes " #" ++ (number ++ rest)) (plain-name p.data_type)
          (plain-append number rest (plain-decimal p.packet_number) (plain-print_rest p)),
    )
