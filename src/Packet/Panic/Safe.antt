-- ===== src/Packet/Panic/Safe.antt =====
-- The reads of a packet do not panic, but for the one of its types.
use samsung_nasa.Base.{
  ℕ, zero, suc, ◌+◌, ◌≤◌, ◌<◌, ◌≡◌, ◌≢◌, refl, sym, ◌∙◌, arith, List, [], ◌∷◌, ◌++◌, length,
  length-append, Option, some, none, leb, lt→ltb, Result, ok, err, panic, if◌then◌else◌,
}
use samsung_nasa.Base.Stateful.{◌>>=◌, bind-ok, bind-err, pure}
use samsung_nasa.Bytes.{IsBytes}
use samsung_nasa.Crates.{Crates}
use samsung_nasa.Packet.Error.{PacketError, too_short}
use samsung_nasa.Packet.MessageKind
use samsung_nasa.Packet.MessageKind.{MessageKind}
use samsung_nasa.Packet.Types.{Payload, Packet}
use samsung_nasa.Packet.Value.{Message, Value}
use samsung_nasa.Packet.Reader.{Reader, read_array, read_u8, read_u16, read_u32}
use samsung_nasa.Packet.Reader.Steps.{read_u8-cons, read_array_short}
use samsung_nasa.Packet.Parse.{
  read_value, unwrap, read_structure, read_messages, read_payload, read_address,
}

abbrev IsSafe : {A : Type 0} → Reader A → Type 0
IsSafe m = (left : List ℕ) → m left ≢ panic

pub bind-IsSafe :
    {A B : Type 0} (m : Reader A) (f : A → Reader B) (left : List ℕ)
    → m left ≢ panic
    → ((a : A) → IsSafe (f a))
    → (m >>= f) left ≢ panic
bind-IsSafe {A} m f left h hs = go (m left) h
  where
    go :
        (r : Result PacketError (A × List ℕ))
        → r ≢ panic
        → elim r [ ok (a, s) ↦ f a s | err e ↦ err e | panic ↦ panic ] ≢ panic
    go (ok (a, s)) safe = hs a s
    go (err e) safe = λ h. ground arith
    go panic safe = λ h. safe refl

pub same-no_panic : {A : Type 0} {r s : Result PacketError A} → r ≡ s → s ≢ panic → r ≢ panic
same-no_panic e h p = h (sym e ∙ p)

pub err-no_panic : {A : Type 0} {r : Result PacketError A} {e : PacketError} → r ≡ err e → r ≢ panic
err-no_panic h p = ground arith

pub read_u8-nil : read_u8 [] ≡ err too_short
unfolding read_u8
read_u8-nil = bind-err (read_array 1) _ (read_array_short 1 [] (omega arith))

read_array-IsSafe : (n : ℕ) → IsSafe (read_array n)
unfolding read_array
read_array-IsSafe n left h = ground arith

read_u8-IsSafe : IsSafe read_u8
unfolding read_u8
read_u8-IsSafe left =
    bind-IsSafe (read_array 1) _ left (read_array-IsSafe 1 left) (λ a s h. ground arith)

read_u16-IsSafe : IsSafe read_u16
unfolding read_u16
read_u16-IsSafe left =
    bind-IsSafe (read_array 2) _ left (read_array-IsSafe 2 left) (λ a s h. ground arith)

read_u32-IsSafe : IsSafe read_u32
unfolding read_u32
read_u32-IsSafe left =
    bind-IsSafe (read_array 4) _ left (read_array-IsSafe 4 left) (λ a s h. ground arith)

read_value-IsSafe : (k : MessageKind) → IsSafe (read_value k)
unfolding read_value
read_value-IsSafe MessageKind.enum left =
    bind-IsSafe read_u8 _ left (read_u8-IsSafe left) (λ a s h. ground arith)
read_value-IsSafe MessageKind.variable left =
    bind-IsSafe read_u16 _ left (read_u16-IsSafe left) (λ a s h. ground arith)
read_value-IsSafe MessageKind.long_variable left =
    bind-IsSafe read_u32 _ left (read_u32-IsSafe left) (λ a s h. ground arith)
read_value-IsSafe MessageKind.structure left = λ h. ground arith

-- A reader that has three bytes reads an address; it fails else.
pub read_address-short : (left : List ℕ) → length left < 3 → read_address left ≡ err too_short
unfolding read_address
read_address-short left h = bind-err (read_array 3) _ (read_array_short 3 left h)

module _ (crates : Crates) where
  read_structure-IsSafe : (count i number : ℕ) → IsSafe (read_structure crates count i number)
  unfolding read_structure
  read_structure-IsSafe count i number left h =
      let e : crates.from_slice 256 left ≡ (if leb (length left) 256 then some left else none) =
        crates.from_slice_lem 256 left in
      ground (arith, e)

  read_messages-IsSafe :
      (count rounds i : ℕ) (got : List Message)
      → length got + rounds ≤ 255
      → IsSafe (read_messages crates count rounds i got)
  unfolding read_messages
  read_messages-IsSafe count zero i got room left = λ h. ground arith
  read_messages-IsSafe count (suc rounds) i got room left =
      bind-IsSafe read_u16 _ left (read_u16-IsSafe left) (λ number s.
        bind-IsSafe (unwrap (MessageKind.kind number)) _ s (kind_is_known number s) (λ k s.
          bind-IsSafe (read_value k) _ s (read_value-IsSafe k s) (λ v. keep number v (λ v s.
            read_messages-IsSafe count rounds (i + 1)
              (got ++ (record { id = number; value = v } ∷ []))
              (omega (arith, length-append got (record { id = number; value = v } ∷ []))) s))))
    where
      kind_is_known : (number : ℕ) → IsSafe (unwrap (MessageKind.kind number))
      kind_is_known number s h = ground (arith, MessageKind.kind_total number)

      keep :
          (number : ℕ) (v : Option Value)
          → ((v : Value)
              → IsSafe (
                  read_messages crates count rounds
                    (i + 1)
                    (got ++ (record { id = number; value = v } ∷ []))))
          → IsSafe (elim v [
            | none ↦ read_structure crates count i number
            | some v ↦ elim (crates.push 255 got (record { id = number; value = v })) [
              | some got' ↦ read_messages crates count rounds (i + 1) got'
              | none ↦ λ _. panic
            ]
          ])
      keep number none again = read_structure-IsSafe count i number
      keep number (some v) again =
          rw
            (
              crates.push_lem 255 got (record { id = number; value = v }),
              lt→ltb (length got) 255 (omega arith),
            )
            (again v)

  -- What follows the two types.
  pub read_rest-IsSafe :
      (f : ℕ → Payload → Packet) (left : List ℕ)
      → IsBytes left
      → (do
        number ← read_u8
        count ← read_u8
        payload ← read_payload crates count
        pure (f number payload))
          left
        ≢ panic
  unfolding read_payload
  read_rest-IsSafe f [] h = err-no_panic (bind-err read_u8 _ read_u8-nil)
  read_rest-IsSafe f (n ∷ []) h =
      err-no_panic (bind-ok read_u8 _ (read_u8-cons n []) ∙ bind-err read_u8 _ read_u8-nil)
  read_rest-IsSafe f (n ∷ c ∷ rest) (hn, (hc, h)) =
      same-no_panic
        (bind-ok read_u8 _ (read_u8-cons n (c ∷ rest)) ∙ bind-ok read_u8 _ (read_u8-cons c rest))
        (bind-IsSafe (read_messages crates c c 0 []) _ rest
          (read_messages-IsSafe c c 0 [] (omega arith) rest) (λ payload s e. ground arith))
