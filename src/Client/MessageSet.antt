-- ===== src/Client/MessageSet.antt =====
-- client/src/message.rs: the messages of a packet, looked up by their type.
use samsung_nasa.Base.{
  ◌≡◌, refl, sym, ap, ◌∙◌, List, [], ◌∷◌, ◌++◌, append-nil, All, Option, none, some, Result, ok,
  err,
}
use samsung_nasa.Packet.MessageKind.{MessageId}
use samsung_nasa.Packet.Value.{Message}
use samsung_nasa.Messages
use samsung_nasa.Messages.{Known, ValueOf, id, class, new}
use samsung_nasa.Messages.RoundTrip.{InRange, get-new}

-- A set borrows or owns its messages.
pub record MessageSet : Type 0 where
  pub messages : List Message

-- `if let Some(value) = … { return … }`, in front of what follows.
abbrev pub or_else : {A : Type 0} → Option A → Option A → Option A
or_else (some value) later = some value
or_else none later = later

-- `Option::ok_or`.
abbrev pub ok_or : {E A : Type 0} → Option A → E → Result E A
ok_or (some value) e = ok value
ok_or none e = err e

-- The loop of `get`.
unfoldable pub first : (k : Known) → List Message → Option (ValueOf k)
first k [] = none
first k (message ∷ rest) = or_else (Messages.get k message) (first k rest)

unfoldable pub get : (k : Known) → MessageSet → Option (ValueOf k)
unfolding first
get k set = first k set.messages

-- `Error::MissingMessage`.
pub data Missing : Type 0 where
  missing_message : MessageId → Missing

unfoldable pub try_get : (k : Known) → MessageSet → Result Missing (ValueOf k)
try_get k set = ok_or (get k set) (missing_message (id k))

first-none :
    (k : Known) (before rest : List Message)
    → All (λ m. Messages.get k m ≡ none) before
    → first k (before ++ rest) ≡ first k rest
unfolding first
first-none k [] rest h = refl
first-none k (m ∷ before) rest (h, hs) =
    ap (λ o. or_else o (first k (before ++ rest))) h ∙ first-none k before rest hs

first-new :
    (k : Known) (v : ValueOf k) (rest : List Message)
    → InRange (class k) v
    → first k (new k v ∷ rest) ≡ some v
unfolding first
first-new k v rest range = ap (λ o. or_else o (first k rest)) (get-new k k v range).0

-- In a set whose first messages are not read as the type `k`, and in which then a message of
-- that type with a value in range stands, `try_get` returns that value, whatever stands behind
-- it. In a set of such first messages alone it fails with the number of the type.
pub try_get-new :
    (k : Known) (v : ValueOf k) (before rest : List Message)
    → InRange (class k) v
    → All (λ m. Messages.get k m ≡ none) before
    → (try_get k (record { messages = before ++ (new k v ∷ rest) }) ≡ ok v)
      × (try_get k (record { messages = before }) ≡ err (missing_message (id k)))
unfolding try_get get
try_get-new k v before rest range none_before = (
  ap (λ o. ok_or o (missing_message (id k)))
      (first-none k before (new k v ∷ rest) none_before ∙ first-new k v rest range),
  ap (λ o. ok_or o (missing_message (id k)))
      (ap (first k) (sym (append-nil before))
        ∙ first-none k before [] none_before
        ∙ (unfold first in refl)),
)
