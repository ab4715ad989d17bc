-- ===== src/Packet/Writer/Emits.antt =====
-- What a write does, seen from outside: it appends bytes where they fit, and fails where not.
use samsung_nasa.Base.{
  ℕ, zero, suc, ◌+◌, ◌-◌, ◌≤◌, ◌<◌, ◌≡◌, refl, sym, ap, ◌∙◌, arith, List, [], ◌∷◌, ◌++◌,
  append_assoc, append-nil, length, length-append, length-drop, drop, take-append, drop-append_more,
  leb, le→leb, lt→leb, if◌then◌else◌, Result, ok, err,
}
use samsung_nasa.Base.Stateful.{◌>>◌, pure, bind-ok, bind-err}
use native.Mathlib.Decide.{dec_le}
use native.Mathlib.Nat.{suc-add}
use mathlib.Core.Path.{subst}
use samsung_nasa.Packet.Error.{SerializePacketError, buffer_too_short}
use samsung_nasa.Packet.Writer.{PacketWriter, Writer, write_bytes}

-- The writer that has written `out` and has the bytes `room` still before it.
abbrev pub writer : List ℕ → List ℕ → PacketWriter
writer out room = record { buff = out ++ room; pos = length out }

-- `bytes` are appended, or do not fit.
abbrev pub appended :
    List ℕ → List ℕ → List ℕ → Result SerializePacketError (Unit {0} × PacketWriter)
appended bytes out room =
    if leb (length bytes) (length room)
    then ok (tt, writer (out ++ bytes) (drop (length bytes) room))
    else err buffer_too_short

abbrev pub Emits : Writer (Unit {0}) → List ℕ → Type 0
Emits m bytes = (out room : List ℕ) → m (writer out room) ≡ appended bytes out room

pub write_bytes-Emits : (bytes : List ℕ) → Emits (write_bytes bytes) bytes
unfolding write_bytes
write_bytes-Emits bytes out room = rw (
  le→leb (length out) (length (out ++ room)) (omega (arith, length-append out room)),
  room_left,
  take-append out room,
  drop-append_more out room (length bytes),
  length-append out bytes,
  append_assoc out bytes (drop (length bytes) room),
)
  where
    room_left : length (out ++ room) - length out ≡ length room
    room_left = omega (arith, length-append out room)

pub drop-drop : {A : Type 0} (m n : ℕ) (xs : List A) → drop n (drop m xs) ≡ drop (m + n) xs
drop-drop zero n xs = ap (λ (k : ℕ). drop k xs) (omega arith)
drop-drop (suc m) zero [] = rw suc-add
drop-drop (suc m) (suc n) [] = rw suc-add
drop-drop (suc m) n (x ∷ xs) = rw suc-add (drop-drop m n xs)

-- Two appends are one.
appended-append :
    (xs ys out room : List ℕ)
    → length xs ≤ length room
    → appended ys (out ++ xs) (drop (length xs) room) ≡ appended (xs ++ ys) out room
appended-append xs ys out room h =
    rw (
      drop-drop (length xs) (length ys) room,
      length-append xs ys,
      append_assoc out xs ys,
      same_test,
    )
  where
    same_test :
        leb (length ys) (length (drop (length xs) room)) ≡ leb (length xs + length ys) (length room)
    same_test = ground (arith, length-drop (length xs) room)

pub appended_fits :
    (xs out room : List ℕ)
    → length xs ≤ length room
    → appended xs out room ≡ ok (tt, writer (out ++ xs) (drop (length xs) room))
appended_fits xs out room h = rw (le→leb (length xs) (length room) h)

pub appended_full :
    (xs out room : List ℕ) → length room < length xs → appended xs out room ≡ err buffer_too_short
appended_full xs out room h = rw (lt→leb (length xs) (length room) h)

-- One write after the other appends both.
pub Emits-then :
    (m k : Writer (Unit {0})) (xs ys : List ℕ) → Emits m xs → Emits k ys → Emits (m >> k) (xs ++ ys)
Emits-then m k xs ys hm hk out room = elim (dec_le (length xs) (length room)) [
  | yes h ↦
      bind-ok m (λ _. k) (hm out room ∙ appended_fits xs out room h)
      ∙ hk (out ++ xs) (drop (length xs) room)
      ∙ appended-append xs ys out room h
  | no h ↦
      bind-err m (λ _. k) (hm out room ∙ appended_full xs out room (omega arith))
      ∙ sym (appended_full (xs ++ ys) out room (omega (arith, length-append xs ys)))
]

-- A write of bytes known otherwise.
pub Emits-eq : (m : Writer (Unit {0})) {xs ys : List ℕ} → xs ≡ ys → Emits m xs → Emits m ys
Emits-eq m e = subst (Emits m) e

pub pure-Emits : Emits (pure tt) []
pure-Emits out room = rw (append-nil, le→leb 0 (length room) (omega arith)) refl
