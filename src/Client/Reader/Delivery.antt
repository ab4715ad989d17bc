-- ===== src/Client/Reader/Delivery.antt =====
-- A reply reaches the request that waits for it, once, and nobody else.
use samsung_nasa.Base.{
  ℕ, ◌≡◌, ◌≢◌, refl, ap, ◌∙◌, arith, List, Option, none, some, Bool, true, false, ==_iff, ==_false,
  ◌⊎◌, inl, inr, if◌then◌else◌, not,
}
use samsung_nasa.Packet.Address
use samsung_nasa.Packet.Address.{Address}
use samsung_nasa.Packet.PacketType.{PacketType}
use samsung_nasa.Packet.DataType.{DataType}
use samsung_nasa.Packet.Value.{Message}
use samsung_nasa.Packet.Types.{Packet, Payload, messages, structure}
use samsung_nasa.Client.Reader.{
  Request, Waiting, insert, remove, Shared, Action, skip, deliver, wait_for, on_reply, dispatch,
  on_packet,
}

-- A packet that answers: an ack, a nack or a response in a normal packet of messages.
abbrev pub IsAnswer : DataType → Type 0
IsAnswer t = (t ≡ DataType.ack) ⊎ ((t ≡ DataType.nack) ⊎ (t ≡ DataType.response))

abbrev pub IsReply : Packet → Type 0
IsReply p =
    (p.packet_type ≡ PacketType.normal)
    × ((ms : List Message) × (p.payload ≡ messages ms))
    × IsAnswer p.data_type

eq_self : (a : Address) → Address.eq a a ≡ true
unfolding Address.eq
eq_self a =
    ground (arith, ==_iff a.class a.class, ==_iff a.channel a.channel, ==_iff a.address a.address)

dispatch-IsAnswer :
    (d : DataType) (ms : List Message) (p : Packet) (s : Shared)
    → IsAnswer d
    → dispatch PacketType.normal (messages ms) d p s ≡ on_reply p s
unfolding dispatch
dispatch-IsAnswer d ms p s (inl e) = ap (λ t. dispatch PacketType.normal (messages ms) t p s) e
dispatch-IsAnswer d ms p s (inr (inl e)) =
    ap (λ t. dispatch PacketType.normal (messages ms) t p s) e
dispatch-IsAnswer d ms p s (inr (inr e)) =
    ap (λ t. dispatch PacketType.normal (messages ms) t p s) e

pub on_packet-reply : (p : Packet) (s : Shared) → IsReply p → on_packet p s ≡ on_reply p s
unfolding on_packet
on_packet-reply p s (normal, (ms, payload), answer) =
    ap (λ t. dispatch t p.payload p.data_type p s) normal
    ∙ ap (λ l. dispatch PacketType.normal l p.data_type p s) payload
    ∙ dispatch-IsAnswer p.data_type ms p s answer

-- A reply to this client, by what waits under its number.
abbrev pub claimed : Option Request → Packet → Action
claimed o p = elim o [ some request ↦ deliver request p | none ↦ skip ]

pub on_reply-claimed :
    (p : Packet) (s : Shared) (o : Option Request)
    → p.destination ≡ s.address
    → s.waiting p.packet_number ≡ o
    → on_reply p s ≡ (record s { waiting = remove p.packet_number s.waiting }, claimed o p)
unfolding on_reply
on_reply-claimed p s o address e =
    ap answered (ap (λ a. Address.eq a s.address) address ∙ eq_self s.address)
    ∙ ap (λ o. (record s { waiting = remove p.packet_number s.waiting }, claimed o p)) e
  where
    answered : Bool → Shared × Action
    answered b = if not b then (s, skip) else (
      record s { waiting = remove p.packet_number s.waiting },
      claimed (s.waiting p.packet_number) p,
    )

insert-found : (n m : ℕ) (r : Request) (w : Waiting) → n ≡ m → insert m r w n ≡ some r
insert-found n m r w e = rw ((==_iff n m).1 e) refl

removed : (n : ℕ) (w : Waiting) → remove n w n ≡ none
removed n w = rw ((==_iff n n).1 refl) refl

kept : (n m k : ℕ) (r : Request) (w : Waiting) → n ≢ k → m ≡ k → remove m (insert k r w) n ≡ w n
kept n m k r w ne e = rw (==_false n m (λ h. ne (h ∙ e)), ==_false n k ne) refl

-- An ack, nack or response, in a normal packet of messages, that has the number of a request
-- that waits and is addressed to this client, is delivered to that request. Its number is free
-- then, so that the same reply is dropped when it comes again, and every other request still
-- waits.
pub on_packet-wait_for :
    (sent reply : Packet) (request : Request) (s : Shared)
    → IsReply reply
    → reply.packet_number ≡ sent.packet_number
    → reply.destination ≡ s.address
    → let step = on_packet reply (wait_for sent request s) in
      (step.1 ≡ deliver request reply)
      × ((on_packet reply step.0).1 ≡ skip)
      × ((n : ℕ) → n ≢ sent.packet_number → step.0.waiting n ≡ s.waiting n)
unfolding wait_for
on_packet-wait_for sent reply request s h number address = (
  ap (λ (x : Shared × Action). x.1) first,
  ap (λ (x : Shared × Action). (on_packet reply x.0).1) first
      ∙ ap (λ (x : Shared × Action). x.1)
          (on_packet-reply reply left h
            ∙ on_reply-claimed reply left none address
                (removed reply.packet_number before.waiting)),
  λ n ne.
      ap (λ (x : Shared × Action). x.0.waiting n) first
      ∙ kept n reply.packet_number sent.packet_number request s.waiting ne number,
)
  where
    before : Shared
    before = record s { waiting = insert sent.packet_number request s.waiting }

    left : Shared
    left = record before { waiting = remove reply.packet_number before.waiting }

    first : on_packet reply before ≡ (left, deliver request reply)
    first =
        on_packet-reply reply before h
        ∙ on_reply-claimed reply before (some request) address
            (insert-found reply.packet_number sent.packet_number request s.waiting number)

dispatch_others :
    (t : PacketType) (l : Payload) (d : DataType) (p : Packet) (s : Shared)
    → (IsAnswer d → on_reply p s ≡ (s, skip))
    → (dispatch t l d p s).0 ≡ s
unfolding dispatch
dispatch_others PacketType.normal (messages ms) DataType.undefined p s h = refl
dispatch_others PacketType.normal (messages ms) DataType.read p s h = refl
dispatch_others PacketType.normal (messages ms) DataType.write p s h = refl
dispatch_others PacketType.normal (messages ms) DataType.request p s h = refl
dispatch_others PacketType.normal (messages ms) DataType.notification p s h = refl
dispatch_others PacketType.normal (messages ms) DataType.ack p s h =
    ap (λ (x : Shared × Action). x.0) (h (inl refl))
dispatch_others PacketType.normal (messages ms) DataType.nack p s h =
    ap (λ (x : Shared × Action). x.0) (h (inr (inl refl)))
dispatch_others PacketType.normal (messages ms) DataType.response p s h =
    ap (λ (x : Shared × Action). x.0) (h (inr (inr refl)))
dispatch_others PacketType.normal (structure _) d p s h = refl
dispatch_others PacketType.stand_by l d p s h = refl
dispatch_others PacketType.gathering l d p s h = refl
dispatch_others PacketType.install l d p s h = refl
dispatch_others PacketType.download l d p s h = refl

on_reply-elsewhere :
    (p : Packet) (s : Shared)
    → Address.eq p.destination s.address ≡ false
    → on_reply p s ≡ (s, skip)
unfolding on_reply
on_reply-elsewhere p s e = rw e refl

-- A packet that is no ack, nack or response, or is addressed to another, leaves the waiting
-- requests as they were.
pub on_packet_others :
    (p : Packet) (s : Shared)
    → (¬ IsAnswer p.data_type) ⊎ (Address.eq p.destination s.address ≡ false)
    → (on_packet p s).0 ≡ s
unfolding on_packet
on_packet_others p s (inl other) =
    dispatch_others p.packet_type p.payload p.data_type p s (λ answer. absurd (other answer))
on_packet_others p s (inr elsewhere) =
    dispatch_others p.packet_type p.payload p.data_type p s (λ _. on_reply-elsewhere p s elsewhere)
