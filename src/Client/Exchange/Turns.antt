-- ===== src/Client/Exchange/Turns.antt =====
-- The turns of the reader of client/src/lib.rs.
use mathlib.Core.Bool.{true≢false}
use mathlib.Core.Option.{some-injective}
use samsung_nasa.Base.{
  ℕ, ◌<◌, ◌≡◌, ◌≢◌, refl, sym, ap, ◌∙◌, subst, arith, ◌==◌, ==_iff, Bool, true, false, Bool-cases,
  if◌then◌else◌, not, Option, none, some, Result, inl, inr,
}
use samsung_nasa.Packet.Address
use samsung_nasa.Packet.Address.{Address}
use samsung_nasa.Packet.Equality.{Address-eq_iff}
use samsung_nasa.Packet.PacketType.{PacketType}
use samsung_nasa.Packet.DataType.{DataType}
use samsung_nasa.Packet.Types.{Packet, Payload, messages}
use samsung_nasa.Client.Requests.{Error}
use samsung_nasa.Client.Reader.{
  Request, remove, Shared, Action, skip, notify, deliver, on_reply, dispatch, on_packet,
}
use samsung_nasa.Client.Exchange.{
  Status, writing, awaiting, finished, Flight, Flights, set, World, send_reply, act, receive,
}
use samsung_nasa.Client.Exchange.Good.{Answers, FlightOk, Good, set_other, set-cases}

pub finished-injective : {a b : Result Error Packet} → Path Status (finished a) (finished b) → a ≡ b
finished-injective {a} h = ap (λ s. elim s [ writing ↦ a | awaiting ↦ a | finished r ↦ r ]) h

abbrev pub without : Packet → Shared → Shared
without p s = record s { waiting = remove p.packet_number s.waiting }

-- What a turn of the reader can do.
pub data Turn (p : Packet) (s : Shared) : Shared × Action → Type 0 where
  quiet : (a : Action) → ((flights : Flights) → act a flights ≡ flights) → Turn p s (s, a)
  unclaimed : Turn p s (without p s, skip)
  claimed :
      (r : Request)
      → s.waiting p.packet_number ≡ some r
      → p.destination ≡ s.address
      → Turn p s (without p s, deliver r p)

on_reply-Turn : (p : Packet) (s : Shared) → Turn p s (on_reply p s)
unfolding on_reply act
on_reply-Turn p s =
    by_tests (Address.eq p.destination s.address) (s.waiting p.packet_number)
      (Address-eq_iff p.destination s.address).0 refl
  where
    by_tests :
        (b : Bool) (o : Option Request)
        → (b ≡ true → p.destination ≡ s.address)
        → s.waiting p.packet_number ≡ o
        → Turn p s (
            if not b
            then (s, skip)
            else (without p s, elim o [ some request ↦ deliver request p | none ↦ skip ]))
    by_tests false o own e = Turn.quiet skip (λ _. refl)
    by_tests true none own e = Turn.unclaimed
    by_tests true (some r) own e = Turn.claimed r e (own refl)

dispatch-Turn :
    (t : PacketType) (l : Payload) (d : DataType) (p : Packet) (s : Shared)
    → Turn p s (dispatch t l d p s)
unfolding dispatch act
dispatch-Turn PacketType.normal (messages ms) DataType.notification p s =
    Turn.quiet (notify p.source ms) (λ _. refl)
dispatch-Turn PacketType.normal (messages ms) DataType.ack p s = on_reply-Turn p s
dispatch-Turn PacketType.normal (messages ms) DataType.nack p s = on_reply-Turn p s
dispatch-Turn PacketType.normal (messages ms) DataType.response p s = on_reply-Turn p s
dispatch-Turn _ _ _ p s = Turn.quiet skip (λ _. refl)

abbrev turned : World → Shared × Action → World
turned w (shared, action) = record w { shared = shared; flights = act action w.flights }

pub without-cases :
    (p : Packet) (s : Shared) (n : ℕ) (r : Request)
    → (without p s).waiting n ≡ some r
    → (n ≢ p.packet_number) × (s.waiting n ≡ some r)
without-cases p s n r e = elim (Bool-cases (n == p.packet_number)) [
  | inl b ↦ absurd (ground (arith, sym (ap (λ c. if c then none else s.waiting n) b) ∙ e))
  | inr b ↦ (
    (λ same. true≢false (sym ((==_iff n p.packet_number).1 same) ∙ b)),
    sym (ap (λ c. if c then none else s.waiting n) b) ∙ e,
  )
]

Good-claimed :
    (p : Packet) (w : World) (r : Request) (f : Flight)
    → w.flights r ≡ some f
    → f.packet.packet_number ≡ p.packet_number
    → f.reply ≡ none
    → p.destination ≡ w.shared.address
    → Good w
    → Good (record w {
      shared = without p w.shared;
      flights = set r (record f { reply = some p }) w.flights;
    })
Good-claimed p w r f at num none_yet own (flights, waits, fresh) =
    let g : Flight = record f { reply = some p } in
    (
      λ k x e. elim (set-cases r k g x w.flights e) [
        | inl (_, same) ↦ subst (FlightOk w.shared.address) same (
          (λ q e'.
              subst (Answers w.shared.address f.packet) (some-injective p q e') (sym num, own)),
          (λ q e'. absurd (ground (arith, sym none_yet ∙ (flights r f at).1 q e'))),
        )
        | inr (_, e') ↦ flights k x e'
      ],
      λ n k e.
          let (other, e') = without-cases p w.shared n k e in
          let (x, at', num', none') = waits n k e' in
          (
            x,
            set_other r k g w.flights (λ same. other (
                  sym num'
                  ∙ ap (λ (y : Flight). y.packet.packet_number)
                      (some-injective x f (sym at' ∙ ap w.flights same ∙ at))
                  ∙ num))
                ∙ at',
            num',
            none',
          ),
      λ k x e. elim (set-cases r k g x w.flights e) [
        | inl (same, _) ↦ subst (λ j. j < w.started) (sym same) (fresh r f at)
        | inr (_, e') ↦ fresh k x e'
      ],
    )

Good-turned :
    (p : Packet) (w : World) (x : Shared × Action) → Turn p w.shared x → Good w → Good (turned w x)
unfolding act send_reply
Good-turned p w x (Turn.quiet a same) (flights, waits, fresh) =
    subst (λ (fl : Flights). Good (record w { flights = fl })) (sym (same w.flights))
      (flights, waits, fresh)
Good-turned p w x Turn.unclaimed (flights, waits, fresh) =
    (flights, λ n r e. waits n r (without-cases p w.shared n r e).1, fresh)
Good-turned p w x (Turn.claimed r at own) (flights, waits, fresh) =
    let (f, at', num, none_yet) = waits p.packet_number r at in
    subst (λ (fl : Flights). Good (record w { shared = without p w.shared; flights = fl }))
      (sym (
        ap
          (λ o. elim o [
            | none ↦ w.flights
            | some flight ↦ set r (record flight { reply = some p }) w.flights
          ])
          at'))
      (Good-claimed p w r f at' num none_yet own (flights, waits, fresh))

pub on_packet-Turn : (p : Packet) (s : Shared) → Turn p s (on_packet p s)
unfolding on_packet
on_packet-Turn p s = dispatch-Turn p.packet_type p.payload p.data_type p s

pub Good-receive : (p : Packet) (w : World) → Good w → Good (receive p w)
unfolding receive
Good-receive p w h = Good-turned p w (on_packet p w.shared) (on_packet-Turn p w.shared) h
