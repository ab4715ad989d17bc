-- ===== src/Client/Exchange/Progress.antt =====
-- A reply of the unit ends the request of client/src/lib.rs that waits for it, and stays its own.
use samsung_nasa.Base.{ℕ, ◌≡◌, ◌≢◌, refl, ap, ◌∙◌, ==_iff, if◌then◌else◌, Option, none, some, ok}
use samsung_nasa.Crates.{Crates}
use samsung_nasa.Packet.Types.{Packet}
use samsung_nasa.Client.Reader.{Request, Waiting, Shared, Action, deliver, remove, on_packet}
use samsung_nasa.Client.Reader.Delivery.{IsReply, on_packet-reply, on_reply-claimed}
use samsung_nasa.Client.Exchange.{
  awaiting, finished, Flight, Flights, set, World, send_reply, act, receive, moved, Step,
}
use samsung_nasa.Client.Exchange.Good.{set_same, set_other}

-- What `send_reply` does, by the task that it finds.
abbrev given : Request → Packet → Flights → Option Flight → Flights
given r p flights found = elim found [
  | none ↦ flights
  | some flight ↦ set r (record flight { reply = some p }) flights
]

remove_same : (n : ℕ) (waiting : Waiting) → remove n waiting n ≡ none
remove_same n waiting = ap (λ b. if b then none else waiting n) ((==_iff n n).1 refl)

module _ (crates : Crates) where
  -- Where a task waits and the map still has its channel, an ack, nack or response, in a normal
  -- packet of messages, that has the number of its packet and is addressed to the client takes it to
  -- its end in two turns: the reader takes that reply, and then the task ends with it. After these the
  -- number waits for nothing, and every other task is as it was.
  pub reply_finishes :
      (w : World) (r q : Request) (f : Flight) (p : Packet)
      → w.flights r ≡ some f
      → f.status ≡ awaiting
      → w.shared.waiting f.packet.packet_number ≡ some r
      → IsReply p
      → p.packet_number ≡ f.packet.packet_number
      → p.destination ≡ w.shared.address
      → q ≢ r
      → (v : World) × Step crates w (receive p w)
        × Step crates (receive p w) v
        × (v.flights r
            ≡ some (record { packet = f.packet; status = finished (ok p); reply = some p }))
        × (v.shared.waiting p.packet_number ≡ none)
        × (v.flights q ≡ w.flights q)
  unfolding receive act send_reply
  reply_finishes w r q f p at status waits reply number address other =
      let taken : on_packet p w.shared
          ≡ (record w.shared { waiting = remove p.packet_number w.shared.waiting }, deliver r p) =
        on_packet-reply p w.shared reply
        ∙ on_reply-claimed p w.shared (some r) address (ap w.shared.waiting number ∙ waits) in
      let after : Flight = record f { reply = some p } in
      let done : Flight = record after { status = finished (ok p) } in
      let held : (k : Request) → (receive p w).flights k ≡ set r after w.flights k = λ k.
        ap (λ (x : Shared × Action). act x.1 w.flights k) taken
        ∙ ap (λ (o : Option Flight). given r p w.flights o k) at in
      (
        moved r done (receive p w),
        Step.receives p,
        Step.replies r after p (held r ∙ set_same r after w.flights) status refl,
        set_same r done (receive p w).flights,
        ap (λ (x : Shared × Action). x.0.waiting p.packet_number) taken
            ∙ remove_same p.packet_number w.shared.waiting,
        set_other r q done (receive p w).flights other
            ∙ held q
            ∙ set_other r q after w.flights other,
      )
