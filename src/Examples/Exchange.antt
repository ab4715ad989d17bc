-- ===== src/Examples/Exchange.antt =====
-- One request of the client of client/src/lib.rs, from its start to its reply.
use samsung_nasa.Base.{◌≡◌, refl, arith, inl, none, some, ok}
use samsung_nasa.Crates.{plain}
use samsung_nasa.Packet.Address
use samsung_nasa.Packet.DataType
use samsung_nasa.Packet.Types.{Packet}
use samsung_nasa.Client.Reader.{wait_for, on_packet, on_reply, dispatch}
use samsung_nasa.Client.Exchange.{
  writing, awaiting, finished, Flight, World, start, send_reply, act, receive, moved, Step, Reach,
}
use samsung_nasa.Client.Exchange.Good.{Answers}
use samsung_nasa.Client.Exchange.Replies.{connected, finished-Answers}
use samsung_nasa.Client.Exchange.Progress.{reply_finishes}
use samsung_nasa.Examples.{request, controller, indoor_unit}

abbrev ack : Packet
ack = record request { source = indoor_unit; destination = controller; data_type = DataType.ack }

abbrev written : Flight
written = record { packet = request; status = awaiting; reply = none }

abbrev answered : Flight
answered = record { packet = request; status = awaiting; reply = some ack }

abbrev ended : Flight
ended = record { packet = request; status = finished (ok ack); reply = some ack }

-- The request has been written, and waits.
abbrev waiting_world : World
waiting_world = moved 0 written (start request (connected controller))

abbrev last_world : World
last_world = moved 0 ended (receive ack waiting_world)

-- It starts, writes, and takes the reply that comes in.
waits : Reach plain (connected controller) waiting_world
unfolding start wait_for
waits =
    Reach.then_step (Reach.then_step Reach.here (Step.starts request))
      (Step.writes 0 (record { packet = request; status = writing; reply = none }) refl refl)

ends : Reach plain (connected controller) last_world
unfolding start wait_for receive act send_reply on_packet dispatch on_reply Address.eq
ends =
    Reach.then_step (Reach.then_step waits (Step.receives ack))
      (Step.replies 0 answered ack refl refl refl)

finished-Answers_example : Answers controller request ack
finished-Answers_example = finished-Answers plain controller last_world 0 ended ack ends refl refl

waiting_entry : waiting_world.shared.waiting 7 ≡ some 0
unfolding start wait_for
waiting_entry = refl

reply_finishes_example :
    (v : World) × Step plain waiting_world (receive ack waiting_world)
    × Step plain (receive ack waiting_world) v
    × (v.flights 0 ≡ some ended)
    × (v.shared.waiting 7 ≡ none)
    × (v.flights 1 ≡ waiting_world.flights 1)
unfolding start wait_for
reply_finishes_example =
    reply_finishes plain waiting_world 0 1 written ack refl refl waiting_entry
      (refl, (_, refl), inl refl) refl refl (λ h. ground arith)
