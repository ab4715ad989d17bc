-- ===== src/Client/Exchange.antt =====
-- The requests and the reader of client/src/lib.rs side by side: the tasks take turns at their
-- `await`s, so that a run is a sequence of the steps below.
pub mod Good
pub mod Turns
pub mod Replies
pub mod Progress
use samsung_nasa.Base.{
  ℕ, suc, ◌≡◌, ◌≢◌, ◌==◌, Bool, true, false, if◌then◌else◌, List, Option, none, some, Result, ok,
  err,
}
use samsung_nasa.Crates.{Crates}
use samsung_nasa.Packet.Types.{Packet}
use samsung_nasa.Client.Requests.{Error, send_failed, lost_transport, max_retries_exceeded, again}
use samsung_nasa.Client.Reader.{Request, Shared, Action, skip, notify, deliver, wait_for, on_packet}

-- Where a task of `send_with_retry` is: at the write, at the wait for its reply, or at its end.
pub data Status : Type 0 where
  writing : Status
  awaiting : Status
  finished : Result Error Packet → Status

-- A task, with what its channel holds.
pub record Flight : Type 0 where
  pub packet : Packet
  pub status : Status
  pub reply : Option Packet

abbrev pub Flights : Type 0
Flights = Request → Option Flight

abbrev pub set : Request → Flight → Flights → Flights
set request flight flights r = if r == request then some flight else flights r

-- The client: the shared state, the tasks, and how many have started.
pub record World : Type 0 where
  pub shared : Shared
  pub flights : Flights
  pub started : ℕ

-- The start of `send_with_retry`.
unfoldable pub start : Packet → World → World
start packet w = record {
  shared = wait_for packet w.started w.shared;
  flights = set w.started (record { packet = packet; status = writing; reply = none }) w.flights;
  started = suc w.started;
}

-- `reply_tx.send`.
unfoldable pub send_reply : Request → Packet → Flights → Flights
send_reply request reply flights = elim (flights request) [
  | none ↦ flights
  | some flight ↦ set request (record flight { reply = some reply }) flights
]

unfoldable pub act : Action → Flights → Flights
act (deliver request reply) flights = send_reply request reply flights
act (notify sender ms) flights = flights
act skip flights = flights

-- A turn of `reader_task`.
unfoldable pub receive : Packet → World → World
receive packet w = record w {
  shared = (on_packet packet w.shared).0;
  flights = act (on_packet packet w.shared).1 w.flights;
}

abbrev pub moved : Request → Flight → World → World
moved request flight w = record w { flights = set request flight w.flights }

module _ (crates : Crates) where
  -- The arm of the timeout.
  unfoldable pub on_timeout : Flight → Flight
  on_timeout flight =
      if flight.packet.packet_info.retry_count == 3
      then record flight { status = finished (err max_retries_exceeded) }
      else record flight { packet = again crates flight.packet; status = writing }

  -- `timeout` looks at the channel before the clock; the sender of a channel is gone once the map
  -- holds it no more and it has sent nothing.
  pub data Step (w : World) : World → Type 0 where
    starts : (packet : Packet) → Step w (start packet w)
    receives : (packet : Packet) → Step w (receive packet w)
    writes :
        (r : Request) (f : Flight)
        → w.flights r ≡ some f
        → f.status ≡ writing
        → Step w (moved r (record f { status = awaiting }) w)
    fails :
        (r : Request) (f : Flight)
        → w.flights r ≡ some f
        → f.status ≡ writing
        → Step w (moved r (record f { status = finished (err send_failed) }) w)
    replies :
        (r : Request) (f : Flight) (reply : Packet)
        → w.flights r ≡ some f
        → f.status ≡ awaiting
        → f.reply ≡ some reply
        → Step w (moved r (record f { status = finished (ok reply) }) w)
    loses :
        (r : Request) (f : Flight)
        → w.flights r ≡ some f
        → f.status ≡ awaiting
        → f.reply ≡ none
        → w.shared.waiting f.packet.packet_number ≢ some r
        → Step w (moved r (record f { status = finished (err lost_transport) }) w)
    times_out :
        (r : Request) (f : Flight)
        → w.flights r ≡ some f
        → f.status ≡ awaiting
        → f.reply ≡ none
        → Step w (moved r (on_timeout f) w)

  pub data Reach (w : World) : World → Type 0 where
    here : Reach w w
    then_step : {v u : World} → Reach w v → Step v u → Reach w u
