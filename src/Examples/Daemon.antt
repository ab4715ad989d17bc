-- ===== src/Examples/Daemon.antt =====
-- The bus daemon of busd/src/main.rs, with two peers.
use mathlib.Core.List.{Perm, Mem, mem-singleton}
use mathlib.Core.HLevel.{hedberg}
use samsung_nasa.Packet.Equality.{Packet-discrete}
use samsung_nasa.Base.{
  ℕ, ◌<◌, ◌≤◌, ◌≡◌, refl, sym, subst, arith, Bool, true, false, ltb, leb, if◌then◌else◌, lt→ltb,
  List, [], ◌∷◌, ◌++◌, map, length, All, some, ok,
}
use samsung_nasa.Crates.{plain}
use samsung_nasa.Packet.Types.{Packet, IsValid}
use samsung_nasa.Packet.Encoding.{encode}
use samsung_nasa.Packet.Serialize.Frame.{wire}
use samsung_nasa.Busd.{
  ready, Sent, sent, full, closed, Channels, Peer, Peers, poll_peers, on_packet, multiplex, Poll,
}
use samsung_nasa.Busd.Polls.{arrivals, IsQuiet}
use samsung_nasa.Busd.Answers.{Answer, poll_peers_ends}
use samsung_nasa.Busd.Forward.{view}
use samsung_nasa.Busd.Serve.{handled, on_packet_lem, multiplex_ends}
use samsung_nasa.Examples.{request, request-IsValid}

-- A channel as the list of what waits in it.
record Queue : Type 0 where
  room : ℕ
  waiting : List (List ℕ)
  gone : Bool

abbrev put : Queue → List ℕ → Sent × Queue
put q xs =
    if q.gone
    then (closed, q)
    else if ltb (length q.waiting) q.room
    then (sent, record q { waiting = q.waiting ++ (xs ∷ []) })
    else (full, q)

put-closed : (q : Queue) (xs : List ℕ) → q.gone ≡ true → put q xs ≡ (closed, q)
put-closed q xs e = ground (arith, e)

put-full :
    (q : Queue) (xs : List ℕ) → q.gone ≡ false → q.room ≤ length q.waiting → put q xs ≡ (full, q)
put-full q xs e h = ground (arith, e, h)

put-sent :
    (q : Queue) (xs : List ℕ)
    → q.gone ≡ false
    → length q.waiting < q.room
    → put q xs ≡ (sent, record q { waiting = q.waiting ++ (xs ∷ []) })
put-sent q xs e h = rw (e, lt→ltb _ _ h) refl

abbrev queues : Channels
queues = record {
  Sender = Queue;
  channel = λ n. record { room = n; waiting = []; gone = false };
  try_send = put;
  capacity = λ q. q.room;
  queued = λ q. q.waiting;
  is_closed = λ q. q.gone;
  channel_lem = λ n. (refl, refl, refl);
  try_send-closed = put-closed;
  try_send-full = put-full;
  try_send-sent =
      λ q xs e h. (record q { waiting = q.waiting ++ (xs ∷ []) }, put-sent q xs e h, refl, e, refl);
}

-- The bus, from which a packet has come, and a client.
abbrev bus : Peer Queue
bus = record {
  rx = record { arrived = request ∷ []; ended = false };
  tx = record { room = 8; waiting = []; gone = false };
}

abbrev bus_after : Peer Queue
bus_after = record bus { rx = record { arrived = []; ended = false } }

abbrev client : Peer Queue
client = record {
  rx = record { arrived = []; ended = false };
  tx = record { room = 8; waiting = []; gone = false };
}

poll_peers_ends_example :
    (r : Poll (ℕ × Packet) × Peers queues) × (poll_peers queues 3 (bus ∷ client ∷ []) ≡ ok r)
    × Answer queues (bus ∷ client ∷ []) r
poll_peers_ends_example = poll_peers_ends queues 3 (bus ∷ client ∷ []) (omega arith)

on_packet_lem_example :
    (left : Peers queues) × (on_packet queues {E = ⊥} plain 0 request (bus_after ∷ client ∷ [])
      ≡ ok left)
    × Perm (map (view queues) left) (
        handled queues plain
          (leb (length (wire (encode request))) 1024)
          (wire (encode request))
          []
          bus_after
          (client ∷ []))
on_packet_lem_example =
    on_packet_lem queues plain {E = ⊥} request [] bus_after (client ∷ []) request-IsValid

arrived-IsValid : (p : Packet) → Mem p (arrivals (bus ∷ client ∷ [])) → IsValid p
arrived-IsValid p m =
    subst IsValid (sym ((mem-singleton (hedberg Packet-discrete)).0 m)) request-IsValid

-- A client joins, and the packet of the bus goes to it.
multiplex_ends_example :
    (left : Peers queues) × (multiplex queues plain 2 (ready (some client)) (bus ∷ [])
      ≡ ok (some left))
    × All IsQuiet left
multiplex_ends_example =
    multiplex_ends queues plain 2 (some client) (bus ∷ []) arrived-IsValid (omega arith)
