-- ===== src/Busd.antt =====
-- busd/src/main.rs: the daemon that joins the bus and its clients, each a peer.
pub mod Vector
pub mod Polls
pub mod Answers
pub mod Forward
pub mod Serve
pub mod Relay
use samsung_nasa.Base.{
  ℕ, zero, suc, ◌==◌, Bool, true, false, if◌then◌else◌, List, [], ◌∷◌, ◌++◌, length, Option, none,
  some, Result, ok, err, panic, ◌>>=◌, ◌≡◌, ◌≤◌, ◌<◌,
}
use samsung_nasa.Crates.{Crates}
use samsung_nasa.Packet.Types.{Packet}
use samsung_nasa.Client.Transport.{Item, received, bad, io_error, crashed, serialize_frame}
use samsung_nasa.Busd.Vector.{swap_remove}

-- `std::task::Poll`.
pub data Poll (A : Type 0) : Type 0 where
  pending : Poll A
  ready : A → Poll A

-- What `Sender::try_send` answers.
pub data Sent : Type 0 where
  sent full closed : Sent

-- The crate tokio is not in the repository: what the daemon takes of its channels, whose senders
-- are seen by the byte strings that wait in them, their room, and whether their receiver is gone.
pub record Channels : Type 1 where
  pub Sender : Type 0
  -- the sender of `mpsc::channel`
  pub channel : ℕ → Sender
  pub try_send : Sender → List ℕ → Sent × Sender
  pub capacity : Sender → ℕ
  pub queued : Sender → List (List ℕ)
  pub is_closed : Sender → Bool
  pub channel_lem :
      (n : ℕ)
      → (capacity (channel n) ≡ n) × (queued (channel n) ≡ []) × (is_closed (channel n) ≡ false)
  pub try_send-closed :
      (s : Sender) (xs : List ℕ) → is_closed s ≡ true → try_send s xs ≡ (closed, s)
  pub try_send-full :
      (s : Sender) (xs : List ℕ)
      → is_closed s ≡ false
      → capacity s ≤ length (queued s)
      → try_send s xs ≡ (full, s)
  pub try_send-sent :
      (s : Sender) (xs : List ℕ)
      → is_closed s ≡ false
      → length (queued s) < capacity s
      → (t : Sender) × (try_send s xs ≡ (sent, t))
        × (queued t ≡ queued s ++ (xs ∷ []))
        × (is_closed t ≡ false)
        × (capacity t ≡ capacity s)

-- The stream of `recv_stream` as it stands: the packets that have come in, and whether it ends
-- after them.
pub record Incoming : Type 0 where
  pub arrived : List Packet
  pub ended : Bool

abbrev pub and_arrived : Packet → Incoming → Incoming
and_arrived p rx = record rx { arrived = p ∷ rx.arrived }

-- `recv_stream`, over what `try_read` has yielded: bad frames and packets are logged, an i/o error
-- ends it, and so does the end of the items, which `try_read` reports as one. A panic that `try_read`
-- meets goes through the daemon.
unfoldable pub recv_stream : {E : Type 0} → List Item → Result E Incoming
recv_stream [] = ok (record { arrived = []; ended = true })
recv_stream (received p ∷ rest) = recv_stream rest >>= λ rx. ok (and_arrived p rx)
recv_stream (bad e ∷ rest) = recv_stream rest
recv_stream (io_error ∷ rest) = ok (record { arrived = []; ended = true })
recv_stream (crashed ∷ rest) = panic

-- `poll_next` of that stream.
unfoldable pub poll_next : Incoming → Poll (Option Packet) × Incoming
poll_next rx = elim rx.arrived [
  | p ∷ ps ↦ (ready (some p), record rx { arrived = ps })
  | [] ↦ (if rx.ended then ready none else pending, rx)
]

pub record Peer (Sender : Type 0) : Type 0 where
  pub rx : Incoming
  pub tx : Sender

-- `send_task`: what it writes of the byte strings it receives, where `results` says whether each
-- `write_all` succeeds.
unfoldable pub send_task : List (List ℕ) → List Bool → List (List ℕ)
send_task (xs ∷ rest) (true ∷ results) = xs ∷ send_task rest results
send_task (xs ∷ rest) (false ∷ results) = []
send_task [] results = []
send_task (xs ∷ rest) [] = []

-- How a loop on fuel ends without a result.
pub data Stopped : Type 0 where
  out_of_fuel : Stopped

module _ (channels : Channels) where
  abbrev pub Peers : Type 0
  Peers = List (Peer channels.Sender)

  -- `Peer::new`, on the stream of its reads.
  unfoldable pub new : Incoming → Peer channels.Sender
  new rx = record { rx = rx; tx = channels.channel 8 }

  -- `accept_task`: the peers that it sends, for the streams that `accept` gives, up to its error; it
  -- stops where the channel of new clients is closed.
  unfoldable pub accept_task : List (Option Incoming) → List Bool → Peers
  accept_task (some rx ∷ rest) (true ∷ taken) = new rx ∷ accept_task rest taken
  accept_task (some rx ∷ rest) (false ∷ taken) = []
  accept_task (some rx ∷ rest) [] = []
  accept_task (none ∷ rest) taken = []
  accept_task [] taken = []

  -- The `for` loop of `poll_peers`: the first peer that is not pending, by its index and what its
  -- stream gave, and the peers after the polls.
  unfoldable pub poll_each : ℕ → Peers → Poll (ℕ × Option Packet) × Peers
  poll_each idx [] = (pending, [])
  poll_each idx (peer ∷ peers) =
      let polled = poll_next peer.rx in
      let rest = poll_each (suc idx) peers in
      elim polled.0 [
        | pending ↦ (rest.0, record peer { rx = polled.1 } ∷ rest.1)
        | ready item ↦ (ready (idx, item), record peer { rx = polled.1 } ∷ peers)
      ]

  -- `poll_peers`: a peer whose stream has ended is removed, and the polls begin again.
  unfoldable pub poll_peers : ℕ → Peers → Result Stopped (Poll (ℕ × Packet) × Peers)
  poll_peers zero peers = err out_of_fuel
  poll_peers (suc fuel) peers =
      let polled = poll_each 0 peers in
      elim polled.0 [
        | pending ↦ ok (pending, polled.1)
        | ready (idx, item) ↦ elim item [
          | none ↦ swap_remove idx polled.1 >>= poll_peers fuel
          | some packet ↦ ok (ready (idx, packet), polled.1)
        ]
      ]

  -- The `for` loop that sends a packet on: the peers after it, and the indices of those whose
  -- channel is closed.
  unfoldable pub forward : ℕ → List ℕ → ℕ → Peers → Peers × List ℕ
  forward rx_idx xs idx [] = ([], [])
  forward rx_idx xs idx (peer ∷ peers) =
      let (others, dead) = forward rx_idx xs (suc idx) peers in
      let tried = channels.try_send peer.tx xs in
      if idx == rx_idx then (peer ∷ others, dead) else (
        record peer { tx = tried.1 } ∷ others,
        elim tried.0 [ sent ↦ dead | full ↦ dead | closed ↦ idx ∷ dead ],
      )

  -- `while let Some(idx) = dead.pop()`: the last index is taken out first.
  unfoldable pub remove_dead : {E : Type 0} → List ℕ → Peers → Result E Peers
  remove_dead [] peers = ok peers
  remove_dead (idx ∷ dead) peers = remove_dead dead peers >>= swap_remove idx

  -- The rest of the loop of `multiplex`, for a packet: one that cannot be serialised is logged.
  unfoldable pub on_packet : {E : Type 0} → Crates → ℕ → Packet → Peers → Result E Peers
  on_packet crates rx_idx packet peers = elim (serialize_frame crates packet) [
    | ok xs ↦ let (others, dead) = forward rx_idx xs 0 peers in remove_dead dead others
    | err _ ↦ ok peers
    | panic ↦ panic
  ]

  -- The loop of `multiplex`, up to the poll where every peer is pending. The fuel is of the loop;
  -- `poll_peers` has one try for each peer and one more.
  unfoldable pub serve : Crates → ℕ → Peers → Result Stopped Peers
  serve crates zero peers = err out_of_fuel
  serve crates (suc fuel) peers = poll_peers (suc (length peers)) peers >>= λ polled.
      elim polled.0 [
        | pending ↦ ok polled.1
        | ready (rx_idx, packet) ↦ on_packet crates rx_idx packet polled.1 >>= serve crates fuel
      ]

  -- One poll of `multiplex`, by what its channel of new clients answers: `none` once it is over.
  unfoldable pub multiplex :
      Crates → ℕ → Poll (Option (Peer channels.Sender)) → Peers → Result Stopped (Option Peers)
  multiplex crates fuel pending peers = serve crates fuel peers >>= λ left. ok (some left)
  multiplex crates fuel (ready none) peers = ok none
  multiplex crates fuel (ready (some peer)) peers =
      serve crates fuel (peers ++ (peer ∷ [])) >>= λ left. ok (some left)
