-- ===== src/Busd/Polls.antt =====
-- One pass over the peers in `poll_peers` of busd/src/main.rs.
use samsung_nasa.Base.Perms.{flat}
use samsung_nasa.Base.{
  ℕ, suc, ◌+◌, ◌≡◌, refl, ap, ◌∙◌, arith, Bool, true, false, List, [], ◌∷◌, ◌++◌, length, All,
  Option, none, some,
}
use samsung_nasa.Packet.Types.{Packet}
use samsung_nasa.Busd.{Poll, pending, ready, Channels, Incoming, Peer, Peers, poll_next, poll_each}

module _ {S : Type 0} where
  abbrev pub arrived_at : Peer S → List Packet
  arrived_at peer = peer.rx.arrived

  -- The packets that have come in and wait.
  abbrev pub arrivals : List (Peer S) → List Packet
  arrivals = flat arrived_at

  abbrev pub sender_if : Bool → S → List S
  sender_if true tx = []
  sender_if false tx = tx ∷ []

  abbrev pub sender_of : Peer S → List S
  sender_of peer = sender_if peer.rx.ended peer.tx

  -- The senders of the peers whose stream has not ended.
  abbrev pub open_senders : List (Peer S) → List S
  open_senders = flat sender_of

  abbrev pub IsQuiet : Peer S → Type 0
  IsQuiet peer = (peer.rx.arrived ≡ []) × (peer.rx.ended ≡ false)

  -- The peer before its packet was taken.
  abbrev pub with_packet : Packet → Peer S → Peer S
  with_packet p peer = record peer { rx = record peer.rx { arrived = p ∷ peer.rx.arrived } }

-- What a poll of a stream can give.
data Next (rx : Incoming) : Type 0 where
  quiet : rx.arrived ≡ [] → rx.ended ≡ false → poll_next rx ≡ (pending, rx) → Next rx
  over : rx.arrived ≡ [] → rx.ended ≡ true → poll_next rx ≡ (ready none, rx) → Next rx
  came :
      (p : Packet) (after : Incoming)
      → rx ≡ record after { arrived = p ∷ after.arrived }
      → poll_next rx ≡ (ready (some p), after)
      → Next rx

poll-Next_of : (ps : List Packet) (e : Bool) → Next (record { arrived = ps; ended = e })
unfolding poll_next
poll-Next_of [] false = Next.quiet refl refl refl
poll-Next_of [] true = Next.over refl refl refl
poll-Next_of (p ∷ ps) e = Next.came p (record { arrived = ps; ended = e }) refl refl

poll-Next_cases : (rx : Incoming) → Next rx
poll-Next_cases rx = poll-Next_of rx.arrived rx.ended

module _ (channels : Channels) where
  -- What the `for` loop can find.
  pub data Each (k : ℕ) (peers : Peers channels) : Type 0 where
    quiet : All IsQuiet peers → poll_each channels k peers ≡ (pending, peers) → Each k peers
    over :
        (pre : Peers channels) (x : Peer channels.Sender) (post : Peers channels)
        → peers ≡ pre ++ (x ∷ post)
        → x.rx.arrived ≡ []
        → x.rx.ended ≡ true
        → poll_each channels k peers ≡ (ready (k + length pre, none), peers)
        → Each k peers
    came :
        (pre : Peers channels) (x : Peer channels.Sender) (post : Peers channels) (p : Packet)
        → peers ≡ pre ++ (with_packet p x ∷ post)
        → poll_each channels k peers ≡ (ready (k + length pre, some p), pre ++ (x ∷ post))
        → Each k peers

  abbrev poll_on :
      ℕ
      → Peer channels.Sender
      → Peers channels
      → Poll (ℕ × Option Packet) × Peers channels
      → Poll (Option Packet) × Incoming
      → Poll (ℕ × Option Packet) × Peers channels
  poll_on k peer peers rest polled = elim polled.0 [
    | pending ↦ (rest.0, record peer { rx = polled.1 } ∷ rest.1)
    | ready item ↦ (ready (k, item), record peer { rx = polled.1 } ∷ peers)
  ]

  poll_each_later :
      (k : ℕ) (peer : Peer channels.Sender) (peers : Peers channels)
      → IsQuiet peer
      → poll_each channels k (peer ∷ peers)
        ≡ ((poll_each channels (suc k) peers).0, peer ∷ (poll_each channels (suc k) peers).1)
      → Each (suc k) peers
      → Each k (peer ∷ peers)
  poll_each_later k peer peers q e (Each.quiet qs e') =
      Each.quiet (q, qs) (e ∙ ap (λ r. (r.0, peer ∷ r.1)) e')
  poll_each_later k peer peers q e (Each.over pre x post split a b e') =
      Each.over (peer ∷ pre) x post (ap (λ t. peer ∷ t) split) a b (
        e
        ∙ ap (λ r. (r.0, peer ∷ r.1)) e'
        ∙ ap (λ n. (ready (n, none), peer ∷ peers)) (omega arith))
  poll_each_later k peer peers q e (Each.came pre x post p split e') =
      Each.came (peer ∷ pre) x post p (ap (λ t. peer ∷ t) split) (
        e
        ∙ ap (λ r. (r.0, peer ∷ r.1)) e'
        ∙ ap (λ n. (ready (n, some p), peer ∷ (pre ++ (x ∷ post)))) (omega arith))

  poll-Each_on :
      (k : ℕ) (peer : Peer channels.Sender) (peers : Peers channels)
      → Next peer.rx
      → Each (suc k) peers
      → Each k (peer ∷ peers)
  unfolding poll_each
  poll-Each_on k peer peers (Next.quiet a b e) each =
      poll_each_later k peer peers (a, b)
        (ap (poll_on k peer peers (poll_each channels (suc k) peers)) e) each
  poll-Each_on k peer peers (Next.over a b e) each = Each.over [] peer peers refl a b (
      ap (poll_on k peer peers (poll_each channels (suc k) peers)) e
      ∙ ap (λ n. (ready (n, none), peer ∷ peers)) (omega arith))
  poll-Each_on k peer peers (Next.came p after back e) each =
      Each.came [] (record peer { rx = after }) peers p
        (ap (λ (r : Incoming). record peer { rx = r } ∷ peers) back)
        (ap (poll_on k peer peers (poll_each channels (suc k) peers)) e
          ∙ ap (λ n. (ready (n, some p), record peer { rx = after } ∷ peers)) (omega arith))

  pub poll-Each_cases : (k : ℕ) (peers : Peers channels) → Each k peers
  poll-Each_cases k [] = Each.quiet tt (unfold poll_each in refl)
  poll-Each_cases k (peer ∷ peers) =
      poll-Each_on k peer peers (poll-Next_cases peer.rx) (poll-Each_cases (suc k) peers)
