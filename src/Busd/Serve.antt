-- ===== src/Busd/Serve.antt =====
-- The loop of `multiplex` of busd/src/main.rs as a whole.
use mathlib.Core.List.{Perm, perm_middle, Mem, mem-append_right, mem-cons_self, mem-cons_of_mem}
use mathlib.Core.List.Perm
use samsung_nasa.Base.Perms.{flat, flat-append, perm-eq, flat-perm, append_swap, length-perm}
use samsung_nasa.Base.{
  ℕ, zero, suc, ◌≤◌, ◌<◌, ◌≡◌, refl, sym, ap, ◌∙◌, arith, Bool, true, false, if◌then◌else◌, leb,
  List, [], ◌∷◌, ◌++◌, map, append_assoc, length, length-append, All, Option, none, some, Result,
  ok, err, panic, ◌>>=◌, after_ok,
}
use samsung_nasa.Crates.{Crates}
use samsung_nasa.Packet.Types.{Packet, IsValid}
use samsung_nasa.Packet.Error.{SerializePacketError, buffer_too_short}
use samsung_nasa.Packet.Encoding.{encode}
use samsung_nasa.Packet.Serialize.Frame.{wire}
use samsung_nasa.Client.Transport.Wire.{serialize_frame-wire}
use samsung_nasa.Busd.{
  Poll, pending, ready, Channels, Incoming, Peer, Peers, forward, remove_dead, on_packet, serve,
  Stopped, multiplex,
}
use samsung_nasa.Busd.Polls.{arrivals, arrived_at, IsQuiet}
use samsung_nasa.Busd.Answers.{Answer, poll_peers_ends}
use samsung_nasa.Busd.Forward.{view, offered, enqueued, forward-remove_dead}

module _ (channels : Channels) (crates : Crates) where
  -- The peers, as they are seen, after the packet of one of them is handled.
  abbrev pub handled :
      Bool
      → List ℕ
      → Peers channels
      → Peer channels.Sender
      → Peers channels
      → List (Incoming × List (List ℕ))
  handled fits xs pre x post =
      if fits
      then flat (offered channels xs) pre ++ (view channels x ∷ flat (offered channels xs) post)
      else map (view channels) (pre ++ (x ∷ post))

  abbrev on_bytes :
      {E : Type 0}
      → ℕ
      → Peers channels
      → Result SerializePacketError (List ℕ)
      → Result E (Peers channels)
  on_bytes rx_idx peers serialised = elim serialised [
    | ok xs ↦
        let (others, dead) = forward channels rx_idx xs 0 peers in remove_dead channels dead others
    | err _ ↦ ok peers
    | panic ↦ panic
  ]

  on_bytes-if :
      {E : Type 0} (fits : Bool) (xs : List ℕ) (pre : Peers channels) (x : Peer channels.Sender)
      (post : Peers channels)
      → (left : Peers channels) × (on_bytes {E = E}
            (length pre)
            (pre ++ (x ∷ post))
            (if fits then ok xs else err buffer_too_short)
          ≡ ok left)
        × Perm (map (view channels) left) (handled fits xs pre x post)
  on_bytes-if true xs pre x post = forward-remove_dead channels xs pre x post
  on_bytes-if false xs pre x post = (pre ++ (x ∷ post), refl, Perm.refl _)

  -- A valid packet of a peer is handled without a panic. If its frame has at most 1024 bytes, the
  -- peers that are left are, up to order, the one it came from, unchanged, and each other one whose
  -- channel is open, where the frame is behind the byte strings that wait, if there is room for it;
  -- else they are the peers as they were.
  pub on_packet_lem :
      {E : Type 0} (p : Packet) (pre : Peers channels) (x : Peer channels.Sender)
      (post : Peers channels)
      → IsValid p
      → (left : Peers channels) × (on_packet channels {E = E} crates
            (length pre)
            p
            (pre ++ (x ∷ post))
          ≡ ok left)
        × Perm
            (map (view channels) left)
            (handled (leb (length (wire (encode p))) 1024) (wire (encode p)) pre x post)
  unfolding on_packet
  on_packet_lem p pre x post v =
      let (left, e, same) =
        on_bytes-if (leb (length (wire (encode p))) 1024) (wire (encode p)) pre x post in
      (
        left,
        ap (on_bytes (length pre) (pre ++ (x ∷ post))) (serialize_frame-wire crates p v) ∙ e,
        same,
      )

  abbrev arrived_in : Incoming × List (List ℕ) → List Packet
  arrived_in v = v.0.arrived

  arrivals-view :
      (peers : Peers channels) → arrivals peers ≡ flat arrived_in (map (view channels) peers)
  arrivals-view [] = refl
  arrivals-view (peer ∷ peers) = ap (λ t. peer.rx.arrived ++ t) (arrivals-view peers)

  -- Only the packets of the peers that are removed are lost.
  abbrev LosesTo : List Packet → List Packet → Type 0
  LosesTo before after = (lost : List Packet) × Perm before (lost ++ after)

  LosesTo-offered :
      (xs : List ℕ) (peers : Peers channels)
      → LosesTo (arrivals peers) (flat arrived_in (flat (offered channels xs) peers))
  LosesTo-offered xs [] = ([], Perm.refl [])
  LosesTo-offered xs (peer ∷ peers) =
      let (lost, same) = LosesTo-offered xs peers in
      LosesTo-if (channels.is_closed peer.tx) xs peer peers lost same
    where
      LosesTo-if :
          (b : Bool) (xs : List ℕ) (peer : Peer channels.Sender) (peers : Peers channels)
          (lost : List Packet)
          → Perm (arrivals peers) (lost ++ flat arrived_in (flat (offered channels xs) peers))
          → LosesTo (arrivals (peer ∷ peers)) (
              flat arrived_in (
                (if b then [] else (peer.rx, enqueued channels xs peer.tx) ∷ [])
                ++ flat (offered channels xs) peers))
      LosesTo-if true xs peer peers lost same = (
        peer.rx.arrived ++ lost,
        Perm.trans (Perm.append_left peer.rx.arrived same)
            (perm-eq (sym (append_assoc peer.rx.arrived lost _))),
      )
      LosesTo-if false xs peer peers lost same = (
        lost,
        Perm.trans (Perm.append_left peer.rx.arrived same) (append_swap peer.rx.arrived lost _),
      )

  LosesTo-handled :
      (b : Bool) (xs : List ℕ) (pre : Peers channels) (x : Peer channels.Sender)
      (post : Peers channels)
      → LosesTo (arrivals (pre ++ (x ∷ post))) (flat arrived_in (handled b xs pre x post))
  LosesTo-handled true xs pre x post =
      let (lost, same) = LosesTo-offered xs (pre ++ post) in
      (
        lost,
        Perm.trans (flat-perm arrived_at (perm_middle pre post)) (
            Perm.trans (Perm.append_left x.rx.arrived same) (
              Perm.trans (append_swap x.rx.arrived lost _) (
                Perm.append_left lost (
                  Perm.trans
                    (perm-eq (
                      ap (λ t. x.rx.arrived ++ flat arrived_in t)
                        (flat-append (offered channels xs) pre post)))
                    (Perm.symm (
                      flat-perm arrived_in (
                        perm_middle (flat (offered channels xs) pre)
                          (flat (offered channels xs) post)))))))),
      )
  LosesTo-handled false xs pre x post = ([], perm-eq (arrivals-view (pre ++ (x ∷ post))))

  abbrev AllValid : List Packet → Type 0
  AllValid ps = (p : Packet) → Mem p ps → IsValid p

  AllValid-after :
      (before after : List Packet) → LosesTo before after → AllValid before → AllValid after
  AllValid-after before after (lost, same) h p m =
      h p ((Perm.mem_iff same).1 (mem-append_right lost m))

  length-after : (before after : List Packet) → LosesTo before after → length after ≤ length before
  length-after before after (lost, same) = omega (arith, length-perm same, length-append lost after)

  abbrev serve_rest : ℕ → Poll (ℕ × Packet) × Peers channels → Result Stopped (Peers channels)
  serve_rest fuel polled = elim polled.0 [
    | pending ↦ ok polled.1
    | ready (rx_idx, packet) ↦
        on_packet channels crates rx_idx packet polled.1 >>= serve channels crates fuel
  ]

  abbrev Ends : Result Stopped (Peers channels) → Type 0
  Ends r = (left : Peers channels) × (r ≡ ok left) × All IsQuiet left

  serve-Answer :
      (fuel : ℕ) (peers : Peers channels) (r : Poll (ℕ × Packet) × Peers channels)
      → AllValid (arrivals peers)
      → length (arrivals peers) < suc fuel
      → ((left : Peers channels)
          → AllValid (arrivals left)
          → length (arrivals left) < fuel
          → Ends (serve channels crates fuel left))
      → Answer channels peers r
      → Ends (serve_rest fuel r)
  serve-Answer fuel peers r valid h again (Answer.waits left quiet _ _) = (left, refl, quiet)
  serve-Answer fuel peers r valid h again (Answer.takes pre x post p _ moved _) =
      let after = arrivals (pre ++ (x ∷ post)) in
      let (left, done, views) =
        on_packet_lem p pre x post (valid p ((Perm.mem_iff moved).1 mem-cons_self)) in
      let (lost, kept) =
        LosesTo-handled (leb (length (wire (encode p))) 1024) (wire (encode p)) pre x post in
      let loses : LosesTo after (arrivals left) = (
        lost,
        Perm.trans kept (
            Perm.append_left lost (
              Perm.trans (Perm.symm (flat-perm arrived_in views))
                (perm-eq (sym (arrivals-view left))))),
      ) in
      let (rest, served, quiet) =
        again left
          (AllValid-after after (arrivals left) loses
            (λ q m. valid q ((Perm.mem_iff moved).1 (mem-cons_of_mem p m))))
          (omega (arith, h, length-perm moved, length-after after (arrivals left) loses)) in
      (rest, after_ok (serve channels crates fuel) done ∙ served, quiet)

  serve-Ends :
      (fuel : ℕ) (peers : Peers channels)
      → AllValid (arrivals peers)
      → length (arrivals peers) < fuel
      → Ends (serve channels crates fuel peers)
  unfolding serve
  serve-Ends zero peers valid h = absurd (omega (arith, h))
  serve-Ends (suc fuel) peers valid h =
      let (r, polled, answer) = poll_peers_ends channels (suc (length peers)) peers (omega arith) in
      let (left, served, quiet) =
        serve-Answer fuel peers r valid h (λ left v less. serve-Ends fuel left v less) answer in
      (left, after_ok (serve_rest fuel) polled ∙ served, quiet)

  -- The channel of new clients, where it is not over, and the peers with the new one.
  abbrev pub accepted : Option (Peer channels.Sender) → Poll (Option (Peer channels.Sender))
  accepted none = pending
  accepted (some peer) = ready (some peer)

  abbrev pub joined : Option (Peer channels.Sender) → Peers channels → Peers channels
  joined none peers = peers
  joined (some peer) peers = peers ++ (peer ∷ [])

  -- One poll of `multiplex`, whether it accepts a client or not, comes to an end within one round
  -- for each packet that has come in and one more, where these packets are valid: without a panic,
  -- and with no packet and no end of a stream left to handle at any peer.
  pub multiplex_ends :
      (fuel : ℕ) (new : Option (Peer channels.Sender)) (peers : Peers channels)
      → ((p : Packet) → Mem p (arrivals (joined new peers)) → IsValid p)
      → length (arrivals (joined new peers)) < fuel
      → (left : Peers channels) × (multiplex channels crates fuel (accepted new) peers
          ≡ ok (some left))
        × All IsQuiet left
  unfolding multiplex
  multiplex_ends fuel none peers valid h =
      let (left, served, quiet) = serve-Ends fuel peers valid h in
      (left, after_ok (λ t. ok (some t)) served, quiet)
  multiplex_ends fuel (some peer) peers valid h =
      let (left, served, quiet) = serve-Ends fuel (peers ++ (peer ∷ [])) valid h in
      (left, after_ok (λ t. ok (some t)) served, quiet)
