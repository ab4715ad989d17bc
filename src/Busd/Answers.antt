-- ===== src/Busd/Answers.antt =====
-- What `poll_peers` of busd/src/main.rs answers, and that it answers.
use mathlib.Core.List.{Perm, Mem, perm_middle, mem-cons_self, mem-cons_of_mem, mem-append_right}
use mathlib.Core.List.Perm
use samsung_nasa.Base.Perms.{flat, flat-append, flat-perm, perm-eq, length-perm}
use samsung_nasa.Base.{
  ℕ, zero, suc, ◌+◌, ◌<◌, ◌≡◌, refl, sym, ap, ◌∙◌, subst, arith, true, List, [], ◌∷◌, ◌++◌, length,
  length-append, All, Option, none, some, Result, ok, ◌>>=◌, after_ok,
}
use samsung_nasa.Packet.Types.{Packet}
use samsung_nasa.Busd.Vector.{swap_remove, to_front, to_front-perm, swap_remove-middle}
use samsung_nasa.Busd.{Poll, pending, ready, Channels, Peer, Peers, poll_each, poll_peers, Stopped}
use samsung_nasa.Busd.Polls.{
  arrived_at, arrivals, sender_if, sender_of, open_senders, IsQuiet, with_packet, Each,
  poll-Each_cases,
}

module _ (channels : Channels) where
  -- What an answer of `poll_peers` says of the peers: none has a packet, and those that are left
  -- are quiet; or a packet is taken from the peer at the index. No other packet is lost, nor a peer
  -- whose stream goes on.
  pub data Answer (peers : Peers channels) : Poll (ℕ × Packet) × Peers channels → Type 0 where
    waits :
        (left : Peers channels)
        → All IsQuiet left
        → Perm (arrivals peers) []
        → Perm (open_senders peers) (open_senders left)
        → Answer peers (pending, left)
    takes :
        (pre : Peers channels) (x : Peer channels.Sender) (post : Peers channels) (p : Packet)
        → Mem (with_packet p x) peers
        → Perm (arrivals peers) (p ∷ arrivals (pre ++ (x ∷ post)))
        → Perm (open_senders peers) (open_senders (pre ++ (x ∷ post)))
        → Answer peers (ready (length pre, p), pre ++ (x ∷ post))

  arrivals-quiet : (peers : Peers channels) → All IsQuiet peers → arrivals peers ≡ []
  arrivals-quiet [] h = refl
  arrivals-quiet (peer ∷ peers) ((e, _), h) =
      ap (λ ps. ps ++ arrivals peers) e ∙ arrivals-quiet peers h

  removed-perm :
      (pre : Peers channels) (x : Peer channels.Sender) (post : Peers channels)
      → Perm (pre ++ (x ∷ post)) (x ∷ (pre ++ to_front post))
  removed-perm pre x post =
      Perm.trans (perm_middle pre post)
        (Perm.cons x (Perm.append_left pre (Perm.symm (to_front-perm post))))

  removed-flat :
      {B : Type 0} (f : Peer channels.Sender → List B) (pre : Peers channels)
      (x : Peer channels.Sender) (post : Peers channels)
      → f x ≡ []
      → Perm (flat f (pre ++ (x ∷ post))) (flat f (pre ++ to_front post))
  removed-flat f pre x post e =
      Perm.trans (flat-perm f (removed-perm pre x post))
        (perm-eq (ap (λ ys. ys ++ flat f (pre ++ to_front post)) e))

  taken-arrivals :
      (pre : Peers channels) (x : Peer channels.Sender) (post : Peers channels) (p : Packet)
      → Perm (arrivals (pre ++ (with_packet p x ∷ post))) (p ∷ arrivals (pre ++ (x ∷ post)))
  taken-arrivals pre x post p =
      Perm.trans (perm-eq (flat-append arrived_at pre (with_packet p x ∷ post))) (
        Perm.trans (perm_middle (arrivals pre) (arrivals (x ∷ post)))
          (Perm.cons p (perm-eq (sym (flat-append arrived_at pre (x ∷ post))))))

  -- A peer that is over makes no difference.
  Answer-removed :
      (pre : Peers channels) (x : Peer channels.Sender) (post : Peers channels)
      {r : Poll (ℕ × Packet) × Peers channels}
      → x.rx.arrived ≡ []
      → x.rx.ended ≡ true
      → Answer (pre ++ to_front post) r
      → Answer (pre ++ (x ∷ post)) r
  Answer-removed pre x post a b (Answer.waits left h none_left same) =
      Answer.waits left h (Perm.trans (removed-flat arrived_at pre x post a) none_left)
        (Perm.trans (removed-flat sender_of pre x post (ap (λ e. sender_if e x.tx) b)) same)
  Answer-removed pre x post a b (Answer.takes pre' y post' p m moved same) =
      Answer.takes pre' y post' p ((Perm.mem_iff (removed-perm pre x post)).1 (mem-cons_of_mem x m))
        (Perm.trans (removed-flat arrived_at pre x post a) moved)
        (Perm.trans (removed-flat sender_of pre x post (ap (λ e. sender_if e x.tx) b)) same)

  abbrev poll_rest :
      ℕ
      → Poll (ℕ × Option Packet) × Peers channels
      → Result Stopped (Poll (ℕ × Packet) × Peers channels)
  poll_rest fuel polled = elim polled.0 [
    | pending ↦ ok (pending, polled.1)
    | ready (idx, item) ↦ elim item [
      | none ↦ swap_remove idx polled.1 >>= poll_peers channels fuel
      | some packet ↦ ok (ready (idx, packet), polled.1)
    ]
  ]

  zero_add : (n : ℕ) → 0 + n ≡ n
  zero_add n = omega arith

  shorter :
      (pre : Peers channels) (x : Peer channels.Sender) (post : Peers channels) (fuel : ℕ)
      → length (pre ++ (x ∷ post)) < suc fuel
      → length (pre ++ to_front post) < fuel
  shorter pre x post fuel h = omega (
    arith,
    length-append pre (x ∷ post),
    length-append pre (to_front post),
    length-perm (to_front-perm post),
  )

  poll_peers-Each :
      (fuel : ℕ) (peers : Peers channels)
      → length peers < suc fuel
      → ((left : Peers channels)
          → length left < fuel
          → (r : Poll (ℕ × Packet) × Peers channels) × (poll_peers channels fuel left ≡ ok r)
            × Answer left r)
      → Each channels 0 peers
      → (r : Poll (ℕ × Packet) × Peers channels) × (poll_rest fuel (poll_each channels 0 peers)
          ≡ ok r)
        × Answer peers r
  poll_peers-Each fuel peers h again (Each.quiet q e) = (
    (pending, peers),
    ap (poll_rest fuel) e,
    Answer.waits peers q (perm-eq (arrivals-quiet peers q)) (Perm.refl _),
  )
  poll_peers-Each fuel peers h again (Each.over pre x post split a b e) =
      let (r, found, answer) =
        again (pre ++ to_front post)
          (shorter pre x post fuel (subst (λ t. length t < suc fuel) split h)) in
      (
        r,
        ap (poll_rest fuel) (e ∙ ap (λ n. (ready (n, none), peers)) (zero_add (length pre)))
            ∙ ap (λ t. swap_remove (length pre) t >>= poll_peers channels fuel) split
            ∙ after_ok (poll_peers channels fuel) (swap_remove-middle pre x post)
            ∙ found,
        subst (λ t. Answer t r) (sym split) (Answer-removed pre x post a b answer),
      )
  poll_peers-Each fuel peers h again (Each.came pre x post p split e) = (
    (ready (length pre, p), pre ++ (x ∷ post)),
    ap (poll_rest fuel)
        (e ∙ ap (λ n. (ready (n, some p), pre ++ (x ∷ post))) (zero_add (length pre))),
    subst (λ t. Answer t (ready (length pre, p), pre ++ (x ∷ post))) (sym split)
        (Answer.takes pre x post p (mem-append_right pre mem-cons_self)
          (taken-arrivals pre x post p)
          (perm-eq (
            flat-append sender_of pre (with_packet p x ∷ post)
            ∙ sym (flat-append sender_of pre (x ∷ post))))),
  )

  -- However many peers there are, `poll_peers` ends within one try for each of them and one more,
  -- with an answer that loses no packet and no peer whose stream goes on.
  pub poll_peers_ends :
      (fuel : ℕ) (peers : Peers channels)
      → length peers < fuel
      → (r : Poll (ℕ × Packet) × Peers channels) × (poll_peers channels fuel peers ≡ ok r)
        × Answer peers r
  unfolding poll_peers
  poll_peers_ends zero peers h = absurd (omega (arith, h))
  poll_peers_ends (suc fuel) peers h =
      poll_peers-Each fuel peers h (λ left less. poll_peers_ends fuel left less)
        (poll-Each_cases channels 0 peers)
