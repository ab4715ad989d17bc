-- ===== src/Busd/Forward.antt =====
-- How `multiplex` of busd/src/main.rs sends a packet on: to every peer but the one it came from.
use mathlib.Core.List.{Perm}
use mathlib.Core.List.Perm
use samsung_nasa.Base.Perms.{flat, perm-eq}
use samsung_nasa.Base.{
  ℕ, suc, ◌+◌, ◌<◌, ◌≡◌, refl, sym, ap, ◌∙◌, subst, arith, ltb, ◌==◌, Bool, true, false, Bool-cases,
  if◌then◌else◌, List, [], ◌∷◌, ◌++◌, map, append_assoc, length, length-append, ok, after_ok, inl,
  inr, ==_false, ==_iff,
}
use samsung_nasa.Busd.Vector.{swap_remove, to_front, to_front-perm, swap_remove-middle}
use samsung_nasa.Busd.{
  Channels, Incoming, Peer, Peers, Sent, sent, full, closed, forward, remove_dead,
}

module _ (channels : Channels) where
  -- A peer as it is seen: what has come from it, and what waits to be written to it.
  abbrev pub view : Peer channels.Sender → Incoming × List (List ℕ)
  view peer = (peer.rx, channels.queued peer.tx)

  -- What waits after a byte string is offered: where there is no room, it is dropped.
  abbrev pub enqueued : List ℕ → channels.Sender → List (List ℕ)
  enqueued xs s =
      if ltb (length (channels.queued s)) (channels.capacity s)
      then channels.queued s ++ (xs ∷ [])
      else channels.queued s

  -- A peer to which a byte string is offered, as it is seen afterwards; it is gone if its channel
  -- was closed.
  abbrev pub offered : List ℕ → Peer channels.Sender → List (Incoming × List (List ℕ))
  offered xs peer = if channels.is_closed peer.tx then [] else (peer.rx, enqueued xs peer.tx) ∷ []

  -- What `try_send` can do.
  data Try (xs : List ℕ) (s : channels.Sender) : Type 0 where
    gone : channels.is_closed s ≡ true → channels.try_send s xs ≡ (closed, s) → Try xs s
    no_room :
        channels.is_closed s ≡ false
        → channels.try_send s xs ≡ (full, s)
        → channels.queued s ≡ enqueued xs s
        → Try xs s
    room :
        (t : channels.Sender)
        → channels.is_closed s ≡ false
        → channels.try_send s xs ≡ (sent, t)
        → channels.queued t ≡ enqueued xs s
        → Try xs s

  Try-send-cases : (xs : List ℕ) (s : channels.Sender) → Try xs s
  Try-send-cases xs s = elim (Bool-cases (channels.is_closed s)) [
    | inl e ↦ Try.gone e (channels.try_send-closed s xs e)
    | inr e ↦ elim (Bool-cases (ltb (length (channels.queued s)) (channels.capacity s))) [
      | inl fits ↦
          let (t, sends, queue, _, _) = channels.try_send-sent s xs e (ground (arith, fits)) in
          Try.room t e sends (
            queue
            ∙ sym (ap (λ b. if b then channels.queued s ++ (xs ∷ []) else channels.queued s) fits))
      | inr over ↦
          Try.no_room e (channels.try_send-full s xs e (ground (arith, over)))
            (sym (ap (λ b. if b then channels.queued s ++ (xs ∷ []) else channels.queued s) over))
    ]
  ]

  module _ (E : Type 0) (rx_idx : ℕ) (xs : List ℕ) where
    -- The peers from an index on, as they are seen after a packet is sent on.
    abbrev seen : ℕ → Peers channels → List (Incoming × List (List ℕ))
    seen k [] = []
    seen k (peer ∷ peers) =
        (if k == rx_idx then view peer ∷ [] else offered xs peer) ++ seen (suc k) peers

    seen-offered :
        (k : ℕ) (peers : Peers channels) → rx_idx < k → seen k peers ≡ flat (offered xs) peers
    seen-offered k [] h = refl
    seen-offered k (peer ∷ peers) h =
        ap (λ b. (if b then view peer ∷ [] else offered xs peer) ++ seen (suc k) peers)
          (==_false k rx_idx (λ e. omega (arith, h, e)))
        ∙ ap (λ t. offered xs peer ++ t) (seen-offered (suc k) peers (omega (arith, h)))

    seen-middle :
        (k : ℕ) (pre : Peers channels) (x : Peer channels.Sender) (post : Peers channels)
        → k + length pre ≡ rx_idx
        → seen k (pre ++ (x ∷ post)) ≡ flat (offered xs) pre ++ (view x ∷ flat (offered xs) post)
    seen-middle k [] x post e =
        ap (λ b. (if b then view x ∷ [] else offered xs x) ++ seen (suc k) post)
          ((==_iff k rx_idx).1 (omega (arith, e)))
        ∙ ap (λ t. view x ∷ t) (seen-offered (suc k) post (omega (arith, e)))
    seen-middle k (y ∷ ys) x post e =
        ap (λ b. (if b then view y ∷ [] else offered xs y) ++ seen (suc k) (ys ++ (x ∷ post)))
          (==_false k rx_idx (λ e'. omega (arith, e, e')))
        ∙ ap (λ t. offered xs y ++ t) (seen-middle (suc k) ys x post (omega (arith, e)))
        ∙ sym (append_assoc (offered xs y) (flat (offered xs) ys) (view x ∷ flat (offered xs) post))

    abbrev forward_on :
        ℕ
        → Peer channels.Sender
        → Peers channels × List ℕ
        → Sent × channels.Sender
        → Bool
        → Peers channels × List ℕ
    forward_on k peer rest tried same = if same then (peer ∷ rest.0, rest.1) else (
      record peer { tx = tried.1 } ∷ rest.0,
      elim tried.0 [ sent ↦ rest.1 | full ↦ rest.1 | closed ↦ k ∷ rest.1 ],
    )

    -- What is left once the dead are removed, in front of which other peers may stand.
    abbrev Leaves : ℕ → Peers channels × List ℕ → List (Incoming × List (List ℕ)) → Type 0
    Leaves k (others, dead) views =
        (pre : Peers channels)
        → length pre ≡ k
        → (left : Peers channels) × (remove_dead channels {E = E} dead (pre ++ others)
            ≡ ok (pre ++ left))
          × Perm (map view left) views

    Leaves-kept :
        (k : ℕ) (peer : Peer channels.Sender) (others : Peers channels) (dead : List ℕ)
        (v : Incoming × List (List ℕ)) (views : List (Incoming × List (List ℕ)))
        → view peer ≡ v
        → Leaves (suc k) (others, dead) views
        → Leaves k (peer ∷ others, dead) (v ∷ views)
    Leaves-kept k peer others dead v views e rest pre at =
        let (left, removed, same) =
          rest (pre ++ (peer ∷ [])) (omega (arith, at, length-append pre (peer ∷ []))) in
        (
          peer ∷ left,
          ap (remove_dead channels dead) (sym (append_assoc pre (peer ∷ []) others))
              ∙ removed
              ∙ ap ok (append_assoc pre (peer ∷ []) left),
          Perm.append (perm-eq (ap (λ u. u ∷ []) e)) same,
        )

    Leaves-closed :
        (k : ℕ) (peer : Peer channels.Sender) (others : Peers channels) (dead : List ℕ)
        (views : List (Incoming × List (List ℕ)))
        → Leaves (suc k) (others, dead) views
        → Leaves k (peer ∷ others, k ∷ dead) views
    unfolding remove_dead
    Leaves-closed k peer others dead views rest pre at =
        let (left, removed, same) =
          rest (pre ++ (peer ∷ [])) (omega (arith, at, length-append pre (peer ∷ []))) in
        (
          to_front left,
          after_ok (swap_remove k) (
                ap (remove_dead channels dead) (sym (append_assoc pre (peer ∷ []) others))
                ∙ removed
                ∙ ap ok (append_assoc pre (peer ∷ []) left))
              ∙ ap (λ n. swap_remove n (pre ++ (peer ∷ left))) (sym at)
              ∙ swap_remove-middle pre peer left,
          Perm.trans (Perm.map view (to_front-perm left)) same,
        )

    -- The views and the answer of `try_send` may be given as equations.
    Leaves-as :
        (k : ℕ) (peer : Peer channels.Sender) (rest : Peers channels × List ℕ)
        (tried : Sent × channels.Sender) (b : Bool) (views : List (Incoming × List (List ℕ)))
        → channels.is_closed peer.tx ≡ b
        → channels.try_send peer.tx xs ≡ tried
        → Leaves k
            (forward_on k peer rest tried false)
            ((if b then [] else (peer.rx, enqueued xs peer.tx) ∷ []) ++ views)
        → Leaves k
            (forward_on k peer rest (channels.try_send peer.tx xs) false)
            (offered xs peer ++ views)
    Leaves-as k peer rest tried b views c e leaves =
        subst
          (λ b'.
            Leaves k (forward_on k peer rest (channels.try_send peer.tx xs) false)
              ((if b' then [] else (peer.rx, enqueued xs peer.tx) ∷ []) ++ views))
          (sym c)
          (subst
            (λ t.
              Leaves k (forward_on k peer rest t false)
                ((if b then [] else (peer.rx, enqueued xs peer.tx) ∷ []) ++ views))
            (sym e) leaves)

    Leaves-Try :
        (k : ℕ) (peer : Peer channels.Sender) (rest : Peers channels × List ℕ)
        (views : List (Incoming × List (List ℕ)))
        → Try xs peer.tx
        → Leaves (suc k) rest views
        → Leaves k
            (forward_on k peer rest (channels.try_send peer.tx xs) false)
            (offered xs peer ++ views)
    Leaves-Try k peer rest views (Try.gone c e) leaves =
        Leaves-as k peer rest (closed, peer.tx) true views c e
          (Leaves-closed k peer rest.0 rest.1 views leaves)
    Leaves-Try k peer rest views (Try.no_room c e q) leaves =
        Leaves-as k peer rest (full, peer.tx) false views c e
          (Leaves-kept k peer rest.0 rest.1 _ views (ap (λ t. (peer.rx, t)) q) leaves)
    Leaves-Try k peer rest views (Try.room t c e q) leaves =
        Leaves-as k peer rest (sent, t) false views c e
          (Leaves-kept k (record peer { tx = t }) rest.0 rest.1 _ views (ap (λ u. (peer.rx, u)) q)
            leaves)

    Leaves-same :
        (k : ℕ) (peer : Peer channels.Sender) (rest : Peers channels × List ℕ)
        (views : List (Incoming × List (List ℕ)))
        → (same : Bool) → Leaves (suc k) rest views
        → Leaves k
            (forward_on k peer rest (channels.try_send peer.tx xs) same)
            ((if same then view peer ∷ [] else offered xs peer) ++ views)
    Leaves-same k peer rest views true leaves =
        Leaves-kept k peer rest.0 rest.1 (view peer) views refl leaves
    Leaves-same k peer rest views false leaves =
        Leaves-Try k peer rest views (Try-send-cases xs peer.tx) leaves

    forward-Leaves :
        (k : ℕ) (peers : Peers channels)
        → Leaves k (forward channels rx_idx xs k peers) (seen k peers)
    unfolding forward
    forward-Leaves k [] = λ pre at. ([], (unfold remove_dead in refl), Perm.refl [])
    forward-Leaves k (peer ∷ peers) =
        Leaves-same k peer (forward channels rx_idx xs (suc k) peers) (seen (suc k) peers)
          (k == rx_idx) (forward-Leaves (suc k) peers)

  -- Sending on to the peers, and removing those whose channel is closed, never panics, and leaves
  -- up to order these peers: the one that the packet came from, unchanged, and each other one whose
  -- channel is open, where the bytes are behind those that wait, if there is room for them.
  pub forward-remove_dead :
      {E : Type 0} (xs : List ℕ) (pre : Peers channels) (x : Peer channels.Sender)
      (post : Peers channels)
      → let (others, dead) = forward channels (length pre) xs 0 (pre ++ (x ∷ post)) in
        (left : Peers channels) × (remove_dead channels {E = E} dead others ≡ ok left)
        × Perm (map view left) (flat (offered xs) pre ++ (view x ∷ flat (offered xs) post))
  forward-remove_dead {E} xs pre x post =
      let (left, removed, same) = forward-Leaves E (length pre) xs 0 (pre ++ (x ∷ post)) [] refl in
      (
        left,
        removed,
        Perm.trans same (perm-eq (seen-middle E (length pre) xs 0 pre x post (omega arith))),
      )
