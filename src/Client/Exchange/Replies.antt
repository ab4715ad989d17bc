-- ===== src/Client/Exchange/Replies.antt =====
-- However the requests and the reader of client/src/lib.rs take turns, a request ends with a reply
-- of its own.
use samsung_nasa.Base.{
  ◌≡◌, refl, ap, ◌∙◌, subst, arith, ◌==◌, Bool, true, false, if◌then◌else◌, none, some, ok, err,
  ok-injective,
}
use samsung_nasa.Crates.{Crates}
use samsung_nasa.Packet.Address.{Address}
use samsung_nasa.Packet.Types.{Packet}
use samsung_nasa.Client.Requests.{again, send_failed, lost_transport, max_retries_exceeded}
use samsung_nasa.Client.Reader.{Request, Shared, Action, wait_for}
use samsung_nasa.Client.Exchange.{
  writing, awaiting, finished, Flight, set, World, start, receive, on_timeout, Step, Reach,
}
use samsung_nasa.Client.Exchange.Good.{Answers, Good, Good-set, Good-start}
use samsung_nasa.Client.Exchange.Turns.{finished-injective, Turn, on_packet-Turn, Good-receive}

module _ (crates : Crates) where
  Good-on_timeout :
      (w : World) (r : Request) (f : Flight)
      → w.flights r ≡ some f
      → f.reply ≡ none
      → f.status ≡ awaiting
      → Good w
      → Good (record w { flights = set r (on_timeout crates f) w.flights })
  unfolding on_timeout again
  Good-on_timeout w r f at empty state h = by_test (f.packet.packet_info.retry_count == 3)
    where
      by_test :
          (b : Bool)
          → Good (record w {
            flights =
                set r
                  (if b
                    then record f { status = finished (err max_retries_exceeded) }
                    else record f { packet = again crates f.packet; status = writing })
                  w.flights;
          })
      by_test true =
          Good-set w r f (record f { status = finished (err max_retries_exceeded) }) at refl refl
            (λ q e. absurd (ground (arith, e))) h
      by_test false =
          Good-set w r f (record f { packet = again crates f.packet; status = writing }) at refl
            refl (λ q e. absurd (ground (arith, e))) h

  Good-Step : {w v : World} → Step crates w v → Good w → Good v
  Good-Step {w} (Step.starts p) h = Good-start p w h
  Good-Step {w} (Step.receives p) h = Good-receive p w h
  Good-Step {w} (Step.writes r f at s) h =
      Good-set w r f (record f { status = awaiting }) at refl refl
        (λ q e. absurd (ground (arith, e))) h
  Good-Step {w} (Step.fails r f at s) h =
      Good-set w r f (record f { status = finished (err send_failed) }) at refl refl
        (λ q e. absurd (ground (arith, e))) h
  Good-Step {w} (Step.replies r f reply at s e) h =
      Good-set w r f (record f { status = finished (ok reply) }) at refl refl
        (λ q e'. e ∙ ap some (ok-injective (finished-injective e'))) h
  Good-Step {w} (Step.loses r f at s e lost) h =
      Good-set w r f (record f { status = finished (err lost_transport) }) at refl refl
        (λ q e'. absurd (ground (arith, e'))) h
  Good-Step {w} (Step.times_out r f at s e) h = Good-on_timeout w r f at e s h

  Good-Reach : {w v : World} → Reach crates w v → Good w → Good v
  Good-Reach Reach.here h = h
  Good-Reach (Reach.then_step before step) h = Good-Step step (Good-Reach before h)

-- A client that has just been connected.
abbrev pub connected : Address → World
connected address = record {
  shared = record { address = address; waiting = λ n. none };
  flights = λ r. none;
  started = 0;
}

module _ (crates : Crates) where
  Turn-address :
      {p : Packet} {s : Shared} {x : Shared × Action} → Turn p s x → x.0.address ≡ s.address
  Turn-address (Turn.quiet a same) = refl
  Turn-address Turn.unclaimed = refl
  Turn-address (Turn.claimed r at own) = refl

  Step-address : {w v : World} → Step crates w v → v.shared.address ≡ w.shared.address
  unfolding start receive wait_for
  Step-address {w} (Step.starts p) = refl
  Step-address {w} (Step.receives p) = Turn-address (on_packet-Turn p w.shared)
  Step-address {w} (Step.writes r f at s) = refl
  Step-address {w} (Step.fails r f at s) = refl
  Step-address {w} (Step.replies r f reply at s e) = refl
  Step-address {w} (Step.loses r f at s e lost) = refl
  Step-address {w} (Step.times_out r f at s e) = refl

  Reach-address : {w v : World} → Reach crates w v → v.shared.address ≡ w.shared.address
  Reach-address Reach.here = refl
  Reach-address (Reach.then_step before step) = Step-address step ∙ Reach-address before

  connected-Good : (address : Address) → Good (connected address)
  connected-Good address = (
    λ r f e. absurd (ground (arith, e)),
    λ n r e. absurd (ground (arith, e)),
    λ r f e. absurd (ground (arith, e)),
  )

  -- In whatever order requests start, write, fail, time out and take replies, and whatever packets
  -- come in between, from a client that has just been connected: a request that ends with a reply
  -- ends with one that has the number of its packet and is addressed to this client.
  pub finished-Answers :
      (address : Address) (w : World) (r : Request) (f : Flight) (reply : Packet)
      → Reach crates (connected address) w
      → w.flights r ≡ some f
      → f.status ≡ finished (ok reply)
      → Answers address f.packet reply
  finished-Answers address w r f reply reach at e =
      let (flights, _, _) = Good-Reach crates reach (connected-Good address) in
      let (own, done) = flights r f at in
      subst (λ a. Answers a f.packet reply) (Reach-address reach) (own reply (done reply e))
