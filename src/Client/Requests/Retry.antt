-- ===== src/Client/Requests/Retry.antt =====
-- The retries of a request: at most four sends, which count up.
use samsung_nasa.Base.{
  ℕ, zero, suc, ◌+◌, ◌≤◌, ◌≡◌, refl, ap, ◌∙◌, arith, List, [], ◌∷◌, ◌++◌, length, replicate, ok,
  err, ==_false, ==_iff,
}
use samsung_nasa.Crates.{Crates}
use samsung_nasa.Packet.Types.{Packet}
use samsung_nasa.Client.Requests.{
  max_retries_exceeded, Round, write_failed, replied, dropped, timed_out, Outcome, finished,
  and_sent, again, send_with_retry,
}
use native.Mathlib.Decide.{dec_le}

abbrev pub with_retry : Packet → ℕ → Packet
with_retry p r = record p { packet_info = record p.packet_info { retry_count = r } }

-- `n` tries, from the retry count `r` on.
abbrev pub tries : Packet → ℕ → ℕ → List Packet
tries p r zero = []
tries p r (suc n) = with_retry p r ∷ tries p (r + 1) n

abbrev after_tries : List Packet → List Packet × Outcome → List Packet × Outcome
after_tries [] result = result
after_tries (p ∷ ps) result = and_sent p (after_tries ps result)

after_tries_last :
    (p : Packet) (k r : ℕ) (outcome : Outcome)
    → after_tries (tries p r k) (with_retry p (r + k) ∷ [], outcome) ≡ (tries p r (suc k), outcome)
after_tries_last p zero r outcome = ap (λ (n : ℕ). (with_retry p n ∷ [], outcome)) (omega arith)
after_tries_last p (suc k) r outcome =
    ap
      (λ (n : ℕ).
        and_sent (with_retry p r) (after_tries (tries p (r + 1) k) (with_retry p n ∷ [], outcome)))
      (omega arith)
    ∙ ap (and_sent (with_retry p r)) (after_tries_last p k (r + 1) outcome)

module _ (crates : Crates) where
  again-with_retry :
      (p : Packet) (r : ℕ) → r ≤ 2 → again crates (with_retry p r) ≡ with_retry p (r + 1)
  unfolding again
  again-with_retry p r h = ap (with_retry p) counted
    where
      one : crates.uint 2 1 ≡ 1
      one = crates.uint_lem 2 1 (omega arith)

      counted : crates.wrapping_add 2 r (crates.uint 2 1) ≡ r + 1
      counted =
          crates.wrapping_add_lem 2 r (crates.uint 2 1) (omega arith) (omega (arith, one))
          ∙ omega (arith, one)

  -- A timeout before the last try.
  send_with_retry-timed_out :
      (p : Packet) (r : ℕ) (rounds : List Round)
      → r ≤ 2
      → send_with_retry crates (with_retry p r) (timed_out ∷ rounds)
        ≡ and_sent (with_retry p r) (send_with_retry crates (with_retry p (r + 1)) rounds)
  unfolding send_with_retry
  send_with_retry-timed_out p r rounds h =
      rw (==_false r 3 (omega arith), again-with_retry p r h) refl

  send_with_retry-replicate :
      (p : Packet) (k r : ℕ) (rounds : List Round)
      → r + k ≤ 3
      → send_with_retry crates (with_retry p r) (replicate k timed_out ++ rounds)
        ≡ after_tries (tries p r k) (send_with_retry crates (with_retry p (r + k)) rounds)
  send_with_retry-replicate p zero r rounds h =
      ap (λ (n : ℕ). send_with_retry crates (with_retry p n) rounds) (omega arith)
  send_with_retry-replicate p (suc k) r rounds h =
      send_with_retry-timed_out p r (replicate k timed_out ++ rounds) (omega arith)
      ∙ ap (and_sent (with_retry p r)) (
          send_with_retry-replicate p k (r + 1) rounds (omega arith)
          ∙ ap
              (λ (n : ℕ).
                after_tries (tries p (r + 1) k) (send_with_retry crates (with_retry p n) rounds))
              (omega arith))

  -- A packet with the retry count 0 is sent, the first `k` waits time out, `k` at most 3, and
  -- the next brings the reply: then the packet has been sent `k + 1` times, with the retry
  -- counts 0 to `k`, and the reply is returned.
  pub send_with_retry-replied :
      (p reply : Packet) (k : ℕ) (rounds : List Round)
      → k ≤ 3
      → send_with_retry crates (with_retry p 0) (replicate k timed_out ++ (replied reply ∷ rounds))
        ≡ (tries p 0 (suc k), finished (ok reply))
  unfolding send_with_retry
  send_with_retry-replied p reply k rounds h =
      send_with_retry-replicate p k 0 (replied reply ∷ rounds) (omega arith)
      ∙ after_tries_last p k 0 (finished (ok reply))

  -- Where the first four waits of a packet with the retry count 0 time out, it has been sent
  -- four times, with the retry counts 0 to 3, and the request fails with MaxRetriesExceeded.
  pub send_with_retry_exhausted :
      (p : Packet) (rounds : List Round)
      → send_with_retry crates (with_retry p 0) (replicate 4 timed_out ++ rounds)
        ≡ (tries p 0 4, finished (err max_retries_exceeded))
  unfolding send_with_retry
  send_with_retry_exhausted p rounds =
      send_with_retry-replicate p 3 0 (timed_out ∷ rounds) (omega arith)

  -- However the rounds go, a packet with a retry count `r` of at most 3 is sent at most `4 - r`
  -- times.
  pub length-send_with_retry :
      (p : Packet) (rounds : List Round)
      → p.packet_info.retry_count ≤ 3
      → length (send_with_retry crates p rounds).0 + p.packet_info.retry_count ≤ 4
  unfolding send_with_retry
  length-send_with_retry p [] h = omega arith
  length-send_with_retry p (write_failed ∷ _) h = omega arith
  length-send_with_retry p (replied reply ∷ _) h = omega arith
  length-send_with_retry p (dropped ∷ _) h = omega arith
  length-send_with_retry p (timed_out ∷ rounds) h = elim (dec_le p.packet_info.retry_count 2) [
    | yes k ↦
        let more =
          length-send_with_retry (with_retry p (p.packet_info.retry_count + 1)) rounds
            (omega arith) in
        let e : length (send_with_retry crates p (timed_out ∷ rounds)).0
            ≡ suc (
                length
                  (send_with_retry crates (with_retry p (p.packet_info.retry_count + 1))
                    rounds).0) =
          ap (λ (x : List Packet × Outcome). length x.0)
            (send_with_retry-timed_out p p.packet_info.retry_count rounds k) in
        omega (arith, more, e)
    | no k ↦
        let last : p.packet_info.retry_count ≡ 3 = omega arith in
        rw ((==_iff p.packet_info.retry_count 3).1 last) (omega arith)
  ]
