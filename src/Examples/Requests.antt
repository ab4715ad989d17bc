-- ===== src/Examples/Requests.antt =====
-- The requests of a client on concrete packets.
use samsung_nasa.Base.{
  ℕ, ◌+◌, ◌≤◌, ◌≡◌, ◌≢◌, refl, arith, List, [], ◌∷◌, none, some, length, inl, ok, err, All,
}
use samsung_nasa.Crates.{plain}
use samsung_nasa.Packet.DataType
use samsung_nasa.Packet.Types.{Packet, messages, IsMessage}
use samsung_nasa.Client.Requests.{
  max_retries_exceeded, write_failed, replied, timed_out, finished, send_with_retry, queries,
}
use samsung_nasa.Client.Requests.Retry.{
  tries, send_with_retry-replied, send_with_retry_exhausted, length-send_with_retry,
}
use samsung_nasa.Client.Requests.{next_packet_number}
use samsung_nasa.Client.Requests.Numbers.{counter_after, next_packet_number_distinct}
use samsung_nasa.Client.Requests.Read.{all_asked, queries-all_asked}
use samsung_nasa.Client.Reader.{Shared, skip, deliver, wait_for, on_packet}
use samsung_nasa.Client.Reader.Delivery.{on_packet-wait_for}
use samsung_nasa.Examples.{controller, indoor_unit, request}

-- The unit's answer.
abbrev answer : Packet
answer = record request {
  source = indoor_unit;
  destination = controller;
  data_type = DataType.ack;
  payload = messages [];
}

abbrev idle : Shared
idle = record { address = controller; waiting = λ _. none }

send_with_retry-replied_example :
    send_with_retry plain request (timed_out ∷ timed_out ∷ replied answer ∷ [])
    ≡ (tries request 0 3, finished (ok answer))
send_with_retry-replied_example = send_with_retry-replied plain request answer 2 [] (omega arith)

send_with_retry_exhausted_example :
    send_with_retry plain request
      (timed_out ∷ timed_out ∷ timed_out ∷ timed_out ∷ replied answer ∷ [])
    ≡ (tries request 0 4, finished (err max_retries_exceeded))
send_with_retry_exhausted_example = send_with_retry_exhausted plain request (replied answer ∷ [])

length-send_with_retry_example :
    length (send_with_retry plain request (timed_out ∷ write_failed ∷ [])).0 + 0 ≤ 4
length-send_with_retry_example =
    length-send_with_retry plain request (timed_out ∷ write_failed ∷ []) (omega arith)

abbrev attributes : List ℕ
attributes = 0x4000 ∷ 0x4201 ∷ 0x0411 ∷ []

queries-all_asked_example :
    (queries attributes ≡ some (all_asked attributes))
    × All IsMessage (all_asked attributes)
    × (length (all_asked attributes) ≤ 3)
queries-all_asked_example =
    queries-all_asked attributes (omega arith, (omega arith, (omega arith, tt)))

on_packet-wait_for_example :
    let step = on_packet answer (wait_for request 5 idle) in
    (step.1 ≡ deliver 5 answer)
    × ((on_packet answer step.0).1 ≡ skip)
    × ((n : ℕ) → n ≢ 7 → step.0.waiting n ≡ none)
on_packet-wait_for_example =
    on_packet-wait_for request answer 5 idle (refl, ([], refl), inl refl) refl refl

next_packet_number_distinct_example :
    (next_packet_number (counter_after 250 0)).0 ≢ (next_packet_number (counter_after 250 20)).0
next_packet_number_distinct_example =
    next_packet_number_distinct 250 0 20 (omega arith) (omega arith) (omega arith)
