-- ===== src/Client/Requests/Numbers.antt =====
-- The packet numbers of a client, which tell the replies apart.
use samsung_nasa.Base.{ℕ, zero, suc, ◌+◌, ◌%◌, ◌<◌, ◌≡◌, ◌≢◌, arith}
use samsung_nasa.Client.Requests.{next_packet_number}

-- The counter after `n` requests.
abbrev pub counter_after : ℕ → ℕ → ℕ
counter_after counter zero = counter
counter_after counter (suc n) = counter_after (next_packet_number counter).1 n

counter_after_lem : (counter n : ℕ) → counter < 256 → counter_after counter n ≡ (counter + n) % 256
unfolding next_packet_number
counter_after_lem counter zero h = omega arith
counter_after_lem counter (suc n) h =
    let later = counter_after_lem ((counter + 1) % 256) n (omega arith) in omega (arith, later)

-- Of any 256 requests in a row no two have the same packet number.
pub next_packet_number_distinct :
    (counter i k : ℕ)
    → counter < 256
    → 0 < k
    → k < 256
    → (next_packet_number (counter_after counter i)).0
      ≢ (next_packet_number (counter_after counter (i + k))).0
unfolding next_packet_number
next_packet_number_distinct counter i k h pos small e =
    omega (arith, e, counter_after_lem counter i h, counter_after_lem counter (i + k) h)
