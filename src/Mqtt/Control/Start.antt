-- ===== src/Mqtt/Control/Start.antt =====
-- The start of a unit, `SamsungHvac::new` of mqtt/src/control.rs, with a client that is answered.
use samsung_nasa.Base.{
  All, ◌≡◌, refl, ap, subst, ◌∙◌, arith, List, [], ◌∷◌, ◌++◌, Option, some, Result, ok, err, ◌>>=◌,
  map_err, after_ok,
}
use samsung_nasa.Bytes.{IsU16}
use samsung_nasa.Crates.{Crates}
use samsung_nasa.Packet.Address
use samsung_nasa.Packet.Address.{Address}
use samsung_nasa.Packet.DataType.{DataType}
use samsung_nasa.Packet.MessageKind.{MessageId, kind_of_bits}
use samsung_nasa.Packet.Value.{Message, long_variable_value}
use samsung_nasa.Packet.Types.{Packet, messages, IsValid}
use samsung_nasa.Messages
use samsung_nasa.Messages.{Known}
use samsung_nasa.Messages.Types.{CelsiusLvar, from_lvar}
use samsung_nasa.Client.MessageSet.{MessageSet, Missing, missing_message}
use samsung_nasa.Client.Requests.{Error, Round, replied, next_packet_number}
use samsung_nasa.Client.Requests.Calls
use samsung_nasa.Client.Requests.Read.{
  request_packet, queries-all_asked, read_reply, expect_reply-expected,
}
use samsung_nasa.Client.Requests.Calls.{Call, read-replied}
use samsung_nasa.Mqtt.Control.{Params, params_of}
use samsung_nasa.Mqtt.Control.Limits.{params_of-limits}
use samsung_nasa.Mqtt.Control.Unit
use samsung_nasa.Mqtt.Control.Unit.{
  Shared, SamsungHvac, ParamsError, lacks, limit_attrs, on_limits, on_params, read_params,
}

-- A response with these messages.
abbrev pub response : Packet → List Message → Packet
response reply ms = record reply { data_type = DataType.response; payload = messages ms }

read_reply-response :
    (reply : Packet) (ms : List Message)
    → read_reply (response reply ms) ≡ ok (record { messages = ms })
unfolding read_reply
read_reply-response reply ms =
    after_ok _
      (expect_reply-expected (response reply ms) DataType.response refl (λ h. ground arith))

abbrev of_call :
    Shared → Call MessageSet → Call MessageSet × Option (Result ParamsError SamsungHvac)
of_call shared call = (call, on_params shared (on_limits call.result))

new-of_call :
    (crates : Crates) (shared : Shared) (rounds : List Round)
    → Unit.new crates shared rounds
      ≡ of_call shared (Calls.read crates 0 shared.address limit_attrs rounds)
unfolding Unit.new read_params
new-of_call crates shared rounds = refl

-- The query for a long variable.
abbrev pub ask : MessageId → Message
ask number = record { id = number; value = long_variable_value 0xffffffff }

-- The read of the limits of a unit: low for cooling and heating, then high for both.
abbrev pub limits_read : Address → Packet
limits_read address =
    request_packet address DataType.read 0 (ask 0x0412 ∷ ask 0x0414 ∷ ask 0x0411 ∷ ask 0x0413 ∷ [])

-- Answered with these messages, a new unit has sent the read of its limits, a valid packet, once, and
-- its result is this.
abbrev pub Starts :
    Crates → Shared → Packet → List Message → Result ParamsError SamsungHvac → Type 0
Starts crates shared reply ms result =
    IsValid (limits_read shared.address)
    × (Unit.new crates shared (replied (response reply ms) ∷ []) ≡ (
      record {
        sent = limits_read shared.address ∷ [];
        result = some (ok (record { messages = ms }));
        counter = 1;
      },
      some result,
    ))

abbrev result_of_limits : Shared → Result Missing Params → Result ParamsError SamsungHvac
result_of_limits shared params =
    map_err lacks params >>= λ params. ok (record { params = params; shared = shared })

new-Starts :
    (crates : Crates) (shared : Shared) (reply : Packet) (ms : List Message)
    → Address.IsValid shared.address
    → Starts crates shared reply ms (result_of_limits shared (params_of (record { messages = ms })))
unfolding kind_of_bits
new-Starts crates shared reply ms valid_address = (
  (
    (omega arith, omega arith, omega arith),
    valid_address,
    (omega arith, omega arith, omega arith, omega arith),
    omega arith,
    ((queries-all_asked limit_attrs u16).1, omega arith),
  ),
  (unfold next_packet_number in
      new-of_call crates shared (replied (response reply ms) ∷ [])
      ∙ ap (of_call shared) (
          read-replied crates 0 shared.address limit_attrs (response reply ms) valid_address
            (omega arith) u16 (omega arith)
          ∙ ap
              (λ (r : Result Error MessageSet). record {
                sent = limits_read shared.address ∷ [];
                result = some r;
                counter = 1;
              })
              (read_reply-response reply ms))),
)
  where
    u16 : All IsU16 limit_attrs
    u16 = (omega arith, (omega arith, (omega arith, (omega arith, tt))))

-- A new unit at a valid address, whose read is answered at once with the four limits, each a u16, in
-- the order in which they are asked for: it has sent one packet, the read of these limits from the
-- unit, which is valid, and starts with the two ranges and the state of the callbacks. Where the
-- answer lacks the last limit, it does not start, and the error has the number of that limit.
pub new-limits :
    (crates : Crates) (shared : Shared) (reply : Packet)
    (cool_low heat_low cool_high heat_high : CelsiusLvar)
    → Address.IsValid shared.address
    → IsU16 cool_low.decis
    → IsU16 heat_low.decis
    → IsU16 cool_high.decis
    → IsU16 heat_high.decis
    → let three =
        Messages.new Known.cool_low_temp_limit cool_low
        ∷ Messages.new Known.heat_low_temp_limit heat_low
        ∷ Messages.new Known.cool_high_temp_limit cool_high
        ∷ [] in
      Starts crates shared reply
        (three ++ (Messages.new Known.heat_high_temp_limit heat_high ∷ []))
        (ok (record {
          params = record {
            cooling_range = record { low = from_lvar cool_low; high = from_lvar cool_high };
            heating_range = record { low = from_lvar heat_low; high = from_lvar heat_high };
          };
          shared = shared;
        }))
      × Starts crates shared reply three (err (lacks (missing_message 0x0413)))
new-limits crates shared reply cl hl ch hh valid a b c d =
    let three : List Message =
      Messages.new Known.cool_low_temp_limit cl
      ∷ Messages.new Known.heat_low_temp_limit hl
      ∷ Messages.new Known.cool_high_temp_limit ch
      ∷ [] in
    let all : List Message = three ++ (Messages.new Known.heat_high_temp_limit hh ∷ []) in
    let (found, missing) = params_of-limits cl hl ch hh a b c d in
    (
      subst (λ r. Starts crates shared reply all (result_of_limits shared r)) found
          (new-Starts crates shared reply all valid),
      subst (λ r. Starts crates shared reply three (result_of_limits shared r)) missing
          (new-Starts crates shared reply three valid),
    )
