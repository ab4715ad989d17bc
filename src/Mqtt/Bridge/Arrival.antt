-- ===== src/Mqtt/Bridge/Arrival.antt =====
-- A command of mqtt/src/mqtt.rs, from the topic to the packet on the bus.
use Prim.Native.String.{String}
use samsung_nasa.Base.{
  ℕ, ◌≤◌, ◌≡◌, refl, ap, ◌∙◌, arith, Bool, true, false, if◌then◌else◌, List, [], ◌∷◌, All, length,
  Option, none, some, Result, ok, err, panic, after_ok,
}
use text.Mathlib.Text.{◌==◌}
use samsung_nasa.Bytes.{IsByte, IsU16}
use samsung_nasa.Crates.{Crates}
use samsung_nasa.Packet.Address
use samsung_nasa.Packet.DataType.{DataType}
use samsung_nasa.Packet.Value.{Message}
use samsung_nasa.Packet.Types.{Packet, IsMessage, IsValid}
use samsung_nasa.Packet.Encoding.{encode}
use samsung_nasa.Packet.Parse.{parse}
use samsung_nasa.Packet.RoundTrip.{as_received, parse-encode_alone}
use samsung_nasa.Messages.{Known, new}
use samsung_nasa.Messages.RoundTrip.{new-IsMessage}
use samsung_nasa.Messages.Types.{PowerSetting, OperationMode, Celsius}
use samsung_nasa.Client.Requests.{Error, Round, replied, next_packet_number}
use samsung_nasa.Client.Requests.Read.{request_reply, request_packet, build_lem}
use samsung_nasa.Client.Requests.Calls.{Call, request-replied}
use samsung_nasa.Mqtt.Control
use samsung_nasa.Mqtt.Control.{State, Params, TempRange, range, clamp}
use samsung_nasa.Mqtt.Control.Range.{IsOrdered, clamp-range}
use samsung_nasa.Mqtt.Control.Unit
use samsung_nasa.Mqtt.Control.Unit.{Shared}
use samsung_nasa.Mqtt.Modes.{to_setting, mode_command, fan_mode_command, FanMode}
use samsung_nasa.Mqtt.Topics
use samsung_nasa.Mqtt.Topics.{DiscoveryConfig, Topics}
use samsung_nasa.Mqtt.Bridge.{power_command, temperature_command, announces, on_message}
use samsung_nasa.Mqtt.Bridge.Commands.{Command, topic_of, messages_of, collect-commands}

-- What each command sends is well-formed and short.
abbrev IsRequest : List Message → Type 0
IsRequest ms = All IsMessage ms × (length ms ≤ 255)

power_command-IsRequest : (message : String) → IsRequest (power_command message)
unfolding power_command
power_command-IsRequest message = by_test (message == "OFF") (message == "ON")
  where
    by_test :
        (off on : Bool)
        → IsRequest (
            if off
            then new Known.power PowerSetting.off ∷ []
            else if on
            then new Known.power PowerSetting.on ∷ []
            else [])
    by_test true on = ((new-IsMessage Known.power PowerSetting.off tt, tt), omega arith)
    by_test false true = ((new-IsMessage Known.power PowerSetting.on tt, tt), omega arith)
    by_test false false = (tt, omega arith)

mode_command-IsRequest : (message : String) → IsRequest (mode_command message)
unfolding mode_command
mode_command-IsRequest message = by_mode _
  where
    by_mode :
        (wanted : Option OperationMode)
        → IsRequest (elim wanted [
          | some mode ↦ new Known.power PowerSetting.on ∷ new Known.mode mode ∷ []
          | none ↦ new Known.power PowerSetting.off ∷ []
        ])
    by_mode none = ((new-IsMessage Known.power PowerSetting.off tt, tt), omega arith)
    by_mode (some m) = (
      (new-IsMessage Known.power PowerSetting.on tt, (new-IsMessage Known.mode m tt, tt)),
      omega arith,
    )

fan_mode_command-IsRequest : (message : String) → IsRequest (fan_mode_command message)
unfolding fan_mode_command
fan_mode_command-IsRequest message = by_mode _
  where
    by_mode :
        (wanted : Option FanMode)
        → IsRequest
            (elim wanted [ none ↦ [] | some mode ↦ new Known.fan_mode (to_setting mode) ∷ [] ])
    by_mode none = (tt, omega arith)
    by_mode (some m) = ((new-IsMessage Known.fan_mode (to_setting m) tt, tt), omega arith)

-- The ranges of `read_params`, as they should be.
abbrev pub AreRanges : Params → Type 0
AreRanges params =
    IsOrdered params.cooling_range
    × IsOrdered params.heating_range
    × IsU16 params.cooling_range.high.decis
    × IsU16 params.heating_range.high.decis

range-IsU16 :
    (params : Params) (state : State) → AreRanges params → IsU16 (range params state).high.decis
unfolding range Control.nonspecific Control.max
range-IsU16 params state (_, _, hc, hh) = ground arith

temperature_command-IsRequest :
    {E : Type 0} (params : Params) (state : State) (wanted : Option Celsius)
    → AreRanges params
    → (ms : List Message) × (temperature_command {E = E} (range params state) wanted ≡ ok ms)
      × IsRequest ms
unfolding temperature_command
temperature_command-IsRequest params state none h = ([], refl, (tt, omega arith))
temperature_command-IsRequest params state (some wanted) (hc, hh, uc, uh) =
    let (t, clamped, (_, below), _) = clamp-range params state wanted hc hh in
    let high : IsU16 (range params state).high.decis = range-IsU16 params state (hc, hh, uc, uh) in
    (
      new Known.set_temp t ∷ [],
      after_ok (λ temp. ok (new Known.set_temp temp ∷ [])) clamped,
      ((new-IsMessage Known.set_temp t (omega (arith, below, high)), tt), omega arith),
    )

module _ (parse_temp : String → Option Celsius) where
  messages_of-IsRequest :
      {E : Type 0} (c : Command) (params : Params) (state : State) (message : String)
      → AreRanges params
      → (ms : List Message) × (messages_of parse_temp {E = E} c params state message ≡ ok ms)
        × IsRequest ms
  messages_of-IsRequest Command.power params state message h =
      (power_command message, refl, power_command-IsRequest message)
  messages_of-IsRequest Command.mode params state message h =
      (mode_command message, refl, mode_command-IsRequest message)
  messages_of-IsRequest Command.temperature params state message h =
      temperature_command-IsRequest params state (parse_temp message) h
  messages_of-IsRequest Command.fan_mode params state message h =
      (fan_mode_command message, refl, fan_mode_command-IsRequest message)

  abbrev on_collected :
      Crates
      → Topics
      → Shared
      → ℕ
      → String
      → List Round
      → Result Error (List Message)
      → Call (Unit {0}) × Bool × Bool
  on_collected crates topics shared counter topic rounds collected = elim collected [
    | ok ms ↦
        let (call, reads) = Unit.request crates counter shared ms rounds in
        (call, announces topics topic, reads)
    | err e ↦ (
      record { sent = []; result = some (err e); counter = counter },
      announces topics topic,
      false,
    )
    | panic ↦ (
      record { sent = []; result = some panic; counter = counter },
      announces topics topic,
      false,
    )
  ]

  -- A message on the topic of a command, to a valid unit whose ranges are in order, with a request
  -- that is answered at once: the messages of the command go out in one packet, a request to the
  -- unit, which parses it as it was sent, and the result is what `request_reply` makes of the answer. Nothing is
  -- announced. For no text of the message does the bridge panic.
  pub on_message_arrives :
      (crates : Crates) (config : DiscoveryConfig) (params : Params) (shared : Shared) (counter : ℕ)
      (c : Command) (message : String) (reply : Packet)
      → Address.IsValid shared.address
      → IsByte counter
      → AreRanges params
      → let topics = Topics.new config in
        let after =
          on_message parse_temp crates topics params shared counter
            (topic_of c topics.climate)
            message
            (replied reply ∷ []) in
        (ms : List Message) × (p : Packet) × (messages_of parse_temp {E = Error} c params
            shared.state.inner message
          ≡ ok ms)
        × (p ≡ request_packet shared.address DataType.request counter ms)
        × (parse crates (encode p) ≡ ok (as_received p))
        × (after.0 ≡ record {
          sent = p ∷ [];
          result = some (request_reply reply);
          counter = (next_packet_number counter).1;
        })
        × (after.1 ≡ false)
  unfolding on_message Unit.request
  on_message_arrives crates config params shared counter c message reply ha hc hr =
      let topics : Topics = Topics.new config in
      let topic : String = topic_of c topics.climate in
      let (ms, said, (good, few)) =
        messages_of-IsRequest {E = Error} c params shared.state.inner message hr in
      let p : Packet = request_packet shared.address DataType.request counter ms in
      let valid : IsValid p =
        (build_lem crates shared.address DataType.request counter ms ha hc good few).1 in
      let sends : _ ≡ _ = request-replied crates counter shared.address ms reply ha hc good few in
      let (runs, silent) =
        (collect-commands parse_temp {E = Error} config params shared.state.inner message).0 c in
      let opened : _ ≡ _ =
        ap (on_collected crates topics shared counter topic (replied reply ∷ [])) (runs ∙ said) in
      (
        ms,
        p,
        said,
        refl,
        parse-encode_alone crates p valid,
        ap (λ r. r.0) opened ∙ sends,
        ap (λ r. r.1) opened ∙ silent,
      )
