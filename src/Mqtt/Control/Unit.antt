-- ===== src/Mqtt/Control/Unit.antt =====
-- `SamsungHvac` of mqtt/src/control.rs: the shared state, its callbacks, and the calls of the client.
use samsung_nasa.Base.{
  ℕ, Bool, true, false, if◌then◌else◌, List, [], ◌∷◌, Option, none, some, Result, ok, err, panic,
  ◌>>=◌, map_err,
}
use samsung_nasa.Crates.{Crates}
use samsung_nasa.Packet.Address
use samsung_nasa.Packet.Address.{Address}
use samsung_nasa.Packet.MessageKind.{MessageId}
use samsung_nasa.Packet.Value.{Message}
use samsung_nasa.Packet.Types.{Packet}
use samsung_nasa.Messages.{Known, id}
use samsung_nasa.Client.MessageSet.{MessageSet, Missing}
use samsung_nasa.Client.Requests.{Error, Round}
use samsung_nasa.Client.Requests.Calls
use samsung_nasa.Client.Requests.Calls.{Call}
use samsung_nasa.Client.Reader
use samsung_nasa.Client.Reader.{Action, skip, notify, deliver, on_packet}
use samsung_nasa.Mqtt.Cell
use samsung_nasa.Mqtt.Cell.{NotifyCell, borrow_mut}
use samsung_nasa.Mqtt.Control.{State, update_state, Params, params_of}

-- `State::default`
abbrev pub unknown : State
unknown = record { power = none; mode = none; fan = none; set_temp = none; current_temp = none }

-- `Shared`
pub record Shared : Type 0 where
  pub address : Address
  pub state : NotifyCell State

-- What `SamsungHvac::new` shares with its callbacks.
abbrev pub new_shared : Address → Shared
new_shared address = record { address = address; state = Cell.new unknown }

-- `update_state` on the borrowed state.
abbrev pub update : MessageSet → Shared → Shared
update set shared = record shared {
  state = borrow_mut (λ state. update_state state set) shared.state;
}

-- `Callbacks::on_notification`
unfoldable pub on_notification : Address → MessageSet → Shared → Shared
on_notification sender set shared =
    if Address.eq sender shared.address then update set shared else shared

-- The attributes that `read_state` reads.
abbrev pub read_state_attrs : List MessageId
read_state_attrs =
    id Known.power
    ∷ id Known.mode
    ∷ id Known.fan_mode
    ∷ id Known.set_temp
    ∷ id Known.current_temp
    ∷ []

-- `read_state` once its read has a result; an error is logged.
unfoldable pub on_read : Option (Result Error MessageSet) → Shared → Shared
on_read (some (ok set)) shared = update set shared
on_read (some (err e)) shared = shared
on_read (some panic) shared = shared
on_read none shared = shared

module _ (crates : Crates) where
  unfoldable pub read_state : ℕ → Shared → List Round → Call MessageSet × Shared
  read_state counter shared rounds =
      let call = Calls.read crates counter shared.address read_state_attrs rounds in
      (call, on_read call.result shared)

  -- `SamsungHvac::request`, and whether it spawns `read_state`.
  unfoldable pub request : ℕ → Shared → List Message → List Round → Call (Unit {0}) × Bool
  request counter shared ms rounds =
      let call = Calls.request crates counter shared.address ms rounds in
      (call, elim call.result [ some r ↦ elim r [ ok _ ↦ true | _ ↦ false ] | none ↦ false ])

-- The callbacks on what the reader does with a packet.
unfoldable pub on_action : Action → Shared → Shared
on_action (notify sender ms) shared = on_notification sender (record { messages = ms }) shared
on_action (deliver request packet) shared = shared
on_action skip shared = shared

-- The reader and the callbacks over the packets that come in.
unfoldable pub observe : List Packet → Reader.Shared → Shared → Shared
observe [] reader shared = shared
observe (packet ∷ packets) reader shared =
    let (after, action) = on_packet packet reader in observe packets after (on_action action shared)

-- The limits that `read_params` reads.
abbrev pub limit_attrs : List MessageId
limit_attrs =
    id Known.cool_low_temp_limit
    ∷ id Known.heat_low_temp_limit
    ∷ id Known.cool_high_temp_limit
    ∷ id Known.heat_high_temp_limit
    ∷ []

-- An error of `read_params`: one of the client, or a limit that the reply lacks.
pub data ParamsError : Type 0 where
  client : Error → ParamsError
  lacks : Missing → ParamsError

abbrev pub params_result : Result Error MessageSet → Result ParamsError Params
params_result read = map_err client read >>= λ reply. map_err lacks (params_of reply)

abbrev pub on_limits : Option (Result Error MessageSet) → Option (Result ParamsError Params)
on_limits none = none
on_limits (some read) = some (params_result read)

-- `read_params`: the call, and what becomes of it.
unfoldable pub read_params :
    Crates → ℕ → Address → List Round → Call MessageSet × Option (Result ParamsError Params)
read_params crates counter address rounds =
    let call = Calls.read crates counter address limit_attrs rounds in (call, on_limits call.result)

-- `SamsungHvac`; its client is the counter of a call.
pub record SamsungHvac : Type 0 where
  pub params : Params
  pub shared : Shared

abbrev pub on_params :
    Shared → Option (Result ParamsError Params) → Option (Result ParamsError SamsungHvac)
on_params shared none = none
on_params shared (some read) =
    some (read >>= λ params. ok (record { params = params; shared = shared }))

-- `SamsungHvac::new` once it is connected, where `shared` is the state that the callbacks leave while
-- it waits. Where its result is a unit, `read_state` is spawned.
unfoldable pub new :
    Crates → Shared → List Round → Call MessageSet × Option (Result ParamsError SamsungHvac)
new crates shared rounds =
    let (call, params) = read_params crates 0 shared.address rounds in
    (call, on_params shared params)
