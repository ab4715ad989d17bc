-- ===== src/Mqtt/Bridge/Tasks.antt =====
-- The tasks of mqtt/src/mqtt.rs: what they publish as the state of the unit changes.
pub mod Published
pub mod Announced
use Prim.Native.String.{String}
use samsung_nasa.Base.{
  ℕ, ◌+◌, Bool, true, false, not, if◌then◌else◌, List, [], ◌∷◌, ◌++◌, Option, none, some,
}
use samsung_nasa.Messages.Types.{Celsius}
use samsung_nasa.Mqtt.Control.{State, Params, range}
use samsung_nasa.Mqtt.Modes.{
  HvacMode, HvacMode-discrete, hvac_mode, display, from_setting, fan_display,
}
use samsung_nasa.Mqtt.Topics.{DiscoveryConfig, Topics, ClimateComponentTopics}

-- A call of `publish`: the topic and the payload.
abbrev pub Publication : Type 0
Publication = String × String

-- `if let Some(payload) = … { publish(topic, payload) }`.
abbrev pub publish_some : String → Option String → List Publication
publish_some topic none = []
publish_some topic (some payload) = (topic, payload) ∷ []

abbrev pub text_of : {A : Type 0} → (A → String) → Option A → Option String
text_of f none = none
text_of f (some a) = some (f a)

-- One round of the loop of `update_state_task`: what it publishes, whether it asks for an
-- announcement, and the mode that it keeps.
pub record Round : Type 0 where
  pub published : List Publication
  pub announced : Bool
  pub previous_mode : Option HvacMode

abbrev pub changed : Option HvacMode → HvacMode → Bool
changed none mode = true
changed (some before) mode = elim (HvacMode-discrete before mode) [ yes _ ↦ false | no _ ↦ true ]

-- Floats are not modelled: the text of a temperature is a parameter.
module _ (show_temp : Celsius → String) where
  -- A set temperature that is not known is published as "None".
  abbrev pub set_temp_text : Option Celsius → String
  set_temp_text none = "None"
  set_temp_text (some temp) = show_temp temp

  unfoldable pub update_round : ClimateComponentTopics → State → Option HvacMode → Round
  update_round topics state previous = record {
    published =
        publish_some topics.mode_state (text_of display (hvac_mode state))
        ++ (publish_some topics.fan_mode_state
              (text_of (λ f. fan_display (from_setting f)) state.fan)
            ++ (publish_some topics.temperature_state (some (set_temp_text state.set_temp))
                ++ publish_some topics.current_temperature (text_of show_temp state.current_temp)));
    announced = elim (hvac_mode state) [ none ↦ false | some mode ↦ changed previous mode ];
    previous_mode = elim (hvac_mode state) [ none ↦ previous | some mode ↦ some mode ];
  }

  -- `update_state_task`, over the states that it clones, one for each notification it sees.
  unfoldable pub update_state_task :
      ClimateComponentTopics → List State → Option HvacMode → List Round
  update_state_task topics [] previous = []
  update_state_task topics (state ∷ states) previous =
      let round = update_round topics state previous in
      round ∷ update_state_task topics states round.previous_mode

-- What `availability_task` waits for: a round of `update_state_task`, the timeout, or its end.
pub data Liveness : Type 0 where
  alive : Liveness
  timed_out : Liveness
  gone : Liveness

-- `availability_task`
unfoldable pub availability_task : ClimateComponentTopics → List Liveness → List Publication
availability_task topics [] = []
availability_task topics (alive ∷ rest) =
    (topics.availability, "online") ∷ availability_task topics rest
availability_task topics (timed_out ∷ rest) =
    (topics.availability, "offline") ∷ availability_task topics rest
availability_task topics (gone ∷ rest) = []

-- The discovery documents, with temperatures in place of their floats.
pub record ClimateComponent : Type 0 where
  pub platform : String
  pub name : String
  pub object_id : String
  pub unique_id : String
  pub max_temp : Celsius
  pub min_temp : Celsius
  pub precision : Celsius
  pub temp_step : Celsius
  pub temperature_unit : String
  pub topics : ClimateComponentTopics

pub record DeviceMapping : Type 0 where
  pub name : String
  pub ids : String

pub record OriginMapping : Type 0 where
  pub name : String

pub record DeviceConfig : Type 0 where
  pub device : DeviceMapping
  pub origin : OriginMapping
  pub components : List (String × ClimateComponent)
  pub qos : ℕ

-- `device_config`, from the configuration, the ranges and the state.
abbrev pub device_component : DiscoveryConfig → Topics → Params → State → ClimateComponent
device_component discovery topics params state = record {
  platform = "climate";
  name = "Samsung HVAC";
  object_id = discovery.object_id;
  unique_id = discovery.unique_id;
  topics = topics.climate;
  min_temp = (range params state).low;
  max_temp = (range params state).high;
  precision = record { decis = 1 };
  temp_step = record { decis = 1 };
  temperature_unit = "C";
}

abbrev pub device_config : DiscoveryConfig → Topics → Params → State → DeviceConfig
device_config discovery topics params state = record {
  device = record { name = "Samsung HVAC"; ids = discovery.unique_id };
  origin = record { name = "samsunghvac-mqtt" };
  components = (discovery.object_id, device_component discovery topics params state) ∷ [];
  qos = 1;
}

-- `announce_task`, over the states at its announcements; the JSON of a document is a parameter.
unfoldable pub announce_task :
    (DeviceConfig → String) → DiscoveryConfig → Topics → Params → List State → List Publication
announce_task to_json discovery topics params [] = []
announce_task to_json discovery topics params (state ∷ states) =
    (topics.device_config, to_json (device_config discovery topics params state))
    ∷ announce_task to_json discovery topics params states
