-- ===== src/Mqtt/Topics.antt =====
-- The topics of mqtt/src/mqtt.rs, from the discovery section of the configuration.
use Prim.Native.String.{String, ◌++◌}
use text.Mathlib.Text.{◌==◌, starts_with}
use text.Mathlib.TextEquality.{eq_iff}
use text.Mathlib.TextLemmas.{append_cancel_left, append_assoc}
use text.Mathlib.TextPositions.{starts_with-append}
use samsung_nasa.Base.{◌≡◌, ap, ◌∙◌, arith, true, false, Bool-cases, inl, inr, List, [], ◌∷◌}

pub record DiscoveryConfig : Type 0 where
  pub prefix : String
  pub object_id : String
  pub unique_id : String

pub record ClimateComponentTopics : Type 0 where
  pub availability : String
  pub current_temperature : String
  pub fan_mode_command : String
  pub fan_mode_state : String
  pub mode_command : String
  pub mode_state : String
  pub power_command : String
  pub temperature_command : String
  pub temperature_state : String

-- `ClimateComponentTopics::new`
abbrev pub climate_topics : String → ClimateComponentTopics
climate_topics base = record {
  availability = base ++ "/availability";
  current_temperature = base ++ "/current_temperature";
  fan_mode_command = base ++ "/fan/set";
  fan_mode_state = base ++ "/fan/state";
  mode_command = base ++ "/mode/set";
  mode_state = base ++ "/mode/state";
  power_command = base ++ "/power/set";
  temperature_command = base ++ "/temperature/set";
  temperature_state = base ++ "/temperature/state";
}

pub record Topics : Type 0 where
  pub homeassistant_status : String
  pub climate : ClimateComponentTopics
  pub device_config : String

abbrev pub component_of : DiscoveryConfig → String
component_of config = config.prefix ++ ("/climate/" ++ config.object_id)

-- `Topics::new`
abbrev pub new : DiscoveryConfig → Topics
new config = record {
  homeassistant_status = config.prefix ++ "/status";
  climate = climate_topics (component_of config);
  device_config = config.prefix ++ ("/device/" ++ (config.object_id ++ "/config"));
}

-- The topics of `subscribe_topics`, in its order.
abbrev pub subscribe_topics : Topics → List String
subscribe_topics topics =
    topics.homeassistant_status ∷ topics.climate.fan_mode_command ∷ topics.climate.mode_command
    ∷ topics.climate.power_command ∷ topics.climate.temperature_command ∷ []

differ : (s t : String) → ¬ (s ≡ t) → (s == t) ≡ false
differ s t h = elim (Bool-cases (s == t)) [ inl e ↦ absurd (h ((eq_iff s t).0 e)) | inr e ↦ e ]

-- Two topics of one component differ where their ends do.
pub ends_differ : (base s t : String) → (s == t) ≡ false → (base ++ s == base ++ t) ≡ false
ends_differ base s t h =
    differ (base ++ s) (base ++ t)
      (λ e. absurd (ground (arith, h, (eq_iff s t).1 (append_cancel_left base s t e))))

-- The status topic of Home Assistant is no topic of a component.
pub status_differs :
    (config : DiscoveryConfig) (s : String)
    → (config.prefix ++ "/status" == component_of config ++ s) ≡ false
status_differs config s = differ (config.prefix ++ "/status") (component_of config ++ s) (λ e.
    no_start (config.object_id ++ s) (
      append_cancel_left config.prefix "/status" ("/climate/" ++ (config.object_id ++ s)) (
        e
        ∙ append_assoc config.prefix ("/climate/" ++ config.object_id) s
        ∙ ap (λ t. config.prefix ++ t) (append_assoc "/climate/" config.object_id s))))
  where
    no_start : (t : String) → "/status" ≡ "/climate/" ++ t → ⊥
    no_start t e =
        let h : starts_with "/status" "/climate/" ≡ true =
          ap (λ u. starts_with u "/climate/") e ∙ starts_with-append "/climate/" t in
        ground (arith, h)
