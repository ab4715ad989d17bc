-- ===== src/Mqtt/Bridge/Commands.antt =====
-- Which command a message of mqtt/src/mqtt.rs is, by its topic.
use Prim.Native.String.{String}
use text.Mathlib.Text.{◌==◌}
use text.Mathlib.TextEquality.{eq_iff}
use text.Mathlib.TextPositions.{eq_refl}
use mathlib.Core.List.{Mem, mem-cons_self, mem-cons_of_mem}
use samsung_nasa.Base.{
  ◌≡◌, refl, sym, ap, ◌∙◌, subst, arith, Bool, true, false, Bool-cases, if◌then◌else◌, List, [],
  ◌++◌, append-nil, Option, Result, ok, err, panic, ◌>>=◌, inl, inr,
}
use samsung_nasa.Packet.Value.{Message}
use samsung_nasa.Messages.Types.{Celsius}
use samsung_nasa.Mqtt.Control.{State, Params, range}
use samsung_nasa.Mqtt.Modes.{mode_command, fan_mode_command}
use samsung_nasa.Mqtt.Topics
use samsung_nasa.Mqtt.Topics.{
  DiscoveryConfig, Topics, ClimateComponentTopics, component_of, subscribe_topics, ends_differ,
  status_differs,
}
use samsung_nasa.Mqtt.Bridge.{power_command, temperature_command, when, collect, announces}

pub data Command : Type 0 where
  power mode temperature fan_mode : Command

abbrev pub topic_of : Command → ClimateComponentTopics → String
topic_of Command.power topics = topics.power_command
topic_of Command.mode topics = topics.mode_command
topic_of Command.temperature topics = topics.temperature_command
topic_of Command.fan_mode topics = topics.fan_mode_command

module _ (parse_temp : String → Option Celsius) where
  abbrev pub messages_of :
      {E : Type 0} → Command → Params → State → String → Result E (List Message)
  messages_of Command.power params state message = ok (power_command message)
  messages_of Command.mode params state message = ok (mode_command message)
  messages_of Command.temperature params state message =
      temperature_command (range params state) (parse_temp message)
  messages_of Command.fan_mode params state message = ok (fan_mode_command message)

  -- `collect`, on the outcomes of its four tests.
  abbrev collected :
      {E : Type 0} → Params → State → String → (t p m f : Bool) → Result E (List Message)
  collected params state message t p m f =
      (if t then temperature_command (range params state) (parse_temp message) else ok [])
      >>= λ temp. ok (
          when p (power_command message)
          ++ (when m (mode_command message) ++ (temp ++ when f (fan_mode_command message))))

  collect-collected :
      {E : Type 0} (topics : Topics) (params : Params) (state : State) (topic message : String)
      {t p m f : Bool}
      → (topics.climate.temperature_command == topic) ≡ t
      → (topics.climate.power_command == topic) ≡ p
      → (topics.climate.mode_command == topic) ≡ m
      → (topics.climate.fan_mode_command == topic) ≡ f
      → collect parse_temp {E = E} topics params state topic message
        ≡ collected params state message t p m f
  unfolding collect
  collect-collected topics params state topic message {t} {p} {m} {f} et ep em ef =
      ap
        (λ b.
          collected params state message b (topics.climate.power_command == topic)
            (topics.climate.mode_command == topic) (topics.climate.fan_mode_command == topic))
        et
      ∙ ap
          (λ b.
            collected params state message t b (topics.climate.mode_command == topic)
              (topics.climate.fan_mode_command == topic))
          ep
      ∙ ap (λ b. collected params state message t p b (topics.climate.fan_mode_command == topic)) em
      ∙ ap (λ b. collected params state message t p m b) ef

  nothing_behind : {E : Type 0} (r : Result E (List Message)) → (r >>= λ temp. ok (temp ++ [])) ≡ r
  nothing_behind (ok temp) = ap ok (append-nil temp)
  nothing_behind (err e) = refl
  nothing_behind panic = refl

  collect-topic_of :
      {E : Type 0} (base status config : String) (params : Params) (state : State)
      (message : String) (c : Command)
      → let topics : Topics = record {
        homeassistant_status = status;
        climate = Topics.climate_topics base;
        device_config = config;
      } in
        collect parse_temp {E = E} topics params state (topic_of c topics.climate) message
        ≡ messages_of c params state message
  collect-topic_of base status config params state message Command.power =
      collect-collected _ params state _ message (ends_differ base _ "/power/set" refl) (eq_refl _)
        (ends_differ base _ "/power/set" refl) (ends_differ base _ "/power/set" refl)
      ∙ ap ok (append-nil (power_command message))
  collect-topic_of base status config params state message Command.mode =
      collect-collected _ params state _ message (ends_differ base _ "/mode/set" refl)
        (ends_differ base _ "/mode/set" refl) (eq_refl _) (ends_differ base _ "/mode/set" refl)
      ∙ ap ok (append-nil (mode_command message))
  collect-topic_of base status config params state message Command.temperature =
      collect-collected _ params state _ message (eq_refl _)
        (ends_differ base _ "/temperature/set" refl) (ends_differ base _ "/temperature/set" refl)
        (ends_differ base _ "/temperature/set" refl)
      ∙ nothing_behind (temperature_command (range params state) (parse_temp message))
  collect-topic_of base status config params state message Command.fan_mode =
      collect-collected _ params state _ message (ends_differ base _ "/fan/set" refl)
        (ends_differ base _ "/fan/set" refl) (ends_differ base _ "/fan/set" refl) (eq_refl _)

  -- Where the topic is none of the four, nothing is collected.
  collect_nothing :
      {E : Type 0} (topics : Topics) (params : Params) (state : State) (topic message : String)
      → ((c : Command) → (topic_of c topics.climate == topic) ≡ false)
      → collect parse_temp {E = E} topics params state topic message ≡ ok []
  collect_nothing topics params state topic message h =
      collect-collected topics params state topic message (h Command.temperature) (h Command.power)
        (h Command.mode) (h Command.fan_mode)

  status_apart :
      (config : DiscoveryConfig) (c : Command)
      → ((Topics.new config).homeassistant_status == topic_of c (Topics.new config).climate) ≡ false
  status_apart config Command.power = status_differs config "/power/set"
  status_apart config Command.mode = status_differs config "/mode/set"
  status_apart config Command.temperature = status_differs config "/temperature/set"
  status_apart config Command.fan_mode = status_differs config "/fan/set"

  flipped : (s t : String) → (s == t) ≡ false → (t == s) ≡ false
  flipped s t h = elim (Bool-cases (t == s)) [
    | inr e ↦ e
    | inl e ↦ absurd (ground (arith, h, (eq_iff s t).1 (sym ((eq_iff t s).0 e))))
  ]

  not_subscribed :
      (s topic : String) (topics : List String)
      → Mem s topics
      → ¬ Mem topic topics
      → (s == topic) ≡ false
  not_subscribed s topic topics m h = elim (Bool-cases (s == topic)) [
    | inr e ↦ e
    | inl e ↦ absurd (h (subst (λ t. Mem t topics) ((eq_iff s topic).0 e) m))
  ]

  topic_of-Mem :
      (topics : Topics) (c : Command) → Mem (topic_of c topics.climate) (subscribe_topics topics)
  topic_of-Mem topics Command.fan_mode = mem-cons_of_mem _ mem-cons_self
  topic_of-Mem topics Command.mode = mem-cons_of_mem _ (mem-cons_of_mem _ mem-cons_self)
  topic_of-Mem topics Command.power =
      mem-cons_of_mem _ (mem-cons_of_mem _ (mem-cons_of_mem _ mem-cons_self))
  topic_of-Mem topics Command.temperature =
      mem-cons_of_mem _ (mem-cons_of_mem _ (mem-cons_of_mem _ (mem-cons_of_mem _ mem-cons_self)))

  -- Whatever the prefix and the object are, a message on the topic of a command runs that command
  -- alone and announces nothing, a message on the status topic only announces, and one on a topic
  -- that is not subscribed does neither.
  pub collect-commands :
      {E : Type 0} (config : DiscoveryConfig) (params : Params) (state : State) (message : String)
      → let topics = Topics.new config in
        ((c : Command)
          → (collect parse_temp {E = E} topics params state (topic_of c topics.climate) message
              ≡ messages_of c params state message)
            × (announces topics (topic_of c topics.climate) ≡ false))
        × ((collect parse_temp {E = E} topics params state topics.homeassistant_status message
              ≡ ok [])
            × (announces topics topics.homeassistant_status ≡ true))
        × ((topic : String)
            → ¬ Mem topic (subscribe_topics topics)
            → (collect parse_temp {E = E} topics params state topic message ≡ ok [])
              × (announces topics topic ≡ false))
  unfolding announces
  collect-commands config params state message =
      let topics : Topics = Topics.new config in
      (
        λ c. (
          collect-topic_of (component_of config) topics.homeassistant_status topics.device_config
              params state message c,
          status_apart config c,
        ),
        (
          collect_nothing topics params state topics.homeassistant_status message
              (λ c. flipped _ _ (status_apart config c)),
          eq_refl topics.homeassistant_status,
        ),
        λ topic h. (
          collect_nothing topics params state topic message
              (λ c. not_subscribed _ topic (subscribe_topics topics) (topic_of-Mem topics c) h),
          not_subscribed _ topic (subscribe_topics topics) mem-cons_self h,
        ),
      )
