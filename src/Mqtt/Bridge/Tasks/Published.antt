-- ===== src/Mqtt/Bridge/Tasks/Published.antt =====
-- What a subscriber of each state topic of mqtt/src/mqtt.rs receives.
use Prim.Native.String.{String}
use text.Mathlib.Text.{◌==◌}
use text.Mathlib.TextPositions.{eq_refl}
use samsung_nasa.Base.{
  ℕ, suc, ◌+◌, ◌≡◌, ◌≢◌, refl, sym, ap, subst, ◌∙◌, ◌⊎◌, inl, inr, arith, Bool, true, false,
  if◌then◌else◌, List, [], ◌∷◌, ◌++◌, map, append-nil, Option, none, some,
}
use mathlib.Core.List.{map-append}
use mathlib.Core.Option
use samsung_nasa.Base.Perms.{flat, flat-append}
use samsung_nasa.Messages.Types.{Celsius}
use samsung_nasa.Mqtt.Control.{State}
use samsung_nasa.Mqtt.Modes.{HvacMode, hvac_mode, display, fan_display, from_setting}
use samsung_nasa.Mqtt.Topics.{climate_topics, ends_differ}
use samsung_nasa.Mqtt.Bridge.Tasks.{
  Publication, publish_some, text_of, changed, Round, set_temp_text, update_round,
  update_state_task,
}

-- The payloads that are published on a topic.
abbrev pub payload_on : String → Publication → List String
payload_on topic publication = if publication.0 == topic then publication.1 ∷ [] else []

abbrev pub payloads : String → List Publication → List String
payloads topic = flat (payload_on topic)

-- The payloads of all rounds, and how many of them announce.
abbrev pub received : String → List Round → List String
received topic rounds = payloads topic (flat (λ (r : Round). r.published) rounds)

abbrev pub announcements : List Round → ℕ
announcements [] = 0
announcements (r ∷ rounds) = (if r.announced then 1 else 0) + announcements rounds

abbrev pub as_list : {A : Type 0} → Option A → List A
as_list none = []
as_list (some a) = a ∷ []

-- What the states know of something, in order.
abbrev pub known : {A : Type 0} → (State → Option A) → List State → List A
known f = flat (λ state. as_list (f state))

known_always :
    {A : Type 0} (f : State → A) (xs : List State) → known (λ s. some (f s)) xs ≡ map f xs
known_always f [] = refl
known_always f (x ∷ xs) = ap (λ ts. f x ∷ ts) (known_always f xs)

text_of_lem :
    {A : Type 0} (show : A → String) (o : Option A)
    → as_list (text_of show o) ≡ map show (as_list o)
text_of_lem show none = refl
text_of_lem show (some a) = refl

known-text_of :
    {A : Type 0} (show : A → String) (f : State → Option A) (states : List State)
    → known (λ s. text_of show (f s)) states ≡ map show (known f states)
known-text_of show f [] = refl
known-text_of show f (state ∷ states) =
    ap (λ ts. ts ++ known (λ s. text_of show (f s)) states) (text_of_lem show (f state))
    ∙ ap (λ ts. map show (as_list (f state)) ++ ts) (known-text_of show f states)
    ∙ sym (map-append show (as_list (f state)) (known f states))

-- How often a run of modes changes, from the one before, if there is one: the first mode of all is a
-- change, and so is each one that is another than the one before it.
pub data Changes : Option HvacMode → List HvacMode → ℕ → Type 0 where
  over : (before : Option HvacMode) → Changes before [] 0
  first :
      (mode : HvacMode) (modes : List HvacMode) (n : ℕ)
      → Changes (some mode) modes n
      → Changes none (mode ∷ modes) (suc n)
  same :
      (mode : HvacMode) (modes : List HvacMode) (n : ℕ)
      → Changes (some mode) modes n
      → Changes (some mode) (mode ∷ modes) n
  other :
      (before mode : HvacMode) (modes : List HvacMode) (n : ℕ)
      → before ≢ mode
      → Changes (some mode) modes n
      → Changes (some before) (mode ∷ modes) (suc n)

changed-cases :
    (before mode : HvacMode)
    → ((before ≡ mode) × (changed (some before) mode ≡ false))
      ⊎ ((before ≢ mode) × (changed (some before) mode ≡ true))
changed-cases before mode = ground arith

abbrev counted : Bool → ℕ → ℕ
counted b n = (if b then 1 else 0) + n

Changes-changed :
    (before : Option HvacMode) (mode : HvacMode) (modes : List HvacMode) (n : ℕ)
    → Changes (some mode) modes n
    → Changes before (mode ∷ modes) (counted (changed before mode) n)
Changes-changed none mode modes n h =
    subst (Changes none (mode ∷ modes)) (omega arith) (Changes.first mode modes n h)
Changes-changed (some before) mode modes n h = elim (changed-cases before mode) [
  | inl (equal, stays) ↦
      subst (λ b. Changes (some b) (mode ∷ modes) (counted (changed (some before) mode) n))
        (sym equal)
        (subst (Changes (some mode) (mode ∷ modes))
          (omega arith ∙ ap (λ b. counted b n) (sym stays)) (Changes.same mode modes n h))
  | inr (differs, changes) ↦
      subst (Changes (some before) (mode ∷ modes))
        (omega arith ∙ ap (λ b. counted b n) (sym changes))
        (Changes.other before mode modes n differs h)
]

payloads-append :
    (topic : String) (ps qs : List Publication)
    → payloads topic (ps ++ qs) ≡ payloads topic ps ++ payloads topic qs
payloads-append topic ps qs = flat-append (payload_on topic) ps qs

payloads-publish_some :
    (topic at : String) (o : Option String) {b : Bool}
    → (at == topic) ≡ b
    → payloads topic (publish_some at o) ≡ (if b then as_list o else [])
payloads-publish_some topic at none {b = true} e = refl
payloads-publish_some topic at none {b = false} e = refl
payloads-publish_some topic at (some text) {b = true} e =
    ap (λ b. (if b then text ∷ [] else []) ++ []) e
payloads-publish_some topic at (some text) {b = false} e =
    ap (λ b. (if b then text ∷ [] else []) ++ []) e

-- The payloads of four publications, of which the tests say whether they are on the topic.
payloads-four :
    (topic t1 t2 t3 t4 : String) (o1 o2 o3 o4 : Option String) {b1 b2 b3 b4 : Bool}
    → (t1 == topic) ≡ b1
    → (t2 == topic) ≡ b2
    → (t3 == topic) ≡ b3
    → (t4 == topic) ≡ b4
    → payloads topic
        (publish_some t1 o1 ++ (publish_some t2 o2 ++ (publish_some t3 o3 ++ publish_some t4 o4)))
      ≡ (if b1 then as_list o1 else [])
        ++ ((if b2 then as_list o2 else [])
            ++ ((if b3 then as_list o3 else []) ++ (if b4 then as_list o4 else [])))
payloads-four topic t1 t2 t3 t4 o1 o2 o3 o4 e1 e2 e3 e4 = rw (
  payloads-append topic (publish_some t1 o1)
      (publish_some t2 o2 ++ (publish_some t3 o3 ++ publish_some t4 o4)),
  payloads-append topic (publish_some t2 o2) (publish_some t3 o3 ++ publish_some t4 o4),
  payloads-append topic (publish_some t3 o3) (publish_some t4 o4),
  payloads-publish_some topic t1 o1 e1,
  payloads-publish_some topic t2 o2 e2,
  payloads-publish_some topic t3 o3 e3,
  payloads-publish_some topic t4 o4 e4,
)

module _ (show_temp : Celsius → String) (base : String) where
  abbrev rounds : List State → Option HvacMode → List Round
  rounds = update_state_task show_temp (climate_topics base)

  abbrev mode_text : State → Option String
  mode_text state = text_of display (hvac_mode state)

  abbrev fan_text : State → Option String
  fan_text state = text_of (λ f. fan_display (from_setting f)) state.fan

  -- Where each round publishes the same text on a topic, the task publishes these texts.
  received-texts :
      (topic : String) (f : State → Option String)
      → ((state : State) (before : Option HvacMode)
          → payloads topic (update_round show_temp (climate_topics base) state before).published
            ≡ as_list (f state))
      → (states : List State) (before : Option HvacMode)
      → received topic (rounds states before) ≡ known f states
  unfolding update_state_task
  received-texts topic f h [] before = refl
  received-texts topic f h (state ∷ states) before =
      let round : Round = update_round show_temp (climate_topics base) state before in
      payloads-append topic round.published
        (flat (λ (r : Round). r.published) (rounds states round.previous_mode))
      ∙ ap (λ ts. ts ++ received topic (rounds states round.previous_mode)) (h state before)
      ∙ ap (λ ts. as_list (f state) ++ ts) (received-texts topic f h states round.previous_mode)

  -- What a round publishes on a topic, where the tests say which of its four texts go there.
  payloads-round :
      (topic : String) (state : State) (before : Option HvacMode) {b1 b2 b3 b4 : Bool}
      → ((climate_topics base).mode_state == topic) ≡ b1
      → ((climate_topics base).fan_mode_state == topic) ≡ b2
      → ((climate_topics base).temperature_state == topic) ≡ b3
      → ((climate_topics base).current_temperature == topic) ≡ b4
      → payloads topic (update_round show_temp (climate_topics base) state before).published
        ≡ (if b1 then as_list (mode_text state) else [])
          ++ ((if b2 then as_list (fan_text state) else [])
              ++ ((if b3 then set_temp_text show_temp state.set_temp ∷ [] else [])
                  ++ (if b4 then as_list (text_of show_temp state.current_temp) else [])))
  unfolding update_round
  payloads-round topic state before =
      payloads-four topic _ _ _ _ (mode_text state) (fan_text state)
        (some (set_temp_text show_temp state.set_temp)) (text_of show_temp state.current_temp)

  announcements-Changes :
      (states : List State) (before : Option HvacMode)
      → Changes before (known hvac_mode states) (announcements (rounds states before))
  unfolding update_state_task update_round
  announcements-Changes [] before = Changes.over before
  announcements-Changes (state ∷ states) before =
      by_mode (λ m. announcements-Changes states m) (hvac_mode state)
    where
      by_mode :
          ((m : Option HvacMode)
            → Changes m (known hvac_mode states) (announcements (rounds states m)))
          → (o : Option HvacMode)
          → Changes before (as_list o ++ known hvac_mode states) (
              counted
                (elim o [ none ↦ false | some mode ↦ changed before mode ])
                (announcements (rounds states (elim o [ none ↦ before | some mode ↦ some mode ]))))
      by_mode later none =
          subst (Changes before (known hvac_mode states)) (omega arith) (later before)
      by_mode later (some mode) =
          Changes-changed before mode (known hvac_mode states)
            (announcements (rounds states (some mode))) (later (some mode))

  -- "None" where nothing is known.
  abbrev pub text_or_none : Option Celsius → String
  text_or_none temp = Option.get_or (Option.map show_temp temp) "None"

  set_temp_text-text_or_none :
      (temp : Option Celsius) → set_temp_text show_temp temp ≡ text_or_none temp
  set_temp_text-text_or_none none = refl
  set_temp_text-text_or_none (some t) = refl

  -- Over any run of states, a subscriber of the mode, the fan or the current temperature receives
  -- the text of each one that a state knows, in order, and nothing else; one of the set temperature
  -- receives one text for each state, "None" where it is not known. The device is announced as
  -- often as the mode, among the states that know one, differs from the mode before, the first of
  -- all included where there is none before.
  pub update_state_task_lem :
      (states : List State) (before : Option HvacMode)
      → let topics = climate_topics base in
        let rounds = update_state_task show_temp topics states before in
        (received topics.mode_state rounds ≡ map display (known hvac_mode states))
        × (received topics.fan_mode_state rounds
            ≡ map (λ f. fan_display (from_setting f)) (known (λ (s : State). s.fan) states))
        × (received topics.temperature_state rounds
            ≡ map (λ (s : State). text_or_none s.set_temp) states)
        × (received topics.current_temperature rounds
            ≡ map show_temp (known (λ (s : State). s.current_temp) states))
        × Changes before (known hvac_mode states) (announcements rounds)
  update_state_task_lem states before = (
    received-texts _ mode_text
          (λ s m.
            payloads-round _ s m (eq_refl _) (ends_differ base _ "/mode/state" refl)
              (ends_differ base _ "/mode/state" refl) (ends_differ base _ "/mode/state" refl)
            ∙ append-nil (as_list (mode_text s)))
          states before
        ∙ known-text_of display hvac_mode states,
    received-texts _ fan_text
          (λ s m.
            payloads-round _ s m (ends_differ base _ "/fan/state" refl) (eq_refl _)
              (ends_differ base _ "/fan/state" refl) (ends_differ base _ "/fan/state" refl)
            ∙ append-nil (as_list (fan_text s)))
          states before
        ∙ known-text_of (λ f. fan_display (from_setting f)) (λ s. s.fan) states,
    received-texts _ (λ s. some (text_or_none s.set_temp))
          (λ s m.
            payloads-round _ s m (ends_differ base _ "/temperature/state" refl)
              (ends_differ base _ "/temperature/state" refl) (eq_refl _)
              (ends_differ base _ "/temperature/state" refl)
            ∙ ap (λ (t : String). t ∷ []) (set_temp_text-text_or_none s.set_temp))
          states before
        ∙ known_always (λ s. text_or_none s.set_temp) states,
    received-texts _ (λ s. text_of show_temp s.current_temp)
          (λ s m.
            payloads-round _ s m (ends_differ base _ "/current_temperature" refl)
              (ends_differ base _ "/current_temperature" refl)
              (ends_differ base _ "/current_temperature" refl) (eq_refl _))
          states before
        ∙ known-text_of show_temp (λ s. s.current_temp) states,
    announcements-Changes states before,
  )
