-- ===== src/Mqtt/Control/Update.antt =====
-- What a notification changes.
use samsung_nasa.Base.{
  ◌≡◌, ◌≢◌, refl, sym, ap, subst, ◌∙◌, ◌⊎◌, inl, inr, arith, Option-cases, Option, none, some, Bool,
  true, false, if◌then◌else◌,
}
use samsung_nasa.Messages.{power, mode, fan_mode, set_temp, current_temp}
use samsung_nasa.Messages.Types.{PowerSetting, OperationMode, FanSetting, Celsius}
use samsung_nasa.Client.MessageSet.{MessageSet, get, or_else}
use samsung_nasa.Mqtt.Control.{State, has_temperature_in, has_temperature, when_some, update_state}

abbrev pub shown : Bool → Option Celsius → Option Celsius → Option Celsius
shown shows (some t) before = if shows then some t else none
shown shows none before = before

-- The state after a message set, field by field.
abbrev pub updated : State → MessageSet → State
updated s d =
    let p = or_else (get power d) s.power in
    let m = or_else (get mode d) s.mode in
    let f = or_else (get fan_mode d) s.fan in
    let shows = has_temperature (record s { power = p; mode = m }) in
    record {
      power = p;
      mode = m;
      fan = f;
      set_temp = shown shows (get set_temp d) s.set_temp;
      current_temp = or_else (get current_temp d) s.current_temp;
    }

-- Each step changes one field.
with_power :
    (o : Option PowerSetting) (s : State)
    → when_some o (λ p s. record s { power = some p }) s ≡ record s { power = or_else o s.power }
with_power none s = refl
with_power (some p) s = refl

with_mode :
    (o : Option OperationMode) (s : State)
    → when_some o (λ m s. record s { mode = some m }) s ≡ record s { mode = or_else o s.mode }
with_mode none s = refl
with_mode (some m) s = refl

with_fan :
    (o : Option FanSetting) (s : State)
    → when_some o (λ f s. record s { fan = some f }) s ≡ record s { fan = or_else o s.fan }
with_fan none s = refl
with_fan (some f) s = refl

with_set_temp :
    (o : Option Celsius) (s : State)
    → when_some o
        (λ t s.
          if has_temperature s
          then record s { set_temp = some t }
          else record s { set_temp = none })
        s
      ≡ record s { set_temp = shown (has_temperature s) o s.set_temp }
with_set_temp none s = refl
with_set_temp (some t) s = by_shown (has_temperature s)
  where
    by_shown :
        (b : Bool)
        → (if b then record s { set_temp = some t } else record s { set_temp = none })
          ≡ record s { set_temp = if b then some t else none }
    by_shown true = refl
    by_shown false = refl

with_current_temp :
    (o : Option Celsius) (s : State)
    → when_some o (λ t s. record s { current_temp = some t }) s
      ≡ record s { current_temp = or_else o s.current_temp }
with_current_temp none s = refl
with_current_temp (some t) s = refl

pub update_state-updated : (s : State) (d : MessageSet) → update_state s d ≡ updated s d
unfolding update_state has_temperature
update_state-updated s d =
    with_current_temp (get current_temp d) _
    ∙ ap (λ (t : State). record t { current_temp = or_else (get current_temp d) t.current_temp })
        (with_set_temp (get set_temp d) _
          ∙ ap
              (λ (t : State). record t {
                set_temp = shown (has_temperature t) (get set_temp d) t.set_temp;
              })
              (with_fan (get fan_mode d) _
                ∙ ap (λ (t : State). record t { fan = or_else (get fan_mode d) t.fan })
                    (with_mode (get mode d) _
                      ∙ ap (λ (t : State). record t { mode = or_else (get mode d) t.mode })
                          (with_power (get power d) s))))

-- The states that have a set temperature: not off, with a mode that is known and is not the fan.
abbrev pub HasTemperature : State → Type 0
HasTemperature s =
    (s.power ≢ some PowerSetting.off) × (s.mode ≢ none) × (s.mode ≢ some OperationMode.fan)

has_temperature-cases :
    (s : State)
    → ((has_temperature s ≡ true) × HasTemperature s)
      ⊎ ((has_temperature s ≡ false) × (¬ HasTemperature s))
unfolding has_temperature has_temperature_in
has_temperature-cases s = ground arith

-- What becomes of a set temperature in a state: nothing where none is told, and else it is the one
-- that is told, or unknown.
abbrev pub SetTemp : Option Celsius → Option Celsius → State → Type 0
SetTemp told before after =
    ((told ≡ none) × (after.set_temp ≡ before))
    ⊎ (((t : Celsius) × (told ≡ some t) × (after.set_temp ≡ some t) × HasTemperature after)
        ⊎ ((t : Celsius) × (told ≡ some t) × (after.set_temp ≡ none) × (¬ HasTemperature after)))

updated-SetTemp : (s : State) (d : MessageSet) → SetTemp (get set_temp d) s.set_temp (updated s d)
updated-SetTemp s d = elim (Option-cases (get set_temp d)) [
  | inl untold ↦ inl (untold, ap (λ o. shown (has_temperature moved) o s.set_temp) untold)
  | inr (t, told) ↦ inr (elim (has_temperature-cases moved) [
    | inl (yes_it, has) ↦ inl (
      t,
      told,
      ap (λ o. shown (has_temperature moved) o s.set_temp) told
          ∙ ap (λ b. if b then some t else none) yes_it,
      has,
    )
    | inr (no_it, lacks) ↦ inr (
      t,
      told,
      ap (λ o. shown (has_temperature moved) o s.set_temp) told
          ∙ ap (λ b. if b then some t else none) no_it,
      lacks,
    )
  ])
]
  where
    moved : State
    moved = record s { power = or_else (get power d) s.power; mode = or_else (get mode d) s.mode }

-- A message set changes the fields that it has messages for and no others. Where it tells a set
-- temperature, that is the new one if, as they are after the set, the power is not off and the mode
-- is known and is not the fan; else the set temperature is unknown.
pub update_state_lem :
    (s : State) (d : MessageSet)
    → let after = update_state s d in
      (after.power ≡ or_else (get power d) s.power)
      × (after.mode ≡ or_else (get mode d) s.mode)
      × (after.fan ≡ or_else (get fan_mode d) s.fan)
      × (after.current_temp ≡ or_else (get current_temp d) s.current_temp)
      × SetTemp (get set_temp d) s.set_temp after
update_state_lem s d =
    let e : update_state s d ≡ updated s d = update_state-updated s d in
    (
      ap (λ (t : State). t.power) e,
      ap (λ (t : State). t.mode) e,
      ap (λ (t : State). t.fan) e,
      ap (λ (t : State). t.current_temp) e,
      subst (SetTemp (get set_temp d) s.set_temp) (sym e) (updated-SetTemp s d),
    )

or_else_again : {A : Type 0} (o x : Option A) → or_else o (or_else o x) ≡ or_else o x
or_else_again none x = refl
or_else_again (some a) x = refl

shown_again : (b : Bool) (o x : Option Celsius) → shown b o (shown b o x) ≡ shown b o x
shown_again b none x = refl
shown_again b (some t) x = refl

updated_again : (s : State) (d : MessageSet) → updated (updated s d) d ≡ updated s d
unfolding has_temperature
updated_again s d =
    rw
      (
        or_else_again (get power d) s.power,
        or_else_again (get mode d) s.mode,
        or_else_again (get fan_mode d) s.fan,
        or_else_again (get current_temp d) s.current_temp,
      )
      (ap (λ (t : Option Celsius). record (updated s d) { set_temp = t })
        (shown_again (has_temperature (updated s d)) (get set_temp d) s.set_temp))

-- Nothing changes when the same message set comes again.
pub update_state_again :
    (s : State) (d : MessageSet) → update_state (update_state s d) d ≡ update_state s d
update_state_again s d =
    update_state-updated (update_state s d) d
    ∙ ap (λ (t : State). updated t d) (update_state-updated s d)
    ∙ updated_again s d
    ∙ sym (update_state-updated s d)
