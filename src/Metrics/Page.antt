-- ===== src/Metrics/Page.antt =====
-- What a reader of the page of metrics/src/main.rs finds for an address.
use Prim.Native.String.{String}
use Prim.Native.String
use text.Mathlib.Text
use samsung_nasa.Base.{
  ℕ, ◌≡◌, refl, sym, ap, ◌∙◌, Bool, true, false, ◌&&◌, ◌==◌, ==_iff, if◌then◌else◌, List, [], ◌∷◌,
  ◌++◌, append-nil, Option, none, some,
}
use samsung_nasa.Base.Perms.{flat, flat-append, flat-flat, flat-same}
use samsung_nasa.Packet.Address
use samsung_nasa.Packet.Address.{Address}
use samsung_nasa.Packet.MessageKind.{MessageId}
use samsung_nasa.Packet.Value.{Value}
use samsung_nasa.Packet.Types.{Packet}
use samsung_nasa.Messages.{Known, id, class, value_type}
use samsung_nasa.Messages.Convert
use samsung_nasa.Messages.Types.{Celsius}
use samsung_nasa.Metrics.Tables.{lookup, flat-lookup}
use samsung_nasa.Metrics.{
  AttrMap, AppState, or_default, run_bus, get_message, Sample, gauge_some, int_of, raw, gauges,
  render_attributes, render_metrics,
}
use samsung_nasa.Packet.Equality.{Address-eq_iff}
use samsung_nasa.Metrics.Latest.{reports, last_told, value_of-run_bus}
use samsung_nasa.Metrics.Render.{
  IsState, AllMaps-lookup, run_bus-IsState, raw_of, gauge_of, as_list, int_option,
}

-- The samples of an address are in its own part of the page.
module _ {B : Type 0} (pick : Sample → List B) (a : Address) (own : AttrMap → List B) where
  page-pick :
      ((address : Address) (attrs : AttrMap)
        → flat pick (render_attributes address attrs)
          ≡ (if Address.eq address a then own attrs else []))
      → (state : AppState) → IsState state
      → own [] ≡ []
      → flat pick (render_metrics state) ≡ own (or_default (lookup Address.eq a state))
  unfolding render_metrics
  page-pick h state (keys, _) empty =
      flat-flat pick (λ e. render_attributes e.0 e.1) state
      ∙ flat-same _ _ (λ e. h e.0 e.1) state
      ∙ flat-lookup Address.eq Address-eq_iff own a state keys
      ∙ by_found (lookup Address.eq a state)
    where
      by_found :
          (o : Option AttrMap) → elim o [ none ↦ [] | some attrs ↦ own attrs ] ≡ own (or_default o)
      by_found none = sym empty
      by_found (some attrs) = refl

abbrev nothing : {A B : Type 0} → A → List B
nothing _ = []

flat-nothing : {A B : Type 0} (xs : List A) → flat (nothing {A = A} {B = B}) xs ≡ []
flat-nothing [] = refl
flat-nothing (x ∷ xs) = flat-nothing xs

-- The entries of one message.
abbrev raw_own : MessageId → AttrMap → List ℕ
raw_own i = flat (λ (e : MessageId × Value). if e.0 == i then int_of e.1 ∷ [] else [])

module _ (a : Address) (i : MessageId) where
  raw_of-gauges :
      (address : Address) (attrs : AttrMap)
      → flat
          (raw_of a i)
          (flat (λ (g : String × Option Celsius). gauge_some address g.0 g.1) (gauges attrs))
        ≡ []
  raw_of-gauges address attrs =
      flat-flat (raw_of a i) (λ (g : String × Option Celsius). gauge_some address g.0 g.1)
        (gauges attrs)
      ∙ flat-same _ (λ _. []) (λ g. no_message g.0 g.1) (gauges attrs)
    where
      no_message :
          (name : String) (o : Option Celsius) → flat (raw_of a i) (gauge_some address name o) ≡ []
      no_message name none = refl
      no_message name (some temp) = refl

  raw_of-raws :
      (address : Address) (attrs : AttrMap)
      → flat (raw_of a i) (flat (raw address) attrs)
        ≡ (if Address.eq address a then raw_own i attrs else [])
  raw_of-raws address attrs =
      flat-flat (raw_of a i) (raw address) attrs ∙ by_test (Address.eq address a)
    where
      by_test :
          (b : Bool)
          → flat
              (λ (e : MessageId × Value). (if b && e.0 == i then int_of e.1 ∷ [] else []) ++ [])
              attrs
            ≡ (if b then raw_own i attrs else [])
      by_test true = flat-same _ _ (λ e. append-nil _) attrs
      by_test false = flat-nothing attrs

  raw_of-attributes :
      (address : Address) (attrs : AttrMap)
      → flat (raw_of a i) (render_attributes address attrs)
        ≡ (if Address.eq address a then raw_own i attrs else [])
  unfolding render_attributes
  raw_of-attributes address attrs =
      flat-append (raw_of a i)
        (flat (λ (g : String × Option Celsius). gauge_some address g.0 g.1) (gauges attrs))
        (flat (raw address) attrs)
      ∙ ap (λ zs. zs ++ flat (raw_of a i) (flat (raw address) attrs)) (raw_of-gauges address attrs)
      ∙ raw_of-raws address attrs

-- The gauges, by the names and the messages that they have.
pub data Gauge : Type 0 where
  set current coil_inlet coil_outlet outdoor outdoor_discharge outdoor_exchanger : Gauge

abbrev pub name_of : Gauge → String
name_of Gauge.set = "set_temperature_celsius"
name_of Gauge.current = "current_temperature_celsius"
name_of Gauge.coil_inlet = "coil_inlet_temperature_celsius"
name_of Gauge.coil_outlet = "coil_outlet_temperature_celsius"
name_of Gauge.outdoor = "outdoor_temperature_celsius"
name_of Gauge.outdoor_discharge = "outdoor_discharge_temperature_celsius"
name_of Gauge.outdoor_exchanger = "outdoor_exchanger_temperature_celsius"

abbrev pub message_of : Gauge → Known
message_of Gauge.set = Known.set_temp
message_of Gauge.current = Known.current_temp
message_of Gauge.coil_inlet = Known.eva_in_temp
message_of Gauge.coil_outlet = Known.eva_out_temp
message_of Gauge.outdoor = Known.outdoor_temp
message_of Gauge.outdoor_discharge = Known.outdoor_discharge_temp
message_of Gauge.outdoor_exchanger = Known.outdoor_exchanger_temp

-- A value read as the temperature of a gauge.
abbrev pub reading : Option Value → Option Celsius
reading found = elim found [
  | none ↦ none
  | some value ↦ Convert.try_from_value (value_type (class Known.set_temp)) value
]

abbrev gauge_own : Gauge → AttrMap → List Celsius
gauge_own g attrs = as_list (reading (lookup ◌==◌ (id (message_of g)) attrs))

abbrev listed : Bool → String → List (String × Option Celsius) → List Celsius
listed b name = flat (λ (e : String × Option Celsius).
    if b && Text.◌==◌ (String.◌++◌ "samsung_hvac_" e.0) (String.◌++◌ "samsung_hvac_" name)
    then as_list e.1
    else [])

module _ (a : Address) (g : Gauge) where
  gauge_of-raws :
      (address : Address) (attrs : AttrMap)
      → flat (gauge_of a (name_of g)) (flat (raw address) attrs) ≡ []
  gauge_of-raws address attrs =
      flat-flat (gauge_of a (name_of g)) (raw address) attrs ∙ flat-nothing attrs

  gauge_of-some :
      (address : Address) (name : String) (o : Option Celsius)
      → flat (gauge_of a (name_of g)) (gauge_some address name o) ≡ (
          if Address.eq address a
            && Text.◌==◌
                (String.◌++◌ "samsung_hvac_" name)
                (String.◌++◌ "samsung_hvac_" (name_of g))
          then as_list o
          else [])
  gauge_of-some address name none = by_test (
      Address.eq address a
      && Text.◌==◌ (String.◌++◌ "samsung_hvac_" name) (String.◌++◌ "samsung_hvac_" (name_of g)))
    where
      by_test : (b : Bool) → Path (List Celsius) [] (if b then [] else [])
      by_test true = refl
      by_test false = refl
  gauge_of-some address name (some temp) = append-nil _

listed-own :
    (g : Gauge) (attrs : AttrMap) → listed true (name_of g) (gauges attrs) ≡ gauge_own g attrs
unfolding get_message
listed-own Gauge.set attrs = append-nil _
listed-own Gauge.current attrs = append-nil _
listed-own Gauge.coil_inlet attrs = append-nil _
listed-own Gauge.coil_outlet attrs = append-nil _
listed-own Gauge.outdoor attrs = append-nil _
listed-own Gauge.outdoor_discharge attrs = append-nil _
listed-own Gauge.outdoor_exchanger attrs = append-nil _

gauge_of-attributes :
    (a : Address) (g : Gauge) (address : Address) (attrs : AttrMap)
    → flat (gauge_of a (name_of g)) (render_attributes address attrs)
      ≡ (if Address.eq address a then gauge_own g attrs else [])
unfolding render_attributes
gauge_of-attributes a g address attrs =
    flat-append (gauge_of a (name_of g))
      (flat (λ (e : String × Option Celsius). gauge_some address e.0 e.1) (gauges attrs))
      (flat (raw address) attrs)
    ∙ ap
        (λ zs.
          flat (gauge_of a (name_of g))
            (flat (λ (e : String × Option Celsius). gauge_some address e.0 e.1) (gauges attrs))
          ++ zs)
        (gauge_of-raws a g address attrs)
    ∙ append-nil _
    ∙ flat-flat (gauge_of a (name_of g))
        (λ (e : String × Option Celsius). gauge_some address e.0 e.1) (gauges attrs)
    ∙ flat-same _ _ (λ e. gauge_of-some a g address e.0 e.1) (gauges attrs)
    ∙ by_test (Address.eq address a)
  where
    by_test :
        (b : Bool) → listed b (name_of g) (gauges attrs) ≡ (if b then gauge_own g attrs else [])
    by_test true = listed-own g attrs
    by_test false = refl

raw_own-value_of :
    (i : MessageId) (o : Option Value)
    → elim o [ none ↦ [] | some v ↦ int_of v ∷ [] ] ≡ as_list (int_option o)
raw_own-value_of i none = refl
raw_own-value_of i (some v) = refl

-- After any packets from an empty state, the page has for each address and message one sample with
-- the last value that a notification of the address has told, and none if it has told none; and for
-- each gauge one sample with that value of its message as a temperature, and none if there is no
-- such value or if it is no temperature.
pub render_metrics-run_bus :
    (ps : List Packet) (a : Address)
    → let page = render_metrics (run_bus ps []) in
      ((i : MessageId)
        → flat (raw_of a i) page ≡ as_list (int_option (last_told a i (reports ps) none)))
      × ((g : Gauge)
          → flat (gauge_of a (name_of g)) page
            ≡ as_list (reading (last_told a (id (message_of g)) (reports ps) none)))
render_metrics-run_bus ps a =
    let state : AppState = run_bus ps [] in
    let attrs : AttrMap = or_default (lookup Address.eq a state) in
    let good : IsState state = run_bus-IsState ps [] (tt, tt) in
    let kept : (i : MessageId) → lookup ◌==◌ i attrs ≡ last_told a i (reports ps) none =
      λ i. value_of-run_bus a i ps [] ∙ (unfold lookup in refl) in
    (
      λ i.
          page-pick (raw_of a i) a (raw_own i) (raw_of-attributes a i) state good refl
          ∙ flat-lookup ◌==◌ ==_iff (λ v. int_of v ∷ []) i attrs (AllMaps-lookup a state good.1)
          ∙ raw_own-value_of i (lookup ◌==◌ i attrs)
          ∙ ap (λ o. as_list (int_option o)) (kept i),
      λ g.
          page-pick (gauge_of a (name_of g)) a (gauge_own g) (gauge_of-attributes a g) state good
            (unfold lookup in refl)
          ∙ ap (λ o. as_list (reading o)) (kept (id (message_of g))),
    )
