-- ===== src/Mqtt/Bridge/Tasks/Announced.antt =====
-- The range that the discovery document of mqtt/src/mqtt.rs announces.
use samsung_nasa.Base.{◌≡◌, ◌↔◌, sym, ap, ◌∙◌, subst, ok, ok-injective}
use samsung_nasa.Messages.Types.{Celsius}
use samsung_nasa.Mqtt.Control.{State, Params, range, clamp}
use samsung_nasa.Mqtt.Control.Range.{IsOrdered, Contains, clamp-range}
use samsung_nasa.Mqtt.Topics.{DiscoveryConfig, Topics}
use samsung_nasa.Mqtt.Bridge.Tasks.{ClimateComponent, device_component}

-- The announced range is exactly the temperatures that a command sets as they are asked for, where
-- the ranges of the unit are in order; any other is replaced by one of that range.
pub device_component-clamp :
    {E : Type 0} (discovery : DiscoveryConfig) (topics : Topics) (params : Params) (state : State)
    (temp : Celsius)
    → IsOrdered params.cooling_range
    → IsOrdered params.heating_range
    → let announced : ClimateComponent = device_component discovery topics params state in
      ((clamp {E = E} (range params state) temp ≡ ok temp)
        ↔ Contains (record { low = announced.min_temp; high = announced.max_temp }) temp)
      × ((t : Celsius) × (clamp {E = E} (range params state) temp ≡ ok t)
          × Contains (record { low = announced.min_temp; high = announced.max_temp }) t)
device_component-clamp discovery topics params state temp hc hh =
    let (t, clamped, inside, same) = clamp-range params state temp hc hh in
    (
      (
        λ e. subst (Contains (range params state)) (ok-injective (sym clamped ∙ e)) inside,
        λ c. clamped ∙ ap ok (same c),
      ),
      (t, clamped, inside),
    )
