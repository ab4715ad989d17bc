-- ===== src/Mqtt/Control/Range.antt =====
-- The temperature that is asked for is one that the mode allows.
use samsung_nasa.Base.{◌≤◌, ◌≡◌, refl, arith, ok, panic, ◌↔◌}
use native.Mathlib.Decide.{dec_le}
use samsung_nasa.Messages.Types.{Celsius}
use samsung_nasa.Mqtt.Control.{State, TempRange, Params, min, max, nonspecific, clamp, range}

abbrev pub IsOrdered : TempRange → Type 0
IsOrdered r = r.low.decis ≤ r.high.decis

abbrev pub Contains : TempRange → Celsius → Type 0
Contains r t = (r.low.decis ≤ t.decis) × (t.decis ≤ r.high.decis)

range-IsOrdered :
    (params : Params) (state : State)
    → IsOrdered params.cooling_range
    → IsOrdered params.heating_range
    → IsOrdered (range params state)
unfolding range nonspecific min max
range-IsOrdered params state hc hh = ground arith

clamp-Contains :
    {E : Type 0} (r : TempRange) (temp : Celsius)
    → IsOrdered r
    → (t : Celsius) × (clamp {E = E} r temp ≡ ok t) × Contains r t × (Contains r temp → t ≡ temp)
unfolding clamp
clamp-Contains r temp h = elim (dec_le r.low.decis temp.decis) [
  | yes p ↦ elim (dec_le temp.decis r.high.decis) [
    | yes q ↦ (temp, ground arith, (p, q), λ _. refl)
    | no q ↦ (r.high, ground arith, (h, omega arith), λ c. absurd (omega (arith, c)))
  ]
  | no p ↦ (r.low, ground arith, (omega arith, h), λ c. absurd (omega (arith, c)))
]

-- In every mode, where both ranges are in order, `clamp` returns a temperature of the mode's range,
-- and the one that was asked for if the range contains it.
pub clamp-range :
    {E : Type 0} (params : Params) (state : State) (temp : Celsius)
    → IsOrdered params.cooling_range
    → IsOrdered params.heating_range
    → (t : Celsius) × (clamp {E = E} (range params state) temp ≡ ok t)
      × Contains (range params state) t
      × (Contains (range params state) temp → t ≡ temp)
clamp-range params state temp hc hh =
    clamp-Contains (range params state) temp (range-IsOrdered params state hc hh)

-- `clamp` panics exactly where the bounds are out of order.
pub clamp-eq-panic :
    {E : Type 0} (r : TempRange) (temp : Celsius) → (clamp {E = E} r temp ≡ panic) ↔ ¬ IsOrdered r
unfolding clamp
clamp-eq-panic r temp = ground arith
