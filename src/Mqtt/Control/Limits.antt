-- ===== src/Mqtt/Control/Limits.antt =====
-- The ranges that the mqtt program starts with.
use samsung_nasa.Base.{
  ◌≡◌, ◌≢◌, ◌∙◌, arith, List, [], ◌∷◌, ◌++◌, none, ok, err, after_ok, after_err,
}
use samsung_nasa.Bytes.{IsU16}
use samsung_nasa.Packet.Value.{Message}
use samsung_nasa.Messages
use samsung_nasa.Messages.{Known, id, new}
use samsung_nasa.Messages.Types.{CelsiusLvar, from_lvar}
use samsung_nasa.Messages.RoundTrip.{InRange, get-new}
use samsung_nasa.Client.MessageSet.{try_get, try_get-new, missing_message}
use samsung_nasa.Mqtt.Control.{params_of}

-- A limit is not read as another.
other_limit :
    (j k : Known) (v : Messages.ValueOf j)
    → InRange (Messages.class j) v
    → id k ≢ id j
    → Messages.get k (new j v) ≡ none
other_limit j k v range ne = (get-new j k v range).1 ne

module _ (cl hl ch hh : CelsiusLvar) (a : IsU16 cl.decis) (b : IsU16 hl.decis) (c : IsU16 ch.decis)
    (d : IsU16 hh.decis) where
  abbrev three : List Message
  three =
      new Known.cool_low_temp_limit cl
      ∷ new Known.heat_low_temp_limit hl
      ∷ new Known.cool_high_temp_limit ch
      ∷ []

  low_cool :
      (rest : List Message)
      → try_get Known.cool_low_temp_limit (record { messages = three ++ rest }) ≡ ok cl
  low_cool rest =
      (try_get-new Known.cool_low_temp_limit cl []
        (new Known.heat_low_temp_limit hl ∷ new Known.cool_high_temp_limit ch ∷ rest) a tt).0

  low_heat :
      (rest : List Message)
      → try_get Known.heat_low_temp_limit (record { messages = three ++ rest }) ≡ ok hl
  low_heat rest =
      (try_get-new Known.heat_low_temp_limit hl (new Known.cool_low_temp_limit cl ∷ [])
        (new Known.cool_high_temp_limit ch ∷ rest) b
        (
          other_limit Known.cool_low_temp_limit Known.heat_low_temp_limit cl a
              (λ e. omega (arith, e)),
          tt,
        )).0

  high_cool :
      (rest : List Message)
      → try_get Known.cool_high_temp_limit (record { messages = three ++ rest }) ≡ ok ch
  high_cool rest =
      (try_get-new Known.cool_high_temp_limit ch
        (new Known.cool_low_temp_limit cl ∷ new Known.heat_low_temp_limit hl ∷ []) rest c
        (
          other_limit Known.cool_low_temp_limit Known.cool_high_temp_limit cl a
              (λ e. omega (arith, e)),
          (
            other_limit Known.heat_low_temp_limit Known.cool_high_temp_limit hl b
                (λ e. omega (arith, e)),
            tt,
          ),
        )).0

  last :
      (try_get Known.heat_high_temp_limit
          (record { messages = three ++ (new Known.heat_high_temp_limit hh ∷ []) })
        ≡ ok hh)
      × (try_get Known.heat_high_temp_limit (record { messages = three })
          ≡ err (missing_message 0x0413))
  last = try_get-new Known.heat_high_temp_limit hh three [] d (
    other_limit Known.cool_low_temp_limit Known.heat_high_temp_limit cl a (λ e. omega (arith, e)),
    (
      other_limit Known.heat_low_temp_limit Known.heat_high_temp_limit hl b (λ e. omega (arith, e)),
      (
        other_limit Known.cool_high_temp_limit Known.heat_high_temp_limit ch c
            (λ e. omega (arith, e)),
        tt,
      ),
    ),
  )

-- A reply with the four limits, each a u16, in the order in which they are asked for gives the
-- two ranges; one that lacks the last limit is refused with its number.
pub params_of-limits :
    (cool_low heat_low cool_high heat_high : CelsiusLvar)
    → IsU16 cool_low.decis
    → IsU16 heat_low.decis
    → IsU16 cool_high.decis
    → IsU16 heat_high.decis
    → let three =
        new Known.cool_low_temp_limit cool_low
        ∷ new Known.heat_low_temp_limit heat_low
        ∷ new Known.cool_high_temp_limit cool_high
        ∷ [] in
      (params_of (record { messages = three ++ (new Known.heat_high_temp_limit heat_high ∷ []) })
        ≡ ok (record {
          cooling_range = record { low = from_lvar cool_low; high = from_lvar cool_high };
          heating_range = record { low = from_lvar heat_low; high = from_lvar heat_high };
        }))
      × (params_of (record { messages = three }) ≡ err (missing_message 0x0413))
unfolding params_of
params_of-limits cl hl ch hh a b c d = (
  after_ok _ (low_cool cl hl ch hh a b c d (new Known.heat_high_temp_limit hh ∷ []))
      ∙ after_ok _ (high_cool cl hl ch hh a b c d (new Known.heat_high_temp_limit hh ∷ []))
      ∙ after_ok _ (low_heat cl hl ch hh a b c d (new Known.heat_high_temp_limit hh ∷ []))
      ∙ after_ok _ (last cl hl ch hh a b c d).0,
  after_ok _ (low_cool cl hl ch hh a b c d [])
      ∙ after_ok _ (high_cool cl hl ch hh a b c d [])
      ∙ after_ok _ (low_heat cl hl ch hh a b c d [])
      ∙ after_err _ (last cl hl ch hh a b c d).1,
)
