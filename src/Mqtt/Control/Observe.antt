-- ===== src/Mqtt/Control/Observe.antt =====
-- What the state of the unit is after any packets on the bus.
use samsung_nasa.Base.{
  ◌+◌, ◌≡◌, refl, ap, ◌∙◌, arith, Bool, true, false, if◌then◌else◌, List, [], ◌∷◌, ◌++◌, length,
  Option,
}
use samsung_nasa.Base.Perms.{flat}
use samsung_nasa.Packet.Address
use samsung_nasa.Packet.Address.{Address}
use samsung_nasa.Packet.PacketType.{PacketType}
use samsung_nasa.Packet.DataType.{DataType}
use samsung_nasa.Packet.Types.{Packet, Payload, messages}
use samsung_nasa.Messages.{power, mode, fan_mode, current_temp}
use samsung_nasa.Client.MessageSet.{MessageSet, get, or_else}
use samsung_nasa.Client.Reader
use samsung_nasa.Client.Reader.{Action, skip, notify, deliver, dispatch, on_reply, on_packet}
use samsung_nasa.Mqtt.Cell.{borrow_mut}
use samsung_nasa.Mqtt.Control.{State, update_state}
use samsung_nasa.Mqtt.Control.Update.{update_state-updated}
use samsung_nasa.Mqtt.Control.Unit.{Shared, update, on_notification, on_action, observe}

-- The message set of a packet that is a notification of the unit.
abbrev pub noticed : Address → PacketType → Payload → DataType → Address → List MessageSet
noticed unit PacketType.normal (messages ms) DataType.notification source =
    if Address.eq source unit then record { messages = ms } ∷ [] else []
noticed unit _ _ _ source = []

abbrev pub notices : Address → List Packet → List MessageSet
notices unit = flat (λ (p : Packet). noticed unit p.packet_type p.payload p.data_type p.source)

-- The last value that a run of message sets has.
abbrev pub latest : {A : Type 0} → (MessageSet → Option A) → List MessageSet → Option A → Option A
latest f [] before = before
latest f (d ∷ ds) before = latest f ds (or_else (f d) before)

abbrev updates : List MessageSet → Shared → Shared
updates [] shared = shared
updates (d ∷ ds) shared = updates ds (update d shared)

on_action-claimed :
    (p : Packet) (reader : Reader.Shared) (shared : Shared)
    → on_action (on_reply p reader).1 shared ≡ shared
unfolding on_action on_reply
on_action-claimed p reader shared = ground arith

on_action-dispatch :
    (t : PacketType) (l : Payload) (d : DataType) (p : Packet) (reader : Reader.Shared)
    (shared : Shared)
    → on_action (dispatch t l d p reader).1 shared
      ≡ updates (noticed shared.address t l d p.source) shared
unfolding on_action dispatch on_notification
on_action-dispatch PacketType.normal (messages ms) DataType.notification p reader shared =
    updates-if (Address.eq p.source shared.address) (record { messages = ms }) shared
  where
    updates-if :
        (b : Bool) (d : MessageSet) (shared : Shared)
        → (if b then update d shared else shared) ≡ updates (if b then d ∷ [] else []) shared
    updates-if true d shared = refl
    updates-if false d shared = refl
on_action-dispatch PacketType.normal (messages ms) DataType.ack p reader shared =
    on_action-claimed p reader shared
on_action-dispatch PacketType.normal (messages ms) DataType.nack p reader shared =
    on_action-claimed p reader shared
on_action-dispatch PacketType.normal (messages ms) DataType.response p reader shared =
    on_action-claimed p reader shared
on_action-dispatch _ _ _ p reader shared = refl

updates-append :
    (ds es : List MessageSet) (shared : Shared)
    → updates es (updates ds shared) ≡ updates (ds ++ es) shared
updates-append [] es shared = refl
updates-append (d ∷ ds) es shared = updates-append ds es (update d shared)

updates-address :
    (ds : List MessageSet) (shared : Shared) → (updates ds shared).address ≡ shared.address
updates-address [] shared = refl
updates-address (d ∷ ds) shared = updates-address ds (update d shared)

-- Whatever waits at the reader, the callbacks see the notifications.
observe-updates :
    (ps : List Packet) (reader : Reader.Shared) (shared : Shared)
    → observe ps reader shared ≡ updates (notices shared.address ps) shared
unfolding observe on_packet
observe-updates [] reader shared = refl
observe-updates (p ∷ ps) reader shared =
    let here : List MessageSet =
      noticed shared.address p.packet_type p.payload p.data_type p.source in
    observe-updates ps (on_packet p reader).0 (on_action (on_packet p reader).1 shared)
    ∙ ap (λ (s : Shared). updates (notices s.address ps) s)
        (on_action-dispatch p.packet_type p.payload p.data_type p reader shared)
    ∙ ap (λ a. updates (notices a ps) (updates here shared)) (updates-address here shared)
    ∙ updates-append here (notices shared.address ps) shared

-- A field that each message set overwrites, where it has a value for it, has the latest one.
updates-latest :
    {A : Type 0} (field : State → Option A) (f : MessageSet → Option A)
    → ((s : State) (d : MessageSet) → field (update_state s d) ≡ or_else (f d) (field s))
    → (ds : List MessageSet) (shared : Shared)
    → field (updates ds shared).state.inner ≡ latest f ds (field shared.state.inner)
unfolding borrow_mut
updates-latest field f h [] shared = refl
updates-latest field f h (d ∷ ds) shared =
    updates-latest field f h ds (update d shared) ∙ ap (latest f ds) (h shared.state.inner d)

updates-notified :
    (ds : List MessageSet) (shared : Shared)
    → (updates ds shared).state.notified ≡ shared.state.notified + length ds
unfolding borrow_mut
updates-notified [] shared = omega arith
updates-notified (d ∷ ds) shared = omega (arith, updates-notified ds (update d shared))

-- After any packets, whatever requests wait, the power, the mode, the fan and the current
-- temperature are the last that a notification of this unit has told, or those of before where none
-- has, and the subscribers were notified once for each notification of this unit.
pub observe_lem :
    (ps : List Packet) (reader : Reader.Shared) (shared : Shared)
    → let after = (observe ps reader shared).state in
      let ds = notices shared.address ps in
      let before = shared.state.inner in
      (after.inner.power ≡ latest (get power) ds before.power)
      × (after.inner.mode ≡ latest (get mode) ds before.mode)
      × (after.inner.fan ≡ latest (get fan_mode) ds before.fan)
      × (after.inner.current_temp ≡ latest (get current_temp) ds before.current_temp)
      × (after.notified ≡ shared.state.notified + length ds)
observe_lem ps reader shared =
    let ds : List MessageSet = notices shared.address ps in
    let same : observe ps reader shared ≡ updates ds shared = observe-updates ps reader shared in
    (
      ap (λ (s : Shared). s.state.inner.power) same
          ∙ updates-latest (λ s. s.power) (get power)
              (λ s d. ap (λ (t : State). t.power) (update_state-updated s d)) ds shared,
      ap (λ (s : Shared). s.state.inner.mode) same
          ∙ updates-latest (λ s. s.mode) (get mode)
              (λ s d. ap (λ (t : State). t.mode) (update_state-updated s d)) ds shared,
      ap (λ (s : Shared). s.state.inner.fan) same
          ∙ updates-latest (λ s. s.fan) (get fan_mode)
              (λ s d. ap (λ (t : State). t.fan) (update_state-updated s d)) ds shared,
      ap (λ (s : Shared). s.state.inner.current_temp) same
          ∙ updates-latest (λ s. s.current_temp) (get current_temp)
              (λ s d. ap (λ (t : State). t.current_temp) (update_state-updated s d)) ds shared,
      ap (λ (s : Shared). s.state.notified) same ∙ updates-notified ds shared,
    )
