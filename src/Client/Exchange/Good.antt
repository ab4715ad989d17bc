-- ===== src/Client/Exchange/Good.antt =====
-- The invariant of the client of client/src/lib.rs, and the turns of its requests.
use mathlib.Core.Bool.{true≢false}
use mathlib.Core.Option.{some-injective}
use samsung_nasa.Base.{
  ℕ, ◌<◌, ◌≡◌, ◌≢◌, refl, sym, ap, ◌∙◌, subst, arith, ◌==◌, ==_iff, ==_false, Bool-cases,
  if◌then◌else◌, none, some, ok, ◌⊎◌, inl, inr,
}
use samsung_nasa.Packet.Address.{Address}
use samsung_nasa.Packet.Types.{Packet}
use samsung_nasa.Client.Reader.{Request, wait_for}
use samsung_nasa.Client.Exchange.{writing, finished, Flight, Flights, set, World, start}

-- A reply for a packet: it has its number and is addressed to the client.
abbrev pub Answers : Address → Packet → Packet → Type 0
Answers address sent reply =
    (reply.packet_number ≡ sent.packet_number) × (reply.destination ≡ address)

abbrev pub FlightOk : Address → Flight → Type 0
FlightOk address f =
    ((q : Packet) → f.reply ≡ some q → Answers address f.packet q)
    × ((q : Packet) → f.status ≡ finished (ok q) → f.reply ≡ some q)

-- Each task has its own reply, each channel in the map is one of a task that has none yet and that
-- sends under this number, and the tasks are numbered in the order of their start.
abbrev pub Good : World → Type 0
Good w =
    ((r : Request) (f : Flight) → w.flights r ≡ some f → FlightOk w.shared.address f)
    × ((n : ℕ) (r : Request)
        → w.shared.waiting n ≡ some r
        → (f : Flight) × (w.flights r ≡ some f) × (f.packet.packet_number ≡ n) × (f.reply ≡ none))
    × ((r : Request) (f : Flight) → w.flights r ≡ some f → r < w.started)

pub set_same : (r : Request) (f : Flight) (flights : Flights) → set r f flights r ≡ some f
set_same r f flights = ap (λ b. if b then some f else flights r) ((==_iff r r).1 refl)

pub set_other :
    (r k : Request) (f : Flight) (flights : Flights) → k ≢ r → set r f flights k ≡ flights k
set_other r k f flights h = ap (λ b. if b then some f else flights k) (==_false k r h)

pub set-cases :
    (r k : Request) (f g : Flight) (flights : Flights)
    → set r f flights k ≡ some g
    → ((k ≡ r) × (f ≡ g)) ⊎ ((k ≢ r) × (flights k ≡ some g))
set-cases r k f g flights h = elim (Bool-cases (k == r)) [
  | inl e ↦
      let same : k ≡ r = (==_iff k r).0 e in
      inl (same, some-injective f g (sym (ap (λ b. if b then some f else flights k) e) ∙ h))
  | inr e ↦ inr (
    (λ same. true≢false (sym ((==_iff k r).1 same) ∙ e)),
    sym (ap (λ b. if b then some f else flights k) e) ∙ h,
  )
]

-- A turn of a task that keeps the number of its packet and what its channel holds.
pub Good-set :
    (w : World) (r : Request) (f g : Flight)
    → w.flights r ≡ some f
    → g.packet.packet_number ≡ f.packet.packet_number
    → g.reply ≡ f.reply
    → ((q : Packet) → g.status ≡ finished (ok q) → g.reply ≡ some q)
    → Good w
    → Good (record w { flights = set r g w.flights })
Good-set w r f g at number reply done (flights, waits, fresh) = (
  λ k x e. elim (set-cases r k g x w.flights e) [
    | inl (_, same) ↦
        subst (FlightOk w.shared.address) same (
          (λ q e'. let (a, b) = (flights r f at).0 q (sym reply ∙ e') in (a ∙ sym number, b)),
          done,
        )
    | inr (_, e') ↦ flights k x e'
  ],
  λ n k e.
      let (x, at', num, none_yet) = waits n k e in
      elim (Bool-cases (k == r)) [
        | inl b ↦
            let same : k ≡ r = (==_iff k r).0 b in
            let same_flight : f ≡ x = some-injective f x (sym at ∙ ap w.flights (sym same) ∙ at') in
            (
              g,
              ap (set r g w.flights) same ∙ set_same r g w.flights,
              number ∙ ap (λ (y : Flight). y.packet.packet_number) same_flight ∙ num,
              reply ∙ ap (λ (y : Flight). y.reply) same_flight ∙ none_yet,
            )
        | inr b ↦ (
          x,
          set_other r k g w.flights (λ same. true≢false (sym ((==_iff k r).1 same) ∙ b)) ∙ at',
          num,
          none_yet,
        )
      ],
  λ k x e. elim (set-cases r k g x w.flights e) [
    | inl (same, _) ↦ subst (λ j. j < w.started) (sym same) (fresh r f at)
    | inr (_, e') ↦ fresh k x e'
  ],
)

pub Good-start : (p : Packet) (w : World) → Good w → Good (start p w)
unfolding start wait_for
Good-start p w (flights, waits, fresh) =
    let new : Flight = record { packet = p; status = writing; reply = none } in
    (
      λ k x e. elim (set-cases w.started k new x w.flights e) [
        | inl (_, same) ↦
            subst (FlightOk w.shared.address) same
              ((λ q e'. absurd (ground (arith, e'))), (λ q e'. absurd (ground (arith, e'))))
        | inr (_, e') ↦ flights k x e'
      ],
      λ n k e. elim (Bool-cases (n == p.packet_number)) [
        | inl b ↦
            let same : w.started ≡ k =
              some-injective _ _
                (sym (ap (λ c. if c then some w.started else w.shared.waiting n) b) ∙ e) in
            (
              new,
              ap (set w.started new w.flights) (sym same) ∙ set_same w.started new w.flights,
              sym ((==_iff n p.packet_number).0 b),
              refl,
            )
        | inr b ↦
            let (x, at, num, none_yet) =
              waits n k (sym (ap (λ c. if c then some w.started else w.shared.waiting n) b) ∙ e) in
            (
              x,
              set_other w.started k new w.flights (λ same. omega (arith, same, fresh k x at)) ∙ at,
              num,
              none_yet,
            )
      ],
      λ k x e. elim (set-cases w.started k new x w.flights e) [
        | inl (same, _) ↦ omega (arith, same)
        | inr (_, e') ↦ omega (arith, fresh k x e')
      ],
    )
