-- ===== src/Base/Outcomes.antt =====
-- What a fallible Rust function does: it returns `Ok`, returns `Err`, or panics.
use mathlib.Core.Path.{◌≡◌, refl, ap}
use native.Mathlib.Omega.{arith}

pub data Result {ℓ} (E : Type 0) (A : Type ℓ) : Type ℓ where
  ok : A → Result E A
  err : E → Result E A
  panic : Result E A

-- The `?` operator.
infixl 5 ◌>>=◌
abbrev pub ◌>>=◌ {ℓ κ} :
    {E : Type 0} {A : Type ℓ} {B : Type κ} → Result E A → (A → Result E B) → Result E B
ok a >>= f = f a
err e >>= f = err e
panic >>= f = panic

-- `Result::map_err`.
abbrev pub map_err {ℓ} : {E F : Type 0} {A : Type ℓ} → (E → F) → Result E A → Result F A
map_err f (ok a) = ok a
map_err f (err e) = err (f e)
map_err f panic = panic

pub ok-injective {ℓ} : {E : Type 0} {A : Type ℓ} {a b : A} → Path (Result E A) (ok a) (ok b) → a ≡ b
ok-injective {a} h = ap (λ r. elim r [ ok x ↦ x | err e ↦ a | panic ↦ a ]) h

pub err-ok {ℓ} : {E : Type 0} {A : Type ℓ} {e : E} {b : A} → ¬ Path (Result E A) (err e) (ok b)
err-ok h = ground arith

pub panic-ok {ℓ} : {E : Type 0} {A : Type ℓ} {b : A} → ¬ Path (Result E A) panic (ok b)
panic-ok h = ground arith

-- What returned `Ok` has passed every `?`.
pub bind-inv {ℓ κ} :
    {E : Type 0} {A : Type ℓ} {B : Type κ} (m : Result E A) (f : A → Result E B) (b : B)
    → (m >>= f) ≡ ok b
    → (a : A) × (m ≡ ok a) × (f a ≡ ok b)
bind-inv (ok a) f b h = (a, refl, h)
bind-inv (err e) f b h = absurd (err-ok h)
bind-inv panic f b h = absurd (panic-ok h)

-- What follows a `?`.
pub after_ok {ℓ κ} :
    {E : Type 0} {A : Type ℓ} {B : Type κ} {m : Result E A} (f : A → Result E B) {a : A}
    → m ≡ ok a
    → (m >>= f) ≡ f a
after_ok f e = ap (λ r. r >>= f) e

pub after_err {ℓ κ} :
    {E : Type 0} {A : Type ℓ} {B : Type κ} {m : Result E A} (f : A → Result E B) {e : E}
    → m ≡ err e
    → (m >>= f) ≡ err e
after_err f e = ap (λ r. r >>= f) e
