-- ===== src/Base/Stateful.antt =====
-- A computation on a mutable value of type `S` that may fail: what a Rust method with `&mut self`
-- and a `Result` does. On a failure the value is not looked at again.
use mathlib.Core.Path.{◌≡◌, ap}
use samsung_nasa.Base.Outcomes.{Result, ok, err, panic}

abbrev pub Stateful : Type 0 → Type 0 → Type 0 → Type 0
Stateful S E A = S → Result E (A × S)

infixl 5 ◌>>=◌ ◌>>◌
abbrev pub ◌>>=◌ :
    {S E A B : Type 0} → (S → Result E (A × S)) → (A → S → Result E (B × S)) → S → Result E (B × S)
◌>>=◌ m f s = elim (m s) [ ok (a, s') ↦ f a s' | err e ↦ err e | panic ↦ panic ]

abbrev pub ◌>>◌ :
    {S E B : Type 0} → (S → Result E (Unit {0} × S)) → (S → Result E (B × S)) → S → Result E (B × S)
m >> k = m >>= λ _. k

abbrev pub pure : {S E A : Type 0} → A → S → Result E (A × S)
pure a s = ok (a, s)

-- A `?` on a result that leaves the value alone.
abbrev pub lift : {S E A : Type 0} → Result E A → S → Result E (A × S)
lift (ok a) s = ok (a, s)
lift (err e) s = err e
lift panic s = panic

abbrev pub fail : {S E A : Type 0} → E → S → Result E (A × S)
fail e s = err e

abbrev pub abort : {S E A : Type 0} → S → Result E (A × S)
abort s = panic

-- A step that succeeds hands its result and the state on.
pub bind-ok :
    {S E A B : Type 0} (m : S → Result E (A × S)) (f : A → S → Result E (B × S)) {s s' : S} {a : A}
    → m s ≡ ok (a, s')
    → (m >>= f) s ≡ f a s'
bind-ok m f e = rw (e, ◌>>=◌)

pub bind-err :
    {S E A B : Type 0} (m : S → Result E (A × S)) (f : A → S → Result E (B × S)) {s : S} {e : E}
    → m s ≡ err e
    → (m >>= f) s ≡ err e
bind-err m f h = rw (h, ◌>>=◌)

pub bind-panic :
    {S E A B : Type 0} (m : S → Result E (A × S)) (f : A → S → Result E (B × S)) {s : S}
    → m s ≡ panic
    → (m >>= f) s ≡ panic
bind-panic m f h = rw (h, ◌>>=◌)

pub lift-ok :
    {S E A B : Type 0} (r : Result E A) (f : A → S → Result E (B × S)) (s : S) {a : A}
    → r ≡ ok a
    → (lift r >>= f) s ≡ f a s
lift-ok r f s e = bind-ok (lift r) f (ap (λ r'. lift r' s) e)
