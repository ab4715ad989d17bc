-- ===== src/Busd/Vector.antt =====
-- `Vec::swap_remove`, as busd/src/main.rs uses it.
use mathlib.Core.List.{Perm}
use mathlib.Core.List.Perm
use samsung_nasa.Base.{
  ℕ, zero, suc, ◌≡◌, refl, List, [], ◌∷◌, ◌++◌, length, Result, ok, panic, ◌>>=◌, after_ok,
}

module _ {A : Type 0} where
  abbrev pub below : A → List A → List A
  below x [] = x ∷ []
  below x (z ∷ ys) = z ∷ x ∷ ys

  -- The last element in front of the others.
  abbrev pub to_front : List A → List A
  to_front [] = []
  to_front (x ∷ xs) = below x (to_front xs)

  -- The element at the index is taken out and the last one put there; it panics out of range.
  unfoldable pub swap_remove : {E : Type 0} → ℕ → List A → Result E (List A)
  swap_remove idx [] = panic
  swap_remove zero (x ∷ xs) = ok (to_front xs)
  swap_remove (suc idx) (x ∷ xs) = swap_remove idx xs >>= λ rest. ok (x ∷ rest)

  below-perm : (x : A) (ys : List A) → Perm (below x ys) (x ∷ ys)
  below-perm x [] = Perm.refl _
  below-perm x (z ∷ ys) = Perm.swap _ _ _

  pub to_front-perm : (xs : List A) → Perm (to_front xs) xs
  to_front-perm [] = Perm.refl _
  to_front-perm (x ∷ xs) = Perm.trans (below-perm x (to_front xs)) (Perm.cons x (to_front-perm xs))

  pub swap_remove-middle :
      {E : Type 0} (pre : List A) (x : A) (xs : List A)
      → swap_remove {E = E} (length pre) (pre ++ (x ∷ xs)) ≡ ok (pre ++ to_front xs)
  unfolding swap_remove
  swap_remove-middle [] x xs = refl
  swap_remove-middle (y ∷ ys) x xs = after_ok (λ rest. ok (y ∷ rest)) (swap_remove-middle ys x xs)
