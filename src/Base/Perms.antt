-- ===== src/Base/Perms.antt =====
-- Lists up to the order of their elements.
use mathlib.Core.Path.{◌≡◌, refl, sym, ap, ◌∙◌, subst}
use mathlib.Core.Logic.{∥∥₁_elim}
use native.Mathlib.Nat.{ℕ_set}
use mathlib.Core.List.{List, [], ◌∷◌, ◌++◌, append_assoc, Permᴰ, Perm-prop, perm_append_comm}
use mathlib.Core.List.{Perm}
use mathlib.Core.List.Perm
use native.Mathlib.Omega.{arith}
use samsung_nasa.Base.Lists.{length}

module _ {A : Type 0} where
  pub perm-eq : {xs ys : List A} → xs ≡ ys → Perm xs ys
  perm-eq {xs} e = subst (λ zs. Perm xs zs) e (Perm.refl xs)

  -- A reordering has as many elements.
  as_long : {l m : List A} → Permᴰ l m → length l ≡ length m
  as_long (Permᴰ.trans one two) = as_long one ∙ as_long two
  as_long (Permᴰ.swap e e') = refl
  as_long (Permᴰ.cons e rest) = omega (arith, as_long rest)
  as_long Permᴰ.nil = refl

  pub length-perm : {l m : List A} → Perm l m → length l ≡ length m
  length-perm {l} {m} h = ∥∥₁_elim h (ℕ_set (length l) (length m)) as_long

  pub append_swap : (xs ys zs : List A) → Perm (xs ++ (ys ++ zs)) (ys ++ (xs ++ zs))
  append_swap xs ys zs =
      Perm.trans (perm-eq (sym (append_assoc xs ys zs))) (
        Perm.trans (Perm.append_right zs (perm_append_comm xs ys))
          (perm-eq (append_assoc ys xs zs)))

module _ {A B : Type 0} (f : A → List B) where
  -- `flat_map`.
  abbrev pub flat : List A → List B
  flat [] = []
  flat (x ∷ xs) = f x ++ flat xs

  pub flat-append : (xs ys : List A) → flat (xs ++ ys) ≡ flat xs ++ flat ys
  flat-append [] ys = refl
  flat-append (x ∷ xs) ys =
      ap (λ zs. f x ++ zs) (flat-append xs ys) ∙ sym (append_assoc (f x) (flat xs) (flat ys))

  flat-Permᴰ : {xs ys : List A} → Permᴰ xs ys → Perm (flat xs) (flat ys)
  flat-Permᴰ Permᴰ.nil = Perm.refl []
  flat-Permᴰ (Permᴰ.cons {a} {b} e p) = Perm.append (perm-eq (ap f e)) (flat-Permᴰ p)
  flat-Permᴰ (Permᴰ.swap {a} {b} {a'} {b'} {l} e e') =
      Perm.trans (append_swap (f a) (f b) (flat l))
        (Perm.append (perm-eq (ap f e')) (Perm.append_right (flat l) (perm-eq (ap f e))))
  flat-Permᴰ (Permᴰ.trans p q) = Perm.trans (flat-Permᴰ p) (flat-Permᴰ q)

  pub flat-perm : {xs ys : List A} → Perm xs ys → Perm (flat xs) (flat ys)
  flat-perm p = ∥∥₁_elim p Perm-prop flat-Permᴰ

module _ {A B C : Type 0} (f : B → List C) (g : A → List B) where
  pub flat-flat : (xs : List A) → flat f (flat g xs) ≡ flat (λ x. flat f (g x)) xs
  flat-flat [] = refl
  flat-flat (x ∷ xs) =
      flat-append f (g x) (flat g xs) ∙ ap (λ zs. flat f (g x) ++ zs) (flat-flat xs)

module _ {A B : Type 0} (f g : A → List B) (same : (x : A) → f x ≡ g x) where
  pub flat-same : (xs : List A) → flat f xs ≡ flat g xs
  flat-same [] = refl
  flat-same (x ∷ xs) = ap (λ ys. ys ++ flat f xs) (same x) ∙ ap (λ ys. g x ++ ys) (flat-same xs)
