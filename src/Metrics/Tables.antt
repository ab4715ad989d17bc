-- ===== src/Metrics/Tables.antt =====
-- Hash maps, as metrics/src/main.rs uses them, by their entries.
use samsung_nasa.Base.Perms.{flat}
use samsung_nasa.Base.{
  arith, subst, ◌++◌, append-nil, ◌≡◌, refl, sym, ap, ◌∙◌, Bool, true, false, if◌then◌else◌, List,
  [], ◌∷◌, Option, none, some, ◌↔◌,
}

abbrev pub Table : Type 0 → Type 0 → Type 0
Table K V = List (K × V)

module _ {K V : Type 0} (eq : K → K → Bool) where
  unfoldable pub lookup : K → Table K V → Option V
  lookup key [] = none
  lookup key ((k, v) ∷ rest) = if eq k key then some v else lookup key rest

  -- The value of a key that is there is replaced.
  unfoldable pub insert : K → V → Table K V → Table K V
  insert key value [] = (key, value) ∷ []
  insert key value ((k, v) ∷ rest) =
      if eq k key then (key, value) ∷ rest else (k, v) ∷ insert key value rest

  -- No key is there twice.
  abbrev pub IsMap : Table K V → Type 0
  IsMap [] = Unit {0}
  IsMap ((k, v) ∷ rest) = (lookup k rest ≡ none) × IsMap rest

module _ {K : Type 0} (eq : K → K → Bool) (law : (a b : K) → (eq a b ≡ true) ↔ (a ≡ b)) where
  eq_flipped : (k j : K) → eq k j ≡ false → eq j k ≡ false
  eq_flipped k j e = ground (arith, e, law k j, law j k)

  pub lookup-insert :
      {V : Type 0} (key j : K) (value : V) (t : Table K V)
      → lookup eq j (insert eq key value t) ≡ (if eq key j then some value else lookup eq j t)
  unfolding lookup insert
  lookup-insert key j value [] = refl
  lookup-insert key j value ((k, v) ∷ rest) =
      ground (arith, law k key, law k j, law key j, lookup-insert key j value rest)

  pub insert-IsMap :
      {V : Type 0} (key : K) (value : V) (t : Table K V)
      → IsMap eq t
      → IsMap eq (insert eq key value t)
  unfolding lookup insert
  insert-IsMap key value [] h = (refl, tt)
  insert-IsMap key value ((k, v) ∷ rest) (fresh, h) =
      by_test (eq k key) refl (insert-IsMap key value rest h)
    where
      by_test :
          (b : Bool)
          → eq k key ≡ b
          → IsMap eq (insert eq key value rest)
          → IsMap eq (if b then (key, value) ∷ rest else (k, v) ∷ insert eq key value rest)
      by_test true e _ = (subst (λ j. lookup eq j rest ≡ none) ((law k key).0 e) fresh, h)
      by_test false e inserted = (
        lookup-insert key k value rest
            ∙ ap (λ b. if b then some value else lookup eq k rest) (eq_flipped k key e)
            ∙ fresh,
        inserted,
      )

  -- In a map, a walk over the entries of one key finds what the look-up finds.
  pub flat-lookup :
      {V B : Type 0} (f : V → List B) (key : K) (t : Table K V)
      → IsMap eq t
      → flat (λ (e : K × V). if eq e.0 key then f e.1 else []) t
        ≡ elim (lookup eq key t) [ none ↦ [] | some v ↦ f v ]
  unfolding lookup
  flat-lookup f key [] h = refl
  flat-lookup f key ((k, v) ∷ rest) (fresh, h) = by_test (eq k key) refl (flat-lookup f key rest h)
    where
      by_test :
          (b : Bool)
          → eq k key ≡ b
          → flat (λ e. if eq e.0 key then f e.1 else []) rest
            ≡ elim (lookup eq key rest) [ none ↦ [] | some w ↦ f w ]
          → (if b then f v else []) ++ flat (λ e. if eq e.0 key then f e.1 else []) rest
            ≡ elim (if b then some v else lookup eq key rest) [ none ↦ [] | some w ↦ f w ]
      by_test true e later =
          ap (λ zs. f v ++ zs)
            (later
              ∙ ap (λ o. elim o [ none ↦ [] | some w ↦ f w ])
                  (ap (λ j. lookup eq j rest) (sym ((law k key).0 e)) ∙ fresh))
          ∙ append-nil (f v)
      by_test false e later = later
