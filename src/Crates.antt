-- ===== src/Crates.antt =====
-- What the program takes from the crates `heapless`, `ux` and `bytes`, which are not part
-- of the repository: the calls that it makes, with the documented behaviour that it relies on. A
-- `heapless::Vec<T, N>` is seen as the list of its elements, and a `ux` integer as the number
-- that it holds, and a `BytesMut` as its bytes; `none` is the `Err` of a full vector.
use samsung_nasa.Base.{
  ℕ, ◌+◌, ◌%◌, ◌^◌, ◌<◌, ◌≡◌, refl, Option, none, some, List, [], ◌∷◌, ◌++◌, length, replicate,
  take, ltb, leb, if◌then◌else◌,
}

pub record Crates : Type 1 where
  -- `Vec::<T, N>::push`, which hands the element back where the vector is full
  pub push : {A : Type 0} → ℕ → List A → A → Option (List A)
  -- `Vec::<T, N>::from_slice`
  pub from_slice : {A : Type 0} → ℕ → List A → Option (List A)
  -- `uN::new`, with the number of bits
  pub uint : ℕ → ℕ → ℕ
  -- `uN::wrapping_add`, with the number of bits
  pub wrapping_add : ℕ → ℕ → ℕ → ℕ
  -- `BytesMut::zeroed` and `BytesMut::truncate`
  pub zeroed : ℕ → List ℕ
  pub truncate : ℕ → List ℕ → List ℕ
  pub push_lem :
      {A : Type 0} (cap : ℕ) (xs : List A) (x : A)
      → push cap xs x ≡ (if ltb (length xs) cap then some (xs ++ (x ∷ [])) else none)
  pub from_slice_lem :
      {A : Type 0} (cap : ℕ) (xs : List A)
      → from_slice cap xs ≡ (if leb (length xs) cap then some xs else none)
  pub uint_lem : (bits n : ℕ) → n < 2 ^ bits → uint bits n ≡ n
  pub wrapping_add_lem :
      (bits a b : ℕ) → a < 2 ^ bits → b < 2 ^ bits → wrapping_add bits a b ≡ (a + b) % 2 ^ bits
  pub zeroed_lem : (n : ℕ) → zeroed n ≡ replicate n 0
  pub truncate_lem : (n : ℕ) (xs : List ℕ) → truncate n xs ≡ take n xs

-- The hypotheses can be met: vectors that are lists, and integers that are numbers.
abbrev pub plain_push : {A : Type 0} → ℕ → List A → A → Option (List A)
plain_push cap xs x = if ltb (length xs) cap then some (xs ++ (x ∷ [])) else none

abbrev pub plain_from_slice : {A : Type 0} → ℕ → List A → Option (List A)
plain_from_slice cap xs = if leb (length xs) cap then some xs else none

abbrev pub plain : Crates
plain = record {
  push = plain_push;
  from_slice = plain_from_slice;
  uint = λ bits n. n;
  wrapping_add = λ bits a b. (a + b) % 2 ^ bits;
  zeroed = λ n. replicate n 0;
  truncate = λ n xs. take n xs;
  push_lem = λ cap xs x. refl;
  from_slice_lem = λ cap xs. refl;
  uint_lem = λ bits n h. refl;
  wrapping_add_lem = λ bits a b ha hb. refl;
  zeroed_lem = λ n. refl;
  truncate_lem = λ n xs. refl;
}
