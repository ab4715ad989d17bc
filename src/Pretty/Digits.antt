-- ===== src/Pretty/Digits.antt =====
-- The decimal text of a number in protocol/src/pretty.rs has room enough.
use samsung_nasa.Base.{
  ℕ, zero, suc, ◌+◌, ◌-◌, ◌*◌, ◌/◌, ◌%◌, ◌<◌, ◌≡◌, refl, ◌∙◌, arith, ltb, Bool, true, false,
  if◌then◌else◌, List, [], ◌∷◌, ◌++◌,
}
use samsung_nasa.Pretty.{digits, decimal}

-- The number that digits stand for, behind those that were read.
abbrev pub number_from : ℕ → List ℕ → ℕ
number_from n [] = n
number_from n (c ∷ cs) = number_from (n * 10 + (c - 48)) cs

number_from-append :
    (n : ℕ) (xs ys : List ℕ) → number_from n (xs ++ ys) ≡ number_from (number_from n xs) ys
number_from-append n [] ys = refl
number_from-append n (x ∷ xs) ys = number_from-append (n * 10 + (x - 48)) xs ys

-- The first number that has no room.
abbrev pub limit : ℕ → ℕ
limit zero = 1
limit (suc room) = 10 * limit room

last_digit :
    (n m : ℕ) (front : List ℕ)
    → number_from 0 front ≡ m
    → number_from 0 (front ++ ((48 + n % 10) ∷ [])) ≡ m * 10 + n % 10
last_digit n m front e = number_from-append 0 front ((48 + n % 10) ∷ []) ∙ omega (arith, e)

number_from-digits : (room n : ℕ) → n < limit room → number_from 0 (digits room n) ≡ n
unfolding digits
number_from-digits zero n h = omega (arith, h)
number_from-digits (suc room) n h =
    by_test (ltb n 10) refl (number_from-digits room (n / 10) (omega (arith, h)))
  where
    by_test :
        (b : Bool)
        → ltb n 10 ≡ b
        → number_from 0 (digits room (n / 10)) ≡ n / 10
        → number_from 0 ((if b then [] else digits room (n / 10)) ++ ((48 + n % 10) ∷ [])) ≡ n
    by_test true e later = last_digit n 0 [] refl ∙ ground (arith, e)
    by_test false e later = last_digit n (n / 10) (digits room (n / 10)) later ∙ omega arith

-- The text of a number below ten to the tenth, as every u32 is, reads as that number.
pub number_from-decimal : (n : ℕ) → n < 10000000000 → number_from 0 (decimal n) ≡ n
unfolding decimal
number_from-decimal n h = number_from-digits 10 n h
