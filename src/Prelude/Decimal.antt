-- ===== src/Prelude/Decimal.antt =====
-- `%d` of a number that is not negative.
use cube.Prelude.{
  ℕ, zero, suc, ◌+◌, ◌/◌, ◌%◌, ◌≤◌, ◌<◌, ◌≡◌, refl, [], ◌∷◌, arith, length, All, ltb, Str, text,
  if◌then◌else◌,
}

-- The digits of `n`, most significant first, put before `acc`. The fuel bounds their number.
unfoldable pub digits : ℕ → ℕ → Str → Str
digits zero n acc = acc
digits (suc fuel) n acc =
    let more = digits fuel (n / 10) ((48 + n % 10) ∷ acc) in
    if ltb n 10 then (48 + n) ∷ acc else more

-- A number has no more digits than its value plus one.
unfoldable pub decimal : ℕ → Str
unfolding digits
decimal n = digits (suc n) n []

digits-length : (fuel n : ℕ) (acc : Str) → length (digits fuel n acc) ≤ fuel + length acc
unfolding digits
digits-length zero n acc = omega arith
digits-length (suc fuel) n acc = ground (arith, digits-length fuel (n / 10) ((48 + n % 10) ∷ acc))

digits_small : (fuel n : ℕ) (acc : Str) → n < 10 → length (digits fuel n acc) ≤ suc (length acc)
unfolding digits
digits_small zero n acc h = omega arith
digits_small (suc fuel) n acc h = ground arith

digits_medium :
    (fuel n : ℕ) (acc : Str) → n < 100 → length (digits fuel n acc) ≤ suc (suc (length acc))
unfolding digits
digits_medium zero n acc h = omega arith
digits_medium (suc fuel) n acc h = ground (arith, digits_small fuel (n / 10) ((48 + n % 10) ∷ acc))

digits_large :
    (fuel n : ℕ) (acc : Str) → n < 1000 → length (digits fuel n acc) ≤ suc (suc (suc (length acc)))
unfolding digits
digits_large zero n acc h = omega arith
digits_large (suc fuel) n acc h = ground (arith, digits_medium fuel (n / 10) ((48 + n % 10) ∷ acc))

pub decimal-length : (n : ℕ) → n < 1000 → length (decimal n) ≤ 3
unfolding decimal
decimal-length n h = digits_large (suc n) n [] h

-- Every character is a digit.
digits-All :
    (fuel n : ℕ) (acc : Str)
    → All (λ c. (48 ≤ c) × (c ≤ 57)) acc
    → All (λ c. (48 ≤ c) × (c ≤ 57)) (digits fuel n acc)
unfolding digits
digits-All zero n acc a = a
digits-All (suc fuel) n acc a = ground (arith, digits-All fuel (n / 10) ((48 + n % 10) ∷ acc))

pub decimal-All : (n : ℕ) → All (λ c. (48 ≤ c) × (c ≤ 57)) (decimal n)
unfolding decimal
decimal-All n = digits-All (suc n) n [] tt

decimal_360 : decimal 360 ≡ text "360"
unfolding decimal
decimal_360 = refl
