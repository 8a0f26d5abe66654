-- ===== src/Rfc3339.antt =====
-- `parseRFC3339` of internal/manager/identity.go, with what time.Parse does for the layout
-- 2006-01-02T15:04:05Z07:00: an hour may have one digit, a fraction of the second may follow, and an
-- offset goes up to 24 hours and 60 minutes.
use cube.Prelude.{
  ℕ, zero, suc, ◌+◌, ◌-◌, ◌*◌, ◌/◌, ◌%◌, ◌^◌, ◌≡◌, refl, ◌==◌, ltb, leb, Bool, true, false, not,
  ◌&&◌, ◌||◌, Option, none, some, [], ◌∷◌, length, take, if◌then◌else◌, Str, text, is_blank,
  is_empty,
}
use cube.Types.{Time, zero_time, second}

infixl 5 ◌>>=◌
abbrev ◌>>=◌ {ℓ κ} : {A : Type ℓ} {B : Type κ} → Option A → (A → Option B) → Option B
none >>= f = none
some a >>= f = f a

require : Bool → Option (Unit {0})
require true = some tt
require false = none

infixl 5 ◌>>◌
abbrev ◌>>◌ {ℓ} : {B : Type ℓ} → Option (Unit {0}) → Option B → Option B
m >> k = m >>= λ _. k

is_digit : ℕ → Bool
is_digit c = leb b'0' c && leb c b'9'

-- One digit, or nothing.
digit : Str → Option (ℕ × Str)
digit [] = none
digit (c ∷ s) = if is_digit c then some (c - b'0', s) else none

two_digits : Str → Option (ℕ × Str)
two_digits s = do (a, s) ← digit s; (b, s) ← digit s; some (10 * a + b, s)

-- `getnum(value, false)`
one_or_two : ℕ × Str → ℕ × Str
one_or_two (a, s) = elim (digit s) [ none ↦ (a, s) | some (b, r) ↦ (10 * a + b, r) ]

four_digits : Str → Option (ℕ × Str)
four_digits s = do (a, s) ← two_digits s; (b, s) ← two_digits s; some (100 * a + b, s)

char : ℕ → Str → Option Str
char c [] = none
char c (d ∷ s) = if c == d then some s else none

span_digits : Str → Str × Str
span_digits [] = ([], [])
span_digits (c ∷ s) =
    let rest = span_digits s in if is_digit c then (c ∷ rest.0, rest.1) else ([], c ∷ s)

digits_value : ℕ → Str → ℕ
digits_value acc [] = acc
digits_value acc (c ∷ s) = digits_value (10 * acc + (c - b'0')) s

-- The nanoseconds of a fraction: its first nine digits count.
nanoseconds : Str → ℕ
nanoseconds ds = let ds = take 9 ds in digits_value 0 ds * 10 ^ (9 - length ds)

-- A point or comma with at least one digit behind it.
fraction : Str → ℕ × Str
fraction [] = (0, [])
fraction (c ∷ s) =
    let parts = span_digits s in
    if (c == b'.' || c == b',') && not (is_empty parts.0)
    then (nanoseconds parts.0, parts.1)
    else (0, c ∷ s)

is_leap : ℕ → Bool
is_leap y = y % 4 == 0 && (not (y % 100 == 0) || y % 400 == 0)

days_in : ℕ → ℕ → ℕ
days_in y m =
    if m == 2
    then (if is_leap y then 29 else 28)
    else if m == 4 || m == 6 || m == 9 || m == 11
    then 30
    else 31

days_before_month : ℕ → ℕ → ℕ
days_before_month y zero = 0
days_before_month y (suc zero) = 0
days_before_month y (suc (suc m)) = days_before_month y (suc m) + days_in y (suc m)

-- Of the years 0 to y - 1, of which 0 is a leap year.
days_before_year : ℕ → ℕ
days_before_year zero = 0
days_before_year (suc y) = 365 * suc y + (y / 4 - y / 100 + y / 400) + 1

-- Seconds east of UTC, by sign.
offset : Str → Option (Bool × ℕ × Str)
offset [] = none
offset (c ∷ s) = if c == b'Z' then some (true, 0, s) else do
  require (c == b'+' || c == b'-')
  (h, s) ← two_digits s
  s ← char b':' s
  (m, s) ← two_digits s
  require (leb h 24 && leb m 60)
  some (c == b'+', (h * 60 + m) * 60, s)

clock : Str → Option (ℕ × Str)
clock s = do
  first ← digit s
  let (h, s) = one_or_two first
  s ← char b':' s
  (m, s) ← two_digits s
  s ← char b':' s
  (sec, s) ← two_digits s
  require (ltb h 24 && ltb m 60 && ltb sec 60)
  some ((h * 60 + m) * 60 + sec, s)

date : Str → Option (ℕ × Str)
date s = do
  (y, s) ← four_digits s
  s ← char b'-' s
  (m, s) ← two_digits s
  s ← char b'-' s
  (d, s) ← two_digits s
  require (leb 1 m && leb m 12 && leb 1 d && leb d (days_in y m))
  some (days_before_year y + days_before_month y m + (d - 1), s)

time_parse : Str → Option Time
time_parse s = do
  (days, s) ← date s
  s ← char b'T' s
  (secs, s) ← clock s
  let (nanos, s) = fraction s
  (east, off, s) ← offset s
  require (is_empty s)
  let local = (2 + days) * 86_400 + secs
  some ((if east then local - off else local + off) * second + nanos)

time_or_zero : Option Time → Time
time_or_zero none = zero_time
time_or_zero (some t) = t

unfoldable pub parse_rfc3339 : Str → Time
unfolding time_parse time_or_zero date clock offset fraction span_digits nanoseconds digits_value
    is_leap days_in days_before_month days_before_year digit two_digits one_or_two four_digits char
    require is_digit is_empty
parse_rfc3339 value = if is_blank value then zero_time else time_or_zero (time_parse value)

epoch_parses : parse_rfc3339 (text "1970-01-01T00:00:00Z") ≡ 62_167_392_000_000_000_000
unfolding parse_rfc3339 is_blank
epoch_parses = refl

zero_parses : parse_rfc3339 (text "0001-01-01T05:30:00+05:30") ≡ zero_time
unfolding parse_rfc3339 is_blank
zero_parses = refl

leap_day_parses :
    parse_rfc3339 (text "2024-02-29T12:00:00.5-01:00")
    ≡ parse_rfc3339 (text "2024-02-29T13:00:00,5Z")
unfolding parse_rfc3339 is_blank
leap_day_parses = refl

garbage_is_zero : parse_rfc3339 (text "2023-02-29T12:00:00Z") ≡ zero_time
unfolding parse_rfc3339 is_blank
garbage_is_zero = refl
