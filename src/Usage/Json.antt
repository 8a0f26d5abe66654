-- ===== src/Usage/Json.antt =====
-- JSON objects as the scan reads them, with the readers of internal/usage/codex.go.
use cube.Prelude.{
  ℕ, suc, ◌+◌, ◌*◌, ◌/◌, ◌^◌, ltb, ◌==◌, Bool, not, ◌&&◌, Option, none, some, [], ◌∷◌,
  if◌then◌else◌, Str, str_eq, is_blank, trim_space, to_lower, ℤ, pos,
}
use cube.Types.{Time, zero_time, second}
use cube.Rfc3339.{parse_rfc3339}

-- A number is exact here, in whole billionths; a float64 keeps some sixteen digits of it. An object has
-- each key once.
mutual
  pub data Json : Type 0 where
    null : Json
    bool : Bool → Json
    number : ℤ → Json
    string : Str → Json
    array : Elements → Json
    object : Fields → Json

  pub data Elements : Type 0 where
    no_elements : Elements
    element : Json → Elements → Elements

  pub data Fields : Type 0 where
    no_fields : Fields
    field : Str → Json → Fields → Fields

-- `value[key]`; null for a missing key, which no reader tells apart.
unfoldable pub at : Fields → Str → Json
at no_fields key = Json.null
at (Fields.field name value fields) key = if str_eq name key then value else at fields key

-- `value.(map[string]any)`
abbrev pub as_object : Json → Option Fields
as_object (Json.object fields) = some fields
as_object _ = none

-- `value.(string)`, with "" where it fails.
abbrev pub as_string : Json → Str
as_string (Json.string s) = s
as_string _ = []

-- `stringAt`
unfoldable pub string_at : Fields → Str → Option Str
string_at value key = let s = as_string (at value key) in if is_blank s then none else some s

-- `int64(raw)` for a positive float64: 2 ^ 63 and more give the least int64, as on amd64.
abbrev to_int64 : ℕ → ℕ
to_int64 nanos = let n = nanos / 1_000_000_000 in if ltb n (2 ^ 63) then n else 2 ^ 63

abbrev number_of : Json → ℕ
number_of (Json.number (pos nanos)) = to_int64 nanos
number_of _ = 0

-- `numberAt`: after json.Unmarshal every number is a float64.
unfoldable pub number_at : Fields → Str → ℕ
number_at value key = number_of (at value key)

-- `n > 0` for an int64.
abbrev pub is_positive : ℕ → Bool
is_positive n = not (n == 0) && ltb n (2 ^ 63)

-- `firstNumberAt`, for two keys.
unfoldable pub first_number_at : Fields → Str → Str → ℕ
first_number_at value first second =
    let n = number_at value first in
    let m = number_at value second in if is_positive n then n else if is_positive m then m else 0

abbrev float_of : Json → Option ℤ
float_of (Json.number x) = some x
float_of _ = none

-- `floatNumberAt`, in billionths.
unfoldable pub float_number_at : Fields → Str → Option ℤ
float_number_at value key = float_of (at value key)

abbrev epoch : Time
epoch = 62_167_392_000_000_000_000

-- `unixSeconds` and `time.Unix`, for a positive number of seconds. Where the seconds leave the range of
-- a Time they wrap round to one before all others.
unfoldable pub unix_seconds : ℕ → Time
unix_seconds nanos =
    if ltb (nanos / 1_000_000_000 + 62_135_596_800) (2 ^ 63) then epoch + nanos else 0

-- `parseTime`
unfoldable pub parse_time : Json → Time
parse_time (Json.string s) = parse_rfc3339 (trim_space s)
parse_time (Json.number (pos (suc nanos))) = unix_seconds (suc nanos)
parse_time _ = zero_time

-- `unixSecondsAt`
unfoldable pub unix_seconds_at : Fields → Str → Time
unix_seconds_at value key =
    let n = number_at value key in if is_positive n then unix_seconds (n * second) else zero_time

-- `strings.LastIndex(name, "/")` and the rest behind it: all of the text without a slash.
unfoldable pub after_last : ℕ → Str → Str → Str
after_last sep found [] = found
after_last sep found (c ∷ s) = if c == sep then after_last sep s s else after_last sep found s

-- `normalizeModel`
unfoldable pub normalize_model : Str → Str
normalize_model raw = let name = to_lower (trim_space raw) in after_last b'/' name name
