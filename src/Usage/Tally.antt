-- ===== src/Usage/Tally.antt =====
-- The tokens of one event and where they are added (internal/usage/codex.go).
use cube.Prelude.{
  ℕ, ◌+◌, ◌-◌, ◌*◌, ◌/◌, ◌%◌, ◌^◌, ltb, leb, ◌==◌, Bool, true, not, ◌&&◌, ◌||◌, Option, none, some,
  List, if◌then◌else◌, Str, text, is_empty,
}
use cube.Prelude.Dict.{Dict, lookup, insert}
use cube.Types.{Time, is_zero, zero_time, after, second, Tokens, ModelUsage}
use cube.Usage.Json.{Fields, number_at, first_number_at, normalize_model}

-- The result of a scan. `detail` says what is wrong with it.
pub data Detail : Type 0 where
  no_detail : Detail
  no_session_files : Detail
  no_token_count_events : Detail
  incomplete_scan_of : Str → Detail

pub record Summary : Type 0 where
  pub partial : Bool
  pub detail : Detail
  pub files_scanned : ℕ
  pub events : ℕ
  pub today : Tokens
  pub seven_days : Tokens
  pub all_time : Tokens
  pub latest_at : Option Time
  pub latest_model : Str
  pub models : List ModelUsage
  pub by_model : Dict ModelUsage

pub record CumulativeTokens : Type 0 where
  pub input : ℕ
  pub cached_input : ℕ
  pub output : ℕ

-- int64 addition, subtraction and order on bit patterns.
infixl 40 ◌+₆₄◌ ◌-₆₄◌
abbrev pub ◌+₆₄◌ : ℕ → ℕ → ℕ
a +₆₄ b = (a + b) % 2 ^ 64

abbrev pub ◌-₆₄◌ : ℕ → ℕ → ℕ
a -₆₄ b = (a + (2 ^ 64 - b)) % 2 ^ 64

-- `a > b`
abbrev pub greater : ℕ → ℕ → Bool
greater a b = ltb (b +₆₄ 2 ^ 63) (a +₆₄ 2 ^ 63)

unfoldable pub max_int64 : ℕ → ℕ → ℕ
max_int64 a b = if greater a b then a else b

unfoldable pub parse_tokens : Fields → CumulativeTokens
parse_tokens value = record {
  input = number_at value (text "input_tokens");
  cached_input =
      first_number_at value (text "cached_input_tokens") (text "cache_read_input_tokens");
  output = number_at value (text "output_tokens");
}

unfoldable pub add_tokens : Tokens → CumulativeTokens → Tokens
add_tokens target delta = record {
  input = target.input +₆₄ delta.input;
  cached_input = target.cached_input +₆₄ delta.cached_input;
  output = target.output +₆₄ delta.output;
  total = target.total +₆₄ (delta.input +₆₄ delta.output);
}

abbrev pub no_tokens : Tokens
no_tokens = record { input = 0; cached_input = 0; output = 0; total = 0 }

-- The begin of the day and of the seven days.
pub record Starts : Type 0 where
  pub today : Time
  pub seven_days : Time

-- `!t.IsZero() && (t.After(start) || t.Equal(start))`
abbrev pub since : Time → Time → Bool
since start t = not (is_zero t) && (after t start || t == start)

-- `parseTime(LatestAt)`: a text of a year that has not four digits does not parse.
abbrev reparsed : Time → Time
reparsed t = if leb 172_800_000_000_000 t && ltb t 315_569_692_800_000_000_000 then t else zero_time

-- `LatestAt == "" || eventTime.After(parseTime(LatestAt))`
unfoldable pub is_newer : Time → Option Time → Bool
is_newer t none = true
is_newer t (some latest) = after t (reparsed latest)

-- `eventTime.Format(time.RFC3339)` drops the fraction.
abbrev pub formatted : Time → Time
formatted t = t / second * second

abbrev pub new_bucket : Str → ModelUsage
new_bucket model = record {
  model = model;
  today = no_tokens;
  seven_days = no_tokens;
  all_time = no_tokens;
  latest_at = none;
}

abbrev pub bucket_or_new : Str → Option ModelUsage → ModelUsage
bucket_or_new model none = new_bucket model
bucket_or_new model (some bucket) = bucket

unfoldable pub add_if : Bool → Tokens → CumulativeTokens → Tokens
unfolding add_tokens
add_if b target delta = if b then add_tokens target delta else target

unfoldable pub add_to_bucket : ModelUsage → CumulativeTokens → Time → Starts → ModelUsage
unfolding add_tokens add_if
add_to_bucket bucket delta t starts = record bucket {
  all_time = add_tokens bucket.all_time delta;
  seven_days = add_if (since starts.seven_days t) bucket.seven_days delta;
  today = add_if (since starts.today t) bucket.today delta;
  latest_at =
      if not (is_zero t) && is_newer t bucket.latest_at
      then some (formatted t)
      else bucket.latest_at;
}

abbrev pub or_unknown : Str → Str
or_unknown model = if is_empty model then text "unknown" else model

unfoldable pub add_model_tokens :
    Dict ModelUsage → Str → CumulativeTokens → Time → Starts → Dict ModelUsage
add_model_tokens models model delta t starts =
    let model = or_unknown (normalize_model model) in
    insert model (add_to_bucket (bucket_or_new model (lookup model models)) delta t starts) models

-- The end of `parseTokenEvent`, from the test whether there is anything to add.
unfoldable pub add_event : Summary → Str → CumulativeTokens → Time → Starts → Summary
unfolding add_tokens add_if
add_event result model delta t starts =
    let newer = not (is_zero t) && is_newer t result.latest_at in
    record result {
      all_time = add_tokens result.all_time delta;
      seven_days = add_if (since starts.seven_days t) result.seven_days delta;
      today = add_if (since starts.today t) result.today delta;
      latest_at = if newer then some (formatted t) else result.latest_at;
      latest_model = if newer then model else result.latest_model;
      by_model = add_model_tokens result.by_model model delta t starts;
      events = result.events + 1;
    }

abbrev pub is_nothing : CumulativeTokens → Bool
is_nothing delta = delta.input == 0 && delta.cached_input == 0 && delta.output == 0

abbrev pub clamp_cached : CumulativeTokens → CumulativeTokens
clamp_cached delta = record delta {
  cached_input = if greater delta.cached_input delta.input then delta.input else delta.cached_input;
}

abbrev pub difference : CumulativeTokens → Option CumulativeTokens → CumulativeTokens
difference current none = current
difference current (some prev) = record {
  input = max_int64 0 (current.input -₆₄ prev.input);
  cached_input = max_int64 0 (current.cached_input -₆₄ prev.cached_input);
  output = max_int64 0 (current.output -₆₄ prev.output);
}

pub record FileState : Type 0 where
  pub current_model : Str
  pub prev_total : Option CumulativeTokens

-- What the event adds, and the new total: from the total where there is one, else from the last use.
unfoldable pub token_delta :
    Option Fields
    → Option Fields
    → Option CumulativeTokens
    → Option (CumulativeTokens × Option CumulativeTokens)
token_delta (some total) last prev =
    let current = parse_tokens total in some (difference current prev, some current)
token_delta none (some last) prev = some (parse_tokens last, prev)
token_delta none none prev = none

-- The first of the models that is given, else the one before.
unfoldable pub model_of : Option Str → Option Str → Option Str → Str → Str
model_of (some m) b c model = normalize_model m
model_of none (some m) c model = normalize_model m
model_of none none (some m) model = normalize_model m
model_of none none none model = model
