-- ===== src/Usage/Limits.antt =====
-- The newest rate limits in the session logs (internal/usage/ratelimits.go).
use cube.Prelude.{
  Bool, true, false, not, ◌||◌, Option, none, some, List, [], ◌∷◌, if◌then◌else◌, Str, text, str_eq,
  is_empty, ℤ, pos,
}
use cube.Types.{Time, zero_time, is_zero, after}
use cube.Usage.Json.{Fields, at, as_object, as_string, float_number_at, unix_seconds_at, parse_time}
use cube.Usage.Scan.{LogFile, has_infix, scan_jsonl, collect_files}

-- Percentages are in billionths.
pub record RateLimits : Type 0 where
  pub five_hour_used_percent : ℤ
  pub five_hour_resets_at : Time
  pub seven_day_used_percent : ℤ
  pub seven_day_resets_at : Time
  pub reached_type : Str
  pub captured_at : Time
  pub found : Bool

abbrev pub no_limits : Time → RateLimits
no_limits captured_at = record {
  five_hour_used_percent = pos 0;
  five_hour_resets_at = zero_time;
  seven_day_used_percent = pos 0;
  seven_day_resets_at = zero_time;
  reached_type = [];
  captured_at = captured_at;
  found = false;
}

abbrev with_reached : Str → RateLimits → RateLimits
with_reached reached r =
    if is_empty reached then r else record r { reached_type = reached; found = true }

abbrev five_hour_percent : Option ℤ → RateLimits → RateLimits
five_hour_percent none r = r
five_hour_percent (some x) r = record r { five_hour_used_percent = x; found = true }

abbrev seven_day_percent : Option ℤ → RateLimits → RateLimits
seven_day_percent none r = r
seven_day_percent (some x) r = record r { seven_day_used_percent = x; found = true }

abbrev with_primary : Option Fields → RateLimits → RateLimits
with_primary none r = r
with_primary (some o) r = record (five_hour_percent (float_number_at o (text "used_percent")) r) {
  five_hour_resets_at = unix_seconds_at o (text "resets_at");
}

abbrev with_secondary : Option Fields → RateLimits → RateLimits
with_secondary none r = r
with_secondary (some o) r = record (seven_day_percent (float_number_at o (text "used_percent")) r) {
  seven_day_resets_at = unix_seconds_at o (text "resets_at");
}

-- The `rate_limits` of a token_count event.
unfoldable pub rate_limits_of : Fields → Option Fields
rate_limits_of value = elim (as_object (at value (text "payload"))) [
  | none ↦ none
  | some payload ↦
      if str_eq (as_string (at payload (text "type"))) (text "token_count")
      then as_object (at payload (text "rate_limits"))
      else none
]

abbrev pub if_found : RateLimits → Option RateLimits
if_found r = if r.found then some r else none

unfoldable pub parse_rate_limits_record : Fields → Option RateLimits
unfolding rate_limits_of
parse_rate_limits_record value = elim (rate_limits_of value) [
  | none ↦ none
  | some limits ↦ if_found (
      with_secondary (as_object (at limits (text "secondary"))) (
        with_primary (as_object (at limits (text "primary"))) (
          with_reached (as_string (at limits (text "rate_limit_reached_type")))
            (no_limits (parse_time (at value (text "timestamp")))))))
]

abbrev pub newer_of : Option RateLimits → RateLimits → RateLimits
newer_of none result = result
newer_of (some r) result =
    if not result.found || is_zero result.captured_at || after r.captured_at result.captured_at
    then r
    else result

-- The callback of `scanRateLimitsFile`.
unfoldable pub keep_newer : Fields → RateLimits → RateLimits
keep_newer value result = newer_of (parse_rate_limits_record value) result

unfoldable pub scan_rate_limits_file : (Str → Option Fields) → LogFile → RateLimits → RateLimits
scan_rate_limits_file decode file result =
    (scan_jsonl decode (λ line. has_infix line (text "rate_limits")) keep_newer file result).0

unfoldable pub scan_rate_limits : (Str → Option Fields) → List LogFile → RateLimits → RateLimits
scan_rate_limits decode [] result = result
scan_rate_limits decode (file ∷ files) result =
    scan_rate_limits decode files (scan_rate_limits_file decode file result)

unfoldable pub latest_rate_limits : (Str → Option Fields) → List LogFile → RateLimits
latest_rate_limits decode found =
    scan_rate_limits decode (collect_files found) (no_limits zero_time)
