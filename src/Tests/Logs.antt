-- ===== src/Tests/Logs.antt =====
-- Examples of session logs: one file with two events.
use cube.Prelude.{◌≡◌, refl, Option, some, List, [], ◌∷◌, Str, text, ℤ, pos, false}
use cube.Usage.Json.{Json, Fields}
use cube.Usage.Scan.{LogFile, collect_files, summarize_codex_home}
use cube.Usage.Conserve.{Shares, summarize_codex_home-Shares}
use cube.Usage.Limits.{latest_rate_limits}
use cube.Usage.Newest.{IsNewest, records_in, latest_rate_limits-IsNewest}
use cube.Tests.Data.{noon}
use cube.Usage.Tally.{
  add_event, add_if, add_model_tokens, add_to_bucket, add_tokens, is_newer, max_int64, model_of,
  parse_tokens, token_delta,
}
use cube.Usage.Json.{
  after_last, at, first_number_at, normalize_model, number_at, parse_time, string_at, unix_seconds,
}
use cube.Usage.Scan.{
  collect_files, event_tokens, finish_models, has_infix, has_jsonl, more_used, on_obj, parse_file,
  parse_files, parse_token_event, payload_info, prefilter, scan_jsonl, scan_line, scan_lines,
  summarize_codex_home, turn_context, turn_model,
}
use cube.Prelude.Decimal.{digits}
use cube.Prelude.{
  drop_while, has_prefix, is_blank, is_empty, is_space, select, str_eq, str_lt, to_lower, trim_by,
  trim_right, trim_space,
}
use cube.Prelude.Dict.{insert, lookup}
use cube.Prelude.Sort.{insert_back, insertion_sort, sort_by}
use cube.Passwords.{is_digit}
use cube.Balance.Select.{less}
use cube.Rfc3339.{parse_rfc3339}
use cube.Balance.{same_load_balance_score}

abbrev billion : ℤ
billion = pos 1_000_000_000

abbrev usage : Fields
usage =
    Fields.field (text "input_tokens") (Json.number billion)
      (Fields.field (text "output_tokens") (Json.number billion) Fields.no_fields)

abbrev info : Fields
info = Fields.field (text "last_token_usage") (Json.object usage) Fields.no_fields

abbrev limits : Fields
limits =
    Fields.field (text "rate_limit_reached_type") (Json.string (text "primary")) Fields.no_fields

abbrev payload : Fields
payload = Fields.field (text "type") (Json.string (text "token_count")) (
    Fields.field (text "info") (Json.object info)
      (Fields.field (text "rate_limits") (Json.object limits) Fields.no_fields))

abbrev event : Fields
event = Fields.field (text "type") (Json.string (text "event_msg")) (
    Fields.field (text "timestamp") (Json.string (text "1970-01-01T00:00:00Z"))
      (Fields.field (text "payload") (Json.object payload) Fields.no_fields))

-- Each line is the same event.
abbrev decode : Str → Option Fields
decode line = some event

abbrev line : Str
line = text "\"event_msg\" \"token_count\" rate_limits"

abbrev logs : List LogFile
logs = record { path = text "a.jsonl"; lines = some (line ∷ line ∷ []); cut = false } ∷ []

two_events : (summarize_codex_home decode logs noon noon).events ≡ 2
unfolding add_event add_if add_model_tokens add_to_bucket add_tokens after_last at collect_files
    digits drop_while event_tokens finish_models first_number_at has_infix has_jsonl has_prefix
    insert insert_back insertion_sort is_blank is_digit is_empty is_newer is_space less lookup
    max_int64 model_of more_used normalize_model number_at on_obj parse_file parse_files
    parse_rfc3339 parse_time parse_token_event parse_tokens payload_info prefilter
    same_load_balance_score scan_jsonl scan_line scan_lines select sort_by str_eq str_lt string_at
    summarize_codex_home to_lower token_delta trim_by trim_right trim_space turn_context turn_model
    unix_seconds
two_events = refl

summarize_codex_home-Shares_example : Shares (summarize_codex_home decode logs noon noon)
summarize_codex_home-Shares_example = summarize_codex_home-Shares decode logs noon noon

latest_rate_limits-IsNewest_example :
    IsNewest (latest_rate_limits decode logs) (records_in decode (collect_files logs) [])
latest_rate_limits-IsNewest_example = latest_rate_limits-IsNewest decode logs
