-- ===== src/Usage/Scan.antt =====
-- The scan of the session logs (internal/usage/codex.go, scan.go). json.Unmarshal is the parameter
-- `decode`, which gives the object of a line of valid JSON, and an empty one for null.
use cube.Prelude.{
  ℕ, ◌*◌, ◌^◌, ◌-◌, ltb, Bool, true, false, not, ◌&&◌, ◌||◌, Option, none, some, List, [], ◌∷◌,
  if◌then◌else◌, Str, text, str_eq, str_lt, has_prefix, length, select, ◌==◌,
}
use mathlib.Core.List.{reverse}
use cube.Prelude.Sort.{sort_by}
use cube.Prelude.Dict.{Dict}
use cube.Types.{Time, hour, ModelUsage}
use cube.Usage.Json.{
  Fields, at, as_object, as_string, string_at, parse_time, normalize_model, after_last,
}
use cube.Usage.Tally.{
  Summary, Detail, CumulativeTokens, FileState, Starts, no_tokens, greater, add_event, is_nothing,
  clamp_cached, token_delta, model_of,
}

-- A file below the two directories of a Codex home: its lines, none when it cannot be opened, and
-- whether reading fails after them.
pub record LogFile : Type 0 where
  pub path : Str
  pub lines : Option (List Str)
  pub cut : Bool

-- `strings.Contains`
unfoldable pub has_infix : Str → Str → Bool
has_infix [] part = has_prefix [] part
has_infix (c ∷ s) part = if has_prefix (c ∷ s) part then true else has_infix s part

-- `filepath.Ext(path) == ".jsonl"`
unfoldable pub has_jsonl : LogFile → Bool
has_jsonl file = has_prefix (reverse file.path) (reverse (text ".jsonl"))

-- `collectFiles`, of all that the walk meets.
unfoldable pub collect_files : List LogFile → List LogFile
unfolding has_jsonl
collect_files found = sort_by (λ (a b : LogFile). str_lt a.path b.path) (select has_jsonl found)

-- The bytes in a line that bufio.Scanner gives up at; a text has one number for each byte.
abbrev pub scan_max_buf : ℕ
scan_max_buf = 4 * 2 ^ 20

-- The scanner drops a "\r" at the end of a line.
abbrev pub without_return : Str → Str
without_return [] = []
without_return (c ∷ []) = if c == b'\r' then [] else c ∷ []
without_return (c ∷ d ∷ s) = c ∷ without_return (d ∷ s)

-- `scanJSONL`: fold the objects of the lines; and whether the scan was cut short.
module _ {ℓ} {S : Type ℓ} (decode : Str → Option Fields) (prefilter : Str → Bool)
    (on_obj : Fields → S → S) where
  abbrev pub on_decoded : Option Fields → S → S
  on_decoded none s = s
  on_decoded (some value) s = on_obj value s

  unfoldable pub scan_line : Str → S → S
  scan_line line s = if not (prefilter line) then s else on_decoded (decode line) s

  unfoldable pub scan_lines : Bool → List Str → S → S × Bool
  unfolding scan_line
  scan_lines cut [] s = (s, cut)
  scan_lines cut (line ∷ lines) s =
      let rest = scan_lines cut lines (scan_line (without_return line) s) in
      if not (ltb (length line) scan_max_buf) then (s, true) else rest

  unfoldable pub scan_jsonl : LogFile → S → S × Bool
  scan_jsonl file s = elim file.lines [
    | none ↦ (s, false)
    | some lines ↦ scan_lines file.cut lines s
  ]

-- The line as JSON text has its strings in quotes.
unfoldable pub prefilter : Str → Bool
unfolding has_infix
prefilter line =
    let event = has_infix line (text "\"event_msg\"") in
    (event || has_infix line (text "\"turn_context\"") || has_infix line (text "\"session_meta\""))
    && not (event && not (has_infix line (text "\"token_count\"")))

-- The objects that a token event must have.
unfoldable pub payload_info : Fields → Option (Fields × Fields)
payload_info value = elim (as_object (at value (text "payload"))) [
  | none ↦ none
  | some payload ↦ elim (as_object (at payload (text "info"))) [
    | none ↦ none
    | some info ↦
        if str_eq (as_string (at payload (text "type"))) (text "token_count")
        then some (payload, info)
        else none
  ]
]

-- What the scan of one file works on.
abbrev pub Scan : Type 0
Scan = FileState × Summary

unfoldable pub event_tokens :
    Str → Time → Starts → Option (CumulativeTokens × Option CumulativeTokens) → Scan → Scan
event_tokens model t starts none (state, result) = (record state { current_model = model }, result)
event_tokens model t starts (some (delta, prev)) (state, result) = (
  record { current_model = model; prev_total = prev },
  if is_nothing delta then result else add_event result model (clamp_cached delta) t starts,
)

unfoldable pub parse_token_event : Starts → Fields → Scan → Scan
parse_token_event starts value (state, result) = elim (payload_info value) [
  | none ↦ (state, result)
  | some (payload, info) ↦
      let model =
        model_of (string_at info (text "model")) (string_at info (text "model_name"))
          (string_at payload (text "model")) state.current_model in
      let delta =
        token_delta (as_object (at info (text "total_token_usage")))
          (as_object (at info (text "last_token_usage"))) state.prev_total in
      event_tokens model (parse_time (at value (text "timestamp"))) starts delta (state, result)
]

-- The model of a turn: in the payload or in its info.
unfoldable pub turn_model : Fields → Option Str
turn_model payload = elim (string_at payload (text "model")) [
  | some model ↦ some (normalize_model model)
  | none ↦ elim (as_object (at payload (text "info"))) [
    | none ↦ none
    | some info ↦ elim (string_at info (text "model")) [
      | none ↦ none
      | some model ↦ some (normalize_model model)
    ]
  ]
]

unfoldable pub turn_context : Fields → FileState → FileState
turn_context value state = elim (as_object (at value (text "payload"))) [
  | none ↦ state
  | some payload ↦ elim (turn_model payload) [
    | none ↦ state
    | some model ↦ record state { current_model = model }
  ]
]

-- The callback of `parseFile`.
unfoldable pub on_obj : Starts → Fields → Scan → Scan
unfolding parse_token_event turn_context
on_obj starts value scan =
    let type = as_string (at value (text "type")) in
    if str_eq type (text "turn_context")
    then (turn_context value scan.0, scan.1)
    else if str_eq type (text "event_msg")
    then parse_token_event starts value scan
    else scan

abbrev pub new_file : FileState
new_file = record { current_model = text "unknown"; prev_total = none }

unfoldable pub parse_file : (Str → Option Fields) → Starts → LogFile → Summary → Summary
parse_file decode starts file result =
    let scan = scan_jsonl decode prefilter (on_obj starts) file (new_file, result) in
    if scan.1
    then record (scan.0).1 {
      partial = true;
      detail = Detail.incomplete_scan_of (after_last b'/' file.path file.path);
    }
    else (scan.0).1

unfoldable pub parse_files : (Str → Option Fields) → Starts → List LogFile → Summary → Summary
parse_files decode starts [] result = result
parse_files decode starts (file ∷ files) result =
    parse_files decode starts files (parse_file decode starts file result)

abbrev pub bucket_values : Dict ModelUsage → List ModelUsage
bucket_values [] = []
bucket_values ((model, bucket) ∷ models) = bucket ∷ bucket_values models

-- More in seven days first, then by name.
unfoldable pub more_used : ModelUsage → ModelUsage → Bool
more_used a b =
    if not (a.seven_days.total == b.seven_days.total)
    then greater a.seven_days.total b.seven_days.total
    else str_lt a.model b.model

unfoldable pub finish_models : Summary → Summary
finish_models s = record s { models = sort_by more_used (bucket_values s.by_model); by_model = [] }

abbrev pub empty_summary : ℕ → Summary
empty_summary n = record {
  partial = false;
  detail = Detail.no_detail;
  files_scanned = n;
  events = 0;
  today = no_tokens;
  seven_days = no_tokens;
  all_time = no_tokens;
  latest_at = none;
  latest_model = [];
  models = [];
  by_model = [];
}

-- `SummarizeCodexHome`, with the midnight before `now` in the local zone.
unfoldable pub summarize_codex_home : (Str → Option Fields) → List LogFile → Time → Time → Summary
summarize_codex_home decode found now midnight =
    let files = collect_files found in
    let starts : Starts = record { today = midnight; seven_days = now - 7 * (24 * hour) } in
    let result = parse_files decode starts files (empty_summary (length files)) in
    if length files == 0
    then record (empty_summary 0) { detail = Detail.no_session_files }
    else finish_models (
        if result.events == 0
        then record result { detail = Detail.no_token_count_events }
        else result)
