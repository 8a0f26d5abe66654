-- ===== src/Usage/Conserve.antt =====
-- The models share out the totals (internal/usage/codex.go): what `SummarizeCodexHome` counts for each
-- model sums up to what it counts for the home.
use mathlib.Core.List.{Perm, foldr}
use mathlib.Core.List.Perm
use cube.Prelude.{
  ◌==◌, ◌≡◌, refl, ap, sym, ◌∙◌, inl, inr, Bool, true, false, Option, none, some, List, [], ◌∷◌,
  arith, if◌then◌else◌, if-elim, Bool-cases, Option-cases, Str, text, ◌-◌, ◌*◌, str_eq, length,
}
use cube.Prelude.Dict.{Dict, lookup, insert}
use cube.Prelude.Sort.{sort_by-Perm}
use cube.Types.{Time, hour, Tokens, ModelUsage}
use cube.Usage.Json.{Fields, at, as_string, normalize_model}
use cube.Usage.Tally.{
  Summary, Detail, FileState, CumulativeTokens, Starts, ◌+₆₄◌, no_tokens, add_tokens, add_if,
  add_to_bucket, add_model_tokens, add_event, bucket_or_new, or_unknown, new_bucket, since,
  is_nothing, clamp_cached,
}
use cube.Usage.Relate.{scan_jsonl-relates}
use cube.Usage.Scan.{
  LogFile, Scan, scan_jsonl, event_tokens, parse_token_event, on_obj, prefilter, parse_file,
  parse_files, payload_info, new_file, more_used, collect_files, bucket_values, finish_models,
  summarize_codex_home, empty_summary,
}

abbrev pub plus : Tokens → Tokens → Tokens
plus a b = record {
  input = a.input +₆₄ b.input;
  cached_input = a.cached_input +₆₄ b.cached_input;
  output = a.output +₆₄ b.output;
  total = a.total +₆₄ b.total;
}

tokens_eq :
    {a b : Tokens}
    → a.input ≡ b.input
    → a.cached_input ≡ b.cached_input
    → a.output ≡ b.output
    → a.total ≡ b.total
    → a ≡ b
tokens_eq {a} {b} p q r s = ground (arith, p, q, r, s)

-- The sum of one of the fields over models, as int64.
abbrev pub sum_of : (ModelUsage → Tokens) → List ModelUsage → Tokens
sum_of f us = foldr (λ u. plus (f u)) no_tokens us

plus_comm : (a b : Tokens) → plus a b ≡ plus b a
plus_comm a b = tokens_eq (omega arith) (omega arith) (omega arith) (omega arith)

plus_swap : (a b c : Tokens) → plus a (plus b c) ≡ plus b (plus a c)
plus_swap a b c = tokens_eq (omega arith) (omega arith) (omega arith) (omega arith)

Tokens-IsSet : IsSet Tokens
Tokens-IsSet = hlevel

sum_of-Perm :
    (f : ModelUsage → Tokens) {us vs : List ModelUsage} → Perm us vs → sum_of f us ≡ sum_of f vs
sum_of-Perm f p =
    Perm.foldr-eq Tokens-IsSet (λ u. plus (f u)) (λ u v t. plus_swap (f u) (f v) t) p no_tokens

add_tokens-plus :
    (a b : Tokens) (d : CumulativeTokens) → add_tokens (plus a b) d ≡ plus (add_tokens a d) b
unfolding add_tokens
add_tokens-plus a b d = tokens_eq (omega arith) (omega arith) (omega arith) (omega arith)

add_if-plus :
    (c : Bool) (a b : Tokens) (d : CumulativeTokens) → add_if c (plus a b) d ≡ plus (add_if c a d) b
unfolding add_if
add_if-plus true a b d = add_tokens-plus a b d
add_if-plus false a b d = refl

-- The models sum up to the totals, in each of the three spans.
pub record Conserved (s : Summary) : Type 0 where
  pub all_time : sum_of (λ u. u.all_time) (bucket_values s.by_model) ≡ s.all_time
  pub seven_days : sum_of (λ u. u.seven_days) (bucket_values s.by_model) ≡ s.seven_days
  pub today : sum_of (λ u. u.today) (bucket_values s.by_model) ≡ s.today

-- A change of one bucket changes the sum by as much.
sum_of-insert :
    (f : ModelUsage → Tokens) (g : Tokens → Tokens)
    → ((a b : Tokens) → g (plus a b) ≡ plus (g a) b)
    → ((model : Str) → f (new_bucket model) ≡ no_tokens)
    → (model : Str) (models : Dict ModelUsage) (u : ModelUsage)
    → f u ≡ g (f (bucket_or_new model (lookup model models)))
    → sum_of f (bucket_values (insert model u models)) ≡ g (sum_of f (bucket_values models))
unfolding lookup insert
sum_of-insert f g linear fresh model [] u h =
    rw h
      (sym (linear (f (new_bucket model)) no_tokens) ∙ ap (λ t. g (plus t no_tokens)) (fresh model))
sum_of-insert f g linear fresh model ((name, v) ∷ models) u h =
    elim (Bool-cases (str_eq name model)) [
      | inl e ↦
          let rest = sum_of f (bucket_values models) in
          rw e (ap (λ t. plus t rest) (rw e at h) ∙ sym (linear (f v) rest))
      | inr e ↦
          let rest = sum_of f (bucket_values models) in
          rw e (
            ap (λ t. plus (f v) t) (sum_of-insert f g linear fresh model models u (rw e at h))
            ∙ plus_comm (f v) (g rest)
            ∙ sym (linear rest (f v))
            ∙ ap g (plus_comm rest (f v)))
    ]

add_event-Conserved :
    (s : Summary) (model : Str) (d : CumulativeTokens) (t : Time) (starts : Starts)
    → Conserved s
    → Conserved (add_event s model d t starts)
unfolding add_event add_model_tokens add_to_bucket
add_event-Conserved s model d t starts c =
    let name = or_unknown (normalize_model model) in
    let old = bucket_or_new name (lookup name s.by_model) in
    let u = add_to_bucket old d t starts in
    record {
      all_time =
          sum_of-insert (λ u. u.all_time) (λ a. add_tokens a d) (λ a b. add_tokens-plus a b d)
            (λ m. refl) name s.by_model u refl
          ∙ ap (λ a. add_tokens a d) c.all_time;
      seven_days =
          let b = since starts.seven_days t in
          sum_of-insert (λ u. u.seven_days) (λ a. add_if b a d) (λ a x. add_if-plus b a x d)
            (λ m. refl) name s.by_model u refl
          ∙ ap (λ a. add_if b a d) c.seven_days;
      today =
          let b = since starts.today t in
          sum_of-insert (λ u. u.today) (λ a. add_if b a d) (λ a x. add_if-plus b a x d) (λ m. refl)
            name s.by_model u refl
          ∙ ap (λ a. add_if b a d) c.today;
    }

event_tokens-Conserved :
    (model : Str) (t : Time) (starts : Starts)
    (delta : Option (CumulativeTokens × Option CumulativeTokens)) (scan : Scan)
    → Conserved scan.1
    → Conserved (event_tokens model t starts delta scan).1
unfolding event_tokens
event_tokens-Conserved model t starts none (state, result) c = c
event_tokens-Conserved model t starts (some (delta, prev)) (state, result) c =
    if-elim Conserved (is_nothing delta) (λ h. c)
      (λ h. add_event-Conserved result model (clamp_cached delta) t starts c)

parse_token_event-Conserved :
    (starts : Starts) (value : Fields) (state : FileState) (s : Summary)
    → Conserved s
    → Conserved (parse_token_event starts value (state, s)).1
unfolding parse_token_event
parse_token_event-Conserved starts value state s c = elim (Option-cases (payload_info value)) [
  | inl e ↦ rw (e, parse_token_event) c
  | inr ((payload, info), e) ↦
      rw (e, parse_token_event) (event_tokens-Conserved _ _ starts _ (state, s) c)
]

on_obj-Conserved :
    (starts : Starts) (value : Fields) (scan : Scan)
    → Conserved scan.1
    → Conserved (on_obj starts value scan).1
unfolding on_obj
on_obj-Conserved starts value (state, s) c =
    let type = as_string (at value (text "type")) in
    if-elim (λ (x : Scan). Conserved x.1) (str_eq type (text "turn_context")) (λ h. c)
      (λ h.
        if-elim (λ (x : Scan). Conserved x.1) (str_eq type (text "event_msg"))
          (λ h. parse_token_event-Conserved starts value state s c) (λ h. c))

parse_file-Conserved :
    (decode : Str → Option Fields) (starts : Starts) (file : LogFile) (s : Summary)
    → Conserved s
    → Conserved (parse_file decode starts file s)
unfolding parse_file
parse_file-Conserved decode starts file s c =
    let kept =
      scan_jsonl-relates decode prefilter (on_obj starts) (on_obj starts)
        (λ (x y : Scan). Conserved x.1) (λ v x y. on_obj-Conserved starts v x) file (new_file, s)
        (new_file, s) c in
    if-elim Conserved (scan_jsonl decode prefilter (on_obj starts) file (new_file, s)).1
      (λ h. record { all_time = kept.all_time; seven_days = kept.seven_days; today = kept.today })
      (λ h. kept)

parse_files-Conserved :
    (decode : Str → Option Fields) (starts : Starts) (files : List LogFile) (s : Summary)
    → Conserved s
    → Conserved (parse_files decode starts files s)
unfolding parse_files
parse_files-Conserved decode starts [] s c = c
parse_files-Conserved decode starts (file ∷ files) s c =
    parse_files-Conserved decode starts files (parse_file decode starts file s)
      (parse_file-Conserved decode starts file s c)

-- The list of the models sums up to the totals.
pub record Shares (s : Summary) : Type 0 where
  pub all_time : sum_of (λ u. u.all_time) s.models ≡ s.all_time
  pub seven_days : sum_of (λ u. u.seven_days) s.models ≡ s.seven_days
  pub today : sum_of (λ u. u.today) s.models ≡ s.today

finish_models-Shares : (s : Summary) → Conserved s → Shares (finish_models s)
unfolding finish_models
finish_models-Shares s c =
    let perm = sort_by-Perm more_used (bucket_values s.by_model) in
    record {
      all_time = sum_of-Perm (λ u. u.all_time) perm ∙ c.all_time;
      seven_days = sum_of-Perm (λ u. u.seven_days) perm ∙ c.seven_days;
      today = sum_of-Perm (λ u. u.today) perm ∙ c.today;
    }

with_detail-Conserved :
    (b : Bool) (what : Detail) (s : Summary)
    → Conserved s
    → Conserved (if b then record s { detail = what } else s)
with_detail-Conserved true what s c = record {
  all_time = c.all_time;
  seven_days = c.seven_days;
  today = c.today;
}
with_detail-Conserved false what s c = c

-- For any logs and any decoder, the tokens of the models in the summary of a Codex home add up, as
-- int64, to the tokens of the home: in all, of the last seven days and of the day.
pub summarize_codex_home-Shares :
    (decode : Str → Option Fields) (found : List LogFile) (now midnight : Time)
    → Shares (summarize_codex_home decode found now midnight)
unfolding summarize_codex_home
summarize_codex_home-Shares decode found now midnight =
    let files = collect_files found in
    let starts : Starts = record { today = midnight; seven_days = now - 7 * (24 * hour) } in
    let none_yet : Conserved (empty_summary (length files)) = record {
      all_time = refl;
      seven_days = refl;
      today = refl;
    } in
    let kept = parse_files-Conserved decode starts files (empty_summary (length files)) none_yet in
    let result = parse_files decode starts files (empty_summary (length files)) in
    elim (Bool-cases (length files == 0)) [
      | inl e ↦ rw e (record { all_time = refl; seven_days = refl; today = refl })
      | inr e ↦ rw e (
          finish_models-Shares _
            (with_detail-Conserved (result.events == 0) Detail.no_token_count_events result kept))
    ]
