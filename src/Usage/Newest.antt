-- ===== src/Usage/Newest.antt =====
-- The rate limits that are kept are the newest (internal/usage/ratelimits.go).
use mathlib.Core.List.{Mem, mem-cons_self, mem-cons_of_mem}
use mathlib.Core.Option.{some-injective}
use cube.Prelude.{
  ◌≤◌, ◌≡◌, refl, ap, sym, ◌⊎◌, inl, inr, Bool, true, false, not, ◌||◌, Option, none, some, List,
  [], ◌∷◌, arith, All, All-map, Bool-cases, Option-cases, Str, text,
}
use cube.Types.{zero_time, is_zero, after}
use cube.Usage.Json.{Fields}
use cube.Usage.Scan.{LogFile, has_infix, scan_jsonl, collect_files}
use cube.Usage.Relate.{scan_jsonl-relates}
use cube.Usage.Limits.{
  RateLimits, if_found, rate_limits_of, no_limits, newer_of, keep_newer, parse_rate_limits_record,
  scan_rate_limits_file, scan_rate_limits, latest_rate_limits,
}

abbrev noted : Option RateLimits → List RateLimits → List RateLimits
noted none rs = rs
noted (some r) rs = r ∷ rs

-- All the records that the same scan parses, the last one first.
unfoldable pub note_record : Fields → List RateLimits → List RateLimits
note_record value rs = noted (parse_rate_limits_record value) rs

unfoldable pub records_in : (Str → Option Fields) → List LogFile → List RateLimits → List RateLimits
records_in decode [] rs = rs
records_in decode (file ∷ files) rs =
    records_in decode files
      (scan_jsonl decode (λ line. has_infix line (text "rate_limits")) note_record file rs).0

-- Without a record nothing is found; else the result is a record, and none is later, except that a
-- record from before the year 1 counts as undated.
pub record IsNewest (result : RateLimits) (rs : List RateLimits) : Type 0 where
  pub one_of_them : ((result.found ≡ false) × (rs ≡ [])) ⊎ ((result.found ≡ true) × Mem result rs)
  pub none_later :
      All
        (λ (r : RateLimits). (r.captured_at ≤ result.captured_at) ⊎ (r.captured_at ≤ zero_time))
        rs

if_found-found : (x : RateLimits) {r : RateLimits} → if_found x ≡ some r → r.found ≡ true
if_found-found x {r} h = elim (Bool-cases x.found) [
  | inl e ↦ ap (λ (y : RateLimits). y.found) (sym (some-injective _ r (rw e at h)))
  | inr e ↦ cc (rw e at h)
]

parsed-found :
    (value : Fields) {r : RateLimits} → parse_rate_limits_record value ≡ some r → r.found ≡ true
unfolding parse_rate_limits_record
parsed-found value {r} h = elim (Option-cases (rate_limits_of value)) [
  | inl e ↦ cc (rw (e, parse_rate_limits_record) at h)
  | inr (limits, e) ↦ if_found-found _ {r = r} (rw (e, parse_rate_limits_record) at h)
]

-- Is the result replaced?
abbrev replaces : RateLimits → RateLimits → Bool
replaces r result =
    not result.found || is_zero result.captured_at || after r.captured_at result.captured_at

abbrev NotLater : RateLimits → RateLimits → Type 0
NotLater result r = (r.captured_at ≤ result.captured_at) ⊎ (r.captured_at ≤ zero_time)

replaced-NotLater :
    (r result x : RateLimits)
    → result.found ≡ true
    → replaces r result ≡ true
    → NotLater result x
    → NotLater r x
replaced-NotLater r result x f h (inl le) = elim (Bool-cases (is_zero result.captured_at)) [
  | inl e ↦ inr (ground arith)
  | inr e ↦ inl (ground arith)
]
replaced-NotLater r result x f h (inr le) = inr le

newer_of-IsNewest :
    (r result : RateLimits) (rs : List RateLimits)
    → r.found ≡ true
    → IsNewest result rs
    → IsNewest (newer_of (some r) result) (r ∷ rs)
newer_of-IsNewest r result rs f n = elim (Bool-cases (replaces r result)) [
  | inl e ↦ rw e (record {
    one_of_them = inr (f, mem-cons_self);
    none_later = (
      inl (omega arith),
      elim n.one_of_them [
        | inl (g, h) ↦ rw h tt
        | inr (g, m) ↦ All-map (λ x. replaced-NotLater r result x g e) rs n.none_later
      ],
    );
  })
  | inr e ↦ rw e (record {
    one_of_them = elim n.one_of_them [
      | inl (g, h) ↦ ground arith
      | inr (g, m) ↦ inr (g, mem-cons_of_mem r m)
    ];
    none_later = (inl (ground arith), n.none_later);
  })
]

keep_newer-IsNewest :
    (value : Fields) (result : RateLimits) (rs : List RateLimits)
    → IsNewest result rs
    → IsNewest (keep_newer value result) (note_record value rs)
unfolding keep_newer note_record
keep_newer-IsNewest value result rs n = elim (Option-cases (parse_rate_limits_record value)) [
  | inl e ↦ rw e n
  | inr (r, e) ↦ rw e (newer_of-IsNewest r result rs (parsed-found value {r = r} e) n)
]

scan_rate_limits-IsNewest :
    (decode : Str → Option Fields) (files : List LogFile) (result : RateLimits)
    (rs : List RateLimits)
    → IsNewest result rs
    → IsNewest (scan_rate_limits decode files result) (records_in decode files rs)
unfolding scan_rate_limits records_in scan_rate_limits_file
scan_rate_limits-IsNewest decode [] result rs n = n
scan_rate_limits-IsNewest decode (file ∷ files) result rs n =
    scan_rate_limits-IsNewest decode files _ _ (
      scan_jsonl-relates decode (λ line. has_infix line (text "rate_limits")) keep_newer note_record
        IsNewest keep_newer-IsNewest file result rs n)

-- For any logs and any decoder, `LatestRateLimits` finds limits just when the scan of the files parses a
-- record. They are then those of a parsed record, and no record is later, except that one from before the
-- year 1 counts as undated.
pub latest_rate_limits-IsNewest :
    (decode : Str → Option Fields) (found : List LogFile)
    → IsNewest (latest_rate_limits decode found) (records_in decode (collect_files found) [])
unfolding latest_rate_limits
latest_rate_limits-IsNewest decode found =
    scan_rate_limits-IsNewest decode (collect_files found) (no_limits zero_time) []
      (record { one_of_them = inl (refl, refl); none_later = tt })
