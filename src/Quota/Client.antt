-- ===== src/Quota/Client.antt =====
-- internal/quota/codex.go: the quota of a Codex home. The calls over the network, which the source keeps in
-- `refreshAuthFileFn` and `fetchUsageFn`, and the readings of JSON are the fields of `Remote`.
use cube.Prelude.{
  ℕ, ◌+◌, ◌-◌, ◌*◌, ◌/◌, ◌++◌, ltb, leb, ◌==◌, Bool, false, ◌||◌, Option, none, some, List, [], ◌∷◌,
  ◌⊎◌, if◌then◌else◌, Str, text, to_lower, is_empty, has_prefix, length, exists_by, ℤ, pos, negsuc,
}
use cube.Prelude.Decimal.{decimal}
use cube.Types.{Time, minute, second, percent, Window}
use cube.Usage.Json.{string_at}
use cube.Usage.Scan.{has_infix}
use cube.Profiles.Auth.{or_empty, first_of, mapped, Codec, claims_from_id_token}

pub record AuthFile : Type 0 where
  pub api_key : Str
  pub id_token : Str
  pub access_token : Str
  pub refresh_token : Str
  pub account_id : Str

pub record RefreshResponse : Type 0 where
  pub id_token : Str
  pub access_token : Str

-- `used_percent` in the unit of the windows; the times in seconds.
pub record UsageWindow : Type 0 where
  pub used_percent : ℤ
  pub reset_at : ℤ

pub record UsageResponse : Type 0 where
  pub plan_type : Str
  pub primary : Option UsageWindow
  pub secondary : Option UsageWindow
  pub code_review : Option UsageWindow

-- An error with its message; errUnauthorized stands apart.
pub data RemoteError : Type 0 where
  unauthorized : RemoteError
  refused : Str → RemoteError

abbrev pub message_of : RemoteError → Str
message_of unauthorized = text "unauthorized"
message_of (refused message) = message

-- The calls are counted: `refresh i` and `fetch i` answer the call with `i` before it. `format` is
-- time.Format for RFC 3339 in UTC.
pub record Remote : Type 0 where
  pub decode_auth : Str → Option AuthFile
  pub codec : Codec
  pub refresh : ℕ → Str → RemoteError ⊎ RefreshResponse
  pub fetch : ℕ → Str → Str → RemoteError ⊎ UsageResponse
  pub format : Time → Str

unfoldable pub clamp : ℤ → ℕ
clamp (negsuc n) = 0
clamp (pos n) = if ltb (100 * percent) n then 100 * percent else n

-- `fmt.Sprintf("%d%%", int(math.Round(x)))`
unfoldable pub percent_display : ℕ → Str
percent_display x = decimal ((2 * x + percent) / (2 * percent)) ++ text "%"

abbrev unix_epoch : Time
unix_epoch = 62_167_392_000_000_000_000

abbrev reset_time : ℤ → Option Time
reset_time (negsuc n) = none
reset_time (pos n) = if n == 0 then none else some (unix_epoch + n * second)

abbrev formatted_reset : (Time → Str) → Option Time → Str
formatted_reset format none = []
formatted_reset format (some t) = format t

abbrev is_stale : Time → Option Time → Bool
is_stale now none = false
is_stale now (some t) = ltb (t + minute) now

unfoldable pub normalize_window : (Time → Str) → Str → Str → Time → UsageWindow → Window
unfolding clamp percent_display
normalize_window format key label now input =
    let used = clamp input.used_percent in
    let remaining = 100 * percent - used in
    record {
      key = key;
      label = label;
      used_percent = pos used;
      remaining_percent = pos remaining;
      resets_at = formatted_reset format (reset_time input.reset_at);
      used_display = percent_display used;
      remaining_display = percent_display remaining;
      stale = is_stale now (reset_time input.reset_at);
    }

abbrev one_window : (Time → Str) → Str → Str → Time → Option UsageWindow → List Window
one_window format key label now none = []
one_window format key label now (some input) = normalize_window format key label now input ∷ []

unfoldable pub windows_from_response : (Time → Str) → UsageResponse → Time → List Window
unfolding normalize_window
windows_from_response format response now =
    one_window format (text "five_hour") (text "5h") now response.primary
    ++ one_window format (text "seven_day") (text "7d") now response.secondary
    ++ one_window format (text "code_review") (text "Review") now response.code_review

-- The text before the first place where the part stands.
unfoldable pub before_part : Str → Str → Option Str
before_part part [] = if is_empty part then some [] else none
before_part part (c ∷ s) =
    let rest = before_part part s in
    if has_prefix (c ∷ s) part then some [] else mapped (λ t. c ∷ t) rest

-- `sanitizeErr`: the first of the prefixes that the message has, in their order, decides.
unfoldable pub sanitize_err : Str → Str
unfolding before_part
sanitize_err message =
    elim (first_of (
      before_part (text "Bearer ") message
      ∷ before_part (text "bearer ") message
      ∷ before_part (text "sk-") message
      ∷ [])) [ none ↦ message | some front ↦ front ++ text "[redacted]" ]

unfoldable pub is_refresh_token_invalidated : RemoteError → Bool
unfolding has_infix
is_refresh_token_invalidated e =
    let message = to_lower (message_of e) in
    exists_by (λ marker. has_infix message marker)
      (text "app_session_terminated"
        ∷ text "refresh_token_reused"
        ∷ text "invalid_grant"
        ∷ text "invalid refresh"
        ∷ text "token_revoked"
        ∷ text "refresh token returned http 401"
        ∷ text "refresh token returned http 403"
        ∷ [])

abbrev from_at : Str → Str
from_at [] = []
from_at (c ∷ s) = if c == b'@' then c ∷ s else from_at s

-- A text without "@" has the index -1.
unfoldable pub redact_email : Str → Str
redact_email [] = text "***"
redact_email (c ∷ s) =
    let domain = from_at (c ∷ s) in
    if is_empty domain || leb (length (c ∷ s) - length domain) 1
    then text "***"
    else c ∷ (text "***" ++ domain)

unfoldable pub account_from_id_token : Codec → Str → Str
unfolding claims_from_id_token
account_from_id_token k id_token =
    let claims = claims_from_id_token k id_token in
    or_empty (
      first_of (
        string_at claims (text "sub")
        ∷ mapped redact_email (string_at claims (text "email"))
        ∷ mapped redact_email (string_at claims (text "https://api.openai.com/profile_email"))
        ∷ []))
