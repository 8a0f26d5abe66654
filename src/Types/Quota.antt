-- ===== src/Types/Quota.antt =====
-- internal/quota/codex.go: the result of a quota query and its windows. A percentage, a float64 in
-- the source, is an exact integer here: one unit is 1/216,000,000,000 of a percent, chosen so that
-- the near-reset bonus of the load balancer is exact (25 percent over 90 minutes of nanoseconds).
use cube.Prelude.{ℕ, Bool, true, false, List, Str, str_eq, ℤ}
use cube.Types.Clock.{Time}

abbrev pub percent : ℕ
percent = 216_000_000_000

-- The texts that the code formats, by their arguments; `plain` is any other text.
pub data Message : Type 0 where
  plain : Str → Message
  lease_expired : Str → Time → Message
  reported_by : Str → Time → Message
  client_reported : Time → Message
  returning_cached : Str → Time → Message
  refresh_paused : Str → Time → Message

-- `other` is any text that is none of the five constants, `other ""` the missing status.
pub data QuotaStatus : Type 0 where
  supported unsupported not_configured refresh_invalid error : QuotaStatus
  other : Str → QuotaStatus

unfoldable pub quota_status_eq : QuotaStatus → QuotaStatus → Bool
quota_status_eq QuotaStatus.supported QuotaStatus.supported = true
quota_status_eq QuotaStatus.unsupported QuotaStatus.unsupported = true
quota_status_eq QuotaStatus.not_configured QuotaStatus.not_configured = true
quota_status_eq QuotaStatus.refresh_invalid QuotaStatus.refresh_invalid = true
quota_status_eq QuotaStatus.error QuotaStatus.error = true
quota_status_eq (QuotaStatus.other s) (QuotaStatus.other t) = str_eq s t
quota_status_eq _ _ = false

pub record Window : Type 0 where
  pub key : Str
  pub label : Str
  pub used_percent : ℤ
  pub remaining_percent : ℤ
  pub resets_at : Str
  pub used_display : Str
  pub remaining_display : Str
  pub stale : Bool

pub record QuotaResult : Type 0 where
  pub status : QuotaStatus
  pub plan : Str
  pub account : Str
  pub source : Str
  pub detail : Message
  pub quotas : List Window
