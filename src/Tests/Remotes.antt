-- ===== src/Tests/Remotes.antt =====
-- An example of a quota query: the first token is refused, the refreshed one is taken.
use cube.Prelude.{ℕ, zero, suc, ◌≡◌, ◌⊎◌, refl, inl, inr, none, some, [], Option, Str, text}
use cube.Types.{QuotaStatus}
use cube.Result.{Result, ok}
use cube.Usage.Json.{Fields}
use cube.Quota.Client.{AuthFile, UsageResponse, RemoteError, unauthorized, Remote}
use cube.Quota.Protocol.{fetch_for_codex_home}
use cube.Quota.Supported.{FromResponse, fetch_for_codex_home-FromResponse}
use cube.Tests.Data.{noon}
use cube.Quota.Protocol.{ask, refresh_failed, refreshed_first, with_auth}
use cube.Quota.Client.{before_part, is_refresh_token_invalidated, sanitize_err}
use cube.Prelude.{
  drop_while, exists_by, has_prefix, is_empty, is_space, to_lower, trim_by, trim_right, trim_space,
}
use cube.Usage.Scan.{has_infix}

abbrev auth : AuthFile
auth = record {
  api_key = [];
  id_token = [];
  access_token = text "old";
  refresh_token = text "more";
  account_id = text "a";
}

abbrev answer : UsageResponse
answer = record { plan_type = text "pro"; primary = none; secondary = none; code_review = none }

abbrev second_time : ℕ → RemoteError ⊎ UsageResponse
second_time zero = inl unauthorized
second_time (suc n) = inr answer

abbrev remote : Remote
remote = record {
  decode_auth = λ s. some auth;
  codec = record { decode = λ s. some Fields.no_fields; base64 = λ s. some s; digest = λ s. s };
  refresh = λ n token. inr (record { id_token = []; access_token = text "new" });
  fetch = λ n token account. second_time n;
  format = λ t. [];
}

abbrev stored : Result (Option Str)
stored = ok (some (text "{}"))

is_supported : (fetch_for_codex_home remote noon stored).status ≡ QuotaStatus.supported
unfolding ask before_part drop_while exists_by fetch_for_codex_home has_infix has_prefix is_empty
    is_refresh_token_invalidated is_space refresh_failed refreshed_first sanitize_err to_lower
    trim_by trim_right trim_space with_auth
is_supported = refl

fetch_for_codex_home-FromResponse_example :
    FromResponse remote noon (fetch_for_codex_home remote noon stored)
fetch_for_codex_home-FromResponse_example =
    fetch_for_codex_home-FromResponse remote noon stored is_supported
