-- ===== src/Quota/Protocol.antt =====
-- `FetchForCodexHome` of internal/quota/codex.go: ask for the usage, and once more with a new token when
-- the first one is refused.
use cube.Prelude.{
  ℕ, ◌⊎◌, inl, inr, not, ◌&&◌, Option, none, some, [], if◌then◌else◌, Str, text, trim_space,
  is_empty,
}
use cube.Types.{Time, plain, QuotaStatus, QuotaResult}
use cube.Result.{Result, ok, err}
use cube.Quota.Client.{
  AuthFile, RefreshResponse, UsageResponse, RemoteError, unauthorized, message_of, Remote,
  windows_from_response, sanitize_err, is_refresh_token_invalidated, account_from_id_token,
}

abbrev pub failed_result : QuotaStatus → Str → Str → QuotaResult
failed_result status source detail = record {
  status = status;
  plan = [];
  account = [];
  source = source;
  detail = plain detail;
  quotas = [];
}

unfoldable pub refresh_failed : RemoteError → QuotaResult
unfolding sanitize_err is_refresh_token_invalidated
refresh_failed e =
    failed_result
      (if is_refresh_token_invalidated e then QuotaStatus.refresh_invalid else QuotaStatus.error)
      (text "auth.json refresh_token") (sanitize_err (message_of e))

abbrev pub non_empty_or : Str → Str → Str
non_empty_or new old = if is_empty new then old else new

module _ (r : Remote) (now : Time) where
  unfoldable pub supported_result : Str → UsageResponse → QuotaResult
  supported_result id_token response = record {
    status = QuotaStatus.supported;
    plan = response.plan_type;
    account = account_from_id_token r.codec id_token;
    source = text "chatgpt.com/backend-api";
    detail = plain [];
    quotas = windows_from_response r.format response now;
  }

  unfoldable pub finish : Str → RemoteError ⊎ UsageResponse → QuotaResult
  unfolding supported_result sanitize_err
  finish id_token (inl e) =
      failed_result QuotaStatus.error (text "auth.json") (sanitize_err (message_of e))
  finish id_token (inr response) = supported_result id_token response

  -- The second question, with the tokens of the refresh.
  unfoldable pub retry : Str → Str → Str → RemoteError ⊎ RefreshResponse → QuotaResult
  unfolding refresh_failed finish
  retry account_id access_token id_token (inl e) = refresh_failed e
  retry account_id access_token id_token (inr new) =
      finish (non_empty_or new.id_token id_token)
        (r.fetch 1 (non_empty_or new.access_token access_token) account_id)

  -- What the first answer leads to; `n` refreshes are done.
  unfoldable pub answered : ℕ → Str → Str → Str → Str → RemoteError ⊎ UsageResponse → QuotaResult
  unfolding retry finish
  answered n account_id refresh_token access_token id_token (inl unauthorized) =
      if is_empty refresh_token
      then finish id_token (inl unauthorized)
      else retry account_id access_token id_token (r.refresh n refresh_token)
  answered n account_id refresh_token access_token id_token answer = finish id_token answer

  abbrev pub no_access_token : Str → QuotaResult
  no_access_token api_key =
      if is_empty api_key
      then failed_result QuotaStatus.not_configured [] (text "auth.json has no OAuth access token")
      else failed_result QuotaStatus.unsupported []
          (text "API-key Codex auth cannot expose ChatGPT subscription quota.")

  unfoldable pub ask : ℕ → Str → Str → Str → Str → Str → QuotaResult
  unfolding answered
  ask n api_key account_id refresh_token access_token id_token =
      if is_empty access_token
      then no_access_token api_key
      else answered n account_id refresh_token access_token id_token
          (r.fetch 0 access_token account_id)

  -- Without an access token a refresh comes first.
  unfoldable pub refreshed_first :
      Str → Str → Str → Str → RemoteError ⊎ RefreshResponse → QuotaResult
  unfolding refresh_failed ask
  refreshed_first api_key account_id refresh_token id_token (inl e) = refresh_failed e
  refreshed_first api_key account_id refresh_token id_token (inr new) =
      ask 1 api_key account_id refresh_token (trim_space new.access_token)
        (non_empty_or new.id_token id_token)

  unfoldable pub with_auth : AuthFile → QuotaResult
  unfolding refreshed_first ask
  with_auth auth =
      let access_token = trim_space auth.access_token in
      let api_key = trim_space auth.api_key in
      let account_id = trim_space auth.account_id in
      let refresh_token = trim_space auth.refresh_token in
      if is_empty access_token && not (is_empty refresh_token)
      then refreshed_first api_key account_id refresh_token auth.id_token
          (r.refresh 0 refresh_token)
      else ask 0 api_key account_id refresh_token access_token auth.id_token

  abbrev pub decoded_auth : Option AuthFile → QuotaResult
  decoded_auth none = failed_result QuotaStatus.error [] (text "auth.json is not valid JSON")
  decoded_auth (some auth) = with_auth auth

  -- `read` is what the reading of auth.json gives: an error, no file, or its text.
  unfoldable pub fetch_for_codex_home : Result (Option Str) → QuotaResult
  unfolding with_auth
  fetch_for_codex_home (err e) =
      failed_result QuotaStatus.error [] (text "could not read auth.json")
  fetch_for_codex_home (ok none) =
      failed_result QuotaStatus.not_configured [] (text "auth.json is missing")
  fetch_for_codex_home (ok (some content)) = decoded_auth (r.decode_auth content)
