-- ===== src/Quota/Supported.antt =====
-- Where a supported result comes from (internal/quota/codex.go).
use cube.Prelude.{
  ℕ, ◌≡◌, ◌≢◌, refl, ◌∙◌, ◌⊎◌, inl, inr, not, ◌&&◌, Option, none, some, Str, trim_space, is_empty,
  if-elim,
}
use cube.Types.{Time, QuotaStatus, QuotaResult}
use cube.Result.{Result, ok, err}
use cube.Quota.Client.{
  AuthFile, RefreshResponse, UsageResponse, RemoteError, unauthorized, refused, Remote,
  is_refresh_token_invalidated,
}
use cube.Quota.Protocol.{
  refresh_failed, supported_result, finish, retry, answered, ask, refreshed_first, with_auth,
  fetch_for_codex_home, non_empty_or, decoded_auth,
}

-- The response answers the first question or, when that was refused as unauthorized, the second; both
-- are for the account.
abbrev pub Answers : Remote → Str → Str → UsageResponse → Type 0
Answers r access_token account_id response =
    (r.fetch 0 access_token account_id ≡ inr response)
    ⊎ ((r.fetch 1 access_token account_id ≡ inr response)
        × ((first : Str) × (r.fetch 0 first account_id ≡ inl unauthorized)))

pub record FromResponse (r : Remote) (now : Time) (q : QuotaResult) : Type 0 where
  pub access_token : Str
  pub account_id : Str
  pub id_token : Str
  pub response : UsageResponse
  pub result : q ≡ supported_result r now id_token response
  pub answers : Answers r access_token account_id response

module _ (r : Remote) (now : Time) where
  -- A result is from a response, or it does not say that the quota is supported.
  abbrev Sound : QuotaResult → Type 0
  Sound q = FromResponse r now q ⊎ (q.status ≢ QuotaStatus.supported)

  refresh_failed-Sound : (e : RemoteError) → Sound (refresh_failed e)
  unfolding refresh_failed
  refresh_failed-Sound e = inr (
      if-elim (λ (s : QuotaStatus). s ≢ QuotaStatus.supported) (is_refresh_token_invalidated e)
        (λ h. λ x. cc) (λ h. λ x. cc))

  finish-Sound :
      (access_token account_id id_token : Str) (answer : RemoteError ⊎ UsageResponse)
      → ((response : UsageResponse)
          → answer ≡ inr response
          → Answers r access_token account_id response)
      → Sound (finish r now id_token answer)
  unfolding finish
  finish-Sound access account id_token (inl e) f = inr λ x. cc
  finish-Sound access account id_token (inr response) f = inl (record {
    access_token = access;
    account_id = account;
    id_token = id_token;
    response = response;
    result = refl;
    answers = f response refl;
  })

  retry-Sound :
      (account_id access_token id_token : Str) (new : RemoteError ⊎ RefreshResponse)
      → r.fetch 0 access_token account_id ≡ inl unauthorized
      → Sound (retry r now account_id access_token id_token new)
  unfolding retry
  retry-Sound account access id_token (inl e) h = refresh_failed-Sound e
  retry-Sound account access id_token (inr new) h =
      finish-Sound (non_empty_or new.access_token access) account
        (non_empty_or new.id_token id_token) _ (λ response p. inr (p, (access, h)))

  answered-Sound :
      (n : ℕ) (account_id refresh_token access_token id_token : Str)
      (answer : RemoteError ⊎ UsageResponse)
      → r.fetch 0 access_token account_id ≡ answer
      → Sound (answered r now n account_id refresh_token access_token id_token answer)
  unfolding answered
  answered-Sound n account token access id_token (inl unauthorized) h =
      if-elim Sound (is_empty token)
        (λ e. finish-Sound access account id_token (inl unauthorized) (λ response p. inl (h ∙ p)))
        (λ e. retry-Sound account access id_token (r.refresh n token) h)
  answered-Sound n account token access id_token (inl (refused m)) h =
      finish-Sound access account id_token (inl (refused m)) (λ response p. inl (h ∙ p))
  answered-Sound n account token access id_token (inr x) h =
      finish-Sound access account id_token (inr x) (λ response p. inl (h ∙ p))

  ask-Sound :
      (n : ℕ) (api_key account_id refresh_token access_token id_token : Str)
      → Sound (ask r now n api_key account_id refresh_token access_token id_token)
  unfolding ask
  ask-Sound n api_key account token access id_token =
      if-elim Sound (is_empty access)
        (λ e. if-elim Sound (is_empty api_key) (λ f. inr λ x. cc) (λ f. inr λ x. cc))
        (λ e. answered-Sound n account token access id_token (r.fetch 0 access account) refl)

  refreshed_first-Sound :
      (api_key account_id refresh_token id_token : Str) (new : RemoteError ⊎ RefreshResponse)
      → Sound (refreshed_first r now api_key account_id refresh_token id_token new)
  unfolding refreshed_first
  refreshed_first-Sound api_key account token id_token (inl e) = refresh_failed-Sound e
  refreshed_first-Sound api_key account token id_token (inr new) =
      ask-Sound 1 api_key account token (trim_space new.access_token)
        (non_empty_or new.id_token id_token)

  with_auth-Sound : (auth : AuthFile) → Sound (with_auth r now auth)
  unfolding with_auth
  with_auth-Sound auth =
      if-elim Sound
        (is_empty (trim_space auth.access_token) && not (is_empty (trim_space auth.refresh_token)))
        (λ h.
          refreshed_first-Sound (trim_space auth.api_key) (trim_space auth.account_id)
            (trim_space auth.refresh_token) auth.id_token _)
        (λ h.
          ask-Sound 0 (trim_space auth.api_key) (trim_space auth.account_id)
            (trim_space auth.refresh_token) (trim_space auth.access_token) auth.id_token)

  decoded-Sound : (o : Option AuthFile) → Sound (decoded_auth r now o)
  decoded-Sound none = inr λ x. cc
  decoded-Sound (some auth) = with_auth-Sound auth

  fetch-Sound : (read : Result (Option Str)) → Sound (fetch_for_codex_home r now read)
  unfolding fetch_for_codex_home
  fetch-Sound (err e) = inr λ x. cc
  fetch-Sound (ok none) = inr λ x. cc
  fetch-Sound (ok (some content)) = decoded-Sound (r.decode_auth content)

-- When `FetchForCodexHome` reports a supported quota, it reports the windows, the plan and the account of
-- a response of the service for one account id: the answer to its first question or, when that was
-- refused as unauthorized, to the one repeated question.
pub fetch_for_codex_home-FromResponse :
    (r : Remote) (now : Time) (read : Result (Option Str))
    → (fetch_for_codex_home r now read).status ≡ QuotaStatus.supported
    → FromResponse r now (fetch_for_codex_home r now read)
fetch_for_codex_home-FromResponse r now read h = elim (fetch-Sound r now read) [
  | inl f ↦ f
  | inr n ↦ absurd (n h)
]
