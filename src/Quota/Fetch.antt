-- ===== src/Quota/Fetch.antt =====
-- `FetchQuota` of internal/manager/quota.go. What it calls outside of this model is a parameter: the
-- copy of the live login (`syncLiveAuthToManaged`), the query of the quota server with the account's
-- login, which may also give an error beside its result, and the digest of a file's text.
use cube.Prelude.{
  Bool, false, not, Option, none, some, [], if◌then◌else◌, Str, text, str_eq, trim_space, is_empty,
  is_blank, find_by,
}
use cube.Prelude.Dict.{lookup}
use cube.Types.{
  Time, Message, plain, client_reported, reported_by, returning_cached, refresh_paused, Account,
  AccountOwnerMode, owner_eq, QuotaSource, QuotaStatus, quota_status_eq, QuotaResult, QuotaCache,
  State,
}
use cube.Accounts.{has_id, get_account}
use cube.Lease.{account_lease_active}
use cube.Quota.{quota_source_label, record_quota_result}
use cube.Result.{Error, ok, err}
use cube.World.{M, pure, quietly, ◌>>=◌, ◌>>◌, load, time_now, acquire_lock, read_auth}

-- `firstNonEmpty(detail, message)`, for a message that is not blank.
unfoldable pub detail_or : Message → Message → Message
detail_or (plain s) message = if is_blank s then message else plain (trim_space s)
detail_or detail message = detail

-- An error becomes `none`.
unfoldable pub attempt {ℓ} : {A : Type ℓ} → M A → M (Option A)
attempt m w = elim (m w).0 [ ok a ↦ (ok (some a), (m w).1) | err e ↦ (ok none, (m w).1) ]

-- The cached quota of an account, if there is one with a status.
unfoldable pub usable_cache : Option State → Str → Option QuotaCache
usable_cache none id = none
usable_cache (some state) id = elim (lookup id state.quota_cache) [
  | none ↦ none
  | some cache ↦
      if quota_status_eq cache.result.status (QuotaStatus.other []) then none else some cache
]

unfoldable pub cached_answer : QuotaCache → Message → QuotaResult
cached_answer cache message = record cache.result {
  source = quota_source_label cache;
  detail = detail_or cache.result.detail message;
}

abbrev answer : QuotaStatus → Str → Message → QuotaResult
answer status source detail = record {
  status = status;
  plan = [];
  account = [];
  source = source;
  detail = detail;
  quotas = [];
}

unfoldable pub leased_answer : Account → Option QuotaCache → QuotaResult
leased_answer account none =
    answer QuotaStatus.error (text "cube lease")
      (refresh_paused account.lease_client_id account.lease_expires_at)
leased_answer account (some cache) =
    cached_answer cache (returning_cached account.lease_client_id account.lease_expires_at)

unfoldable pub leased_quota_response : Account → M QuotaResult
leased_quota_response account = do
  state ← attempt load
  pure (leased_answer account (usable_cache state account.id))

unfoldable pub reported_answer : Option QuotaCache → QuotaResult
reported_answer none =
    answer QuotaStatus.not_configured (text "client report")
      (plain (text "client-owned account; waiting for local cube report"))
reported_answer (some cache) = cached_answer cache (
    if is_empty cache.reporter_client_id
    then client_reported cache.updated_at
    else reported_by cache.reporter_client_id cache.updated_at)

unfoldable pub client_owned_response : Str → M QuotaResult
client_owned_response id = do state ← attempt load; pure (reported_answer (usable_cache state id))

-- The account when it is found and leased.
unfoldable pub leased_account : Option Account → Time → Option Account
leased_account none now = none
leased_account (some account) now = if account_lease_active account now then some account else none

abbrev flatten : Option (Option Account) → Option Account
flatten none = none
flatten (some a) = a

unfoldable pub lease_active_fresh : Str → M (Option Account)
lease_active_fresh id = do
  found ← attempt (do
    acquire_lock
    state ← load
    now ← time_now
    pure (leased_account (find_by (has_id id) state.accounts) now))
  pure (flatten found)

-- `beforeDigest != "" && afterDigest != "" && beforeDigest != afterDigest`: the digest of a file that
-- cannot be read is "".
unfoldable pub auth_changed : (Str → Str) → Option Str → Option Str → Bool
auth_changed digest (some before) (some after) = not (str_eq (digest before) (digest after))
auth_changed digest _ _ = false

abbrev present : Option (Option Str) → Option Str
present none = none
present (some content) = content

module _ (sync_live_auth : Account → M (Unit {0}))
    (fetch_for_codex_home : Str → Time → M (QuotaResult × Option Error)) (digest : Str → Str) where
  -- The last part: the query and the record of its result.
  unfoldable pub probe : Str → Account → Time → M (QuotaResult × Option Error)
  unfolding attempt
  probe id account now = do
    quietly (sync_live_auth account)
    before ← attempt (read_auth account.codex_home)
    result ← fetch_for_codex_home account.codex_home now
    after ← attempt (read_auth account.codex_home)
    let changed = auth_changed digest (present before) (present after)
    quietly (record_quota_result id result.0 changed QuotaSource.cloud [] false)
    pure result

  abbrev answered : M QuotaResult → M (QuotaResult × Option Error)
  answered m = do result ← m; pure (result, none)

  abbrev probe_unless : Option Account → Str → Account → Time → M (QuotaResult × Option Error)
  probe_unless none id account now = probe id account now
  probe_unless (some fresh) id account now = answered (leased_quota_response fresh)

  unfoldable pub fetch_quota : Str → M (QuotaResult × Option Error)
  fetch_quota id = do
    account ← get_account id
    now ← time_now
    if owner_eq account.owner_mode AccountOwnerMode.client
        then answered (client_owned_response id)
        else if account_lease_active account now
        then answered (leased_quota_response account)
        else do fresh ← lease_active_fresh id; probe_unless fresh id account now
