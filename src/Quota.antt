-- ===== src/Quota.antt =====
-- internal/manager/quota.go in file mode: what is recorded of a quota result, and what FetchQuota
-- answers. The query itself (`quota.FetchForCodexHome`) is a parameter.
pub mod Moves
pub mod Record
pub mod Fetch
pub mod Client
pub mod Protocol
pub mod Supported
use cube.Prelude.{
  ◌++◌, Bool, true, false, not, ◌&&◌, ◌||◌, Option, none, some, List, [], ◌∷◌, if◌then◌else◌, Str,
  text, str_eq, trim_space, is_empty, is_blank, update_first,
}
use cube.Prelude.Dict.{Dict, insert, lookup}
use cube.Types.{
  Time, zero_time, is_zero, Message, plain, Account, AccountStatus, status_eq, AccountOwnerMode,
  QuotaSource, QuotaStatus, quota_status_eq, QuotaResult, QuotaCache, State,
}
use cube.Accounts.{has_id}
use cube.Windows.{quota_five_hour}
use cube.Lease.{increment, account_lease_active}
use cube.Result.{Error, Result, ok, err, failed, account_not_found, not_leased_by}
use cube.World.{
  World, M, pure, raise, lift, ◌>>=◌, ◌>>◌, load, save, time_now, raise_if, acquire_lock,
}

unfoldable pub quota_source_label : QuotaCache → Str
quota_source_label cache = elim cache.source [
  | QuotaSource.client ↦
      if is_empty cache.reporter_client_id
      then text "client report"
      else text "client report:" ++ cache.reporter_client_id
  | QuotaSource.cloud ↦ text "cloud refresh"
  | QuotaSource.other s ↦ s
]

-- `if source == "" { source = QuotaSourceCloud }`
unfoldable pub source_or_cloud : QuotaSource → QuotaSource
source_or_cloud (QuotaSource.other s) =
    if is_empty s then QuotaSource.cloud else QuotaSource.other s
source_or_cloud QuotaSource.cloud = QuotaSource.cloud
source_or_cloud QuotaSource.client = QuotaSource.client

unfoldable pub is_client : QuotaSource → Bool
is_client QuotaSource.client = true
is_client _ = false

-- The bodies of the loops of `writeQuotaResultLocked`.
unfoldable pub flip_owner : Str → Time → Account → Account
flip_owner reporter now account = record account {
  owner_mode = AccountOwnerMode.client;
  owner_client_id = if is_blank reporter then account.owner_client_id else trim_space reporter;
  updated_at = now;
}

unfoldable pub note_invalid : Message → Time → Account → Account
note_invalid detail now account = record account {
  status =
      if status_eq account.status AccountStatus.ready
        || status_eq account.status AccountStatus.recovering
      then AccountStatus.drain
      else account.status;
  last_error = detail;
  updated_at = now;
}

unfoldable pub note_supported : Str → Bool → Time → Account → Account
note_supported plan auth_changed now account = record account {
  plan = if is_blank plan then account.plan else plan;
  status =
      if status_eq account.status AccountStatus.recovering
      then AccountStatus.ready
      else account.status;
  last_error = plain [];
  generation = if auth_changed then increment account.generation else account.generation;
  updated_at = now;
}

unfoldable pub note_changed : Time → Account → Account
note_changed now account = record account {
  generation = increment account.generation;
  updated_at = now;
}

unfoldable pub record_outcome : Str → QuotaResult → Bool → Time → List Account → List Account
record_outcome id result auth_changed now accounts =
    if quota_status_eq result.status QuotaStatus.refresh_invalid
    then update_first (has_id id) (note_invalid result.detail now) accounts
    else if quota_status_eq result.status QuotaStatus.supported
    then update_first (has_id id) (note_supported result.plan auth_changed now) accounts
    else if auth_changed
    then update_first (has_id id) (note_changed now) accounts
    else accounts

unfoldable pub flip_owners : Str → QuotaSource → Str → Bool → Time → List Account → List Account
flip_owners id source reporter flip now accounts =
    if flip && is_client source
    then update_first (has_id id) (flip_owner reporter now) accounts
    else accounts

unfoldable pub new_cache : Str → QuotaResult → QuotaSource → Str → Time → QuotaCache
new_cache id result source reporter now = record {
  account_id = id;
  updated_at = now;
  result = result;
  five_hour = quota_five_hour result;
  source = source;
  reporter_client_id = trim_space reporter;
}

-- The clock is read once for the cache and once before each loop.
unfoldable pub write_quota_result_locked :
    Str → QuotaResult → Bool → QuotaSource → Str → Bool → M (Unit {0})
write_quota_result_locked id result auth_changed source reporter flip = do
  state ← load
  let source = source_or_cloud source
  cached_at ← time_now
  flipped_at ← time_now
  noted_at ← time_now
  save (record state {
    quota_cache = insert id (new_cache id result source reporter cached_at) state.quota_cache;
    accounts =
        record_outcome id result auth_changed noted_at
          (flip_owners id source reporter flip flipped_at state.accounts);
  })

unfoldable pub record_quota_result :
    Str → QuotaResult → Bool → QuotaSource → Str → Bool → M (Unit {0})
record_quota_result id result auth_changed source reporter flip =
    if is_blank id
    then pure tt
    else do acquire_lock; write_quota_result_locked id result auth_changed source reporter flip

unfoldable pub record_quota_report : Str → QuotaResult → Str → M (Unit {0})
record_quota_report id result client_id =
    record_quota_result id result false QuotaSource.client (trim_space client_id) true

-- The loop of `verifyLeaseHolderLocked`.
unfoldable pub verify_among : Str → Str → Str → Time → List Account → Result (Unit {0})
verify_among account_id lease_id client_id now [] = err (account_not_found account_id)
verify_among account_id lease_id client_id now (account ∷ accounts) =
    if not (has_id account_id account)
    then verify_among account_id lease_id client_id now accounts
    else if not (account_lease_active account now)
    then err (not_leased_by account_id client_id)
    else if not (str_eq (trim_space account.lease_id) lease_id)
        || not (str_eq (trim_space account.lease_client_id) client_id)
    then err (not_leased_by account_id client_id)
    else ok tt

unfoldable pub verify_lease_holder_locked : Str → Str → Str → Time → M (Unit {0})
verify_lease_holder_locked account_id lease_id client_id now = do
  state ← load
  lift (verify_among account_id lease_id client_id now state.accounts)

-- `if now.IsZero() { now = time.Now() }`
unfoldable pub now_or : Time → M Time
now_or now = if is_zero now then time_now else pure now

unfoldable pub record_leased_quota : Str → Str → Str → QuotaResult → Time → M (Unit {0})
record_leased_quota account_id lease_id client_id result now = do
  let account_id = trim_space account_id
  let lease_id = trim_space lease_id
  let client_id = trim_space client_id
  raise_if (is_empty account_id) (failed (text "account id is required"))
  now ← now_or now
  acquire_lock
  verify_lease_holder_locked account_id lease_id client_id now
  write_quota_result_locked account_id result false QuotaSource.client client_id false
