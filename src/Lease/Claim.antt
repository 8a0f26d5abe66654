-- ===== src/Lease/Claim.antt =====
-- `RecoverExpiredLeases` and `ClaimLease` of internal/manager/lease.go.
pub mod Keeps
pub mod Available
pub mod Taken
pub mod Fresh
use cube.Prelude.{
  ℕ, suc, ◌+◌, ◌++◌, Bool, true, false, not, ◌&&◌, ◌||◌, Option, none, some, List, [], ◌∷◌,
  if◌then◌else◌, Str, text, str_eq, trim_space, is_empty, pos,
}
use cube.Prelude.Dict.{lookup}
use cube.Types.{
  Time, zero_time, after, Message, plain, Account, Lease, LeaseSnapshot, ProfileSnapshot,
  QuotaStatus, QuotaSource, QuotaCache, State,
}
use cube.Accounts.{get_account}
use cube.Normalize.{workspace_or_default}
use cube.Dispatch.{dispatch_event_from_account, append_dispatch_event}
use cube.Balance.{load_balance_eligibility_for_account}
use cube.Balance.Select.{Candidate, sort_slice, choose, the_choice}
use cube.Lease.{
  lease_from_account, normalize_lease_ttl, expire_account_leases, put_account, swept_state,
}
use cube.Result.{Error, Result, ok, err, failed}
use cube.World.{
  World, M, pure, raise, lift, quietly, ◌>>=◌, ◌>>◌, acquire_lock, load, save, time_now,
  random_text, load_round_robin, save_round_robin, read_auth,
}

-- The sweep under the lock, with the ids whose lease had run out.
unfoldable pub sweep_locked : M (List Str)
sweep_locked = do
  acquire_lock
  state ← load
  now ← time_now
  let swept = expire_account_leases state now
  if not swept.2 then pure swept.1 else do save swept.0; pure swept.1

-- The re-probes, one account after the other, their errors dropped.
unfoldable pub probe_all {ℓ} : {A : Type ℓ} → (Str → M A) → List Str → M (Unit {0})
probe_all fetch_quota [] = pure tt
probe_all fetch_quota (id ∷ ids) = do quietly (fetch_quota id); probe_all fetch_quota ids

unfoldable pub recover_expired_leases {ℓ} : {A : Type ℓ} → (Str → M A) → M (Unit {0})
recover_expired_leases fetch_quota = do expired ← sweep_locked; probe_all fetch_quota expired

-- What a missing entry of the quota cache reads as.
abbrev empty_cache : QuotaCache
empty_cache = record {
  account_id = [];
  updated_at = zero_time;
  result = record {
    status = QuotaStatus.other [];
    plan = [];
    account = [];
    source = [];
    detail = plain [];
    quotas = [];
  };
  five_hour = none;
  source = QuotaSource.other [];
  reporter_client_id = [];
}

unfoldable pub cache_of : State → Str → QuotaCache
cache_of state id = elim (lookup id state.quota_cache) [ none ↦ empty_cache | some cache ↦ cache ]

-- `accountAuthPresent`
unfoldable pub auth_present : World → Str → Bool
auth_present w home = elim (w.auth home) [ none ↦ false | some content ↦ true ]

-- The tests of the loop of `ClaimLease` for one account.
unfoldable pub in_pool : Str → Account → Bool
in_pool workspace_id account =
    is_empty workspace_id || str_eq (workspace_or_default account.workspace_id) workspace_id

-- A candidate's account is given with its index.
unfoldable pub candidates :
    (Str → Bool) → State → Time → Str → ℕ → List Account → List (Candidate (ℕ × Account))
candidates present state now workspace_id i [] = []
candidates present state now workspace_id i (account ∷ accounts) =
    let rest = candidates present state now workspace_id (suc i) accounts in
    let evaluation =
      load_balance_eligibility_for_account account (present account.codex_home)
        (cache_of state account.id) now in
    if in_pool workspace_id account && evaluation.eligible
    then record { account = (i, account); id = account.id; score = evaluation.score } ∷ rest
    else rest

-- What a claim makes of the account.
unfoldable pub leased_to : Str → Str → Str → ℕ → Time → Account → Account
leased_to lease_id client_id holder ttl now account = record account {
  lease_id = lease_id;
  lease_client_id = trim_space client_id;
  lease_holder = trim_space holder;
  lease_started_at = now;
  lease_heartbeat_at = now;
  lease_expires_at = now + normalize_lease_ttl ttl;
  updated_at = now;
}

-- `ExportProfileSnapshot`. The time of the file's last change is not in the model: the snapshot's
-- time is the account's.
unfoldable pub snapshot_of : Account → Str → ProfileSnapshot
snapshot_of account auth = record {
  id = account.id;
  label = account.label;
  plan = account.plan;
  status = account.status;
  auth = auth;
  config = [];
  source_client = [];
  owner_mode = account.owner_mode;
  owner_client_id = account.owner_client_id;
  lease_id = [];
  generation = account.generation;
  updated_at = account.updated_at;
}

abbrev or_no_auth : Option Str → Result Str
or_no_auth none = err (failed (text "account has no auth.json"))
or_no_auth (some content) = ok content

unfoldable pub snapshot_from_file : Account → M ProfileSnapshot
snapshot_from_file account = do
  content ← read_auth account.codex_home
  content ← lift (or_no_auth content)
  λ w. pure (snapshot_of account (w.env.pretty_json content)) w

unfoldable pub export_profile_snapshot : Str → M ProfileSnapshot
export_profile_snapshot id = get_account id >>= snapshot_from_file

unfoldable pub claimed_state : State → Time → ℕ → Account → State
claimed_state state now index account =
    put_account
      (record state {
        dispatches = append_dispatch_event state.dispatches (
            dispatch_event_from_account (put_account state index account) account (text "claimed")
              now);
      })
      index account

-- From the choice on.
unfoldable pub lease_out : State → Time → Str → Str → ℕ → ℕ × Account → M LeaseSnapshot
lease_out state now client_id holder ttl selected = do
  random ← random_text
  let lease_id = text "lease_" ++ random
  let account = leased_to lease_id client_id holder ttl now selected.1
  save (claimed_state state now selected.0 account)
  quietly (save_round_robin account.id)
  snapshot ← export_profile_snapshot account.id
  pure record {
    lease = lease_from_account account;
    snapshot = record snapshot {
      lease_id = lease_id;
      generation = account.generation;
      source_client = account.lease_holder;
    };
  }

abbrev pub nothing_available : Error
nothing_available =
    failed (text "no ready, unleased account with auth.json and available 5h quota is available")

unfoldable pub claim_from :
    State → Time → Str → Str → ℕ → List (Candidate (ℕ × Account)) → M LeaseSnapshot
claim_from state now client_id holder ttl [] = do save state; raise nothing_available
claim_from state now client_id holder ttl (x ∷ xs) = do
  last ← load_round_robin
  λ w.
      let selected = the_choice x (choose last (sort_slice w.env.long_sort (x ∷ xs))) in
      lease_out state now client_id holder ttl selected.account w

unfoldable pub claim_locked : Str → Str → Str → ℕ → M LeaseSnapshot
claim_locked client_id holder workspace_id ttl = do
  acquire_lock
  loaded ← load
  now ← time_now
  let state = swept_state loaded now
  λ w.
      claim_from state now client_id holder ttl
        (candidates (auth_present w) state now (trim_space workspace_id) 0 state.accounts) w

-- `fetch_quota` is FetchQuota.
unfoldable pub claim_lease {ℓ} : {A : Type ℓ} → (Str → M A) → Str → Str → Str → ℕ → M LeaseSnapshot
claim_lease fetch_quota client_id holder workspace_id ttl = do
  recover_expired_leases fetch_quota
  claim_locked client_id holder workspace_id ttl
