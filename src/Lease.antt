-- ===== src/Lease.antt =====
-- internal/manager/lease.go: what the lease operations do to the state, and the checks they make.
pub mod Sweep
pub mod Lookup
pub mod Touch
pub mod Release
pub mod Update
pub mod Claim
pub mod Table
pub mod Refine
pub mod Failure
use cube.Prelude.{
  ℕ, zero, suc, ◌+◌, ◌-◌, ◌^◌, set, ℤ, pos, negsuc, ◌*◌, ◌==◌, Bool, true, false, not, ◌&&◌, ◌||◌,
  Option, none, some, List, [], ◌∷◌, ltb, if◌then◌else◌, Str, text, str_eq, trim_space, is_empty,
  is_blank,
}
use cube.Types.{
  Time, zero_time, is_zero, after, second, minute, Message, lease_expired, AccountStatus, status_eq,
  Account, Lease, State, DispatchEvent,
}
use cube.Dispatch.{dispatch_event_from_account, append_dispatch_event}
use cube.Result.{
  Error, Result, ok, err, ◌>>=◌, ◌>>◌, fail_if, lease_missing_for, lease_missing, not_held_by,
  lease_has_expired, belongs_to_client,
}

-- internal/manager/settings.go: the first text that is not blank, trimmed.
unfoldable pub first_non_empty : List Str → Str
first_non_empty [] = []
first_non_empty (value ∷ values) =
    if is_blank value then first_non_empty values else trim_space value

unfoldable pub account_lease_active : Account → Time → Bool
account_lease_active account now =
    not (is_blank account.lease_id)
    && not (is_zero account.lease_expires_at)
    && after account.lease_expires_at now

unfoldable pub lease_from_account : Account → Lease
lease_from_account account = record {
  id = account.lease_id;
  account_id = account.id;
  client_id = account.lease_client_id;
  holder = account.lease_holder;
  generation = account.generation;
  started_at = account.lease_started_at;
  heartbeat_at = account.lease_heartbeat_at;
  expires_at = account.lease_expires_at;
}

unfoldable pub clear_account_lease : Account → Account
clear_account_lease account = record account {
  lease_id = [];
  lease_client_id = [];
  lease_holder = [];
  lease_started_at = zero_time;
  lease_heartbeat_at = zero_time;
  lease_expires_at = zero_time;
}

-- A negative duration is below 30 seconds too, and is written as 0.
unfoldable pub normalize_lease_ttl : ℕ → ℕ
normalize_lease_ttl ttl =
    if ltb ttl (30 * second)
    then 90 * second
    else if ltb (30 * minute) ttl
    then 30 * minute
    else ttl

-- The two `continue` tests of `expireAccountLeases`.
unfoldable pub is_due : Account → Time → Bool
is_due account now =
    not (is_blank account.lease_id)
    && not (is_zero account.lease_expires_at || after account.lease_expires_at now)

-- What happens to an account whose lease is due.
unfoldable pub expire_account : Time → Account → Account
unfolding clear_account_lease
expire_account now account =
    let cleared = clear_account_lease account in
    record cleared {
      status =
          if status_eq account.status AccountStatus.ready
          then AccountStatus.recovering
          else account.status;
      last_error = lease_expired account.lease_id now;
      updated_at = now;
    }

pub record Swept : Type 0 where
  pub accounts : List Account
  pub dispatches : List DispatchEvent
  pub expired : List Str
  pub changed : Bool

abbrev prepend_expired : Account → Str → Swept → Swept
prepend_expired account id s = record {
  accounts = account ∷ s.accounts;
  dispatches = s.dispatches;
  expired = id ∷ s.expired;
  changed = true;
}

abbrev prepend_kept : Account → Swept → Swept
prepend_kept account s = record s { accounts = account ∷ s.accounts }

-- The loop over the accounts, with the trail so far.
unfoldable pub sweep_accounts : State → Time → List DispatchEvent → List Account → Swept
sweep_accounts state now dispatches [] = record {
  accounts = [];
  dispatches = dispatches;
  expired = [];
  changed = false;
}
sweep_accounts state now dispatches (account ∷ accounts) =
    let event = dispatch_event_from_account state account (text "expired") now in
    let swept = sweep_accounts state now (append_dispatch_event dispatches event) accounts in
    let kept = sweep_accounts state now dispatches accounts in
    if is_due account now
    then prepend_expired (expire_account now account) account.id swept
    else prepend_kept account kept

unfoldable pub expire_account_leases : State → Time → State × List Str × Bool
expire_account_leases state now =
    let s = sweep_accounts state now state.dispatches state.accounts in
    (record state { accounts = s.accounts; dispatches = s.dispatches }, s.expired, s.changed)

-- Does the account pass both `continue` tests of `findLeaseAccount`?
unfoldable pub lease_matches : Str → Str → Account → Bool
lease_matches account_id lease_id account =
    (is_empty account_id || str_eq account.id account_id)
    && (is_empty lease_id || str_eq account.lease_id lease_id)

unfoldable pub find_from : Str → Str → ℕ → List Account → Option (ℕ × Account)
find_from account_id lease_id i [] = none
find_from account_id lease_id i (account ∷ accounts) =
    if lease_matches account_id lease_id account
    then some (i, account)
    else find_from account_id lease_id (suc i) accounts

abbrev found_or : Option (ℕ × Account) → Error → Result (ℕ × Account)
found_or none e = err e
found_or (some a) e = ok a

unfoldable pub find_lease_account : State → Str → Str → Result (ℕ × Account)
find_lease_account state account_id lease_id =
    let account_id = trim_space account_id in
    let lease_id = trim_space lease_id in
    found_or (find_from account_id lease_id 0 state.accounts) (
      if is_empty account_id then lease_missing lease_id else lease_missing_for lease_id account_id)

unfoldable pub validate_lease : Account → Str → Str → Time → Result (Unit {0})
validate_lease account lease_id client_id now = do
  let lease_id = trim_space lease_id
  let client_id = trim_space client_id
  fail_if (is_empty lease_id || not (str_eq account.lease_id lease_id))
      (not_held_by account.id lease_id)
  fail_if (not (account_lease_active account now)) (lease_has_expired lease_id account.id)
  fail_if
      (not (is_empty client_id)
        && not (is_empty account.lease_client_id)
        && not (str_eq account.lease_client_id client_id))
      (belongs_to_client lease_id account.lease_client_id)

-- `int64(x)++`
unfoldable pub increment : ℤ → ℤ
increment (pos n) = if suc n == 2 ^ 63 then negsuc (2 ^ 63 - 1) else pos (suc n)
increment (negsuc zero) = pos 0
increment (negsuc (suc n)) = negsuc n

-- `state.Accounts[index] = account`
unfoldable pub put_account : State → ℕ → Account → State
put_account state index account = record state { accounts = set state.accounts index account }

-- The first result of `expireAccountLeases`.
unfoldable pub swept_state : State → Time → State
swept_state state now = (expire_account_leases state now).0
