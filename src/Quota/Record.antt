-- ===== src/Quota/Record.antt =====
-- What recording a quota result does to the accounts (`writeQuotaResultLocked`, `RecordLeasedQuota`
-- and `RecordQuotaReport` of internal/manager/quota.go).
use cube.Prelude.{◌≡◌, ◌≢◌, ◌⊎◌, true, false, some, List, Str, trim_space, find_by, All2}
use cube.Prelude.Dict.{Dict, lookup}
use cube.Types.{Time, is_zero, Account, QuotaResult, QuotaCache, State}
use cube.Lease.{account_lease_active}
use cube.Result.{Result}
use cube.Accounts.{has_id}
use cube.World.{World, tick}
use cube.World.Steps.{loaded}
use cube.Quota.Moves.{Noted}

-- The loaded state of the write, and what it leaves.
pub record Writes (before : State) (id : Str) (r : QuotaResult) (R : Account → Account → Type 0)
    (w' : World) : Type 0 where
  pub cache : QuotaCache
  pub cached : lookup id w'.document.quota_cache ≡ some cache
  pub cached_result : cache.result ≡ r
  pub other_caches :
      (j : Str) → j ≢ id → lookup j w'.document.quota_cache ≡ lookup j before.quota_cache
  pub accounts : All2 R before.accounts w'.document.accounts

-- The account of that id is leased at the time, under these two ids.
pub record LeasedBy (id lease_id client_id : Str) (now : Time) (l : List Account) : Type 0 where
  pub account : Account
  pub found : find_by (has_id id) l ≡ some account
  pub live : account_lease_active account now ≡ true
  pub lease : trim_space account.lease_id ≡ lease_id
  pub client : trim_space account.lease_client_id ≡ client_id

-- The time given, or for a zero one the clock's at the first step of the run.
abbrev pub Given : World → Time → Time → Type 0
Given w now t =
    ((is_zero now ≡ true) × (t ≡ w.env.clock w.step)) ⊎ ((is_zero now ≡ false) × (t ≡ now))

-- What a successful report under a lease has shown and done: `v` is the state of the files that the
-- check and the write both saw, those of the beginning.
pub record LeasedReport (id lid cid : Str) (r : QuotaResult) (now : Time) (w w' : World)
    : Type 0 where
  pub time : Time
  pub given_time : Given w now time
  pub v : World
  pub unchanged : v.document ≡ w.document
  pub holder : LeasedBy (trim_space id) (trim_space lid) (trim_space cid) time (loaded v).accounts
  pub writes : Writes (loaded (tick v)) (trim_space id) r (Noted r.status) w'
