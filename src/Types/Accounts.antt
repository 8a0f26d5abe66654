-- ===== src/Types/Accounts.antt =====
-- internal/manager/manager.go: accounts, leases and profile snapshots. int64 generations are ℤ.
use cube.Prelude.{Bool, true, false, Option, Str, str_eq, ℤ}
use cube.Types.Clock.{Time}
use cube.Types.Quota.{Message, QuotaResult, Window}

-- `other` is any text that is none of the constants.
pub data AccountStatus : Type 0 where
  ready recovering drain disabled : AccountStatus
  other : Str → AccountStatus

unfoldable pub status_eq : AccountStatus → AccountStatus → Bool
status_eq AccountStatus.ready AccountStatus.ready = true
status_eq AccountStatus.recovering AccountStatus.recovering = true
status_eq AccountStatus.drain AccountStatus.drain = true
status_eq AccountStatus.disabled AccountStatus.disabled = true
status_eq (AccountStatus.other s) (AccountStatus.other t) = str_eq s t
status_eq _ _ = false

pub data AccountOwnerMode : Type 0 where
  cloud client : AccountOwnerMode
  other : Str → AccountOwnerMode

unfoldable pub owner_eq : AccountOwnerMode → AccountOwnerMode → Bool
owner_eq AccountOwnerMode.cloud AccountOwnerMode.cloud = true
owner_eq AccountOwnerMode.client AccountOwnerMode.client = true
owner_eq (AccountOwnerMode.other s) (AccountOwnerMode.other t) = str_eq s t
owner_eq _ _ = false

pub data QuotaSource : Type 0 where
  cloud client : QuotaSource
  other : Str → QuotaSource

pub record Account : Type 0 where
  pub id : Str
  pub label : Str
  pub plan : Str
  pub status : AccountStatus
  pub codex_home : Str
  pub workspace_id : Str
  pub owner_mode : AccountOwnerMode
  pub owner_client_id : Str
  pub generation : ℤ
  pub lease_id : Str
  pub lease_client_id : Str
  pub lease_holder : Str
  pub lease_started_at : Time
  pub lease_heartbeat_at : Time
  pub lease_expires_at : Time
  pub created_at : Time
  pub updated_at : Time
  pub last_error : Message

pub record Lease : Type 0 where
  pub id : Str
  pub account_id : Str
  pub client_id : Str
  pub holder : Str
  pub generation : ℤ
  pub started_at : Time
  pub heartbeat_at : Time
  pub expires_at : Time

-- `auth` is the raw JSON text.
pub record ProfileSnapshot : Type 0 where
  pub id : Str
  pub label : Str
  pub plan : Str
  pub status : AccountStatus
  pub auth : Str
  pub config : Str
  pub source_client : Str
  pub owner_mode : AccountOwnerMode
  pub owner_client_id : Str
  pub lease_id : Str
  pub generation : ℤ
  pub updated_at : Time

pub record LeaseSnapshot : Type 0 where
  pub lease : Lease
  pub snapshot : ProfileSnapshot

pub record QuotaCache : Type 0 where
  pub account_id : Str
  pub updated_at : Time
  pub result : QuotaResult
  pub five_hour : Option Window
  pub source : QuotaSource
  pub reporter_client_id : Str
