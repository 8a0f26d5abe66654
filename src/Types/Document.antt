-- ===== src/Types/Document.antt =====
-- internal/manager/manager.go: the state document, with the audit trail and the usage totals.
use cube.Prelude.{ℕ, Bool, Option, List, Str, ℤ}
use cube.Prelude.Dict.{Dict}
use cube.Types.Clock.{Time}
use cube.Types.Accounts.{Account, QuotaCache}
use cube.Types.People.{Client, User, Session, Workspace, Membership}

-- internal/usage/codex.go. An int64 is its bit pattern, below 2 ^ 64.
pub record Tokens : Type 0 where
  pub input : ℕ
  pub cached_input : ℕ
  pub output : ℕ
  pub total : ℕ

-- `latest_at`, here and below, is the time that the text denotes, in whole seconds; none for "".
pub record ModelUsage : Type 0 where
  pub model : Str
  pub today : Tokens
  pub seven_days : Tokens
  pub all_time : Tokens
  pub latest_at : Option Time

pub record AccountUsage : Type 0 where
  pub account_id : Str
  pub client_id : Str
  pub updated_at : Time
  pub latest_at : Option Time
  pub latest_model : Str
  pub today : Tokens
  pub seven_days : Tokens
  pub all_time : Tokens
  pub models : List ModelUsage

pub record DispatchEvent : Type 0 where
  pub id : Str
  pub lease_id : Str
  pub account_id : Str
  pub account_label : Str
  pub client_id : Str
  pub client_label : Str
  pub user_id : Str
  pub username : Str
  pub device_id : Str
  pub device_label : Str
  pub holder : Str
  pub event : Str
  pub generation : ℤ
  pub created_at : Time
  pub started_at : Time
  pub expires_at : Time

pub record State : Type 0 where
  pub version : ℕ
  pub accounts : List Account
  pub clients : List Client
  pub users : List User
  pub sessions : List Session
  pub workspaces : List Workspace
  pub memberships : List Membership
  pub workspace_migrated : Bool
  pub user_device_migrated : Bool
  pub usage : Dict AccountUsage
  pub quota_cache : Dict QuotaCache
  pub dispatches : List DispatchEvent
