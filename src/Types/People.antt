-- ===== src/Types/People.antt =====
-- internal/manager/manager.go: clients (devices), users, sessions, workspaces and memberships.
use cube.Prelude.{Option, Str}
use cube.Types.Clock.{Time}

pub record Client : Type 0 where
  pub id : Str
  pub user_id : Str
  pub label : Str
  pub token_hash : Str
  pub created_at : Time
  pub last_seen_at : Time
  pub revoked_at : Option Time

pub record User : Type 0 where
  pub id : Str
  pub username : Str
  pub password_hash : Str
  pub created_at : Time
  pub updated_at : Time
  pub last_login_at : Time
  pub disabled_at : Option Time

pub record Session : Type 0 where
  pub id : Str
  pub token_hash : Str
  pub user_id : Str
  pub created_at : Time
  pub expires_at : Time
  pub last_seen_at : Time

pub data WorkspaceRole : Type 0 where
  admin member : WorkspaceRole
  other : Str → WorkspaceRole

pub record Workspace : Type 0 where
  pub id : Str
  pub name : Str
  pub created_by : Str
  pub created_at : Time
  pub updated_at : Time

pub record Membership : Type 0 where
  pub workspace_id : Str
  pub user_id : Str
  pub client_id : Str
  pub role : WorkspaceRole
  pub created_at : Time
