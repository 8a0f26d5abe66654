-- ===== src/Web/Access.antt =====
-- internal/web/workspace_handlers.go, auth_handlers.go and quota_worker.go: who may do what, and which
-- accounts the worker asks about.
use cube.Prelude.{
  Bool, true, false, not, ◌&&◌, ◌||◌, Option, none, some, List, [], ◌∷◌, if◌then◌else◌, Str,
  is_empty,
}
use cube.Types.{
  Time, after, AccountStatus, status_eq, AccountOwnerMode, owner_eq, WorkspaceRole, QuotaStatus,
}
use cube.Rfc3339.{parse_rfc3339}
use cube.Workspaces.{account_workspace, membership_role}
use cube.Result.{ok}
use cube.World.{M, pure, quietly, ◌>>=◌, ◌>>◌}
use cube.Listing.Queue.{RefreshQueueItem}

-- `requestAuth`: what the request has shown of its sender.
pub record RequestAuth : Type 0 where
  pub admin : Bool
  pub client_id : Str
  pub user_id : Str
  pub device_id : Str
  pub session_id : Str

unfoldable pub user_is_platform_admin : RequestAuth → Bool
user_is_platform_admin auth = auth.admin

abbrev pub is_admin_role : Option WorkspaceRole → Bool
is_admin_role (some WorkspaceRole.admin) = true
is_admin_role _ = false

abbrev pub is_role : Option WorkspaceRole → Bool
is_role none = false
is_role (some role) = true

-- Whether the action is allowed; the answer that a refusal writes is left out.
unfoldable pub require_workspace_admin : RequestAuth → Str → M Bool
require_workspace_admin auth workspace_id =
    if auth.admin
    then pure true
    else do role ← membership_role workspace_id auth.client_id; pure (is_admin_role role)

abbrev pub require_member : RequestAuth → Option Str → M Bool
require_member auth none = pure true
require_member auth (some workspace_id) = do
  role ← membership_role workspace_id auth.client_id
  pure (is_role role)

-- An account that is not known is left to the manager.
unfoldable pub require_account_report_access : RequestAuth → Str → M Bool
require_account_report_access auth account_id =
    if auth.admin
    then pure true
    else do workspace_id ← account_workspace account_id; require_member auth workspace_id

abbrev is_unset : QuotaStatus → Bool
is_unset (QuotaStatus.other s) = is_empty s
is_unset _ = false

-- A text that does not parse is in the past.
unfoldable pub quota_worker_should_refresh : RefreshQueueItem → Time → Bool
quota_worker_should_refresh item now =
    owner_eq ((item.view).account).owner_mode AccountOwnerMode.cloud
    && status_eq ((item.view).account).status AccountStatus.ready
    && (item.view).auth_present
    && not (item.view).lease_active
    && (is_unset item.quota_status
        || is_empty (item.bound_by).resets_at
        || not (after (parse_rfc3339 (item.bound_by).resets_at) now))

-- `fetch` is FetchQuota, whose errors are only logged.
unfoldable pub refresh_due {ℓ} :
    {A : Type ℓ} → (Str → M A) → Time → List RefreshQueueItem → M (Unit {0})
refresh_due fetch now [] w = (ok tt, w)
refresh_due fetch now (item ∷ items) w =
    (if quota_worker_should_refresh item now
        then quietly (fetch ((item.view).account).id) >> refresh_due fetch now items
        else refresh_due fetch now items)
      w
