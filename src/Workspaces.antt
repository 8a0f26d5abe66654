-- ===== src/Workspaces.antt =====
-- internal/manager/workspace.go in file mode: the account pools and who may use them.
pub mod Members
pub mod Resolve
pub mod Lists
use cube.Prelude.{
  ◌++◌, Bool, true, false, not, ◌&&◌, ◌||◌, Option, none, some, List, [], ◌∷◌, if◌then◌else◌, Str,
  text, str_eq, trim_space, is_empty, has_prefix, select, exists_by, find_by, update_first,
  contains,
}
use cube.Types.{Time, State, Account, Workspace, WorkspaceRole, Membership, User, Client}
use cube.Normalize.{valid_workspace_role, workspace_or_default, has_workspace}
use cube.Identity.{unique_from_used}
use cube.Result.{
  Error, Result, ok, err, failed, workspace_not_found, principal_not_found, not_a_member,
  not_in_workspace,
}
use cube.World.{M, pure, raise, lift, ◌>>=◌, ◌>>◌, load, save, time_now, time_stamp, raise_if}

abbrev workspace_ids : List Workspace → List Str
workspace_ids [] = []
workspace_ids (ws ∷ workspaces) = ws.id ∷ workspace_ids workspaces

unfoldable pub workspace_exists : State → Str → Bool
workspace_exists state id = exists_by (λ (ws : Workspace). str_eq ws.id id) state.workspaces

unfoldable pub user_exists : State → Str → Bool
user_exists state id = exists_by (λ (u : User). str_eq u.id id) state.users

unfoldable pub client_exists : State → Str → Bool
client_exists state id = exists_by (λ (c : Client). str_eq c.id id) state.clients

-- The id of a new workspace; `uniqueFromUsed` reads the clock when it finds no free id.
unfoldable pub new_workspace_id : Str → Str → List Str → Str
new_workspace_id stamp name used =
    let id = unique_from_used stamp name used in
    if has_prefix id (text "ws-") then id else unique_from_used stamp (text "ws-" ++ id) used

unfoldable pub create_workspace : Str → Str → M Workspace
create_workspace name created_by = do
  let name = trim_space name
  raise_if (is_empty name) (failed (text "workspace name is required"))
  state ← load
  stamp ← time_stamp
  let id = new_workspace_id stamp name (workspace_ids state.workspaces)
  now ← time_now
  let ws : Workspace = record {
    id = id;
    name = name;
    created_by = trim_space created_by;
    created_at = now;
    updated_at = now;
  }
  save (record state { workspaces = state.workspaces ++ (ws ∷ []) })
  pure ws

unfoldable pub membership_matches : Membership → Str → Bool
membership_matches ms principal =
    not (is_empty principal) && (str_eq ms.user_id principal || str_eq ms.client_id principal)

-- The test that the loops over the memberships make.
unfoldable pub concerns : Str → Str → Membership → Bool
unfolding membership_matches
concerns workspace_id principal ms =
    str_eq ms.workspace_id workspace_id && membership_matches ms principal

-- The change to a membership that is there.
unfoldable pub regrade : Bool → Str → WorkspaceRole → Membership → Membership
regrade is_user principal role ms = record ms {
  role = role;
  user_id = if is_user && is_empty ms.user_id then principal else ms.user_id;
}

unfoldable pub new_membership : Bool → Str → Str → WorkspaceRole → Time → Membership
new_membership is_user workspace_id principal role now = record {
  workspace_id = workspace_id;
  user_id = if is_user then principal else [];
  client_id = if is_user then [] else principal;
  role = role;
  created_at = now;
}

-- The loop of `SetMembership` and what follows it.
unfoldable pub upsert_membership : State → Bool → Str → Str → WorkspaceRole → M (Unit {0})
upsert_membership state is_user workspace_id principal role =
    if exists_by (concerns workspace_id principal) state.memberships
    then save (record state {
      memberships =
          update_first (concerns workspace_id principal) (regrade is_user principal role)
            state.memberships;
    })
    else do
      now ← time_now
      let ms = new_membership is_user workspace_id principal role now
      save (record state { memberships = state.memberships ++ (ms ∷ []) })

unfoldable pub set_membership : Str → Str → WorkspaceRole → M (Unit {0})
set_membership workspace_id principal role = do
  let workspace_id = trim_space workspace_id
  let principal = trim_space principal
  raise_if (is_empty workspace_id || is_empty principal)
      (failed (text "workspace id and principal id are required"))
  raise_if (not (valid_workspace_role role)) (failed (text "role must be admin or member"))
  state ← load
  raise_if (not (workspace_exists state workspace_id)) (workspace_not_found workspace_id)
  let is_user = user_exists state principal
  raise_if (not is_user && not (client_exists state principal)) (principal_not_found principal)
  upsert_membership state is_user workspace_id principal role

unfoldable pub remove_membership : Str → Str → M (Unit {0})
remove_membership workspace_id principal = do
  state ← load
  raise_if (not (exists_by (concerns workspace_id principal) state.memberships))
      (not_a_member principal workspace_id)
  save (record state {
    memberships = select (λ ms. not (concerns workspace_id principal ms)) state.memberships;
  })

-- The loop of `MembershipRole`.
unfoldable pub role_in : Str → Str → List Membership → Option WorkspaceRole
unfolding concerns
role_in workspace_id principal [] = none
role_in workspace_id principal (ms ∷ memberships) =
    if concerns workspace_id principal ms
    then some ms.role
    else role_in workspace_id principal memberships

-- An error of Load counts as "no membership".
unfoldable pub membership_role : Str → Str → M (Option WorkspaceRole)
membership_role workspace_id principal w = elim (load w).0 [
  | ok state ↦ (ok (role_in workspace_id principal state.memberships), (load w).1)
  | err e ↦ (ok none, (load w).1)
]

-- The loop of `AccountWorkspace`.
unfoldable pub pool_of : Str → List Account → Option Str
pool_of id [] = none
pool_of id (account ∷ accounts) =
    if str_eq account.id id
    then some (workspace_or_default account.workspace_id)
    else pool_of id accounts

unfoldable pub account_workspace : Str → M (Option Str)
account_workspace id w = elim (load w).0 [
  | ok state ↦ (ok (pool_of id state.accounts), (load w).1)
  | err e ↦ (ok none, (load w).1)
]

unfoldable pub member_of : Str → List Membership → List Str
member_of client_id [] = []
member_of client_id (ms ∷ memberships) =
    let rest = member_of client_id memberships in
    if str_eq ms.client_id client_id then ms.workspace_id ∷ rest else rest

-- The `switch` on the number of workspaces.
unfoldable pub only_workspace : List Str → Result Str
only_workspace [] = err (failed (text "client belongs to no workspace; specify a workspace"))
only_workspace (id ∷ []) = ok id
only_workspace (id ∷ ids) =
    err (failed (text "client belongs to multiple workspaces; specify a workspace"))

unfoldable pub resolve_requested : State → Str → List Str → Result Str
resolve_requested state requested member_of =
    if not (workspace_exists state requested)
    then err (workspace_not_found requested)
    else if contains member_of requested
    then ok requested
    else err (not_in_workspace requested)

unfoldable pub resolve_workspace_for_client : Str → Str → M Str
resolve_workspace_for_client client_id requested = do
  let requested = trim_space requested
  state ← load
  let workspaces = member_of client_id state.memberships
  lift (
      if is_empty requested
      then only_workspace workspaces
      else resolve_requested state requested workspaces)
