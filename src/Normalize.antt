-- ===== src/Normalize.antt =====
-- internal/manager/manager.go: `normalizeState` and the two migrations that each Load runs. The time
-- and its stamp, `now.Format("20060102-150405")`, are arguments.
pub mod Accounts
pub mod Migration
use cube.Prelude.{
  ℕ, ◌==◌, ltb, Bool, true, false, not, ◌&&◌, ◌||◌, Option, none, some, List, [], ◌∷◌, ◌++◌, map,
  if◌then◌else◌, exists_by, Str, text, str_eq, trim_space, to_lower, is_empty, is_blank, ℤ, pos,
  negsuc, contains,
}
use cube.Types.{
  Time, zero_time, Account, AccountStatus, AccountOwnerMode, State, Client, User, Workspace,
  Membership, WorkspaceRole,
}
use cube.Identity.{sanitize_account_id, unique_from_used}

unfoldable pub valid_account_status : AccountStatus → Bool
valid_account_status AccountStatus.ready = true
valid_account_status AccountStatus.recovering = true
valid_account_status AccountStatus.drain = true
valid_account_status AccountStatus.disabled = true
valid_account_status (AccountStatus.other s) = false

unfoldable pub valid_owner_mode : AccountOwnerMode → Bool
valid_owner_mode AccountOwnerMode.cloud = true
valid_owner_mode AccountOwnerMode.client = true
valid_owner_mode (AccountOwnerMode.other s) = false

unfoldable pub valid_workspace_role : WorkspaceRole → Bool
valid_workspace_role WorkspaceRole.admin = true
valid_workspace_role WorkspaceRole.member = true
valid_workspace_role (WorkspaceRole.other s) = false

abbrev pub default_workspace_id : Str
default_workspace_id = text "default"

unfoldable pub workspace_or_default : Str → Str
workspace_or_default id = if is_blank id then default_workspace_id else id

abbrev at_least_zero : ℤ → ℤ
at_least_zero (pos n) = pos n
at_least_zero (negsuc n) = pos 0

unfoldable pub normalize_account : Account → Account
unfolding workspace_or_default
normalize_account a = record a {
  status = if not (valid_account_status a.status) then AccountStatus.ready else a.status;
  owner_mode = if not (valid_owner_mode a.owner_mode) then AccountOwnerMode.cloud else a.owner_mode;
  workspace_id = workspace_or_default a.workspace_id;
  generation = at_least_zero a.generation;
}

unfoldable pub normalize_user : User → User
normalize_user u = record u { username = to_lower (trim_space u.username) }

unfoldable pub has_workspace : List Workspace → Str → Bool
unfolding exists_by
has_workspace workspaces id = exists_by (λ w. str_eq w.id id) workspaces

abbrev list_empty {ℓ} : {A : Type ℓ} → List A → Bool
list_empty [] = true
list_empty (x ∷ xs) = false

unfoldable pub default_workspace : Time → Workspace
default_workspace now = record {
  id = default_workspace_id;
  name = text "Default";
  created_by = [];
  created_at = now;
  updated_at = now;
}

-- The set `existing` is keyed by both ids; it holds the default pool's key of a client when some
-- membership of the default pool names the client.
unfoldable pub is_enrolled : List Membership → Str → Bool
unfolding exists_by
is_enrolled memberships client_id =
    exists_by (λ m. str_eq m.workspace_id default_workspace_id && str_eq m.client_id client_id)
      memberships

-- The loop of the one-time enrolment. Reading the memberships as they grow is reading `existing`,
-- to which the loop adds the key of each client that it enrols.
unfoldable pub enroll_clients : Time → List Client → List Membership → List Membership
enroll_clients now [] memberships = memberships
enroll_clients now (client ∷ clients) memberships = enroll_clients now clients (
    if is_enrolled memberships client.id
    then memberships
    else memberships
      ++ record {
        workspace_id = default_workspace_id;
        user_id = [];
        client_id = client.id;
        role = WorkspaceRole.member;
        created_at = now;
      }
        ∷ [])

unfoldable pub legacy_flat_pool : State → Bool
legacy_flat_pool state =
    not state.workspace_migrated && list_empty state.workspaces && not (list_empty state.accounts)

unfoldable pub account_in_default : List Account → Bool
unfolding exists_by
account_in_default accounts = exists_by (λ a. str_eq a.workspace_id default_workspace_id) accounts

unfoldable pub migrate_default_workspace : Time → State → State
migrate_default_workspace now state =
    let legacy = legacy_flat_pool state in
    let workspaces =
      if (account_in_default state.accounts || legacy)
        && not (has_workspace state.workspaces default_workspace_id)
      then state.workspaces ++ default_workspace now ∷ []
      else state.workspaces in
    if not legacy then record state { workspaces = workspaces } else record state {
      workspaces = workspaces;
      memberships = enroll_clients now state.clients state.memberships;
      workspace_migrated = true;
    }

-- The variables that the loop over the clients changes; `clients` are those it is done with.
pub record Synthesis : Type 0 where
  pub clients : List Client
  pub users : List User
  pub memberships : List Membership
  pub used_user_ids : List Str
  pub used_usernames : List Str

unfoldable pub synthesized_username : Str → Client → List Str → Str
synthesized_username stamp client used =
    let label = trim_space client.label in
    let base = if is_empty label then client.id else label in
    let username = to_lower (sanitize_account_id base) in
    unique_from_used stamp (if is_empty username then text "user" else username) used

unfoldable pub assign_user : Str → Str → List Membership → List Membership
assign_user client_id user_id memberships =
    map
      (λ (m : Membership).
        if str_eq m.client_id client_id && is_blank m.user_id
        then record m { user_id = user_id }
        else m)
      memberships

unfoldable pub synthesize_user : Time → Str → Client → Synthesis → Synthesis
synthesize_user now stamp client s =
    let username = synthesized_username stamp client s.used_usernames in
    let user_id = unique_from_used stamp (text "user-" ++ username) s.used_user_ids in
    let user : User = record {
      id = user_id;
      username = username;
      password_hash = [];
      created_at = client.created_at;
      updated_at = now;
      last_login_at = zero_time;
      disabled_at = none;
    } in
    record {
      clients = s.clients ++ record client { user_id = user_id } ∷ [];
      users = s.users ++ user ∷ [];
      memberships = assign_user client.id user_id s.memberships;
      used_user_ids = user_id ∷ s.used_user_ids;
      used_usernames = username ∷ s.used_usernames;
    }

unfoldable pub synthesize_users : Time → Str → List Client → Synthesis → Synthesis
synthesize_users now stamp [] s = s
synthesize_users now stamp (client ∷ clients) s = synthesize_users now stamp clients (
    if not (is_blank client.user_id)
    then record s { clients = s.clients ++ client ∷ [] }
    else synthesize_user now stamp client s)

unfoldable pub migrate_users_and_devices : Time → Str → State → State
migrate_users_and_devices now stamp state =
    let s = synthesize_users now stamp state.clients (record {
      clients = [];
      users = state.users;
      memberships = state.memberships;
      used_user_ids = [];
      used_usernames = [];
    }) in
    if state.user_device_migrated
    then state
    else if not (list_empty state.users) || list_empty state.clients
    then record state { user_device_migrated = true }
    else record state {
      clients = s.clients;
      users = s.users;
      memberships = s.memberships;
      user_device_migrated = true;
    }

unfoldable pub normalize_state : Time → Str → State → State
normalize_state now stamp state =
    let normalized = record state {
      version = if state.version == 0 then 1 else state.version;
      accounts = map normalize_account state.accounts;
      users = map normalize_user state.users;
    } in
    migrate_users_and_devices now stamp (migrate_default_workspace now normalized)
