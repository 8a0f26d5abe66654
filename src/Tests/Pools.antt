-- ===== src/Tests/Pools.antt =====
-- Examples of the workspaces and the edits of accounts.
use cube.Prelude.{◌≡◌, refl, text, [], Str, true, some}
use cube.Types.{Account, AccountOwnerMode, WorkspaceRole}
use cube.World.{World}
use cube.Result.{Result, ok}
use cube.Tests.Data.{world, leased, given}
use mathlib.Core.Logic.{◌⊎◌}
use cube.World.Steps.{loaded}
use cube.Workspaces.Members.{set_membership-Grants, remove_membership-Grants, Grants}
use cube.Workspaces.Resolve.{resolve_workspace_for_client-Belongs, Belongs}
use cube.Prelude.{some, none}
use cube.Accounts.Edits.{add_account-Adds, Adds}
use cube.Types.{owner_eq}
use cube.Normalize.{
  account_in_default, assign_user, default_workspace, enroll_clients, has_workspace, is_enrolled,
  legacy_flat_pool, migrate_default_workspace, migrate_users_and_devices, normalize_account,
  normalize_state, normalize_user, synthesize_user, synthesize_users, synthesized_username,
  valid_account_status, valid_owner_mode, valid_workspace_role, workspace_or_default,
}
use cube.Accounts.{add_account, has_id, new_account, set_owner}
use cube.Identity.{
  all_id_chars, candidate, first_unused, is_alphanumeric, is_joiner, matches_account_id, or_profile,
  or_stamp, sanitize_account_id, sanitize_char, sanitize_loop, unique_from_used,
}
use cube.Workspaces.{
  client_exists, concerns, member_of, membership_matches, new_membership, only_workspace, regrade,
  remove_membership, resolve_requested, resolve_workspace_for_client, set_membership,
  upsert_membership, user_exists, workspace_exists,
}
use cube.Prelude.{
  contains, drop_while, exists_by, is_blank, is_empty, is_space, select, str_eq, to_lower, trim_by,
  trim_right, trim_space, update_first,
}
use cube.Prelude.Decimal.{decimal, digits}
use cube.World.{io_step, load, raise_if, save, time_now}
use cube.Types.{owner_eq}

abbrev home : Str
home = text "default"

abbrev granted_run : Result (Unit {0}) × World
granted_run = set_membership home (text "u") WorkspaceRole.admin world

abbrev granted_value : (Unit {0})
granted_value = given tt granted_run.0

granted_succeeds :
    set_membership home (text "u") WorkspaceRole.admin world ≡ (ok granted_value, granted_run.1)
unfolding account_in_default assign_user candidate client_exists concerns contains decimal
    default_workspace digits drop_while enroll_clients exists_by first_unused has_workspace
    is_alphanumeric is_blank is_empty is_enrolled is_joiner is_space legacy_flat_pool load
    membership_matches migrate_default_workspace migrate_users_and_devices new_membership
    normalize_account normalize_state normalize_user or_profile or_stamp raise_if regrade
    sanitize_account_id sanitize_char sanitize_loop save set_membership str_eq synthesize_user
    synthesize_users synthesized_username time_now to_lower trim_by trim_right trim_space
    unique_from_used update_first upsert_membership user_exists valid_account_status
    valid_owner_mode valid_workspace_role workspace_exists workspace_or_default
granted_succeeds = refl

set_membership-Grants_example :
    (valid_workspace_role WorkspaceRole.admin ≡ true)
    × Grants
        (loaded world)
        (trim_space home)
        (trim_space (text "u"))
        (some WorkspaceRole.admin)
        granted_run.1
set_membership-Grants_example =
    set_membership-Grants home (text "u") WorkspaceRole.admin world {u = tt} {w' = granted_run.1}
      granted_succeeds

abbrev removed_run : Result (Unit {0}) × World
removed_run = remove_membership home (text "u") world

abbrev removed_value : (Unit {0})
removed_value = given tt removed_run.0

removed_succeeds : remove_membership home (text "u") world ≡ (ok removed_value, removed_run.1)
unfolding account_in_default assign_user candidate concerns contains decimal default_workspace
    digits drop_while enroll_clients exists_by first_unused has_workspace is_alphanumeric is_blank
    is_empty is_enrolled is_joiner is_space legacy_flat_pool load membership_matches
    migrate_default_workspace migrate_users_and_devices normalize_account normalize_state
    normalize_user or_profile or_stamp raise_if remove_membership sanitize_account_id sanitize_char
    sanitize_loop save select str_eq synthesize_user synthesize_users synthesized_username to_lower
    trim_by trim_right trim_space unique_from_used valid_account_status valid_owner_mode
    workspace_or_default
removed_succeeds = refl

remove_membership-Grants_example : Grants (loaded world) home (text "u") none removed_run.1
remove_membership-Grants_example =
    remove_membership-Grants home (text "u") world {u = tt} {w' = removed_run.1} removed_succeeds

abbrev resolved_run : Result Str × World
resolved_run = resolve_workspace_for_client (text "c") [] world

abbrev resolved_value : Str
resolved_value = given [] resolved_run.0

resolved_succeeds :
    resolve_workspace_for_client (text "c") [] world ≡ (ok resolved_value, resolved_run.1)
unfolding account_in_default assign_user candidate contains decimal default_workspace digits
    drop_while enroll_clients exists_by first_unused has_workspace is_alphanumeric is_blank is_empty
    is_enrolled is_joiner is_space legacy_flat_pool load member_of migrate_default_workspace
    migrate_users_and_devices normalize_account normalize_state normalize_user only_workspace
    or_profile or_stamp resolve_requested resolve_workspace_for_client sanitize_account_id
    sanitize_char sanitize_loop str_eq synthesize_user synthesize_users synthesized_username
    to_lower trim_by trim_right trim_space unique_from_used valid_account_status valid_owner_mode
    workspace_exists workspace_or_default
resolved_succeeds = refl

resolve_workspace_for_client-Belongs_example :
    Belongs (text "c") resolved_value (loaded world).memberships
    × ((is_empty (trim_space []) ≡ true) ⊎ (resolved_value ≡ trim_space []))
resolve_workspace_for_client-Belongs_example =
    resolve_workspace_for_client-Belongs (text "c") [] world {ws = resolved_value}
      {w' = resolved_run.1} resolved_succeeds

abbrev owned_run : Result (Unit {0}) × World
owned_run = set_owner (text "a") AccountOwnerMode.client (text "c") world

abbrev owned_value : (Unit {0})
owned_value = given tt owned_run.0

abbrev added_run : Result Account × World
added_run = add_account (text "d") (text "n") [] world

abbrev added_value : Account
added_value = given leased added_run.0

added_succeeds : add_account (text "d") (text "n") [] world ≡ (ok added_value, added_run.1)
unfolding account_in_default add_account all_id_chars assign_user candidate contains decimal
    default_workspace digits drop_while enroll_clients exists_by first_unused has_id has_workspace
    io_step is_alphanumeric is_blank is_empty is_enrolled is_joiner is_space legacy_flat_pool load
    matches_account_id migrate_default_workspace migrate_users_and_devices new_account
    normalize_account normalize_state normalize_user or_profile or_stamp raise_if
    sanitize_account_id sanitize_char sanitize_loop save str_eq synthesize_user synthesize_users
    synthesized_username time_now to_lower trim_by trim_right trim_space unique_from_used
    valid_account_status valid_owner_mode workspace_or_default
added_succeeds = refl

add_account-Adds_example :
    (added_value.id ≡ trim_space (text "n")) × Adds (loaded world) added_value added_run.1
add_account-Adds_example =
    add_account-Adds (text "d") (text "n") [] world {a = added_value} {w' = added_run.1}
      added_succeeds
