-- ===== src/Accounts.antt =====
-- internal/manager/accounts.go in file mode: reading one account, adding one and the single edits of
-- one. A directory is made by a step that may fail; `accounts_dir` is the parent of the new ones.
pub mod Edits
use cube.Prelude.{
  ◌++◌, Bool, true, false, not, Option, none, some, List, [], ◌∷◌, if◌then◌else◌, Str, text, str_eq,
  trim_space, exists_by, find_by, update_first, pos,
}
use cube.Types.{
  Time, zero_time, Message, plain, Account, AccountStatus, AccountOwnerMode, owner_eq, State,
}
use cube.Identity.{matches_account_id}
use cube.Normalize.{valid_account_status, valid_owner_mode, workspace_or_default}
use cube.Workspaces.{workspace_exists}
use cube.Lease.{clear_account_lease, account_lease_active}
use cube.Result.{
  Error, Result, ok, err, failed, account_not_found, account_exists, unknown_status,
  unknown_owner_mode, workspace_not_found,
}
use cube.World.{World, M, pure, raise, lift, ◌>>=◌, ◌>>◌, load, save, time_now, raise_if, io_step}

unfoldable pub has_id : Str → Account → Bool
has_id id account = str_eq account.id id

abbrev or_missing : Option Account → Str → Result Account
or_missing none id = err (account_not_found id)
or_missing (some account) id = ok account

unfoldable pub get_account : Str → M Account
get_account id = do state ← load; lift (or_missing (find_by (has_id id) state.accounts) id)

abbrev leased : Option Account → Time → Bool
leased none now = false
leased (some account) now = account_lease_active account now

unfoldable pub account_has_active_lease : Str → M Bool
account_has_active_lease id = do
  state ← load
  now ← time_now
  pure (leased (find_by (has_id id) state.accounts) now)

unfoldable pub new_account : Str → Str → Str → Time → Account
new_account accounts_dir id label now = record {
  id = id;
  label = label;
  plan = [];
  status = AccountStatus.ready;
  codex_home = accounts_dir ++ text "/" ++ id;
  workspace_id = [];
  owner_mode = AccountOwnerMode.cloud;
  owner_client_id = [];
  generation = pos 0;
  lease_id = [];
  lease_client_id = [];
  lease_holder = [];
  lease_started_at = zero_time;
  lease_heartbeat_at = zero_time;
  lease_expires_at = zero_time;
  created_at = now;
  updated_at = now;
  last_error = plain [];
}

unfoldable pub add_account : Str → Str → Str → M Account
add_account accounts_dir id label = do
  let id = trim_space id
  raise_if (not (matches_account_id id)) (failed (text "account id must match"))
  state ← load
  raise_if (exists_by (has_id id) state.accounts) (account_exists id)
  now ← time_now
  let account = new_account accounts_dir id (trim_space label) now
  io_step
  save (record state { accounts = state.accounts ++ (account ∷ []) })
  pure account

-- The loop of the setters: change the first account with the id and save, or fail.
unfoldable pub edit_account : State → Str → (Time → Account → Account) → M (Unit {0})
edit_account state id f =
    if not (exists_by (has_id id) state.accounts) then raise (account_not_found id) else do
      now ← time_now
      save (record state { accounts = update_first (has_id id) (f now) state.accounts })

unfoldable pub with_status : AccountStatus → Time → Account → Account
with_status status now account = record account { status = status; updated_at = now }

unfoldable pub set_status : Str → AccountStatus → M (Unit {0})
set_status id status = do
  raise_if (not (valid_account_status status)) (unknown_status status)
  state ← load
  edit_account state id (with_status status)

unfoldable pub with_workspace : Str → Time → Account → Account
with_workspace workspace_id now account = record account {
  workspace_id = workspace_id;
  updated_at = now;
}

unfoldable pub set_account_workspace : Str → Str → M (Unit {0})
set_account_workspace id workspace_id = do
  let workspace_id = workspace_or_default workspace_id
  state ← load
  raise_if (not (workspace_exists state workspace_id)) (workspace_not_found workspace_id)
  edit_account state id (with_workspace workspace_id)

unfoldable pub with_label : Str → Time → Account → Account
with_label label now account = record account { label = label; updated_at = now }

unfoldable pub set_label : Str → Str → M (Unit {0})
set_label id label = do state ← load; edit_account state id (with_label (trim_space label))

-- An account given to a client loses its lease.
unfoldable pub with_owner : AccountOwnerMode → Str → Time → Account → Account
with_owner owner_mode owner_client_id now account =
    let owned = record account {
      owner_mode = owner_mode;
      owner_client_id = trim_space owner_client_id;
    } in
    let cleared =
      if owner_eq owner_mode AccountOwnerMode.client then clear_account_lease owned else owned in
    record cleared { updated_at = now }

unfoldable pub set_owner : Str → AccountOwnerMode → Str → M (Unit {0})
set_owner id owner_mode owner_client_id = do
  raise_if (not (valid_owner_mode owner_mode)) (unknown_owner_mode owner_mode)
  state ← load
  edit_account state id (with_owner owner_mode owner_client_id)
