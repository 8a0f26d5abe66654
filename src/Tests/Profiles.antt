-- ===== src/Tests/Profiles.antt =====
-- Examples of profiles that are uploaded and deleted, and of a call that fails.
use cube.Prelude.{◌≡◌, refl, text, [], true, false, some}
use cube.Types.{minute, Lease, Account}
use cube.World.{World}
use cube.Result.{Result, ok}
use cube.Tests.Data.{world, leased, given}
use cube.Prelude.{none, is_empty, false, trim_space}
use cube.Result.{err, lease_missing_for, lease_not_found}
use cube.Usage.Json.{Fields}
use cube.Profiles.Auth.{Codec}
use cube.Profiles.Upsert.{JsonProfile}
use cube.Profiles.Delete.{Paths}
use cube.Profiles.Deleted.{Deletes, delete_account-Deletes}
use cube.Lease.Failure.{OnlySwept, touch_lease-OnlySwept, release_lease-OnlySwept}
use cube.Lease.Release.{or_not_found, release_lease, released, released_state}
use cube.Normalize.{
  account_in_default, assign_user, default_workspace, enroll_clients, has_workspace, is_enrolled,
  legacy_flat_pool, migrate_default_workspace, migrate_users_and_devices, normalize_account,
  normalize_state, normalize_user, synthesize_user, synthesize_users, synthesized_username,
  valid_account_status, valid_owner_mode, workspace_or_default,
}
use cube.Lease.{
  account_lease_active, clear_account_lease, expire_account, expire_account_leases, find_from,
  find_lease_account, first_non_empty, is_due, lease_from_account, lease_matches,
  normalize_lease_ttl, put_account, sweep_accounts, swept_state, validate_lease,
}
use cube.World.{
  acquire_lock, io_step, load, load_round_robin, or_save, raise_if, reset_round_robin, save,
  save_round_robin, time_now,
}
use cube.Dispatch.{
  append_dispatch_event, client_label_from_state, copy_events, dispatch_event_from_account,
  dispatch_event_id, unix_nano,
}
use cube.Usage.Json.{at}
use cube.Identity.{
  candidate, first_unused, is_alphanumeric, is_joiner, or_profile, or_stamp, sanitize_account_id,
  sanitize_char, sanitize_loop, unique_from_used,
}
use cube.Prelude.{
  contains, drop_while, exists_by, find_by, is_blank, is_empty, is_space, str_eq, to_lower, trim_by,
  trim_right, trim_space,
}
use cube.Prelude.Decimal.{decimal, digits}
use cube.Profiles.Delete.{forget_round_robin, remove_all, validate_managed_codex_home}
use cube.Types.{status_eq}
use cube.Lease.Touch.{touch_lease, touched}
-- Every auth is an empty object.
use cube.Normalize.{
  account_in_default, assign_user, default_workspace, enroll_clients, has_workspace, is_enrolled,
  legacy_flat_pool, migrate_default_workspace, migrate_users_and_devices, normalize_account,
  normalize_state, normalize_user, synthesize_user, synthesize_users, synthesized_username,
  valid_account_status, valid_owner_mode, workspace_or_default,
}
use cube.Lease.{account_lease_active, put_account}
use cube.Accounts.{has_id}
use cube.Identity.{
  candidate, first_unused, is_alphanumeric, is_joiner, or_profile, or_stamp, sanitize_account_id,
  sanitize_char, sanitize_loop, unique_from_used,
}
use cube.Usage.Json.{at}
use cube.Prelude.{
  contains, drop_while, exists_by, find_by, is_blank, is_empty, is_space, str_eq, to_lower, trim_by,
  trim_right, trim_space,
}
use cube.Prelude.Decimal.{decimal, digits}
use cube.Profiles.Delete.{
  delete_account, forget_round_robin, remove_all, remove_first, validate_managed_codex_home,
}
use cube.Profiles.Upsert.{upsert_json_profile}
use cube.World.{
  io_step, load, load_round_robin, raise_if, reset_round_robin, save, save_round_robin, time_now,
}

abbrev codec : Codec
codec = record { decode = λ s. some Fields.no_fields; base64 = λ s. some s; digest = λ s. s }

abbrev upload : JsonProfile
upload = record { id = text "b"; label = []; auth = text "{}" }

abbrev paths : Paths
paths = record {
  same = λ a b. false;
  within = λ a b. true;
  live_home = text "live";
  default_home = none;
  accounts_dir = text "accounts";
}

abbrev uploaded_run : Result Account × World
uploaded_run = upsert_json_profile codec (text "d") upload world

abbrev uploaded_value : Account
uploaded_value = given leased uploaded_run.0

abbrev deleted_run : Result Account × World
deleted_run = delete_account paths (text "b") world

abbrev deleted_value : Account
deleted_value = given leased deleted_run.0

deleted_succeeds : delete_account paths (text "b") world ≡ (ok deleted_value, deleted_run.1)
unfolding account_in_default assign_user at candidate contains decimal default_workspace
    delete_account digits drop_while enroll_clients exists_by find_by first_unused
    forget_round_robin has_id has_workspace is_alphanumeric is_blank is_empty is_enrolled is_joiner
    is_space legacy_flat_pool load load_round_robin migrate_default_workspace
    migrate_users_and_devices normalize_account normalize_state normalize_user or_profile or_stamp
    raise_if remove_all remove_first reset_round_robin sanitize_account_id sanitize_char
    sanitize_loop save save_round_robin str_eq synthesize_user synthesize_users synthesized_username
    to_lower trim_by trim_right trim_space unique_from_used valid_account_status valid_owner_mode
    validate_managed_codex_home workspace_or_default
deleted_succeeds = refl

delete_account-Deletes_example : Deletes paths (text "b") world deleted_value deleted_run.1
delete_account-Deletes_example =
    delete_account-Deletes paths (text "b") world {a = deleted_value} {w' = deleted_run.1}
      deleted_succeeds

abbrev denied_run : Result Lease × World
denied_run = touch_lease (text "l2") (text "a") (text "c") [] minute world

denied_fails :
    touch_lease (text "l2") (text "a") (text "c") [] minute world
    ≡ (err (lease_missing_for (text "l2") (text "a")), denied_run.1)
unfolding account_in_default account_lease_active acquire_lock append_dispatch_event assign_user at
    candidate clear_account_lease client_label_from_state contains copy_events decimal
    default_workspace digits dispatch_event_from_account dispatch_event_id drop_while enroll_clients
    exists_by expire_account expire_account_leases find_by find_from find_lease_account
    first_non_empty first_unused forget_round_robin has_workspace io_step is_alphanumeric is_blank
    is_due is_empty is_enrolled is_joiner is_space lease_from_account lease_matches legacy_flat_pool
    load load_round_robin migrate_default_workspace migrate_users_and_devices normalize_account
    normalize_lease_ttl normalize_state normalize_user or_profile or_save or_stamp put_account
    raise_if remove_all reset_round_robin sanitize_account_id sanitize_char sanitize_loop save
    save_round_robin status_eq str_eq sweep_accounts swept_state synthesize_user synthesize_users
    synthesized_username time_now to_lower touch_lease touched trim_by trim_right trim_space
    unique_from_used unix_nano valid_account_status valid_owner_mode validate_lease
    validate_managed_codex_home workspace_or_default
denied_fails = refl

touch_lease-OnlySwept_example : OnlySwept world denied_run.1
touch_lease-OnlySwept_example =
    touch_lease-OnlySwept (text "l2") (text "a") (text "c") [] minute world
      {e = lease_missing_for (text "l2") (text "a")} {w' = denied_run.1} denied_fails

abbrev refused_run : Result (Unit {0}) × World
refused_run = release_lease (text "a") (text "l2") (text "c") world

refused_fails :
    release_lease (text "a") (text "l2") (text "c") world
    ≡ (err (lease_not_found (lease_missing_for (text "l2") (text "a"))), refused_run.1)
unfolding account_in_default account_lease_active acquire_lock append_dispatch_event assign_user at
    candidate clear_account_lease client_label_from_state contains copy_events decimal
    default_workspace digits dispatch_event_from_account dispatch_event_id drop_while enroll_clients
    exists_by expire_account expire_account_leases find_by find_from find_lease_account
    first_non_empty first_unused forget_round_robin has_workspace io_step is_alphanumeric is_blank
    is_due is_empty is_enrolled is_joiner is_space lease_from_account lease_matches legacy_flat_pool
    load load_round_robin migrate_default_workspace migrate_users_and_devices normalize_account
    normalize_lease_ttl normalize_state normalize_user or_profile or_save or_stamp put_account
    raise_if remove_all reset_round_robin sanitize_account_id sanitize_char sanitize_loop save
    save_round_robin status_eq str_eq sweep_accounts swept_state synthesize_user synthesize_users
    synthesized_username time_now to_lower or_not_found release_lease released released_state
    trim_by trim_right trim_space unique_from_used unix_nano valid_account_status valid_owner_mode
    validate_lease validate_managed_codex_home workspace_or_default
refused_fails = refl

release_lease-OnlySwept_example : OnlySwept world refused_run.1
release_lease-OnlySwept_example =
    release_lease-OnlySwept (text "a") (text "l2") (text "c") world
      {e = lease_not_found (lease_missing_for (text "l2") (text "a"))} {w' = refused_run.1}
      refused_fails
