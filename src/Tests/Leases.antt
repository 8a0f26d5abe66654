-- ===== src/Tests/Leases.antt =====
-- Examples of the lease operations.
use cube.Prelude.{◌+◌, ◌≡◌, refl, text, []}
use cube.Types.{minute, Lease, Account, ProfileSnapshot}
use cube.World.{World}
use cube.Result.{Result, ok}
use cube.Tests.Data.{world, state, leased, given, noon}
use cube.Lease.Touch.{touch_lease-ok, Touches}
use cube.Lease.Release.{release_lease-ok, Releases}
use cube.Lease.Update.{update_leased_profile_snapshot-ok, Updates}
use cube.Lease.Sweep.{expire_account_leases_lem, SweepsLeases}
use cube.Lease.Claim.{snapshot_of}
use cube.Normalize.{
  account_in_default, assign_user, default_workspace, enroll_clients, has_workspace, is_enrolled,
  legacy_flat_pool, migrate_default_workspace, migrate_users_and_devices, normalize_account,
  normalize_state, normalize_user, synthesize_user, synthesize_users, synthesized_username,
  valid_account_status, valid_owner_mode, workspace_or_default,
}
use cube.Lease.{
  account_lease_active, clear_account_lease, expire_account, expire_account_leases, find_from,
  find_lease_account, first_non_empty, increment, is_due, lease_from_account, lease_matches,
  normalize_lease_ttl, put_account, sweep_accounts, swept_state, validate_lease,
}
use cube.World.{
  acquire_lock, io_step, load, or_save, raise_if, require_json, save, time_now, write_auth,
  write_profile_files,
}
use cube.Dispatch.{
  append_dispatch_event, client_label_from_state, copy_events, dispatch_event_from_account,
  dispatch_event_id, unix_nano,
}
use cube.Identity.{
  candidate, first_unused, is_alphanumeric, is_joiner, or_profile, or_stamp, sanitize_account_id,
  sanitize_char, sanitize_loop, unique_from_used,
}
use cube.Prelude.{
  contains, drop_while, exists_by, find_by, is_blank, is_empty, is_space, str_eq, to_lower, trim_by,
  trim_right, trim_space,
}
use cube.Prelude.Decimal.{decimal, digits}
use cube.Lease.Update.{is_given, update_leased_profile_snapshot, update_locked, updated}
use cube.Lease.Release.{or_not_found, release_lease, released, released_state}
use cube.Lease.Claim.{snapshot_of}
use cube.Types.{status_eq}
use cube.Lease.Touch.{touch_lease, touched}

abbrev update : ProfileSnapshot
update = record (snapshot_of leased (text "{}")) { lease_id = text "l" }

abbrev touched_run : Result Lease × World
touched_run = touch_lease (text "l") (text "a") (text "c") [] minute world

abbrev touched_value : Lease
touched_value = given (lease_from_account leased) touched_run.0

touched_succeeds :
    touch_lease (text "l") (text "a") (text "c") [] minute world ≡ (ok touched_value, touched_run.1)
unfolding account_in_default account_lease_active acquire_lock append_dispatch_event assign_user
    candidate clear_account_lease client_label_from_state contains copy_events decimal
    default_workspace digits dispatch_event_from_account dispatch_event_id drop_while enroll_clients
    exists_by expire_account expire_account_leases find_by find_from find_lease_account
    first_non_empty first_unused has_workspace io_step is_alphanumeric is_blank is_due is_empty
    is_enrolled is_joiner is_space lease_from_account lease_matches legacy_flat_pool load
    migrate_default_workspace migrate_users_and_devices normalize_account normalize_lease_ttl
    normalize_state normalize_user or_profile or_save or_stamp put_account sanitize_account_id
    sanitize_char sanitize_loop save status_eq str_eq sweep_accounts swept_state synthesize_user
    synthesize_users synthesized_username time_now to_lower touch_lease touched trim_by trim_right
    trim_space unique_from_used unix_nano valid_account_status valid_owner_mode validate_lease
    workspace_or_default
touched_succeeds = refl

touch_lease-ok_example :
    Touches (text "l") (text "a") (text "c") [] minute world touched_value touched_run.1
touch_lease-ok_example =
    touch_lease-ok (text "l") (text "a") (text "c") [] minute world {lease = touched_value}
      {w' = touched_run.1} touched_succeeds

abbrev released_run : Result (Unit {0}) × World
released_run = release_lease (text "a") (text "l") (text "c") world

abbrev released_value : (Unit {0})
released_value = given tt released_run.0

released_succeeds :
    release_lease (text "a") (text "l") (text "c") world ≡ (ok released_value, released_run.1)
unfolding account_in_default account_lease_active acquire_lock append_dispatch_event assign_user
    candidate clear_account_lease client_label_from_state contains copy_events decimal
    default_workspace digits dispatch_event_from_account dispatch_event_id drop_while enroll_clients
    exists_by expire_account expire_account_leases find_by find_from find_lease_account first_unused
    has_workspace io_step is_alphanumeric is_blank is_due is_empty is_enrolled is_joiner is_space
    lease_matches legacy_flat_pool load migrate_default_workspace migrate_users_and_devices
    normalize_account normalize_state normalize_user or_not_found or_profile or_stamp put_account
    release_lease released released_state sanitize_account_id sanitize_char sanitize_loop save
    status_eq str_eq sweep_accounts swept_state synthesize_user synthesize_users
    synthesized_username time_now to_lower trim_by trim_right trim_space unique_from_used unix_nano
    valid_account_status valid_owner_mode validate_lease workspace_or_default
released_succeeds = refl

release_lease-ok_example : Releases (text "a") (text "l") (text "c") world released_run.1
release_lease-ok_example =
    release_lease-ok (text "a") (text "l") (text "c") world {u = tt} {w' = released_run.1}
      released_succeeds

abbrev updated_run : Result Account × World
updated_run = update_leased_profile_snapshot update (text "c") minute world

abbrev updated_value : Account
updated_value = given leased updated_run.0

updated_succeeds :
    update_leased_profile_snapshot update (text "c") minute world
    ≡ (ok updated_value, updated_run.1)
unfolding account_in_default account_lease_active acquire_lock append_dispatch_event assign_user
    candidate clear_account_lease client_label_from_state contains copy_events decimal
    default_workspace digits dispatch_event_from_account dispatch_event_id drop_while enroll_clients
    exists_by expire_account expire_account_leases find_by find_from find_lease_account
    first_non_empty first_unused has_workspace increment io_step is_alphanumeric is_blank is_due
    is_empty is_enrolled is_given is_joiner is_space lease_matches legacy_flat_pool load
    migrate_default_workspace migrate_users_and_devices normalize_account normalize_lease_ttl
    normalize_state normalize_user or_profile or_save or_stamp put_account raise_if require_json
    sanitize_account_id sanitize_char sanitize_loop save snapshot_of status_eq str_eq sweep_accounts
    swept_state synthesize_user synthesize_users synthesized_username time_now to_lower trim_by
    trim_right trim_space unique_from_used unix_nano update_leased_profile_snapshot update_locked
    updated valid_account_status valid_owner_mode validate_lease workspace_or_default write_auth
    write_profile_files
updated_succeeds = refl

update_leased_profile_snapshot-ok_example :
    Updates update (text "c") minute world updated_value updated_run.1
update_leased_profile_snapshot-ok_example =
    update_leased_profile_snapshot-ok update (text "c") minute world {account = updated_value}
      {w' = updated_run.1} updated_succeeds

expire_account_leases_lem_example :
    SweepsLeases state (noon + minute) (expire_account_leases state (noon + minute))
expire_account_leases_lem_example = expire_account_leases_lem state (noon + minute)
