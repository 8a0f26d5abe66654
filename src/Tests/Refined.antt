-- ===== src/Tests/Refined.antt =====
-- An example of a call against the abstract table.
use cube.Prelude.{◌≡◌, refl, text, [], Str}
use cube.Types.{minute}
use cube.World.{World, M, pure}
use cube.Result.{Result, ok}
use cube.Tests.Data.{world, given}
use cube.Prelude.{◌≤◌, arith}
use cube.Types.{zero_time}
use cube.Lease.Lookup.{now_at}
use cube.Lease.Refine.Calls.{Call, touching, step_of, Begins, run-Refines}
use cube.Lease.Refine.{Refines}
use cube.Normalize.{
  account_in_default, assign_user, default_workspace, enroll_clients, has_workspace, is_enrolled,
  legacy_flat_pool, migrate_default_workspace, migrate_users_and_devices, normalize_account,
  normalize_state, normalize_user, synthesize_user, synthesize_users, synthesized_username,
  valid_account_status, valid_owner_mode, workspace_or_default,
}
use cube.Lease.{
  account_lease_active, clear_account_lease, expire_account, expire_account_leases, find_from,
  find_lease_account, first_non_empty, increment, is_due, lease_from_account, lease_matches,
  normalize_lease_ttl, put_account, sweep_accounts, swept_state, validate_lease,
}
use cube.World.{
  acquire_lock, io_step, load, load_round_robin, or_save, raise_if, random_text, read_auth,
  require_json, save, save_round_robin, time_now, write_auth, write_profile_files,
}
use cube.Dispatch.{
  append_dispatch_event, client_label_from_state, copy_events, dispatch_event_from_account,
  dispatch_event_id, unix_nano,
}
use cube.Usage.Json.{at}
use cube.Quota.Fetch.{
  attempt, auth_changed, cached_answer, client_owned_response, detail_or, fetch_quota,
  lease_active_fresh, leased_account, leased_answer, leased_quota_response, probe, reported_answer,
  usable_cache,
}
use cube.Lease.Claim.{
  auth_present, cache_of, candidates, claim_from, claim_lease, claim_locked, claimed_state,
  export_profile_snapshot, in_pool, lease_out, leased_to, probe_all, recover_expired_leases,
  snapshot_from_file, snapshot_of, sweep_locked,
}
use cube.Windows.{binding, binding_window, quota_five_hour, quota_seven_day}
use cube.Identity.{
  candidate, first_unused, is_alphanumeric, is_joiner, or_profile, or_stamp, sanitize_account_id,
  sanitize_char, sanitize_loop, unique_from_used,
}
use cube.Balance.Select.{
  choose, chosen_index, find_last, less, load_balance_top_group_len, next_index, same_prefix,
  sort_slice, the_choice,
}
use cube.Balance.{
  clamp_percent, evaluate_load_balance_fields, exclusion_reason, five_hour_reason,
  load_balance_eligibility_for_account, load_balance_quota_evaluation, load_balance_quota_score,
  near_reset_pressure, same_load_balance_score, seven_day_reason,
}
use cube.Prelude.{
  contains, drop_while, equal_fold, exists_by, find_by, is_blank, is_empty, is_space, str_eq,
  str_lt, to_lower, trim_by, trim_right, trim_space, update_first,
}
use cube.Prelude.Decimal.{decimal, digits}
use cube.Quota.{
  flip_owner, flip_owners, is_client, new_cache, note_changed, note_invalid, note_supported,
  quota_source_label, record_outcome, record_quota_result, source_or_cloud,
  write_quota_result_locked,
}
use cube.Accounts.{get_account, has_id}
use cube.Prelude.Dict.{insert, lookup}
use cube.Prelude.Sort.{insert_back, insertion_sort, sort_by}
use cube.Passwords.{is_digit}
use cube.Lease.Update.{is_given, update_leased_profile_snapshot, update_locked, updated}
use cube.Usage.Tally.{max_int64}
use cube.Lease.Release.{or_not_found, release_lease, released, released_state}
use cube.Types.{owner_eq, quota_status_eq, status_eq}
use cube.Rfc3339.{parse_rfc3339}
use cube.Lease.Refine.Calls.{run}
use cube.Lease.Touch.{touch_lease, touched}

abbrev no_probe : Str → M (Unit {0})
no_probe id = pure tt

abbrev call : Call
call = touching (text "l") (text "a") (text "c") [] minute

abbrev ran_run : Result (Unit {0}) × World
ran_run = run no_probe call world

abbrev ran_value : (Unit {0})
ran_value = given tt ran_run.0

ran_succeeds : run no_probe call world ≡ (ok ran_value, ran_run.1)
unfolding account_in_default account_lease_active acquire_lock append_dispatch_event assign_user at
    attempt auth_changed auth_present binding binding_window cache_of cached_answer candidate
    candidates choose chosen_index claim_from claim_lease claim_locked claimed_state clamp_percent
    clear_account_lease client_label_from_state client_owned_response contains copy_events decimal
    default_workspace detail_or digits dispatch_event_from_account dispatch_event_id drop_while
    enroll_clients equal_fold evaluate_load_balance_fields exclusion_reason exists_by expire_account
    expire_account_leases export_profile_snapshot fetch_quota find_by find_from find_last
    find_lease_account first_non_empty first_unused five_hour_reason flip_owner flip_owners
    get_account has_id has_workspace in_pool increment insert insert_back insertion_sort io_step
    is_alphanumeric is_blank is_client is_digit is_due is_empty is_enrolled is_given is_joiner
    is_space lease_active_fresh lease_from_account lease_matches lease_out leased_account
    leased_answer leased_quota_response leased_to legacy_flat_pool less load
    load_balance_eligibility_for_account load_balance_quota_evaluation load_balance_quota_score
    load_balance_top_group_len load_round_robin lookup max_int64 migrate_default_workspace
    migrate_users_and_devices near_reset_pressure new_cache next_index normalize_account
    normalize_lease_ttl normalize_state normalize_user note_changed note_invalid note_supported
    or_not_found or_profile or_save or_stamp owner_eq parse_rfc3339 probe probe_all put_account
    quota_five_hour quota_seven_day quota_source_label quota_status_eq raise_if random_text
    read_auth record_outcome record_quota_result recover_expired_leases release_lease released
    released_state reported_answer require_json run same_load_balance_score same_prefix
    sanitize_account_id sanitize_char sanitize_loop save save_round_robin seven_day_reason
    snapshot_from_file snapshot_of sort_by sort_slice source_or_cloud status_eq str_eq str_lt
    sweep_accounts sweep_locked swept_state synthesize_user synthesize_users synthesized_username
    the_choice time_now to_lower touch_lease touched trim_by trim_right trim_space unique_from_used
    unix_nano update_first update_leased_profile_snapshot update_locked updated usable_cache
    valid_account_status valid_owner_mode validate_lease workspace_or_default write_auth
    write_profile_files write_quota_result_locked
ran_succeeds = refl

later : (v : World) → Begins no_probe call world v → zero_time ≤ now_at v
later v e = rw e (omega arith)

run-Refines_example :
    (v : World) × Begins no_probe call world v × Refines (step_of call) v ran_run.1
run-Refines_example = run-Refines no_probe call world {u = tt} {w' = ran_run.1} ran_succeeds later
