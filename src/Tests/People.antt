-- ===== src/Tests/People.antt =====
-- Examples of users, sessions and devices.
use cube.Prelude.{◌+◌, ◌≡◌, refl, ◌∷◌, text, [], Str, true, false, ℕ, some}
use cube.World.{World}
use cube.Result.{Result, ok}
use cube.Tests.Data.{world, state, given, noon}
use cube.Prelude.{
  none, ◌≢◌, arith, ◌-◌, ap, suc, zero, to_lower, trim_space, All, false, length, exists_by,
  find_by,
}
use cube.Types.{Client}
use cube.World.{tick}
use cube.World.Steps.{loaded}
use cube.Tests.Data.{client, user}
use cube.Passwords.{Crypto}
use cube.Passwords.Check.{check_password-hash_password, IsSound}
use cube.Users.{UserView}
use cube.Users.Unique.{create_user-DistinctNames, DistinctNames}
use cube.Sessions.{has_token_hash}
use cube.Sessions.Lifecycle.{
  set_user_password-LoggedOut, set_user_disabled-LoggedOut, create_session-Opens, LoggedOut, Ended,
  Opens,
}
use cube.Devices.{ClientView}
use cube.Devices.Tokens.{
  revoke_device-authenticated, create_device-Enrolls, Enrolls, DistinctClients,
}
use cube.Devices.{
  accepts, authenticated, client_view, create_device, generate_device_token, has_client_id,
  new_client, revoke, revoke_device, with_revoked,
}
use cube.Normalize.{
  account_in_default, assign_user, default_workspace, enroll_clients, has_workspace, is_enrolled,
  legacy_flat_pool, migrate_default_workspace, migrate_users_and_devices, normalize_account,
  normalize_state, normalize_user, synthesize_user, synthesize_users, synthesized_username,
  valid_account_status, valid_owner_mode, workspace_or_default,
}
use cube.Identity.{
  candidate, first_unused, is_alphanumeric, is_joiner, or_profile, or_stamp, sanitize_account_id,
  sanitize_char, sanitize_loop, unique_from_used,
}
use cube.Passwords.{
  check_decoded, check_parts, check_password, hash_password, hash_token, is_digit, key_matches,
  or_io, scan_digits, scan_positive, split_on, stored_password,
}
use cube.Prelude.{
  contains, drop_while, equal_fold, exists_by, find_by, is_blank, is_empty, is_space, select,
  str_eq, to_lower, trim_by, trim_right, trim_space, update_first,
}
use cube.Users.{
  count_devices, create_user, drop_user_sessions, has_user_id, has_username, new_user,
  set_user_disabled, set_user_password, user_view, with_disabled, with_password,
}
use cube.Sessions.{create_session, generate_session_token, new_session, with_login}
use cube.Prelude.Decimal.{decimal, digits}
use cube.World.{load, raise_if, random_text, save, time_now, time_stamp}
use cube.Workspaces.{user_exists}

abbrev shifted : Str → Str
shifted [] = []
shifted (c ∷ s) = (37 + c) ∷ shifted s

abbrev unshifted : Str → Str
unshifted [] = []
unshifted (c ∷ s) = (c - 37) ∷ unshifted s

abbrev zeros : ℕ → Str
zeros zero = []
zeros (suc n) = 0 ∷ zeros n

-- A digest and a key for tests, and an encoding without "$".
abbrev crypto : Crypto
crypto = record {
  digest = λ s. s;
  derive = λ password salt n size. some (zeros size);
  encode = shifted;
  decode = λ s. some (unshifted s);
}

unshifted-shifted : (s : Str) → unshifted (shifted s) ≡ s
unshifted-shifted [] = refl
unshifted-shifted (c ∷ s) = ground (arith, unshifted-shifted s)

shifted-NoDollar : (s : Str) → All (λ c. c ≢ b'$') (shifted s)
shifted-NoDollar [] = tt
shifted-NoDollar (c ∷ s) = (ground arith, shifted-NoDollar s)

length-zeros : (n : ℕ) → length (zeros n) ≡ n
length-zeros zero = refl
length-zeros (suc n) = ap suc (length-zeros n)

crypto-IsSound : IsSound crypto
crypto-IsSound = record {
  decodes = λ s. ap some (unshifted-shifted s);
  no_dollar = shifted-NoDollar;
  key_length = λ p s n size {key} h. ground (arith, length-zeros size);
}

abbrev nobody : UserView
nobody = record {
  id = [];
  username = [];
  created_at = 0;
  last_login_at = 0;
  disabled = false;
  device_count = 0;
}

abbrev no_view : ClientView
no_view = record {
  id = [];
  user_id = [];
  label = [];
  created_at = 0;
  last_seen_at = 0;
  revoked_at = none;
  active = false;
}

-- Two devices.
abbrev second : Client
second = record client { id = text "d"; token_hash = text "h2" }

abbrev two : World
two = record world { document = record state { clients = client ∷ second ∷ [] } }

abbrev hashed_run : Result Str × World
hashed_run = hash_password crypto (text "secret1") world

abbrev hashed_value : Str
hashed_value = given [] hashed_run.0

hashed_succeeds : hash_password crypto (text "secret1") world ≡ (ok hashed_value, hashed_run.1)
unfolding hash_password or_io random_text stored_password
hashed_succeeds = refl

check_password-hash_password_example : check_password crypto hashed_value (text "secret1") ≡ true
check_password-hash_password_example =
    check_password-hash_password crypto (text "secret1") world {stored = hashed_value}
      {w' = hashed_run.1} crypto-IsSound hashed_succeeds

abbrev joined_run : Result UserView × World
joined_run = create_user crypto (text "Bob") (text "secret1") world

abbrev joined_value : UserView
joined_value = given nobody joined_run.0

joined_succeeds :
    create_user crypto (text "Bob") (text "secret1") world ≡ (ok joined_value, joined_run.1)
unfolding account_in_default assign_user candidate contains count_devices create_user decimal
    default_workspace digits drop_while enroll_clients equal_fold exists_by first_unused
    has_username has_workspace hash_password is_alphanumeric is_blank is_empty is_enrolled is_joiner
    is_space legacy_flat_pool load migrate_default_workspace migrate_users_and_devices new_user
    normalize_account normalize_state normalize_user or_io or_profile or_stamp raise_if random_text
    sanitize_account_id sanitize_char sanitize_loop save stored_password str_eq synthesize_user
    synthesize_users synthesized_username time_now time_stamp to_lower trim_by trim_right trim_space
    unique_from_used user_view valid_account_status valid_owner_mode workspace_or_default
joined_succeeds = refl

one_name : DistinctNames (loaded (hash_password crypto (text "secret1") world).1).users
unfolding account_in_default assign_user candidate contains decimal default_workspace digits
    drop_while enroll_clients exists_by first_unused has_workspace hash_password is_alphanumeric
    is_blank is_empty is_enrolled is_joiner is_space legacy_flat_pool load migrate_default_workspace
    migrate_users_and_devices normalize_account normalize_state normalize_user or_io or_profile
    or_stamp random_text sanitize_account_id sanitize_char sanitize_loop stored_password str_eq
    synthesize_user synthesize_users synthesized_username to_lower trim_by trim_right trim_space
    unique_from_used valid_account_status valid_owner_mode workspace_or_default
one_name = (tt, tt)

create_user-DistinctNames_example :
    DistinctNames joined_run.1.document.users
    × (joined_value.username ≡ to_lower (trim_space (text "Bob")))
create_user-DistinctNames_example =
    create_user-DistinctNames crypto (text "Bob") (text "secret1") world {view = joined_value}
      {w' = joined_run.1} joined_succeeds one_name

abbrev renewed_run : Result (Unit {0}) × World
renewed_run = set_user_password crypto (text "u") (text "secret2") world

abbrev renewed_value : (Unit {0})
renewed_value = given tt renewed_run.0

renewed_succeeds :
    set_user_password crypto (text "u") (text "secret2") world ≡ (ok renewed_value, renewed_run.1)
unfolding account_in_default assign_user candidate contains decimal default_workspace digits
    drop_user_sessions drop_while enroll_clients exists_by first_unused has_user_id has_workspace
    hash_password is_alphanumeric is_blank is_empty is_enrolled is_joiner is_space legacy_flat_pool
    load migrate_default_workspace migrate_users_and_devices normalize_account normalize_state
    normalize_user or_io or_profile or_stamp raise_if random_text sanitize_account_id sanitize_char
    sanitize_loop save select set_user_password stored_password str_eq synthesize_user
    synthesize_users synthesized_username time_now to_lower trim_by trim_right trim_space
    unique_from_used update_first valid_account_status valid_owner_mode with_password
    workspace_or_default
renewed_succeeds = refl

set_user_password-LoggedOut_example : LoggedOut (text "u") renewed_run.1.document
set_user_password-LoggedOut_example =
    set_user_password-LoggedOut crypto (text "u") (text "secret2") world {u = tt}
      {w' = renewed_run.1} renewed_succeeds

abbrev disabled_run : Result (Unit {0}) × World
disabled_run = set_user_disabled (text "u") true world

abbrev disabled_value : (Unit {0})
disabled_value = given tt disabled_run.0

disabled_succeeds : set_user_disabled (text "u") true world ≡ (ok disabled_value, disabled_run.1)
unfolding account_in_default assign_user candidate contains decimal default_workspace digits
    drop_user_sessions drop_while enroll_clients exists_by first_unused has_user_id has_workspace
    is_alphanumeric is_blank is_empty is_enrolled is_joiner is_space legacy_flat_pool load
    migrate_default_workspace migrate_users_and_devices normalize_account normalize_state
    normalize_user or_profile or_stamp raise_if sanitize_account_id sanitize_char sanitize_loop save
    select set_user_disabled str_eq synthesize_user synthesize_users synthesized_username time_now
    to_lower trim_by trim_right trim_space unique_from_used update_first valid_account_status
    valid_owner_mode with_disabled workspace_or_default
disabled_succeeds = refl

set_user_disabled-LoggedOut_example :
    Ended (text "u") (loaded world).sessions disabled_run.1.document.sessions
    × LoggedOut (text "u") disabled_run.1.document
set_user_disabled-LoggedOut_example =
    set_user_disabled-LoggedOut (text "u") world {u = tt} {w' = disabled_run.1} disabled_succeeds

abbrev opened_run : Result Str × World
opened_run = create_session crypto (text "u") world

abbrev opened_value : Str
opened_value = given [] opened_run.0

opened_succeeds : create_session crypto (text "u") world ≡ (ok opened_value, opened_run.1)
unfolding account_in_default assign_user candidate contains create_session decimal default_workspace
    digits drop_while enroll_clients exists_by find_by first_unused generate_session_token
    has_user_id has_workspace hash_token is_alphanumeric is_blank is_empty is_enrolled is_joiner
    is_space legacy_flat_pool load migrate_default_workspace migrate_users_and_devices new_session
    normalize_account normalize_state normalize_user or_profile or_stamp random_text
    sanitize_account_id sanitize_char sanitize_loop save str_eq synthesize_user synthesize_users
    synthesized_username time_now time_stamp to_lower trim_by trim_right trim_space unique_from_used
    update_first valid_account_status valid_owner_mode with_login workspace_or_default
opened_succeeds = refl

user_known : find_by (has_user_id (text "u")) (loaded (tick world)).users ≡ some user
unfolding account_in_default assign_user candidate contains decimal default_workspace digits
    drop_while enroll_clients exists_by find_by first_unused has_user_id has_workspace
    is_alphanumeric is_blank is_empty is_enrolled is_joiner is_space legacy_flat_pool load
    migrate_default_workspace migrate_users_and_devices normalize_account normalize_state
    normalize_user or_profile or_stamp sanitize_account_id sanitize_char sanitize_loop str_eq
    synthesize_user synthesize_users synthesized_username to_lower trim_by trim_right trim_space
    unique_from_used valid_account_status valid_owner_mode workspace_or_default
user_known = refl

session_fresh :
    exists_by (has_token_hash (hash_token crypto opened_value)) (loaded (tick world)).sessions
    ≡ false
unfolding account_in_default assign_user candidate contains create_session decimal default_workspace
    digits drop_while enroll_clients exists_by first_unused generate_session_token has_token_hash
    has_user_id has_workspace hash_token is_alphanumeric is_blank is_empty is_enrolled is_joiner
    is_space legacy_flat_pool load migrate_default_workspace migrate_users_and_devices new_session
    normalize_account normalize_state normalize_user or_profile or_stamp random_text
    sanitize_account_id sanitize_char sanitize_loop save str_eq synthesize_user synthesize_users
    synthesized_username time_now time_stamp to_lower trim_by trim_right trim_space unique_from_used
    update_first valid_account_status valid_owner_mode with_login workspace_or_default
session_fresh = refl

create_session-Opens_example : Opens crypto (text "u") user noon opened_value opened_run.1
create_session-Opens_example =
    create_session-Opens crypto (text "u") world user {token = opened_value} {w' = opened_run.1}
      opened_succeeds (omega arith) refl user_known session_fresh

abbrev revoked_run : Result (Unit {0}) × World
revoked_run = revoke_device (text "c") two

abbrev revoked_value : (Unit {0})
revoked_value = given tt revoked_run.0

revoked_succeeds : revoke_device (text "c") two ≡ (ok revoked_value, revoked_run.1)
unfolding account_in_default assign_user candidate contains decimal default_workspace digits
    drop_while enroll_clients exists_by first_unused has_client_id has_workspace is_alphanumeric
    is_blank is_empty is_enrolled is_joiner is_space legacy_flat_pool load migrate_default_workspace
    migrate_users_and_devices normalize_account normalize_state normalize_user or_profile or_stamp
    raise_if revoke revoke_device sanitize_account_id sanitize_char sanitize_loop save str_eq
    synthesize_user synthesize_users synthesized_username time_now to_lower trim_by trim_right
    trim_space unique_from_used update_first valid_account_status valid_owner_mode with_revoked
    workspace_or_default
revoked_succeeds = refl

two_distinct : second.id ≢ client.id
two_distinct = ground arith

accepts_second : authenticated (text "h2") revoked_run.1.document.clients ≡ some second
unfolding accepts account_in_default assign_user authenticated candidate contains decimal
    default_workspace digits drop_while enroll_clients exists_by find_by first_unused has_client_id
    has_workspace is_alphanumeric is_blank is_empty is_enrolled is_joiner is_space legacy_flat_pool
    load migrate_default_workspace migrate_users_and_devices normalize_account normalize_state
    normalize_user or_profile or_stamp raise_if revoke revoke_device sanitize_account_id
    sanitize_char sanitize_loop save str_eq synthesize_user synthesize_users synthesized_username
    time_now to_lower trim_by trim_right trim_space unique_from_used update_first
    valid_account_status valid_owner_mode with_revoked workspace_or_default
accepts_second = refl

both_distinct : DistinctClients (loaded two).clients
unfolding account_in_default assign_user candidate contains decimal default_workspace digits
    drop_while enroll_clients exists_by first_unused has_workspace is_alphanumeric is_blank is_empty
    is_enrolled is_joiner is_space legacy_flat_pool load migrate_default_workspace
    migrate_users_and_devices normalize_account normalize_state normalize_user or_profile or_stamp
    sanitize_account_id sanitize_char sanitize_loop str_eq synthesize_user synthesize_users
    synthesized_username to_lower trim_by trim_right trim_space unique_from_used
    valid_account_status valid_owner_mode workspace_or_default
both_distinct = ((two_distinct, tt), (tt, tt))

revoke_device-authenticated_example : second.id ≢ text "c"
revoke_device-authenticated_example =
    revoke_device-authenticated (text "c") two {u = tt} {w' = revoked_run.1} revoked_succeeds
      both_distinct (text "h2") {c = second} accepts_second

abbrev enrolled_run : Result (ClientView × Str) × World
enrolled_run = create_device crypto (text "u") (text "laptop") world

abbrev enrolled_value : (ClientView × Str)
enrolled_value = given (no_view, []) enrolled_run.0

enrolled_succeeds :
    create_device crypto (text "u") (text "laptop") world ≡ (ok enrolled_value, enrolled_run.1)
unfolding accepts account_in_default assign_user authenticated candidate check_decoded check_parts
    check_password client_view contains create_device decimal default_workspace digits drop_while
    enroll_clients exists_by find_by first_unused generate_device_token has_workspace hash_token
    is_alphanumeric is_blank is_digit is_empty is_enrolled is_joiner is_space key_matches
    legacy_flat_pool load migrate_default_workspace migrate_users_and_devices new_client
    normalize_account normalize_state normalize_user or_profile or_stamp raise_if random_text
    sanitize_account_id sanitize_char sanitize_loop save scan_digits scan_positive split_on str_eq
    synthesize_user synthesize_users synthesized_username time_now time_stamp to_lower trim_by
    trim_right trim_space unique_from_used user_exists valid_account_status valid_owner_mode
    workspace_or_default
enrolled_succeeds = refl

hash_given : is_empty (hash_token crypto enrolled_value.1) ≡ false
unfolding accepts account_in_default assign_user candidate client_view contains create_device
    decimal default_workspace digits drop_while enroll_clients exists_by first_unused
    generate_device_token has_workspace hash_token is_alphanumeric is_blank is_empty is_enrolled
    is_joiner is_space legacy_flat_pool load migrate_default_workspace migrate_users_and_devices
    new_client normalize_account normalize_state normalize_user or_profile or_stamp raise_if
    random_text sanitize_account_id sanitize_char sanitize_loop save str_eq synthesize_user
    synthesize_users synthesized_username time_now time_stamp to_lower trim_by trim_right trim_space
    unique_from_used user_exists valid_account_status valid_owner_mode workspace_or_default
hash_given = refl

hash_fresh :
    exists_by (accepts (hash_token crypto enrolled_value.1)) (loaded (tick world)).clients ≡ false
unfolding accepts account_in_default assign_user candidate client_view contains create_device
    decimal default_workspace digits drop_while enroll_clients exists_by first_unused
    generate_device_token has_workspace hash_token is_alphanumeric is_blank is_empty is_enrolled
    is_joiner is_space legacy_flat_pool load migrate_default_workspace migrate_users_and_devices
    new_client normalize_account normalize_state normalize_user or_profile or_stamp raise_if
    random_text sanitize_account_id sanitize_char sanitize_loop save str_eq synthesize_user
    synthesize_users synthesized_username time_now time_stamp to_lower trim_by trim_right trim_space
    unique_from_used user_exists valid_account_status valid_owner_mode workspace_or_default
hash_fresh = refl

create_device-Enrolls_example : Enrolls crypto (text "u") enrolled_value enrolled_run.1
create_device-Enrolls_example =
    create_device-Enrolls crypto (text "u") (text "laptop") world {reply = enrolled_value}
      {w' = enrolled_run.1} enrolled_succeeds hash_given hash_fresh
