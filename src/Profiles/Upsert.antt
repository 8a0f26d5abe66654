-- ===== src/Profiles/Upsert.antt =====
-- `UpsertJSONProfile` and `UpsertProfileSnapshot` of internal/manager/accounts.go in file mode.
use cube.Prelude.{
  ℕ, suc, ◌++◌, Bool, true, not, ◌&&◌, ◌||◌, Option, none, some, List, [], ◌∷◌, if◌then◌else◌, Str,
  text, str_eq, trim_space, is_empty, is_blank, pos, exists_by, find_by, update_first,
}
use cube.Types.{Time, Account, AccountOwnerMode, owner_eq, State, ProfileSnapshot}
use cube.Identity.{sanitize_account_id, unique_from_used}
use cube.Normalize.{valid_account_status, valid_owner_mode}
use cube.Accounts.{has_id, add_account}
use cube.Lease.{account_lease_active, increment, put_account}
use cube.Lease.Update.{is_given}
use cube.Usage.Json.{Fields}
use cube.Result.{Result, ok, err, failed, account_leased, unknown_status, unknown_owner_mode}
use cube.World.{
  M, pure, lift, ◌>>=◌, ◌>>◌, acquire_lock, load, save, time_now, time_stamp, raise_if,
  write_profile_files,
}
use cube.Profiles.Auth.{
  Codec, auth_identity, derive_id_from_auth, derive_label_from_auth, read_auth_metadata,
}

pub record JsonProfile : Type 0 where
  pub id : Str
  pub label : Str
  pub auth : Str

abbrev pub account_ids : List Account → List Str
account_ids [] = []
account_ids (a ∷ accounts) = a.id ∷ account_ids accounts

abbrev pub or_invalid : Option Fields → Result Fields
or_invalid none = err (failed (text "auth is not valid JSON"))
or_invalid (some fields) = ok fields

unfoldable pub index_of : Str → ℕ → List Account → Option (ℕ × Account)
index_of id i [] = none
index_of id i (a ∷ accounts) = if str_eq a.id id then some (i, a) else index_of id (suc i) accounts

-- The id given, or one from the auth, or one from the time.
unfoldable pub made_id : State → Str → M Str
made_id state id = if not (is_empty id) then pure id else do
  stamp ← time_stamp
  pure (unique_from_used stamp (text "profile-" ++ stamp) (account_ids state.accounts))

-- What a successful upsert makes of the account that is there.
unfoldable pub reauthorized : Str → Time → Account → Account
reauthorized label now account = record account {
  label = if is_empty label then account.label else label;
  generation = increment account.generation;
  updated_at = now;
}

unfoldable pub update_profile : State → Str → Str → ℕ × Account → M Account
update_profile state label auth found = do
  now ← time_now
  raise_if (account_lease_active found.1 now) (account_leased (found.1).id)
  write_profile_files (found.1).codex_home auth
  written ← time_now
  let account = reauthorized label written found.1
  save (put_account state found.0 account)
  pure account

unfoldable pub first_generation : Time → Account → Account
first_generation now account = record account { generation = pos 1; updated_at = now }

abbrev pub or_account : Account → Option Account → Account
or_account account none = account
or_account account (some found) = found

-- The end of an import: the new account gets the generation 1, if it is still there.
unfoldable pub start_generation : Account → M Account
start_generation account = do
  state ← load
  if not (exists_by (has_id account.id) state.accounts) then (do save state; pure account) else do
    now ← time_now
    let accounts = update_first (has_id account.id) (first_generation now) state.accounts
    save (record state { accounts = accounts })
    pure (or_account account (find_by (has_id account.id) accounts))

unfoldable pub insert_profile : Str → Str → Str → Str → M Account
insert_profile accounts_dir id label auth = do
  account ← add_account accounts_dir id label
  write_profile_files account.codex_home auth
  start_generation account

abbrev pub upsert_found : Str → State → Str → Str → Str → Option (ℕ × Account) → M Account
upsert_found accounts_dir state id label auth none = insert_profile accounts_dir id label auth
upsert_found accounts_dir state id label auth (some found) = update_profile state label auth found

-- `snapshot.OwnerMode != ""`
unfoldable pub is_mode : AccountOwnerMode → Bool
is_mode (AccountOwnerMode.other s) = not (is_empty s)
is_mode _ = true

unfoldable pub with_snapshot : ProfileSnapshot → Time → Account → Account
with_snapshot s now account = record account {
  label = if is_blank s.label then account.label else trim_space s.label;
  plan = if is_blank s.plan then account.plan else trim_space s.plan;
  status = if is_given s.status then s.status else account.status;
  owner_mode = if is_mode s.owner_mode then s.owner_mode else account.owner_mode;
  owner_client_id =
      if not (is_blank s.owner_client_id)
      then trim_space s.owner_client_id
      else if owner_eq s.owner_mode AccountOwnerMode.client && not (is_blank s.source_client)
      then trim_space s.source_client
      else account.owner_client_id;
  updated_at = now;
}

module _ (k : Codec) where
  unfoldable pub same_identity : Str → ℕ → List Account → M (Option (ℕ × Account))
  same_identity identity i [] w = (ok none, w)
  same_identity identity i (a ∷ accounts) w =
      (do
        existing ← read_auth_metadata k a.codex_home
        if str_eq (auth_identity k existing) identity
            then pure (some (i, a))
            else same_identity identity (suc i) accounts)
        w

  abbrev or_same_identity : Str → List Account → Option (ℕ × Account) → M (Option (ℕ × Account))
  or_same_identity identity accounts (some found) = pure (some found)
  or_same_identity identity accounts none =
      if is_empty identity then pure none else same_identity identity 0 accounts

  -- The account with the id, else the first whose auth is of the same identity.
  unfoldable pub existing_account : State → Str → Str → M (Option (ℕ × Account))
  unfolding same_identity
  existing_account state id identity =
      or_same_identity identity state.accounts (index_of id 0 state.accounts)

  unfoldable pub profile_id : State → JsonProfile → Fields → M Str
  unfolding made_id
  profile_id state profile fields =
      let id = trim_space profile.id in
      if not (is_empty id)
      then pure id
      else made_id state (sanitize_account_id (derive_id_from_auth k fields profile.label))

  unfoldable pub profile_label : JsonProfile → Fields → Str
  profile_label profile fields =
      let label = trim_space profile.label in
      if is_empty label then derive_label_from_auth k fields else label

  unfoldable pub upsert_json_profile : Str → JsonProfile → M Account
  upsert_json_profile accounts_dir profile = do
    raise_if (is_empty profile.auth || str_eq profile.auth (text "null"))
        (failed (text "profile json must include auth, or upload a raw auth.json"))
    fields ← lift (or_invalid (k.decode profile.auth))
    state ← load
    id ← profile_id state profile fields
    found ← existing_account state id (auth_identity k fields)
    upsert_found accounts_dir state id (profile_label profile fields) profile.auth found

  unfoldable pub upsert_profile_snapshot : Str → ProfileSnapshot → M Account
  upsert_profile_snapshot accounts_dir s = do
    acquire_lock
    account ←
        upsert_json_profile accounts_dir (record { id = s.id; label = s.label; auth = s.auth })
    raise_if (is_given s.status && not (valid_account_status s.status)) (unknown_status s.status)
    raise_if (is_mode s.owner_mode && not (valid_owner_mode s.owner_mode))
        (unknown_owner_mode s.owner_mode)
    state ← load
    if not (exists_by (has_id account.id) state.accounts) then (do save state; pure account) else do
      now ← time_now
      let accounts = update_first (has_id account.id) (with_snapshot s now) state.accounts
      save (record state { accounts = accounts })
      pure (or_account account (find_by (has_id account.id) accounts))
