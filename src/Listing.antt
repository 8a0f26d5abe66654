-- ===== src/Listing.antt =====
-- internal/manager/accounts.go in file mode: the list of accounts, which takes up directories that have
-- an auth.json and no account.
pub mod Pool
pub mod Queue
use cube.Prelude.{
  ◌++◌, Bool, true, false, not, ◌&&◌, ◌||◌, Option, none, some, List, [], ◌∷◌, if◌then◌else◌, Str,
  text, str_eq, str_lt, is_empty, contains, pos,
}
use cube.Prelude.Sort.{sort_by}
use cube.Types.{Time, zero_time, plain, Account, AccountStatus, AccountOwnerMode, State}
use cube.Identity.{sanitize_account_id, unique_from_used}
use cube.Accounts.{new_account}
use cube.Lease.{account_lease_active}
use cube.Lease.Claim.{auth_present}
use cube.Profiles.Auth.{Codec, auth_identity, derive_label_from_auth, read_auth_metadata}
use cube.Profiles.Upsert.{account_ids}
use cube.Result.{Error, Result, ok, err}
use cube.World.{World, M, pure, raise, ◌>>=◌, ◌>>◌, load, save, time_now, time_stamp, io_step}

-- The paths and the times of the files are left out.
pub record AccountView : Type 0 where
  pub account : Account
  pub auth_present : Bool
  pub config_present : Bool
  pub active : Bool
  pub lease_active : Bool

-- What the list reads besides the document: the live home and whether it has a config, the directory of
-- the accounts and the names of the directories in it, and `filepath.Clean`.
pub record Homes : Type 0 where
  pub live_home : Str
  pub has_config : Bool
  pub accounts_dir : Str
  pub entries : List Str
  pub clean : Str → Str

abbrev pub clean_homes : (Str → Str) → List Account → List Str
clean_homes clean [] = []
clean_homes clean (a ∷ accounts) = clean a.codex_home ∷ clean_homes clean accounts

unfoldable pub has_managed_files : Str → M Bool
has_managed_files home w = (ok (auth_present w home), w)

abbrev pub label_or_name : Str → Str → Str
label_or_name label name = if is_empty label then name else label

-- An account for a directory, as it is added.
unfoldable pub found_account : Str → Str → Str → Time → Account
found_account id label home now = record (new_account [] id label now) { codex_home = home }

module _ (k : Codec) (homes : Homes) where
  unfoldable pub is_account_active : Account → M Bool
  is_account_active account = do
    live ← read_auth_metadata k homes.live_home
    mine ← read_auth_metadata k account.codex_home
    pure (
        not (is_empty (auth_identity k live))
        && str_eq (auth_identity k live) (auth_identity k mine))

  unfoldable pub account_view : Account → M AccountView
  unfolding has_managed_files
  account_view account = do
    present ← has_managed_files account.codex_home
    active ← is_account_active account
    now ← time_now
    pure (record {
      account = account;
      auth_present = present;
      config_present = homes.has_config;
      active = active;
      lease_active = account_lease_active account now;
    })

  -- The loop over the directories, with the accounts so far and whether one was added.
  unfoldable pub sync_entries : List Account → Bool → List Str → M (List Account × Bool)
  unfolding has_managed_files
  sync_entries accounts changed [] w = (ok (accounts, changed), w)
  sync_entries accounts changed (name ∷ names) w =
      let home = homes.accounts_dir ++ text "/" ++ name in
      let known = contains (clean_homes homes.clean accounts) (homes.clean home) in
      let plain_id = sanitize_account_id name in
      let used = account_ids accounts in
      (do
        present ← has_managed_files home
        if known || not present then sync_entries accounts changed names else do
          stamp ← time_stamp
          let id =
              if is_empty plain_id || contains used plain_id
              then unique_from_used stamp (text "profile-" ++ name) used
              else plain_id
          auth ← read_auth_metadata k home
          now ← time_now
          let account =
              found_account id (label_or_name (derive_label_from_auth k auth) name) home now
          sync_entries (accounts ++ (account ∷ [])) true names)
        w

  -- A directory that cannot be read is an error.
  unfoldable pub sync_managed_accounts : State → M (List Account × Bool)
  unfolding sync_entries
  sync_managed_accounts state = do io_step; sync_entries state.accounts false homes.entries

  unfoldable pub views_of : List Account → M (List AccountView)
  views_of [] w = (ok [], w)
  views_of (a ∷ accounts) w = (do v ← account_view a; vs ← views_of accounts; pure (v ∷ vs)) w

  unfoldable pub list_accounts : M (List AccountView)
  unfolding views_of
  list_accounts = do
    state ← load
    synced ← sync_managed_accounts state
    let next = record state { accounts = synced.0 }
    if synced.1 then save next else pure tt
    views ← views_of next.accounts
    pure (sort_by (λ (a b : AccountView). str_lt (a.account).id (b.account).id) views)
