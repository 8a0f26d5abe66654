-- ===== src/Profiles/Import.antt =====
-- `ImportLiveProfile` and `ExportLiveProfileSnapshot` of internal/manager/accounts.go in file mode.
use cube.Prelude.{
  Bool, true, false, not, Option, none, some, List, [], ◌∷◌, if◌then◌else◌, Str, text, str_eq,
  trim_space, is_empty, is_blank, pos,
}
use cube.Types.{Account, AccountStatus, AccountOwnerMode, State, ProfileSnapshot}
use cube.Identity.{sanitize_account_id}
use cube.Accounts.{add_account}
use cube.Usage.Json.{Fields, after_last}
use cube.Result.{Result, ok, err, failed, io, account_exists}
use cube.World.{
  M, pure, lift, ◌>>=◌, ◌>>◌, load, time_now, raise_if, read_auth, write_auth, require_json,
}
use cube.Profiles.Auth.{
  Codec, auth_identity, derive_id_from_auth, derive_label_from_auth, read_auth_metadata,
}
use cube.Profiles.Delete.{Paths}
use cube.Profiles.Upsert.{made_id, start_generation}

abbrev or_no_home : Option Str → Result Str
or_no_home none = err io
or_no_home (some home) = ok home

-- The first directory that is given: the source, the live one, the default one.
unfoldable pub source_home : Paths → Str → M Str
source_home paths source =
    if not (is_blank source)
    then pure source
    else if not (is_blank paths.live_home)
    then pure paths.live_home
    else lift (or_no_home paths.default_home)

abbrev or_no_auth_in : Option Str → Result Str
or_no_auth_in none = err (failed (text "no auth.json found"))
or_no_auth_in (some content) = ok content

module _ (k : Codec) where
  -- `duplicateAccount`
  unfoldable pub duplicate_account : Str → Str → List Account → M Bool
  duplicate_account id identity [] w = (ok false, w)
  duplicate_account id identity (a ∷ accounts) w =
      (if str_eq a.id id
          then pure true
          else if is_empty identity
          then duplicate_account id identity accounts
          else do
            existing ← read_auth_metadata k a.codex_home
            if str_eq (auth_identity k existing) identity
                then pure true
                else duplicate_account id identity accounts)
        w

  unfoldable pub live_id : State → Str → Str → Fields → M Str
  unfolding made_id
  live_id state id label auth =
      if not (is_blank id)
      then pure id
      else made_id state (sanitize_account_id (derive_id_from_auth k auth label))

  -- The label given, or that of the auth, or the name of the directory.
  unfoldable pub live_label : Str → Str → Fields → Str
  live_label label home auth =
      let derived = derive_label_from_auth k auth in
      if not (is_blank label)
      then label
      else if not (is_blank derived)
      then derived
      else after_last b'/' home home

  unfoldable pub import_live_profile : Paths → Str → Str → Str → M Account
  import_live_profile paths id label source = do
    home ← source_home paths source
    content ← read_auth home
    present ← lift (or_no_auth_in content)
    auth ← read_auth_metadata k home
    state ← load
    id ← live_id state id label auth
    duplicate ← duplicate_account id (auth_identity k auth) state.accounts
    raise_if duplicate (account_exists id)
    account ← add_account paths.accounts_dir id (live_label label home auth)
    copied ← read_auth home
    content ← lift (or_no_auth_in copied)
    write_auth account.codex_home content
    start_generation account

  -- The time of the file's last change is not in the model: the snapshot's time is the clock's.
  unfoldable pub export_live_profile_snapshot : Paths → Str → M ProfileSnapshot
  export_live_profile_snapshot paths owner_client_id = do
    home ← source_home paths []
    content ← read_auth home
    content ← lift (or_no_auth_in content)
    require_json content (failed (text "auth.json is not valid JSON"))
    auth ← read_auth_metadata k home
    let label = derive_label_from_auth k auth
    let id = sanitize_account_id (derive_id_from_auth k auth label)
    now ← time_now
    λ w.
        pure
          (record {
            id = if is_empty id then text "current-codex" else id;
            label = label;
            plan = [];
            status = AccountStatus.ready;
            auth = w.env.pretty_json content;
            config = [];
            source_client = [];
            owner_mode = AccountOwnerMode.client;
            owner_client_id = trim_space owner_client_id;
            lease_id = [];
            generation = pos 0;
            updated_at = now;
          })
          w
