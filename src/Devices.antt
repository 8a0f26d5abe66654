-- ===== src/Devices.antt =====
-- internal/manager/clients.go and devices.go in file mode: the clients, of which the devices are those
-- with an owner.
pub mod Tokens
use cube.Prelude.{
  ◌++◌, Bool, true, false, not, ◌&&◌, ◌||◌, Option, none, some, List, [], ◌∷◌, if◌then◌else◌, Str,
  text, str_eq, str_lt, trim_space, is_empty, is_blank, has_prefix, exists_by, find_by,
  update_first,
}
use cube.Prelude.Sort.{sort_by}
use cube.Types.{Time, zero_time, State, Client}
use cube.Identity.{unique_from_used}
use cube.Workspaces.{user_exists}
use cube.Result.{Error, Result, ok, err, failed, client_not_found, device_not_found, user_not_found}
use cube.World.{
  World, M, pure, raise, ◌>>=◌, ◌>>◌, load, save, time_now, time_stamp, random_text, raise_if,
}
use cube.Passwords.{Crypto, hash_token}
use cube.Users.{is_some, on_load}

pub record ClientView : Type 0 where
  pub id : Str
  pub user_id : Str
  pub label : Str
  pub created_at : Time
  pub last_seen_at : Time
  pub revoked_at : Option Time
  pub active : Bool

unfoldable pub client_view : Client → ClientView
client_view client = record {
  id = client.id;
  user_id = client.user_id;
  label = client.label;
  created_at = client.created_at;
  last_seen_at = client.last_seen_at;
  revoked_at = client.revoked_at;
  active = not (is_some client.revoked_at);
}

abbrev pub client_ids : List Client → List Str
client_ids [] = []
client_ids (c ∷ clients) = c.id ∷ client_ids clients

unfoldable pub new_client : Str → Str → Str → Str → Time → Client
new_client id user_id label token_hash now = record {
  id = id;
  user_id = user_id;
  label = label;
  token_hash = token_hash;
  created_at = now;
  last_seen_at = zero_time;
  revoked_at = none;
}

abbrev pub label_or : Str → Str → Str
label_or label default = if is_empty label then default else label

unfoldable pub new_client_id : Str → Str → List Str → Str
new_client_id stamp label used =
    let id = unique_from_used stamp label used in
    if has_prefix id (text "client-")
    then id
    else unique_from_used stamp (text "client-" ++ id) used

unfoldable pub generate_pat : M Str
generate_pat = do random ← random_text; pure (text "cube_pat_" ++ random)

unfoldable pub generate_device_token : M Str
generate_device_token = do random ← random_text; pure (text "cube_dev_" ++ random)

unfoldable pub create_client : Crypto → Str → M (ClientView × Str)
create_client k label = do
  let label = label_or (trim_space label) (text "client")
  state ← load
  stamp ← time_stamp
  let id = new_client_id stamp label (client_ids state.clients)
  token ← generate_pat
  now ← time_now
  let client = new_client id [] label (hash_token k token) now
  save (record state { clients = state.clients ++ (client ∷ []) })
  pure (client_view client, token)

unfoldable pub create_device : Crypto → Str → Str → M (ClientView × Str)
create_device k user_id label = do
  let user_id = trim_space user_id
  raise_if (is_empty user_id) (failed (text "device needs an owning user"))
  let label = label_or (trim_space label) (text "device")
  token ← generate_device_token
  state ← load
  raise_if (not (user_exists state user_id)) (user_not_found user_id)
  stamp ← time_stamp
  now ← time_now
  let id = unique_from_used stamp (text "device-" ++ label) (client_ids state.clients)
  let device = new_client id user_id label (hash_token k token) now
  save (record state { clients = state.clients ++ (device ∷ []) })
  pure (client_view device, token)

-- Active ones first, then by id.
unfoldable pub view_less : ClientView → ClientView → Bool
view_less a b =
    if (a.active && not b.active) || (not a.active && b.active) then a.active else str_lt a.id b.id

abbrev client_views : List Client → List ClientView
client_views [] = []
client_views (c ∷ clients) = client_view c ∷ client_views clients

unfoldable pub list_clients : M (List ClientView)
list_clients = do state ← load; pure (sort_by view_less (client_views state.clients))

-- Every device for an empty user id.
unfoldable pub devices_of : Str → List Client → List ClientView
devices_of user_id [] = []
devices_of user_id (c ∷ clients) =
    let rest = devices_of user_id clients in
    if not (is_empty user_id) && not (str_eq c.user_id user_id) then rest else client_view c ∷ rest

unfoldable pub list_devices : Str → M (List ClientView)
list_devices user_id = do
  state ← load
  pure (sort_by view_less (devices_of (trim_space user_id) state.clients))

unfoldable pub has_client_id : Str → Client → Bool
has_client_id id client = str_eq client.id id

abbrev owner_of : Option Client → Option Str
owner_of none = none
owner_of (some c) = some c.user_id

unfoldable pub device_owner : Str → M (Option Str)
device_owner id = on_load (λ state. owner_of (find_by (has_client_id id) state.clients))

unfoldable pub with_revoked : Time → Client → Client
with_revoked now client = record client { revoked_at = some now }

-- What `RevokeClient` and `RevokeDevice` share in file mode.
unfoldable pub revoke : Str → Error → M (Unit {0})
revoke id missing = do
  state ← load
  now ← time_now
  raise_if (not (exists_by (has_client_id id) state.clients)) missing
  save (record state { clients = update_first (has_client_id id) (with_revoked now) state.clients })

unfoldable pub revoke_client : Str → M (Unit {0})
unfolding revoke
revoke_client id = revoke id (client_not_found id)

unfoldable pub revoke_device : Str → M (Unit {0})
unfolding revoke
revoke_device id = revoke id (device_not_found id)

-- The loop of `AuthenticateClientToken` and `AuthenticateDeviceToken`, which also gives the owner.
unfoldable pub accepts : Str → Client → Bool
accepts hash client =
    not (is_some client.revoked_at || is_empty client.token_hash) && str_eq client.token_hash hash

unfoldable pub authenticated : Str → List Client → Option Client
unfolding accepts
authenticated hash clients = find_by (accepts hash) clients

abbrev token_view : Option Client → Option (ClientView × Str)
token_view none = none
token_view (some c) = some (client_view c, c.user_id)

unfoldable pub authenticate_device_token : Crypto → Str → M (Option (ClientView × Str))
authenticate_device_token k token =
    let token = trim_space token in
    if is_empty token
    then pure none
    else on_load (λ state. token_view (authenticated (hash_token k token) state.clients))

unfoldable pub with_seen : Time → Client → Client
with_seen now client = record client { last_seen_at = now }

-- An id that is not there is no error.
unfoldable pub touch_client : Str → M (Unit {0})
touch_client id = if is_blank id then pure tt else do
  state ← load
  now ← time_now
  if not (exists_by (has_client_id id) state.clients)
      then pure tt
      else save
          (record state { clients = update_first (has_client_id id) (with_seen now) state.clients })
