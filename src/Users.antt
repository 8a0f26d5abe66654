-- ===== src/Users.antt =====
-- internal/manager/users.go in file mode: the identities that log in to the website.
pub mod Unique
use cube.Prelude.{
  ℕ, suc, ◌+◌, ◌++◌, ltb, Bool, true, false, not, ◌&&◌, Option, none, some, List, [], ◌∷◌,
  if◌then◌else◌, Str, text, str_eq, str_lt, equal_fold, trim_space, to_lower, is_empty, length,
  exists_by, find_by, select, update_first,
}
use cube.Prelude.Sort.{sort_by}
use cube.Types.{Time, zero_time, State, User, Session, Client}
use cube.Identity.{unique_from_used}
use cube.Result.{Error, Result, ok, err, failed, user_not_found, username_taken}
use cube.World.{World, M, pure, raise, ◌>>=◌, ◌>>◌, load, save, time_now, time_stamp, raise_if}
use cube.Passwords.{Crypto, hash_password, check_password}

pub record UserView : Type 0 where
  pub id : Str
  pub username : Str
  pub created_at : Time
  pub last_login_at : Time
  pub disabled : Bool
  pub device_count : ℕ

abbrev pub is_some {ℓ} : {A : Type ℓ} → Option A → Bool
is_some none = false
is_some (some a) = true

-- The loop of `userView`.
unfoldable pub count_devices : Str → List Client → ℕ
count_devices id [] = 0
count_devices id (c ∷ clients) =
    let rest = count_devices id clients in
    if str_eq c.user_id id && not (is_some c.revoked_at) then suc rest else rest

unfoldable pub user_view : User → State → UserView
user_view user state = record {
  id = user.id;
  username = user.username;
  created_at = user.created_at;
  last_login_at = user.last_login_at;
  disabled = is_some user.disabled_at;
  device_count = count_devices user.id state.clients;
}

abbrev user_ids : List User → List Str
user_ids [] = []
user_ids (u ∷ users) = u.id ∷ user_ids users

unfoldable pub has_username : Str → User → Bool
has_username username user = equal_fold user.username username

unfoldable pub has_user_id : Str → User → Bool
has_user_id id user = str_eq user.id id

unfoldable pub new_user : Str → Str → Str → Time → User
new_user id username hash now = record {
  id = id;
  username = username;
  password_hash = hash;
  created_at = now;
  updated_at = now;
  last_login_at = zero_time;
  disabled_at = none;
}

-- `len(password)` counts bytes; a text here has one number for each character of ASCII.
unfoldable pub create_user : Crypto → Str → Str → M UserView
create_user k username password = do
  let username = to_lower (trim_space username)
  raise_if (is_empty username) (failed (text "username is required"))
  raise_if (ltb (length password) 6) (failed (text "password must be at least 6 characters"))
  hash ← hash_password k password
  state ← load
  raise_if (exists_by (has_username username) state.users) (username_taken username)
  stamp ← time_stamp
  now ← time_now
  let id = unique_from_used stamp (text "user-" ++ username) (user_ids state.users)
  let user = new_user id username hash now
  let next = record state { users = state.users ++ (user ∷ []) }
  save next
  pure (user_view user next)

-- An error of Load counts as "no".
unfoldable pub on_load {ℓ} : {A : Type ℓ} → (State → Option A) → M (Option A)
on_load f w = elim (load w).0 [
  | ok state ↦ (ok (f state), (load w).1)
  | err e ↦ (ok none, (load w).1)
]

-- The loop of `AuthenticateUser`; the check against the dummy hash only takes time.
unfoldable pub authenticate_among : Crypto → State → Str → Str → List User → Option UserView
authenticate_among k state username password [] = none
authenticate_among k state username password (u ∷ users) =
    let rest = authenticate_among k state username password users in
    if not (has_username username u)
    then rest
    else if is_some u.disabled_at
    then none
    else if not (check_password k u.password_hash password)
    then none
    else some (user_view u state)

unfoldable pub authenticate_user : Crypto → Str → Str → M (Option UserView)
authenticate_user k username password =
    let username = to_lower (trim_space username) in
    if is_empty username
    then pure none
    else on_load (λ state. authenticate_among k state username password state.users)

abbrev viewed : State → Option User → Option UserView
viewed state none = none
viewed state (some u) = some (user_view u state)

unfoldable pub get_user : Str → M (Option UserView)
get_user id = on_load (λ state. viewed state (find_by (has_user_id id) state.users))

abbrev views : State → List User → List UserView
views state [] = []
views state (u ∷ users) = user_view u state ∷ views state users

unfoldable pub list_users : M (List UserView)
list_users = do
  state ← load
  pure (sort_by (λ (a b : UserView). str_lt a.username b.username) (views state state.users))

unfoldable pub drop_user_sessions : List Session → Str → List Session
drop_user_sessions sessions user_id =
    select (λ (s : Session). not (str_eq s.user_id user_id)) sessions

unfoldable pub with_password : Str → Time → User → User
with_password hash now user = record user { password_hash = hash; updated_at = now }

unfoldable pub set_user_password : Crypto → Str → Str → M (Unit {0})
set_user_password k id password = do
  raise_if (ltb (length password) 6) (failed (text "password must be at least 6 characters"))
  hash ← hash_password k password
  state ← load
  raise_if (not (exists_by (has_user_id id) state.users)) (user_not_found id)
  now ← time_now
  save (record state {
    users = update_first (has_user_id id) (with_password hash now) state.users;
    sessions = drop_user_sessions state.sessions id;
  })

-- The clock is read once for the mark and once for the time of the change.
unfoldable pub with_disabled : Bool → Time → Time → User → User
with_disabled disabled now changed user = record user {
  disabled_at = if disabled then some now else none;
  updated_at = changed;
}

unfoldable pub set_user_disabled : Str → Bool → M (Unit {0})
set_user_disabled id disabled = do
  state ← load
  raise_if (not (exists_by (has_user_id id) state.users)) (user_not_found id)
  now ← time_now
  changed ← time_now
  save (record state {
    users = update_first (has_user_id id) (with_disabled disabled now changed) state.users;
    sessions = if disabled then drop_user_sessions state.sessions id else state.sessions;
  })
