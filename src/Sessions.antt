-- ===== src/Sessions.antt =====
-- internal/manager/sessions.go in file mode: the sessions of the website.
pub mod Lifecycle
use cube.Prelude.{
  ℕ, ◌+◌, ◌*◌, ◌++◌, Bool, true, false, not, ◌&&◌, Option, none, some, List, [], ◌∷◌, if◌then◌else◌,
  Str, text, str_eq, trim_space, to_lower, is_empty, find_by, select, update_first,
}
use cube.Types.{Time, is_zero, after, hour, State, User, Session}
use cube.Identity.{unique_from_used}
use cube.Result.{Error, Result, ok, err}
use cube.World.{World, M, pure, raise, ◌>>=◌, ◌>>◌, load, save, time_now, time_stamp, random_text}
use cube.Passwords.{Crypto, hash_token}
use cube.Users.{UserView, user_view, has_user_id, is_some}

abbrev pub session_ttl : ℕ
session_ttl = 30 * (24 * hour)

abbrev pub session_ids : List Session → List Str
session_ids [] = []
session_ids (s ∷ sessions) = s.id ∷ session_ids sessions

unfoldable pub new_session : Str → Str → Str → Time → Session
new_session id token_hash user_id now = record {
  id = id;
  token_hash = token_hash;
  user_id = user_id;
  created_at = now;
  expires_at = now + session_ttl;
  last_seen_at = now;
}

unfoldable pub with_login : Time → User → User
with_login now user = record user { last_login_at = now }

unfoldable pub generate_session_token : M Str
generate_session_token = do random ← random_text; pure (text "cube_ses_" ++ random)

unfoldable pub create_session : Crypto → Str → M Str
create_session k user_id = do
  token ← generate_session_token
  state ← load
  stamp ← time_stamp
  now ← time_now
  let id = unique_from_used stamp (text "sess-" ++ to_lower user_id) (session_ids state.sessions)
  let session = new_session id (hash_token k token) user_id now
  save (record state {
    users = update_first (has_user_id user_id) (with_login now) state.users;
    sessions = state.sessions ++ (session ∷ []);
  })
  pure token

unfoldable pub has_token_hash : Str → Session → Bool
has_token_hash hash session = str_eq session.token_hash hash

unfoldable pub has_expired : Session → Time → Bool
has_expired session now = not (is_zero session.expires_at) && not (after session.expires_at now)

abbrev live_user : State → Session → Option User → Option (UserView × Str)
live_user state session none = none
live_user state session (some u) =
    if is_some u.disabled_at then none else some (user_view u state, session.id)

-- The loop over the sessions: the first with the hash decides.
unfoldable pub resolve_in : State → Time → Option Session → Option (UserView × Str)
resolve_in state now none = none
resolve_in state now (some session) =
    if has_expired session now
    then none
    else live_user state session (find_by (has_user_id session.user_id) state.users)

unfoldable pub resolve_hash : Str → State → Time → Option (UserView × Str)
unfolding has_token_hash
resolve_hash hash state now = resolve_in state now (find_by (has_token_hash hash) state.sessions)

abbrev no_session : Option (UserView × Str)
no_session = none

abbrev resolve_loaded : Str → Result State → World → Result (Option (UserView × Str)) × World
resolve_loaded hash (err e) w = (ok no_session, w)
resolve_loaded hash (ok state) w = (time_now >>= λ now. pure (resolve_hash hash state now)) w

unfoldable pub resolve_session : Crypto → Str → M (Option (UserView × Str))
resolve_session k token w =
    let token = trim_space token in
    if is_empty token
    then (ok no_session, w)
    else resolve_loaded (hash_token k token) (load w).0 (load w).1

unfoldable pub delete_session : Str → M (Unit {0})
delete_session id = do
  state ← load
  save (record state { sessions = select (λ (s : Session). not (str_eq s.id id)) state.sessions })
