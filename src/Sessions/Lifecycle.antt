-- ===== src/Sessions/Lifecycle.antt =====
-- What a session is worth from its creation to its end (internal/manager/sessions.go, users.go).
use cube.Prelude.{
  suc, ◌+◌, ◌++◌, ◌≤◌, ◌≡◌, ◌≢◌, refl, ap, subst, sym, All, if-elim, select, inl, inr, true, false,
  not, Option, none, some, List, [], ◌∷◌, arith, if◌then◌else◌, ltb, Bool-cases, Option-cases, Str,
  text, str_eq, str_eq_iff, str_eq_refl, exists_by, find_by, to_lower, update_first, find_by-some,
  find_by-select, find_by-append,
}
use cube.Types.{Time, zero_time, State, User, Session}
use cube.Result.{ok}
use cube.Identity.{unique_from_used}
use cube.World.{World, M, ◌>>=◌, tick, random_text}
use cube.World.Steps.{
  loaded, after_load, after_time, after_save, after_pure, after_raise_if, last_save, after_stamp,
  after_bind,
}
use cube.Passwords.{Crypto, hash_token, hash_password}
use cube.Users.{
  UserView, user_view, has_user_id, is_some, drop_user_sessions, set_user_password,
  set_user_disabled,
}
use cube.Sessions.{
  session_ttl, new_session, with_login, has_token_hash, has_expired, resolve_in, resolve_hash,
  create_session, generate_session_token, session_ids,
}

-- A session that resolves is one of the list, and the view is that of its user.
record Resolved (hash : Str) (state : State) (v : UserView) (id : Str) : Type 0 where
  session : Session
  found : find_by (has_token_hash hash) state.sessions ≡ some session
  its_id : id ≡ session.id
  its_user : v.id ≡ session.user_id

resolve_hash-Resolved :
    (hash : Str) (state : State) (now : Time) {v : UserView} {id : Str}
    → resolve_hash hash state now ≡ some (v, id)
    → Resolved hash state v id
unfolding resolve_hash resolve_in
resolve_hash-Resolved hash state now {v} {id} h =
    elim (Option-cases (find_by (has_token_hash hash) state.sessions)) [
      | inl e ↦ cc (rw e at h)
      | inr (session, e) ↦ elim (Option-cases (find_by (has_user_id session.user_id) state.users)) [
        | inl f ↦ absurd (ground arith)
        | inr (u, f) ↦
            let its : u.id ≡ session.user_id =
              (str_eq_iff u.id session.user_id).0
                (unfold has_user_id in find_by-some (has_user_id session.user_id) state.users f) in
            record {
              session = session;
              found = e;
              its_id = ground arith;
              its_user = unfold user_view in ground (arith, its);
            }
      ]
    ]

abbrev pub IsOther : Str → Option (UserView × Str) → Type 0
IsOther id none = Unit
IsOther id (some (v, sid)) = v.id ≢ id

-- No session resolves to the user, for any token and at any time.
abbrev pub LoggedOut : Str → State → Type 0
LoggedOut id state = (hash : Str) (now : Time) → IsOther id (resolve_hash hash state now)

by_result :
    (id : Str) (o : Option (UserView × Str))
    → ((v : UserView) (sid : Str) → o ≡ some (v, sid) → v.id ≢ id)
    → IsOther id o
by_result id none f = tt
by_result id (some (v, sid)) f = f v sid refl

drop_user_sessions-LoggedOut :
    (id : Str) (before state : State)
    → state.sessions ≡ drop_user_sessions before.sessions id
    → LoggedOut id state
unfolding drop_user_sessions
drop_user_sessions-LoggedOut id before state e hash now =
    by_result id (resolve_hash hash state now) λ v sid h.
      let r = resolve_hash-Resolved hash state now {v = v} {id = sid} h in
      let kept =
        find_by-select (has_token_hash hash) (λ (s : Session). not (str_eq s.user_id id))
          before.sessions (rw e at r.found) in
      let its = r.its_user in ground (arith, str_eq_iff r.session.user_id id)

-- When `SetUserPassword` succeeds, no session of the new document resolves to the user, for any token
-- and at any time.
pub set_user_password-LoggedOut :
    (k : Crypto) (id password : Str) (w : World) {u : Unit {0}} {w' : World}
    → set_user_password k id password w ≡ (ok u, w')
    → LoggedOut id w'.document
unfolding set_user_password
set_user_password-LoggedOut k id password w {u} {w'} h =
    let (_, h₁) = after_raise_if w _ _ _ h in
    let (hash, p, h₂) = after_bind (hash_password k password) _ w h₁ in
    let v = (hash_password k password w).1 in
    let h₃ = after_load v _ h₂ in
    let (_, h₄) = after_raise_if (tick v) _ _ _ h₃ in
    let s = last_save _ (tick (tick v)) (after_time (tick v) _ h₄) in
    drop_user_sessions-LoggedOut id (loaded v) w'.document
      (ap (λ (x : World). x.document.sessions) s)

dropped-Apart :
    (id : Str) (l : List Session) → All (λ (s : Session). s.user_id ≢ id) (drop_user_sessions l id)
unfolding drop_user_sessions select
dropped-Apart id [] = tt
dropped-Apart id (s ∷ l) =
    if-elim (All (λ (s : Session). s.user_id ≢ id)) (not (str_eq s.user_id id))
      (λ h. (ground (arith, str_eq_iff s.user_id id), dropped-Apart id l)) (λ h. dropped-Apart id l)

-- The user has no session left and every other session is still there, in its order.
pub record Ended (id : Str) (before after : List Session) : Type 0 where
  pub none_left : All (λ (s : Session). s.user_id ≢ id) after
  pub others_stay : after ≡ select (λ (s : Session). not (str_eq s.user_id id)) before

-- When `SetUserDisabled` has disabled a user: the sessions of the new document are those loaded that are
-- of other users, in their order, so none is left that enabling the user again could revive; and none
-- resolves to the user, for any token and at any time.
pub set_user_disabled-LoggedOut :
    (id : Str) (w : World) {u : Unit {0}} {w' : World}
    → set_user_disabled id true w ≡ (ok u, w')
    → Ended id (loaded w).sessions w'.document.sessions × LoggedOut id w'.document
unfolding set_user_disabled
set_user_disabled-LoggedOut id w {u} {w'} h =
    let h₁ = after_load w _ h in
    let (_, h₂) = after_raise_if (tick w) _ _ _ h₁ in
    let s =
      last_save _ (tick (tick (tick w)))
        (after_time (tick (tick w)) _ (after_time (tick w) _ h₂)) in
    let e : w'.document.sessions ≡ drop_user_sessions (loaded w).sessions id =
      ap (λ (x : World). x.document.sessions) s in
    let none_left = dropped-Apart id (loaded w).sessions in
    (
      record {
        none_left = subst (All (λ (s : Session). s.user_id ≢ id)) (sym e) none_left;
        others_stay = unfold drop_user_sessions in e;
      },
      drop_user_sessions-LoggedOut id (loaded w) w'.document e,
    )

-- What the token of a new session is worth in the new document, by the time.
pub record Opens (k : Crypto) (user_id : Str) (u : User) (start : Time) (token : Str) (w' : World)
    : Type 0 where
  pub id : Str
  pub resolves :
      (now : Time)
      → resolve_hash (hash_token k token) w'.document now ≡ (
          if ltb now (start + session_ttl)
          then some (user_view (with_login start u) w'.document, id)
          else none)

find_user_login :
    (id : Str) (start : Time) (users : List User) {u : User}
    → find_by (has_user_id id) users ≡ some u
    → find_by (has_user_id id) (update_first (has_user_id id) (with_login start) users)
      ≡ some (with_login start u)
unfolding find_by update_first has_user_id with_login
find_user_login id start [] h = cc
find_user_login id start (x ∷ users) {u} h = ground (arith, find_user_login id start users {u = u})

resolve_hash-new :
    (k : Crypto) (token id user_id : Str) (start : Time) (state : State) (u : User)
    → zero_time ≤ start
    → u.disabled_at ≡ none
    → exists_by (has_token_hash (hash_token k token)) state.sessions ≡ false
    → find_by (has_user_id user_id) state.users ≡ some u
    → (st : State) → st.users ≡ update_first (has_user_id user_id) (with_login start) state.users
    → st.sessions ≡ state.sessions ++ new_session id (hash_token k token) user_id start ∷ []
    → (now : Time)
    → resolve_hash (hash_token k token) st now ≡ (
        if ltb now (start + session_ttl)
        then some (user_view (with_login start u) st, id)
        else none)
unfolding resolve_hash resolve_in
resolve_hash-new k token id user_id start state u later enabled fresh known st users sessions now =
    let hash = hash_token k token in
    let session = new_session id hash user_id start in
    let mine : has_token_hash hash session ≡ true =
      unfold has_token_hash new_session in str_eq_refl hash in
    let found : find_by (has_token_hash hash) st.sessions ≡ some session =
      rw sessions (find_by-append (has_token_hash hash) state.sessions session fresh mine) in
    let user : find_by (has_user_id user_id) st.users ≡ some (with_login start u) =
      rw users (find_user_login user_id start state.users known) in
    let expired : has_expired session now ≡ not (ltb now (start + session_ttl)) =
      unfold has_expired new_session in ground arith in
    let on : is_some (with_login start u).disabled_at ≡ false =
      unfold with_login in rw enabled refl in
    let user' : find_by (has_user_id session.user_id) st.users ≡ some (with_login start u) =
      unfold new_session in user in
    let its : session.id ≡ id = unfold new_session in refl in
    rw found (
      rw expired (
        rw user' (
          rw on (
            rw its (elim (Bool-cases (ltb now (start + session_ttl))) [
              | inl e ↦ rw e refl
              | inr e ↦ rw e refl
            ])))))

after_generate {ℓ} :
    {B : Type ℓ} (w : World) {b : B} {w' : World} (f : Str → M B)
    → (generate_session_token >>= f) w ≡ (ok b, w')
    → f (text "cube_ses_" ++ w.env.random w.step) (tick w) ≡ (ok b, w')
unfolding generate_session_token random_text
after_generate w f h = elim (Bool-cases (w.env.fails w.step)) [
  | inl e ↦ cc (rw e at h)
  | inr e ↦ rw e at h
]

-- When `CreateSession` succeeds for a user that is loaded and not disabled, the clock is not before the
-- year 1 and no loaded session has the hash of the new token: in the new document the token resolves to
-- the user, with the login noted, for thirty days from the creation, and from then on to nothing.
pub create_session-Opens :
    (k : Crypto) (user_id : Str) (w : World) (u : User) {token : Str} {w' : World}
    → create_session k user_id w ≡ (ok token, w')
    → zero_time ≤ w.env.clock (suc (suc (suc w.step)))
    → u.disabled_at ≡ none
    → find_by (has_user_id user_id) (loaded (tick w)).users ≡ some u
    → exists_by (has_token_hash (hash_token k token)) (loaded (tick w)).sessions ≡ false
    → Opens k user_id u (w.env.clock (suc (suc (suc w.step)))) token w'
unfolding create_session
create_session-Opens k user_id w u {token} {w'} h later enabled known fresh =
    let h₁ = after_load (tick w) _ (after_generate w _ h) in
    let v = tick (tick w) in
    let h₂ = after_time (tick v) _ (after_stamp v _ h₁) in
    let (e, s) = after_pure _ _ (after_save (tick (tick v)) _ _ h₂) in
    let start = w.env.clock (suc (suc (suc w.step))) in
    let before = loaded (tick w) in
    let minted = text "cube_ses_" ++ w.env.random w.step in
    let id =
      unique_from_used (w.env.stamp v.step) (text "sess-" ++ to_lower user_id)
        (session_ids before.sessions) in
    record {
      id = id;
      resolves =
          resolve_hash-new k token id user_id start before u later enabled fresh known w'.document
            (ap (λ (x : World). x.document.users) s)
            (rw e (ap (λ (x : World). x.document.sessions) s));
    }
