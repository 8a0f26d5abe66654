-- ===== src/Users/Unique.antt =====
-- Usernames stay unique (internal/manager/users.go).
use cube.Prelude.{
  ◌++◌, ◌≡◌, refl, ap, ◌∙◌, inl, inr, false, List, [], ◌∷◌, All, Bool-cases, Str, trim_space,
  to_lower, exists_by,
}
use cube.Types.{User}
use cube.Result.{ok}
use cube.World.{World, tick}
use cube.World.Steps.{
  loaded, after_load, after_time, after_stamp, after_save, after_pure, after_raise_if, after_bind,
}
use cube.Passwords.{Crypto, hash_password}
use cube.Users.{UserView, has_username, new_user, user_view, create_user}

-- No later user has, up to case, the name of an earlier one.
abbrev pub DistinctNames : List User → Type 0
DistinctNames [] = Unit
DistinctNames (u ∷ users) =
    All (λ (v : User). has_username v.username u ≡ false) users × DistinctNames users

All-last :
    (u v : User) (users : List User)
    → All (λ (x : User). has_username x.username u ≡ false) users
    → has_username v.username u ≡ false
    → All (λ (x : User). has_username x.username u ≡ false) (users ++ v ∷ [])
All-last u v [] a h = (h, tt)
All-last u v (x ∷ users) a h = (a.0, All-last u v users a.1 h)

DistinctNames-append :
    (users : List User) (v : User)
    → DistinctNames users
    → exists_by (has_username v.username) users ≡ false
    → DistinctNames (users ++ v ∷ [])
unfolding exists_by
DistinctNames-append [] v d h = (tt, tt)
DistinctNames-append (u ∷ users) v d h = elim (Bool-cases (has_username v.username u)) [
  | inl e ↦ cc (rw e at h)
  | inr e ↦ (All-last u v users d.0 e, DistinctNames-append users v d.1 (rw e at h))
]

-- When `CreateUser` succeeds and the names of the loaded users are distinct up to case, so are those of
-- the new document, and the view returned has the lower-case name.
pub create_user-DistinctNames :
    (k : Crypto) (name password : Str) (w : World) {view : UserView} {w' : World}
    → create_user k name password w ≡ (ok view, w')
    → DistinctNames (loaded (hash_password k password w).1).users
    → DistinctNames w'.document.users × (view.username ≡ to_lower (trim_space name))
unfolding create_user
create_user-DistinctNames k name password w {view} {w'} h d =
    let (_, h₁) = after_raise_if w _ _ _ h in
    let (_, h₂) = after_raise_if w _ _ _ h₁ in
    let (hash, p, h₃) = after_bind (hash_password k password) _ w h₂ in
    let v = (hash_password k password w).1 in
    let h₄ = after_load v _ h₃ in
    let (free, h₅) = after_raise_if (tick v) _ _ _ h₄ in
    let h₆ = after_time (tick (tick v)) _ (after_stamp (tick v) _ h₅) in
    let (e, s) = after_pure _ _ (after_save (tick (tick (tick v))) _ _ h₆) in
    (
      rw s (DistinctNames-append (loaded v).users _ d (unfold new_user in free)),
      ap (λ (x : UserView). x.username) e ∙ unfold user_view new_user in refl,
    )
