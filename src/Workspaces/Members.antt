-- ===== src/Workspaces/Members.antt =====
-- `SetMembership` and `RemoveMembership` against `MembershipRole` (internal/manager/workspace.go).
use cube.Prelude.{
  ℕ, ◌++◌, ◌≡◌, ◌≢◌, refl, ap, Bool, true, false, not, Option, none, some, List, [], ◌∷◌, arith,
  inl, inr, if◌then◌else◌, Bool-cases, Str, str_eq_iff, str_eq_refl, trim_space, is_empty, select,
  exists_by, update_first, ◌∙◌,
}
use cube.Types.{State, WorkspaceRole, Membership}
use cube.Normalize.{valid_workspace_role}
use cube.Result.{ok}
use cube.World.{World, tick}
use cube.World.Steps.{loaded, after_load, after_raise_if, after_time, last_save}
use cube.Workspaces.{
  membership_matches, concerns, regrade, new_membership, upsert_membership, set_membership,
  remove_membership, role_in, user_exists,
}

module _ (ws p : Str) where
  -- Grading keeps the pair that the membership is for.
  concerns-regrade :
      (b : Bool) (role : WorkspaceRole) (ms : Membership)
      → concerns ws p ms ≡ true
      → concerns ws p (regrade b p role ms) ≡ true
  unfolding concerns membership_matches regrade
  concerns-regrade b role ms h = ground (arith, str_eq_refl p, str_eq_iff ms.user_id p)

  role_in-update_first :
      (b : Bool) (role : WorkspaceRole) (l : List Membership)
      → exists_by (concerns ws p) l ≡ true
      → role_in ws p (update_first (concerns ws p) (regrade b p role) l) ≡ some role
  unfolding role_in exists_by update_first
  role_in-update_first b role [] h = cc
  role_in-update_first b role (ms ∷ l) h = elim (Bool-cases (concerns ws p ms)) [
    | inl e ↦ rw e (rw (concerns-regrade b role ms e) (unfold regrade in refl))
    | inr e ↦ rw e (rw e (role_in-update_first b role l (rw e at h)))
  ]

  role_in-append :
      (role : WorkspaceRole) (l : List Membership) (ms : Membership)
      → exists_by (concerns ws p) l ≡ false
      → concerns ws p ms ≡ true
      → role_in ws p (l ++ (ms ∷ [])) ≡ some ms.role
  unfolding role_in exists_by
  role_in-append role [] ms h e = rw e refl
  role_in-append role (x ∷ l) ms h e = ground (arith, role_in-append role l ms)

  concerns-new_membership :
      (b : Bool) (role : WorkspaceRole) (now : ℕ)
      → is_empty p ≡ false
      → concerns ws p (new_membership b ws p role now) ≡ true
  unfolding concerns membership_matches new_membership
  concerns-new_membership b role now h = ground (arith, str_eq_refl p, str_eq_refl ws)

  role_in-select :
      (l : List Membership) → role_in ws p (select (λ ms. not (concerns ws p ms)) l) ≡ none
  unfolding role_in select
  role_in-select [] = refl
  role_in-select (ms ∷ l) = elim (Bool-cases (concerns ws p ms)) [
    | inl e ↦ rw e (role_in-select l)
    | inr e ↦ rw e (rw e (role_in-select l))
  ]

-- Another workspace sees nothing of it.
module _ (ws p v q : Str) (apart : v ≢ ws) where
  concerns-one : (ms : Membership) → concerns ws p ms ≡ true → concerns v q ms ≡ false
  unfolding concerns
  concerns-one ms h = ground (arith, str_eq_iff ms.workspace_id ws, str_eq_iff ms.workspace_id v)

  concerns-regrade_apart :
      (b : Bool) (role : WorkspaceRole) (ms : Membership)
      → concerns ws p ms ≡ true
      → concerns v q (regrade b p role ms) ≡ false
  unfolding concerns regrade
  concerns-regrade_apart b role ms h =
      ground (arith, str_eq_iff ms.workspace_id ws, str_eq_iff ms.workspace_id v)

  role_in-update_first_apart :
      (b : Bool) (role : WorkspaceRole) (l : List Membership)
      → role_in v q (update_first (concerns ws p) (regrade b p role) l) ≡ role_in v q l
  unfolding role_in update_first
  role_in-update_first_apart b role [] = refl
  role_in-update_first_apart b role (ms ∷ l) = elim (Bool-cases (concerns ws p ms)) [
    | inl e ↦ rw e (rw (concerns-regrade_apart b role ms e) (rw (concerns-one ms e) refl))
    | inr e ↦ rw e (
        ap (λ r. if concerns v q ms then some ms.role else r) (role_in-update_first_apart b role l))
  ]

  role_in-append_apart :
      (l : List Membership) (ms : Membership)
      → concerns v q ms ≡ false
      → role_in v q (l ++ (ms ∷ [])) ≡ role_in v q l
  unfolding role_in
  role_in-append_apart [] ms e = rw e refl
  role_in-append_apart (x ∷ l) ms e =
      ap (λ r. if concerns v q x then some x.role else r) (role_in-append_apart l ms e)

  role_in-select_apart :
      (l : List Membership) → role_in v q (select (λ ms. not (concerns ws p ms)) l) ≡ role_in v q l
  unfolding role_in select
  role_in-select_apart [] = refl
  role_in-select_apart (ms ∷ l) = elim (Bool-cases (concerns ws p ms)) [
    | inl e ↦ rw e (rw (concerns-one ms e) (role_in-select_apart l))
    | inr e ↦ rw e (ap (λ r. if concerns v q ms then some ms.role else r) (role_in-select_apart l))
  ]

  concerns-new_membership_apart :
      (b : Bool) (role : WorkspaceRole) (now : ℕ)
      → concerns v q (new_membership b ws p role now) ≡ false
  unfolding concerns new_membership
  concerns-new_membership_apart b role now = ground (arith, str_eq_iff ws v)

-- The document after a change that gave the pair the role, and left the other workspaces alone.
pub record Grants (before : State) (ws p : Str) (role : Option WorkspaceRole) (w' : World)
    : Type 0 where
  pub given : role_in ws p w'.document.memberships ≡ role
  pub others :
      (v q : Str) → v ≢ ws → role_in v q w'.document.memberships ≡ role_in v q before.memberships
  pub accounts : w'.document.accounts ≡ before.accounts

upsert_membership-Grants :
    (state : State) (b : Bool) (ws p : Str) (role : WorkspaceRole) (w : World) {u : Unit {0}}
    {w' : World}
    → is_empty p ≡ false
    → upsert_membership state b ws p role w ≡ (ok u, w')
    → Grants state ws p (some role) w'
unfolding upsert_membership
upsert_membership-Grants state b ws p role w {u} {w'} named h =
    elim (Bool-cases (exists_by (concerns ws p) state.memberships)) [
      | inl e ↦
          let s = last_save _ w (rw e at h) in
          record {
            given = rw s (role_in-update_first ws p b role state.memberships e);
            others = λ v q apart.
                rw s (role_in-update_first_apart ws p v q apart b role state.memberships);
            accounts = ap (λ (x : World). x.document.accounts) s;
          }
      | inr e ↦
          let now = w.env.clock w.step in
          let s = last_save _ (tick w) (after_time w _ (rw e at h)) in
          let ms = new_membership b ws p role now in
          record {
            given = rw s (
                role_in-append ws p role state.memberships ms e
                  (concerns-new_membership ws p b role now named)
                ∙ unfold new_membership in refl);
            others = λ v q apart. rw s (
                role_in-append_apart ws p v q apart state.memberships ms
                  (concerns-new_membership_apart ws p v q apart b role now));
            accounts = ap (λ (x : World). x.document.accounts) s;
          }
    ]

-- When `SetMembership` succeeds, the role was admin or member, and with `before` what was loaded: the
-- trimmed principal now has that role in the trimmed workspace, every principal has the role that it
-- had in every other workspace, and the accounts are those loaded.
pub set_membership-Grants :
    (ws p : Str) (role : WorkspaceRole) (w : World) {u : Unit {0}} {w' : World}
    → set_membership ws p role w ≡ (ok u, w')
    → (valid_workspace_role role ≡ true)
      × Grants (loaded w) (trim_space ws) (trim_space p) (some role) w'
unfolding set_membership
set_membership-Grants ws p role w h =
    let (named, h₁) = after_raise_if w _ _ _ h in
    let (valid, h₂) = after_raise_if w _ _ _ h₁ in
    let h₃ = after_load w _ h₂ in
    let (known, h₄) = after_raise_if (tick w) _ _ _ h₃ in
    let (principal, h₅) = after_raise_if (tick w) _ _ _ h₄ in
    (
      ground arith,
      upsert_membership-Grants (loaded w) (user_exists (loaded w) (trim_space p)) (trim_space ws)
          (trim_space p) role (tick w) (ground arith) h₅,
    )

-- When `RemoveMembership` succeeds, with `before` what was loaded: the principal has no role in the
-- workspace, every principal has the role that it had in every other workspace, and the accounts are
-- those loaded.
pub remove_membership-Grants :
    (ws p : Str) (w : World) {u : Unit {0}} {w' : World}
    → remove_membership ws p w ≡ (ok u, w')
    → Grants (loaded w) ws p none w'
unfolding remove_membership
remove_membership-Grants ws p w h =
    let h₁ = after_load w _ h in
    let (known, h₂) = after_raise_if (tick w) _ _ _ h₁ in
    let s = last_save _ (tick w) h₂ in
    record {
      given = rw s (role_in-select ws p (loaded w).memberships);
      others = λ v q apart. rw s (role_in-select_apart ws p v q apart (loaded w).memberships);
      accounts = ap (λ (x : World). x.document.accounts) s;
    }
