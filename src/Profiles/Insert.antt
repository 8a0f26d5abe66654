-- ===== src/Profiles/Insert.antt =====
-- An upload that finds no account (internal/manager/accounts.go) adds one.
use cube.Prelude.{
  inl, inr, Bool-cases, Option-cases, str_eq_iff, ◌≡◌, ap, exists_by, find_by, find_by-some,
  update_first, ◌∙◌, Str, trim_space,
}
use cube.Types.{Account}
use cube.Result.{ok}
use cube.World.{World, tick}
use cube.World.Steps.{
  loaded, after_load, after_time, after_save, after_pure, after_write_profile_files, after_bind,
}
use cube.Accounts.{add_account, has_id}
use cube.Accounts.Edits.{Adds, add_account-Adds}
use cube.Profiles.Upsert.{insert_profile, start_generation, first_generation}

start_generation-id :
    (b : Account) (w : World) {a : Account} {w' : World}
    → start_generation b w ≡ (ok a, w')
    → a.id ≡ b.id
unfolding start_generation
start_generation-id b w {a} {w'} h =
    let h₁ = after_load w _ h in
    elim (Bool-cases (exists_by (has_id b.id) (loaded w).accounts)) [
      | inl e ↦
          let (r, _) = after_pure _ _ (after_save _ _ _ (after_time (tick w) _ (rw e at h₁))) in
          let now = w.env.clock (tick w).step in
          let l = update_first (has_id b.id) (first_generation now) (loaded w).accounts in
          elim (Option-cases (find_by (has_id b.id) l)) [
            | inl f ↦ ap (λ (x : Account). x.id) (rw f at r)
            | inr (c, f) ↦
                ap (λ (x : Account). x.id) (rw f at r)
                ∙ (str_eq_iff c.id b.id).0 (unfold has_id in find_by-some (has_id b.id) l f)
          ]
      | inr e ↦
          let (r, _) = after_pure _ _ (after_save (tick w) _ _ (rw e at h₁)) in
          ap (λ (x : Account). x.id) r
    ]

pub insert_profile-Adds :
    (dir id label auth : Str) (w : World) {a : Account} {w' : World}
    → insert_profile dir id label auth w ≡ (ok a, w')
    → (added : Account) × (v : World) × (added.id ≡ trim_space id)
      × Adds (loaded w) added v
      × (a.id ≡ added.id)
unfolding insert_profile
insert_profile-Adds dir id label auth w h =
    let (b, p, h₁) = after_bind (add_account dir id label) _ w h in
    let v = (add_account dir id label w).1 in
    let (named, adds) = add_account-Adds dir id label w {a = b} {w' = v} p in
    (
      b,
      v,
      named,
      adds,
      start_generation-id b _ (after_write_profile_files v b.codex_home auth _ h₁),
    )
