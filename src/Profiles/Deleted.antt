-- ===== src/Profiles/Deleted.antt =====
-- What `DeleteAccount` (internal/manager/accounts.go) has done when it succeeds.
use cube.Prelude.{
  ◌≡◌, refl, ap, subst, ◌∙◌, inl, inr, Bool, true, false, not, ◌||◌, Option, none, some, arith,
  if◌then◌else◌, Bool-cases, Str, str_eq, str_eq_refl, find_by, suc,
}
use cube.Types.{Account}
use cube.Accounts.{has_id}
use cube.Result.{Error, ok}
use cube.World.{
  World, M, raise_if, ◌>>◌, tick, load_round_robin, save_round_robin, reset_round_robin,
}
use cube.World.Steps.{
  loaded, saved, after_bind, after_load, after_lift, after_raise_if, after_save, after_pure,
}
use cube.Profiles.Delete.{
  Paths, or_missing, is_default, validate_managed_codex_home, remove_all, remove_first,
  forget_round_robin, delete_account,
}

-- The account was the first with the id, its directory was a managed one and not a live one; the new
-- document is without it, and its auth.json is gone.
pub record Deletes (paths : Paths) (id : Str) (w : World) (a : Account) (w' : World) : Type 0 where
  pub found : find_by (has_id id) (loaded w).accounts ≡ some a
  pub managed : paths.within a.codex_home paths.accounts_dir ≡ true
  pub not_live :
      (paths.same a.codex_home paths.live_home ≡ false)
      × (is_default paths a.codex_home paths.default_home ≡ false)
  pub stored :
      w'.document
      ≡ record (loaded w) { version = 1; accounts = remove_first (has_id id) (loaded w).accounts }
  pub gone : w'.auth a.codex_home ≡ none

or_missing-ok : (o : Option Account) (id : Str) {a : Account} → or_missing o id ≡ ok a → o ≡ some a
or_missing-ok none id h = cc
or_missing-ok (some x) id h = ground arith

not-false : (b : Bool) → not b ≡ false → b ≡ true
not-false true h = refl
not-false false h = cc

abbrev cleared : Paths → Str → (Str → Option Str) → Str → Option Str
cleared paths home auth h = if str_eq h home || paths.within h home then none else auth h

cleared-gone :
    (paths : Paths) (home : Str) (auth : Str → Option Str) → cleared paths home auth home ≡ none
cleared-gone paths home auth = rw (str_eq_refl home) refl

last_raise_if :
    (c : Bool) (e : Error) (w v : World) {u : Unit {0}}
    → raise_if c e w ≡ (ok u, v)
    → (c ≡ false) × (v ≡ w)
unfolding raise_if
last_raise_if true e w v h = cc
last_raise_if false e w v h = (refl, ground arith)

after_validate {ℓ} :
    {B : Type ℓ} (paths : Paths) (home : Str) (k : M B) (w : World) {b : B} {w' : World}
    → (validate_managed_codex_home paths home >> k) w ≡ (ok b, w')
    → (paths.within home paths.accounts_dir ≡ true)
      × ((paths.same home paths.live_home ≡ false)
          × (is_default paths home paths.default_home ≡ false))
      × (k w ≡ (ok b, w'))
unfolding validate_managed_codex_home
after_validate paths home k w {b} {w'} h =
    let (u, p, q) = after_bind (validate_managed_codex_home paths home) (λ _. k) w h in
    let (_, p₁) = after_raise_if w _ _ _ p in
    let (live, p₂) = after_raise_if w _ _ _ p₁ in
    let (default, p₃) = after_raise_if w _ _ _ p₂ in
    let (inside, same) = last_raise_if _ _ w (validate_managed_codex_home paths home w).1 p₃ in
    (
      not-false (paths.within home paths.accounts_dir) inside,
      (live, default),
      subst (λ v. k v ≡ (ok b, w')) same q,
    )

after_remove_all {ℓ} :
    {B : Type ℓ} (paths : Paths) (home : Str) (k : M B) (w : World) {b : B} {w' : World}
    → (remove_all paths home >> k) w ≡ (ok b, w')
    → k (record (tick w) { auth = cleared paths home w.auth }) ≡ (ok b, w')
unfolding remove_all
after_remove_all paths home k w h = elim (Bool-cases (w.env.fails w.step)) [
  | inl e ↦ cc (rw e at h)
  | inr e ↦ rw (e, remove_all) at h
]

-- The round robin's file is apart from the document and the auth files.
forget_keeps :
    (paths : Paths) (id : Str) (w : World)
    → ((forget_round_robin paths id w).1.document ≡ w.document)
      × ((forget_round_robin paths id w).1.auth ≡ w.auth)
unfolding forget_round_robin load_round_robin reset_round_robin save_round_robin
forget_keeps paths id w = elim (Bool-cases (w.env.fails w.step)) [
  | inl e ↦ rw e (refl, refl)
  | inr e ↦ rw e (elim (Bool-cases (str_eq w.round_robin id)) [
    | inr f ↦ rw f (refl, refl)
    | inl f ↦ rw f (elim (Bool-cases (w.env.fails (suc w.step))) [
      | inl g ↦ rw g (refl, refl)
      | inr g ↦ rw g (refl, refl)
    ])
  ])
]

-- When `DeleteAccount` succeeds: the account returned was the first with the id, its directory lies in
-- the accounts directory and is neither the live Codex home nor the default one; the new document is the
-- loaded one without it, and its auth.json is gone.
pub delete_account-Deletes :
    (paths : Paths) (id : Str) (w : World) {a : Account} {w' : World}
    → delete_account paths id w ≡ (ok a, w')
    → Deletes paths id w a w'
unfolding delete_account
delete_account-Deletes paths id w {a} {w'} h =
    let h₁ = after_load w _ h in
    let (account, p, h₂) =
      after_lift (tick w) (or_missing (find_by (has_id id) (loaded w).accounts) id) _ h₁ in
    let (managed, not_live, h₃) = after_validate paths account.codex_home _ (tick w) h₂ in
    let h₄ = after_remove_all paths account.codex_home _ (tick w) h₃ in
    let h₅ = after_save _ _ _ h₄ in
    let (e, s) = after_pure account _ h₅ in
    let (d, f) = forget_keeps paths id (
      saved (record (loaded w) { accounts = remove_first (has_id id) (loaded w).accounts })
        (record (tick (tick w)) { auth = cleared paths account.codex_home w.auth })) in
    record {
      found = rw e (or_missing-ok _ id p);
      managed = rw e managed;
      not_live = rw e not_live;
      stored = ap (λ (x : World). x.document) s ∙ d;
      gone = rw e (
          ap (λ (x : World). x.auth account.codex_home) s
          ∙ ap (λ g. g account.codex_home) f
          ∙ cleared-gone paths account.codex_home w.auth);
    }
