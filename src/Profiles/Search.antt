-- ===== src/Profiles/Search.antt =====
-- Which account an upload finds (`UpsertJSONProfile` of internal/manager/accounts.go): by its id, or by
-- the identity of its auth.json.
use cube.Prelude.{
  if-elim, arith, Option, none, ◌⊎◌, inl, inr, ◌+◌, List, [], ◌∷◌, true, get_elem?, Bool-cases,
  Option-cases, str_eq, str_eq_iff, if◌then◌else◌, ℕ, suc, ◌≡◌, refl, ap, sym, subst, ◌∙◌, false,
  some, Str, trim_space, is_empty,
}
use cube.Types.{Account, State}
use cube.Result.{Result, ok, err}
use cube.World.{World, time_stamp, pure}
use cube.World.Steps.{after_pure, after_bind}
use cube.Usage.Json.{Fields}
use cube.Profiles.Auth.{Codec, auth_identity, metadata, read_auth_metadata}
use mathlib.Core.Option.{some-injective}
use cube.Identity.{sanitize_account_id}
use cube.Profiles.Auth.{derive_id_from_auth}
use cube.Profiles.Upsert.{
  JsonProfile, index_of, same_identity, profile_id, made_id, existing_account,
}

-- The auth.json of the account, read at some step of a run with the files of `w`, is of the identity.
pub record SameIdentity (k : Codec) (w : World) (identity : Str) (a : Account) : Type 0 where
  pub u : World
  pub same_env : u.env ≡ w.env
  pub same_files : u.auth ≡ w.auth
  pub fields : Fields
  pub read : (read_auth_metadata k a.codex_home u).0 ≡ ok fields
  pub identity_of : auth_identity k fields ≡ identity

-- How the account at index `i` was found in the accounts with the files of `w`: it is the first with the
-- id, or there is none with the id, and its auth.json, as it is read at some step, is of the identity.
abbrev pub FoundBy :
    Codec → World → (id identity : Str) (accounts : List Account) → ℕ → Account → Type 0
FoundBy k w id identity accounts i old =
    (index_of id 0 accounts ≡ some (i, old))
    ⊎ ((index_of id 0 accounts ≡ none)
        × (is_empty identity ≡ false)
        × (get_elem? accounts i ≡ some old)
        × SameIdentity k w identity old)

SameIdentity-later :
    (k : Codec) (w v : World) (identity : Str) (a : Account)
    → v.env ≡ w.env
    → v.auth ≡ w.auth
    → SameIdentity k v identity a
    → SameIdentity k w identity a
SameIdentity-later k w v identity a e f s = record {
  u = s.u;
  same_env = s.same_env ∙ e;
  same_files = s.same_files ∙ f;
  fields = s.fields;
  read = s.read;
  identity_of = s.identity_of;
}

pub FoundBy-later :
    (k : Codec) (w v : World) (id identity : Str) (l : List Account) (i : ℕ) (a : Account)
    → v.env ≡ w.env
    → v.auth ≡ w.auth
    → FoundBy k v id identity l i a
    → FoundBy k w id identity l i a
FoundBy-later k w v id identity l i a e f (inl h) = inl h
FoundBy-later k w v id identity l i a e f (inr (h, given, at, same)) =
    inr (h, given, at, SameIdentity-later k w v identity a e f same)

same_identity-found :
    (k : Codec) (identity : Str) (i : ℕ) (l : List Account) (w : World) {j : ℕ} {old : Account}
    {w' : World}
    → same_identity k identity i l w ≡ (ok (some (j, old)), w')
    → (n : ℕ) × (j ≡ i + n) × (get_elem? l n ≡ some old) × SameIdentity k w identity old
unfolding same_identity read_auth_metadata
same_identity-found k identity i [] w h = cc
same_identity-found k identity i (b ∷ l) w {j} {old} {w'} h =
    let v = (read_auth_metadata k b.codex_home w).1 in
    let found : Option (ℕ × Account) = some (i, b) in
    let (x, p, q) =
      after_bind (read_auth_metadata k b.codex_home)
        (λ existing.
          if str_eq (auth_identity k existing) identity
          then pure found
          else same_identity k identity (suc i) l)
        w h in
    elim (Bool-cases (str_eq (auth_identity k x) identity)) [
      | inl e ↦
          let (r, _) = after_pure found v (rw e at q) in
          let pair = some-injective _ _ r in
          let same : old ≡ b = ap (λ y. y.1) pair in
          (
            0,
            omega (arith, ap (λ y. y.0) pair),
            ap some (sym same),
            subst (SameIdentity k w identity) (sym same) (record {
              u = w;
              same_env = refl;
              same_files = refl;
              fields = x;
              read = ap (λ y. y.0) p;
              identity_of = (str_eq_iff (auth_identity k x) identity).0 e;
            }),
          )
      | inr e ↦
          let (n, eq, at, same) =
            same_identity-found k identity (suc i) l v {j = j} {old = old} {w' = w'} (rw e at q) in
          (suc n, omega arith, at, SameIdentity-later k w v identity old refl refl same)
    ]

pub existing_account-found :
    (k : Codec) (state : State) (id identity : Str) (w : World) {i : ℕ} {old : Account} {w' : World}
    → existing_account k state id identity w ≡ (ok (some (i, old)), w')
    → FoundBy k w id identity state.accounts i old
unfolding existing_account
existing_account-found k state id identity w {i} {old} {w'} h =
    elim (Option-cases (index_of id 0 state.accounts)) [
      | inl e ↦ elim (Bool-cases (is_empty identity)) [
        | inl blank ↦ cc (rw blank at (rw e at h))
        | inr given ↦
            let (n, eq, at, same) =
              same_identity-found k identity 0 state.accounts w {j = i} {old = old} {w' = w'}
                (rw given at (rw e at h)) in
            let its : i ≡ n = omega arith in inr (e, given, rw its at, same)
      ]
      | inr (f, e) ↦ inl (
          e
          ∙ (ap
              (λ (r : Result (Option (ℕ × Account)) × World). elim (r.0) [
                | ok o ↦ o
                | err x ↦ none
              ])
              (rw e at h)))
    ]

pub existing_account-none :
    (k : Codec) (state : State) (id identity : Str) (w : World) {w' : World}
    → existing_account k state id identity w ≡ (ok none, w')
    → index_of id 0 state.accounts ≡ none
unfolding existing_account
existing_account-none k state id identity w h = elim (Option-cases (index_of id 0 state.accounts)) [
  | inl e ↦ e
  | inr (f, e) ↦ cc (rw e at h)
]

-- The search only reads.
same_identity-env :
    (k : Codec) (identity : Str) (i : ℕ) (l : List Account) (w : World)
    → (same_identity k identity i l w).1.env ≡ w.env
unfolding same_identity read_auth_metadata
same_identity-env k identity i [] w = refl
same_identity-env k identity i (b ∷ l) w =
    let v = (read_auth_metadata k b.codex_home w).1 in
    if-elim (λ (m : World → Result (Option (ℕ × Account)) × World). (m v).1.env ≡ w.env)
      (str_eq
        (auth_identity k
          (if w.env.fails w.step then Fields.no_fields else metadata k (w.auth b.codex_home)))
        identity)
      (λ e. refl) (λ e. same_identity-env k identity (suc i) l v)

pub existing_account-env :
    (k : Codec) (state : State) (id identity : Str) (w : World)
    → (existing_account k state id identity w).1.env ≡ w.env
unfolding existing_account
existing_account-env k state id identity w = elim (Option-cases (index_of id 0 state.accounts)) [
  | inl e ↦ elim (Bool-cases (is_empty identity)) [
    | inl blank ↦ rw e (rw blank refl)
    | inr given ↦ rw e (rw given (same_identity-env k identity 0 state.accounts w))
  ]
  | inr (f, e) ↦ rw e refl
]

-- The name of the id: the one given, or, without one, a made one.
pub profile_id-named :
    (k : Codec) (state : State) (profile : JsonProfile) (fields : Fields) (w : World) {id : Str}
    {w' : World}
    → profile_id k state profile fields w ≡ (ok id, w')
    → ((is_empty (trim_space profile.id) ≡ true) ⊎ (id ≡ trim_space profile.id))
      × (w'.env ≡ w.env)
      × (w'.auth ≡ w.auth)
unfolding profile_id made_id time_stamp
profile_id-named k state profile fields w {id} {w'} h =
    let derived = sanitize_account_id (derive_id_from_auth k fields profile.label) in
    elim (Bool-cases (is_empty (trim_space profile.id))) [
      | inl blank ↦ elim (Bool-cases (is_empty derived)) [
        | inl e ↦
            let (_, s) = after_pure _ _ (rw e at (rw blank at h)) in
            (inl blank, ap (λ (v : World). v.env) s, ap (λ (v : World). v.auth) s)
        | inr e ↦
            let (_, s) = after_pure _ _ (rw e at (rw blank at h)) in
            (inl blank, ap (λ (v : World). v.env) s, ap (λ (v : World). v.auth) s)
      ]
      | inr given ↦
          let (r, s) = after_pure _ _ (rw given at h) in
          (inr r, ap (λ (v : World). v.env) s, ap (λ (v : World). v.auth) s)
    ]
