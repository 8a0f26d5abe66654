-- ===== src/Accounts/Edits.antt =====
-- What the edits of one account in internal/manager/accounts.go leave behind, as a lookup sees it.
use mathlib.Core.Path.{sym}
use cube.Prelude.{
  suc, ◌⊎◌, ◌++◌, ◌≡◌, ◌≢◌, refl, ap, ◌∙◌, inl, inr, true, false, Option, none, some, List, [], ◌∷◌,
  arith, if◌then◌else◌, Bool-cases, Str, str_eq, str_eq_iff, str_eq_refl, trim_space, exists_by,
  find_by, update_first,
}
use cube.Types.{Time, zero_time, Account, AccountOwnerMode, State}
use cube.Identity.{matches_account_id}
use cube.Normalize.{workspace_or_default}
use cube.Workspaces.{workspace_exists}
use cube.Result.{ok}
use cube.World.{World, tick}
use cube.World.Steps.{
  loaded, after_load, after_raise_if, after_time, after_save, after_io, after_pure, last_save,
}
use cube.Accounts.{
  has_id, edit_account, with_workspace, set_account_workspace, new_account, add_account,
}

abbrev pub account_of : Str → List Account → Option Account
account_of id accounts = find_by (has_id id) accounts

module _ (id : Str) (f : Account → Account) (keeps : (a : Account) → (f a).id ≡ a.id) where
  find-update_first :
      (l : List Account)
      → exists_by (has_id id) l ≡ true
      → (a : Account) × (account_of id l ≡ some a)
        × (account_of id (update_first (has_id id) f l) ≡ some (f a))
  unfolding exists_by find_by update_first has_id
  find-update_first [] h = cc
  find-update_first (x ∷ l) h = elim (Bool-cases (has_id id x)) [
    | inl e ↦
        let e' : has_id id (f x) ≡ true = ap (λ i. str_eq i id) (keeps x) ∙ e in
        (x, rw e refl, rw e (rw e' refl))
    | inr e ↦ let (a, p, q) = find-update_first l (rw e at h) in (a, rw e p, rw e (rw e q))
  ]

  find-update_first_apart :
      (j : Str) (l : List Account)
      → j ≢ id
      → account_of j (update_first (has_id id) f l) ≡ account_of j l
  unfolding find_by update_first has_id
  find-update_first_apart j [] h = refl
  find-update_first_apart j (x ∷ l) h =
      ground (arith, keeps x, str_eq_iff x.id id, str_eq_iff x.id j, find-update_first_apart j l h)

-- The document after an edit by `f`: the account with the id was there and is changed by `f`, and a
-- lookup of any other id finds what it found.
pub record Edited (before : State) (id : Str) (f : Account → Account) (w' : World) : Type 0 where
  pub account : Account
  pub was : account_of id before.accounts ≡ some account
  pub is_now : account_of id w'.document.accounts ≡ some (f account)
  pub others : (j : Str) → j ≢ id → account_of j w'.document.accounts ≡ account_of j before.accounts

edit_account-Edited :
    (state : State) (id : Str) (f : Time → Account → Account) (w : World) {u : Unit {0}}
    {w' : World}
    → ((t : Time) (a : Account) → (f t a).id ≡ a.id)
    → edit_account state id f w ≡ (ok u, w')
    → Edited state id (f (w.env.clock w.step)) w'
unfolding edit_account
edit_account-Edited state id f w {u} {w'} keeps h =
    elim (Bool-cases (exists_by (has_id id) state.accounts)) [
      | inl e ↦
          let now = w.env.clock w.step in
          let s = last_save _ (tick w) (after_time w _ (rw e at h)) in
          let (a, p, q) = find-update_first id (f now) (keeps now) state.accounts e in
          record {
            account = a;
            was = p;
            is_now = rw s q;
            others = λ j apart.
                rw s (find-update_first_apart id (f now) (keeps now) j state.accounts apart);
          }
      | inr e ↦ cc (rw e at h)
    ]

-- `account` after it was given to this owner: to a client it goes without its lease.
abbrev pub Owned : AccountOwnerMode → Str → Time → Account → Account → Type 0
Owned mode client t account new =
    ((mode ≡ AccountOwnerMode.cloud)
      × (new ≡ record account {
        owner_mode = AccountOwnerMode.cloud;
        owner_client_id = trim_space client;
        updated_at = t;
      }))
    ⊎ ((mode ≡ AccountOwnerMode.client)
        × (new ≡ record account {
          owner_mode = AccountOwnerMode.client;
          owner_client_id = trim_space client;
          lease_id = [];
          lease_client_id = [];
          lease_holder = [];
          lease_started_at = zero_time;
          lease_heartbeat_at = zero_time;
          lease_expires_at = zero_time;
          updated_at = t;
        }))

-- What `SetOwner` has done. The other edits are in `Edited`.
pub record OwnerSet (id : Str) (mode : AccountOwnerMode) (client : Str) (w w' : World)
    : Type 0 where
  pub account : Account
  pub new : Account
  pub was : account_of id (loaded w).accounts ≡ some account
  pub is_now : account_of id w'.document.accounts ≡ some new
  pub owned : Owned mode client (w.env.clock (suc w.step)) account new
  pub others :
      (j : Str) → j ≢ id → account_of j w'.document.accounts ≡ account_of j (loaded w).accounts

-- When `SetAccountWorkspace` succeeds, the workspace, the default one for a blank id, is one of the
-- loaded state's, the account with the id is in it, and every other id finds the account that it
-- found in the loaded state.
pub set_account_workspace-Edited :
    (id ws : Str) (w : World) {u : Unit {0}} {w' : World}
    → set_account_workspace id ws w ≡ (ok u, w')
    → (workspace_exists (loaded w) (workspace_or_default ws) ≡ true)
      × (t : Time) × Edited (loaded w) id (with_workspace (workspace_or_default ws) t) w'
unfolding set_account_workspace
set_account_workspace-Edited id ws w h =
    let h₁ = after_load w _ h in
    let (known, h₂) = after_raise_if (tick w) _ _ _ h₁ in
    (
      ground arith,
      w.env.clock (tick w).step,
      edit_account-Edited (loaded w) id (with_workspace (workspace_or_default ws)) (tick w)
          (λ t a. unfold with_workspace in refl) h₂,
    )

find-append :
    (l : List Account) (a : Account)
    → exists_by (has_id a.id) l ≡ false
    → (account_of a.id l ≡ none) × (account_of a.id (l ++ (a ∷ [])) ≡ some a)
unfolding exists_by find_by has_id
find-append [] a h = (refl, rw (str_eq_refl a.id) refl)
find-append (x ∷ l) a h = elim (Bool-cases (str_eq x.id a.id)) [
  | inl e ↦ cc (rw e at h)
  | inr e ↦ rw e (find-append l a (rw e at h))
]

find-append_apart :
    (j : Str) (l : List Account) (a : Account)
    → j ≢ a.id
    → account_of j (l ++ (a ∷ [])) ≡ account_of j l
unfolding find_by has_id
find-append_apart j [] a h = ground (arith, str_eq_iff a.id j)
find-append_apart j (x ∷ l) a h =
    ap (λ r. if str_eq x.id j then some x else r) (find-append_apart j l a h)

-- What `AddAccount` has done.
pub record Adds (before : State) (account : Account) (w' : World) : Type 0 where
  pub well_named : matches_account_id account.id ≡ true
  pub was_free : account_of account.id before.accounts ≡ none
  pub is_there : account_of account.id w'.document.accounts ≡ some account
  pub others :
      (j : Str) → j ≢ account.id → account_of j w'.document.accounts ≡ account_of j before.accounts

-- When `AddAccount` succeeds, the account that it returns has the trimmed id, which has the form of an
-- account id and was free in the loaded state; a lookup of it finds that account, and a lookup of
-- any other id finds what it found in the loaded state.
pub add_account-Adds :
    (dir id label : Str) (w : World) {a : Account} {w' : World}
    → add_account dir id label w ≡ (ok a, w')
    → (a.id ≡ trim_space id) × Adds (loaded w) a w'
unfolding add_account new_account
add_account-Adds dir id label w {a} {w'} h =
    let (named, h₁) = after_raise_if w _ _ _ h in
    let h₂ = after_load w _ h₁ in
    let (free, h₃) = after_raise_if (tick w) _ _ _ h₂ in
    let h₄ = after_io (tick (tick w)) _ (after_time (tick w) _ h₃) in
    let h₅ = after_save (tick (tick (tick w))) _ _ h₄ in
    let (r, s) = after_pure _ _ h₅ in
    let same : a.id ≡ trim_space id = ap (λ (x : Account). x.id) r in
    let (p, q) =
      find-append (loaded w).accounts
        (new_account dir (trim_space id) (trim_space label) (w.env.clock (tick w).step))
        (ground arith) in
    (
      same,
      record {
        well_named = rw same (ground arith);
        was_free = rw same p;
        is_there = rw r (rw s q);
        others = λ j apart. rw s (
            find-append_apart j (loaded w).accounts
              (new_account dir (trim_space id) (trim_space label) (w.env.clock (tick w).step))
              (λ e. apart (e ∙ sym same)));
      },
    )
