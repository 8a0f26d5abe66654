-- ===== src/Normalize/Accounts.antt =====
-- What every account of a loaded state satisfies, and that loading a valid account leaves it alone.
use cube.Prelude.{
  ◌≡◌, refl, ap, ◌∙◌, true, false, not, List, [], ◌∷◌, map, arith, All, if-elim, Str, is_blank, ℤ,
  pos, negsuc, ◌≤ℤ◌,
}
use cube.Types.{Time, Account, State}
use cube.Normalize.{
  valid_account_status, valid_owner_mode, workspace_or_default, default_workspace_id, at_least_zero,
  normalize_account, migrate_default_workspace, migrate_users_and_devices, normalize_state,
}

pub record IsValid (a : Account) : Type 0 where
  pub status : valid_account_status a.status ≡ true
  pub owner : valid_owner_mode a.owner_mode ≡ true
  pub pool : is_blank a.workspace_id ≡ false
  pub counted : pos 0 ≤ℤ a.generation

default-not-blank : is_blank default_workspace_id ≡ false
unfolding is_blank
default-not-blank = refl

pub workspace_or_default-not-blank : (id : Str) → is_blank (workspace_or_default id) ≡ false
unfolding workspace_or_default
workspace_or_default-not-blank id =
    if-elim (λ s. is_blank s ≡ false) (is_blank id) (λ h. default-not-blank) (λ h. h)

at_least_zero_nonneg : (n : ℤ) → pos 0 ≤ℤ at_least_zero n
at_least_zero_nonneg (pos n) = omega arith
at_least_zero_nonneg (negsuc n) = omega arith

pub normalize_account-IsValid : (a : Account) → IsValid (normalize_account a)
unfolding normalize_account
normalize_account-IsValid a = record {
  status =
      if-elim (λ s. valid_account_status s ≡ true) (not (valid_account_status a.status))
        (λ h. unfold valid_account_status in refl) (λ h. ground arith);
  owner =
      if-elim (λ s. valid_owner_mode s ≡ true) (not (valid_owner_mode a.owner_mode))
        (λ h. unfold valid_owner_mode in refl) (λ h. ground arith);
  pool = workspace_or_default-not-blank a.workspace_id;
  counted = at_least_zero_nonneg a.generation;
}

at_least_zero_id : (n : ℤ) → pos 0 ≤ℤ n → at_least_zero n ≡ n
at_least_zero_id (pos n) h = refl
at_least_zero_id (negsuc n) h = absurd (omega arith)

pub normalize_account_id : (a : Account) → IsValid a → normalize_account a ≡ a
unfolding normalize_account
normalize_account_id a v =
    rw v.status (rw v.owner (rw v.pool (rw (at_least_zero_id a.generation v.counted) refl)))

migrate_default_workspace-accounts :
    (now : Time) (state : State) → (migrate_default_workspace now state).accounts ≡ state.accounts
unfolding migrate_default_workspace
migrate_default_workspace-accounts now state = ground arith

migrate_users_and_devices-accounts :
    (now : Time) (stamp : Str) (state : State)
    → (migrate_users_and_devices now stamp state).accounts ≡ state.accounts
unfolding migrate_users_and_devices
migrate_users_and_devices-accounts now stamp state = ground arith

-- Loading normalizes each account, and the migrations leave accounts alone.
pub normalize_state-accounts :
    (now : Time) (stamp : Str) (state : State)
    → (normalize_state now stamp state).accounts ≡ map normalize_account state.accounts
unfolding normalize_state
normalize_state-accounts now stamp state =
    migrate_users_and_devices-accounts now stamp _ ∙ migrate_default_workspace-accounts now _

map-normalize-All : (accounts : List Account) → All IsValid (map normalize_account accounts)
map-normalize-All [] = tt
map-normalize-All (a ∷ accounts) = (normalize_account-IsValid a, map-normalize-All accounts)

-- In a normalized state each account has a known status, a known owner mode, a workspace and a
-- generation that is not negative.
pub normalize_state-IsValid :
    (now : Time) (stamp : Str) (state : State)
    → All IsValid (normalize_state now stamp state).accounts
normalize_state-IsValid now stamp state =
    rw (normalize_state-accounts now stamp state) (map-normalize-All state.accounts)

pub map-normalize_id :
    (accounts : List Account) → All IsValid accounts → map normalize_account accounts ≡ accounts
map-normalize_id [] v = refl
map-normalize_id (a ∷ accounts) v =
    rw (normalize_account_id a v.0) (ap (◌∷◌ a) (map-normalize_id accounts v.1))
