-- ===== src/Result.antt =====
-- Errors as values. A message that is one fixed text is `failed`; one that is formatted has a
-- constructor with its arguments. `io` is the error of a call of the operating system.
use cube.Prelude.{Str, ℤ, Bool, true, false}
use cube.Types.{AccountStatus, AccountOwnerMode}

pub data Error : Type 0 where
  io : Error
  failed : Str → Error
  lease_missing_for : Str → Str → Error
  lease_missing : Str → Error
  lease_not_found : Error → Error
  not_held_by : Str → Str → Error
  lease_has_expired : Str → Str → Error
  belongs_to_client : Str → Str → Error
  not_leased_by : Str → Str → Error
  account_not_found : Str → Error
  account_exists : Str → Error
  account_leased : Str → Error
  generation_conflict : Str → ℤ → ℤ → Error
  unknown_status : AccountStatus → Error
  unknown_owner_mode : AccountOwnerMode → Error
  workspace_not_found : Str → Error
  principal_not_found : Str → Error
  not_a_member : Str → Str → Error
  not_in_workspace : Str → Error
  client_not_found : Str → Error
  device_not_found : Str → Error
  user_not_found : Str → Error
  username_taken : Str → Error

pub data Result {ℓ} (A : Type ℓ) : Type ℓ where
  err : Error → Result A
  ok : A → Result A

-- `a, err := r; if err != nil { return err }`
infixl 5 ◌>>=◌
abbrev pub ◌>>=◌ {ℓ κ} : {A : Type ℓ} {B : Type κ} → Result A → (A → Result B) → Result B
err failure >>= next = err failure
ok value >>= next = next value

infixl 5 ◌>>◌
abbrev pub ◌>>◌ {ℓ} : {B : Type ℓ} → Result (Unit {0}) → Result B → Result B
err failure >> next = err failure
ok done >> next = next

-- `if b { return e }`
abbrev pub fail_if : Bool → Error → Result (Unit {0})
fail_if true e = err e
fail_if false e = ok tt
