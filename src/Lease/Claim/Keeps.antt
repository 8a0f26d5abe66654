-- ===== src/Lease/Claim/Keeps.antt =====
-- The steps of `ClaimLease` (internal/manager/lease.go) that leave the document alone.
use cube.Prelude.{◌≡◌, refl, ◌∙◌, inl, inr, Bool-cases, Option-cases, Str}
use cube.Types.{Account}
use cube.Lease.Claim.{export_profile_snapshot, snapshot_from_file}
use cube.Result.{Result, ok, err}
use cube.Accounts.{get_account}
use cube.World.{World, M, continue, pure, quietly, save_round_robin, load, read_auth, ◌>>=◌}
use cube.World.Steps.{after_pure}

-- Steps that leave the document alone.
abbrev pub Keeps {ℓ} : {A : Type ℓ} → M A → Type 0
Keeps m = (v : World) → (m v).1.document ≡ v.document

module _ {ℓ κ} {A : Type ℓ} {B : Type κ} where
  continue-Keeps :
      (f : A → M B) (r : Result A) (v : World)
      → ((a : A) → Keeps (f a))
      → (continue f r v).1.document ≡ v.document
  continue-Keeps f (ok a) v k = k a v
  continue-Keeps f (err e) v k = refl

  bind-Keeps : (m : M A) (f : A → M B) → Keeps m → ((a : A) → Keeps (f a)) → Keeps (m >>= f)
  bind-Keeps m f p q v = continue-Keeps f (m v).0 (m v).1 q ∙ p v

  pub continue-ok :
      (f : A → M B) (r : Result A) (v : World) {b : B} {w' : World}
      → continue f r v ≡ (ok b, w')
      → (a : A) × (r ≡ ok a) × (f a v ≡ (ok b, w'))
  continue-ok f (ok a) v h = (a, refl, h)
  continue-ok f (err e) v h = cc

  -- The end of a run: the last call succeeds and its result is dressed up.
  pub continue-last :
      (g : A → B) (r : Result A) (v : World) {b : B} {w' : World}
      → continue (λ a. pure (g a)) r v ≡ (ok b, w')
      → (a : A) × (b ≡ g a) × (w' ≡ v)
  continue-last g (ok a) v h = let (p, q) = after_pure (g a) v h in (a, p, q)
  continue-last g (err e) v h = cc

get_account-Keeps : (id : Str) → Keeps (get_account id)
unfolding get_account load
get_account-Keeps id v = elim (Bool-cases (v.env.fails v.step)) [
  | inl e ↦ rw e refl
  | inr e ↦ rw e refl
]

snapshot_from_file-Keeps : (a : Account) → Keeps (snapshot_from_file a)
unfolding snapshot_from_file read_auth
snapshot_from_file-Keeps a v = elim (Bool-cases (v.env.fails v.step)) [
  | inl e ↦ rw e refl
  | inr e ↦ elim (Option-cases (v.auth a.codex_home)) [
    | inl n ↦ rw e (rw n refl)
    | inr (c, n) ↦ rw e (rw n refl)
  ]
]

pub export_profile_snapshot-Keeps : (id : Str) → Keeps (export_profile_snapshot id)
unfolding export_profile_snapshot
export_profile_snapshot-Keeps id =
    bind-Keeps (get_account id) snapshot_from_file (get_account-Keeps id) snapshot_from_file-Keeps

pub save_round_robin-Keeps : (id : Str) → Keeps (quietly (save_round_robin id))
unfolding save_round_robin
save_round_robin-Keeps id v = elim (Bool-cases (v.env.fails v.step)) [
  | inl e ↦ rw e refl
  | inr e ↦ rw e refl
]
