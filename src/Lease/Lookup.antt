-- ===== src/Lease/Lookup.antt =====
-- `findLeaseAccount` and `validateLease` of internal/manager/lease.go: what a lease operation knows
-- of the account that it goes on with.
use cube.Prelude.{
  ℕ, suc, ◌+◌, ◌*◌, ◌<◌, ◌≤◌, ◌≡◌, refl, ◌⊎◌, inl, inr, true, some, List, [], ◌∷◌, arith, get_elem?,
  Bool-cases, Str, str_eq_iff, trim_space, is_empty,
}
use cube.Types.{Time, Account, State, second, minute}
use cube.Result.{ok}
use cube.World.{World, tick}
use cube.World.Steps.{loaded}
use cube.Lease.{
  swept_state, account_lease_active, lease_matches, find_from, find_lease_account, validate_lease,
  normalize_lease_ttl,
}

pub is_empty-nil : (s : Str) → is_empty s ≡ true → s ≡ []
unfolding is_empty
is_empty-nil [] h = refl
is_empty-nil (c ∷ s) h = cc

-- The account found is the one at the index, and it passes the tests.
find_from-some :
    (aid lid : Str) (i : ℕ) (accounts : List Account) {j : ℕ} {a : Account}
    → find_from aid lid i accounts ≡ some (j, a)
    → (k : ℕ) × (j ≡ i + k) × (get_elem? accounts k ≡ some a) × (lease_matches aid lid a ≡ true)
unfolding find_from
find_from-some aid lid i [] h = cc
find_from-some aid lid i (x ∷ accounts) {j} {a} h = elim (Bool-cases (lease_matches aid lid x)) [
  | inl e ↦ (0, ground arith, ground arith, ground arith)
  | inr e ↦
      let (k, p, q, r) = find_from-some aid lid (suc i) accounts {j = j} {a = a} (ground arith) in
      (suc k, omega arith, q, r)
]

pub find_lease_account-ok :
    (state : State) (aid lid : Str) {j : ℕ} {a : Account}
    → find_lease_account state aid lid ≡ ok (j, a)
    → (get_elem? state.accounts j ≡ some a)
      × (lease_matches (trim_space aid) (trim_space lid) a ≡ true)
unfolding find_lease_account
find_lease_account-ok state aid lid {j} {a} h =
    let (k, p, q, r) =
      find_from-some (trim_space aid) (trim_space lid) 0 state.accounts {j = j} {a = a}
        (ground arith) in
    let same : j ≡ k = omega arith in (rw same q, r)

-- The caller holds the account's lease: the id is the lease's, the lease has not run out, and neither
-- side names a client that the other contradicts.
pub record Holds (lease_id client_id : Str) (now : Time) (a : Account) : Type 0 where
  pub named : a.lease_id ≡ trim_space lease_id
  pub live : account_lease_active a now ≡ true
  pub owner :
      (trim_space client_id ≡ [])
      ⊎ (a.lease_client_id ≡ [])
      ⊎ (a.lease_client_id ≡ trim_space client_id)

pub validate_lease-ok :
    (a : Account) (lid cid : Str) (now : Time) {u : Unit {0}}
    → validate_lease a lid cid now ≡ ok u
    → Holds lid cid now a
unfolding validate_lease
validate_lease-ok a lid cid now h = record {
  named = ground (arith, str_eq_iff a.lease_id (trim_space lid));
  live = ground arith;
  owner = ground (
    arith,
    is_empty-nil (trim_space cid),
    is_empty-nil a.lease_client_id,
    str_eq_iff a.lease_client_id (trim_space cid),
  );
}

-- The lease operations begin alike: the lock is their first step, the load their second and the
-- reading of the clock their third.
abbrev pub now_at : World → Time
now_at w = w.env.clock (suc (suc w.step))

abbrev pub swept_at : World → State
swept_at w = swept_state (loaded (tick w)) (now_at w)

-- How long a lease lasts when `ttl` was asked for: that long if it is from 30 seconds to 30 minutes; else
-- 90 seconds for a shorter time, 30 minutes for a longer one.
abbrev pub Lasts : ℕ → ℕ → Type 0
Lasts ttl t =
    ((ttl < 30 * second) × (t ≡ 90 * second))
    ⊎ ((30 * second ≤ ttl) × (ttl ≤ 30 * minute) × (t ≡ ttl))
    ⊎ ((30 * minute < ttl) × (t ≡ 30 * minute))

pub normalize_lease_ttl-Lasts : (ttl : ℕ) → Lasts ttl (normalize_lease_ttl ttl)
unfolding normalize_lease_ttl
normalize_lease_ttl-Lasts ttl = ground arith
