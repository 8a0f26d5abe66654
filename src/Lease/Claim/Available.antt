-- ===== src/Lease/Claim/Available.antt =====
-- The candidates of `ClaimLease` (internal/manager/lease.go): which accounts they are.
use cube.Prelude.{
  ℕ, suc, ◌+◌, ◌≡◌, refl, Bool, true, ◌&&◌, some, List, [], ◌∷◌, All, All-map, &&_true, arith,
  get_elem?, if-elim, Str, trim_space,
}
use cube.Types.{Time, Account, State}
use cube.Balance.{load_balance_eligibility_for_account}
use cube.Balance.Eligibility.{MayRun, evaluate_load_balance_fields_iff}
use cube.Balance.Select.{Candidate}
use cube.Lease.{account_lease_active}
use cube.Lease.Claim.{candidates, in_pool, cache_of, auth_present}
use cube.Lease.Lookup.{swept_at, now_at}
use cube.World.{World}

-- The account may be leased: it is in the pool that was asked for, and the balancer's conditions hold.
pub record Available (present : Str → Bool) (state : State) (now : Time) (pool : Str) (a : Account)
    : Type 0 where
  pub is_in : in_pool pool a ≡ true
  pub may_run :
      MayRun a.owner_mode a.status
        (present a.codex_home)
        (account_lease_active a now)
        (cache_of state a.id)
        now

module _ (present : Str → Bool) (state : State) (now : Time) (pool : Str) where
  eligible-Available :
      (a : Account)
      → in_pool pool a ≡ true
      → (load_balance_eligibility_for_account a
          (present a.codex_home)
          (cache_of state a.id)
          now).eligible
        ≡ true
      → Available present state now pool a
  unfolding load_balance_eligibility_for_account
  eligible-Available a p e = record {
    is_in = p;
    may_run =
        (evaluate_load_balance_fields_iff a.owner_mode a.status (present a.codex_home)
            (account_lease_active a now) a.lease_expires_at (cache_of state a.id) now).0
          e;
  }

  -- The candidate is an available account of the list, at the index it carries.
  abbrev pub Placed : ℕ → List Account → Candidate (ℕ × Account) → Type 0
  Placed i l c =
      (k : ℕ) × (c.account.0 ≡ i + k)
      × (get_elem? l k ≡ some c.account.1)
      × Available present state now pool c.account.1

  pub candidates-Placed :
      (i : ℕ) (l : List Account) → All (Placed i l) (candidates present state now pool i l)
  unfolding candidates
  candidates-Placed i [] = tt
  candidates-Placed i (a ∷ l) =
      let evaluation =
        load_balance_eligibility_for_account a (present a.codex_home) (cache_of state a.id) now in
      let rest = candidates present state now pool (suc i) l in
      let later : All (Placed i (a ∷ l)) rest =
        All-map (λ c p. let (k, e, at, free) = p in (suc k, omega (arith, e), at, free)) rest
          (candidates-Placed (suc i) l) in
      if-elim (All (Placed i (a ∷ l))) (in_pool pool a && evaluation.eligible)
        (λ h.
          let (p, e) = &&_true _ _ h in ((0, omega arith, refl, eligible-Available a p e), later))
        (λ h. later)

-- The candidates of a claim that begins in this world.
abbrev pub choices : World → Str → List (Candidate (ℕ × Account))
choices w pool =
    candidates (auth_present w) (swept_at w) (now_at w) (trim_space pool) 0 (swept_at w).accounts
