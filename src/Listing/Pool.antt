-- ===== src/Listing/Pool.antt =====
-- `LoadBalanceStatus` of internal/manager/loadbalance.go, `SelectAccountForRun` and `ShouldSwapLease` of
-- internal/manager/lease.go.
use cube.Prelude.{
  ℕ, ◌*◌, Bool, true, false, not, ◌&&◌, Option, none, some, List, [], ◌∷◌, if◌then◌else◌, Str,
  str_eq, str_lt, trim_space, is_empty, pos, ltb_ℤ,
}
use cube.Prelude.Sort.{sort_by}
use cube.Prelude.Dict.{lookup}
use cube.Types.{Time, percent, State, QuotaCache, QuotaStatus, quota_status_eq, Window}
use cube.Normalize.{workspace_or_default}
use cube.Windows.{quota_five_hour, quota_seven_day, binding_window}
use cube.Balance.{Evaluation, evaluate_load_balance_fields}
use cube.Balance.Select.{Candidate, sort_slice, choose, the_choice}
use cube.Lease.Claim.{cache_of, nothing_available}
use cube.World.{
  M, pure, raise, ◌>>=◌, ◌>>◌, acquire_lock, load, time_now, load_round_robin, save_round_robin,
}
use cube.Profiles.Auth.{Codec}
use cube.Listing.{AccountView, Homes, list_accounts}

-- An account of the report, with what the balancer says of it.
pub record LoadBalanceAccount : Type 0 where
  pub view : AccountView
  pub workspace_id : Str
  pub evaluation : Evaluation

pub record LoadBalanceStatus : Type 0 where
  pub last_account_id : Str
  pub eligible : List LoadBalanceAccount
  pub excluded : List LoadBalanceAccount

unfoldable pub load_balance_eligibility : AccountView → QuotaCache → Time → Evaluation
load_balance_eligibility v cache now =
    evaluate_load_balance_fields (v.account).owner_mode (v.account).status v.auth_present
      v.lease_active (v.account).lease_expires_at cache now

unfoldable pub entry_of : State → Time → AccountView → LoadBalanceAccount
unfolding load_balance_eligibility
entry_of state now v = record {
  view = v;
  workspace_id = workspace_or_default (v.account).workspace_id;
  evaluation = load_balance_eligibility v (cache_of state (v.account).id) now;
}

-- The entries of the pool that are eligible, or those that are not.
unfoldable pub entries_of : Bool → Str → State → Time → List AccountView → List LoadBalanceAccount
unfolding entry_of
entries_of wanted pool state now [] = []
entries_of wanted pool state now (v ∷ vs) =
    let rest = entries_of wanted pool state now vs in
    let entry = entry_of state now v in
    if not (is_empty pool) && not (str_eq entry.workspace_id pool)
    then rest
    else if (entry.evaluation).eligible
    then (if wanted then entry ∷ rest else rest)
    else if wanted
    then rest
    else entry ∷ rest

abbrev entry_id : LoadBalanceAccount → Str
entry_id e = ((e.view).account).id

-- The entries with what their comparison reads, and back.
abbrev as_candidates : List LoadBalanceAccount → List (Candidate LoadBalanceAccount)
as_candidates [] = []
as_candidates (e ∷ es) =
    record { account = e; id = entry_id e; score = (e.evaluation).score } ∷ as_candidates es

abbrev entries : List (Candidate LoadBalanceAccount) → List LoadBalanceAccount
entries [] = []
entries (c ∷ cs) = c.account ∷ entries cs

-- Of the loop over the accounts of `SelectAccountForRun`: the eligible ones with their scores.
unfoldable pub runnable : State → Time → List AccountView → List (Candidate AccountView)
unfolding load_balance_eligibility
runnable state now [] = []
runnable state now (v ∷ vs) =
    let rest = runnable state now vs in
    let evaluation = load_balance_eligibility v (cache_of state (v.account).id) now in
    if evaluation.eligible
    then record { account = v; id = (v.account).id; score = evaluation.score } ∷ rest
    else rest

unfoldable pub run_on : List (Candidate AccountView) → M AccountView
run_on [] = raise nothing_available
run_on (x ∷ xs) = do
  last ← load_round_robin
  λ w.
      let selected = the_choice x (choose last (sort_slice w.env.long_sort (x ∷ xs))) in
      (do save_round_robin selected.id; pure selected.account) w

module _ (k : Codec) (homes : Homes) where
  unfoldable pub load_balance_status : Str → M LoadBalanceStatus
  load_balance_status workspace_id = do
    last ← load_round_robin
    views ← list_accounts k homes
    state ← load
    now ← time_now
    let pool = trim_space workspace_id
    λ w.
        pure
          (record {
            last_account_id = last;
            eligible =
                entries (
                  sort_slice w.env.long_sort
                    (as_candidates (entries_of true pool state now views)));
            excluded =
                sort_by (λ (a b : LoadBalanceAccount). str_lt (entry_id a) (entry_id b))
                  (entries_of false pool state now views);
          })
          w

  unfoldable pub select_account_for_run : M AccountView
  select_account_for_run = do
    acquire_lock
    views ← list_accounts k homes
    state ← load
    now ← time_now
    run_on (runnable state now views)

abbrev pub first_window : Option Window → Option Window → Option Window
first_window none w = w
first_window (some v) w = some v

-- `swapRemainingThreshold`
abbrev pub swap_threshold : ℕ
swap_threshold = 10 * percent

abbrev pub is_low : Option Window → Bool
is_low none = false
is_low (some w) = ltb_ℤ w.remaining_percent (pos swap_threshold)

-- A status of "" is as good as supported.
abbrev pub may_judge : QuotaStatus → Bool
may_judge (QuotaStatus.other s) = is_empty s
may_judge s = quota_status_eq s QuotaStatus.supported

unfoldable pub should_swap_cache : Option QuotaCache → Bool
unfolding quota_status_eq
should_swap_cache none = false
should_swap_cache (some cache) =
    let five = first_window cache.five_hour (quota_five_hour cache.result) in
    let window = first_window (binding_window five (quota_seven_day cache.result)) five in
    is_low window && may_judge cache.result.status

unfoldable pub should_swap_lease : Str → M Bool
should_swap_lease account_id =
    let account_id = trim_space account_id in
    if is_empty account_id
    then pure false
    else do state ← load; pure (should_swap_cache (lookup account_id state.quota_cache))
