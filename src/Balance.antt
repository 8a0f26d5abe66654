-- ===== src/Balance.antt =====
-- internal/manager/loadbalance.go: which accounts may be dispatched, and how good each is. Scores
-- and percentages are exact integers in the unit of cube.Types (one 216,000,000,000th of a percent),
-- where the source rounds float64 values.
pub mod Score
pub mod Eligibility
pub mod Select
use cube.Prelude.{
  ℕ, suc, ◌+◌, ◌-◌, ◌*◌, ◌==◌, ltb, leb, Bool, true, false, not, ◌&&◌, ◌||◌, Option, none, some,
  List, [], ◌∷◌, if◌then◌else◌, Str, text, ℤ, pos, negsuc, ltb_ℤ, leb_ℤ,
}
use cube.Types.{
  Time, zero_time, is_zero, after, minute, percent, QuotaStatus, quota_status_eq, Window,
  QuotaResult, AccountStatus, status_eq, AccountOwnerMode, owner_eq, Account, QuotaCache,
}
use cube.Rfc3339.{parse_rfc3339}
use cube.Windows.{quota_seven_day, binding, binding_window}
use cube.Lease.{account_lease_active}

abbrev pub min_five_hour_remaining : ℕ
min_five_hour_remaining = 5 * percent

abbrev pub near_reset_window : ℕ
near_reset_window = 90 * minute

abbrev pub near_reset_bonus : ℕ
near_reset_bonus = 25 * percent

-- 0.01 percent.
abbrev pub score_epsilon : ℕ
score_epsilon = 2_160_000_000

unfoldable pub clamp_percent : ℤ → ℕ
clamp_percent (negsuc n) = 0
clamp_percent (pos n) = if ltb (100 * percent) n then 100 * percent else n

-- `1 - until/window` of the bonus: 25 percent are as many units as 90 minutes are nanoseconds.
unfoldable pub near_reset_pressure : ℕ → ℕ
near_reset_pressure until = near_reset_bonus - until

-- A reset that is not ahead gives a difference of 0 here, and in the source one that is `<= 0`.
unfoldable pub load_balance_quota_score : Window → Time → ℕ
unfolding clamp_percent near_reset_pressure
load_balance_quota_score window now =
    let remaining = clamp_percent window.remaining_percent in
    let reset_at = parse_rfc3339 window.resets_at in
    let until_reset = reset_at - now in
    if leb remaining min_five_hour_remaining
    then 0
    else if is_zero reset_at
    then remaining
    else if until_reset == 0
    then remaining
    else if ltb until_reset near_reset_window
    then remaining + near_reset_pressure until_reset
    else remaining

unfoldable pub same_load_balance_score : ℕ → ℕ → Bool
same_load_balance_score a b = leb b (a + score_epsilon) && leb a (b + score_epsilon)

-- The reasons for an exclusion, with what their texts show.
pub data Reason : Type 0 where
  eligible : Reason
  owner_is : AccountOwnerMode → Reason
  status_is : AccountStatus → Reason
  auth_missing : Reason
  leased_until : Time → Reason
  quota_not_checked : Reason
  quota_is : QuotaStatus → Reason
  five_hour_missing : Reason
  five_hour_reset_unknown : Reason
  five_hour_reset_passed : Reason
  five_hour_exhausted : Time → Reason
  seven_day_reset_passed : Reason
  seven_day_exhausted : Reason
  seven_day_exhausted_until : Time → Reason

pub record Evaluation : Type 0 where
  pub eligible : Bool
  pub reason : Reason
  pub quota_status : QuotaStatus
  pub remaining_display : Str
  pub remaining_percent : ℕ
  pub used_percent : ℕ
  pub resets_at : Str
  pub updated_at : Time
  pub score : ℕ
  pub seven_day_remaining_display : Str
  pub seven_day_remaining_percent : ℕ
  pub seven_day_used_percent : ℕ
  pub seven_day_resets_at : Str
  pub binding_window : Str

with_seven_day : Option Window → Evaluation → Evaluation
unfolding clamp_percent
with_seven_day none e = e
with_seven_day (some w) e = record e {
  seven_day_remaining_display = w.remaining_display;
  seven_day_remaining_percent = clamp_percent w.remaining_percent;
  seven_day_used_percent = clamp_percent w.used_percent;
  seven_day_resets_at = w.resets_at;
}

with_binding : Option (Window × Bool) → Evaluation → Evaluation
unfolding clamp_percent
with_binding none e = e
with_binding (some (w, seven)) e = record e {
  remaining_display = w.remaining_display;
  remaining_percent = clamp_percent w.remaining_percent;
  used_percent = clamp_percent w.used_percent;
  resets_at = w.resets_at;
  binding_window = if seven then text "7d" else text "5h";
}

-- The zero value has the empty reason, which an eligible account keeps.
unfoldable pub load_balance_quota_evaluation : QuotaCache → Time → Evaluation
unfolding with_seven_day with_binding
load_balance_quota_evaluation cache now =
    let seven_day = quota_seven_day cache.result in
    with_binding (binding cache.five_hour seven_day) (
      with_seven_day seven_day (record {
        eligible = false;
        reason = Reason.eligible;
        quota_status = cache.result.status;
        remaining_display = [];
        remaining_percent = 0;
        used_percent = 0;
        resets_at = [];
        updated_at = cache.updated_at;
        score = 0;
        seven_day_remaining_display = [];
        seven_day_remaining_percent = 0;
        seven_day_used_percent = 0;
        seven_day_resets_at = [];
        binding_window = [];
      }))

-- The tests on the 7d window: a missing window is no constraint.
unfoldable pub seven_day_reason : Option Window → Time → Reason
seven_day_reason none now = eligible
seven_day_reason (some w) now =
    let reset = parse_rfc3339 w.resets_at in
    if not (is_zero reset) && not (after reset now)
    then seven_day_reset_passed
    else if leb_ℤ w.remaining_percent (pos min_five_hour_remaining)
    then (if is_zero reset then seven_day_exhausted else seven_day_exhausted_until reset)
    else eligible

unfoldable pub five_hour_reason : Option Window → Option Window → Time → Reason
five_hour_reason none seven now = five_hour_missing
five_hour_reason (some w) seven now =
    let reset = parse_rfc3339 w.resets_at in
    if is_zero reset
    then five_hour_reset_unknown
    else if not (after reset now)
    then five_hour_reset_passed
    else if leb_ℤ w.remaining_percent (pos min_five_hour_remaining)
    then five_hour_exhausted reset
    else seven_day_reason seven now

-- The chain of early returns, as the first reason that applies.
unfoldable pub exclusion_reason :
    AccountOwnerMode → AccountStatus → Bool → Bool → Time → QuotaCache → Time → Reason
exclusion_reason owner_mode status auth_present lease_active lease_expires_at cache now =
    if not (owner_eq owner_mode AccountOwnerMode.cloud)
    then owner_is owner_mode
    else if not (status_eq status AccountStatus.ready)
    then status_is status
    else if not auth_present
    then auth_missing
    else if lease_active
    then leased_until lease_expires_at
    else if quota_status_eq cache.result.status (QuotaStatus.other [])
    then quota_not_checked
    else if not (quota_status_eq cache.result.status QuotaStatus.supported)
    then quota_is cache.result.status
    else five_hour_reason cache.five_hour (quota_seven_day cache.result) now

abbrev score_of : Option Window → Time → ℕ
score_of none now = 0
score_of (some w) now = load_balance_quota_score w now

abbrev conclude : Evaluation → Reason → ℕ → Evaluation
conclude e Reason.eligible score = record e {
  eligible = true;
  reason = Reason.eligible;
  score = score;
}
conclude e r score = record e { reason = r }

unfoldable pub evaluate_load_balance_fields :
    AccountOwnerMode → AccountStatus → Bool → Bool → Time → QuotaCache → Time → Evaluation
evaluate_load_balance_fields owner_mode status auth_present lease_active lease_expires_at cache
      now =
    conclude (load_balance_quota_evaluation cache now)
      (exclusion_reason owner_mode status auth_present lease_active lease_expires_at cache now)
      (score_of (binding_window cache.five_hour (quota_seven_day cache.result)) now)

unfoldable pub load_balance_eligibility_for_account :
    Account → Bool → QuotaCache → Time → Evaluation
load_balance_eligibility_for_account account auth_present cache now =
    evaluate_load_balance_fields account.owner_mode account.status auth_present
      (account_lease_active account now) account.lease_expires_at cache now
