-- ===== src/Balance/Eligibility.antt =====
-- When `evaluateLoadBalanceFields` finds an account eligible, in both directions.
use cube.Prelude.{
  ◌<◌, ◌≡◌, refl, ◌↔◌, ◌⊎◌, Bool, true, false, Option, none, some, [], arith, pos, ◌<ℤ◌,
}
use cube.Types.{
  Time, is_zero, Window, QuotaStatus, quota_status_eq, AccountStatus, status_eq, AccountOwnerMode,
  owner_eq, QuotaCache,
}
use cube.Rfc3339.{parse_rfc3339}
use cube.Windows.{quota_seven_day}
use cube.Balance.{
  min_five_hour_remaining, Reason, Evaluation, load_balance_quota_evaluation, seven_day_reason,
  five_hour_reason, exclusion_reason, evaluate_load_balance_fields,
}

-- A 7d window that does not stand in the way: it has more than 5 percent, and its reset is unknown or
-- ahead.
abbrev pub SevenDayOpen : Option Window → Time → Type 0
SevenDayOpen none now = Unit {0}
SevenDayOpen (some w) now =
    ((is_zero (parse_rfc3339 w.resets_at) ≡ true) ⊎ (now < parse_rfc3339 w.resets_at))
    × (pos min_five_hour_remaining <ℤ w.remaining_percent)

-- A 5h window that is known, with a reset ahead and more than 5 percent.
abbrev pub FiveHourOpen : Option Window → Time → Type 0
FiveHourOpen none now = ⊥
FiveHourOpen (some w) now =
    (is_zero (parse_rfc3339 w.resets_at) ≡ false)
    × (now < parse_rfc3339 w.resets_at)
    × (pos min_five_hour_remaining <ℤ w.remaining_percent)

seven_day_iff :
    (w : Option Window) (now : Time)
    → (seven_day_reason w now ≡ Reason.eligible) ↔ SevenDayOpen w now
unfolding seven_day_reason
seven_day_iff none now = (λ h. tt, λ h. refl)
seven_day_iff (some w) now = (λ h. ground arith, λ h. ground arith)

five_hour_iff :
    (w v : Option Window) (now : Time)
    → (five_hour_reason w v now ≡ Reason.eligible) ↔ (FiveHourOpen w now × SevenDayOpen v now)
unfolding five_hour_reason
five_hour_iff none v now = (λ h. cc, λ h. absurd h.0)
five_hour_iff (some w) v now = (
  λ h. ((ground arith, ground arith, ground arith), (seven_day_iff v now).0 (ground arith)),
  λ h. ground (arith, (seven_day_iff v now).1 h.1),
)

-- An account that may be dispatched: in the cloud's hands, ready, with auth.json, not leased, with a
-- supported quota whose windows are open.
pub record MayRun (owner_mode : AccountOwnerMode) (status : AccountStatus)
    (auth_present lease_active : Bool) (cache : QuotaCache) (now : Time) : Type 0 where
  pub owned : owner_mode ≡ AccountOwnerMode.cloud
  pub is_ready : status ≡ AccountStatus.ready
  pub has_auth : auth_present ≡ true
  pub free : lease_active ≡ false
  pub known : cache.result.status ≡ QuotaStatus.supported
  pub five_hour : FiveHourOpen cache.five_hour now
  pub seven_day : SevenDayOpen (quota_seven_day cache.result) now

owner_eq_cloud :
    (m : AccountOwnerMode) → owner_eq m AccountOwnerMode.cloud ≡ true → m ≡ AccountOwnerMode.cloud
unfolding owner_eq
owner_eq_cloud AccountOwnerMode.cloud h = refl
owner_eq_cloud AccountOwnerMode.client h = cc
owner_eq_cloud (AccountOwnerMode.other s) h = cc

status_eq_ready :
    (s : AccountStatus) → status_eq s AccountStatus.ready ≡ true → s ≡ AccountStatus.ready
unfolding status_eq
status_eq_ready AccountStatus.ready h = refl
status_eq_ready AccountStatus.recovering h = cc
status_eq_ready AccountStatus.drain h = cc
status_eq_ready AccountStatus.disabled h = cc
status_eq_ready (AccountStatus.other s) h = cc

quota_status_eq_supported :
    (s : QuotaStatus) → quota_status_eq s QuotaStatus.supported ≡ true → s ≡ QuotaStatus.supported
unfolding quota_status_eq
quota_status_eq_supported QuotaStatus.supported h = refl
quota_status_eq_supported QuotaStatus.unsupported h = cc
quota_status_eq_supported QuotaStatus.not_configured h = cc
quota_status_eq_supported QuotaStatus.refresh_invalid h = cc
quota_status_eq_supported QuotaStatus.error h = cc
quota_status_eq_supported (QuotaStatus.other s) h = cc

supported_tests :
    (s : QuotaStatus)
    → s ≡ QuotaStatus.supported
    → (quota_status_eq s (QuotaStatus.other []) ≡ false)
      × (quota_status_eq s QuotaStatus.supported ≡ true)
unfolding quota_status_eq
supported_tests s e = rw e (refl, refl)

module _ (owner_mode : AccountOwnerMode) (status : AccountStatus) (auth_present lease_active : Bool)
    (expires_at : Time) (cache : QuotaCache) (now : Time) where
  abbrev reason : Reason
  reason = exclusion_reason owner_mode status auth_present lease_active expires_at cache now

  reason-MayRun :
      reason ≡ Reason.eligible → MayRun owner_mode status auth_present lease_active cache now
  unfolding exclusion_reason
  reason-MayRun h =
      let windows =
        (five_hour_iff cache.five_hour (quota_seven_day cache.result) now).0 (ground arith) in
      record {
        owned = owner_eq_cloud owner_mode (ground arith);
        is_ready = status_eq_ready status (ground arith);
        has_auth = ground arith;
        free = ground arith;
        known = quota_status_eq_supported cache.result.status (ground arith);
        five_hour = windows.0;
        seven_day = windows.1;
      }

  MayRun-reason :
      MayRun owner_mode status auth_present lease_active cache now → reason ≡ Reason.eligible
  unfolding exclusion_reason owner_eq status_eq
  MayRun-reason m =
      let open_windows =
        (five_hour_iff cache.five_hour (quota_seven_day cache.result) now).1
          (m.five_hour, m.seven_day) in
      let known = supported_tests cache.result.status m.known in
      rw m.owned (rw m.is_ready (rw m.has_auth (rw m.free (ground (arith, open_windows, known)))))

  not_yet_eligible : (load_balance_quota_evaluation cache now).eligible ≡ false
  unfolding load_balance_quota_evaluation
  not_yet_eligible = ground arith

  abbrev evaluation : Evaluation
  evaluation =
      evaluate_load_balance_fields owner_mode status auth_present lease_active expires_at cache now

  -- The balancer finds an account eligible exactly when it may run.
  pub evaluate_load_balance_fields_iff :
      (evaluation.eligible ≡ true) ↔ MayRun owner_mode status auth_present lease_active cache now
  unfolding evaluate_load_balance_fields
  evaluate_load_balance_fields_iff =
      (λ h. reason-MayRun (ground (arith, not_yet_eligible)), λ m. rw (MayRun-reason m))
