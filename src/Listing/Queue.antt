-- ===== src/Listing/Queue.antt =====
-- `RefreshQueue` of internal/manager/usage.go: the accounts in the order in which their quota is reset.
use cube.Prelude.{
  ◌&&◌, not, Bool, true, false, Option, none, some, List, [], map, if◌then◌else◌, ltb, Str, text,
  str_lt, is_empty, ℤ, pos,
}
use cube.Prelude.Sort.{sort_by}
use cube.Types.{
  Time, is_zero, Window, QuotaCache, QuotaStatus, QuotaSource, AccountOwnerMode, owner_eq,
}
use cube.Rfc3339.{parse_rfc3339}
use cube.Windows.{quota_seven_day, binding}
use cube.Lease.Claim.{cache_of}
use cube.World.{M, pure, ◌>>=◌, load}
use cube.Profiles.Auth.{Codec}
use cube.Listing.{AccountView, Homes, list_accounts}

-- What the item shows of a window; all empty where there is none.
pub record Shown : Type 0 where
  pub resets_at : Str
  pub remaining_display : Str
  pub remaining_percent : ℤ
  pub used_percent : ℤ

unfoldable pub shown : Option Window → Shown
shown none = record {
  resets_at = [];
  remaining_display = [];
  remaining_percent = pos 0;
  used_percent = pos 0;
}
shown (some w) = record {
  resets_at = w.resets_at;
  remaining_display = w.remaining_display;
  remaining_percent = w.remaining_percent;
  used_percent = w.used_percent;
}

-- `view` has the fields that come from the account.
pub record RefreshQueueItem : Type 0 where
  pub view : AccountView
  pub updated_at : Time
  pub quota_status : QuotaStatus
  pub quota_source : QuotaSource
  pub quota_reporter_client_id : Str
  pub five_hour : Shown
  pub seven_day : Shown
  pub bound_by : Shown
  pub binding_window : Str
  pub refresh_order_reason : Str

abbrev window_in : Option (Window × Bool) → Option Window
window_in none = none
window_in (some (w, seven)) = some w

abbrev window_name : Option (Window × Bool) → Str
window_name none = []
window_name (some (w, seven)) = if seven then text "7d" else text "5h"

abbrev is_unset : QuotaStatus → Bool
is_unset (QuotaStatus.other s) = is_empty s
is_unset _ = false

abbrev reset_reason : Option Window → Str
reset_reason none = text "quota not checked"
reset_reason (some w) = if is_empty w.resets_at then text "reset unknown" else text "5h reset order"

unfoldable pub refresh_order_reason : AccountView → QuotaCache → Str
refresh_order_reason v cache =
    if not v.auth_present
    then text "auth missing"
    else if owner_eq (v.account).owner_mode AccountOwnerMode.client
    then (if is_unset cache.result.status
        then text "waiting for client report"
        else text "client reported")
    else if v.lease_active
    then text "leased"
    else reset_reason cache.five_hour

unfoldable pub queue_item : QuotaCache → AccountView → RefreshQueueItem
unfolding shown refresh_order_reason
queue_item cache v =
    let seven = quota_seven_day cache.result in
    let bound = binding cache.five_hour seven in
    record {
      view = v;
      updated_at = cache.updated_at;
      quota_status = cache.result.status;
      quota_source = cache.source;
      quota_reporter_client_id = cache.reporter_client_id;
      five_hour = shown cache.five_hour;
      seven_day = shown seven;
      bound_by = shown (window_in bound);
      binding_window = window_name bound;
      refresh_order_reason = refresh_order_reason v cache;
    }

-- Those with a reset come first, the earlier reset before the later; the others by id.
unfoldable pub sooner : RefreshQueueItem → RefreshQueueItem → Bool
sooner a b =
    let s = parse_rfc3339 (a.bound_by).resets_at in
    let t = parse_rfc3339 (b.bound_by).resets_at in
    if not (is_zero s) && not (is_zero t)
    then ltb s t
    else if not (is_zero s)
    then true
    else if not (is_zero t)
    then false
    else str_lt ((a.view).account).id ((b.view).account).id

unfoldable pub refresh_queue : Codec → Homes → M (List RefreshQueueItem)
refresh_queue k homes = do
  views ← list_accounts k homes
  state ← load
  pure (
      sort_by sooner
        (map (λ (v : AccountView). queue_item (cache_of state (v.account).id) v) views))
