-- ===== src/Dispatch/History.antt =====
-- internal/manager/usage.go: the usage of an account, and the trail as a client reads it.
use cube.Prelude.{
  ℕ, zero, suc, ltb, ◌==◌, not, ◌&&◌, ◌||◌, Option, none, some, List, [], ◌∷◌, if◌then◌else◌,
  find_by, Str, text, str_eq, trim_space, is_empty, is_blank, ℤ, pos, negsuc,
}
use cube.Prelude.Sort.{sort_by}
use cube.Prelude.Dict.{Dict, insert}
use cube.Types.{Time, after, Account, State, DispatchEvent, AccountUsage}
use cube.Dispatch.{max_dispatch_history, client_label_from_state}
use cube.Usage.Tally.{Summary}
use cube.Result.{failed}
use cube.World.{M, pure, ◌>>=◌, ◌>>◌, load, save, time_now, raise_if, io_step}

unfoldable pub account_usage : Str → Str → Time → Summary → AccountUsage
account_usage account_id client_id now summary = record {
  account_id = account_id;
  client_id = trim_space client_id;
  updated_at = now;
  latest_at = summary.latest_at;
  latest_model = summary.latest_model;
  today = summary.today;
  seven_days = summary.seven_days;
  all_time = summary.all_time;
  models = summary.models;
}

-- `RecordUsageWithContext`; the lease and the run go to Postgres only.
unfoldable pub record_usage : Str → Str → Summary → M (Unit {0})
record_usage account_id client_id summary = do
  let account_id = trim_space account_id
  raise_if (is_empty account_id) (failed (text "usage account id is required"))
  state ← load
  now ← time_now
  save (record state {
    usage = insert account_id (account_usage account_id client_id now summary) state.usage;
  })

unfoldable pub usage_stats : M (Dict AccountUsage)
usage_stats = do state ← load; pure state.usage

abbrev account_label_of : Option Account → Str → Str
account_label_of none label = label
account_label_of (some a) label = a.label

unfoldable pub enrich_dispatch_event : State → DispatchEvent → DispatchEvent
enrich_dispatch_event state event = record event {
  account_label =
      if is_blank event.account_label
      then account_label_of (find_by (λ (a : Account). str_eq a.id event.account_id) state.accounts)
          event.account_label
      else event.account_label;
  client_label =
      if is_blank event.client_label
      then client_label_from_state state event.client_id
      else event.client_label;
}

-- The loop: `n` more events may be taken.
unfoldable pub take_events : State → Str → ℕ → List DispatchEvent → List DispatchEvent
take_events state client_id n [] = []
take_events state client_id zero (event ∷ events) = []
take_events state client_id (suc n) (event ∷ events) =
    let skipped = take_events state client_id (suc n) events in
    let rest = take_events state client_id n events in
    if not (is_empty client_id) && not (str_eq event.client_id client_id)
    then skipped
    else enrich_dispatch_event state event ∷ rest

-- 50 for a limit out of range.
unfoldable pub history_limit : ℤ → ℕ
history_limit (pos n) = if n == 0 || ltb max_dispatch_history n then 50 else n
history_limit (negsuc n) = 50

unfoldable pub dispatch_history : ℤ → Str → M (List DispatchEvent)
dispatch_history limit client_id = do
  io_step
  state ← load
  pure (
      sort_by (λ (a b : DispatchEvent). after a.created_at b.created_at)
        (take_events state (trim_space client_id) (history_limit limit) state.dispatches))
