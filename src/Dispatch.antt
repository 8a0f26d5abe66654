-- ===== src/Dispatch.antt =====
-- internal/manager/usage.go: the audit trail of dispatches, newest first.
pub mod Trail
pub mod History
use cube.Prelude.{
  ℕ, ◌+◌, ◌-◌, Bool, true, false, Option, none, some, List, [], ◌∷◌, ◌++◌, leb, if◌then◌else◌,
  find_by, Str, text, str_eq, trim_space, is_empty, is_blank,
}
use cube.Prelude.Decimal.{decimal}
use cube.Types.{Time, Account, Client, User, State, DispatchEvent}

abbrev pub max_dispatch_history : ℕ
max_dispatch_history = 200

-- 1 January 1970.
abbrev unix_epoch : Time
unix_epoch = 62_167_392_000_000_000_000

-- `fmt.Sprintf("%d", t.UnixNano())`
unfoldable pub unix_nano : Time → Str
unfolding decimal
unix_nano t = if leb unix_epoch t then decimal (t - unix_epoch) else b'-' ∷ decimal (unix_epoch - t)

unfoldable pub dispatch_event_id : Account → Str → Time → Str
dispatch_event_id account event now =
    let lease_id = trim_space account.lease_id in
    if is_empty lease_id
    then trim_space account.id ++ text ":" ++ event ++ text ":" ++ unix_nano now
    else lease_id ++ text ":" ++ event

abbrev label_of : Option Client → Str
label_of none = []
label_of (some c) = c.label

abbrev user_of : Option Client → Str
user_of none = []
user_of (some c) = c.user_id

abbrev name_of : Option User → Str
name_of none = []
name_of (some u) = u.username

unfoldable pub client_label_from_state : State → Str → Str
unfolding find_by
client_label_from_state state client_id =
    let client_id = trim_space client_id in
    if is_empty client_id then [] else label_of (find_by (λ c. str_eq c.id client_id) state.clients)

unfoldable pub dispatch_event_from_account : State → Account → Str → Time → DispatchEvent
dispatch_event_from_account state account event now =
    let device_id = account.lease_client_id in
    let device = find_by (λ c. str_eq c.id device_id) state.clients in
    let user_id = user_of device in
    record {
      id = dispatch_event_id account event now;
      lease_id = account.lease_id;
      account_id = account.id;
      account_label = account.label;
      client_id = account.lease_client_id;
      client_label = client_label_from_state state account.lease_client_id;
      user_id = user_id;
      username =
          if is_empty user_id then [] else name_of (find_by (λ u. str_eq u.id user_id) state.users);
      device_id = device_id;
      device_label = label_of device;
      holder = account.lease_holder;
      event = event;
      generation = account.generation;
      created_at = now;
      started_at = account.lease_started_at;
      expires_at = account.lease_expires_at;
    }

-- The loop of `appendDispatchEvent`: `n` events are in `next`. Events with the id are skipped.
unfoldable pub copy_events : ℕ → Str → List DispatchEvent → List DispatchEvent
copy_events n id [] = []
copy_events n id (existing ∷ events) =
    let skipped = copy_events n id events in
    let rest = copy_events (n + 1) id events in
    if str_eq existing.id id
    then skipped
    else existing ∷ (if leb max_dispatch_history (n + 1) then [] else rest)

unfoldable pub append_dispatch_event : List DispatchEvent → DispatchEvent → List DispatchEvent
append_dispatch_event events event =
    if is_blank event.id then events else event ∷ copy_events 1 event.id events
