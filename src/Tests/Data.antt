-- ===== src/Tests/Data.antt =====
-- Files of a small pool, for the examples: one account leased to a client, one free account.
use cube.Prelude.{ℕ, suc, List, ◌+◌, ◌*◌, true, false, none, some, [], ◌∷◌, Str, text, pos}
use cube.Types.{
  Time, zero_time, minute, percent, plain, Account, AccountStatus, AccountOwnerMode, Client, User,
  Workspace, WorkspaceRole, Membership, Window, QuotaResult, QuotaStatus, QuotaCache, QuotaSource,
  State,
}
use cube.World.{Env, World}
use cube.Result.{Result, ok, err}

abbrev pub noon : Time
noon = 60_000_000_000_000_000_000

-- The indices in the order given, for the sort of more than twelve candidates.
unfoldable pub positions : ℕ → List (Str × ℕ) → List ℕ
positions i [] = []
positions i (x ∷ xs) = i ∷ positions (suc i) xs

abbrev pub quiet : Env
quiet = record {
  fails = λ i. false;
  clock = λ i. noon;
  stamp = λ i. [];
  random = λ i. text "r1";
  json_valid = λ s. true;
  pretty_json = λ s. s;
  long_sort = positions 0;
}

abbrev pub account : Str → Account
account id = record {
  id = id;
  label = id;
  plan = [];
  status = AccountStatus.ready;
  codex_home = id;
  workspace_id = text "default";
  owner_mode = AccountOwnerMode.cloud;
  owner_client_id = [];
  generation = pos 1;
  lease_id = [];
  lease_client_id = [];
  lease_holder = [];
  lease_started_at = zero_time;
  lease_heartbeat_at = zero_time;
  lease_expires_at = zero_time;
  created_at = noon;
  updated_at = noon;
  last_error = plain [];
}

abbrev pub leased : Account
leased = record (account (text "a")) {
  lease_id = text "l";
  lease_client_id = text "c";
  lease_started_at = noon;
  lease_heartbeat_at = noon;
  lease_expires_at = noon + minute;
}

abbrev pub window : Window
window = record {
  key = text "five_hour";
  label = text "5h";
  used_percent = pos (30 * percent);
  remaining_percent = pos (70 * percent);
  resets_at = text "1970-01-01T00:00:00Z";
  used_display = [];
  remaining_display = [];
  stale = false;
}

abbrev pub result : QuotaResult
result = record {
  status = QuotaStatus.supported;
  plan = [];
  account = [];
  source = [];
  detail = plain [];
  quotas = window ∷ [];
}

abbrev pub cache : QuotaCache
cache = record {
  account_id = text "b";
  updated_at = noon;
  result = result;
  five_hour = some window;
  source = QuotaSource.cloud;
  reporter_client_id = [];
}

abbrev pub client : Client
client = record {
  id = text "c";
  user_id = text "u";
  label = text "c";
  token_hash = text "h";
  created_at = noon;
  last_seen_at = noon;
  revoked_at = none;
}

abbrev pub user : User
user = record {
  id = text "u";
  username = text "u";
  password_hash = [];
  created_at = noon;
  updated_at = noon;
  last_login_at = noon;
  disabled_at = none;
}

abbrev pub workspace : Workspace
workspace = record {
  id = text "default";
  name = text "Default";
  created_by = [];
  created_at = noon;
  updated_at = noon;
}

abbrev pub member : Membership
member = record {
  workspace_id = text "default";
  user_id = text "u";
  client_id = text "c";
  role = WorkspaceRole.member;
  created_at = noon;
}

abbrev pub state : State
state = record {
  version = 1;
  accounts = leased ∷ account (text "b") ∷ [];
  clients = client ∷ [];
  users = user ∷ [];
  sessions = [];
  workspaces = workspace ∷ [];
  memberships = member ∷ [];
  workspace_migrated = true;
  user_device_migrated = true;
  usage = [];
  quota_cache = (text "b", cache) ∷ [];
  dispatches = [];
}

abbrev pub world : World
world = record {
  env = quiet;
  step = 0;
  document = state;
  round_robin = [];
  auth = λ home. some (text "{}");
}

-- The value of a call that succeeds.
abbrev pub given {ℓ} : {A : Type ℓ} → A → Result A → A
given a (ok b) = b
given a (err e) = a
