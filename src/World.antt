-- ===== src/World.antt =====
-- What a manager in file mode works on (internal/manager/manager.go, fsutil.go, roundrobin.go): the
-- document in state.json, the round-robin file and the auth.json files, behind calls that may fail.
-- Each call is one step; `env` says for each step whether it fails and what it reads. A lock that
-- cannot be had is a failed step; while it is held no other process changes the files.
pub mod Steps
use cube.Prelude.{
  ℕ, suc, Bool, true, false, Option, none, some, List, [], ◌≡◌, if◌then◌else◌, Str, str_eq,
}
use cube.Types.{Time, State}
use cube.Normalize.{normalize_state}
use cube.Result.{Error, Result, ok, err, io}

-- `stamp` is the local time of the step in the form 20060102-150405, `random` the text that a random
-- id made at the step has. `json_valid` and `pretty_json` are json.Valid and the indented form.
-- `long_sort` gives, for the ids and scores of more than twelve candidates, their indices in the order
-- in which sort.Slice leaves them; what is shown holds for whatever it gives.
pub record Env : Type 0 where
  pub fails : ℕ → Bool
  pub clock : ℕ → Time
  pub stamp : ℕ → Str
  pub random : ℕ → Str
  pub json_valid : Str → Bool
  pub pretty_json : Str → Str
  pub long_sort : List (Str × ℕ) → List ℕ

-- `round_robin` is the last account's id, "" without a file. `auth` gives the text of auth.json in a
-- directory, if it is there.
pub record World : Type 0 where
  pub env : Env
  pub step : ℕ
  pub document : State
  pub round_robin : Str
  pub auth : Str → Option Str

abbrev pub M {ℓ} : Type ℓ → Type ℓ
M A = World → Result A × World

abbrev pub pure {ℓ} : {A : Type ℓ} → A → M A
pure a w = (ok a, w)

abbrev pub lift {ℓ} : {A : Type ℓ} → Result A → M A
lift r w = (r, w)

abbrev pub raise {ℓ} : {A : Type ℓ} → Error → M A
raise e w = (err e, w)

abbrev pub continue {ℓ κ} : {A : Type ℓ} {B : Type κ} → (A → M B) → Result A → M B
continue f (ok a) w = f a w
continue f (err e) w = (err e, w)

infixl 5 ◌>>=◌ ◌>>◌
abbrev pub ◌>>=◌ {ℓ κ} : {A : Type ℓ} {B : Type κ} → M A → (A → M B) → M B
◌>>=◌ m f w = continue f (m w).0 (m w).1

abbrev pub ◌>>◌ {ℓ} : {B : Type ℓ} → M (Unit {0}) → M B → M B
m >> k = m >>= λ _. k

abbrev pub tick : World → World
tick w = record w { step = suc w.step }

-- A call that reads or writes nothing of the model: taking the lock, making a directory.
unfoldable pub io_step : M (Unit {0})
io_step w = (if w.env.fails w.step then err io else ok tt, tick w)

-- `time.Now()`
unfoldable pub time_now : M Time
time_now w = (ok (w.env.clock w.step), tick w)

unfoldable pub time_stamp : M Str
time_stamp w = (ok (w.env.stamp w.step), tick w)

-- `generateLeaseID`, `generatePAT` and the like, without their prefix.
unfoldable pub random_text : M Str
random_text w = (if w.env.fails w.step then err io else ok (w.env.random w.step), tick w)

-- `m.acquireLock` in file mode.
unfoldable pub acquire_lock : M (Unit {0})
unfolding io_step
acquire_lock = io_step

-- `m.Load()`: what is on disk, normalized.
unfoldable pub load : M State
load w = (
  if w.env.fails w.step
      then err io
      else ok (normalize_state (w.env.clock w.step) (w.env.stamp w.step) w.document),
  tick w,
)

-- `m.Save(state)`: all of the document is replaced, by a rename, or nothing is.
unfoldable pub save : State → M (Unit {0})
save state w =
    if w.env.fails w.step
    then (err io, tick w)
    else (ok tt, record w { step = suc w.step; document = record state { version = 1 } })

unfoldable pub load_round_robin : M Str
load_round_robin w = (if w.env.fails w.step then err io else ok w.round_robin, tick w)

unfoldable pub save_round_robin : Str → M (Unit {0})
save_round_robin id w =
    if w.env.fails w.step
    then (err io, tick w)
    else (ok tt, record w { step = suc w.step; round_robin = id })

-- `ResetRoundRobin`: a file that is not there is no error.
unfoldable pub reset_round_robin : M (Unit {0})
unfolding save_round_robin
reset_round_robin = save_round_robin []

-- Read and write an auth.json.
unfoldable pub read_auth : Str → M (Option Str)
read_auth home w = (if w.env.fails w.step then err io else ok (w.auth home), tick w)

unfoldable pub write_auth : Str → Str → M (Unit {0})
write_auth home content w = if w.env.fails w.step then (err io, tick w) else (
  ok tt,
  record w { step = suc w.step; auth = λ h. if str_eq h home then some content else w.auth h },
)

-- `_ = f()`: the error is dropped, what was done stays done.
abbrev pub quietly {ℓ} : {A : Type ℓ} → M A → M (Unit {0})
quietly m w = (ok tt, (m w).1)

-- `if err != nil { _ = m.Save(state); return err }`
unfoldable pub or_save {ℓ} : {A : Type ℓ} → State → Result A → M A
unfolding save
or_save state (ok a) = pure a
or_save state (err e) = do quietly (save state); raise e

-- `if b { return e }`
unfoldable pub raise_if : Bool → Error → M (Unit {0})
raise_if b e w = (if b then err e else ok tt, w)

-- `writeProfileFiles`: make the directory, then write its auth.json, indented.
unfoldable pub write_profile_files : Str → Str → M (Unit {0})
write_profile_files home auth = do io_step; λ w. write_auth home (w.env.pretty_json auth) w

-- `if !json.Valid(auth) { return e }`
unfoldable pub require_json : Str → Error → M (Unit {0})
require_json auth e w = (if w.env.json_valid auth then ok tt else err e, w)
