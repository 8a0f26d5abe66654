-- ===== src/Profiles/Delete.antt =====
-- `DeleteAccount` of internal/manager/accounts.go in file mode. What files are the same and which lie
-- within others (internal/manager/fsutil.go) is up to the file system.
use cube.Prelude.{
  ◌||◌, Bool, false, not, Option, none, some, List, [], ◌∷◌, if◌then◌else◌, Str, text, str_eq,
  is_blank, find_by, suc,
}
use cube.Types.{Account}
use cube.Accounts.{has_id}
use cube.Result.{Result, ok, err, failed, io, account_not_found}
use cube.World.{
  M, pure, lift, quietly, ◌>>=◌, ◌>>◌, load, save, raise_if, load_round_robin, reset_round_robin,
}

-- `same` and `within` are samePath and pathWithin; `default_home` is there unless it cannot be found.
pub record Paths : Type 0 where
  pub same : Str → Str → Bool
  pub within : Str → Str → Bool
  pub live_home : Str
  pub default_home : Option Str
  pub accounts_dir : Str

-- Without the first element that passes the test.
unfoldable pub remove_first {ℓ} : {A : Type ℓ} → (A → Bool) → List A → List A
remove_first p [] = []
remove_first p (x ∷ xs) = if p x then xs else x ∷ remove_first p xs

abbrev pub or_missing : Option Account → Str → Result Account
or_missing none id = err (account_not_found id)
or_missing (some account) id = ok account

module _ (paths : Paths) where
  abbrev pub is_default : Str → Option Str → Bool
  is_default home none = false
  is_default home (some default) = paths.same home default

  unfoldable pub validate_managed_codex_home : Str → M (Unit {0})
  validate_managed_codex_home home = do
    raise_if (is_blank home) (failed (text "account codex home cannot be empty"))
    raise_if (paths.same home paths.live_home) (failed (text "refusing to delete live CodexHome"))
    raise_if (is_default home paths.default_home)
        (failed (text "refusing to delete live CodexHome"))
    raise_if (not (paths.within home paths.accounts_dir))
        (failed (text "refusing to delete unmanaged CodexHome"))

  -- `os.RemoveAll`: when it fails the files are taken to be there still.
  unfoldable pub remove_all : Str → M (Unit {0})
  remove_all home w = if w.env.fails w.step then (err io, record w { step = suc w.step }) else (
    ok tt,
    record w {
      step = suc w.step;
      auth = λ h. if str_eq h home || paths.within h home then none else w.auth h;
    },
  )

  -- `_ = m.ResetRoundRobin()` when the round robin stands at the account.
  unfoldable pub forget_round_robin : Str → M (Unit {0})
  forget_round_robin id = do
    last ← load_round_robin
    if str_eq last id then reset_round_robin else pure tt

  unfoldable pub delete_account : Str → M Account
  delete_account id = do
    state ← load
    account ← lift (or_missing (find_by (has_id id) state.accounts) id)
    validate_managed_codex_home account.codex_home
    remove_all account.codex_home
    save (record state { accounts = remove_first (has_id id) state.accounts })
    quietly (forget_round_robin id)
    pure account
