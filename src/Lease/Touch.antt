-- ===== src/Lease/Touch.antt =====
-- `TouchLease` of internal/manager/lease.go.
use cube.Prelude.{ℕ, ◌+◌, ◌≡◌, ap, [], ◌∷◌, some, Str, trim_space, get_elem?, set}
use cube.Types.{Time, Account, Lease}
use cube.Result.{ok}
use cube.World.{World, M, pure, ◌>>=◌, ◌>>◌, acquire_lock, load, time_now, save, or_save}
use cube.World.Steps.{after_lock, after_load, after_time, after_save, after_or_save, after_pure}
use cube.Lease.Lookup.{
  swept_at, now_at, Holds, Lasts, normalize_lease_ttl-Lasts, find_lease_account-ok,
  validate_lease-ok,
}
use cube.Lease.{
  first_non_empty, lease_from_account, normalize_lease_ttl, find_lease_account, validate_lease,
  put_account, swept_state,
}

-- What a touch makes of the account.
unfoldable pub touched : Str → ℕ → Time → Account → Account
touched holder ttl now account = record account {
  lease_holder = first_non_empty (trim_space holder ∷ account.lease_holder ∷ []);
  lease_heartbeat_at = now;
  lease_expires_at = now + normalize_lease_ttl ttl;
  updated_at = now;
}

unfoldable pub touch_lease : Str → Str → Str → Str → ℕ → M Lease
touch_lease lease_id account_id client_id holder ttl = do
  acquire_lock
  loaded ← load
  now ← time_now
  let state = swept_state loaded now
  found ← or_save state (find_lease_account state account_id lease_id)
  or_save state (validate_lease found.1 lease_id client_id now)
  let account = touched holder ttl now found.1
  save (put_account state found.0 account)
  pure (lease_from_account account)

-- What a successful touch has done; the account's new fields are written out in `document`.
pub record Touches (lid aid cid holder : Str) (ttl : ℕ) (w : World) (lease : Lease) (w' : World)
    : Type 0 where
  pub index : ℕ
  pub account : Account
  pub found : get_elem? (swept_at w).accounts index ≡ some account
  pub held : Holds lid cid (now_at w) account
  pub lasts : ℕ
  pub period : Lasts ttl lasts
  pub document : w'.document ≡ record (swept_at w) {
    version = 1;
    accounts = set (swept_at w).accounts index (record account {
      lease_holder = first_non_empty (trim_space holder ∷ account.lease_holder ∷ []);
      lease_heartbeat_at = now_at w;
      lease_expires_at = now_at w + lasts;
      updated_at = now_at w;
    });
  }
  pub reply : lease ≡ record {
    id = account.lease_id;
    account_id = account.id;
    client_id = account.lease_client_id;
    holder = first_non_empty (trim_space holder ∷ account.lease_holder ∷ []);
    generation = account.generation;
    started_at = account.lease_started_at;
    heartbeat_at = now_at w;
    expires_at = now_at w + lasts;
  }
  pub stored :
      w'.document.accounts ≡ set (swept_at w).accounts index (touched holder ttl (now_at w) account)

-- When `TouchLease` succeeds: in the loaded and swept state the account that it found is held by the
-- caller under the lease, whose time has not run out. The new document is that state, at version 1, with
-- this account alone changed: its heartbeat and its change are now, its expiry is now plus the time asked
-- for if that is from 30 seconds to 30 minutes, else plus 90 seconds or 30 minutes, and its holder is the
-- trimmed one unless that is blank; the reply is its lease.
pub touch_lease-ok :
    (lid aid cid holder : Str) (ttl : ℕ) (w : World) {lease : Lease} {w' : World}
    → touch_lease lid aid cid holder ttl w ≡ (ok lease, w')
    → Touches lid aid cid holder ttl w lease w'
unfolding touch_lease put_account
touch_lease-ok lid aid cid holder ttl w {lease} {w'} h =
    let st = swept_at w in
    let now = now_at w in
    let (found, e, h₁) =
      after_or_save _ st (find_lease_account st aid lid) _
        (after_time _ _ (after_load _ _ (after_lock w _ h))) in
    let (_, v, h₂) = after_or_save _ st (validate_lease found.1 lid cid now) _ h₁ in
    let account = touched holder ttl now found.1 in
    let h₃ = after_save _ (put_account st found.0 account) _ h₂ in
    let (r, s) = after_pure (lease_from_account account) _ h₃ in
    record {
      index = found.0;
      account = found.1;
      found = (find_lease_account-ok st aid lid e).0;
      held = validate_lease-ok found.1 lid cid now v;
      lasts = normalize_lease_ttl ttl;
      period = normalize_lease_ttl-Lasts ttl;
      document = unfold touched in ap (λ (v : World). v.document) s;
      reply = unfold touched lease_from_account in r;
      stored = ap (λ (v : World). v.document.accounts) s;
    }
