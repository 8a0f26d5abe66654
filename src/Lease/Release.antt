-- ===== src/Lease/Release.antt =====
-- `ReleaseLease` of internal/manager/lease.go.
use cube.Prelude.{ℕ, ◌≡◌, refl, ap, true, some, arith, Str, text, trim_space, get_elem?, set, []}
use cube.Types.{Time, zero_time, Account, State, DispatchEvent}
use cube.Dispatch.{dispatch_event_from_account, append_dispatch_event}
use cube.Result.{Result, ok, err, lease_not_found}
use cube.World.{World, M, pure, raise, lift, ◌>>=◌, ◌>>◌, acquire_lock, load, time_now, save}
use cube.World.Steps.{after_lock, after_load, after_time, after_lift, last_save}
use cube.Lease.Lookup.{swept_at, now_at, Holds, find_lease_account-ok, validate_lease-ok}
use cube.Lease.{
  clear_account_lease, lease_matches, find_lease_account, validate_lease, put_account, swept_state,
}

-- An error of the save goes before ErrLeaseNotFound.
unfoldable pub or_not_found {ℓ} : {A : Type ℓ} → State → Result A → M A
or_not_found state (ok a) = pure a
or_not_found state (err e) = do save state; raise (lease_not_found e)

unfoldable pub released : Time → Account → Account
unfolding clear_account_lease
released now account = record (clear_account_lease account) { updated_at = now }

unfoldable pub released_state : State → Time → ℕ → Account → State
released_state state now index account =
    let event = dispatch_event_from_account state account (text "released") now in
    put_account (record state { dispatches = append_dispatch_event state.dispatches event }) index
      (released now account)

unfoldable pub release_lease : Str → Str → Str → M (Unit {0})
release_lease account_id lease_id client_id = do
  acquire_lock
  loaded ← load
  now ← time_now
  let state = swept_state loaded now
  found ← or_not_found state (find_lease_account state account_id lease_id)
  lift (validate_lease found.1 lease_id client_id now)
  save (released_state state now found.0 found.1)

after_or_not_found {ℓ} :
    {A : Type ℓ} (w : World) {u : Unit {0}} {w' : World} (state : State) (r : Result A)
    (f : A → M (Unit {0}))
    → (or_not_found state r >>= f) w ≡ (ok u, w')
    → (a : A) × (r ≡ ok a) × (f a w ≡ (ok u, w'))
unfolding or_not_found save
after_or_not_found w state (ok a) f h = (a, refl, h)
after_or_not_found w state (err e) f h = ground arith

released-parts :
    (state : State) (now : Time) (index : ℕ) (account : Account) (d : State)
    → d ≡ record (released_state state now index account) { version = 1 }
    → (d ≡ record state {
      version = 1;
      accounts = set state.accounts index (record account {
        lease_id = [];
        lease_client_id = [];
        lease_holder = [];
        lease_started_at = zero_time;
        lease_heartbeat_at = zero_time;
        lease_expires_at = zero_time;
        updated_at = now;
      });
      dispatches = d.dispatches;
    })
      × (d.dispatches
          ≡ append_dispatch_event state.dispatches
              (dispatch_event_from_account state account (text "released") now))
unfolding released_state released clear_account_lease put_account
released-parts state now index account d s = (rw s refl, rw s refl)

-- What a successful release has done; the account's new fields are written out in `document`.
pub record Releases (aid lid cid : Str) (w w' : World) : Type 0 where
  pub index : ℕ
  pub account : Account
  pub found : get_elem? (swept_at w).accounts index ≡ some account
  pub matching : lease_matches (trim_space aid) (trim_space lid) account ≡ true
  pub held : Holds lid cid (now_at w) account
  pub document : w'.document ≡ record (swept_at w) {
    version = 1;
    accounts = set (swept_at w).accounts index (record account {
      lease_id = [];
      lease_client_id = [];
      lease_holder = [];
      lease_started_at = zero_time;
      lease_heartbeat_at = zero_time;
      lease_expires_at = zero_time;
      updated_at = now_at w;
    });
    dispatches = w'.document.dispatches;
  }
  pub event : DispatchEvent
  pub event_is :
      (event.event ≡ text "released")
      × (event.lease_id ≡ account.lease_id)
      × (event.account_id ≡ account.id)
      × (event.client_id ≡ account.lease_client_id)
      × (event.created_at ≡ now_at w)
  pub trail : w'.document.dispatches ≡ append_dispatch_event (swept_at w).dispatches event
  pub stored :
      w'.document ≡ record (released_state (swept_at w) (now_at w) index account) { version = 1 }

-- When `ReleaseLease` succeeds: in the loaded and swept state the account that it found has the ids
-- asked for and is held by the caller under the lease; the new document is that state, at version 1, with
-- two changes: this account has no lease id, client, holder nor lease times any more and was changed
-- now, and the trail is what `append_dispatch_event` makes of the old one and an event `released` of
-- that lease, account and client and of now.
pub release_lease-ok :
    (aid lid cid : Str) (w : World) {u : Unit {0}} {w' : World}
    → release_lease aid lid cid w ≡ (ok u, w')
    → Releases aid lid cid w w'
unfolding release_lease
release_lease-ok aid lid cid w {u} {w'} h =
    let st = swept_at w in
    let now = now_at w in
    let (found, e, h₁) =
      after_or_not_found _ st (find_lease_account st aid lid) _
        (after_time _ _ (after_load _ _ (after_lock w _ h))) in
    let (_, v, h₂) = after_lift _ (validate_lease found.1 lid cid now) _ h₁ in
    let s =
      ap (λ (v : World). v.document) (last_save (released_state st now found.0 found.1) _ h₂) in
    let parts = released-parts st now found.0 found.1 w'.document s in
    record {
      index = found.0;
      account = found.1;
      found = (find_lease_account-ok st aid lid e).0;
      matching = (find_lease_account-ok st aid lid e).1;
      held = validate_lease-ok found.1 lid cid now v;
      document = parts.0;
      event = dispatch_event_from_account st found.1 (text "released") now;
      event_is = unfold dispatch_event_from_account in (refl, refl, refl, refl, refl);
      trail = parts.1;
      stored = s;
    }
