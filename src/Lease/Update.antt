-- ===== src/Lease/Update.antt =====
-- `UpdateLeasedProfileSnapshot` of internal/manager/lease.go.
use cube.Prelude.{
  ℕ, zero, suc, ◌+◌, ◌-◌, ◌^◌, ◌==◌, ◌≡◌, refl, ◌⊎◌, inl, inr, ℤ, pos, negsuc, succ_ℤ, Bool-cases,
  ap, Bool, true, false, not, ◌&&◌, ◌||◌, some, [], ◌∷◌, arith, if◌then◌else◌, Str, text, str_eq,
  trim_space, is_empty, is_blank, get_elem?, set, eq_ℤ, eq_ℤ_iff, ◌∙◌, str_eq_refl,
}
use cube.Types.{Time, Account, AccountStatus, ProfileSnapshot}
use cube.Normalize.{valid_account_status}
use cube.Result.{ok, failed, unknown_status, generation_conflict}
use cube.World.{
  World, M, pure, raise_if, ◌>>=◌, ◌>>◌, acquire_lock, load, time_now, save, or_save,
  write_profile_files, require_json,
}
use cube.World.Steps.{
  after_lock, after_load, after_time, after_save, after_or_save, after_pure, after_raise_if,
  after_require_json, after_write_profile_files,
}
use cube.Lease.Lookup.{
  swept_at, now_at, Holds, Lasts, normalize_lease_ttl-Lasts, find_lease_account-ok,
  validate_lease-ok,
}
use cube.Lease.{
  first_non_empty, normalize_lease_ttl, find_lease_account, validate_lease, put_account,
  swept_state, increment,
}

-- `status != ""`
unfoldable pub is_given : AccountStatus → Bool
is_given (AccountStatus.other s) = not (is_empty s)
is_given _ = true

if-not {ℓ} : {A : Type ℓ} (b : Bool) (x y : A) → (if not b then x else y) ≡ (if b then y else x)
if-not true x y = refl
if-not false x y = refl

-- What an update of the auth makes of the account.
unfoldable pub updated : ProfileSnapshot → ℕ → Time → Account → Account
updated snapshot ttl now account = record account {
  label = if not (is_blank snapshot.label) then trim_space snapshot.label else account.label;
  plan = if not (is_blank snapshot.plan) then trim_space snapshot.plan else account.plan;
  status = if is_given snapshot.status then snapshot.status else account.status;
  generation = increment account.generation;
  lease_holder = first_non_empty (trim_space snapshot.source_client ∷ account.lease_holder ∷ []);
  lease_heartbeat_at = now;
  lease_expires_at = now + normalize_lease_ttl ttl;
  updated_at = now;
}

-- The part behind the lock.
unfoldable pub update_locked : ProfileSnapshot → Str → ℕ → M Account
update_locked snapshot client_id ttl = do
  loaded ← load
  now ← time_now
  let state = swept_state loaded now
  found ← or_save state (find_lease_account state snapshot.id snapshot.lease_id)
  or_save state (validate_lease found.1 snapshot.lease_id client_id now)
  raise_if (not (eq_ℤ snapshot.generation found.1.generation))
      (generation_conflict found.1.id snapshot.generation found.1.generation)
  write_profile_files found.1.codex_home snapshot.auth
  let account = updated snapshot ttl now found.1
  save (put_account state found.0 account)
  pure account

unfoldable pub update_leased_profile_snapshot : ProfileSnapshot → Str → ℕ → M Account
update_leased_profile_snapshot snapshot client_id ttl = do
  raise_if (is_blank snapshot.id) (failed (text "lease auth update needs account id"))
  raise_if (is_blank snapshot.lease_id) (failed (text "lease auth update needs lease id"))
  raise_if (is_empty snapshot.auth || str_eq snapshot.auth (text "null"))
      (failed (text "lease auth update needs auth"))
  require_json snapshot.auth (failed (text "auth is not valid JSON"))
  raise_if (is_given snapshot.status && not (valid_account_status snapshot.status))
      (unknown_status snapshot.status)
  acquire_lock
  update_locked snapshot client_id ttl

-- The generation after `x`: one more, and after the last int64 the first.
abbrev pub Next : ℤ → ℤ → Type 0
Next x y = (y ≡ succ_ℤ x) ⊎ ((x ≡ pos (2 ^ 63 - 1)) × (y ≡ negsuc (2 ^ 63 - 1)))

pub increment-Next : (x : ℤ) → Next x (increment x)
unfolding increment
increment-Next (pos n) = elim (Bool-cases (suc n == 2 ^ 63)) [
  | inl e ↦ inr (ap pos (ground arith), rw e refl)
  | inr e ↦ inl (rw e refl)
]
increment-Next (negsuc zero) = inl refl
increment-Next (negsuc (suc n)) = inl refl

updated-fields :
    (snapshot : ProfileSnapshot) (ttl : ℕ) (now : Time) (old : Account)
    → updated snapshot ttl now old ≡ record old {
      label = if is_blank snapshot.label then old.label else trim_space snapshot.label;
      plan = if is_blank snapshot.plan then old.plan else trim_space snapshot.plan;
      status = if is_given snapshot.status then snapshot.status else old.status;
      generation = increment old.generation;
      lease_holder = first_non_empty (trim_space snapshot.source_client ∷ old.lease_holder ∷ []);
      lease_heartbeat_at = now;
      lease_expires_at = now + normalize_lease_ttl ttl;
      updated_at = now;
    }
unfolding updated
updated-fields snapshot ttl now old =
    rw (if-not (is_blank snapshot.label) (trim_space snapshot.label) old.label)
      (rw (if-not (is_blank snapshot.plan) (trim_space snapshot.plan) old.plan) refl)

-- The checks before the lock, and the worlds of the part behind it: the lock is the run's first step.
pub record Updates (snapshot : ProfileSnapshot) (cid : Str) (ttl : ℕ) (w : World)
    (account : Account) (w' : World) : Type 0 where
  pub named : (is_blank snapshot.id ≡ false) × (is_blank snapshot.lease_id ≡ false)
  pub auth : w.env.json_valid snapshot.auth ≡ true
  pub index : ℕ
  pub old : Account
  pub found : get_elem? (swept_at w).accounts index ≡ some old
  pub held : Holds snapshot.lease_id cid (now_at w) old
  pub current : snapshot.generation ≡ old.generation
  pub lasts : ℕ
  pub period : Lasts ttl lasts
  pub next : ℤ
  pub next_generation : Next old.generation next
  pub account_is : account ≡ record old {
    label = if is_blank snapshot.label then old.label else trim_space snapshot.label;
    plan = if is_blank snapshot.plan then old.plan else trim_space snapshot.plan;
    status = if is_given snapshot.status then snapshot.status else old.status;
    generation = next;
    lease_holder = first_non_empty (trim_space snapshot.source_client ∷ old.lease_holder ∷ []);
    lease_heartbeat_at = now_at w;
    lease_expires_at = now_at w + lasts;
    updated_at = now_at w;
  }
  pub document :
      w'.document
      ≡ record (swept_at w) { version = 1; accounts = set (swept_at w).accounts index account }
  pub reply : account ≡ updated snapshot ttl (now_at w) old
  pub stored : w'.document.accounts ≡ set (swept_at w).accounts index account
  pub written : w'.auth old.codex_home ≡ some (w.env.pretty_json snapshot.auth)

-- When `UpdateLeasedProfileSnapshot` succeeds: the ids are given and the auth is JSON; in the loaded and
-- swept state the account is held by the caller under the lease and its generation is the one
-- sent. The new document is that state, at version 1, with this account alone changed to the one
-- returned: its generation is one more (after the last int64 the first), its expiry is now plus the time
-- asked for if that is from 30 seconds to 30 minutes, else plus 90 seconds or 30 minutes, and what the
-- snapshot gives of label, plan, status and holder replaces the old. Its auth.json is the indented auth.
pub update_leased_profile_snapshot-ok :
    (snapshot : ProfileSnapshot) (cid : Str) (ttl : ℕ) (w : World) {account : Account} {w' : World}
    → update_leased_profile_snapshot snapshot cid ttl w ≡ (ok account, w')
    → Updates snapshot cid ttl w account w'
unfolding update_leased_profile_snapshot update_locked put_account
update_leased_profile_snapshot-ok snapshot cid ttl w h =
    let st = swept_at w in
    let now = now_at w in
    let (id, h₁) = after_raise_if w _ _ _ h in
    let (lease, h₂) = after_raise_if w _ _ _ h₁ in
    let (_, h₃) = after_raise_if w _ _ _ h₂ in
    let (valid, h₄) = after_require_json w _ _ _ h₃ in
    let (_, h₅) = after_raise_if w _ _ _ h₄ in
    let (found, e, h₆) =
      after_or_save _ st (find_lease_account st snapshot.id snapshot.lease_id) _
        (after_time _ _ (after_load _ _ (after_lock w _ h₅))) in
    let (_, v, h₇) = after_or_save _ st (validate_lease found.1 snapshot.lease_id cid now) _ h₆ in
    let (same, h₈) = after_raise_if _ (not (eq_ℤ snapshot.generation found.1.generation)) _ _ h₇ in
    let h₉ = after_write_profile_files _ found.1.codex_home snapshot.auth _ h₈ in
    let account = updated snapshot ttl now found.1 in
    let (r, s) = after_pure account _ (after_save _ (put_account st found.0 account) _ h₉) in
    record {
      named = (id, lease);
      auth = valid;
      index = found.0;
      old = found.1;
      found = (find_lease_account-ok st snapshot.id snapshot.lease_id e).0;
      held = validate_lease-ok found.1 snapshot.lease_id cid now v;
      current = ground (arith, eq_ℤ_iff snapshot.generation found.1.generation);
      lasts = normalize_lease_ttl ttl;
      period = normalize_lease_ttl-Lasts ttl;
      next = increment found.1.generation;
      next_generation = increment-Next found.1.generation;
      account_is = r ∙ updated-fields snapshot ttl now found.1;
      document = rw r (ap (λ (v : World). v.document) s);
      reply = r;
      stored = rw r (ap (λ (v : World). v.document.accounts) s);
      written =
          ap (λ (v : World). v.auth found.1.codex_home) s ∙ rw (str_eq_refl found.1.codex_home);
    }
