-- ===== src/Lease/Refine.antt =====
-- The lease operations of internal/manager/lease.go take the steps of the abstract table.
pub mod Calls
use mathlib.Core.Option.{some-injective}
use cube.Prelude.{
  ℕ, zero, suc, ◌+◌, ◌≡◌, ◌≤◌, refl, ap, sym, subst, ◌∙◌, inl, inr, true, false, some, List, [],
  ◌∷◌, map, arith, get_elem?, set, Bool-cases, Str, is_blank, text, ◌++◌,
}
use cube.Types.{Time, zero_time, Account, Lease, LeaseSnapshot, ProfileSnapshot, State}
use cube.Result.{ok}
use cube.World.{World, M, pure, ◌>>=◌, tick}
use cube.World.Steps.{loaded, after_bind, after_pure}
use cube.Lease.{
  account_lease_active, normalize_lease_ttl, is_due, expire_account, swept_state,
  expire_account_leases, clear_account_lease, put_account,
}
use cube.Lease.Sweep.{swept, sweep_accounts-accounts, active-not-due}
use cube.Lease.Lookup.{swept_at, now_at, Holds}
use cube.Lease.Touch.{touched, touch_lease, touch_lease-ok, Touches}
use cube.Lease.Release.{released, released_state, release_lease, release_lease-ok, Releases}
use cube.Lease.Update.{
  updated, update_leased_profile_snapshot, update_leased_profile_snapshot-ok, Updates,
}
use cube.Lease.Claim.{leased_to, claim_lease, recover_expired_leases}
use cube.Lease.Claim.Fresh.{claim_lease-Claims, Claims}
use cube.Lease.Table.{
  Slot, Step, Operation, slot, table, free, held, claim, extend, release, claimed, extended, freed,
}

pub slot-free : (now : Time) (a : Account) → account_lease_active a now ≡ false → slot now a ≡ free
slot-free now a h = rw h refl

pub slot-held :
    (now : Time) (a : Account)
    → account_lease_active a now ≡ true
    → slot now a ≡ held a.lease_id a.lease_client_id
slot-held now a h = rw h refl

expired-inactive :
    (now : Time) (a : Account) → account_lease_active (expire_account now a) now ≡ false
unfolding account_lease_active expire_account is_blank
expired-inactive now a = refl

due-inactive : (now : Time) (a : Account) → is_due a now ≡ true → account_lease_active a now ≡ false
due-inactive now a h = elim (Bool-cases (account_lease_active a now)) [
  | inl e ↦ cc (active-not-due a now e)
  | inr e ↦ e
]

-- The sweep clears only what has lapsed: the table does not show it.
slot-swept : (now : Time) (a : Account) → slot now (swept now a) ≡ slot now a
slot-swept now a = elim (Bool-cases (is_due a now)) [
  | inl e ↦
      rw e (slot-free now _ (expired-inactive now a) ∙ sym (slot-free now a (due-inactive now a e)))
  | inr e ↦ rw e refl
]

map-slot-swept :
    (now : Time) (xs : List Account) → map (slot now) (map (swept now) xs) ≡ map (slot now) xs
map-slot-swept now [] = refl
map-slot-swept now (a ∷ xs) =
    ap (λ s. s ∷ map (slot now) (map (swept now) xs)) (slot-swept now a)
    ∙ ap (◌∷◌ (slot now a)) (map-slot-swept now xs)

get_elem?-table :
    (now : Time) (xs : List Account) (i : ℕ) {a : Account}
    → get_elem? xs i ≡ some a
    → get_elem? (table now xs) i ≡ some (slot now a)
unfolding table
get_elem?-table now [] i h = cc
get_elem?-table now (x ∷ xs) zero h = ap (λ a. some (slot now a)) (some-injective _ _ h)
get_elem?-table now (x ∷ xs) (suc i) {a} h = get_elem?-table now xs i {a = a} h

table-set :
    (now : Time) (xs : List Account) (i : ℕ) (a : Account)
    → table now (set xs i a) ≡ set (table now xs) i (slot now a)
unfolding table
table-set now [] i a = refl
table-set now (x ∷ xs) zero a = refl
table-set now (x ∷ xs) (suc i) a = ap (◌∷◌ (slot now x)) (table-set now xs i a)

set_same : (ss : List Slot) (i : ℕ) {s : Slot} → get_elem? ss i ≡ some s → set ss i s ≡ ss
set_same [] i h = refl
set_same (x ∷ ss) zero {s} h = ap (λ t. t ∷ ss) (sym (some-injective x s h))
set_same (x ∷ ss) (suc i) {s} h = ap (◌∷◌ x) (set_same ss i {s = s} h)

table-swept :
    (now : Time) (state : State)
    → table now (swept_state state now).accounts ≡ table now state.accounts
unfolding table swept_state expire_account_leases
table-swept now state =
    ap (map (slot now)) (sweep_accounts-accounts state now state.dispatches state.accounts)
    ∙ map-slot-swept now state.accounts

-- The accounts that an operation has stored show the table with one slot written.
pub table_stored :
    (w : World) (after : List Account) (i : ℕ) (a : Account)
    → after ≡ set (swept_at w).accounts i a
    → table (now_at w) after
      ≡ set (table (now_at w) (loaded (tick w)).accounts) i (slot (now_at w) a)
table_stored w after i a h =
    ap (table (now_at w)) h
    ∙ table-set (now_at w) (swept_at w).accounts i a
    ∙ ap (λ ss. set ss i (slot (now_at w) a)) (table-swept (now_at w) (loaded (tick w)))

pub slot_found :
    (w : World) (i : ℕ) (a : Account)
    → get_elem? (swept_at w).accounts i ≡ some a
    → get_elem? (table (now_at w) (loaded (tick w)).accounts) i ≡ some (slot (now_at w) a)
slot_found w i a h =
    ap (λ ss. get_elem? ss i) (sym (table-swept (now_at w) (loaded (tick w))))
    ∙ get_elem?-table (now_at w) (swept_at w).accounts i {a = a} h

-- The table before and after an operation, at the time that it reads.
abbrev pub Refines : Operation → World → World → Type 0
Refines op w w' =
    Step op (table (now_at w) (loaded (tick w)).accounts) (table (now_at w) w'.document.accounts)

renewed-active :
    (now : Time) (ttl : ℕ) (a b : Account)
    → zero_time ≤ now
    → account_lease_active a now ≡ true
    → b.lease_id ≡ a.lease_id
    → b.lease_expires_at ≡ now + normalize_lease_ttl ttl
    → account_lease_active b now ≡ true
unfolding account_lease_active normalize_lease_ttl
renewed-active now ttl a b z h p q = rw p (rw q (ground arith))

pub extends :
    (w : World) (lid cid : Str) (ttl i : ℕ) (a b : Account) (after : World)
    → zero_time ≤ now_at w
    → get_elem? (swept_at w).accounts i ≡ some a
    → Holds lid cid (now_at w) a
    → b.lease_id ≡ a.lease_id
    → b.lease_client_id ≡ a.lease_client_id
    → b.lease_expires_at ≡ now_at w + normalize_lease_ttl ttl
    → after.document.accounts ≡ set (swept_at w).accounts i b
    → Refines (extend lid cid) w after
extends w lid cid ttl i a b after z found hold p c q stored =
    let now = now_at w in
    let before = table now (loaded (tick w)).accounts in
    let at : get_elem? before i ≡ some (held a.lease_id a.lease_client_id) =
      slot_found w i a found ∙ ap some (slot-held now a hold.live) in
    let new : slot now b ≡ held a.lease_id a.lease_client_id =
      slot-held now b (renewed-active now ttl a b z hold.live p q) ∙ ground (arith, p, c) in
    let same : table now after.document.accounts ≡ before =
      table_stored w after.document.accounts i b stored
      ∙ ap (λ s. set before i s) new
      ∙ set_same before i {s = held a.lease_id a.lease_client_id} at in
    subst (Step (extend lid cid) before) (sym same)
      (extended lid cid a.lease_id a.lease_client_id i before at (hold.named, hold.owner))

pub released-inactive :
    (now : Time) (a : Account) → account_lease_active (released now a) now ≡ false
unfolding account_lease_active released clear_account_lease is_blank
released-inactive now a = refl
