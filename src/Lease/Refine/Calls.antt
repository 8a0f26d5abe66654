-- ===== src/Lease/Refine/Calls.antt =====
-- The calls of internal/manager/lease.go, each against the step of the table that it stands for.
use cube.Prelude.{
  ℕ, ◌≡◌, ◌≤◌, refl, ap, sym, subst, ◌∙◌, inl, inr, true, some, arith, get_elem?, set, Str, text,
  ◌++◌,
}
use cube.Types.{zero_time, Account, Lease, LeaseSnapshot, ProfileSnapshot, State}
use cube.Result.{ok}
use cube.World.{World, M, pure, ◌>>=◌, tick}
use cube.World.Steps.{loaded, after_bind, after_pure}
use cube.Lease.{account_lease_active, put_account}
use cube.Lease.Lookup.{swept_at, now_at}
use cube.Lease.Touch.{touched, touch_lease, touch_lease-ok, Touches}
use cube.Lease.Release.{released, released_state, release_lease, release_lease-ok, Releases}
use cube.Lease.Update.{
  updated, update_leased_profile_snapshot, update_leased_profile_snapshot-ok, Updates,
}
use cube.Lease.Claim.{leased_to, claim_lease, recover_expired_leases}
use cube.Lease.Claim.Fresh.{claim_lease-Claims, Claims}
use cube.Lease.Table.{Step, Operation, table, free, held, claim, extend, release, claimed, freed}
use cube.Lease.Refine.{
  slot-free, slot-held, table_stored, slot_found, Refines, extends, released-inactive,
}

-- The calls of the lease operations: a claim by a client, a touch, an upload of the auth and a release.
pub data Call : Type 0 where
  claiming : (client holder pool : Str) (ttl : ℕ) → Call
  touching : (lease_id account_id client_id holder : Str) (ttl : ℕ) → Call
  updating : (snapshot : ProfileSnapshot) (client_id : Str) (ttl : ℕ) → Call
  releasing : (account_id lease_id client_id : Str) → Call

-- The step that a call stands for.
abbrev pub step_of : Call → Operation
step_of (claiming client holder pool ttl) = claim client
step_of (touching lid aid cid holder ttl) = extend lid cid
step_of (updating snapshot cid ttl) = extend snapshot.lease_id cid
step_of (releasing aid lid cid) = release lid cid

-- Run the call; what it returns besides its success is left out.
unfoldable pub run {ℓ} : {A : Type ℓ} → (Str → M A) → Call → M (Unit {0})
run fetch (claiming client holder pool ttl) = do
  s ← claim_lease fetch client holder pool ttl
  pure tt
run fetch (touching lid aid cid holder ttl) = do l ← touch_lease lid aid cid holder ttl; pure tt
run fetch (updating snapshot cid ttl) = do
  a ← update_leased_profile_snapshot snapshot cid ttl
  pure tt
run fetch (releasing aid lid cid) = release_lease aid lid cid

-- Where the call begins its work: a claim recovers the lapsed accounts first.
abbrev pub Begins {ℓ} : {A : Type ℓ} → (Str → M A) → Call → World → World → Type 0
Begins fetch (claiming client holder pool ttl) w v = recover_expired_leases fetch w ≡ (ok tt, v)
Begins fetch (touching lid aid cid holder ttl) w v = v ≡ w
Begins fetch (updating snapshot cid ttl) w v = v ≡ w
Begins fetch (releasing aid lid cid) w v = v ≡ w

claim_Refines :
    (client holder pool : Str) (ttl : ℕ) (v : World) (s : LeaseSnapshot) (w' : World)
    → zero_time ≤ now_at v
    → Claims client holder pool ttl v s w'
    → Refines (claim client) v w'
unfolding leased_to
claim_Refines client holder pool ttl v s w' z c =
    let now = now_at v in
    let before = table now (loaded (tick v)).accounts in
    let lease = text "lease_" ++ c.random in
    let b = leased_to lease client holder ttl now c.account in
    let active : account_lease_active b now ≡ true = elim c.live [
      | inl h ↦ absurd (omega arith)
      | inr h ↦ h
    ] in
    let at : get_elem? before c.index ≡ some free =
      slot_found v c.index c.account c.found
      ∙ ap some (slot-free now c.account c.free.may_run.free) in
    subst (Step (claim client) before)
      (sym (
        table_stored v w'.document.accounts c.index b c.stored
        ∙ ap (λ s. set before c.index s) (slot-held now b active)))
      (claimed client lease c.index before at)

release_Refines :
    (aid lid cid : Str) (w w' : World) → Releases aid lid cid w w' → Refines (release lid cid) w w'
unfolding released_state put_account
release_Refines aid lid cid w w' r =
    let now = now_at w in
    let before = table now (loaded (tick w)).accounts in
    let a = r.account in
    let at : get_elem? before r.index ≡ some (held a.lease_id a.lease_client_id) =
      slot_found w r.index a r.found ∙ ap some (slot-held now a r.held.live) in
    let stored : w'.document.accounts ≡ set (swept_at w).accounts r.index (released now a) =
      ap (λ (s : State). s.accounts) r.stored in
    subst (Step (release lid cid) before)
      (sym (
        table_stored w w'.document.accounts r.index (released now a) stored
        ∙ ap (λ s. set before r.index s)
            (slot-free now (released now a) (released-inactive now a))))
      (freed lid cid a.lease_id a.lease_client_id r.index before at (r.held.named, r.held.owner))

touch_Refines :
    (lid aid cid holder : Str) (ttl : ℕ) (w : World) (l : Lease) (w' : World)
    → zero_time ≤ now_at w
    → Touches lid aid cid holder ttl w l w'
    → Refines (extend lid cid) w w'
unfolding touched
touch_Refines lid aid cid holder ttl w l w' z t =
    extends w lid cid ttl t.index t.account (touched holder ttl (now_at w) t.account) w' z t.found
      t.held refl refl refl t.stored

update_Refines :
    (snapshot : ProfileSnapshot) (cid : Str) (ttl : ℕ) (w : World) (a : Account) (w' : World)
    → zero_time ≤ now_at w
    → Updates snapshot cid ttl w a w'
    → Refines (extend snapshot.lease_id cid) w w'
unfolding updated
update_Refines snapshot cid ttl w a w' z u =
    extends w snapshot.lease_id cid ttl u.index u.old a w' z u.found u.held
      (ap (λ (x : Account). x.lease_id) u.reply) (ap (λ (x : Account). x.lease_client_id) u.reply)
      (ap (λ (x : Account). x.lease_expires_at) u.reply) u.stored

-- A successful call takes the step of the abstract table that it stands for, from the table of the loaded
-- accounts to that of the new document, both at the time it reads, if that is not before the year 1. A
-- claim does so from the world that its recovery of lapsed accounts leaves.
pub run-Refines {ℓ} :
    {A : Type ℓ} (fetch : Str → M A) (call : Call) (w : World) {u : Unit {0}} {w' : World}
    → run fetch call w ≡ (ok u, w')
    → ((v : World) → Begins fetch call w v → zero_time ≤ now_at v)
    → (v : World) × Begins fetch call w v × Refines (step_of call) v w'
unfolding run
run-Refines fetch (claiming client holder pool ttl) w {u} {w'} h z =
    let (s, p, q) = after_bind (claim_lease fetch client holder pool ttl) _ w h in
    let (e, same) = after_pure tt _ q in
    let (v, begins, c) =
      claim_lease-Claims fetch client holder pool ttl w {s = s} {w' = w'} (rw same p) in
    (v, begins, claim_Refines client holder pool ttl v s w' (z v begins) c)
run-Refines fetch (touching lid aid cid holder ttl) w {u} {w'} h z =
    let (l, p, q) = after_bind (touch_lease lid aid cid holder ttl) _ w h in
    let (e, same) = after_pure tt _ q in
    (
      w,
      refl,
      touch_Refines lid aid cid holder ttl w l w' (z w refl)
          (touch_lease-ok lid aid cid holder ttl w {lease = l} {w' = w'} (rw same p)),
    )
run-Refines fetch (updating snapshot cid ttl) w {u} {w'} h z =
    let (a, p, q) = after_bind (update_leased_profile_snapshot snapshot cid ttl) _ w h in
    let (e, same) = after_pure tt _ q in
    (
      w,
      refl,
      update_Refines snapshot cid ttl w a w' (z w refl) (
          update_leased_profile_snapshot-ok snapshot cid ttl w {account = a} {w' = w'} (rw same p)),
    )
run-Refines fetch (releasing aid lid cid) w {u} {w'} h z =
    (w, refl, release_Refines aid lid cid w w' (release_lease-ok aid lid cid w {u = u} {w' = w'} h))
