-- ===== src/Lease/Claim/Fresh.antt =====
-- What a successful `ClaimLease` (internal/manager/lease.go) has done.
use mathlib.Core.List.{Mem}
use cube.Prelude.{
  ℕ, suc, ◌+◌, ◌*◌, ◌++◌, ◌<◌, ◌≡◌, refl, ap, true, false, ◌⊎◌, inl, inr, some, ◌∷◌, arith,
  get_elem?, set, length, ltb, Bool-cases, Str, text, trim_space, trim_by, drop_while, is_space,
  is_blank, is_empty,
}
use cube.Prelude.Trim.{trim_right-cons}
use cube.Types.{Time, zero_time, Account, LeaseSnapshot}
use cube.Balance.{score_epsilon}
use cube.Balance.Select.{Candidate}
use cube.Balance.Select.Drift.{Within}
use cube.Lease.{account_lease_active, normalize_lease_ttl, lease_from_account}
use cube.Lease.Claim.{auth_present, leased_to, claim_locked, claim_lease, recover_expired_leases}
use cube.Lease.Lookup.{swept_at, now_at, Lasts, normalize_lease_ttl-Lasts}
use cube.Result.{ok}
use cube.World.{World, M, tick}
use cube.World.Steps.{after_lock, after_load, after_time}
use cube.Lease.Claim.Keeps.{continue-ok}
use cube.Lease.Claim.Available.{Available, Placed, candidates-Placed, choices}
use cube.Lease.Claim.Taken.{claim_from-Picked}

-- The id of a lease is not blank, and its time is at least 30 seconds.
lease_id-given : (random : Str) → is_blank (text "lease_" ++ random) ≡ false
unfolding is_blank trim_space trim_by drop_while is_space is_empty
lease_id-given random =
    rw (trim_right-cons is_space 108 (101 ∷ 97 ∷ 115 ∷ 101 ∷ 95 ∷ random) refl) refl

leased_to-live :
    (random client holder : Str) (ttl : ℕ) (now : Time) (a : Account)
    → (now < zero_time)
      ⊎ (account_lease_active (leased_to (text "lease_" ++ random) client holder ttl now a) now
          ≡ true)
unfolding leased_to account_lease_active normalize_lease_ttl
leased_to-live random client holder ttl now a = elim (Bool-cases (ltb now zero_time)) [
  | inl e ↦ inl (ground arith)
  | inr e ↦ inr (rw (lease_id-given random) (ground arith))
]

-- What a claim has done. `index` and `account` name the account in the state that was loaded and swept;
-- `choice` is its candidate. `leased` writes the account's new fields out.
pub record Claims (client holder pool : Str) (ttl : ℕ) (w : World) (s : LeaseSnapshot) (w' : World)
    : Type 0 where
  pub index : ℕ
  pub account : Account
  pub random : Str
  pub minted : random ≡ w.env.random (w.step + 4)
  pub found : get_elem? (swept_at w).accounts index ≡ some account
  pub free : Available (auth_present w) (swept_at w) (now_at w) (trim_space pool) account
  pub choice : Candidate (ℕ × Account)
  pub its_account : choice.account ≡ (index, account)
  pub one_of : Mem choice (choices w pool)
  pub best :
      (12 < length (choices w pool))
      ⊎ Within (choice.score + length (choices w pool) * score_epsilon) (choices w pool)
  pub lasts : ℕ
  pub period : Lasts ttl lasts
  pub leased :
      w'.document.accounts
      ≡ set (swept_at w).accounts index (record account {
        lease_id = text "lease_" ++ random;
        lease_client_id = trim_space client;
        lease_holder = trim_space holder;
        lease_started_at = now_at w;
        lease_heartbeat_at = now_at w;
        lease_expires_at = now_at w + lasts;
        updated_at = now_at w;
      })
  pub others : w'.document ≡ record (swept_at w) {
    version = 1;
    accounts = w'.document.accounts;
    dispatches = w'.document.dispatches;
  }
  pub stored :
      w'.document.accounts
      ≡ set
          (swept_at w).accounts
          index
          (leased_to (text "lease_" ++ random) client holder ttl (now_at w) account)
  pub reply : s.lease ≡ record {
    id = text "lease_" ++ random;
    account_id = account.id;
    client_id = trim_space client;
    holder = trim_space holder;
    generation = account.generation;
    started_at = now_at w;
    heartbeat_at = now_at w;
    expires_at = now_at w + lasts;
  }
  pub live :
      (now_at w < zero_time)
      ⊎ (account_lease_active
            (leased_to (text "lease_" ++ random) client holder ttl (now_at w) account)
            (now_at w)
          ≡ true)

step_four : (n : ℕ) → n + 4 ≡ suc (suc (suc (suc n)))
step_four n = omega arith

claim_locked-Claims :
    (client holder pool : Str) (ttl : ℕ) (w : World) {s : LeaseSnapshot} {w' : World}
    → claim_locked client holder pool ttl w ≡ (ok s, w')
    → Claims client holder pool ttl w s w'
unfolding claim_locked auth_present
claim_locked-Claims client holder pool ttl w {s} {w'} h =
    let st = swept_at w in
    let now = now_at w in
    let P = Placed (auth_present w) st now (trim_space pool) 0 st.accounts in
    let h₁ = after_time _ _ (after_load _ _ (after_lock w _ h)) in
    let p =
      claim_from-Picked P st now client holder ttl (choices w pool) (tick (tick (tick w)))
        (candidates-Placed (auth_present w) st now (trim_space pool) 0 st.accounts) h₁ in
    let (k, e, at, free) = p.has in
    let index = p.candidate.account.0 in
    let account = p.candidate.account.1 in
    let same : index ≡ k = omega arith in
    record {
      index = index;
      account = account;
      random = p.out.random;
      minted = rw (step_four w.step) p.out.minted;
      found = rw same at;
      free = free;
      choice = p.candidate;
      its_account = refl;
      one_of = p.one_of;
      best = p.near;
      lasts = normalize_lease_ttl ttl;
      period = normalize_lease_ttl-Lasts ttl;
      leased = unfold leased_to in p.out.stored;
      others = p.out.others;
      stored = p.out.stored;
      reply = unfold leased_to lease_from_account in p.out.reply;
      live = leased_to-live p.out.random client holder ttl now account;
    }

-- When `ClaimLease` succeeds, whatever the re-probes of the expired leases did to the files before:
-- after them, in the state loaded and swept, there was an account that the balancer lets run, in the
-- pool asked for, and it was one of the candidates; if these were at most twelve, none scores more than
-- it by above one epsilon for each of them; this account alone is changed, to one leased to the client and
-- holder, both trimmed, under the id `lease_` with the text drawn from the random source, from now for the
-- time asked for if that is from 30 seconds to 30 minutes, else for 90 seconds or 30 minutes, and the lease
-- is active at once unless the clock is before the year 1; of the rest of the document only the version and
-- the trail may differ; and the reply is this lease.
pub claim_lease-Claims {ℓ} :
    {A : Type ℓ} (fetch : Str → M A) (client holder pool : Str) (ttl : ℕ) (w : World)
    {s : LeaseSnapshot} {w' : World}
    → claim_lease fetch client holder pool ttl w ≡ (ok s, w')
    → (v : World) × (recover_expired_leases fetch w ≡ (ok tt, v))
      × Claims client holder pool ttl v s w'
unfolding claim_lease
claim_lease-Claims fetch client holder pool ttl w {s} {w'} h =
    let r = recover_expired_leases fetch w in
    let (u, p, h₁) = continue-ok (λ u. claim_locked client holder pool ttl) r.0 r.1 h in
    (r.1, ap (λ x. (x, r.1)) p, claim_locked-Claims client holder pool ttl r.1 h₁)
