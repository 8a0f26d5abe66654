-- ===== src/Lease/Claim/Taken.antt =====
-- From the choice of an account on, `ClaimLease` (internal/manager/lease.go) leases it out.
use mathlib.Core.List.{Mem}
use cube.Prelude.{
  ℕ, ◌+◌, ◌*◌, ◌++◌, ◌<◌, ◌≤◌, ◌≡◌, refl, ap, ◌∙◌, subst, sym, ◌⊎◌, inl, inr, List, [], ◌∷◌, All,
  arith, set, length, ltb, Bool-cases, Str, text,
}
use cube.Types.{Time, Account, LeaseSnapshot, State}
use cube.Balance.{score_epsilon}
use cube.Balance.Select.{Candidate, sort_slice, choose, the_choice}
use cube.Balance.Select.Drift.{Within}
use cube.Balance.Select.Best.{choose-sort_slice, All-the_choice, All-Mem}
use cube.Lease.{put_account, lease_from_account}
use cube.Lease.Claim.{
  leased_to, claimed_state, lease_out, claim_from, nothing_available, export_profile_snapshot,
}
use cube.Result.{ok}
use cube.World.{World, tick, quietly, save_round_robin, raise}
use cube.World.Steps.{saved, after_save, after_random, after_round_robin}
use cube.Lease.Claim.Keeps.{continue-last, export_profile_snapshot-Keeps, save_round_robin-Keeps}

pub record LeasedOut (state : State) (now : Time) (client holder : Str) (ttl : ℕ) (c : ℕ × Account)
    (w : World) (s : LeaseSnapshot) (w' : World) : Type 0 where
  pub random : Str
  pub minted : random ≡ w.env.random w.step
  pub others : w'.document ≡ record state {
    version = 1;
    accounts = w'.document.accounts;
    dispatches = w'.document.dispatches;
  }
  pub stored :
      w'.document.accounts
      ≡ set state.accounts c.0 (leased_to (text "lease_" ++ random) client holder ttl now c.1)
  pub reply :
      s.lease ≡ lease_from_account (leased_to (text "lease_" ++ random) client holder ttl now c.1)

lease_out-LeasedOut :
    (state : State) (now : Time) (client holder : Str) (ttl : ℕ) (c : ℕ × Account) (w : World)
    {s : LeaseSnapshot} {w' : World}
    → lease_out state now client holder ttl c w ≡ (ok s, w')
    → LeasedOut state now client holder ttl c w s w'
unfolding lease_out
lease_out-LeasedOut state now client holder ttl c w {s} {w'} h =
    let random = w.env.random w.step in
    let account = leased_to (text "lease_" ++ random) client holder ttl now c.1 in
    let v = saved (claimed_state state now c.0 account) (tick w) in
    let h₁ = after_save (tick w) (claimed_state state now c.0 account) _ (after_random w _ h) in
    let u = (quietly (save_round_robin account.id) v).1 in
    let (snap, p, q) =
      continue-last _ (export_profile_snapshot account.id u).0
        (export_profile_snapshot account.id u).1 h₁ in
    let kept : w'.document ≡ v.document =
      ap (λ (x : World). x.document) q
      ∙ export_profile_snapshot-Keeps account.id u
      ∙ save_round_robin-Keeps account.id v in
    record {
      random = random;
      minted = refl;
      others = rw kept (unfold claimed_state put_account in refl);
      stored = ap (λ (d : State). d.accounts) kept ∙ unfold claimed_state put_account in refl;
      reply = ap (λ (x : LeaseSnapshot). x.lease) p;
    }

-- What the choice among the candidates comes to, when they all have `P`.
pub record Picked (P : Candidate (ℕ × Account) → Type 0) (state : State) (now : Time)
    (client holder : Str) (ttl : ℕ) (l : List (Candidate (ℕ × Account))) (w : World)
    (s : LeaseSnapshot) (w' : World) : Type 0 where
  pub candidate : Candidate (ℕ × Account)
  pub has : P candidate
  pub one_of : Mem candidate l
  pub near : (12 < length l) ⊎ Within (candidate.score + length l * score_epsilon) l
  pub out : LeasedOut state now client holder ttl candidate.account (tick w) s w'

few_or_many : (n : ℕ) → (n ≤ 12) ⊎ (12 < n)
few_or_many n = elim (Bool-cases (ltb 12 n)) [
  | inl e ↦ inr (ground arith)
  | inr e ↦ inl (ground arith)
]

-- Up to twelve candidates, the one taken is close to the best.
the_choice-near :
    (long : List (Str × ℕ) → List ℕ) (last : Str) (x : Candidate (ℕ × Account))
    (xs : List (Candidate (ℕ × Account)))
    → let l = x ∷ xs in
      (12 < length l)
      ⊎ Within ((the_choice x (choose last (sort_slice long l))).score + length l * score_epsilon) l
unfolding the_choice
the_choice-near long last x xs =
    let l = x ∷ xs in
    elim (few_or_many (length l)) [
      | inl few ↦
          let best = choose-sort_slice long last l (omega arith) few in
          let same : the_choice x (choose last (sort_slice long l)) ≡ best.candidate =
            rw best.chosen refl in
          inr (
            subst (λ (c : Candidate (ℕ × Account)). Within (c.score + length l * score_epsilon) l)
              (sym same) best.near)
      | inr many ↦ inl many
    ]

pub claim_from-Picked :
    (P : Candidate (ℕ × Account) → Type 0) (state : State) (now : Time) (client holder : Str)
    (ttl : ℕ) (l : List (Candidate (ℕ × Account))) (w : World) {s : LeaseSnapshot} {w' : World}
    → All P l
    → claim_from state now client holder ttl l w ≡ (ok s, w')
    → Picked P state now client holder ttl l w s w'
unfolding claim_from
claim_from-Picked P state now client holder ttl [] w a h =
    cc (after_save w state (raise nothing_available) h)
claim_from-Picked P state now client holder ttl (x ∷ xs) w {s} {w'} a h =
    let long = w.env.long_sort in
    let c = the_choice x (choose w.round_robin (sort_slice long (x ∷ xs))) in
    record {
      candidate = c;
      has = All-the_choice P long w.round_robin x xs a;
      one_of = All-the_choice (λ d. Mem d (x ∷ xs)) long w.round_robin x xs (All-Mem (x ∷ xs));
      near = the_choice-near long w.round_robin x xs;
      out =
          lease_out-LeasedOut state now client holder ttl c.account (tick w)
            (after_round_robin w _ h);
    }
